-- ===== src/Lib.antt =====
-- A model of xknx, a library that speaks the KNX bus protocol over IP, and the theorems about it.
--
-- A telegram travels as a CEMI frame: the transport layer control information (TPCI) shares octets
-- with the application layer service (APCI), which may be wrapped by KNX Data Secure. Addresses name
-- devices and groups; filters select telegrams by address.
--
-- Which file models which code:
--   Prelude and the files under it   what the parts share: Boolean tests, lists, results with the
--       exceptions that are raised, methods on mutable state, dictionaries, futures, octets and their
--       big endian numbers, bit operations on numbers, text as code points.
--   Telegram.Tpci      xknx/telegram/tpci.py. A class is a constructor of Tpci.
--   Telegram.Address   xknx/telegram/address.py. Forms has the classes and functions; the format of
--       group addresses, a class attribute there, is an argument.
--   Telegram.Filter    xknx/telegram/address_filter.py. fnmatch is an argument.
--   Telegram.Apci      xknx/telegram/apci.py. A class is a constructor of Services.Apci with its
--       fields; the methods from_knx and to_knx of a class are functions with the class as a prefix
--       (`memory_read_to_knx`), in one file for each family of services. Dispatch is APCI.from_knx,
--       Methods is the choice of to_knx and of calculated_length by the class.
--   Telegram.Record    xknx/telegram/telegram.py, the telegram with its default transport service.
--   Cemi               xknx/cemi/cemi_frame.py and const.py. LinkData is CEMILData, which joins
--       addresses, TPCI and APCI into one frame; Telegrams is its way from and to a telegram; Property
--       is CEMIMPropInfo with its requests and responses, Frame is CEMIFrame with CEMIInfo.
--   Cemi.Handler       xknx/cemi/cemi_handler.py, which joins the parts: frames that come in are parsed,
--       recovered by Data Secure, and go to the queue of telegrams or to the management.
--   Secure.Asdu        xknx/secure/data_secure_asdu.py, the parts that are octets.
--   Secure.Primitives  xknx/secure/security_primitives.py and byte_pad of util.py, over AES as a parameter.
--   Secure.Protection  xknx/secure/data_secure_asdu.py, how an APDU is protected and recovered.
--   Secure.DataSecure  xknx/secure/data_secure.py. The tables and the number for sending are the state,
--       which each call takes and returns; State has what only reads it. Traffic is any order of calls.
--   Management         xknx/management/management.py. Connection is P2PConnection with what a telegram
--       does to it, Requests its coroutines, Dispatch the connections by their address. Where a
--       coroutine waits, what comes in until it runs on is an argument, so that a theorem about all
--       arguments is one about all orders of events. asyncio futures are the data type Future.
--   Io                 xknx/io/ip_secure.py, the class SecureSequenceTimer: Notify has the notifies and
--       their codes, Timer the state and its events.
--
-- How the code is read:
--   An integer is a natural number where the code never makes it negative; shifts and masks are
--   division, product and bit_and, bit_or. `bytes` is a list of numbers; `struct.pack` and `bytes`
--   raise, as struct_error, value_error or overflow_error, for a number that does not fit.
--   An exception is a value of Error, in a Result. The message of an exception is left out. A method
--   that writes to its object is an Action: it takes the state, and returns it beside the result, also
--   where it raises.
--   The field `data` of a service is named payload here. A service whose count may be left out takes
--   the count that __post_init__ or to_knx would use.
--   Text is a list of code points; isdigit and int are those of ASCII.
--   All functions are by structural recursion, without fuel. The timer of IP secure, which the clock
--   raises, is raised by an event with the milliseconds that pass.
--   AES is the record Cipher of Secure.Primitives; IsCipher says what its library documents, and is the
--   only hypothesis on code from outside.
--
-- Not modelled: logging and the string forms for debugging, which nothing else reads; sockets and
-- asyncio, of which only the order of what comes in matters, and this is an argument; the cryptography
-- library and the reading of XML, which are not part of the repository. The bodies of KNX/IP frames, the
-- tunnel, secure sessions, data point types, remote values, devices and the core tasks are outside the
-- model: the parts above do not call them but through what is an argument here.
pub mod Cemi
pub mod Io
pub mod Management
pub mod Prelude
pub mod Secure
pub mod Telegram
