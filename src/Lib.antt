-- ===== src/Lib.antt =====
-- The server framework under sylar/: a library for network servers on coroutines. Its parts are a
-- growing byte array (sylar/bytearray.cpp) for building and reading messages, timers
-- (sylar/timer.cpp), fibers and their scheduler, an I/O manager over epoll, hooked system calls,
-- sockets and streams, HTTP over them, logs and configuration. This development models the parts
-- that the files below name.
--
-- * ByteArray.antt and ByteArray/ model sylar/bytearray.h, sylar/bytearray.cpp and sylar/endian.h.
--   A function of the source is the definition of its name in snake case: writeFuint32 is
--   write_fuint32, addCapacity is add_capacity. The linked nodes are a list of lists of bytes,
--   m_cur is a position in it (the length of the list for null). Access has reading, the position,
--   clear and the scattered buffers; Codec has integers and strings; Invariant, Written, Stored,
--   Write, Read, RoundTrip, Stream, Zigzag, Varint, Fixed, Values and Buffers have the proofs, and
--   Runs applies the theorems at concrete arrays.
--
-- * Timer.antt and Timer/ model sylar/timer.h and sylar/timer.cpp: Comparator is less,
--   listExpiredCb is list_expired_cb, and so on. Timers have addresses in a heap, and m_timers is
--   the list of addresses in order. Order has the ordered set, Invariant the invariant and the
--   calls that keep it, Calls getNextTimer, Requeue and Expiry listExpiredCb, Reachable the
--   managers that the calls lead to, and Runs applies the theorems.
--
-- * IoManager.antt and IoManager/ model sylar/iomanager.h and sylar/iomanager.cpp: IOManager is
--   IoManager, addEvent is add_event, one round of the loop of `idle` is dispatch. Invariant has
--   the invariant, which counts the pending events, Operations the triggering of events, Cancel
--   delEvent and cancelEvent, Dispatch cancelAll and `idle`, Add addEvent, and Runs applies the
--   theorems. epoll_ctl is a parameter, any function of its operation, descriptor and events.
--
-- * Scheduler.antt and Scheduler/ model sylar/fiber.h, sylar/fiber.cpp, sylar/scheduler.h and
--   sylar/scheduler.cpp: one round of Scheduler::run is `round`, its loop over the queue is scan,
--   and the branches for a fiber, a callback and no task are run_task_fiber, run_task_cb and
--   run_none. States has the fibers, Scan, Round, Callback and Branch have the lemmas on these,
--   Switch and Ran have what a round runs, Loop and Progress those on rounds, and Runs applies the
--   theorems. How a fiber comes back from a switch, and what is scheduled until then, is a
--   parameter of each round, so `rounds` is recursion on the list of them.
--
-- * Stream.antt and Stream/ model sylar/stream.cpp: readFixSize is read_fix_size, writeFixSize is
--   write_fix_size, and array_loop is the loop of both over a byte array. Fixed has the proofs on
--   reading, Accepted those on writing and on arrays, and Runs applies the theorems. The fuel of a
--   loop is its number of reads or writes; as many as there are bytes are enough where each moves
--   one.
--
-- * Http.antt and Http/ model sylar/http/http.h and sylar/http/http.cpp: HttpRequest::dump is
--   request_text, HttpResponse::dump is response_text, and the other functions have the names of
--   the source. Names has the tables of methods and statuses, Methods the proofs on them and on the
--   comparison of keys, Frame a reader of messages, Message what it finds in the dumps, and Runs
--   applies the theorems. The digits of a number are recursion on fuel, one more than the number,
--   which is more than it has digits.
--
-- * Uri.antt and Uri/ model sylar/uri.h and sylar/uri.cpp: Uri::Create is create, and toString is
--   to_string. Number reads printed numbers back, Print has the round trip, and Runs applies it.
--   http_parser_parse_url is a parameter, and std::stoi and std::to_string are written out.
--
-- * FdManager.antt and FdManager/ model sylar/fd_manager.h and sylar/fd_manager.cpp, with the names
--   of the source. Table has the proofs on the table, and Runs applies them. fstat and fcntl are a
--   parameter.
--
-- * LogFormatter.antt and LogFormatter/ model the LogFormatter of sylar/log.h and sylar/log.cpp:
--   the loop of LogFormatter::init is scan over the characters, and items_of its second loop.
--   Pattern has the proofs on written patterns, and Runs applies them.
--
-- * Hook.antt and Hook/ model do_io and connect_with_timeout of sylar/hook.cpp, over the descriptor
--   contexts of FdManager.antt. Loop has the proofs on the loop of do_io, Returned what both
--   return, and Runs applies the theorems. The loop is recursion on the list of turns, one for each
--   call of the original function.
--
-- * ConnectionPool.antt and ConnectionPool/ model the HttpConnectionPool of
--   sylar/http/http_connection.h and sylar/http/http_connection.cpp: getConnection is
--   get_connection, and ReleasePtr is release. Reachable has the pools that both lead to, as a step
--   relation, and the proofs on them, and Runs applies the theorems.
--
-- * Address.antt and Address/ model the masks of sylar/address.cpp: CreateMask<uint32_t> is
--   create_mask32, and IPv4Address::networdAddress is netword_address4. Masks has the proofs, and
--   Runs applies the theorems.
--
-- * HttpParser.antt and HttpParser/ model sylar/http/http_parser.h and sylar/http/http_parser.cpp:
--   HttpRequestParser::execute is execute_request, and s_request_settings has the callbacks. The
--   parser of the library is a parameter, whose run is the sequence of its calls. Calls has what
--   the callbacks leave, Execute what execute makes of a buffer, Lines a small parser for the runs,
--   and Runs applies the theorems.
--
-- * HttpSession.antt and HttpSession/ model the loops of sylar/http/http_session.cpp and
--   sylar/http/http_connection.cpp: HttpSession::recvRequest is recv_request, and
--   HttpConnection::recvResponse is recv_response. A unit of fuel is a read, each of which takes a
--   byte at least, so more fuel than the stream has bytes is enough. Serve has the loop without a
--   buffer, Requests the end of recvRequest, Responses recvResponse and sendRequest, and Runs
--   applies the theorems.
--
-- * HttpConnection.antt and HttpConnection/ model the requests of sylar/http/http_connection.cpp
--   over those loops, the URIs and the texts of requests: HttpConnection::DoRequest is do_request,
--   do_request_uri and do_request_url, and HttpConnectionPool::doRequest is pool_request and
--   pool_do_request. Build has the requests, Exchange what they end with, and Runs applies the
--   theorems.
--
-- * Config.antt and Config/ model sylar/config.h and sylar/config.cpp: Config::Lookup is
--   lookup_or_add and lookup, Config::LoadFromYaml is load_from_yaml, and ListAllMember is
--   list_all_member, on fuel for the depth of the document: any fuel above the depth lists the
--   same. Listeners has what the listeners are told, Table, Load and Loaded the proofs on the table
--   and on what is loaded, Members those on the names of a document, and Runs applies the theorems.
--
-- * Logger.antt and Logger/ model the loggers, appenders and LoggerManager of sylar/log.h and
--   sylar/log.cpp, and the listener that applies a configuration: Logger::log is log, and
--   LoggerManager::getLogger is get_logger. The fuel of log is one unit for each logger that it
--   passes an event to, and 2 are enough, since the root of the manager has no root. Apply has the
--   definitions and the listener, Writing what stays in a file, Invariant the loggers that meet no
--   null pointer, Safety, Managed and Reload the calls that keep them so, Frame, Applied and
--   Listener what the listener makes of the loggers, Defines the changes of a configuration, and
--   Runs applies the theorems.
--
-- * Sockets.antt and Sockets/ model the sockets of sylar/socket.cpp and the server of
--   sylar/tcp_server.cpp: each operation of Socket makes its calls of the system in order, and
--   writes them down with their answers, which are a parameter. Server has TcpServer::bind as
--   bind_addresses and the task of TcpServer::stop as stop_task, for a server whose sockets no
--   other task holds; Balance says which descriptors are given, closed and held, Servers has the
--   theorems on the server, and Runs applies them.
--
-- * ServletDispatch.antt and ServletDispatch/ model the dispatch of sylar/http/http_servlet.h and
--   sylar/http/http_servlet.cpp: addGlobServlet is add_glob_servlet, and so on. Lookup and Serve
--   have the proofs, and Runs applies the theorems. fnmatch is a parameter.
--
-- * Prelude.antt and Prelude/ have what the parts share: tests and lists over the native numbers,
--   texts, outcomes of code that throws or has no defined behaviour (`done`, `throws`, `fault`),
--   and lemmas on bits and masks.
--
-- Loops over nodes are recursion on the node list, and the loop of a variable-length integer is
-- recursion on the room of its buffer (5 or 10 bytes, as in the source), whose overrun is `fault`.
-- Integers of w bits are their patterns, numbers below 2 ^ w. Sizes and capacities of the byte
-- array are unbounded numbers: the overflow of a 64-bit size is not modelled there. The content of
-- fresh memory, the memory around a buffer and the host's byte order are parameters.
--
-- Not modelled: file input and output, printing in hexadecimal, float and double values of the byte
-- array, the vendored HTTP parser in sylar/http/http-parser, the wrappers of system calls, threads
-- and their start and end, the look-ups of std::map under a comparison that is no order, and the
-- parts of the framework that no file here names.

pub mod Prelude
pub mod ByteArray
pub mod Timer
pub mod IoManager
pub mod ServletDispatch
pub mod Scheduler
pub mod Stream
pub mod Http
pub mod Uri
pub mod FdManager
pub mod LogFormatter
pub mod Hook
pub mod ConnectionPool
pub mod Address
pub mod HttpParser
pub mod HttpSession
pub mod HttpConnection
pub mod Config
pub mod Logger
pub mod Sockets
