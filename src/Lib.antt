-- ===== src/Lib.antt =====
-- tigerkin is a C++ server framework: coroutines that a scheduler runs on threads, an event loop
-- with timers, hooked system calls, sockets, and HTTP on top. This library models nine parts of it.
--
-- ByteArray (src/bytearray.h, src/bytearray.cpp, src/endian.h) is the buffer that messages are
-- written to and read from: a chain of blocks of one size, with a cursor. ByteArray.antt has the
-- record of its state and the functions in the source's order: create, set_offset, add_capacity_to,
-- write, read, read_const (the const overload of read) and to_string. ByteArray/Clear has clear
-- over a heap of its nodes, with Clear/Deletes about it, and ByteArray/Buffers the hex dump, the
-- files and the iovec lists. A call is a function from the array to an Outcome: it returns, throws
-- std::out_of_range, faults (a null or freed pointer, a division by zero), or is stuck, where a
-- loop has run out of fuel. ByteArray/Ints has the fixed-width numbers and the byte swaps,
-- ByteArray/Strings the strings with a length before them. What the library shows of these stands
-- in ByteArray/Invariant (the well-formed arrays, and growth), Writing, Reading, Offset, Wire
-- (numbers as bytes), Sequence and RoundTrip (many writes and the reads after them),
-- Buffers/Vectors and Buffers/Files, and Faults (what the code does where it goes wrong).
--
-- Timer (src/timer.h, src/timer.cpp) is the manager of timers that the event loop asks how long to
-- wait and which callbacks to run. Timer.antt has the heap of timers, which the set and the timers'
-- owners share, the order of the set and the methods of both classes. Timer/Order is about the set,
-- Timer/Invariant about what every method keeps, Timer/Due and Timer/Rearm about the two halves of
-- listExpiredCbs, Timer/Expiry about all of it and getNextTime, Timer/Methods about the other
-- methods and the reachable states.
--
-- StringUtils (the class of that name in src/util.cpp) has the URL escapes, which the HTTP part
-- uses for parameters, and the trims. StringUtils.antt has UrlEncode, UrlDecode and the trims;
-- StringUtils/Encode, Decode and Trims compare them with plain definitions.
--
-- FdManager (src/fdmanager.h, src/fdmanager.cpp) is the table in which the hooks look up a
-- descriptor. FdManager.antt has the entity, the table and get, add and del, with fstat and fcntl
-- as parameters; an index outside of the table is an outcome of its own. FdManager/Table is about
-- all three calls.
--
-- Servlets (the class ServletDispatch in src/http/http_servlet.h and src/http/http_servlet.cpp)
-- picks the servlet for a path. Servlets.antt has its map, its list of patterns and its methods,
-- with fnmatch as a parameter. Servlets/Paths is about the equality of paths, Servlets/Exact about
-- the map and Servlets/Globs about the patterns and the choice.
--
-- Stream (src/stream.cpp) is the base of the socket stream. Stream.antt has readFixLength and
-- writeFixLength for a plain buffer, with the virtual read and write as parameters; Stream/Whole
-- says what they transfer, and Stream/Ends how readFixLength ends where a read may give nothing.
--
-- Scheduler (src/scheduler.h, src/scheduler.cpp) hands tasks to threads. Scheduler.antt has the
-- list of tasks with schedule and scheduleIterator, the parts of a round of run (take_task,
-- next_of, wrap_task, rest and wake), start and stop. Scheduler/Queue is about the list;
-- Scheduler/Threads has the threads as a step relation, in which each part of a round is one step,
-- Threads/Counts is about the two counters, and Threads/Leaving about the end.
--
-- IoManager (the class IOManager in src/iomanager.h and src/iomanager.cpp) hands coroutines and
-- callbacks to a scheduler when their descriptor is ready. IoManager.antt has the table of
-- contexts, addEvent, delEvent, cancelEvent, cancelAllEvent and what idle does with the events of
-- epoll_wait (handle_report); its tasks are those of Scheduler.antt. epoll_ctl is a parameter over
-- a state of the kernel, with the hypothesis Obeys. IoManager/Contexts is about the table,
-- Invariant about what holds between calls, Kernel about one call of epoll_ctl, Calls about the
-- calls for one event, Delivery about the two triggers in a row, with Delivery/Ends about the calls
-- that make them, and Reachable about all states.
--
-- Http is the part below src/http. Http/Method and Http/Status have the methods and statuses of
-- http.h; Http/Fields has the map of the fields, ordered by CaseInsensitiveLess, as a sorted list,
-- with Fields/Order and Fields/Lookup about it; Http/Request and Http/Response have the two
-- messages of http.h and http.cpp, with Http/Printing for what their dumps share. Request/Params is
-- about PARSE_PARAM, Printing/Lines and Response/Framing about where the printed head ends.
-- Http/Connection has, from http_connection.h and http_connection.cpp, the request that is made up
-- and the pool of connections, with Connection/Sent and Connection/Pool about them; sockets and the
-- clock are arguments. Http/Server has the session of http_server.cpp, which calls the dispatch of
-- Servlets.antt, and the NotFoundServlet, with Server/Answers about the session. Http/Session has
-- recvRequest of http_session.cpp over an interface for the parser and the reads of Stream.antt,
-- with Session/Rounds about the rounds of its loop, Session/Bodies about the whole call and
-- Session/Silence about a stream that ends in a head.
--
-- The parts stand on each other as in the program: the messages use StringUtils for escapes and
-- trims and are sent by the connections, and the event loop gives its tasks to the scheduler.
--
-- Prelude has what the parts share: tests on numbers, lists, splices of lists, bytes and texts.
-- Tests has the runs at small inputs.
--
-- Bounds and fuel. Bytes are numbers below 256 where it matters, and size_t and uint64_t are
-- numbers with the wrap-around written out where a difference or a sum of times can wrap; sizes
-- count bytes that the process holds and are not reduced. The copying loops of write and read get
-- the number of bytes as fuel: each round copies at least one byte unless the block size is 0. The
-- loop of addCapacityTo gets one round more than the wanted capacity: each round adds the block
-- size. In a valid array neither runs out. The loops of Stream get the number of bytes, enough
-- where each round moves one. The loops over the patterns of a dispatch get any fuel: they return
-- in their first round or not at all. The loop of readFromFile gets one round more than the bytes
-- of the file, and PARSE_PARAM as many as the bytes of its string: each round takes one at least,
-- and Request/Params shows that more make no difference. The loop of recvRequest gets any fuel, and
-- Session/Bodies says what more rounds than bytes to come are enough for; its ints are numbers, as
-- for a buffer below 2^31 bytes. The loop of clear gets as many rounds as there are nodes. Numbers
-- are printed with more rounds than they have digits. The other loops go down a list.
--
-- Not modelled. In StringUtils the printf formats and the wide strings, which are calls of the C
-- library. Locks: each method of a manager, a table or a pool is one step, and in the scheduler
-- each part of a round. In the scheduler the constructor, the join of the threads, the condition
-- variables, and the end of run where the idle coroutine has ended or thrown; in the event loop the
-- pipe of tickle and the outer loop of idle. In the HTTP part recvResponse, and the parsers that
-- Ragel generates, with their callbacks. The overloads of Stream for a ByteArray. The other parts
-- of the program (socket streams, coroutines, addresses and sockets, hooks, the log and the
-- configuration) are not in this library.
pub mod Prelude
pub mod ByteArray
pub mod Scheduler
pub mod Http
pub mod IoManager
pub mod Tests
pub mod Timer
pub mod Stream
pub mod StringUtils
pub mod Servlets
pub mod FdManager
