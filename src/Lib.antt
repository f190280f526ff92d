-- ===== src/Lib.antt =====
-- An echo server on a Windows I/O completion port. Sources are named from the repository's root.
--
-- A client's `AcceptEx`, `WSARecv` and `WSASend` run asynchronously. Their completions reach the
-- loop of `IOCompletionPort::Process`, which makes a packet for each and pushes it into one of four
-- circle queues. A worker for each queue takes the packets out and calls a handler of `EchoServer`
-- with them, which finds the client and lets it go on.
--
--   Queue       IocpServer_1/LockFreeCircleQueue.h: the queue as a record of its indices and its
--               buffer. Queue.Fifo is the list that it stands for, Queue.Refine and Queue.Session
--               relate the two, and Queue.Threads has one pushing thread and one worker,
--               interleaved access by access.
--   Overlapped  `CustomOverlapped` of IocpServer_1/CustomOverlapped.h.
--   Memory      the heap behind `new` and `delete`, the asynchronous calls, and the monad of code
--               that works on both.
--   Packet      `Packet` of IocpServer_1/CustomOverlapped.h: constructors, assignment, `Set`, and
--               the destructor.
--   Client      IocpServer_1/ClientDataSet.h: accepting, the framing of received bytes, and the
--               queue of send requests.
--   Server      IocpServer_1/EchoServer.h: the table of clients, the counters and the handlers.
--               Server.Counting has the unlocked counter, access by access, and Server.Stranding
--               the table in which all clients are connected.
--   Iocp        IocpServer_1/IOCompletionPort.h: start-up, the completion loop, `Setting` and the
--               workers. Iocp.Slots says which slot owns which block of the heap; Iocp.Routes is the
--               specification of the loop, four bounded lists of clients with bytes, and
--               Iocp.System the one of the loop and the workers together. Iocp.Contract is the
--               interface between the port and its handlers: the states they start from, what they
--               are called with, and what a call does. Iocp.Conserved says what
--               becomes of what a queue takes, Iocp.Reading counts the reads under way, and
--               Iocp.Catching has the rounds of a worker that catches up.
--   Pipeline    the handlers of EchoServer.h on the completion port: from a completed read to the
--               lines that the server writes, and the whole server under any order of rounds.
--               Pipeline.Serving and Pipeline.Stranded fill the contract, for the server at rest
--               and for the one whose clients are all connected; Pipeline.Echo applies
--               the first, and Pipeline.Reads follows the reads.
--   Protocol    IocpServer_1/MESSAGE_WRAPPER_generated.h: the enumerations, a module for each table
--               (its accessors, `Verify`, builder and `Create`), the wrapper with its union, and the
--               functions on a whole buffer.
--   Base        Boolean tests, lists over the native numbers, and 32-bit integers.
--
-- State is passed explicitly. The monad of Memory has no result where the program breaks a rule of
-- C++: a read through a null or freed pointer, a read past the end of a block, a second `delete`.
-- An `int` is its bit pattern, a number below 2 ^ 32; sums wrap, and `leb_int` compares with the
-- sign. The counters of the server are such patterns, and identifiers stay below 2 ^ 31 where a
-- theorem says so. Output to the console is left out, but for the two lines that print a client's
-- bytes, which are events.
--
-- Loops that the source leaves unbounded run on fuel: `print` on the capacity, the framing of
-- received bytes on the number of bytes, the handling of packets on the size of their queue. The
-- theorems on them give the results of the whole loop. The loops on `mServerOn` run on the list of
-- completions, on a number of rounds, or on the schedule, that drives them.
--
-- Winsock, TBB and FlatBuffers are not modelled. What `getsockopt` and the calls of `Init` answer are
-- arguments, the asynchronous calls are events, and the concurrent containers are a list and an
-- association list that one thread uses at a time. The accessors, checks and builder operations of
-- FlatBuffers are parameters, and `Library` states what is documented of a table that is built.
-- The atomics of the queue are sequentially consistent. Rounds of the loop and of the workers are
-- interleaved whole in Iocp.System; the accesses within a push and a worker's round are interleaved
-- in Queue.Threads. What Windows writes into a client's array is a step of its own. The handlers are
-- set in the order in which the body of `EchoServer::Init`, which is commented out, binds them.
--
-- Not modelled: `MessageProcess`, which nothing calls and whose body is incomplete; the FlatBuffers
-- library below IocpServer_1/flatbuffers, a copy of another project's; Main.cpp, which starts the
-- server and waits; Player.h, which is empty.
pub mod Base
pub mod Queue
pub mod Overlapped
pub mod Memory
pub mod Packet
pub mod Client
pub mod Server
pub mod Iocp
pub mod Protocol
pub mod Pipeline
