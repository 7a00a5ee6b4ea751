-- ===== src/Lib.antt =====
-- TuxBase-MMO: the data structures and the session of the game server (01_Server/Src).
--
-- The server has two libraries. 01_ServerBase holds the buffers, the locked containers and the
-- assertions; 02_ServerEngine holds the engine and the session over Boost.Asio. A session collects
-- packets to send as SendBuffers in a queue under a mutex, and hands the whole queue to one
-- asynchronous write at a time; bytes that arrive go through a RecvBuffer (the RingBuffer was its
-- predecessor and is kept with its tests); sessions wait in the LockStack of the NetEngine until the
-- BoostAcceptor takes one for a connection.
--
-- Which file models what, with paths from 01_Server/Src:
-- - Verify: 01_ServerBase/{Include,Source}/Verify/Assert. A call is an `Outcome`: it returns,
--   aborts, or does what C++ leaves undefined. `Build` says whether DEBUG is defined, that is,
--   whether ASSERT tests.
-- - RingBuffer: 01_ServerBase/{Include,Source}/DataStruct/RingBuffer. RingBuffer.antt has the ring
--   and its operations by their own names, RingBuffer.Handle the methods of RingBufferReader and
--   RingBufferWriter. The children Invariant, Create, Commit and Full are about single calls; Client
--   is a caller with one handle of each kind, and Fifo is about all its histories.
-- - RingBufferTest: 99_Test/Source/01_ServerBase/DataStruct/RingBufferTest.cpp, a socket and a
--   session for tests over two rings. Round is about one round of its receive loop, Recv about the
--   loop, Send about a packet from the sender to the receiver; Cases has the test cases, and Passed
--   is about them.
-- - RecvBuffer: 01_ServerBase/{Include,Source}/DataStruct/RecvBuffer; Invariant is about single
--   calls, and Stream about a receive loop over the buffer.
-- - SendBuffer: 01_ServerBase/{Include,Source}/DataStruct/SendBuffer.
-- - Mutex: a `std::mutex` under `std::lock_guard`, and threads whose accesses to what it guards
--   interleave; Bodies is about one body alone, Linear about all histories.
-- - LockStack and LockQueue: 01_ServerBase/Include/DataStruct/Lock{Stack,Queue}, each with the
--   container of fixed size (Fixed) and the one that grows (Dynamic). LockStack.Fixed.Runs is about
--   whole runs; the children Threads have the methods statement by statement under their mutex.
-- - BoostSession: 02_ServerEngine/{Include,Source}/Boost/BoostSession; its receive path is empty.
--   Steps is the step relation of a session with Asio around it, Events and Delivery what holds in
--   its histories. Sections has the calls by their blocks under the mutex, and Sections.Refine relates
--   these to Steps.
-- - Packet: 02_ServerEngine/{Include,Source}/EngineCommon/Packet; Header is about ParsePacketHeader
--   over a RecvBuffer. PacketHandler, and with it RegisterPacket, does not compile once it is
--   instantiated, so the handlers and the table of the dispatcher are not modelled.
-- - Delegate: 01_ServerBase/Include/DataStruct/Delegate.h; Order is about the order of the calls.
-- - Thread: 01_ServerBase/{Include,Source}/Threading/Thread; Names is about the names that Linux
--   shows.
-- - NetEngine: 02_ServerEngine/{Include,Source}/EngineCommon/NetEngine.
-- - BoostAcceptor: 02_ServerEngine/{Include,Source}/Boost/BoostAcceptor with the server engine of
--   Boost/BoostNetEngine. Steps is the step relation of a server with Asio around it, Sessions says
--   where its sessions are, Accepted how many connections it accepts, Stop is about Stop and the
--   pool of a new NetEngine, and Frame, Engine and Pending are about the operations that are pending.
-- - BoostNetEngine: the io_context, the work guard and the threads of Boost/BoostNetEngine around that
--   server, with Stop in three parts: its exchange
--   of m_isRun, its events, its loop. Refine relates it to the server of BoostAcceptor, Stop is about
--   the end of Stop and a Start after it, Workers about the threads in `run`.
-- - BoostNetEngineClient: the client engine of
--   02_ServerEngine/{Include,Source}/Boost/BoostNetEngine; Retry is about its histories,
--   Close about its destructor.
-- - SerialGenerator and StopWatch: 01_ServerBase, DataStruct/SerialGenerator and Time/StopWatch;
--   StopWatch.Cases has 99_Test/Source/01_ServerBase/Time/StopWatchTest.cpp. The clock is an
--   argument.
-- - Logger: 01_ServerBase/Include/Logger, with the sinks as objects at addresses. Fanout is about
--   the sinks that a message reaches, Level about Logger::Log, Lines about what a file then holds.
-- - Session: 02_ServerEngine/Include/EngineCommon/Session.h, the interface that BoostSession fills.
-- - Factory: 01_ServerBase/Include/DataStruct/Factory.h; Pool is about the pool of an engine that a
--   factory fills.
-- - ServerApp: 03_ServerApp/Source/main.cpp, over SignalHandler and the server engine; it never comes
--   to its loop.
-- - SignalHandler: 01_ServerBase/{Include,Source}/Verify/SignalHandler for both platforms; Run is
--   about the signals that arrive.
-- - BackTrace: 01_ServerBase/Source/Verify/BackTrace_linux.cpp; Lines is about reading what
--   addr2line prints, Printed about the trace. BackTrace.Windows: BackTrace_win32.cpp there.
-- - Common: what the others share.
--
-- The constructors of the engines never return: BoostNetEngine.cpp:9 calls shared_from_this() in the
-- initialiser of the base class, which is undefined, or throws bad_weak_ptr, and the factory that it
-- makes there does not compile. `new_boost_net_engine`, `new_server`, `new_client` and `begin_main` say
-- so. The theorems on BoostAcceptor, BoostNetEngine and BoostNetEngineClient are therefore about the
-- methods: their histories begin with an engine at rest (`idle_server`, `idle_runtime`,
-- `idle_client`), with any number of threads and any sessions in its pool, however it came about, and
-- not with what a constructor returns. Likewise a history of BoostSession begins with a session whose
-- socket has been opened (`opened_session`); its constructor leaves it closed.
--
-- Numbers are natural numbers; UINT32 additions and subtractions wrap, written out in `add32` and
-- `sub32`. A buffer is a function from an index to its byte; a pointer into it is an offset, and
-- `nullptr` is `none`. An array access past the end is `undefined`. A method that holds its mutex
-- from the first line to the last is one step, so threads interleave by calls; only the children
-- Threads of LockStack and LockQueue and BoostSession.Sections take it apart. The loops of the source
-- are structural, and an endless exchange with Asio is a history of single steps. Four
-- definitions run on fuel. `RingBufferTest.recv` takes one unit for each round: a round takes at
-- least one byte, so as many units as there are bytes in the socket are enough where the ring has
-- room for them. `Logger.sink_log` takes one unit for each call of Log within another: where a
-- sink's members stand below it, its address and one more are enough. `BackTrace.read_lines` takes
-- one unit for each line: as many as there are bytes are enough. `Common.digits` takes one unit for
-- each digit: 10 for a UINT32 in decimal, 16 for an address in hexadecimal.
--
-- Not modelled: what Boost.Asio, protobuf, fmt and the operating system do; the text of the messages
-- of ASSERT; the socket options of BoostSession::Start; Profile, which is only declared.
pub mod Common
pub mod Verify
pub mod RingBuffer
pub mod RingBufferTest
pub mod RecvBuffer
pub mod SendBuffer
pub mod Mutex
pub mod LockStack
pub mod LockQueue
pub mod BoostSession
pub mod Session
pub mod Packet
pub mod Delegate
pub mod NetEngine
pub mod Factory
pub mod BoostAcceptor
pub mod SerialGenerator
pub mod StopWatch
pub mod Thread
pub mod BoostNetEngine
pub mod BoostNetEngineClient
pub mod Logger
pub mod SignalHandler
pub mod ServerApp
pub mod BackTrace
