-- ===== src/Lib.antt =====
-- httpd_cpp: a small web server on epoll.
--
-- The server reads requests from its sockets into byte buffers, parses them, answers with a
-- response that it renders into another buffer, closes idle connections by a queue of timers,
-- and hands its work to a pool of threads. The main thread owns the loop over the events of epoll;
-- it and the pool's threads share the requests and the queue. This library models those parts.
--
-- Files:
-- Base, Base/*: names of the libraries, lists and tests over the native numbers, and the
--   results of fallible code. An assert that fails, a copy that leaves its vector and a resize
--   beyond the vector's limit are values of Fault.
-- Bytes, Bytes/Search: std::find, std::search, std::equal and isspace on sequences of bytes,
--   each byte a number below 256; the C locale is taken for isspace.
-- StringMap: std::map from strings, an association list in the order of its keys.
-- Buffer, Buffer/*: buffer.h and buffer.cpp. A record of the vector and the two indices; a
--   pointer into the vector is its offset. Operations that can fail an assert return a Result.
--   Buffer/Fd holds readFd and writeFd, over the answers of readv and write; Buffer/Ints the
--   integers, over SocketOps, the byte order functions of socket_ops.cpp on a little-endian
--   machine. Sums of sizes wrap at 2 ^ 64.
-- HttpRequest, HttpRequest/Fields: http_request.h. The functions that are bound to headers are
--   of a type that is a parameter.
-- HttpParse, HttpParse/*: http_parse.h and http_parse.cpp. One round of the loop of parseRequest
--   is `round`, and the loop runs on fuel; one round for each byte of the content and one more
--   are enough. HttpParse/Text is the parser over text that the one on buffers refines,
--   and HttpParse/Descriptor shows that a parse keeps the request's descriptor.
-- HttpResponse, HttpResponse/*: http_response.h and http_response.cpp.
-- Timer, PriorityQueue, PriorityQueue/*: timer.h, timer.cpp, priority_queue.h and
--   priority_queue.cpp. A timer is told by its address, and std::priority_queue is an interface,
--   MinHeap, which PriorityQueue/Heap shows can be filled. The clock is a function of the number
--   of the reading; the sweep over expired timers runs on fuel, and one round for each timer and
--   one more are enough. A handler does not call the queue, whose mutex the sweep holds.
-- ThreadPool, ThreadPool/*: threadpool.h and threadpool.cpp. The threads are counted by where
--   they stand, and a step is what one thread does under the mutex, or a wake-up, also a spurious
--   one. The tasks accepted and taken are recorded. ThreadPool/Threads holds the thread objects that
--   start makes and stop joins. ThreadPool/Statements is the same pool with a step for each
--   statement, and Statements/Refine relates the two. ThreadPool/Queue and
--   ThreadPool/Callers are about single calls.
-- Callback, Callback/*: callback.cpp. One run of CallBack::request over the answers of the system
--   calls; closing the descriptor and deleting the request, or arming the descriptor again, is its
--   outcome. The read loop and the parser run on the same fuel; more than the reads, the headers
--   and one is enough for a printed request, and more than the reads and the bytes for any bytes
--   (Callback/Total). The body is read at the address that mmap answers; Callback/Files says when
--   that can be read. A read at MAP_FAILED, or behind what the mapping has, is the fault `out_of_bounds`.
-- SocketOps/Transfer: the loops of sockets::read and sockets::write in socket_ops.cpp, over the
--   system's calls; with one byte at least at each call, more fuel than bytes is enough.
-- CountDownLatch, CountDownLatch/*: count_down_latch.h and count_down_latch.cpp, as steps of whole
--   calls; CountDownLatch/Threads has a step for each statement, and Threads/Refine relates the two.
-- Atomic, Atomic/*: atomic.h and main_atomic.cpp, words of any width.
-- CurrentThread: current_thread.h and the variables of thread.cpp that each thread has.
-- Thread, Thread/*: thread.h and thread.cpp. `created` and `released` count the pthreads made for an
--   object and given back.
-- MutexLock, MutexLock/*, Condition: mutex.h, condition.h and condition.cpp. A step is one statement
--   of one thread; that a pthread mutex has one owner is the promise of the system.
-- EPoll: epoll.h and epoll.cpp. SocketOps/Calls, Socket, InetAddress: socket_ops.cpp, socket.h,
--   socket.cpp, inet_address.h and inet_address.cpp. What the system answers is a parameter.
-- Config: config.h, config.cpp and main_config.cpp, over the file system and the JSON library.
-- RequestStore: the HttpRequest objects that exist, by their addresses; reading one that is not
--   there is the fault `dangling`. RequestStore/Distinct: the addresses are different.
-- Server, Server/*: main_server.cpp and http_close_connect of callback.cpp. A round of the loop waits
--   for events, sweeps the timers and handles the events; `run_task` is a pool thread with its task.
--   Server/Ownership is the invariant between requests and timers, Server/Sweeping the sweep,
--   Server/Events the events of a round, Server/Rounds a round, Server/Races the request that
--   waits in the pool, Server/Tasks a task, and Server/Steps the main thread with the pool's
--   threads from the set-up on: a round, the rest of a round and a task are each a step, and
--   Server/Reachability is about them. Server/SetUp says what main has made before its loop.
--   Server/Program takes smaller steps: an event of a round, the take of a task by a pool thread and
--   its run are each a step, a task that is running has left the queue and not closed anything yet,
--   and tasks are added, taken and run between any two events of a round. Its children Tasks,
--   Effects and Alive are about the tasks, what a step does to the state, and the requests they name;
--   Staffed and Working about the pool in it; Safety, Progress and Serving about every state that can
--   be reached, what the threads do next there, and how the pool empties.
--   `opened_fds` and `closed_fds` record the descriptors that were opened and closed, and
--   Server/Descriptors is about them. Server/Idle is about what a sweep closes and what it leaves, and
--   Server/Answering about an event, its task and the response; Server/Totality shows that tasks end.
-- Server2, Server2/*: main_server2.cpp, the earlier server, with the same state. Server2/Expiry is
--   about a timer that runs out before the events of the same wait are handled.
-- Drivers, Drivers/*: main_buffer.cpp, main_http_response.cpp, main_thread.cpp, main_threadpool.cpp,
--   test.cpp (Drivers/Doc), and the header function of main_http_request.cpp.
-- Tests/*: the theorems at concrete inputs.
--
-- Not modelled: the calls of the operating system and of pthreads, which are parameters where a
-- component uses what they answer; the mutex of a timer and of the queue, since each operation runs
-- under it; how the statements of a pool thread and of the main thread interleave within one task
-- or one event, which are each one step; allocation failures; what is printed for debugging; the
-- copied JSON library (cJSON.c, CJsonObject.cpp); and the main functions of main_priority.cpp,
-- main_poll.cpp, main_http_request.cpp and main_queue.cpp, which do not compile against the classes
-- that the repository has.
pub mod Atomic
pub mod Base
pub mod Buffer
pub mod Bytes
pub mod Callback
pub mod Condition
pub mod Config
pub mod CountDownLatch
pub mod CurrentThread
pub mod Drivers
pub mod EPoll
pub mod HttpParse
pub mod HttpRequest
pub mod HttpResponse
pub mod InetAddress
pub mod MutexLock
pub mod PriorityQueue
pub mod RequestStore
pub mod Server
pub mod Server2
pub mod Socket
pub mod SocketOps
pub mod StringMap
pub mod Tests
pub mod Thread
pub mod ThreadPool
pub mod Timer
