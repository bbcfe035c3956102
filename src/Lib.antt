-- ===== src/Lib.antt =====
-- Cnginx: a model of the server's core, with the theorems that make it correct.
--
-- The server (nginx/) is a small event-driven TCP server. A worker process waits in epoll; a
-- readable connection is read by CSocekt::ngx_read_request_handler, which cuts the stream into
-- packets (a header of 8 bytes, then a body) and puts each on the thread pool's queue. A pool thread
-- passes it to CLogicSocket::threadRecvProcFunc, which checks its CRC-32, that its connection has
-- not been used again since, and its message code, and calls the handler. A handler answers by
-- CSocekt::msgSend; the send-queue thread takes the reply up, and what send() does not take at once
-- is sent by ngx_write_request_handler when the socket is writable. A connection that is lost goes
-- to the recycling list, and another thread returns it to the pool after a while. The log formats
-- its lines with its own printf. A master process starts the workers and collects those that end.
--
-- Which file models what:
--   Packet  nginx/_include/ngx_comm.h: the packet header, as bytes; the message header in front.
--   Conn    nginx/_include/ngx_c_socket.h: ngx_connection_s, as a record; GetOneToUse, PutOneToFree.
--   Recv    nginx/net/ngx_c_socket_request.cxx: the read handler as functions from the connection and
--           the bytes of a read to the connection and what is queued. Recv/Frame describes the same by
--           the stream alone, Recv/Refine relates the two, Recv/Packets says what that means.
--   Socket  nginx/net/ngx_c_socket_conn.cxx: CSocekt's pool, as a store of objects with lists of
--           addresses. Socket/Sweep is about the recycling pass, Socket/Ownership about who holds an
--           object, Socket/Sequence about the numbers that make old packets stale.
--   Epoll   nginx/net/ngx_c_socket.cxx: ngx_epoll_oper_event.
--   Send    nginx/net/ngx_c_socket.cxx and ngx_c_socket_request.cxx: msgSend, the pass of
--           ServerSendQueueThread, sendproc and the write handler. Send/Stream is about what the peer
--           receives, Send/Queue about the queue.
--   Logic   nginx/logic/ngx_c_slogic.cxx: threadRecvProcFunc and the two handlers.
--   Crc     nginx/misc/ngx_c_crc32.cxx: the table and the checksum.
--   Format  nginx/app/ngx_printf.cxx: ngx_vslprintf, read character by character, and
--           ngx_sprintf_num. Format/Segments says what text a format asks for.
--   Reader  nginx/net/ngx_c_socket_request.cxx: recvproc and the read handler on the whole socket.
--           Reader/Stale is about the packets that may still be handled after a read.
--   Conf    nginx/app/ngx_c_conf.cxx and ngx_string.cxx: the configuration file, the trims, GetString
--           and GetIntDefault. Conf/Lines is about cutting a line, Conf/Items about the items,
--           Conf/File about a whole file.
--   Ports   nginx/net/ngx_c_socket.cxx: ReadConf and ngx_open_listening_sockets; ngx_log_init of
--           nginx/app/ngx_log.cxx. Ports/Opening is about the list of ports.
--   ThreadPool  nginx/misc/ngx_c_threadpool.cxx: the class CThreadPool. Each thread has a place in
--           ThreadFunc, and its caller one in the pool's methods; ThreadPool/Steps is the relation of
--           all interleavings of their steps. ThreadPool/Jobs is about the jobs, ThreadPool/Wakeup
--           about the mutex, ThreadPool/Attended about signals, ThreadPool/Stop about StopAll.
--   Events  nginx/net/ngx_c_socket.cxx and ngx_c_socket_accept.cxx: ngx_epoll_process_events with the
--           handlers it calls, ngx_event_accept and ngx_epoll_init. Events/Wired is about the handlers
--           of the objects, Events/Single about one event, Events/Batch about all that epoll_wait
--           returns, Events/Loss about a peer that goes, Events/Listening about the start.
--   Log     nginx/app/ngx_log.cxx: the lines of the log, and where they are written. Log/Stamp is about
--           the time, Log/Line about the line, Log/Stderr about ngx_log_stderr.
--   Titles  nginx/app/ngx_setproctitle.cxx, with the sizes from nginx/app/nginx.cxx and the master's
--           title from nginx/proc/ngx_process_cycle.cxx. Titles/Environment is about the memory.
--   Signals nginx/signal/ngx_signal.cxx: the table, the handler and ngx_process_get_status.
--           Signals/Reaping is about the children.
--   SocketThreads  nginx/net/ngx_c_socket.cxx and ngx_c_socket_conn.cxx: the loops of the two helper
--           threads and Shutdown_subproc. SocketThreads/Ending is about the recycling thread's end.
--   System  a worker as its threads work on it together: the relation of all interleavings of the
--           event loop, the pool threads and the two helper threads, over the definitions above.
--           System/Evolving and System/Turning are about the use that an object is in, System/Stamps
--           and System/Stamping about the messages held, System/Each, System/Framing and
--           System/Framed about the objects in use; System/Origins, System/Serving, System/Isolation
--           and System/Safety draw the conclusions, System/Overtaken is about a send that comes too
--           late, and System/Starting is about the start.
--   Startup  nginx/app/nginx.cxx, nginx/proc/ngx_daemon.cxx and nginx/proc/ngx_process_cycle.cxx: the
--           processes from main on, with Initialize_subproc of nginx/net/ngx_c_socket.cxx. One process
--           is followed through the answers of its calls. Startup/Main has main and the cycles,
--           Startup/Daemon is about ngx_daemon, Startup/Freeing about freeresource, Startup/Working
--           about master and workers, Startup/Exits about the end.
--   Inet    nginx/net/ngx_c_socket_inet.cxx: ngx_sock_ntop. Inet/Dotted is about its text.
--   Sys     the values of errno that the code tells apart.
--   Common  what the others share: lists and bytes over the native numbers, bit operations, integers.
--   Tests   runs of the theorems at concrete inputs.
--
-- State is passed explicitly: a function takes the connection or the socket and returns it changed.
-- A critical section under one mutex is one function, and histories of such sections are lists of
-- events or step relations. In the thread pool a step is what one thread does while it owns the
-- mutex, or one access to what is shared without it; a thread that waits may be woken by nobody, and
-- any thread may be the one that is signalled. In System a step is the handling of one event, one
-- job taken or handled, the tests on one entry of the send queue, the sending of a message that has
-- passed them, or one entry of the recycling list freed; what two threads do to a connection within
-- such steps is not interleaved further. The relation has more orders than the program where it lets
-- entries of the send queue be looked at in any order, and be added between the tests and the send.
-- Addresses are numbers, and a message in memory is a record that holds its bytes. What the kernel
-- answers (recv, send, epoll_ctl, sem_post, the clock) and what a fresh block of memory holds are
-- arguments. Machine integers keep their wrap-around where they can reach it: 64 bits for sequence
-- numbers and widths, 32 bits in the checksum.
--
-- Fuel: the recycling pass has one round for each entry of the list, and the digit loops have the 20
-- rounds of `temp`; that this is enough is part of what is stated about them. Elsewhere loops are
-- recursion on the list they walk.
--
-- Not modelled: failures of the pthread functions and of sigprocmask, which the code only logs; what
-- two threads do at the same time to one connection, inside the steps of System; the titles and the
-- log lines on the way of Startup, which are in Titles and Log; new[] and delete[] with their
-- wrappers, and the singletons that hold the configuration, the checksum and the memory; doubles,
-- whose arithmetic is a parameter of Format, and what ngx_vslprintf makes of the memory behind a
-- format that ends inside a directive, which is one too; a header that names fewer than 8 bytes,
-- behind the reader, which lets none through; libc's strerror, sprintf and atoi, which are
-- parameters; what a configuration line with a name of 50 characters or more writes over.
pub mod Common
pub mod Crc
pub mod Sys
pub mod Packet
pub mod Conn
pub mod Recv
pub mod Socket
pub mod Epoll
pub mod Send
pub mod Logic
pub mod Reader
pub mod Format
pub mod Conf
pub mod Ports
pub mod ThreadPool
pub mod Events
pub mod SocketThreads
pub mod Startup
pub mod Inet
pub mod System
pub mod Log
pub mod Titles
pub mod Signals
pub mod Tests
