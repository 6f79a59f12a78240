-- ===== src/Lib.antt =====
-- async-tcp: an asynchronous TCP client over lwIP for the Raspberry Pi Pico, in five classes.
-- `TcpClient` (src/TcpClient.cpp, include/TcpClient.hpp) is what an application uses. It connects
-- through a `TcpClientSyncAccessor` (src/TcpClientSyncAccessor.cpp,
-- include/TcpClientSyncAccessor.hpp), which may be called from either core. Connecting makes a
-- `TcpClientContext` (include/TcpClientContext.hpp), which owns a control block of lwIP, an
-- `IoRxBuffer` (src/IoRxBuffer.cpp, include/IoRxBuffer.hpp) for what arrives and a `TcpWriter`
-- (src/TcpWriter.cpp, include/TcpWriter.hpp) for what is sent. lwIP calls static functions with
-- the context as their argument; these call the closures that the client gave to the context,
-- which tell bridges to run the application's handlers.
--
-- Lwip holds what lies outside the repository: the memory of pbufs (`Store`), the control blocks,
-- the calls made so far, the newest first (`World`), and a record `Lwip` of the functions of
-- lwIP, which may answer a call as they like, given the earlier ones. What the code relies on of
-- pbuf_ref, pbuf_free and pbuf_cat is `PbufLaws` in Lwip.Chains; Lwip.Refcount has a
-- reference-counting memory to try them on. Lwip.Separate is about two chains in one memory,
-- Lwip.Registered reads the callbacks of a control block off the calls, and Lwip.Credit what was
-- given back to the receive windows. Common has Boolean tests, lists measured by native numbers
-- and 32-bit `size_t` arithmetic: sums and differences of sizes wrap at 2^32.
--
-- RxBuffer has the operations of `IoRxBuffer`, under their names in snake case (`peekConsume` is
-- `peek_consume`, `_slowPath` is `slow_path`, `_toAck` is `to_ack`), and `lwip_receive_callback`.
-- RxBuffer.Stream relates a buffer to the chain it holds and to the stream of unread bytes; Ack,
-- Took, Consume and Window are about consuming and acknowledging, Receive about deliveries and
-- `reset`, Fifo about the life of a buffer as a sequence of steps, Drain about a reader that goes
-- to the end, Class about buffers up to the way their bytes are cut into segments, Flow and
-- Balance about the receive window and the pbufs over a connection.
--
-- Writer has `writeData` and its helpers. Writer.Chunks describes what lwIP is offered; Send and
-- Partial are about it, Queued about what lwIP has queued when a caller repeats its request, Adds
-- about what other control blocks have queued, and Returns about its end, whatever lwIP answers.
--
-- Context has the fields and setters of `TcpClientContext`. Its modules follow the sections of
-- the class: Lifecycle (constructor, destructor, `abort`, `close`, `connect`), Options,
-- KeepAlive, Chunk (`writeChunk`), Events (the functions that lwIP calls) and Timeout.
--
-- Client has the members of `TcpClient`: Connection (`_ts_connect`, `stop`, `shutdown`, the
-- destructor), Callbacks (`_onFinCallback` and the others) and Access (writing and the
-- accessors). Connecting, Ending and Ports are about connecting, stopping and local ports, Memory
-- about what they do to the pbufs.
--
-- Accessor is `TcpClientSyncAccessor` with include/iprs_util.hpp, over a record `Bridge` of what
-- the base class `SyncBridge` and the processor give; `TcpClient::connect` and
-- `TcpClient::status` are in Accessor.Entry. Outcome and Locking are about it.
--
-- System puts the parts together: events of the application and of lwIP on the client, its static
-- members and the world. System.Valid has the invariant of the client; Calling, Told, Traffic,
-- Receiving, Writing, Operations, Quiet and Handling are about single events, Trace about runs,
-- Phases about the diagram that runs follow, what the result of connecting says and what is left
-- after `stop`, Unread about the bytes that the application has not read, also when the client
-- has been connected before, Spec about an account of connections and unread bytes that the
-- client refines, Pair about two clients that share lwIP and its memory, Outgoing about the data
-- that lwIP is given to send, Window about what is given back to the receive windows, Freed about
-- the pbufs that a destroyed client has freed, Delivery about one client's writes and another's
-- reads, Cores about requests from both cores in between, Reported about an account that is kept
-- from what those requests return, Notified about what the calls of lwIP tell the application,
-- Stale about what is left after an error. Examples has concrete inputs.
--
-- A null dereference, a failed assertion, a dangling pbuf and a call of an empty `std::function`
-- give `none`. Loops run on fuel, and running out of it gives `none` too: the loop of `_slowPath`
-- has one more than the number of live pbufs, since each round but the last frees one; that of
-- `_toAck` has the number of bytes, since each round acknowledges one at least; that of
-- `writeData` has one more than the number of bytes, since each round but the last queues one.
--
-- Not modelled: logging, and the handlers of the application, which bridges run later: running a
-- bridge is a call that is recorded, and so is the write callback; what a handler then does is an
-- event of its own. The resolver behind `connect` by name and the tests of an IPv6 address are
-- parameters; `_ts_connect` connects without IPv6, with it `connect_v6` is what `connect` does.
-- Assertions are on: a build with NDEBUG goes on where the model faults. lwIP's own work on the
-- memory and the control blocks is an event of System, about which only is assumed that it leaves
-- the chain of the receive buffer alone.
pub mod Common
pub mod Lwip
pub mod RxBuffer
pub mod Writer
pub mod Context
pub mod Client
pub mod Accessor
pub mod System
pub mod Examples
