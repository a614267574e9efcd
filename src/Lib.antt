-- ===== src/Lib.antt =====
-- uRPC: a gRPC-compatible RPC runtime over libuv and nghttp2. This library models the core,
-- urpc/core, the typed API over it, urpc/api, and the generator of services, urpc/generator, and
-- proves what their parts promise.
--
-- The parts, and how they meet. A LoopRunner (urpc/core/source/urpc_loop.cpp) owns a thread, a queue
-- of posted tasks and one-shot timers. A Server accepts connections; each has an H2Session, whose
-- callbacks call the connection's handlers (OnHeadersComplete, OnData, OnStreamClose). They decode
-- frames (urpc_codec.cpp), look the method up (urpc_router.cpp), call user handlers, and answer
-- through the session. A Channel posts the calls of a client to its loop, connects, submits requests
-- to its own session and completes calls and streams from that session's callbacks. The generator
-- writes, for each service of a .proto, the interface, the client's proxy and the registration. The
-- typed API wraps handlers, calls and streams of messages around those of bytes.
--
-- Files and code.
--   Prelude: the libraries' names; Prelude.Str texts as lists of bytes; Prelude.Map std::map, with
--     Prelude.Map.Sorted; Prelude.Number std::stoull and std::stoi; Prelude.Keeps, how a property
--     passes through a conditional.
--   Status: urpc/core/source/urpc_status.cpp and status.h.
--   Codec: EncodeFrame and FrameDecoder of urpc_codec.cpp and codec.h; Codec.Fuel, Chunks, Feed,
--     Bounds, RoundTrip and Taken are about FrameDecoder::Consume.
--   Router: urpc_router.cpp; a path's handlers are numbers. Router.Refines is about it as a partial
--     function.
--   Timeout: ParseGrpcTimeout of urpc_server.cc; its products wrap at 2 ^ 64.
--   Loop: urpc_loop.cpp, over any type of tasks; Loop.Order is about the queue, Loop.Timers about the
--     timers.
--   Address: ParseAddress of urpc/core/source/platform/urpc_platform.cpp, over what libuv makes of a
--     host; Address.Endpoints is about it.
--   Wire: what the core hands to H2Session (h2_session.h), as frames in a log.
--   Server: Server::Impl::Conn of urpc_server.cc. Server.State has Conn, Call and OutMsg;
--     Server.Terminal has Respond, TrailersOnly, RespondError, OnDeadline and FireCancel;
--     Server.Stream has DispatchStream, DeliverRead, PumpOut, FinishStream and CancelStreamIo;
--     Server.Request has OnHeadersComplete, OnData, FinishRequest and OnStreamClose; Server.Context
--     has Ctx and StreamCtx; Server.Events has what reaches a connection. Server.Once, Queues, Reads,
--     Writes, Unary, Replies and Endings are about them. Server.Lifecycle has Start,
--     Shutdown, OnConnIdle, FinishShutdown and the read callback; Server.Lifecycle.Shutdown is about
--     them.
--   Channel: Channel::Impl of urpc_channel.cc. Channel.State has its records; Channel.Calls the unary
--     calls; Channel.Streams the streams; Channel.Session OnHeadersComplete, OnData, OnStreamClose,
--     the callback of TcpConnect and OnConnectionLost; Channel.Api the public methods and what
--     reaches a channel. Channel.Ledger says where a unary call stands; Channel.Answers,
--     Loss, Faults, Queues and Receives are about them.
--   Session: H2Session of urpc/core/source/urpc_h2_session.cc: its state and what nghttp2's callbacks
--     do; Session.Flush has FlushOut and the Send calls. Session.Drains, Accounts, Bodies, Intake and
--     Held are about them.
--   Generator: urpc/generator. Generator.Model has codegen_model.h and codegen_model.cc;
--     Generator.Traits, Methods, Calls, Services and Files the emitters of codegen_emit.cc as
--     templates; Generator.Plugin the plugin of urpc_codegen.cc. Generator.Braces, Balance,
--     Namespaces, Plain, Names and Output are about them.
--   Typed: urpc/api. Typed.Writer has ServerWriter, ServerWriteState and the end of
--     RegisterServerStreamingFor (urpc/api/include/urpc/stream.h); Typed.Client the client's ends of a
--     stream (the same file); Typed.Handlers the wrappers of handlers (unary.h, stream.h and
--     urpc/api/source/urpc_api_impl.cc); Typed.Channels urpc::Channel, its bridge and the proxies
--     (client.h, proxy.h, urpc_api_impl.cc). Typed.Settles, Delivers, Answers, Reads, Closed and
--     RoundTrip are about them.
--   EndToEnd: a stream of the server and one of a channel, together; that HTTP/2 delivers the bytes of
--     the bodies in order is a hypothesis there.
--   Tests: runs at concrete inputs.
--
-- How the code is modelled.
--   A record is a struct; a map is a list of entries in the order of the keys. A callback is a
--   number, and a null one is none. On the server, user code that is called may call the contexts
--   again before it returns: the operations take what user code does as a parameter, and
--   Server.Context.react is user code that calls any operations, nested to any depth. On the channel a
--   callback can only post, so a call of one is an entry of a log, and what it posts is an event that
--   comes later.
--   libuv and nghttp2 are outside: what they answer is an argument (whether uv_timer_init succeeds,
--   the stream id of a submitted request), and what they call is an event. In Server and Channel the
--   callbacks that a session makes while it flushes come as later events, and not inside the Send call
--   that flushes. Session has the flush itself: what nghttp2 calls back is a function of the session,
--   and what the code of a notification submits is one of the notification; what a handler submits
--   from inside a callback of nghttp2 comes as a later call. The bodies of all streams stand in one
--   list, each with the number by which nghttp2 knows it. The lines that write to a log, and the
--   debugging output under URPC_WIRE_DEBUG, are left out.
--   The loop of Consume runs on fuel, the number of buffered bytes and one or two more: every round
--   that goes on takes the header or the body off that number. OnData's loop runs on the number of
--   decoded messages, which only it takes. CancelStreamIo's runs on the length of the queue, which is
--   enough unless a failed write writes again on the same stream; what such a write adds stays queued.
--   The loop of FlushOut runs on fuel too: one more than what the callbacks that wait weigh is enough,
--   for any weight by which the code of a notification hands over less than it.
--   An emitter appends literals and names in turn: a template is the list of them, with slots for the
--   names. A descriptor of protobuf is a record of what the plugin reads.
--   upb is a parameter of the typed API: what it encodes and decodes, and whether there is an arena. A
--   typed handler is the list of its answers and whether it throws. What the core calls is an event,
--   and so is what user code does in a callback: the part of a write callback behind the user's code
--   is an event of its own. A call through a null pointer is none, and a call that waits steps once
--   what it waits for holds.
--   In Server.Lifecycle the mutex of the server is a flag: the loop thread that locks it twice waits for
--   ever. Whether nghttp2 closes a stream while it sends what a callback has handed over is a parameter
--   there. That LoopRunner::Stop stops the loop of a channel is an event of Channel.Api.
--   Two erasures of urpc_channel.cc go through an iterator that may be invalid: the field `faulted` of
--   Channel.State.Channel records that one was.
--
-- Not modelled: sockets (urpc/core/source/platform), logging, the methods of the API that only forward
-- to the core, and the examples, tests and benchmarks.
pub mod Prelude
pub mod Status
pub mod Codec
pub mod Router
pub mod Timeout
pub mod Loop
pub mod Address
pub mod Wire
pub mod Server
pub mod Session
pub mod Generator
pub mod Typed
pub mod EndToEnd
pub mod Tests
pub mod Channel
