-- ===== src/Server/State.antt =====
-- The state of one connection: Server::Impl::Conn of urpc/core/source/urpc_server.cc, with what it
-- reaches through its server (the loop, the router, the options). The loop holds the tasks of this
-- connection. A callback is a number; what user code does when one is called is the parameter
-- `user` of the operations. Sends are kept in a log, newest first.
use u_rpc.Prelude.{ℕ, Bool, false, Option, none, some, List, [], ◌∷◌, ◌==◌, if◌then◌else◌}
use u_rpc.Prelude.Str.{Str}
use u_rpc.Prelude.Map.{Map, find, insert}
use u_rpc.Status.{Status, ok_status}
use u_rpc.Codec.{FrameDecoder}
use u_rpc.Router.{MethodForm, HandlerEntry, Router, unary}
use u_rpc.Loop.{Loop, cancel_timer}
use u_rpc.Wire.{Frame}

pub record OutMsg : Type 0 where
  pub framed : Str
  pub cb : Option ℕ

pub record Call : Type 0 where
  pub path : Str
  pub decoder : FrameDecoder
  pub deadline_timer : ℕ
  pub started_ms : ℕ
  pub responded : Bool
  pub request_done : Bool
  pub cancel_fired : Bool
  pub cancel_cbs : List ℕ
  pub form : MethodForm
  pub entry : HandlerEntry
  pub has_handler : Bool
  pub dispatched : Bool
  pub request_half_closed : Bool
  pub read_finished : Bool
  pub read_cb : Option ℕ
  pub pending_msgs : List Str
  pub out_queue : List OutMsg
  pub out_inflight : Bool
  pub response_headers_sent : Bool
  pub write_closed : Bool
  pub finish_pending : Status
  pub has_finish_pending : Bool

-- `Call{}`; its decoder is null, which OnHeadersComplete replaces at once.
unfoldable pub new_call : FrameDecoder → Call
new_call d = record {
  path = [];
  decoder = d;
  deadline_timer = 0;
  started_ms = 0;
  responded = false;
  request_done = false;
  cancel_fired = false;
  cancel_cbs = [];
  form = unary;
  entry = record { form = unary; unary_handler = none; stream_handler = none };
  has_handler = false;
  dispatched = false;
  request_half_closed = false;
  read_finished = false;
  read_cb = none;
  pending_msgs = [];
  out_queue = [];
  out_inflight = false;
  response_headers_sent = false;
  write_closed = false;
  finish_pending = ok_status;
  has_finish_pending = false;
}

-- Ctx, or StreamCtx with its stashed first message.
pub data Ctx : Type 0 where
  unary_ctx : Ctx
  stream_ctx : Option Str → Ctx

-- What the connection gives the loop to run later.
pub data Deferred : Type 0 where
  deadline : ℕ → Deferred
  pump : ℕ → Deferred

pub record Conn : Type 0 where
  pub router : Router
  pub max_receive_size : ℕ
  pub now_ms : ℕ
  pub timer_init_ok : Bool  -- what uv_timer_init answers
  pub loop : Loop Deferred
  pub calls : Map Call
  pub ctxs : Map Ctx
  pub sent : List Frame

-- A call of user code.
pub data Callback : Type 0 where
  unary_call : ℕ → HandlerEntry → Str → Callback
  stream_call : ℕ → HandlerEntry → Callback
  read_event : ℕ → Status → Bool → Str → Callback
  write_event : ℕ → Status → Callback
  cancel_event : ℕ → Callback

-- What user code does to the connection while it runs.
abbrev pub User : Type 0
User = Callback → Conn → Conn

-- A write through the reference `call`, which stands in the map.
abbrev pub put : ℕ → Call → Conn → Conn
put sid call c = record c { calls = insert sid call c.calls }

abbrev pub send : Frame → Conn → Conn
send f c = record c { sent = f ∷ c.sent }

-- CancelTimer behind `deadline_timer != 0`.
abbrev pub stopped : ℕ → Loop Deferred → Loop Deferred
stopped id l = if id == 0 then l else cancel_timer id l

abbrev pub stop_timer : ℕ → Conn → Conn
stop_timer id c = record c { loop = stopped id c.loop }

-- `auto it = calls.find(sid); if (it == calls.end()) return;` and what follows with the call.
abbrev pub with_call : ℕ → Conn → (Call → Conn) → Conn
with_call sid c f = elim (find sid c.calls) [ none ↦ c | some call ↦ f call ]
