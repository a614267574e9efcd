-- ===== src/Channel/State.antt =====
-- The state of a client channel: Channel::Impl of urpc/core/source/urpc_channel.cc. The callbacks
-- that a client passes are numbers. The public methods of Channel only post tasks, so no callback
-- can change this state while it runs: a call of one is an entry of a log. The frames handed to
-- the session are a log too; both have the newest entry first.
use u_rpc.Prelude.{ℕ, Bool, Option, none, List, [], ◌∷◌, ◌==◌, if◌then◌else◌}
use u_rpc.Prelude.Str.{Str}
use u_rpc.Prelude.Map.{Map, erase}
use u_rpc.Status.{Status}
use u_rpc.Codec.{FrameDecoder}
use u_rpc.Loop.{Loop, cancel_timer}
use u_rpc.Wire.{Frame}

-- The connection's lifecycle.
pub data State : Type 0 where
  idle connecting ready broken : State

pub record Call : Type 0 where
  pub id : ℕ
  pub sid : ℕ
  pub timeout_timer : ℕ
  pub decoder : FrameDecoder
  pub done : Option ℕ
  pub completed : Bool

pub record PendingCall : Type 0 where
  pub path : Str
  pub framed : Str
  pub call : Call

pub record OutMsg : Type 0 where
  pub framed : Str
  pub close : Bool
  pub cb : Option ℕ

-- StreamEvents: the two callbacks.
pub record StreamEvents : Type 0 where
  pub on_message : Option ℕ
  pub on_complete : Option ℕ

pub record Stream : Type 0 where
  pub id : ℕ
  pub sid : ℕ
  pub timeout_timer : ℕ
  pub decoder : FrameDecoder
  pub events : StreamEvents
  pub completed : Bool
  pub send_closed : Bool
  pub rst_pending : Bool
  pub out_queue : List OutMsg
  pub out_inflight : Bool

pub record PendingStream : Type 0 where
  pub id : ℕ
  pub path : Str
  pub events : StreamEvents
  pub timeout_ms : ℕ
  pub out_queue : List OutMsg

-- A callback of the client that was called: `done` of a call, the two of a stream, and
-- `on_flushed` of a send. A null callback is `none`, and nothing is called then.
pub data Fired : Type 0 where
  done : ℕ → Option ℕ → Status → Str → Fired
  message : ℕ → Option ℕ → Status → Str → Fired
  complete : ℕ → Option ℕ → Status → Fired
  flushed : Option ℕ → Status → Fired

-- The tasks and timers that the channel gives its loop.
pub data Deferred : Type 0 where
  start_call : ℕ → Str → Str → ℕ → Option ℕ → FrameDecoder → Deferred
  cancel_call : ℕ → Deferred
  open_stream : ℕ → Str → StreamEvents → ℕ → Deferred
  send_on_stream : ℕ → Str → Option ℕ → Bool → Deferred
  close_stream_send : ℕ → Deferred
  pump_stream : ℕ → Deferred
  call_timeout : ℕ → Deferred
  stream_timeout : ℕ → Deferred

pub record Channel : Type 0 where
  pub address : Str
  pub max_receive_size : ℕ
  pub timer_init_ok : Bool  -- what uv_timer_init answers
  pub session_ids : List (Option ℕ)  -- what the session's Submit calls will answer; none is -1
  pub loop : Loop Deferred
  pub state : State
  pub has_socket : Bool
  pub has_session : Bool
  pub calls : Map Call
  pub by_stream : Map ℕ
  pub pending : List PendingCall
  pub next_call_id : ℕ
  pub streams : Map Stream
  pub stream_by_sid : Map ℕ
  pub pending_streams : List PendingStream
  pub sent : List Frame
  pub fired : List Fired
  pub faulted : Bool  -- an erase through an iterator whose element is gone

abbrev pub fire : Fired → Channel → Channel
fire f c = record c { fired = f ∷ c.fired }

abbrev pub send : Frame → Channel → Channel
send f c = record c { sent = f ∷ c.sent }

-- CancelTimer behind `timeout_timer != 0`.
abbrev pub stopped : ℕ → Loop Deferred → Loop Deferred
stopped id l = if id == 0 then l else cancel_timer id l

-- `erase` behind `sid != 0`.
abbrev pub erase_sid : ℕ → Map ℕ → Map ℕ
erase_sid sid m = if sid == 0 then m else erase sid m

-- What the session's next Submit call answers.
abbrev pub head_id : List (Option ℕ) → Option ℕ
head_id [] = none
head_id (o ∷ os) = o

abbrev pub tail_ids : List (Option ℕ) → List (Option ℕ)
tail_ids [] = []
tail_ids (o ∷ os) = os
