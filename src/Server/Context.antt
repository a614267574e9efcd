-- ===== src/Server/Context.antt =====
-- What handlers call: Ctx and StreamCtx of urpc/core/source/urpc_server.cc.
use u_rpc.Prelude.{
  ℕ, zero, suc, Bool, true, false, ◌||◌, Option, none, some, List, [], ◌∷◌, ◌++◌, ◌==◌,
  if◌then◌else◌, leb, length, is_some,
}
use u_rpc.Prelude.Str.{Str, codes}
use u_rpc.Prelude.Map.{find, insert}
use u_rpc.Status.{Status, ok_status, status, internal, unavailable, resource_exhausted}
use u_rpc.Codec.{encode_frame}
use u_rpc.Server.State.{
  with_call, OutMsg, Call, Ctx, unary_ctx, stream_ctx, Callback, Conn, User, read_event, put,
}
use u_rpc.Server.Terminal.{respond}
use u_rpc.Server.Stream.{call_write, finish_stream, pump_out}

-- IsCancelled of both contexts.
unfoldable pub is_cancelled : ℕ → Conn → Bool
is_cancelled sid c = elim (find sid c.calls) [ none ↦ true | some call ↦ call.cancel_fired ]

-- OnCancel of both contexts.
unfoldable pub on_cancel : ℕ → ℕ → Conn → Bool × Conn
on_cancel sid cb c = elim (find sid c.calls) [
  | none ↦ (false, c)
  | some call ↦
      if call.cancel_fired
      then (false, c)
      else (true, put sid (record call { cancel_cbs = call.cancel_cbs ++ cb ∷ [] }) c)
]

-- Server::Impl::RemainingMsOf
unfoldable pub remaining_ms_of : ℕ → ℕ
remaining_ms_of timer_id = if timer_id == 0 then 0 else 1

-- TimeRemainingMs of Ctx; StreamCtx leaves the second test to RemainingMsOf.
unfoldable pub time_remaining_ms : ℕ → Conn → ℕ
unfolding remaining_ms_of
time_remaining_ms sid c = elim (find sid c.calls) [
  | none ↦ 0
  | some call ↦
      if call.cancel_fired
      then 0
      else (if call.deadline_timer == 0 then 0 else remaining_ms_of call.deadline_timer)
]

-- path of both contexts.
unfoldable pub path_of : ℕ → Conn → Str
path_of sid c = elim (find sid c.calls) [ none ↦ [] | some call ↦ call.path ]

-- StreamCtx::WriteDone
unfoldable pub write_done : ℕ → Conn → Conn
write_done sid c = with_call sid c λ call. put sid (record call { write_closed = true }) c

-- The message that StreamCtx stashed.
abbrev pub stashed : Option Ctx → Option Str
stashed none = none
stashed (some unary_ctx) = none
stashed (some (stream_ctx first)) = first

-- What ReadMessage finds, in the order of its tests.
pub data Read : Type 0 where
  closed : Bool → Read
  first : Str → Read
  next : Str → List Str → Read
  half_closed : Read
  concurrent : Read
  waits : Read

unfoldable pub read_state : Option Str → Call → List Str → Read
read_state (some m) call msgs = first m
read_state none call (m ∷ rest) = next m rest
read_state none call [] =
    if call.request_half_closed
    then half_closed
    else (if is_some call.read_cb then concurrent else waits)

unfoldable pub read_of : ℕ → Conn → Read
unfolding read_state
read_of sid c = elim (find sid c.calls) [
  | none ↦ closed false
  | some call ↦
      if call.read_finished
      then closed call.request_half_closed
      else read_state (stashed (find sid c.ctxs)) call call.pending_msgs
]

-- A write to the call, if it is there.
abbrev pub update : ℕ → (Call → Call) → Conn → Conn
update sid f c = elim (find sid c.calls) [ none ↦ c | some call ↦ put sid (f call) c ]

module _ (user : User) where
  -- StreamCtx::ReadMessage
  unfoldable pub do_read : ℕ → ℕ → Read → Conn → Conn
  do_read sid cb (closed eos) c =
      user (read_event cb (status unavailable (codes "stream closed")) eos []) c
  do_read sid cb (first m) c =
      user (read_event cb ok_status false m)
        (record c { ctxs = insert sid (stream_ctx none) c.ctxs })
  do_read sid cb (next m rest) c =
      user (read_event cb ok_status false m)
        (update sid (λ call. record call { pending_msgs = rest }) c)
  do_read sid cb half_closed c =
      user (read_event cb ok_status true [])
        (update sid (λ call. record call { read_finished = true }) c)
  do_read sid cb concurrent c =
      user (read_event cb (status internal (codes "concurrent read")) false []) c
  do_read sid cb waits c = update sid (λ call. record call { read_cb = some cb }) c

  unfoldable pub read_message : ℕ → ℕ → Conn → Conn
  unfolding do_read read_of
  read_message sid cb c = do_read sid cb (read_of sid c) c

  -- StreamCtx::WriteMessage
  unfoldable pub write_message : ℕ → Str → Option ℕ → Conn → Conn
  unfolding pump_out
  write_message sid msg cb c = elim (find sid c.calls) [
    | none ↦ call_write user cb (status unavailable (codes "stream closed")) c
    | some call ↦
        if call.responded || call.write_closed
        then call_write user cb (status internal (codes "stream finished")) c
        else (if leb 64 (length call.out_queue)
            then call_write user cb (status resource_exhausted (codes "send queue full")) c
            else (let out : OutMsg = record { framed = encode_frame msg []; cb = cb } in
                pump_out sid (put sid (record call { out_queue = call.out_queue ++ out ∷ [] }) c)))
  ]

-- What a handler may call on its context. StreamCtx maps both terminals to FinishStream.
pub data CtxOp : Type 0 where
  responds : ℕ → Status → Str → CtxOp
  finishes : ℕ → Status → CtxOp
  reads : ℕ → ℕ → CtxOp
  writes : ℕ → Str → Option ℕ → CtxOp
  closes_writes : ℕ → CtxOp
  asks_cancel : ℕ → ℕ → CtxOp

module _ (user : User) where
  unfoldable pub call_ctx : CtxOp → Conn → Conn
  unfolding respond finish_stream read_message write_message write_done on_cancel
  call_ctx (responds sid st payload) c = respond sid st payload c
  call_ctx (finishes sid st) c = finish_stream sid st c
  call_ctx (reads sid cb) c = read_message user sid cb c
  call_ctx (writes sid msg cb) c = write_message user sid msg cb c
  call_ctx (closes_writes sid) c = write_done sid c
  call_ctx (asks_cancel sid cb) c = (on_cancel sid cb c).1

  unfoldable pub call_all : List CtxOp → Conn → Conn
  unfolding call_ctx
  call_all [] c = c
  call_all (o ∷ os) c = call_all os (call_ctx o c)

-- User code: what it calls on contexts when it is called itself.
abbrev pub Script : Type 0
Script = Callback → Conn → List CtxOp

-- User code whose calls nest up to a depth: at depth 0 a callback does nothing more.
unfoldable pub react : ℕ → Script → User
unfolding call_all
react zero script cb c = c
react (suc depth) script cb c = call_all (react depth script) (script cb c) c
