-- ===== src/Server/Queues/Events.antt =====
-- The queues of calls over a whole history of a connection (urpc/core/source/urpc_server.cc).
use mathlib.Core.Path.{subst}
use u_rpc.Prelude.{
  ℕ, zero, suc, ◌≡◌, refl, sym, Bool, false, ◌||◌, Option, none, some, List, [], ◌∷◌, ◌++◌, arith,
  if◌then◌else◌, leb, length, is_some, if-keeps, option-keeps,
}
use u_rpc.Prelude.Str.{Str}
use u_rpc.Prelude.Map.{find}
use u_rpc.Codec.{encode_frame}
use u_rpc.Loop.{Task, posted, close_all_handles, close_all, drain_pending, fire_timer}
use u_rpc.Server.State.{OutMsg, Call, Conn, User, Deferred, deadline, pump}
use u_rpc.Server.Context.{
  CtxOp, responds, finishes, reads, writes, closes_writes, asks_cancel, Read, closed, first, next,
  half_closed, concurrent, waits, stashed, read_state, do_read, read_of, read_message,
  write_message, write_done, on_cancel, call_ctx, call_all, Script, react,
}
use u_rpc.Server.Events.{
  Event, headers_complete, data_received, stream_closed, consumed, timer_fired, loop_woken,
  handler_calls, run_deferred, run_fired, run_task, run_tasks, step, run,
}
use u_rpc.Server.Rules.{UserKeeps}
use u_rpc.Server.Queues.{
  IsTidy, Tidy, put-Tidy, found-IsTidy, at_call, respond-Tidy, finish_stream-Tidy, pump_out-Tidy,
}
use u_rpc.Server.Queues.Delivery.{room, on_deadline-Tidy, on_consumed-Tidy, call_write-Tidy}
use u_rpc.Server.Queues.Incoming.{on_headers-Tidy, on_data-Tidy, on_stream_close-Tidy}

-- What ReadMessage found stands in the call.
abbrev Fits : Call → Read → Type 0
Fits call (next m rest) = call.pending_msgs ≡ m ∷ rest
Fits call waits = call.pending_msgs ≡ []
Fits call _ = Unit {0}

read_state-Fits :
    (o : Option Str) (call : Call) (msgs : List Str)
    → call.pending_msgs ≡ msgs
    → Fits call (read_state o call msgs)
unfolding read_state
read_state-Fits (some m) call msgs e = tt
read_state-Fits none call (m ∷ rest) e = e
read_state-Fits none call [] e =
    if-keeps (Fits call) call.request_half_closed _ _ (λ _. tt)
      λ _. if-keeps (Fits call) (is_some call.read_cb) _ _ (λ _. tt) (λ _. e)

read_of-Fits :
    (sid : ℕ) (call : Call) (c : Conn) → find sid c.calls ≡ some call → Fits call (read_of sid c)
unfolding read_of
read_of-Fits sid call c e =
    subst
      (λ o. Fits call (elim o [
        | none ↦ closed false
        | some call' ↦
            if call'.read_finished
            then closed call'.request_half_closed
            else read_state (stashed (find sid c.ctxs)) call' call'.pending_msgs
      ]))
      (sym e)
      (if-keeps (Fits call) call.read_finished (closed call.request_half_closed) _ (λ _. tt)
        λ _. read_state-Fits (stashed (find sid c.ctxs)) call call.pending_msgs refl)

module _ (user : User) (keeps : UserKeeps Tidy user) where
  do_read-Tidy :
      (sid cb : ℕ) (r : Read) (c : Conn)
      → ((call : Call) → find sid c.calls ≡ some call → Fits call r)
      → Tidy c
      → Tidy (do_read user sid cb r c)
  unfolding do_read
  do_read-Tidy sid cb (closed eos) c f h = keeps _ c h
  do_read-Tidy sid cb (first m) c f h = keeps _ _ h
  do_read-Tidy sid cb (next m rest) c f h = keeps _ _ (
      option-keeps Tidy (find sid c.calls) _ _ h
        λ call e. put-Tidy sid _ c (taken call (f call e) (found-IsTidy sid call c e h)) h)
    where
      taken :
          (call : Call)
          → call.pending_msgs ≡ m ∷ rest
          → IsTidy call
          → IsTidy (record call { pending_msgs = rest })
      taken call e (o, p, r) = (o, ground arith, λ k. absurd (ground (arith, r k)))
  do_read-Tidy sid cb half_closed c f h =
      keeps _ _ (at_call sid c _ h λ call t. put-Tidy sid _ c t h)
  do_read-Tidy sid cb concurrent c f h = keeps _ c h
  do_read-Tidy sid cb waits c f h = option-keeps Tidy (find sid c.calls) _ _ h λ call e.
      let (o, p, r) = found-IsTidy sid call c e h in
      put-Tidy sid (record call { read_cb = some cb }) c (o, p, λ _. f call e) h

  write_message-Tidy :
      (sid : ℕ) (msg : Str) (cb : Option ℕ) (c : Conn)
      → Tidy c
      → Tidy (write_message user sid msg cb c)
  unfolding write_message
  write_message-Tidy sid msg cb c h =
      option-keeps Tidy (find sid c.calls) _ _ (call_write-Tidy user keeps cb _ c h) λ call e.
        let (o, p, r) = found-IsTidy sid call c e h in
        if-keeps Tidy (call.responded || call.write_closed) _ _
          (λ _. call_write-Tidy user keeps cb _ c h)
          (λ _.
            if-keeps Tidy (leb 64 (length call.out_queue)) _ _
              (λ _. call_write-Tidy user keeps cb _ c h)
              (λ full.
                let out : OutMsg = record { framed = encode_frame msg []; cb = cb } in
                pump_out-Tidy sid _ (
                  put-Tidy sid (record call { out_queue = call.out_queue ++ out ∷ [] }) c
                    (room call.out_queue out full, p, r) h)))

  abbrev SecondTidy : Bool × Conn → Type 0
  SecondTidy r = Tidy r.1

  call_ctx-Tidy : (o : CtxOp) (c : Conn) → Tidy c → Tidy (call_ctx user o c)
  unfolding call_ctx
  call_ctx-Tidy (responds sid st payload) c h = respond-Tidy sid st payload c h
  call_ctx-Tidy (finishes sid st) c h = finish_stream-Tidy sid st c h
  call_ctx-Tidy (reads sid cb) c h =
      unfold read_message in
      do_read-Tidy sid cb (read_of sid c) c (λ call e. read_of-Fits sid call c e) h
  call_ctx-Tidy (writes sid msg cb) c h = write_message-Tidy sid msg cb c h
  call_ctx-Tidy (closes_writes sid) c h =
      unfold write_done in at_call sid c _ h λ call t. put-Tidy sid _ c t h
  call_ctx-Tidy (asks_cancel sid cb) c h =
      unfold on_cancel in
      option-keeps SecondTidy (find sid c.calls) (false, c) _ h
        λ call e.
          if-keeps SecondTidy call.cancel_fired (false, c) _ (λ _. h)
            (λ _. put-Tidy sid _ c (found-IsTidy sid call c e h) h)

  call_all-Tidy : (os : List CtxOp) (c : Conn) → Tidy c → Tidy (call_all user os c)
  unfolding call_all
  call_all-Tidy [] c h = h
  call_all-Tidy (o ∷ os) c h = call_all-Tidy os _ (call_ctx-Tidy o c h)

  run_deferred-Tidy : (t : Deferred) (c : Conn) → Tidy c → Tidy (run_deferred user t c)
  unfolding run_deferred
  run_deferred-Tidy (deadline sid) c h = on_deadline-Tidy user keeps sid c h
  run_deferred-Tidy (pump sid) c h = pump_out-Tidy sid c h

  run_tasks-Tidy : (ts : List (Task Deferred)) (c : Conn) → Tidy c → Tidy (run_tasks user ts c)
  unfolding run_tasks run_task
  run_tasks-Tidy [] c h = h
  run_tasks-Tidy (posted t ∷ ts) c h = run_tasks-Tidy ts _ (run_deferred-Tidy t c h)
  run_tasks-Tidy (close_all_handles ∷ ts) c h =
      run_tasks-Tidy ts (record c { loop = close_all c.loop }) h

  run_fired-Tidy : (o : Option Deferred) (c : Conn) → Tidy c → Tidy (run_fired user o c)
  run_fired-Tidy none c h = h
  run_fired-Tidy (some t) c h = run_deferred-Tidy t c h

  step-Tidy : (e : Event) (c : Conn) → Tidy c → Tidy (step user e c)
  unfolding step
  step-Tidy (headers_complete sid hs end_stream) c h =
      on_headers-Tidy user keeps sid hs end_stream c h
  step-Tidy (data_received sid bytes end_stream) c h =
      on_data-Tidy user keeps sid bytes end_stream c h
  step-Tidy (stream_closed sid) c h = on_stream_close-Tidy user keeps sid c h
  step-Tidy (consumed sid cb) c h = on_consumed-Tidy user keeps sid cb c h
  step-Tidy (timer_fired id) c h =
      let (t, l) = fire_timer id c.loop in run_fired-Tidy t (record c { loop = l }) h
  step-Tidy loop_woken c h =
      let (ready, l) = drain_pending c.loop in run_tasks-Tidy ready (record c { loop = l }) h
  step-Tidy (handler_calls o) c h = call_ctx-Tidy o c h

  run_events-Tidy : (es : List Event) (c : Conn) → Tidy c → Tidy (run user es c)
  unfolding run
  run_events-Tidy [] c h = h
  run_events-Tidy (e ∷ es) c h = run_events-Tidy es (step user e c) (step-Tidy e c h)

-- Whatever the user's script, and however deep its callbacks nest.
react-Tidy : (depth : ℕ) (script : Script) → UserKeeps Tidy (react depth script)
unfolding react
react-Tidy zero script cb c h = h
react-Tidy (suc depth) script cb c h =
    call_all-Tidy (react depth script) (react-Tidy depth script) (script cb c) c h

-- Whatever reaches a connection, and whatever the handlers and callbacks do, nested to any depth: on
-- every call at most 64 messages wait to be sent and at most 64 to be read, and a read callback waits
-- only where no message does; from a connection where this holds of every call, so from one without.
pub run-Tidy :
    (depth : ℕ) (script : Script) (es : List Event) (c : Conn)
    → Tidy c
    → Tidy (run (react depth script) es c)
run-Tidy depth script es c h = run_events-Tidy (react depth script) (react-Tidy depth script) es c h
