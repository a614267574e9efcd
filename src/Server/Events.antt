-- ===== src/Server/Events.antt =====
-- What reaches a connection from outside: the session's callbacks, the loop, and handlers that go
-- on after they returned.
use u_rpc.Prelude.{ℕ, Bool, Option, none, some, List, [], ◌∷◌}
use u_rpc.Prelude.Str.{Str}
use u_rpc.Loop.{Task, posted, close_all_handles, drain_pending, close_all, fire_timer}
use u_rpc.Wire.{Headers}
use u_rpc.Server.State.{Conn, Deferred, deadline, pump, User}
use u_rpc.Server.Terminal.{on_deadline}
use u_rpc.Server.Stream.{pump_out, on_consumed}
use u_rpc.Server.Request.{on_headers, on_data, on_stream_close}
use u_rpc.Server.Context.{CtxOp, call_ctx}

pub data Event : Type 0 where
  headers_complete : ℕ → Headers → Bool → Event
  data_received : ℕ → Str → Bool → Event
  stream_closed : ℕ → Event
  consumed : ℕ → Option ℕ → Event
  timer_fired : ℕ → Event
  loop_woken : Event
  handler_calls : CtxOp → Event

module _ (user : User) where
  unfoldable pub run_deferred : Deferred → Conn → Conn
  run_deferred (deadline sid) c = on_deadline user sid c
  run_deferred (pump sid) c = pump_out sid c

  abbrev pub run_fired : Option Deferred → Conn → Conn
  run_fired none c = c
  run_fired (some t) c = run_deferred t c

  unfoldable pub run_task : Task Deferred → Conn → Conn
  unfolding run_deferred
  run_task (posted t) c = run_deferred t c
  run_task close_all_handles c = record c { loop = close_all c.loop }

  unfoldable pub run_tasks : List (Task Deferred) → Conn → Conn
  unfolding run_task
  run_tasks [] c = c
  run_tasks (t ∷ ts) c = run_tasks ts (run_task t c)

  unfoldable pub step : Event → Conn → Conn
  unfolding run_deferred run_tasks
  step (headers_complete sid hs end_stream) c = on_headers user sid hs end_stream c
  step (data_received sid bytes end_stream) c = on_data user sid bytes end_stream c
  step (stream_closed sid) c = on_stream_close user sid c
  step (consumed sid cb) c = on_consumed user sid cb c
  step (timer_fired id) c = let (t, l) = fire_timer id c.loop in run_fired t (record c { loop = l })
  step loop_woken c =
      let (ready, l) = drain_pending c.loop in run_tasks ready (record c { loop = l })
  step (handler_calls o) c = call_ctx user o c

  unfoldable pub run : List Event → Conn → Conn
  unfolding step
  run [] c = c
  run (e ∷ es) c = run es (step e c)
