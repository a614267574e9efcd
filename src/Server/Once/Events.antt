-- ===== src/Server/Once/Events.antt =====
-- The terminal frames of a stream over a whole history of a connection.
use mathlib.Core.Path.{subst}
use u_rpc.Prelude.{
  ℕ, suc, ◌==◌, not, is_some, ◌≤◌, ◌≡◌, refl, ◌∙◌, inl, inr, Bool, true, Option, none, some, List,
  [], ◌∷◌, arith, if◌then◌else◌, Option-cases, ◌&&◌,
}
use u_rpc.Prelude.Str.{Str, codes}
use u_rpc.Prelude.Map.{find, find-insert, find-empty}
use u_rpc.Codec.{FrameDecoder, new_decoder}
use u_rpc.Loop.{Loop, Task, posted, close_all_handles, drain_pending, fire_timer}
use u_rpc.Router.{HandlerEntry, find_handler}
use u_rpc.Wire.{Headers, field, terminals}
use u_rpc.Server.State.{Call, Conn, User, Deferred, deadline, pump, put, new_call}
use u_rpc.Server.Stream.{dispatch_stream}
use u_rpc.Server.Request.{
  call_at, with_entry, with_deadline, starts_at_open, open_call, good_headers, on_headers,
}
use u_rpc.Server.Context.{Script, react}
use u_rpc.Server.Events.{
  Event, headers_complete, data_received, stream_closed, consumed, timer_fired, loop_woken,
  handler_calls, run_deferred, run_fired, run_task, run_tasks, step, run,
}
use u_rpc.Server.Rules.{UserKeeps}
use u_rpc.Prelude.{if-keeps, option-keeps}
use u_rpc.Server.Once.{Watch, Room, Once, OnceAt, put-Once}
use u_rpc.Server.Once.Final.{trailers_only-Once}
use u_rpc.Server.Once.Silent.{
  dispatch_stream-Once, on_deadline-Once, on_consumed-Once, pump_out-Once,
}
use u_rpc.Server.Once.Outside.{
  finish_request-Once, on_data-Once, on_stream_close-Once, call_ctx-Once, react-Once,
}

put_at-Once :
    (k : Watch) (sid : ℕ) (d : FrameDecoder) (call : Call) (c : Conn)
    → Room k sid c
    → call.responded ≡ (call_at sid d c).responded
    → call.has_finish_pending ≡ (call_at sid d c).has_finish_pending
    → Once k c
    → Once k (put sid call c)
unfolding new_call
put_at-Once k sid d call c fresh r p h = elim (Option-cases (find sid c.calls)) [
  | inl e ↦ ground (arith, fresh e, find-insert k.stream sid call c.calls)
  | inr (old, e) ↦ put-Once k sid old call c e (ground arith) (ground arith) h
]

with_entry_same :
    (o : Option HandlerEntry) (call : Call)
    → ((with_entry o call).responded ≡ call.responded)
      × ((with_entry o call).has_finish_pending ≡ call.has_finish_pending)
unfolding with_entry
with_entry_same none call = (refl, refl)
with_entry_same (some e) call = (refl, refl)

with_deadline_same :
    (sid : ℕ) (o : Option Str) (init_ok : Bool) (call : Call) (l : Loop Deferred)
    → ((with_deadline sid o init_ok call l).0.responded ≡ call.responded)
      × ((with_deadline sid o init_ok call l).0.has_finish_pending ≡ call.has_finish_pending)
unfolding with_deadline
with_deadline_same sid none init_ok call l = (refl, refl)
with_deadline_same sid (some v) init_ok call l = (ground arith, ground arith)

module _ (k : Watch) (user : User) (keeps : UserKeeps (Once k) user) where
  open_call-Once :
      (sid : ℕ) (hs : Headers) (path : Str) (end_stream : Bool) (c : Conn)
      → Room k sid c
      → Once k c
      → Once k (open_call user sid hs path end_stream c)
  unfolding open_call
  open_call-Once sid hs path end_stream c fresh h =
      let d = new_decoder c.max_receive_size in
      let start = record (call_at sid d c) { path = path; started_ms = c.now_ms; decoder = d } in
      let routed = with_entry (find_handler c.router path) start in
      let timeout = field (codes "grpc-timeout") hs in
      let timed = with_deadline sid timeout c.timer_init_ok routed c.loop in
      let (r, p) = with_entry_same (find_handler c.router path) start in
      let (r', p') = with_deadline_same sid timeout c.timer_init_ok routed c.loop in
      let c2 = put sid timed.0 (record c { loop = timed.1 }) in
      let h2 : Once k c2 =
        put_at-Once k sid d timed.0 (record c { loop = timed.1 }) fresh (r' ∙ r) (p' ∙ p) h in
      let c3 =
        if timed.0.has_handler && starts_at_open timed.0.form
        then dispatch_stream user sid none c2
        else c2 in
      let h3 : Once k c3 =
        if-keeps (Once k) (timed.0.has_handler && starts_at_open timed.0.form) _ _
          (λ _. dispatch_stream-Once k user keeps sid none c2 h2) (λ _. h2) in
      if-keeps (Once k) end_stream _ _ (λ _. finish_request-Once k user keeps sid c3 h3) (λ _. h3)

  on_headers-Once :
      (sid : ℕ) (hs : Headers) (end_stream : Bool) (c : Conn)
      → Room k sid c
      → Once k c
      → Once k (on_headers user sid hs end_stream c)
  unfolding on_headers
  on_headers-Once sid hs end_stream c fresh h =
      option-keeps (Once k)
        (good_headers user (field (codes "content-type") hs) (field (codes ":path") hs)) _ _
        (trailers_only-Once k sid _ _ c fresh h)
        (λ path _. open_call-Once sid hs path end_stream c fresh h)

  run_deferred-Once : (t : Deferred) (c : Conn) → Once k c → Once k (run_deferred user t c)
  unfolding run_deferred
  run_deferred-Once (deadline sid) c h = on_deadline-Once k user keeps sid c h
  run_deferred-Once (pump sid) c h = pump_out-Once k sid c h

  run_tasks-Once : (ts : List (Task Deferred)) (c : Conn) → Once k c → Once k (run_tasks user ts c)
  unfolding run_tasks run_task
  run_tasks-Once [] c h = h
  run_tasks-Once (posted t ∷ ts) c h = run_tasks-Once ts _ (run_deferred-Once t c h)
  run_tasks-Once (close_all_handles ∷ ts) c h =
      run_tasks-Once ts (run_task user close_all_handles c) h

  run_fired-Once : (o : Option Deferred) (c : Conn) → Once k c → Once k (run_fired user o c)
  run_fired-Once none c h = h
  run_fired-Once (some t) c h = run_deferred-Once t c h

-- A header block that comes on a stream that has no call.
abbrev pub comes_new : ℕ → ℕ → Conn → Bool
comes_new k sid c = sid == k && not (is_some (find sid c.calls))

-- How many header blocks came on a stream while it had no call, on top of `n`.
abbrev pub counted : ℕ → Event → Conn → ℕ → ℕ
counted k (headers_complete sid hs end_stream) c n = if comes_new k sid c then suc n else n
counted k _ c n = n

unfoldable pub openings : ℕ → User → List Event → Conn → ℕ → ℕ
openings k user [] c n = n
openings k user (e ∷ es) c n = openings k user es (step user e c) (counted k e c n)

abbrev watch : ℕ → ℕ → Watch
watch k n = record { stream = k; budget = n }

widened : (k n m : ℕ) (o : Option Call) (t : ℕ) → n ≤ m → OnceAt o t n → OnceAt o t m
widened k n m none t l h = omega arith
widened k n m (some call) t l h = omega arith

-- The budget that a header block adds is there when it needs it.
counted-Room :
    (k n sid : ℕ) (c : Conn)
    → Once (watch k n) c
    → Room (watch k (if comes_new k sid c then suc n else n)) sid c
counted-Room k n sid c h absent same =
    let bound : terminals k c.sent ≤ n = subst (λ o. OnceAt o (terminals k c.sent) n) here h in
    let new : comes_new k sid c ≡ true = rw (absent, same) (ground arith) in
    rw (new, same) (omega arith)
  where
    here : find k c.calls ≡ none
    here = subst (λ j. find j c.calls ≡ none) same absent

module _ (k : ℕ) (user : User) (keeps : (n : ℕ) → UserKeeps (Once (watch k n)) user) where
  step-Once :
      (n : ℕ) (e : Event) (c : Conn)
      → Once (watch k n) c
      → Once (watch k (counted k e c n)) (step user e c)
  unfolding step
  step-Once n (headers_complete sid hs end_stream) c h =
      let m = if comes_new k sid c then suc n else n in
      on_headers-Once (watch k m) user (keeps m) sid hs end_stream c (counted-Room k n sid c h)
        (widened k n m (find k c.calls) (terminals k c.sent) (ground arith) h)
  step-Once n (data_received sid bytes end_stream) c h =
      on_data-Once (watch k n) user (keeps n) sid bytes end_stream c h
  step-Once n (stream_closed sid) c h = on_stream_close-Once (watch k n) user (keeps n) sid c h
  step-Once n (consumed sid cb) c h = on_consumed-Once (watch k n) user (keeps n) sid cb c h
  step-Once n (timer_fired id) c h =
      let (t, l) = fire_timer id c.loop in
      run_fired-Once (watch k n) user (keeps n) t (record c { loop = l }) h
  step-Once n loop_woken c h =
      let (ready, l) = drain_pending c.loop in
      run_tasks-Once (watch k n) user (keeps n) ready (record c { loop = l }) h
  step-Once n (handler_calls o) c h = call_ctx-Once (watch k n) user (keeps n) o c h

  run-Once :
      (n : ℕ) (es : List Event) (c : Conn)
      → Once (watch k n) c
      → Once (watch k (openings k user es c n)) (run user es c)
  unfolding run openings
  run-Once n [] c h = h
  run-Once n (e ∷ es) c h = run-Once (counted k e c n) es (step user e c) (step-Once n e c h)

once_bound : (o : Option Call) (n b : ℕ) → OnceAt o n b → n ≤ b
once_bound none n b h = h
once_bound (some call) n b h = ground arith

-- On every stream of a connection the terminal frames that are ever sent are at most as many as the
-- header blocks that came on the stream while it had no call, whatever reaches the connection in
-- whatever order, and whatever the handlers and callbacks do, nested to any depth: so one at most where
-- one request opens the stream and its headers are good. The connection starts with no calls and nothing
-- sent.
pub terminal_once :
    (k depth : ℕ) (script : Script) (es : List Event) (c : Conn)
    → c.calls ≡ []
    → c.sent ≡ []
    → terminals k (run (react depth script) es c).sent ≤ openings k (react depth script) es c 0
unfolding terminals
terminal_once k depth script es c none_yet unsent =
    once_bound (find k c'.calls) _ _
      (run-Once k user (λ n. react-Once (watch k n) depth script) 0 es c start)
  where
    user : User
    user = react depth script

    c' : Conn
    c' = run user es c

    start : Once (watch k 0) c
    start = ground (arith, find-empty {V = Call} k)
