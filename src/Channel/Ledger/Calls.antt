-- ===== src/Channel/Ledger/Calls.antt =====
-- The books and the unary operations: Complete, CallNow, FailPending, StartPending and Call of
-- urpc/core/source/urpc_channel.cc.
use u_rpc.Prelude.{
  ℕ, ◌≡◌, refl, Bool, false, Option, none, some, List, [], ◌∷◌, ◌++◌, arith, if◌then◌else◌, ltb,
  is_empty, All, All-append, if-keeps,
}
use u_rpc.Prelude.Str.{Str}
use u_rpc.Prelude.Map.{Map, find, insert, find-insert}
use u_rpc.Prelude.Map.Sorted.{IsSorted, insert-IsSorted, All-insert, find-Above}
use u_rpc.Status.{Status}
use u_rpc.Codec.{FrameDecoder}
use u_rpc.Loop.{Task, posted, set_timer}
use u_rpc.Channel.State.{
  State, idle, connecting, ready, broken, Call, PendingCall, Deferred, start_call, call_timeout,
  Channel, head_id, tail_ids,
}
use u_rpc.Channel.Calls.{
  submit_request, submitted, call_now, fail_calls, fail_pending, start_calls, start_pending,
  enqueue_call, run_start_call,
}
use u_rpc.Channel.Ledger.{
  Books, OpensAs, IsOpen, WaitsOpen, held_in, waits_in, open_in, waits-append, timed-keeps,
  loop-Books, complete_held-Books,
}

abbrev pub calls_of : List PendingCall → List Call
calls_of [] = []
calls_of (pc ∷ pcs) = pc.call ∷ calls_of pcs

abbrev pub values : Map Call → List Call
values [] = []
values ((id, call) ∷ m) = call ∷ values m

held_in-calls_of : (k : ℕ) (pcs : List PendingCall) → held_in k (calls_of pcs) ≡ waits_in k pcs
held_in-calls_of k [] = refl
held_in-calls_of k (pc ∷ pcs) = ground (arith, held_in-calls_of k pcs)

calls_of-IsOpen : (pcs : List PendingCall) → All WaitsOpen pcs → All IsOpen (calls_of pcs)
calls_of-IsOpen [] h = h
calls_of-IsOpen (pc ∷ pcs) h = (h.0, calls_of-IsOpen pcs h.1)

pub held_in-values :
    (k : ℕ) (m : Map Call) → IsSorted m → All OpensAs m → held_in k (values m) ≡ open_in k m
unfolding find
held_in-values k [] s h = refl
held_in-values k ((id, call) ∷ m) s h =
    ground (arith, held_in-values k m s.1 h.1, h.0, find-Above k id m)

pub values-IsOpen : (m : Map Call) → All OpensAs m → All IsOpen (values m)
values-IsOpen [] h = h
values-IsOpen ((id, call) ∷ m) h = (h.0.1, values-IsOpen m h.1)

module _ (E : ℕ → Bool) (ts : List (Task Deferred)) where
  enter-Books :
      (held : List Call) (call : Call) (sid : ℕ) (c : Channel)
      → Books E ts (call ∷ held) c
      → Books E ts held (record c { calls = insert call.id (record call { sid = sid }) c.calls })
  enter-Books held call sid c (sums, ahead, sorted, keyed, waiting, timers, (o, opens)) = (
    (λ k. ground (arith, sums k, find-insert k call.id (record call { sid = sid }) c.calls)),
    ahead,
    insert-IsSorted call.id (record call { sid = sid }) c.calls sorted,
    All-insert OpensAs call.id (record call { sid = sid }) c.calls (refl, o) keyed,
    waiting,
    timers,
    opens,
  )

  submitted-Books :
      (held : List Call) (answer : Option ℕ) (path framed : Str) (call : Call) (c : Channel)
      → Books E ts (call ∷ held) c
      → Books E ts held (submitted answer path framed call c)
  unfolding submitted
  submitted-Books held none path framed call c h = complete_held-Books E ts held call _ [] c h
  submitted-Books held (some sid) path framed call c h =
      unfold submit_request in
      if-keeps
        (λ c'. Books E ts held (record c' {
          by_stream = insert sid call.id c'.by_stream;
          calls = insert call.id (record call { sid = sid }) c'.calls;
        }))
        (is_empty framed) _ _ (λ _. enter-Books held call sid c h)
        (λ _. enter-Books held call sid c h)

  call_now-Books :
      (held : List Call) (path framed : Str) (call : Call) (c : Channel)
      → Books E ts (call ∷ held) c
      → Books E ts held (call_now path framed call c)
  unfolding call_now
  call_now-Books held path framed call c h =
      submitted-Books held (head_id c.session_ids) path framed call
        (record c { session_ids = tail_ids c.session_ids }) h

  fail_calls-Books :
      (pcs : List PendingCall) (st : Status) (c : Channel)
      → Books E ts (calls_of pcs) c
      → Books E ts [] (fail_calls pcs st c)
  unfolding fail_calls
  fail_calls-Books [] st c h = h
  fail_calls-Books (pc ∷ pcs) st c h =
      fail_calls-Books pcs st _ (complete_held-Books E ts (calls_of pcs) pc.call st [] c h)

  start_calls-Books :
      (pcs : List PendingCall) (c : Channel)
      → Books E ts (calls_of pcs) c
      → Books E ts [] (start_calls pcs c)
  unfolding start_calls
  start_calls-Books [] c h = h
  start_calls-Books (pc ∷ pcs) c h =
      start_calls-Books pcs _ (call_now-Books (calls_of pcs) pc.path pc.framed pc.call c h)

  -- The queue is taken in hand.
  take_pending-Books :
      (c : Channel) → Books E ts [] c → Books E ts (calls_of c.pending) (record c { pending = [] })
  take_pending-Books c (sums, ahead, sorted, keyed, waiting, timers, opens) = (
    (λ k. omega (arith, sums k, held_in-calls_of k c.pending)),
    ahead,
    sorted,
    keyed,
    opens,
    timers,
    calls_of-IsOpen c.pending waiting,
  )

  pub fail_pending-Books :
      (st : Status) (c : Channel) → Books E ts [] c → Books E ts [] (fail_pending st c)
  unfolding fail_pending
  fail_pending-Books st c h = fail_calls-Books c.pending st _ (take_pending-Books c h)

  pub start_pending-Books : (c : Channel) → Books E ts [] c → Books E ts [] (start_pending c)
  unfolding start_pending
  start_pending-Books c h = start_calls-Books c.pending _ (take_pending-Books c h)

  wait-Books :
      (path framed : Str) (call : Call) (c : Channel)
      → Books E ts (call ∷ []) c
      → Books E ts [] (record c {
        pending = c.pending ++ record { path = path; framed = framed; call = call } ∷ [];
      })
  wait-Books path framed call c (sums, ahead, sorted, keyed, waiting, timers, (o, opens)) = (
    (λ k. ground (
      arith,
      sums k,
      waits-append k c.pending (record { path = path; framed = framed; call = call } ∷ []),
    )),
    ahead,
    sorted,
    keyed,
    All-append WaitsOpen c.pending _ waiting (o, opens),
    timers,
    opens,
  )

  enqueue_call-Books :
      (s : State) (path framed : Str) (call : Call) (c : Channel)
      → Books E ts (call ∷ []) c
      → Books E ts [] (enqueue_call s path framed call c)
  unfolding enqueue_call
  enqueue_call-Books ready path framed call c h = call_now-Books [] path framed call c h
  enqueue_call-Books broken path framed call c h = complete_held-Books E ts [] call _ [] c h
  enqueue_call-Books idle path framed call c h = wait-Books path framed call c h
  enqueue_call-Books connecting path framed call c h = wait-Books path framed call c h

  pub run_start_call-Books :
      (id : ℕ) (path framed : Str) (timeout_ms : ℕ) (cb : Option ℕ) (d : FrameDecoder) (c : Channel)
      → Books E (posted (start_call id path framed timeout_ms cb d) ∷ ts) [] c
      → Books E ts [] (run_start_call id path framed timeout_ms cb d c)
  unfolding run_start_call
  run_start_call-Books id path framed timeout_ms cb d c
        (sums, ahead, sorted, keyed, waiting, timers, opens) =
      let timed =
        if ltb 0 timeout_ms
        then set_timer c.timer_init_ok (call_timeout id) c.loop
        else (0, c.loop) in
      let call : Call = record {
        id = id;
        sid = 0;
        timeout_timer = timed.0;
        decoder = d;
        done = cb;
        completed = false;
      } in
      enqueue_call-Books c.state path framed call (record c { loop = timed.1 })
        (loop-Books E ts (call ∷ []) timed.1 c
          (timed-keeps (ltb 0 timeout_ms) c.timer_init_ok (call_timeout id) c.loop (λ k. refl))
          ((λ k. ground (arith, sums k)), ahead, sorted, keyed, waiting, timers, (refl, opens)))
