-- ===== src/Channel/Ledger/Events.antt =====
-- The books over everything that reaches a channel (urpc/core/source/urpc_channel.cc).
use u_rpc.Prelude.{
  ℕ, ◌≡◌, refl, Bool, true, Option, none, some, List, [], ◌∷◌, arith, if-keeps, option-keeps,
}
use u_rpc.Prelude.Str.{Str}
use u_rpc.Prelude.Map.{find, find-empty, find-erase}
use u_rpc.Status.{Status, is_ok}
use u_rpc.Loop.{
  Task, posted, close_all_handles, post, close_all, drain_pending, fire_timer, cancel_timer,
}
use u_rpc.Channel.State.{
  broken, ready, Call, Deferred, start_call, cancel_call, open_stream, send_on_stream,
  close_stream_send, pump_stream, call_timeout, stream_timeout, Channel,
}
use u_rpc.Channel.Session.{on_headers, on_data, on_stream_close, on_connect, close_stream}
use u_rpc.Channel.Calls.{start_pending}
use u_rpc.Channel.Api.{loop_woken, timer_fired, run_deferred, run_task, run_tasks, run_fired, step}
use u_rpc.Channel.Ledger.{Books, starts, loop-Books, post-keeps}
use u_rpc.Channel.Ledger.Streams.{
  run_pump-Books, start_pending_streams-Books, run_stream_timeout-Books, run_open_stream-Books,
  run_send-Books, run_close_send-Books,
}
use u_rpc.Channel.Ledger.Session.{
  with_stream_of-Books, stream_headers-Books, stream_data-Books, close_stream-Books,
}
use u_rpc.Channel.Ledger.Calls.{fail_pending-Books, start_pending-Books, run_start_call-Books}
use u_rpc.Channel.Ledger.Aborts.{
  run_call_timeout-Books, run_cancel-Books, with_call_of-Books, call_headers-Books, call_data-Books,
  close_call-Books,
}

-- A task that starts no call.
idle-Books :
    (E : ℕ → Bool) (t : Task Deferred) (ts : List (Task Deferred)) (held : List Call) (c : Channel)
    → ((k : ℕ) → starts k t ≡ 0)
    → Books E (t ∷ ts) held c
    → Books E ts held c
idle-Books E t ts held c z (sums, ahead, sorted, keyed, waiting, timers, free) =
    ((λ k. omega (arith, z k, sums k)), ahead, sorted, keyed, waiting, timers, free)

module _ (E : ℕ → Bool) where
  abbrev Kept : Channel → Type 0
  Kept = Books E [] []

  pub on_headers-Books : (sid : ℕ) (hs : _) (c : Channel) → Kept c → Kept (on_headers sid hs c)
  unfolding on_headers
  on_headers-Books sid hs c h =
      option-keeps Kept (find sid c.stream_by_sid) _ _
        (with_call_of-Books E [] [] (find sid c.by_stream) c _ h
          (λ id call e. call_headers-Books E [] [] id call hs c e h))
        (λ id _.
          with_stream_of-Books E [] [] id c _ h (λ s. stream_headers-Books E [] [] id s hs c h))

  pub on_data-Books : (sid : ℕ) (bytes : Str) (c : Channel) → Kept c → Kept (on_data sid bytes c)
  unfolding on_data
  on_data-Books sid bytes c h =
      option-keeps Kept (find sid c.stream_by_sid) _ _
        (with_call_of-Books E [] [] (find sid c.by_stream) c _ h
          (λ id call e. call_data-Books E [] [] id call bytes c e h))
        (λ id _.
          with_stream_of-Books E [] [] id c _ h (λ s. stream_data-Books E [] [] id s bytes c h))

  pub on_stream_close-Books : (sid : ℕ) (c : Channel) → Kept c → Kept (on_stream_close sid c)
  unfolding on_stream_close
  on_stream_close-Books sid c h =
      let c' = close_stream (find sid c.stream_by_sid) sid c in
      close_call-Books E [] [] (find sid c'.by_stream) sid c'
        (close_stream-Books E [] [] (find sid c.stream_by_sid) sid c h)

  pub on_connect-Books : (st : Status) (c : Channel) → Kept c → Kept (on_connect st c)
  unfolding on_connect
  on_connect-Books st c h =
      if-keeps Kept (is_ok st) _ _
        (λ _.
          start_pending_streams-Books E [] []
            (start_pending (record c { has_socket = true; has_session = true; state = ready }))
            (start_pending-Books E []
              (record c { has_socket = true; has_session = true; state = ready }) h))
        (λ _. fail_pending-Books E [] st (record c { state = broken }) h)

  -- A task leaves the list that the loop took.
  run_deferred-Books :
      (t : Deferred) (ts : List (Task Deferred)) (c : Channel)
      → Books E (posted t ∷ ts) [] c
      → Books E ts [] (run_deferred t c)
  unfolding run_deferred
  run_deferred-Books (start_call id path framed timeout_ms cb d) ts c h =
      run_start_call-Books E ts id path framed timeout_ms cb d c h
  run_deferred-Books (cancel_call id) ts c h =
      run_cancel-Books E ts [] id c (idle-Books E (posted (cancel_call id)) ts [] c (λ k. refl) h)
  run_deferred-Books (open_stream id path events timeout_ms) ts c h =
      run_open_stream-Books E ts [] id path events timeout_ms c
        (idle-Books E (posted (open_stream id path events timeout_ms)) ts [] c (λ k. refl) h)
  run_deferred-Books (send_on_stream id framed cb close) ts c h =
      run_send-Books E ts [] id _ c
        (idle-Books E (posted (send_on_stream id framed cb close)) ts [] c (λ k. refl) h)
  run_deferred-Books (close_stream_send id) ts c h =
      run_close_send-Books E ts [] id c
        (idle-Books E (posted (close_stream_send id)) ts [] c (λ k. refl) h)
  run_deferred-Books (pump_stream id) ts c h =
      run_pump-Books E ts [] id c (idle-Books E (posted (pump_stream id)) ts [] c (λ k. refl) h)
  run_deferred-Books (call_timeout id) ts c h =
      run_call_timeout-Books E ts [] id c
        (idle-Books E (posted (call_timeout id)) ts [] c (λ k. refl) h)
  run_deferred-Books (stream_timeout id) ts c h =
      run_stream_timeout-Books E ts [] id c
        (idle-Books E (posted (stream_timeout id)) ts [] c (λ k. refl) h)

  run_tasks-Books :
      (ts : List (Task Deferred)) (c : Channel) → Books E ts [] c → Kept (run_tasks ts c)
  unfolding run_tasks run_task close_all
  run_tasks-Books [] c h = h
  run_tasks-Books (posted t ∷ ts) c h = run_tasks-Books ts _ (run_deferred-Books t ts c h)
  run_tasks-Books (close_all_handles ∷ ts) c h =
      run_tasks-Books ts (record c { loop = close_all c.loop })
        (loop-Books E ts [] (close_all c.loop) c
          ((λ k. refl), λ q id t e. absurd (ground (arith, e, find-empty {V = Deferred} id)))
          (idle-Books E close_all_handles ts [] c (λ k. refl) h))

  run_fired-Books :
      (o : Option Deferred) (c : Channel)
      → ((t : Deferred) → o ≡ some t → (k : ℕ) → starts k (posted t) ≡ 0)
      → Kept c
      → Kept (run_fired o c)
  run_fired-Books none c z h = h
  run_fired-Books (some t) c z (sums, ahead, sorted, keyed, waiting, timers, free) =
      run_deferred-Books t [] c
        ((λ k. omega (arith, z t refl k, sums k)), ahead, sorted, keyed, waiting, timers, free)

  pub timer_fired-Books : (id : ℕ) (c : Channel) → Kept c → Kept (step (timer_fired id) c)
  unfolding step fire_timer cancel_timer
  timer_fired-Books id c (sums, ahead, sorted, keyed, waiting, timers, free) =
      run_fired-Books (find id c.loop.timers) (record c { loop = cancel_timer id c.loop })
        (λ t e. timers id t e)
        (
          sums,
          ahead,
          sorted,
          keyed,
          waiting,
          (λ j t e. timers j t (ground (arith, e, find-erase j id c.loop.timers))),
          free,
        )

  pub loop_woken-Books : (c : Channel) → Kept c → Kept (step loop_woken c)
  unfolding step drain_pending
  loop_woken-Books c (sums, ahead, sorted, keyed, waiting, timers, free) =
      run_tasks-Books c.loop.pending (record c { loop = (drain_pending c.loop).1 })
        ((λ k. omega (arith, sums k)), ahead, sorted, keyed, waiting, timers, free)

  pub post_task-Books :
      (t : Deferred) (c : Channel)
      → ((k : ℕ) → starts k (posted t) ≡ 0)
      → Kept c
      → Kept (record c { loop = post (some t) c.loop })
  post_task-Books t c z h = loop-Books E [] [] (post (some t) c.loop) c (post-keeps t c.loop z) h
