-- ===== src/Channel/Ledger/Aborts.antt =====
-- How an open call ends: by a timeout, by Cancel, by what the session reports, and by the loss of the
-- connection (urpc/core/source/urpc_channel.cc).
use u_rpc.Prelude.{
  ℕ, ◌≡◌, refl, ap, Bool, not, ◌&&◌, ◌||◌, Option, none, some, List, [], ◌∷◌, arith, ◌==◌, is_empty,
  if-keeps, option-keeps,
}
use u_rpc.Prelude.Str.{Str, codes}
use u_rpc.Prelude.Map.{Map, find, insert, erase, find-insert, find-insert_self, find-erase}
use u_rpc.Prelude.Map.Sorted.{insert-IsSorted, erase-IsSorted, All-insert, All-erase, All-find}
use u_rpc.Status.{Status, is_ok, status, deadline_exceeded, unavailable}
use u_rpc.Codec.{FrameDecoder, consume}
use u_rpc.Loop.{Task}
use u_rpc.Wire.{Headers, field, reset}
use u_rpc.Channel.State.{Call, done, Deferred, Channel, stopped, fire, send}
use u_rpc.Channel.Calls.{reset_call, abort_call, run_call_timeout, run_cancel}
use u_rpc.Channel.Session.{
  terminal_status, is_200, bad_http, payload_of, call_headers, with_call_of, call_data, close_call,
  erase_call_iterator, stream_closed, fail_open, lost, lose, is_broken, on_connection_lost,
}
use u_rpc.Channel.Ledger.{
  Books, OpensAs, starts_in, stopped_pending, stopped-keeps, loop-Books, complete_open-Books,
}
use u_rpc.Channel.Ledger.Session.{fail_streams-Books, fail_parked-Books}
use u_rpc.Channel.Ledger.Calls.{values, values-IsOpen, held_in-values, fail_pending-Books}

module _ (E : ℕ → Bool) (ts : List (Task Deferred)) (held : List Call) where
  abbrev Kept : Channel → Type 0
  Kept = Books E ts held

  leave-Books :
      (id : ℕ) (call : Call) (st : Status) (c : Channel)
      → find id c.calls ≡ some call
      → Kept c
      → Kept (fire (done call.id call.done st []) (record c { calls = erase call.id c.calls }))
  leave-Books id call st c e (sums, ahead, sorted, keyed, waiting, timers, opens) =
      let (same, o) = All-find OpensAs id call c.calls e keyed in
      (
        (λ k. ground (arith, sums k, same, e, find-erase k call.id c.calls)),
        ahead,
        erase-IsSorted call.id c.calls sorted,
        All-erase OpensAs call.id c.calls keyed,
        waiting,
        timers,
        opens,
      )

  abort_call-Books :
      (id : ℕ) (call : Call) (st : Status) (c : Channel)
      → find id c.calls ≡ some call
      → Kept c
      → Kept (abort_call call st c)
  unfolding abort_call reset_call
  abort_call-Books id call st c e h =
      if-keeps
        (λ c'.
          Kept (fire (done call.id call.done st []) (record c' { calls = erase call.id c'.calls })))
        (not (call.sid == 0) && c.has_session)
        (send (reset call.sid 0x8) (record c { by_stream = erase call.sid c.by_stream })) c
        (λ _. leave-Books id call st c e h) (λ _. leave-Books id call st c e h)

  pub run_call_timeout-Books : (id : ℕ) (c : Channel) → Kept c → Kept (run_call_timeout id c)
  unfolding run_call_timeout
  run_call_timeout-Books id c h = option-keeps Kept (find id c.calls) c _ h λ call e.
      if-keeps Kept call.completed c _ (λ _. h)
        (λ _. abort_call-Books id call (status deadline_exceeded (codes "deadline exceeded")) c e h)

  pub run_cancel-Books : (id : ℕ) (c : Channel) → Kept c → Kept (run_cancel id c)
  unfolding run_cancel
  run_cancel-Books id c h = option-keeps Kept (find id c.calls) c _ h λ call e.
      if-keeps Kept call.completed c _ (λ _. h)
        λ _. abort_call-Books id call (status unavailable (codes "cancelled")) _ e (
          loop-Books E ts held (stopped call.timeout_timer c.loop) c
            (stopped-keeps call.timeout_timer c.loop) h)

  pub with_call_of-Books :
      (o : Option ℕ) (c : Channel) (f : Call → Channel)
      → Kept c
      → ((id : ℕ) (call : Call) → find id c.calls ≡ some call → Kept (f call))
      → Kept (with_call_of o c f)
  with_call_of-Books none c f h k = h
  with_call_of-Books (some id) c f h k =
      option-keeps Kept (find id c.calls) c f h λ call e. k id call e

  pub call_headers-Books :
      (id : ℕ) (call : Call) (hs : Headers) (c : Channel)
      → find id c.calls ≡ some call
      → Kept c
      → Kept (call_headers call hs c)
  unfolding call_headers
  call_headers-Books id call hs c e h =
      option-keeps Kept (terminal_status hs) _ _
        (if-keeps Kept (is_200 (field (codes ":status") hs)) c _ (λ _. h)
          (λ _. complete_open-Books E ts held id call bad_http [] c e h))
        (λ st _. complete_open-Books E ts held id call st (payload_of call.decoder) c e h)

  replace-Books :
      (id : ℕ) (call : Call) (d : FrameDecoder) (c : Channel)
      → find id c.calls ≡ some call
      → Kept c
      → Kept (record c { calls = insert call.id (record call { decoder = d }) c.calls })
  replace-Books id call d c e (sums, ahead, sorted, keyed, waiting, timers, opens) =
      let (same, o) = All-find OpensAs id call c.calls e keyed in
      (
        (λ k.
            ground (
              arith,
              sums k,
              same,
              e,
              find-insert k call.id (record call { decoder = d }) c.calls,
            )),
        ahead,
        insert-IsSorted call.id (record call { decoder = d }) c.calls sorted,
        All-insert OpensAs call.id (record call { decoder = d }) c.calls (refl, o) keyed,
        waiting,
        timers,
        opens,
      )

  pub call_data-Books :
      (id : ℕ) (call : Call) (bytes : Str) (c : Channel)
      → find id c.calls ≡ some call
      → Kept c
      → Kept (call_data call bytes c)
  unfolding call_data
  call_data-Books id call bytes c e h =
      if-keeps Kept (call.completed || is_empty bytes) c _ (λ _. h)
        λ _.
          let (st, d) = consume call.decoder bytes in
          let call' = record call { decoder = d } in
          let h' = replace-Books id call d c e h in
          if-keeps Kept (is_ok st) _ _ (λ _. h')
            λ _.
              complete_open-Books E ts held call.id call' st [] _
                (find-insert_self call.id call' c.calls) h'

  pub close_call-Books : (o : Option ℕ) (sid : ℕ) (c : Channel) → Kept c → Kept (close_call o sid c)
  unfolding close_call
  close_call-Books none sid c h = h
  close_call-Books (some id) sid c h =
      unfold erase_call_iterator in
      with_call_of-Books (some id) c _ h
        λ id' call e. complete_open-Books E ts held id' call stream_closed [] c e h

module _ (E : ℕ → Bool) (ts : List (Task Deferred)) where
  fail_open-Books :
      (m : Map Call) (c : Channel) → Books E ts (values m) c → Books E ts [] (fail_open m c)
  unfolding fail_open
  fail_open-Books [] c h = h
  fail_open-Books ((id, call) ∷ m) c (sums, ahead, sorted, keyed, waiting, timers, (o, opens)) =
      fail_open-Books m _ (
        if-keeps (Books E ts (values m)) call.completed c _ (λ w. absurd (ground arith))
          λ _. (
            (λ k.
                ground
                  (arith, sums k, ap (starts_in k) (stopped_pending call.timeout_timer c.loop))),
            ahead,
            sorted,
            keyed,
            waiting,
            (stopped-keeps call.timeout_timer c.loop).1 timers,
            opens,
          ))

  -- The calls that stood open are taken in hand.
  take_calls-Books :
      (c : Channel) → Books E ts [] c → Books E ts (values c.calls) (record c { calls = [] })
  unfolding find
  take_calls-Books c (sums, ahead, sorted, keyed, waiting, timers, opens) = (
    (λ k. omega (arith, sums k, held_in-values k c.calls sorted keyed)),
    ahead,
    tt,
    tt,
    waiting,
    timers,
    values-IsOpen c.calls keyed,
  )

  pub on_connection_lost-Books :
      (c : Channel) → Books E ts [] c → Books E ts [] (on_connection_lost c)
  unfolding on_connection_lost lose
  on_connection_lost-Books c h =
      if-keeps (Books E ts []) (is_broken c.state) c _ (λ _. h)
        λ _. fail_pending-Books E ts lost _ (
          fail_open-Books c.calls _ (
            fail_parked-Books E ts (values c.calls) c.pending_streams _
              (fail_streams-Books E ts (values c.calls) c.streams _ (take_calls-Books c h))))
