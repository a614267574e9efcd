-- ===== src/Channel/Faults.antt =====
-- Where a channel leaves work behind: a connection that cannot be made, and a stream that closes
-- before its status came (urpc/core/source/urpc_channel.cc).
use u_rpc.Prelude.{
  ℕ, ◌≡◌, refl, ap, sym, ◌∙◌, true, false, none, some, List, [], ◌∷◌, arith, ◌==◌, if◌then◌else◌,
  if-keeps,
}
use u_rpc.Prelude.Map.{find, find-erase}
use u_rpc.Status.{Status, is_ok}
use u_rpc.Channel.State.{broken, Call, PendingCall, Channel}
use u_rpc.Channel.Calls.{complete_call, fail_calls, fail_pending}
use u_rpc.Channel.Session.{
  on_connect, on_connection_lost, is_broken, lose, on_stream_close, close_call, close_stream,
  erase_call_iterator, stream_closed,
}

-- What failing the waiting calls leaves alone.
abbrev Leaves : Channel → Channel → Type 0
Leaves c c' = (c'.pending_streams ≡ c.pending_streams) × (c'.state ≡ c.state)

fail_calls-Leaves :
    (pcs : List PendingCall) (st : Status) (c : Channel) → Leaves c (fail_calls pcs st c)
unfolding fail_calls complete_call
fail_calls-Leaves [] st c = (refl, refl)
fail_calls-Leaves (pc ∷ pcs) st c =
    let (p, s) = fail_calls-Leaves pcs st (complete_call pc.call st [] c) in
    let (p', s') =
      if-keeps (Leaves c) pc.call.completed c _ (λ _. (refl, refl)) (λ _. (refl, refl)) in
    (p ∙ p', s ∙ s')

lost_again : (c : Channel) → c.state ≡ broken → on_connection_lost c ≡ c
unfolding on_connection_lost is_broken
lost_again c h = ap (λ s. if is_broken s then c else lose c) h

-- A connection attempt that fails leaves every stream that waits for it waiting, with no callback,
-- for good: the channel is broken, and the loss of a connection, which would fail them, is then
-- ignored.
pub connect_failure_strands :
    (st : Status) (c : Channel)
    → is_ok st ≡ false
    → ((on_connect st c).pending_streams ≡ c.pending_streams)
      × ((on_connect st c).state ≡ broken)
      × (on_connection_lost (on_connect st c) ≡ on_connect st c)
unfolding on_connect fail_pending
connect_failure_strands st c e =
    let failed = fail_calls c.pending st (record c { state = broken; pending = [] }) in
    let (p, s) = fail_calls-Leaves c.pending st (record c { state = broken; pending = [] }) in
    let q : on_connect st c ≡ failed = ground arith in
    (
      ap (λ x. x.pending_streams) q ∙ p,
      ap (λ x. x.state) q ∙ s,
      ap on_connection_lost q ∙ (lost_again failed s ∙ sym q),
    )

-- A call whose stream closes before its status came is completed, which erases its entry of
-- `by_stream`; OnStreamClose then erases through the iterator that it took before.
pub close_erases_twice :
    (sid id : ℕ) (call : Call) (c : Channel)
    → find sid c.stream_by_sid ≡ none
    → find sid c.by_stream ≡ some id
    → find id c.calls ≡ some call
    → call.completed ≡ false
    → call.sid ≡ sid
    → (sid == 0) ≡ false
    → (on_stream_close sid c).faulted ≡ true
unfolding on_stream_close close_stream close_call erase_call_iterator
close_erases_twice sid id call c no_stream e f o s z =
    ap (λ o. let c' = close_stream o sid c in (close_call (find sid c'.by_stream) sid c').faulted)
      no_stream
    ∙ (ap (λ o. (close_call o sid c).faulted) e
        ∙ (ap
              (λ o.
                (erase_call_iterator sid (elim o [
                  | none ↦ c
                  | some call ↦ complete_call call stream_closed [] c
                ])).faulted)
              f
            ∙ twice))
  where
    twice : (erase_call_iterator sid (complete_call call stream_closed [] c)).faulted ≡ true
    twice =
        unfold complete_call in
        ground (arith, find-erase sid sid c.by_stream, find-erase call.sid sid c.by_stream)
