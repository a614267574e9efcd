-- ===== src/Channel/Loss.antt =====
-- Unary calls and OnConnectionLost of urpc/core/source/urpc_channel.cc.
use u_rpc.Prelude.{ℕ, ◌+◌, ◌≡◌, refl, ap, false, Option, List, [], ◌∷◌, arith, to_ℕ, if-keeps}
use u_rpc.Prelude.Str.{Str}
use u_rpc.Prelude.Map.{Map, find, erase}
use u_rpc.Status.{Status}
use u_rpc.Channel.State.{
  broken, Call, PendingCall, OutMsg, Stream, PendingStream, flushed, fire, Channel,
}
use u_rpc.Channel.Calls.{complete_call, fail_calls, fail_pending}
use u_rpc.Channel.Streams.{flush_all, fail_stream}
use u_rpc.Channel.Session.{
  fail_streams, fail_parked, fail_open, lost, lose, is_broken, on_connection_lost,
}
use u_rpc.Channel.Api.{Event, call, run}
use u_rpc.Channel.Ledger.{answered, open_in, waits_in, starts_in}
use u_rpc.Channel.Ledger.Aborts.{on_connection_lost-Books}
use u_rpc.Channel.Ledger.History.{SparesAll}
use u_rpc.Channel.Answers.{IsFresh, called-Books}

-- No unary call waits or stands open.
abbrev HasNoCalls : Channel → Type 0
HasNoCalls c = c.calls ≡ []

abbrev HasNothing : Channel → Type 0
HasNothing c = (c.calls ≡ []) × (c.pending ≡ [])

flush_all-HasNoCalls :
    (q : List OutMsg) (st : Status) (c : Channel) → HasNoCalls c → HasNoCalls (flush_all q st c)
unfolding flush_all
flush_all-HasNoCalls [] st c h = h
flush_all-HasNoCalls (m ∷ ms) st c h = flush_all-HasNoCalls ms st (fire (flushed m.cb st) c) h

fail_streams-HasNoCalls :
    (m : Map Stream) (c : Channel) → HasNoCalls c → HasNoCalls (fail_streams m c)
unfolding fail_streams fail_stream
fail_streams-HasNoCalls [] c h = h
fail_streams-HasNoCalls ((id, s) ∷ m) c h =
    fail_streams-HasNoCalls m _ (
      if-keeps HasNoCalls s.completed c _ (λ _. h) (λ _. flush_all-HasNoCalls s.out_queue lost c h))

fail_parked-HasNoCalls :
    (pss : List PendingStream) (c : Channel) → HasNoCalls c → HasNoCalls (fail_parked pss c)
unfolding fail_parked fail_stream
fail_parked-HasNoCalls [] c h = h
fail_parked-HasNoCalls (ps ∷ pss) c h =
    fail_parked-HasNoCalls pss _ (flush_all-HasNoCalls [] lost c h)

fail_open-HasNoCalls : (m : Map Call) (c : Channel) → HasNoCalls c → HasNoCalls (fail_open m c)
unfolding fail_open
fail_open-HasNoCalls [] c h = h
fail_open-HasNoCalls ((id, one) ∷ m) c h =
    fail_open-HasNoCalls m _ (if-keeps HasNoCalls one.completed c _ (λ _. h) (λ _. h))

fail_calls-HasNothing :
    (pcs : List PendingCall) (st : Status) (c : Channel)
    → HasNothing c
    → HasNothing (fail_calls pcs st c)
unfolding fail_calls complete_call erase
fail_calls-HasNothing [] st c h = h
fail_calls-HasNothing (pc ∷ pcs) st c (p, q) =
    fail_calls-HasNothing pcs st _
      (if-keeps HasNothing pc.call.completed c _ (λ _. (p, q)) (λ _. (ap (erase pc.call.id) p, q)))

lose-HasNothing : (c : Channel) → HasNothing (lose c)
unfolding lose fail_pending
lose-HasNothing c =
    let bare = record c {
      state = broken;
      has_socket = false;
      has_session = false;
      calls = [];
      by_stream = [];
      streams = [];
      stream_by_sid = [];
      pending_streams = [];
    } in
    let s = fail_streams c.streams bare in
    let p = fail_parked c.pending_streams s in
    let o = fail_open c.calls p in
    let h =
      fail_open-HasNoCalls c.calls p (
        fail_parked-HasNoCalls c.pending_streams s (fail_streams-HasNoCalls c.streams bare refl)) in
    fail_calls-HasNothing o.pending lost (record o { pending = [] }) (h, refl)

lost_first : (c : Channel) → is_broken c.state ≡ false → HasNothing (on_connection_lost c)
unfolding on_connection_lost
lost_first c e =
    if-keeps HasNothing (is_broken c.state) c _ (λ w. absurd (ground (arith, e, w)))
      (λ _. lose-HasNothing c)

-- When the connection is lost, each call that Channel::Call has issued is answered exactly once, then
-- or before, or its task has still to run: from any fresh channel, after any histories before and
-- after the call that leave the channel unbroken, and in which the loop is not stopped while the task of
-- the call is still posted.
pub loss_answers :
    (before after : List Event) (path framed : Str) (timeout_ms : ℕ) (cb : Option ℕ) (c : Channel)
    → IsFresh c
    → SparesAll (run before c).next_call_id after (call path framed timeout_ms cb (run before c)).1
    → is_broken (run after (call path framed timeout_ms cb (run before c)).1).state ≡ false
    → let (id, c2) = call path framed timeout_ms cb (run before c) in
      let c4 = on_connection_lost (run after c2) in
      answered id c4.fired + starts_in id c4.loop.pending ≡ 1
loss_answers before after path framed timeout_ms cb c fresh spares up =
    let (id, c2) = call path framed timeout_ms cb (run before c) in
    let (E, mine, h) = called-Books before after path framed timeout_ms cb c fresh spares in
    let c4 = on_connection_lost (run after c2) in
    let (sums, rest, r2, r3, r4, r5, r6) = on_connection_lost-Books E [] (run after c2) h in
    let (no_calls, no_pending) = lost_first (run after c2) up in
    unfold find in
    omega (arith, sums id, ap to_ℕ mine, ap (open_in id) no_calls, ap (waits_in id) no_pending)
