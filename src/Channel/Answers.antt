-- ===== src/Channel/Answers.antt =====
-- Where the calls that Channel::Call issues end up (urpc/core/source/urpc_channel.cc).
use u_rpc.Prelude.{
  ℕ, ◌+◌, ◌≡◌, refl, ap, sym, Bool, true, false, Option, List, [], arith, to_ℕ, All,
}
use mathlib.Core.Path.{subst}
use u_rpc.Prelude.Map.Sorted.{IsSorted}
use u_rpc.Prelude.Str.{Str}
use u_rpc.Prelude.Map.{find, find-empty}
use u_rpc.Channel.State.{Deferred, Channel}
use u_rpc.Channel.Api.{Event, call, run}
use u_rpc.Channel.Ledger.{Books, OpensAs, WaitsOpen, answered, open_in, waits_in, starts_in}
use u_rpc.Channel.Ledger.History.{
  SparesAll, issue, issued_all, issued_all_grows, call-Books, run-Books,
}

-- A channel that nobody has called.
abbrev pub IsFresh : Channel → Type 0
IsFresh c =
    (c.calls ≡ [])
    × (c.pending ≡ [])
    × (c.fired ≡ [])
    × (c.loop.pending ≡ [])
    × (c.loop.timers ≡ [])

start-Books : (c : Channel) → IsFresh c → Books (λ k. false) [] [] c
start-Books c (no_calls, no_pending, no_fired, no_tasks, no_timers) = (
  (λ k.
      unfold find in
      omega (
        arith,
        ap (answered k) no_fired,
        ap (open_in k) no_calls,
        ap (waits_in k) no_pending,
        ap (starts_in k) no_tasks,
      )),
  (λ k l. refl),
  subst IsSorted (sym no_calls) tt,
  subst (All OpensAs) (sym no_calls) tt,
  subst (All WaitsOpen) (sym no_pending) tt,
  (λ id t e k. absurd (ground (arith, e, no_timers, find-empty {V = Deferred} id))),
  tt,
)

-- The books after a history, a call and another history: the call was issued.
pub called-Books :
    (before after : List Event) (path framed : Str) (timeout_ms : ℕ) (cb : Option ℕ) (c : Channel)
    → IsFresh c
    → SparesAll (run before c).next_call_id after (call path framed timeout_ms cb (run before c)).1
    → let c1 = run before c in
      let (id, c2) = call path framed timeout_ms cb c1 in
      (E : ℕ → Bool) × (E id ≡ true) × Books E [] [] (run after c2)
unfolding call
called-Books before after path framed timeout_ms cb c fresh spares =
    let c1 = run before c in
    let E1 = issued_all before c (λ k. false) in
    let id = c1.next_call_id in
    let (id', c2) = call path framed timeout_ms cb c1 in
    let E2 = issue id E1 in
    let h1 = run-Books (λ k. false) before c (start-Books c fresh) in
    let h2 = call-Books E1 path framed timeout_ms cb c1 h1 in
    (
      issued_all after c2 E2,
      issued_all_grows E2 id after c2 spares (ground arith),
      run-Books E2 after c2 h2,
    )

-- From any fresh channel, after any history: the id that Channel::Call returns is, ever after, in
-- exactly one place. Either its task is still posted, or it waits for the connection, or it stands
-- among the open calls, or its `done` has been called; it is not lost, and `done` never runs twice;
-- where the loop is not stopped while the task of the call is still posted, which drops it.
pub call_in_one_place :
    (before after : List Event) (path framed : Str) (timeout_ms : ℕ) (cb : Option ℕ) (c : Channel)
    → IsFresh c
    → SparesAll (run before c).next_call_id after (call path framed timeout_ms cb (run before c)).1
    → let c1 = run before c in
      let (id, c2) = call path framed timeout_ms cb c1 in
      let c3 = run after c2 in
      answered id c3.fired
        + open_in id c3.calls
        + waits_in id c3.pending
        + starts_in id c3.loop.pending
      ≡ 1
call_in_one_place before after path framed timeout_ms cb c fresh spares =
    let (E, mine, h) = called-Books before after path framed timeout_ms cb c fresh spares in
    let (id, c2) = call path framed timeout_ms cb (run before c) in
    omega (arith, h.0 id, ap to_ℕ mine)
