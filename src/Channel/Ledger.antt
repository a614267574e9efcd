-- ===== src/Channel/Ledger.antt =====
-- Where a unary call of a channel stands (urpc/core/source/urpc_channel.cc): posted to the loop,
-- waiting for the connection, open on it, or answered.
pub mod Streams
pub mod Session
pub mod Calls
pub mod Aborts
pub mod Events
pub mod History
use u_rpc.Prelude.{
  ℕ, zero, suc, ◌+◌, ◌≤◌, ◌<◌, ◌≡◌, refl, ap, sym, ◌∙◌, Bool, true, false, not, Option, none, some,
  List, [], ◌∷◌, ◌++◌, map, arith, if◌then◌else◌, ◌==◌, ltb, to_ℕ, All, ◌&&◌, if-keeps, Bool-cases,
  inl, inr,
}
use mathlib.Core.Path.{subst}
use u_rpc.Prelude.Str.{Str}
use u_rpc.Prelude.Map.{Map, find, insert, erase, find-insert, find-erase}
use u_rpc.Prelude.Map.Sorted.{
  IsSorted, insert-IsSorted, erase-IsSorted, All-insert, All-erase, All-find,
}
use u_rpc.Status.{Status}
use u_rpc.Loop.{Loop, Task, posted, close_all_handles, post, set_timer, cancel_timer}
use u_rpc.Channel.State.{
  Call, PendingCall, Fired, done, message, complete, flushed, Deferred, start_call, cancel_call,
  open_stream, send_on_stream, close_stream_send, pump_stream, call_timeout, stream_timeout,
  Channel, stopped, fire,
}
use u_rpc.Channel.Calls.{complete_call}

-- How often `done` of the call was called.
abbrev pub answered : ℕ → List Fired → ℕ
answered k [] = 0
answered k (done id cb st payload ∷ fs) = if id == k then suc (answered k fs) else answered k fs
answered k (message id cb st m ∷ fs) = answered k fs
answered k (complete id cb st ∷ fs) = answered k fs
answered k (flushed cb st ∷ fs) = answered k fs

-- How many calls of a list it is.
abbrev pub held_in : ℕ → List Call → ℕ
held_in k [] = 0
held_in k (call ∷ calls) = if call.id == k then suc (held_in k calls) else held_in k calls

abbrev pub waits_in : ℕ → List PendingCall → ℕ
waits_in k [] = 0
waits_in k (pc ∷ pcs) = if pc.call.id == k then suc (waits_in k pcs) else waits_in k pcs

abbrev pub starts : ℕ → Task Deferred → ℕ
starts k (posted (start_call id path framed timeout_ms cb d)) = to_ℕ (id == k)
starts k _ = 0

abbrev pub starts_in : ℕ → List (Task Deferred) → ℕ
starts_in k [] = 0
starts_in k (t ∷ ts) = starts k t + starts_in k ts

abbrev count : Option Call → ℕ
count none = 0
count (some call) = 1

abbrev pub open_in : ℕ → Map Call → ℕ
open_in k calls = count (find k calls)

abbrev pub IsOpen : Call → Type 0
IsOpen call = call.completed ≡ false

abbrev pub OpensAs : ℕ × Call → Type 0
OpensAs (id, call) = (call.id ≡ id) × (call.completed ≡ false)

abbrev pub WaitsOpen : PendingCall → Type 0
WaitsOpen pc = pc.call.completed ≡ false

abbrev pub place : ℕ → Channel → ℕ
place k c =
    answered k c.fired + open_in k c.calls + waits_in k c.pending + starts_in k c.loop.pending

-- No timer starts a call.
abbrev pub QuietTimers : Loop Deferred → Type 0
QuietTimers l =
    (id : ℕ) (t : Deferred) → find id l.timers ≡ some t → (k : ℕ) → starts k (posted t) ≡ 0

-- A change of the loop that starts no call.
abbrev pub StartsAlike : Loop Deferred → Loop Deferred → Type 0
StartsAlike l l' =
    ((k : ℕ) → starts_in k l'.pending ≡ starts_in k l.pending) × (QuietTimers l → QuietTimers l')

-- Ids that were not handed out yet belong to no call.
abbrev pub Ahead : (ℕ → Bool) → Channel → Type 0
Ahead E c = (k : ℕ) → c.next_call_id ≤ k → E k ≡ false

-- The books: a call stands in one place if it was issued (`E`), and in none if it was not. While a
-- loop is at work, `ts` are the tasks that the loop took and has not run, `held` the calls that stand
-- nowhere else.
abbrev pub Books : (ℕ → Bool) → List (Task Deferred) → List Call → Channel → Type 0
Books E ts held c =
    ((k : ℕ) → place k c + starts_in k ts + held_in k held ≡ to_ℕ (E k))
    × Ahead E c
    × IsSorted c.calls
    × All OpensAs c.calls
    × All WaitsOpen c.pending
    × QuietTimers c.loop
    × All IsOpen held

pub starts-append :
    (k : ℕ) (ts us : List (Task Deferred))
    → starts_in k (ts ++ us) ≡ starts_in k ts + starts_in k us
starts-append k [] us = omega arith
starts-append k (t ∷ ts) us = omega (arith, starts-append k ts us)

pub waits-append :
    (k : ℕ) (ps qs : List PendingCall) → waits_in k (ps ++ qs) ≡ waits_in k ps + waits_in k qs
waits-append k [] qs = omega arith
waits-append k (p ∷ ps) qs = ground (arith, waits-append k ps qs)

pub stopped_pending : (id : ℕ) (l : Loop Deferred) → (stopped id l).pending ≡ l.pending
unfolding cancel_timer
stopped_pending id l = ground arith

pub stopped-keeps : (id : ℕ) (l : Loop Deferred) → StartsAlike l (stopped id l)
unfolding cancel_timer
stopped-keeps id l =
    if-keeps (StartsAlike l) (id == 0) l _ (λ _. ((λ k. refl), λ q. q))
      λ _. ((λ k. refl), λ q j t e. q j t (ground (arith, e, find-erase j id l.timers)))

pub post-keeps :
    (t : Deferred) (l : Loop Deferred)
    → ((k : ℕ) → starts k (posted t) ≡ 0)
    → StartsAlike l (post (some t) l)
unfolding post
post-keeps t l z = ((λ k. omega (arith, starts-append k l.pending (posted t ∷ []), z k)), λ q. q)

-- A timer that is set under a condition.
pub timed-keeps :
    (on init_ok : Bool) (t : Deferred) (l : Loop Deferred)
    → ((k : ℕ) → starts k (posted t) ≡ 0)
    → StartsAlike l (if on then set_timer init_ok t l else (0, l)).1
unfolding set_timer
timed-keeps on init_ok t l z =
    if-keeps Alike on (set_timer init_ok t l) (0, l)
      (λ _.
        if-keeps Alike l.running _ (0, l)
          (λ _. if-keeps Alike init_ok _ _ (λ _. ((λ k. refl), added)) (λ _. same)) (λ _. same))
      (λ _. same)
  where
    Alike : ℕ × Loop Deferred → Type 0
    Alike r = StartsAlike l r.1

    same : StartsAlike l l
    same = ((λ k. refl), λ q. q)

    added :
        QuietTimers l
        → (id : ℕ) (u : Deferred) → find id (insert l.next_timer_id t l.timers) ≡ some u
        → (k : ℕ) → starts k (posted u) ≡ 0
    added q id u e k = elim (Bool-cases (l.next_timer_id == id)) [
      | inl s ↦
          let same : t ≡ u = ground (arith, e, s, find-insert id l.next_timer_id t l.timers) in
          subst (λ v. starts k (posted v) ≡ 0) same (z k)
      | inr s ↦ q id u (ground (arith, e, s, find-insert id l.next_timer_id t l.timers)) k
    ]

module _ (E : ℕ → Bool) (ts : List (Task Deferred)) where
  -- Another loop with the same calls to start.
  pub loop-Books :
      (held : List Call) (l : Loop Deferred) (c : Channel)
      → StartsAlike c.loop l
      → Books E ts held c
      → Books E ts held (record c { loop = l })
  loop-Books held l c e (sums, ahead, sorted, keyed, waiting, timers, opens) =
      ((λ k. omega (arith, e.0 k, sums k)), ahead, sorted, keyed, waiting, e.1 timers, opens)

  -- A call that is held in hand is completed.
  pub complete_held-Books :
      (held : List Call) (call : Call) (st : Status) (payload : Str) (c : Channel)
      → Books E ts (call ∷ held) c
      → Books E ts held (complete_call call st payload c)
  unfolding complete_call
  complete_held-Books held call st payload c
        (sums, ahead, sorted, keyed, waiting, timers, (o, opens)) =
      if-keeps (Books E ts held) call.completed c _ (λ w. absurd (ground arith))
        λ _. (
          (λ k. ground (
            arith,
            sums k,
            find-erase k call.id c.calls,
            ap (starts_in k) (stopped_pending call.timeout_timer c.loop),
          )),
          ahead,
          erase-IsSorted call.id c.calls sorted,
          All-erase OpensAs call.id c.calls keyed,
          waiting,
          (stopped-keeps call.timeout_timer c.loop).1 timers,
          opens,
        )

  -- An open call is completed.
  pub complete_open-Books :
      (held : List Call) (id : ℕ) (call : Call) (st : Status) (payload : Str) (c : Channel)
      → find id c.calls ≡ some call
      → Books E ts held c
      → Books E ts held (complete_call call st payload c)
  unfolding complete_call
  complete_open-Books held id call st payload c e
        (sums, ahead, sorted, keyed, waiting, timers, opens) =
      let (same, o) = All-find OpensAs id call c.calls e keyed in
      if-keeps (Books E ts held) call.completed c _ (λ w. absurd (ground arith))
        λ _. (
          (λ k. ground (
            arith,
            sums k,
            same,
            e,
            find-erase k call.id c.calls,
            ap (starts_in k) (stopped_pending call.timeout_timer c.loop),
          )),
          ahead,
          erase-IsSorted call.id c.calls sorted,
          All-erase OpensAs call.id c.calls keyed,
          waiting,
          (stopped-keeps call.timeout_timer c.loop).1 timers,
          opens,
        )
