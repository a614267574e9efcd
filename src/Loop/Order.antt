-- ===== src/Loop/Order.antt =====
-- The order of the tasks that are posted to the loop of urpc/core/source/urpc_loop.cpp.
use u_rpc.Prelude.{
  ◌≡◌, refl, ap, ◌∙◌, true, Option, none, some, List, [], ◌∷◌, ◌++◌, append-nil, append_assoc,
}
use u_rpc.Loop.{Loop, Task, posted, close_all_handles, post, drain_pending, stop}

-- What happens to the queue: some thread posts, or the loop wakes and runs what stands there.
pub data QueueOp {ℓ} (T : Type ℓ) : Type ℓ where
  posts : Option T → QueueOp T
  wakes : QueueOp T

module _ {ℓ} {T : Type ℓ} where
  -- The tasks run so far, in order, and the loop.
  pub step : QueueOp T → List (Task T) × Loop T → List (Task T) × Loop T
  step (posts t) (ran, l) = (ran, post t l)
  step wakes (ran, l) = let (ready, l') = drain_pending l in (ran ++ ready, l')

  pub run : List (QueueOp T) → List (Task T) × Loop T → List (Task T) × Loop T
  run [] s = s
  run (o ∷ os) s = run os (step o s)

  -- What the calls of Post hand over.
  abbrev pub handed : List (QueueOp T) → List (Task T)
  handed [] = []
  handed (posts none ∷ os) = handed os
  handed (posts (some t) ∷ os) = posted t ∷ handed os
  handed (wakes ∷ os) = handed os

  -- Whatever the interleaving of posts and wakes, the tasks that have run, followed by those that
  -- wait, are exactly those that were there and those that were posted since, in that order: none is
  -- lost, doubled or overtaken.
  pub run_in_order :
      (os : List (QueueOp T)) (ran : List (Task T)) (l : Loop T)
      → (run os (ran, l)).0 ++ (run os (ran, l)).1.pending ≡ ran ++ (l.pending ++ handed os)
  unfolding run step post drain_pending
  run_in_order [] ran l = rw append-nil
  run_in_order (posts none ∷ os) ran l = run_in_order os ran l
  run_in_order (posts (some t) ∷ os) ran l =
      run_in_order os ran (post (some t) l)
      ∙ rw (append_assoc l.pending (posted t ∷ []) (handed os))
  run_in_order (wakes ∷ os) ran l =
      run_in_order os (ran ++ l.pending) (drain_pending l).1
      ∙ rw (append_assoc ran l.pending (handed os))

  run_running :
      (os : List (QueueOp T)) (ran : List (Task T)) (l : Loop T)
      → (run os (ran, l)).1.running ≡ l.running
  unfolding run step post drain_pending
  run_running [] ran l = refl
  run_running (posts none ∷ os) ran l = run_running os ran l
  run_running (posts (some t) ∷ os) ran l = run_running os ran (post (some t) l)
  run_running (wakes ∷ os) ran l = run_running os (ran ++ l.pending) (drain_pending l).1

  stop_pending : (l : Loop T) → l.running ≡ true → (stop l).pending ≡ close_all_handles ∷ []
  unfolding stop
  stop_pending l h = rw h

  -- Stop on a running loop, between any two histories of posts and wakes: what has run in the end,
  -- followed by what waits, are the tasks that had run before Stop, the quit task, and the tasks that
  -- were posted behind Stop, in that order; a task that waited when Stop came never runs.
  pub stop_forgets :
      (os os' : List (QueueOp T)) (l : Loop T)
      → l.running ≡ true
      → let (ran, l1) = run os ([], l) in
        (run os' (ran, stop l1)).0 ++ (run os' (ran, stop l1)).1.pending
        ≡ ran ++ close_all_handles ∷ handed os'
  stop_forgets os os' l h =
      let (ran, l1) = run os ([], l) in
      run_in_order os' ran (stop l1)
      ∙ ap (λ (ts : List (Task T)). ran ++ (ts ++ handed os'))
          (stop_pending l1 (run_running os [] l ∙ h))
