-- ===== src/Loop/Timers.antt =====
-- The one-shot timers of urpc/core/source/urpc_loop.cpp and their ids.
use u_rpc.Prelude.{
  ℕ, ◌≤◌, ◌<◌, ◌≡◌, ◌≢◌, refl, ◌⊎◌, inl, inr, Bool, true, false, none, some, List, [], ◌∷◌, arith,
  ltb, Bool-cases, ltb→lt, ltb-false,
}
use u_rpc.Prelude.Map.{Map, find, insert, erase, find-insert, find-erase, find-erase_self}
use u_rpc.Loop.{Loop, close_all, set_timer, cancel_timer, fire_timer}

-- The operations that touch the timers.
pub data TimerOp {ℓ} (T : Type ℓ) : Type ℓ where
  set : Bool → T → TimerOp T
  cancel : ℕ → TimerOp T
  fire : ℕ → TimerOp T
  close : TimerOp T

module _ {ℓ} {T : Type ℓ} where
  -- No timer has the id 0, or one that is still to be given out.
  pub record HasFreshIds (l : Loop T) : Type ℓ where
    pub positive : 0 < l.next_timer_id
    pub none_at : find 0 l.timers ≡ none
    pub above : (id : ℕ) → l.next_timer_id ≤ id → find id l.timers ≡ none

  unfoldable pub apply : TimerOp T → Loop T → Loop T
  apply (set b t) l = (set_timer b t l).1
  apply (cancel id) l = cancel_timer id l
  apply (fire id) l = (fire_timer id l).1
  apply close l = close_all l

  pub apply_all : List (TimerOp T) → Loop T → Loop T
  apply_all [] l = l
  apply_all (o ∷ os) l = apply_all os (apply o l)

  erase_fresh : (id k : ℕ) (m : Map T) → find k m ≡ none → find k (erase id m) ≡ none
  erase_fresh id k m h = ground (arith, find-erase k id m)

  insert_fresh :
      (id k : ℕ) (t : T) (m : Map T) → find k m ≡ none → id ≢ k → find k (insert id t m) ≡ none
  insert_fresh id k t m h ne = ground (arith, find-insert k id t m)

  set_timer-HasFreshIds :
      (b : Bool) (t : T) (l : Loop T) → HasFreshIds l → HasFreshIds (set_timer b t l).1
  unfolding set_timer
  set_timer-HasFreshIds b t l v = elim (Bool-cases l.running) [
    | inr off ↦ simp off v
    | inl on ↦ elim (Bool-cases b) [
      | inr failed ↦
          simp (on, failed)
            (record {
              positive = omega arith;
              none_at = v.none_at;
              above = λ id h. v.above id (omega arith);
            })
      | inl init ↦
          let p = v.positive in
          simp (on, init)
            (record {
              positive = omega arith;
              none_at = insert_fresh l.next_timer_id 0 t l.timers v.none_at (omega arith);
              above = λ id h.
                  insert_fresh l.next_timer_id id t l.timers (v.above id (omega arith))
                    (omega arith);
            })
    ]
  ]

  -- Every operation on the timers keeps the ids fresh.
  pub apply-HasFreshIds : (o : TimerOp T) (l : Loop T) → HasFreshIds l → HasFreshIds (apply o l)
  unfolding apply cancel_timer fire_timer close_all find
  apply-HasFreshIds (set b t) l v = set_timer-HasFreshIds b t l v
  apply-HasFreshIds (cancel id) l v = record {
    positive = v.positive;
    none_at = erase_fresh id 0 l.timers v.none_at;
    above = λ k h. erase_fresh id k l.timers (v.above k h);
  }
  apply-HasFreshIds (fire id) l v = record {
    positive = v.positive;
    none_at = erase_fresh id 0 l.timers v.none_at;
    above = λ k h. erase_fresh id k l.timers (v.above k h);
  }
  apply-HasFreshIds close l v = record {
    positive = v.positive;
    none_at = refl;
    above = λ k h. refl;
  }

  -- An id that was given out and is not armed.
  pub record IsSpent (id : ℕ) (l : Loop T) : Type ℓ where
    pub given : id < l.next_timer_id
    pub unarmed : find id l.timers ≡ none

  apply-IsSpent : (id : ℕ) (o : TimerOp T) (l : Loop T) → IsSpent id l → IsSpent id (apply o l)
  unfolding apply cancel_timer fire_timer close_all find set_timer
  apply-IsSpent id (set b t) l s =
      let g = s.given in
      let u = insert_fresh l.next_timer_id id t l.timers s.unarmed (omega arith) in ground arith
  apply-IsSpent id (cancel k) l s = record {
    given = s.given;
    unarmed = erase_fresh k id l.timers s.unarmed;
  }
  apply-IsSpent id (fire k) l s = record {
    given = s.given;
    unarmed = erase_fresh k id l.timers s.unarmed;
  }
  apply-IsSpent id close l s = record { given = s.given; unarmed = refl }

  apply_all-IsSpent :
      (id : ℕ) (os : List (TimerOp T)) (l : Loop T) → IsSpent id l → IsSpent id (apply_all os l)
  unfolding apply_all
  apply_all-IsSpent id [] l s = s
  apply_all-IsSpent id (o ∷ os) l s = apply_all-IsSpent id os (apply o l) (apply-IsSpent id o l s)

  -- A timer whose task has run, or that was cancelled, never runs again: from a loop whose ids are
  -- fresh, once an id that was armed is fired or cancelled, firing it after any further timer
  -- operations gives no task.
  pub fires_once :
      (id : ℕ) (t : T) (os : List (TimerOp T)) (l : Loop T)
      → HasFreshIds l
      → find id l.timers ≡ some t
      → ((fire_timer id l).0 ≡ some t)
        × ((fire_timer id (apply_all os (fire_timer id l).1)).0 ≡ none)
        × ((fire_timer id (apply_all os (cancel_timer id l))).0 ≡ none)
  unfolding fire_timer cancel_timer
  fires_once id t os l v h =
      let s : IsSpent id (record l { timers = erase id l.timers }) = record {
        given = given (Bool-cases (ltb id l.next_timer_id));
        unarmed = find-erase_self id l.timers;
      } in
      (h, (apply_all-IsSpent id os _ s).unarmed, (apply_all-IsSpent id os _ s).unarmed)
    where
      given :
          (ltb id l.next_timer_id ≡ true) ⊎ (ltb id l.next_timer_id ≡ false) → id < l.next_timer_id
      given (inl e) = ltb→lt _ _ e
      given (inr e) = let a = v.above id (ltb-false _ _ e) in cc
