-- ===== src/Prelude/Map/Sorted.antt =====
-- Maps in the order of their keys, and what holds of every entry.
use Prim.Native.Nat.{ℕ, ◌≤◌, ◌<◌}
use mathlib.Core.Path.{◌≡◌, refl, subst}
use mathlib.Core.Option.{none, some}
use mathlib.Core.List.{[], ◌∷◌}
use native.Mathlib.Omega.{arith}
use u_rpc.Prelude.Tests.{ltb, ltb→lt, Bool-cases, ◌==◌}
use mathlib.Core.Logic.{inl, inr}
use u_rpc.Prelude.Lists.{All}
use u_rpc.Prelude.Keeps.{if-keeps}
use u_rpc.Prelude.Map.{Map, find, insert, erase}

module _ {ℓ} {V : Type ℓ} where
  abbrev pub Above : ℕ → Map V → Type 0
  Above j [] = Unit {0}
  Above j ((i, v) ∷ m) = (j < i) × Above j m

  abbrev pub IsSorted : Map V → Type 0
  IsSorted [] = Unit {0}
  IsSorted ((i, v) ∷ m) = Above i m × IsSorted m

  Above-weaken : (j i : ℕ) (m : Map V) → j < i → Above i m → Above j m
  Above-weaken j i [] l h = h
  Above-weaken j i ((k, v) ∷ m) l h = (omega arith, Above-weaken j i m l h.1)

  Above-insert : (j k : ℕ) (v : V) (m : Map V) → j < k → Above j m → Above j (insert k v m)
  unfolding insert
  Above-insert j k v [] l h = (l, h)
  Above-insert j k v ((i, w) ∷ m) l h = ground (arith, Above-insert j k v m l h.1)

  Above-erase : (j k : ℕ) (m : Map V) → Above j m → Above j (erase k m)
  unfolding erase
  Above-erase j k [] h = h
  Above-erase j k ((i, w) ∷ m) h = ground (arith, Above-erase j k m h.1)

  pub insert-IsSorted : (k : ℕ) (v : V) (m : Map V) → IsSorted m → IsSorted (insert k v m)
  unfolding insert
  insert-IsSorted k v [] h = (h, h)
  insert-IsSorted k v ((i, w) ∷ m) h =
      if-keeps IsSorted (i == k) ((k, v) ∷ m) _ (λ e. (ground (arith, h.0), h.1))
        λ n.
          if-keeps IsSorted (ltb k i) ((k, v) ∷ (i, w) ∷ m) ((i, w) ∷ insert k v m)
            (λ l. ((ltb→lt k i l, Above-weaken k i m (ltb→lt k i l) h.0), h))
            (λ l. (Above-insert i k v m (ground arith) h.0, insert-IsSorted k v m h.1))

  pub erase-IsSorted : (k : ℕ) (m : Map V) → IsSorted m → IsSorted (erase k m)
  unfolding erase
  erase-IsSorted k [] h = h
  erase-IsSorted k ((i, w) ∷ m) h = ground (arith, erase-IsSorted k m h.1, Above-erase i k m h.0)

  pub find-Above : (k j : ℕ) (m : Map V) → k ≤ j → Above j m → find k m ≡ none
  unfolding find
  find-Above k j [] l h = refl
  find-Above k j ((i, w) ∷ m) l h = ground (arith, find-Above k j m l h.1)

  pub All-insert {κ} :
      (P : ℕ × V → Type κ) (k : ℕ) (v : V) (m : Map V) → P (k, v) → All P m → All P (insert k v m)
  unfolding insert
  All-insert P k v [] p h = (p, h)
  All-insert P k v ((i, w) ∷ m) p h =
      if-keeps (All P) (i == k) ((k, v) ∷ m) _ (λ _. (p, h.1))
        λ _.
          if-keeps (All P) (ltb k i) ((k, v) ∷ (i, w) ∷ m) ((i, w) ∷ insert k v m) (λ _. (p, h))
            (λ _. (h.0, All-insert P k v m p h.1))

  pub All-erase {κ} : (P : ℕ × V → Type κ) (k : ℕ) (m : Map V) → All P m → All P (erase k m)
  unfolding erase
  All-erase P k [] h = h
  All-erase P k ((i, w) ∷ m) h =
      if-keeps (All P) (i == k) (erase k m) ((i, w) ∷ erase k m) (λ _. All-erase P k m h.1)
        (λ _. (h.0, All-erase P k m h.1))

  pub All-find {κ} :
      (P : ℕ × V → Type κ) (k : ℕ) (v : V) (m : Map V) → find k m ≡ some v → All P m → P (k, v)
  unfolding find
  All-find P k v [] e h = absurd (ground arith)
  All-find P k v ((i, w) ∷ m) e h = elim (Bool-cases (i == k)) [
    | inl q ↦
        let key : i ≡ k = ground arith in
        let value : w ≡ v = ground (arith, e) in
        subst (λ j. P (j, v)) key (subst (λ u. P (i, u)) value h.0)
    | inr q ↦ All-find P k v m (ground (arith, e)) h.1
  ]
