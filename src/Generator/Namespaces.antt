-- ===== src/Generator/Namespaces.antt =====
-- OpenNamespaces and CloseNamespaces: as many namespaces are closed as the package opens.
use native.Mathlib.Nat.{suc-add}
use u_rpc.Prelude.{
  ℕ, zero, suc, ◌+◌, ◌≡◌, refl, ◌∙◌, ap, true, some, [], ◌∷◌, ◌++◌, arith, ◌==◌, if◌then◌else◌,
  Bool-cases, inl, inr,
}
use u_rpc.Prelude.Str.{Str, codes}
use u_rpc.Generator.Files.{
  opened, open_parts, open_namespaces, close_lines, depth_from, close_namespaces,
}
use u_rpc.Generator.Braces.{walk, is_plain, plain-IsBalanced, walk_on}

-- How many dots a package has.
unfoldable pub dots : Str → ℕ
dots [] = 0
dots (c ∷ s) = (if c == b'.' then 1 else 0) + dots s

opened-walk : (part : Str) (d : ℕ) → is_plain part ≡ true → walk (opened part) d ≡ some (suc d)
unfolding walk
opened-walk part d h =
    walk_on (codes "namespace ") (part ++ codes " {\n") d d refl
      (walk_on part (codes " {\n") d d (plain-IsBalanced part h d) refl)

pub plain-append : (s t : Str) → is_plain s ≡ true → is_plain t ≡ true → is_plain (s ++ t) ≡ true
unfolding is_plain
plain-append [] t h k = k
plain-append (c ∷ s) t h k = ground (arith, plain-append s t)

plain-tail : (c : ℕ) (s : Str) → is_plain (c ∷ s) ≡ true → is_plain s ≡ true
unfolding is_plain
plain-tail c s h = ground arith

plain-head : (c : ℕ) (s : Str) → is_plain (c ∷ s) ≡ true → is_plain (c ∷ []) ≡ true
unfolding is_plain
plain-head c s h = ground arith

-- One namespace for each dot, and one for the last part.
open_parts-walk :
    (part s : Str) (d : ℕ)
    → is_plain part ≡ true
    → is_plain s ≡ true
    → walk (open_parts part s) d ≡ some (suc (dots s + d))
unfolding open_parts dots is_plain
open_parts-walk part [] d h k = opened-walk part d h ∙ ap some (omega arith)
open_parts-walk part (c ∷ s) d h k = elim (Bool-cases (c == b'.')) [
  | inl e ↦ rw e (
      walk_on (opened part) (open_parts [] s) d (suc d) (opened-walk part d h)
        (open_parts-walk [] s (suc d) refl (plain-tail c s k))
      ∙ ap some (omega arith))
  | inr e ↦ rw e (
      open_parts-walk (part ++ c ∷ []) s d (plain-append part (c ∷ []) h (plain-head c s k))
        (plain-tail c s k)
      ∙ ap some (omega arith))
]

close_lines-walk : (n d : ℕ) → walk (close_lines n) (n + d) ≡ some d
unfolding close_lines walk
close_lines-walk zero d = ap some (omega arith)
close_lines-walk (suc n) d = rw suc-add (
    walk_on (codes "}  // namespace\n") (close_lines n) (suc (n + d)) (n + d) refl
      (close_lines-walk n d))

depth_from-dots : (n : ℕ) (s : Str) → depth_from n s ≡ n + dots s
unfolding depth_from dots
depth_from-dots n [] = omega arith
depth_from-dots n (c ∷ s) = ground (arith, depth_from-dots n s, depth_from-dots (suc n) s)

outer-walk : (d : ℕ) → walk (codes "namespace urpc {\nnamespace gen {\n") d ≡ some (suc (suc d))
unfolding walk
outer-walk d = refl

pub open_namespaces-walk :
    (pkg : Str) (d : ℕ)
    → is_plain pkg ≡ true
    → walk (open_namespaces pkg) d ≡ some (3 + dots pkg + d)
unfolding open_namespaces is_plain
open_namespaces-walk pkg d h =
    walk_on _ (open_parts [] pkg) d (suc (suc d)) (outer-walk d)
      (open_parts-walk [] pkg (suc (suc d)) refl h)
    ∙ ap some (omega arith)

pub close_namespaces-walk :
    (pkg : Str) (d : ℕ) → walk (close_namespaces pkg) (3 + dots pkg + d) ≡ some d
unfolding close_namespaces
close_namespaces-walk pkg d = rw (depth_from-dots 3 pkg) (close_lines-walk (3 + dots pkg) d)
