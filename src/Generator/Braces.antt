-- ===== src/Generator/Braces.antt =====
-- A reading of a generated text that follows its braces, and how it passes through templates.
use u_rpc.Prelude.{
  ℕ, zero, suc, ◌≡◌, refl, sym, ◌∙◌, ap, Bool, true, false, Option, none, some, List, [], ◌∷◌, ◌++◌,
  arith, ◌==◌, if◌then◌else◌,
}
use u_rpc.Prelude.Str.{Str, codes}
use u_rpc.Generator.Model.{Piece, lit, slot, fill}

abbrev pub pred : ℕ → Option ℕ
pred zero = none
pred (suc d) = some d

-- One byte at a depth; `none` closes what is not open.
abbrev pub brace : ℕ → ℕ → Option ℕ
brace c d = if c == b'{' then some (suc d) else if c == b'}' then pred d else some d

infixl 5 ◌then_walk◌
abbrev pub ◌then_walk◌ : Option ℕ → (ℕ → Option ℕ) → Option ℕ
none then_walk f = none
some d then_walk f = f d

then_walk_congr :
    {f g : ℕ → Option ℕ} (o : Option ℕ) → ((d : ℕ) → f d ≡ g d) → (o then_walk f) ≡ (o then_walk g)
then_walk_congr none h = refl
then_walk_congr (some d) h = h d

then_walk_assoc :
    (f g : ℕ → Option ℕ) (o : Option ℕ)
    → ((o then_walk f) then_walk g) ≡ (o then_walk (λ d. f d then_walk g))
then_walk_assoc f g none = refl
then_walk_assoc f g (some d) = refl

-- The depth of braces behind a text, from the one before it.
unfoldable pub walk : Str → ℕ → Option ℕ
walk [] d = some d
walk (c ∷ s) d = brace c d then_walk walk s

-- A text that leaves every depth as it was, and closes nothing that it has not opened.
abbrev pub IsBalanced : Str → Type 0
IsBalanced s = (d : ℕ) → walk s d ≡ some d

pub nil-IsBalanced : IsBalanced []
unfolding walk
nil-IsBalanced d = refl

-- A text without braces.
unfoldable pub is_plain : Str → Bool
is_plain [] = true
is_plain (c ∷ s) =
    let rest = is_plain s in if c == b'{' then false else if c == b'}' then false else rest

pub plain-IsBalanced : (s : Str) → is_plain s ≡ true → IsBalanced s
unfolding walk is_plain
plain-IsBalanced [] h d = refl
plain-IsBalanced (c ∷ s) h d = ground (arith, plain-IsBalanced s (ground arith) d)

pub walk-append : (s t : Str) (d : ℕ) → walk (s ++ t) d ≡ (walk s d then_walk walk t)
unfolding walk
walk-append [] t d = refl
walk-append (c ∷ s) t d =
    then_walk_congr (brace c d) (walk-append s t)
    ∙ sym (then_walk_assoc (walk s) (walk t) (brace c d))

-- One text behind another.
pub walk_on :
    (s t : Str) (d e : ℕ) {o : Option ℕ} → walk s d ≡ some e → walk t e ≡ o → walk (s ++ t) d ≡ o
walk_on s t d e h k = walk-append s t d ∙ (ap (λ (r : Option ℕ). r then_walk walk t) h ∙ k)

pub append-IsBalanced : (s t : Str) → IsBalanced s → IsBalanced t → IsBalanced (s ++ t)
append-IsBalanced s t h k d = walk_on s t d d (h d) (k d)

-- The depth behind a template, over its literals alone.
unfoldable pub walk_lits : {F : Type 0} → List (Piece F) → ℕ → Option ℕ
unfolding walk
walk_lits [] d = some d
walk_lits (lit s ∷ ps) d = walk (codes s) d then_walk walk_lits ps
walk_lits (slot f ∷ ps) d = walk_lits ps d

-- Names without braces do not change what a template does.
pub walk-fill :
    {F : Type 0} (names : F → Str) (ps : List (Piece F)) (d : ℕ)
    → ((f : F) → is_plain (names f) ≡ true)
    → walk (fill names ps) d ≡ walk_lits ps d
unfolding fill walk walk_lits
walk-fill names [] d h = refl
walk-fill names (lit s ∷ ps) d h =
    walk-append (codes s) (fill names ps) d
    ∙ then_walk_congr (walk (codes s) d) (λ e. walk-fill names ps e h)
walk-fill names (slot f ∷ ps) d h =
    walk-append (names f) (fill names ps) d
    ∙ (ap (λ (o : Option ℕ). o then_walk walk (fill names ps)) (plain-IsBalanced (names f) (h f) d)
        ∙ walk-fill names ps d h)

pub fill-IsBalanced :
    {F : Type 0} (names : F → Str) (ps : List (Piece F))
    → ((f : F) → is_plain (names f) ≡ true)
    → ((d : ℕ) → walk_lits ps d ≡ some d)
    → IsBalanced (fill names ps)
fill-IsBalanced names ps h k d = walk-fill names ps d h ∙ k d
