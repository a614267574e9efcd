-- ===== src/Prelude/Keeps.antt =====
-- How a property passes through a conditional, an option and a list.
use mathlib.Core.Path.{◌≡◌, refl, ap}
use mathlib.Core.Bool.{Bool, true, false}
use mathlib.Core.Option.{Option, none, some}
use mathlib.Core.List.{List, [], ◌∷◌}
use u_rpc.Prelude.Tests.{if◌then◌else◌}

pub if-keeps {ℓ κ} :
    {A : Type ℓ} (P : A → Type κ) (b : Bool) (x y : A)
    → (b ≡ true → P x)
    → (b ≡ false → P y)
    → P (if b then x else y)
if-keeps P true x y h k = h refl
if-keeps P false x y h k = k refl

-- The same for a result of any type, at an `elim` whose cases wait.
pub option-keeps {ℓ κ μ} :
    {A : Type ℓ} {B : Type κ} (P : A → Type μ) (o : Option B) (x : A) (f : B → A)
    → P x
    → ((b : B) → o ≡ some b → P (f b))
    → P (elim o [ none ↦ x | some b ↦ f b ])
option-keeps P none x f h k = h
option-keeps P (some call) x f h k = k call refl

pub bool-keeps {ℓ κ} :
    {A : Type ℓ} (P : A → Type κ) (b : Bool) (x y : A)
    → (b ≡ false → P x)
    → (b ≡ true → P y)
    → P (elim b [ false ↦ x | true ↦ y ])
bool-keeps P true x y h k = k refl
bool-keeps P false x y h k = h refl

pub list-keeps {ℓ κ μ} :
    {A : Type ℓ} {B : Type κ} (P : A → Type μ) (q : List B) (x : A) (f : B → List B → A)
    → P x
    → ((o : B) (rest : List B) → q ≡ o ∷ rest → P (f o rest))
    → P (elim q [ [] ↦ x | o ∷ rest ↦ f o rest ])
list-keeps P [] x f h k = h
list-keeps P (o ∷ rest) x f h k = k o rest refl

-- The case of an option that is known.
pub option_found {ℓ κ μ} :
    {A : Type ℓ} {B : Type κ} {C : Type μ} (P : A → C) (x : A) (f : B → A) (b : B) (o : Option B)
    → o ≡ some b
    → P (elim o [ none ↦ x | some b' ↦ f b' ]) ≡ P (f b)
option_found P x f b o e = ap (λ o. P (elim o [ none ↦ x | some b' ↦ f b' ])) e
