-- ===== src/Prelude/Number.antt =====
-- std::stoull and std::stoi of <string>, and what they make of the digits of std::to_string.
-- `none` is a thrown std::invalid_argument or std::out_of_range.
use Prim.Native.Nat.{ℕ, zero, suc, ◌+◌, ◌-◌, ◌*◌, ◌/◌, ◌%◌, ◌^◌, ◌≤◌, ◌<◌}
use mathlib.Core.Path.{◌≡◌, refl, ap, ◌∙◌}
use mathlib.Core.Logic.{inl, inr}
use mathlib.Core.Bool.{Bool, true, false, ◌&&◌, ◌||◌}
use mathlib.Core.Option.{Option, none, some}
use mathlib.Core.List.{[], ◌∷◌, ◌++◌}
use native.Mathlib.Omega.{arith}
use native.Mathlib.Nat.{pow-suc}
use u_rpc.Prelude.Tests.{
  ltb, leb, ◌==◌, if◌then◌else◌, Bool-cases, ltb-false, ltb→lt, lt→ltb, le→ltb_false,
}
use u_rpc.Prelude.Str.{Str, is_digit, digits, to_string}

-- A C++ int: `negsuc n` is -(n + 1).
pub data ℤ : Type 0 where
  pos : ℕ → ℤ
  negsuc : ℕ → ℤ

abbrev is_space : ℕ → Bool
is_space c = c == 32 || (leb 9 c && leb c 13)

pub skip_spaces : Str → Str
skip_spaces [] = []
skip_spaces (c ∷ s) = let rest = skip_spaces s in if is_space c then rest else c ∷ s

-- Whether a minus sign stands in front, and the rest.
pub take_sign : Str → Bool × Str
take_sign [] = (false, [])
take_sign (c ∷ s) =
    if c == b'-' then (true, s) else if c == b'+' then (false, s) else (false, c ∷ s)

-- The value of the leading digits, read after the value `acc`.
pub read_digits : ℕ → Str → ℕ
read_digits acc [] = acc
read_digits acc (c ∷ s) =
    let more = read_digits (acc * 10 + (c - b'0')) s in if is_digit c then more else acc

abbrev pub starts_digit : Str → Bool
starts_digit [] = false
starts_digit (c ∷ s) = is_digit c

-- The sign and the magnitude in front of a text, if there are digits; what follows is not read.
unfoldable pub signed_prefix : Str → Option (Bool × ℕ)
unfolding skip_spaces take_sign read_digits
signed_prefix s =
    let (minus, rest) = take_sign (skip_spaces s) in
    if starts_digit rest then some (minus, read_digits 0 rest) else none

-- strtoull negates modulo 2 ^ 64.
unfoldable pub to_ull : Option (Bool × ℕ) → Option ℕ
to_ull none = none
to_ull (some (minus, n)) =
    if ltb n (2 ^ 64) then some (if minus then (2 ^ 64 - n) % 2 ^ 64 else n) else none

unfoldable pub stoull : Str → Option ℕ
unfolding to_ull signed_prefix
stoull s = to_ull (signed_prefix s)

unfoldable pub to_si : Option (Bool × ℕ) → Option ℤ
to_si none = none
to_si (some (false, n)) = if ltb n (2 ^ 31) then some (pos n) else none
to_si (some (true, zero)) = some (pos 0)
to_si (some (true, suc n)) = if ltb n (2 ^ 31) then some (negsuc n) else none

unfoldable pub stoi : Str → Option ℤ
unfolding to_si signed_prefix
stoi s = to_si (signed_prefix s)

-- One more digit read is the value times ten and the digit.
read_digit :
    (a k : ℕ) (rest : Str)
    → k < 10
    → read_digits a ((k + b'0') ∷ rest) ≡ read_digits (a * 10 + k) rest
unfolding read_digits
read_digit a k rest h =
    let e : a * 10 + (k + b'0' - b'0') ≡ a * 10 + k = omega arith in
    let d : is_digit (k + b'0') ≡ true = ground arith in rw (d, e) refl

read_digits-digits :
    (f n : ℕ) (rest : Str) → n < 10 ^ f → read_digits 0 (digits f n rest) ≡ read_digits n rest
unfolding digits
read_digits-digits zero n rest h = ap (λ (k : ℕ). read_digits k rest) (omega arith)
read_digits-digits (suc f) n rest h = elim (Bool-cases (ltb n 10)) [
  | inl small ↦
      let lt = ltb→lt n 10 small in
      let e : 0 * 10 + n % 10 ≡ n = omega arith in
      rw small (read_digit 0 (n % 10) rest (omega arith) ∙ ap (λ (k : ℕ). read_digits k rest) e)
  | inr big ↦
      let ge = ltb-false n 10 big in
      let b : 10 ^ suc f ≡ 10 ^ f * 10 = pow-suc 10 f in
      let e : n / 10 * 10 + n % 10 ≡ n = omega arith in
      rw big (
        read_digits-digits f (n / 10) ((n % 10 + b'0') ∷ rest) (omega arith)
        ∙ read_digit (n / 10) (n % 10) rest (omega arith)
        ∙ ap (λ (k : ℕ). read_digits k rest) e)
]

starts_digit-digits : (f n : ℕ) (rest : Str) → starts_digit (digits (suc f) n rest) ≡ true
unfolding digits
starts_digit-digits zero n rest =
    let d : is_digit (n % 10 + b'0') ≡ true = ground arith in
    elim (Bool-cases (ltb n 10)) [ inl e ↦ rw e d | inr e ↦ rw e d ]
starts_digit-digits (suc f) n rest = elim (Bool-cases (ltb n 10)) [
  | inl e ↦ let d : is_digit (n % 10 + b'0') ≡ true = ground arith in rw e d
  | inr e ↦ rw e (starts_digit-digits f (n / 10) ((n % 10 + b'0') ∷ rest))
]

-- A text that starts with a digit has no spaces and no sign in front.
skip_spaces_digit : (s : Str) → starts_digit s ≡ true → take_sign (skip_spaces s) ≡ (false, s)
unfolding skip_spaces take_sign
skip_spaces_digit [] h = cc
skip_spaces_digit (c ∷ s) h = ground arith

to_ull_bound : (o : Option (Bool × ℕ)) (n : ℕ) → to_ull o ≡ some n → n < 2 ^ 64
unfolding to_ull
to_ull_bound none n h = cc
to_ull_bound (some (minus, m)) n h = ground arith

-- What is not a digit ends the number.
read_digits_stop : (n : ℕ) (s : Str) → starts_digit s ≡ false → read_digits n s ≡ n
unfolding read_digits
read_digits_stop n [] h = refl
read_digits_stop n (c ∷ s) h = rw h refl

signed_prefix-digits :
    (n : ℕ) (rest : Str)
    → n < 2 ^ 64
    → starts_digit rest ≡ false
    → signed_prefix (digits 20 n rest) ≡ some (false, n)
unfolding signed_prefix
signed_prefix-digits n rest h k =
    let d = starts_digit-digits 19 n rest in
    let e = skip_spaces_digit (digits 20 n rest) d in
    let v = read_digits-digits 20 n rest (omega arith) ∙ read_digits_stop n rest k in rw (e, d, v)

digits-append : (f n : ℕ) (s t : Str) → digits f n s ++ t ≡ digits f n (s ++ t)
unfolding digits
digits-append zero n s t = refl
digits-append (suc f) n s t = elim (Bool-cases (ltb n 10)) [
  | inl e ↦ rw e
  | inr e ↦ rw e (digits-append f (n / 10) ((n % 10 + b'0') ∷ s) t)
]

-- stoull reads back what to_string wrote, and stops at what is not a digit.
pub stoull-to_string :
    (n : ℕ) (rest : Str)
    → n < 2 ^ 64
    → starts_digit rest ≡ false
    → stoull (to_string n ++ rest) ≡ some n
unfolding stoull to_string
stoull-to_string n rest h k =
    rw (digits-append 20 n [] rest, signed_prefix-digits n rest h k, lt→ltb n (2 ^ 64) h)

pub stoi-to_string :
    (n : ℕ) (rest : Str)
    → n < 2 ^ 31
    → starts_digit rest ≡ false
    → stoi (to_string n ++ rest) ≡ some (pos n)
unfolding stoi to_string
stoi-to_string n rest h k =
    rw
      (digits-append 20 n [] rest, signed_prefix-digits n rest (omega arith) k, lt→ltb n (2 ^ 31) h)

pub stoi_too_big :
    (n : ℕ) (rest : Str)
    → 2 ^ 31 ≤ n
    → n < 2 ^ 64
    → starts_digit rest ≡ false
    → stoi (to_string n ++ rest) ≡ none
unfolding stoi to_string
stoi_too_big n rest l h k =
    rw (digits-append 20 n [] rest, signed_prefix-digits n rest h k, le→ltb_false n (2 ^ 31) l)

pub stoull_bound : (s : Str) (n : ℕ) → stoull s ≡ some n → n < 2 ^ 64
unfolding stoull
stoull_bound s n h = to_ull_bound (signed_prefix s) n h

pub starts_digit-to_string : (n : ℕ) → starts_digit (to_string n) ≡ true
unfolding to_string
starts_digit-to_string n = starts_digit-digits 19 n []
