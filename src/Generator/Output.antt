-- ===== src/Generator/Output.antt =====
-- WriteOutput and Generate: the whole text is written, and the header is well formed.
use u_rpc.Prelude.{
  ℕ, zero, suc, ◌+◌, ◌-◌, ◌≤◌, ◌<◌, ◌≡◌, refl, ap, false, List, [], ◌∷◌, ◌++◌, arith, ◌==◌,
  if◌then◌else◌, ltb, length, take, drop, is_empty, All, Bool-cases, inl, inr, take-append-drop,
  length-drop, append-nil,
}
use u_rpc.Prelude.Str.{Str}
use u_rpc.Generator.Plugin.{write_output}

-- The bytes that buffers hold.
unfoldable pub room_of : List ℕ → ℕ
room_of [] = 0
room_of (size ∷ sizes) = size + room_of sizes

take_whole : (s : Str) (n : ℕ) → n ≡ length s → take n s ≡ s
take_whole [] zero h = refl
take_whole [] (suc n) h = absurd (omega arith)
take_whole (c ∷ s) zero h = absurd (omega arith)
take_whole (c ∷ s) (suc n) h = ap (◌∷◌ c) (take_whole s n (omega arith))

drop_whole : (s : Str) (n : ℕ) → n ≡ length s → drop n s ≡ []
drop_whole [] zero h = refl
drop_whole [] (suc n) h = absurd (omega arith)
drop_whole (c ∷ s) zero h = absurd (omega arith)
drop_whole (c ∷ s) (suc n) h = drop_whole s n (omega arith)

is_empty-drop : (s : Str) (n : ℕ) → n < length s → is_empty (drop n s) ≡ false
is_empty-drop [] n h = absurd (omega arith)
is_empty-drop (c ∷ s) zero h = refl
is_empty-drop (c ∷ s) (suc n) h = is_empty-drop s n (omega arith)

write_output_nil : (sizes : List ℕ) → write_output sizes [] ≡ ([], 0)
unfolding write_output
write_output_nil [] = refl
write_output_nil (size ∷ sizes) = refl

-- The last buffer.
write_output_last :
    (size : ℕ) (sizes : List ℕ) (c : ℕ) (s : Str)
    → length (c ∷ s) ≤ size
    → write_output (size ∷ sizes) (c ∷ s) ≡ (c ∷ s, size - length (c ∷ s))
unfolding write_output
write_output_last size sizes c s h =
    let n : ℕ = if ltb (length (c ∷ s)) size then length (c ∷ s) else size in
    let e : n ≡ length (c ∷ s) = ground arith in
    let t = take_whole (c ∷ s) n e in
    let d = drop_whole (c ∷ s) n e in
    let z : (size == 0) ≡ false = ground arith in
    rw (z, d, t, write_output_nil sizes, append-nil) (ap (λ (k : ℕ). (c ∷ s, size - k)) e)

-- A buffer that is filled.
write_output_more :
    (size : ℕ) (sizes : List ℕ) (c : ℕ) (s : Str)
    → 0 < size
    → size < length (c ∷ s)
    → write_output (size ∷ sizes) (c ∷ s) ≡ (
      take size (c ∷ s) ++ (write_output sizes (drop size (c ∷ s))).0,
      (write_output sizes (drop size (c ∷ s))).1,
    )
unfolding write_output
write_output_more size sizes c s p h =
    let e : ltb (length (c ∷ s)) size ≡ false = ground arith in
    let z : (size == 0) ≡ false = ground arith in rw (e, z, is_empty-drop (c ∷ s) size h)

-- Into buffers that are not empty and together hold the text, WriteOutput writes exactly the text, and
-- hands back exactly what it has taken and not used: the buffers it took are a part of those there
-- are, in front.
pub write_output_whole :
    (sizes : List ℕ) (content : Str)
    → All (λ size. 0 < size) sizes
    → length content ≤ room_of sizes
    → ((write_output sizes content).0 ≡ content)
      × ((k : ℕ) × (room_of (take k sizes) ≡ length content + (write_output sizes content).1))
unfolding write_output room_of
write_output_whole [] [] pos h = (refl, (0, omega arith))
write_output_whole [] (c ∷ s) pos h = absurd (omega arith)
write_output_whole (size ∷ sizes) [] pos h = (refl, (0, omega arith))
write_output_whole (size ∷ sizes) (c ∷ s) pos h = elim (Bool-cases (ltb size (length (c ∷ s)))) [
  | inl e ↦
      let more = write_output_more size sizes c s pos.0 (ground arith) in
      let left = length-drop size (c ∷ s) in
      let (whole, (k, taken)) = write_output_whole sizes (drop size (c ∷ s)) pos.1 (ground arith) in
      rw (more, whole) (take-append-drop size (c ∷ s), (suc k, ground arith))
  | inr e ↦
      let last = write_output_last size sizes c s (ground arith) in
      rw last (refl, (1, ground arith))
]
