-- ===== src/Codec/Fuel.antt =====
-- The loop of FrameDecoder::Consume (urpc/core/source/urpc_codec.cpp) and its fuel.
use u_rpc.Prelude.{
  ℕ, zero, suc, ◌+◌, ◌≤◌, ◌<◌, ◌≡◌, refl, ◌⊎◌, inl, inr, true, Option, none, some, List, ◌∷◌, arith,
  length, length-drop, Bool-cases,
}
use u_rpc.Prelude.Str.{Str}
use u_rpc.Status.{Status}
use u_rpc.Codec.{
  FrameDecoder, Phase, halt, go, prefix_of, check_header, read_header, read_body, round,
  consume_loop, debt, buffered, consume,
}

prefix_of-length :
    (s : List ℕ) (p : ℕ × ℕ × List ℕ) → prefix_of s ≡ some p → length s ≡ length p.2 + 5
unfolding prefix_of
prefix_of-length (f ∷ a ∷ b ∷ c ∷ e ∷ rest) p h = ground arith
prefix_of-length _ p h = cc

pub Phase-cases :
    (p : Phase)
    → ((st : Status) × (d : FrameDecoder) × (p ≡ halt st d)) ⊎ ((d : FrameDecoder) × (p ≡ go d))
Phase-cases (halt st d) = inl (st, d, refl)
Phase-cases (go d) = inr (d, refl)

check_header_go :
    (d d' : FrameDecoder) (o : Option (ℕ × ℕ × List ℕ))
    → check_header d o ≡ go d'
    → (p : ℕ × ℕ × List ℕ) × (o ≡ some p) × (d'.have_header ≡ true) × (d'.buffer ≡ p.2)
unfolding check_header
check_header_go d d' none h = cc
check_header_go d d' (some p) h = (p, refl, ground arith, ground arith)

pub read_header_go :
    (d d' : FrameDecoder) → read_header d ≡ go d' → (d'.have_header ≡ true) × (debt d' ≤ debt d)
unfolding read_header
read_header_go d d' h = elim (Bool-cases d.have_header) [
  | inl e ↦ ground arith
  | inr e ↦
      let (p, q, r, s) = check_header_go d d' (prefix_of d.buffer) (ground arith) in
      ground (arith, prefix_of-length d.buffer p q)
]

pub read_body_go :
    (d d' : FrameDecoder) → d.have_header ≡ true → read_body d ≡ go d' → debt d' < debt d
unfolding read_body
read_body_go d d' h e = ground (arith, length-drop d.needed d.buffer)

-- Every round that goes on leaves a smaller debt.
pub round_go : (d d' : FrameDecoder) → round d ≡ go d' → debt d' < debt d
unfolding round
round_go d d' h = elim (Phase-cases (read_header d)) [
  | inl (st, d1, e) ↦ ground arith
  | inr (d1, e) ↦ let (hh, le) = read_header_go d d1 e in ground (arith, read_body_go d1 d' hh)
]

-- With more fuel than debt the loop does not depend on the fuel.
pub consume_loop-fuel :
    (f g : ℕ) (d : FrameDecoder) → debt d < f → debt d < g → consume_loop f d ≡ consume_loop g d
unfolding consume_loop
consume_loop-fuel zero g d h k = absurd (omega arith)
consume_loop-fuel (suc f) zero d h k = absurd (omega arith)
consume_loop-fuel (suc f) (suc g) d h k = elim (Phase-cases (round d)) [
  | inl (st, d1, e) ↦ rw (e, consume_loop)
  | inr (d1, e) ↦
      let s = round_go d d1 e in
      rw (e, consume_loop) (consume_loop-fuel f g d1 (omega arith) (omega arith))
]

-- Some rounds of the `while (true)` of Consume, with no fuel to run out of: a round that returns ends
-- them.
unfoldable pub rounds : ℕ → FrameDecoder → Phase
rounds zero d = go d
rounds (suc n) d = elim (round d) [ halt st d' ↦ halt st d' | go d' ↦ rounds n d' ]

loop_halts :
    (f : ℕ) (d : FrameDecoder)
    → debt d < f
    → (n : ℕ) × (n ≤ f) × (rounds n d ≡ halt (consume_loop f d).0 (consume_loop f d).1)
unfolding consume_loop rounds
loop_halts zero d h = absurd (omega arith)
loop_halts (suc f) d h = elim (Phase-cases (round d)) [
  | inl (st, d1, e) ↦ (1, omega arith, rw (e, consume_loop, rounds))
  | inr (d1, e) ↦
      let s = round_go d d1 e in
      let (n, le, p) = loop_halts f d1 (omega arith) in
      (suc n, omega arith, rw (e, consume_loop, rounds) p)
]

-- The loop of Consume comes to an end, whatever the decoder and the bytes: after at most one round more
-- than the bytes in the buffer and the header that was read, a round returns, and it returns the
-- status, and leaves the decoder, that Consume gives.
pub consume_halts :
    (d : FrameDecoder) (bytes : Str)
    → (n : ℕ) × (n ≤ suc (debt (buffered d bytes)))
      × (rounds n (buffered d bytes) ≡ halt (consume d bytes).0 (consume d bytes).1)
unfolding consume
consume_halts d bytes = loop_halts (suc (debt (buffered d bytes))) (buffered d bytes) (omega arith)
