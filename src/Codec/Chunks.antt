-- ===== src/Codec/Chunks.antt =====
-- FrameDecoder::Consume of urpc/core/source/urpc_codec.cpp on bytes that come in two pieces.
use u_rpc.Prelude.{
  ℕ, zero, suc, ◌<◌, ◌≡◌, refl, sym, ◌∙◌, inl, inr, true, false, Option, none, some, List, ◌∷◌,
  ◌++◌, arith, Bool-cases, take-append, drop-append, length-append, append_assoc,
}
use mathlib.Core.Path.{subst}
use u_rpc.Status.{Status, is_ok, ok_status}
use u_rpc.Codec.{
  FrameDecoder, halt, go, prefix_of, check_header, read_header, read_body, round, consume_loop,
  debt, buffered, consume, too_long,
}
use u_rpc.Codec.Fuel.{Phase-cases, read_header_go, round_go, consume_loop-fuel}

prefix_of_append :
    (s t : List ℕ) (p : ℕ × ℕ × List ℕ)
    → prefix_of s ≡ some p
    → prefix_of (s ++ t) ≡ some (p.0, p.1, p.2 ++ t)
unfolding prefix_of
prefix_of_append (f ∷ a ∷ b ∷ c ∷ e ∷ rest) t p h = ground arith
prefix_of_append _ t p h = cc

check_header-buffered :
    (d d' : FrameDecoder) (o : Option (ℕ × ℕ × List ℕ)) (t : List ℕ)
    → o ≡ prefix_of d.buffer
    → check_header d o ≡ go d'
    → check_header (buffered d t) (prefix_of (d.buffer ++ t)) ≡ go (buffered d' t)
unfolding check_header
check_header-buffered d d' none t e h = cc
check_header-buffered d d' (some p) t e h =
    rw (prefix_of_append d.buffer t p (sym e)) (ground arith)

read_header-buffered :
    (d d' : FrameDecoder) (t : List ℕ)
    → read_header d ≡ go d'
    → read_header (buffered d t) ≡ go (buffered d' t)
unfolding read_header
read_header-buffered d d' t h = elim (Bool-cases d.have_header) [
  | inl e ↦ ground arith
  | inr e ↦
      let k = check_header-buffered d d' (prefix_of d.buffer) t refl (ground arith) in ground arith
]

read_body-buffered :
    (d d' : FrameDecoder) (t : List ℕ)
    → read_body d ≡ go d'
    → read_body (buffered d t) ≡ go (buffered d' t)
unfolding read_body
read_body-buffered d d' t h = ground (
  arith,
  length-append d.buffer t,
  take-append d.needed d.buffer t,
  drop-append d.needed d.buffer t,
)

check_header_halt :
    (d d' : FrameDecoder) (o : Option (ℕ × ℕ × List ℕ)) (st : Status)
    → check_header d o ≡ halt st d'
    → is_ok st ≡ true
    → d' ≡ d
unfolding check_header too_long
check_header_halt d d' none st h k = ground arith
check_header_halt d d' (some p) st h k = ground arith

read_header_halt :
    (d d' : FrameDecoder) (st : Status) → read_header d ≡ halt st d' → is_ok st ≡ true → d' ≡ d
unfolding read_header
read_header_halt d d' st h k = elim (Bool-cases d.have_header) [
  | inl e ↦ ground arith
  | inr e ↦ check_header_halt d d' (prefix_of d.buffer) st (ground arith) k
]

read_body_halt : (d d' : FrameDecoder) (st : Status) → read_body d ≡ halt st d' → d' ≡ d
unfolding read_body
read_body_halt d d' st h = ground arith

-- Decoders whose next rounds agree end alike.
loop_of_round :
    (f g : ℕ) (d e : FrameDecoder)
    → debt d < suc f
    → debt e < suc g
    → round d ≡ round e
    → consume_loop (suc f) d ≡ consume_loop (suc g) e
unfolding consume_loop
loop_of_round f g d e h k r = elim (Phase-cases (round e)) [
  | inl (st, x, p) ↦ rw (r, p, consume_loop)
  | inr (x, p) ↦
      let s = round_go e x p in
      let s' = round_go d x (r ∙ p) in
      rw (r, p, consume_loop) (consume_loop-fuel f g x (omega arith) (omega arith))
]

round-buffered :
    (d d' : FrameDecoder) (t : List ℕ) → round d ≡ go d' → round (buffered d t) ≡ go (buffered d' t)
unfolding round
round-buffered d d' t h = elim (Phase-cases (read_header d)) [
  | inl (st, x, e) ↦ ground arith
  | inr (x, e) ↦ rw (read_header-buffered d x t e, round) (read_body-buffered x d' t (ground arith))
]

-- A round that waits for more bytes leaves a decoder that goes on as the one before would.
round_waits :
    (d d' : FrameDecoder) (st : Status) (t : List ℕ)
    → round d ≡ halt st d'
    → is_ok st ≡ true
    → round (buffered d t) ≡ round (buffered d' t)
unfolding round
round_waits d d' st t h k = elim (Phase-cases (read_header d)) [
  | inl (s, x, e) ↦ let same : d' ≡ d = read_header_halt d d' st (ground arith) k in rw same
  | inr (x, e) ↦
      let same : d' ≡ x = read_body_halt x d' st (ground arith) in
      let parsed = (read_header_go d x e).0 in
      rw (same, read_header-buffered d x t e, round) (unfold read_header in ground arith)
]

loop_buffered :
    (f g g' : ℕ) (d d' : FrameDecoder) (st : Status) (t : List ℕ)
    → consume_loop f d ≡ (st, d')
    → is_ok st ≡ true
    → debt d < f
    → debt (buffered d t) < g
    → debt (buffered d' t) < g'
    → consume_loop g (buffered d t) ≡ consume_loop g' (buffered d' t)
unfolding consume_loop
loop_buffered zero g g' d d' st t h k hf hg hg' = absurd (omega arith)
loop_buffered (suc f) zero g' d d' st t h k hf hg hg' = absurd (omega arith)
loop_buffered (suc f) (suc g) zero d d' st t h k hf hg hg' = absurd (omega arith)
loop_buffered (suc f) (suc g) (suc g') d d' st t h k hf hg hg' = elim (Phase-cases (round d)) [
  | inl (s, x, e) ↦
      let w = round_waits d d' st t (ground arith) k in
      loop_of_round g g' (buffered d t) (buffered d' t) hg hg' w
  | inr (x, e) ↦
      let e' = round-buffered d x t e in
      let l = round_go d x e in
      let l' = round_go (buffered d t) (buffered x t) e' in
      rw (e', consume_loop)
        (loop_buffered f g (suc g') x d' st t (ground arith) k (omega arith) (omega arith) hg')
]

-- Consume called on a piece and then, when that went well, on the next piece gives the status and
-- the decoder that one call on both pieces together gives.
pub consume-append :
    (d d' : FrameDecoder) (s t : List ℕ) (st : Status)
    → consume d s ≡ (st, d')
    → is_ok st ≡ true
    → consume d (s ++ t) ≡ consume d' t
unfolding consume
consume-append d d' s t st h k =
    subst (λ (b : List ℕ). finish (record d { buffer = b }) ≡ finish (buffered d' t))
      (append_assoc d.buffer s t)
      (loop_buffered (suc (debt (buffered d s))) (suc (debt (buffered (buffered d s) t)))
        (suc (debt (buffered d' t))) (buffered d s) d' st t h k (omega arith) (omega arith)
        (omega arith))
  where
    finish : FrameDecoder → Status × FrameDecoder
    finish x = consume_loop (suc (debt x)) x

-- An ok that the loop returns is the plain one.
Plain : Status × FrameDecoder → Type 0
Plain r = is_ok r.0 ≡ true → r.0 ≡ ok_status

check_header_plain :
    (d d' : FrameDecoder) (o : Option (ℕ × ℕ × List ℕ)) (st : Status)
    → check_header d o ≡ halt st d'
    → is_ok st ≡ true
    → st ≡ ok_status
unfolding check_header too_long
check_header_plain d d' none st h k = ground arith
check_header_plain d d' (some p) st h k = ground arith

round_plain :
    (d d' : FrameDecoder) (st : Status) → round d ≡ halt st d' → is_ok st ≡ true → st ≡ ok_status
unfolding round read_header read_body
round_plain d d' st h k = ground (arith, check_header_plain d d' (prefix_of d.buffer) st)

loop-Plain : (f : ℕ) (d : FrameDecoder) → Plain (consume_loop f d)
unfolding consume_loop Plain
loop-Plain zero d k = refl
loop-Plain (suc f) d k = elim (Phase-cases (round d)) [
  | inl (st, x, e) ↦ ground (arith, round_plain d x st e)
  | inr (x, e) ↦ rw (e, consume_loop) (loop-Plain f x (rw (e, consume_loop) at k))
]

check_header_fails :
    (d d' : FrameDecoder) (o : Option (ℕ × ℕ × List ℕ)) (st : Status) (t : List ℕ)
    → o ≡ prefix_of d.buffer
    → check_header d o ≡ halt st d'
    → is_ok st ≡ false
    → check_header (buffered d t) (prefix_of (d.buffer ++ t)) ≡ halt st (buffered d' t)
unfolding check_header
check_header_fails d d' none st t e h k = ground arith
check_header_fails d d' (some p) st t e h k =
    rw (prefix_of_append d.buffer t p (sym e)) (ground arith)

-- A refused header is refused whatever bytes follow.
round_fails :
    (d d' : FrameDecoder) (st : Status) (t : List ℕ)
    → round d ≡ halt st d'
    → is_ok st ≡ false
    → round (buffered d t) ≡ halt st (buffered d' t)
unfolding round read_header read_body
round_fails d d' st t h k = ground (arith, check_header_fails d d' (prefix_of d.buffer) st t refl)

loop_fails :
    (f g : ℕ) (d : FrameDecoder) (t : List ℕ)
    → is_ok (consume_loop f d).0 ≡ false
    → debt (buffered d t) < g
    → (consume_loop g (buffered d t)).0 ≡ (consume_loop f d).0
unfolding consume_loop
loop_fails zero g d t h hg = cc
loop_fails (suc f) zero d t h hg = absurd (omega arith)
loop_fails (suc f) (suc g) d t h hg = elim (Phase-cases (round d)) [
  | inl (st, x, e) ↦
      let bad : is_ok st ≡ false = ground arith in rw (e, round_fails d x st t e bad, consume_loop)
  | inr (x, e) ↦
      let e' = round-buffered d x t e in
      let l = round_go (buffered d t) (buffered x t) e' in
      rw (e, e', consume_loop) (loop_fails f g x t (rw (e, consume_loop) at h) (omega arith))
]

pub consume_plain :
    (d : FrameDecoder) (s : List ℕ) → is_ok (consume d s).0 ≡ true → (consume d s).0 ≡ ok_status
unfolding consume Plain
consume_plain d s h = loop-Plain (suc (debt (buffered d s))) (buffered d s) h

-- A framing error stays the outcome, whatever bytes follow in the same call.
pub consume_fails :
    (d : FrameDecoder) (s t : List ℕ)
    → is_ok (consume d s).0 ≡ false
    → (consume d (s ++ t)).0 ≡ (consume d s).0
unfolding consume
consume_fails d s t h =
    subst (λ (b : List ℕ). finish (record d { buffer = b }) ≡ finish (buffered d s))
      (append_assoc d.buffer s t)
      (loop_fails (suc (debt (buffered d s))) (suc (debt (buffered (buffered d s) t)))
        (buffered d s) t h (omega arith))
  where
    finish : FrameDecoder → Status
    finish x = (consume_loop (suc (debt x)) x).0
