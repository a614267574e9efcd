-- ===== src/Codec/Bounds.antt =====
-- What FrameDecoder of urpc/core/source/urpc_codec.cpp holds: its messages and its unread bytes.
use mathlib.Core.Path.{subst}
use u_rpc.Prelude.{
  ℕ, zero, suc, ◌≤◌, ◌<◌, ◌≡◌, refl, inl, inr, true, Option, none, some, [], ◌∷◌, ◌++◌, arith,
  length, length-take, All, All-append, Bool-cases, if◌then◌else◌, take, ltb,
}
use u_rpc.Prelude.Str.{Str}
use u_rpc.Status.{Status, is_ok}
use u_rpc.Codec.{
  FrameDecoder, Phase, halt, go, prefix_of, check_header, read_header, read_body, round,
  consume_loop, debt, buffered, consume, too_long,
}
use u_rpc.Codec.Fuel.{Phase-cases, read_header_go, round_go}

-- Messages within the limit, and an announced one too.
pub record IsBounded (d : FrameDecoder) : Type 0 where
  pub announced : d.have_header ≡ true → d.needed ≤ d.max_message_size
  pub received : All (λ m. length m ≤ d.max_message_size) d.messages

abbrev After : Phase → Type 0
After (halt st d) = IsBounded d
After (go d) = IsBounded d

check_header_bounded :
    (d : FrameDecoder) (o : Option (ℕ × ℕ × Str)) → IsBounded d → After (check_header d o)
unfolding check_header
check_header_bounded d none b = b
check_header_bounded d (some p) b = ground arith

read_header_bounded : (d : FrameDecoder) → IsBounded d → After (read_header d)
unfolding read_header
read_header_bounded d b = ground (arith, check_header_bounded d (prefix_of d.buffer) b)

received_body :
    (d : FrameDecoder)
    → IsBounded d
    → d.needed ≤ d.max_message_size
    → d.needed ≤ length d.buffer
    → All (λ m. length m ≤ d.max_message_size) (d.messages ++ take d.needed d.buffer ∷ [])
received_body d b h k =
    let t = length-take d.needed d.buffer k in
    All-append (λ (m : Str). length m ≤ d.max_message_size) d.messages _ b.received
      (omega arith, tt)

read_body_bounded : (d : FrameDecoder) → d.have_header ≡ true → IsBounded d → After (read_body d)
unfolding read_body
read_body_bounded d h b = elim (Bool-cases (ltb (length d.buffer) d.needed)) [
  | inl short ↦ rw short b
  | inr whole ↦
      rw whole (record {
        announced = λ x. cc;
        received = received_body d b (b.announced h) (ground arith);
      })
]

round_bounded : (d : FrameDecoder) → IsBounded d → After (round d)
unfolding round
round_bounded d b = elim (Phase-cases (read_header d)) [
  | inl (st, x, e) ↦ rw (e, round) (subst After e (read_header_bounded d b))
  | inr (x, e) ↦
      let bx : IsBounded x = subst After e (read_header_bounded d b) in
      rw (e, round) (read_body_bounded x (read_header_go d x e).0 bx)
]

loop-IsBounded : (f : ℕ) (d : FrameDecoder) → IsBounded d → IsBounded (consume_loop f d).1
unfolding consume_loop
loop-IsBounded zero d b = b
loop-IsBounded (suc f) d b = elim (Phase-cases (round d)) [
  | inl (st, x, e) ↦ rw (e, consume_loop) (subst After e (round_bounded d b))
  | inr (x, e) ↦ rw (e, consume_loop) (loop-IsBounded f x (subst After e (round_bounded d b)))
]

-- Consume keeps the decoder within its limit, whatever bytes it is given and whatever it returns:
-- no queued message, and no announced length, passes max_message_size.
pub consume-IsBounded : (d : FrameDecoder) (s : Str) → IsBounded d → IsBounded (consume d s).1
unfolding consume
consume-IsBounded d s b =
    loop-IsBounded (suc (debt (buffered d s))) (buffered d s)
      (record { announced = b.announced; received = b.received })

-- Not enough bytes for what is read next: the five of a header, or an announced message.
abbrev pub IsShort : FrameDecoder → Type 0
IsShort d = length d.buffer < (if d.have_header then d.needed else 5)

prefix_of-none : (s : Str) → prefix_of s ≡ none → length s < 5
unfolding prefix_of
prefix_of-none (f ∷ a ∷ b ∷ c ∷ e ∷ rest) h = cc
prefix_of-none _ h = omega arith

check_header_short :
    (d d' : FrameDecoder) (o : Option (ℕ × ℕ × Str)) (st : Status)
    → check_header d o ≡ halt st d'
    → is_ok st ≡ true
    → (o ≡ none) × (d' ≡ d)
unfolding check_header too_long
check_header_short d d' none st h k = (refl, ground arith)
check_header_short d d' (some p) st h k = ground arith

read_header-IsShort :
    (d d' : FrameDecoder) (st : Status) → read_header d ≡ halt st d' → is_ok st ≡ true → IsShort d'
unfolding read_header
read_header-IsShort d d' st h k = elim (Bool-cases d.have_header) [
  | inl e ↦ ground arith
  | inr e ↦
      let (p, q) = check_header_short d d' (prefix_of d.buffer) st (ground arith) k in
      let n = prefix_of-none d.buffer p in ground arith
]

read_body-IsShort :
    (d d' : FrameDecoder) (st : Status)
    → d.have_header ≡ true
    → read_body d ≡ halt st d'
    → IsShort d'
unfolding read_body
read_body-IsShort d d' st e h = ground arith

round-IsShort :
    (d d' : FrameDecoder) (st : Status) → round d ≡ halt st d' → is_ok st ≡ true → IsShort d'
unfolding round
round-IsShort d d' st h k = elim (Phase-cases (read_header d)) [
  | inl (s, x, e) ↦ read_header-IsShort d d' st (ground arith) k
  | inr (x, e) ↦ read_body-IsShort x d' st (read_header_go d x e).0 (ground arith)
]

loop-IsShort :
    (f : ℕ) (d : FrameDecoder)
    → debt d < f
    → is_ok (consume_loop f d).0 ≡ true
    → IsShort (consume_loop f d).1
unfolding consume_loop
loop-IsShort zero d k h = absurd (omega arith)
loop-IsShort (suc f) d k h = elim (Phase-cases (round d)) [
  | inl (st, x, e) ↦ rw (e, consume_loop) (round-IsShort d x st e (rw (e, consume_loop) at h))
  | inr (x, e) ↦
      let l = round_go d x e in
      rw (e, consume_loop) (loop-IsShort f x (omega arith) (rw (e, consume_loop) at h))
]

-- When Consume returns ok, it has read all that the bytes hold: less than a header, or less than
-- the announced message, is left in the buffer.
pub consume-IsShort :
    (d : FrameDecoder) (s : Str) → is_ok (consume d s).0 ≡ true → IsShort (consume d s).1
unfolding consume
consume-IsShort d s h = loop-IsShort (suc (debt (buffered d s))) (buffered d s) (omega arith) h
