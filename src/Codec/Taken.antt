-- ===== src/Codec/Taken.antt =====
-- FrameDecoder::Consume where the messages were taken out in between (urpc/core/source/urpc_codec.cpp):
-- the queue plays no part in what is decoded.
use u_rpc.Prelude.{
  ℕ, zero, suc, ◌≡◌, refl, ap, Bool, ◌∙◌, inl, inr, true, false, Option, none, some, List, [], ◌∷◌,
  ◌++◌, arith, Bool-cases, append_assoc, if◌then◌else◌, ltb, length, take,
}
use u_rpc.Prelude.Str.{Str}
use u_rpc.Status.{Status, is_ok}
use u_rpc.Codec.{
  FrameDecoder, Phase, halt, go, prefix_of, check_header, read_header, read_body, round,
  consume_loop, debt, buffered, consume,
}
use u_rpc.Codec.Feed.{feed}

-- A decoder with other messages in front of its own, and another count.
abbrev pub behind : List Str → ℕ → FrameDecoder → FrameDecoder
behind xs n d = record d { messages = xs ++ d.messages; message_count = n }

abbrev behind_phase : List Str → ℕ → Phase → Phase
behind_phase xs n (halt st d) = halt st (behind xs n d)
behind_phase xs n (go d) = go (behind xs n d)

module _ (xs : List Str) (n : ℕ) where
  check_header-behind :
      (d : FrameDecoder) (o : Option (ℕ × ℕ × Str))
      → check_header (behind xs n d) o ≡ behind_phase xs n (check_header d o)
  unfolding check_header
  check_header-behind d none = refl
  check_header-behind d (some (f, mlen, rest)) = ground arith

  choice :
      (b : Bool) (p q p' q' : Phase)
      → p' ≡ behind_phase xs n p
      → q' ≡ behind_phase xs n q
      → (if b then p' else q') ≡ behind_phase xs n (if b then p else q)
  choice true p q p' q' h k = h
  choice false p q p' q' h k = k

  read_header-behind :
      (d : FrameDecoder) → read_header (behind xs n d) ≡ behind_phase xs n (read_header d)
  unfolding read_header
  read_header-behind d =
      choice d.have_header (go d) (check_header d (prefix_of d.buffer)) _ _ refl
        (check_header-behind d (prefix_of d.buffer))

  read_body-behind :
      (d : FrameDecoder) → read_body (behind xs n d) ≡ behind_phase xs n (read_body d)
  unfolding read_body
  read_body-behind d = elim (Bool-cases (ltb (length d.buffer) d.needed)) [
    | inl e ↦ rw e
    | inr e ↦ rw (e, append_assoc xs d.messages (take d.needed d.buffer ∷ []))
  ]

  abbrev body_of : Phase → Phase
  body_of (halt st d) = halt st d
  body_of (go d) = read_body d

  round-behind : (d : FrameDecoder) → round (behind xs n d) ≡ behind_phase xs n (round d)
  unfolding round
  round-behind d = ap body_of (read_header-behind d) ∙ rest (read_header d)
    where
      rest : (p : Phase) → body_of (behind_phase xs n p) ≡ behind_phase xs n (body_of p)
      rest (halt st d) = refl
      rest (go d) = read_body-behind d

  abbrev behind_result : Status × FrameDecoder → Status × FrameDecoder
  behind_result (st, d) = (st, behind xs n d)

  consume_loop-behind :
      (fuel : ℕ) (d : FrameDecoder)
      → consume_loop fuel (behind xs n d) ≡ behind_result (consume_loop fuel d)
  unfolding consume_loop
  consume_loop-behind zero d = refl
  consume_loop-behind (suc fuel) d =
      ap loop_of (round-behind d) ∙ rest (round d) (consume_loop-behind fuel)
    where
      loop_of : Phase → Status × FrameDecoder
      loop_of p = elim p [ halt st d' ↦ (st, d') | go d' ↦ consume_loop fuel d' ]

      rest :
          (p : Phase)
          → ((d' : FrameDecoder)
              → consume_loop fuel (behind xs n d') ≡ behind_result (consume_loop fuel d'))
          → loop_of (behind_phase xs n p) ≡ behind_result (loop_of p)
      rest (halt st d') ih = refl
      rest (go d') ih = ih d'

  pub consume-behind :
      (d : FrameDecoder) (s : Str) → consume (behind xs n d) s ≡ behind_result (consume d s)
  unfolding consume
  consume-behind d s = consume_loop-behind (suc (debt (buffered d s))) (buffered d s)

  pub feed-behind :
      (chunks : List Str) (d : FrameDecoder)
      → feed (behind xs n d) chunks ≡ behind_result (feed d chunks)
  unfolding feed
  feed-behind [] d = refl
  feed-behind (s ∷ ss) d = elim (Bool-cases (is_ok (consume d s).0)) [
    | inl e ↦ rw (consume-behind d s, e) (feed-behind ss (consume d s).1)
    | inr e ↦ rw (consume-behind d s, e)
  ]
