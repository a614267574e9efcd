-- ===== src/Codec/Feed.antt =====
-- FrameDecoder::Consume called once for each piece that the transport delivers.
use u_rpc.Prelude.{
  ◌≡◌, refl, sym, ap, ◌∙◌, inl, inr, true, List, [], ◌∷◌, ◌++◌, arith, append-nil, Bool-cases,
  if◌then◌else◌,
}
use u_rpc.Prelude.Str.{Str}
use u_rpc.Status.{Status, is_ok, ok_status}
use u_rpc.Codec.{FrameDecoder, consume}
use u_rpc.Codec.Chunks.{consume-append, consume_plain, consume_fails}

-- Up to the first status that is not ok, where the callers stop.
unfoldable pub feed : FrameDecoder → List Str → Status × FrameDecoder
feed d [] = (ok_status, d)
feed d (s ∷ ss) =
    let (st, d') = consume d s in let rest = feed d' ss in if is_ok st then rest else (st, d')

unfoldable pub joined : List Str → Str
joined [] = []
joined (s ∷ ss) = s ++ joined ss

-- A decoder that has nothing left to read in its buffer.
abbrev pub Settled : FrameDecoder → Type 0
Settled d = consume d [] ≡ (ok_status, d)

pub consume-Settled : (d d' : FrameDecoder) (s : Str) → consume d s ≡ (ok_status, d') → Settled d'
consume-Settled d d' s h =
    sym (consume-append d d' s [] ok_status h refl) ∙ ap (consume d) (append-nil s) ∙ h

-- Cutting the bytes into pieces changes neither the status nor, where that is ok, the decoder.
pub feed-joined :
    (d : FrameDecoder) (chunks : List Str)
    → Settled d
    → ((feed d chunks).0 ≡ (consume d (joined chunks)).0)
      × (is_ok (consume d (joined chunks)).0 ≡ true → feed d chunks ≡ consume d (joined chunks))
unfolding feed joined
feed-joined d [] h = (rw h, λ _. sym h)
feed-joined d (s ∷ ss) h = elim (Bool-cases (is_ok (consume d s).0)) [
  | inl good ↦
      let p = consume_plain d s good in
      let d' = (consume d s).1 in
      let e : consume d s ≡ (ok_status, d') = ground (arith, p) in
      let step = consume-append d d' s (joined ss) ok_status e refl in
      let ih = feed-joined d' ss (consume-Settled d d' s e) in rw (good, step) ih
  | inr bad ↦ let same = consume_fails d s (joined ss) bad in (rw bad (sym same), λ k. cc)
]
