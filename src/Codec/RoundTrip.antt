-- ===== src/Codec/RoundTrip.antt =====
-- What FrameDecoder makes of the bytes that EncodeFrame writes, however they are cut.
use u_rpc.Prelude.{
  ℕ, zero, suc, ◌/◌, ◌%◌, ◌^◌, ◌≤◌, ◌<◌, ◌≡◌, refl, ap, ◌∙◌, true, false, some, List, [], ◌∷◌, ◌++◌,
  arith, length, append-nil, take-length, drop-length, length-append, append_assoc, All,
}
use u_rpc.Prelude.Str.{Str}
use u_rpc.Status.{ok_status}
use u_rpc.Codec.{
  FrameDecoder, halt, go, prefix_of, check_header, read_header, read_body, round, consume_loop,
  debt, buffered, consume, encode_frame, new_decoder, u32be,
}
use u_rpc.Codec.Fuel.{round_go}
use u_rpc.Codec.Feed.{feed, joined, feed-joined}

-- EncodeFrame for one message after another.
unfoldable pub frames : List Str → Str
frames [] = []
frames (m ∷ ms) = encode_frame m [] ++ frames ms

-- A message that the limit admits, and that a uint32_t can measure.
abbrev pub Fits : ℕ → Str → Type 0
Fits limit m = (length m ≤ limit) × (length m < 2 ^ 32)

u32be_bytes :
    (v : ℕ)
    → v < 2 ^ 32
    → u32be ((v / 2 ^ 24) % 256) ((v / 2 ^ 16) % 256) ((v / 2 ^ 8) % 256) (v % 256) ≡ v
u32be_bytes v h = omega arith

-- What the prefix of a frame reads as.
pub prefix_of-encode_frame :
    (m rest : Str)
    → length m < 2 ^ 32
    → prefix_of (encode_frame m [] ++ rest) ≡ some (0, length m, m ++ rest)
unfolding prefix_of encode_frame
prefix_of-encode_frame m rest h =
    let n : length m % 2 ^ 32 ≡ length m = omega arith in
    let e = u32be_bytes (length m) h in rw n (cc e)

abbrev pub with_message : FrameDecoder → Str → FrameDecoder
with_message d m = record d {
  messages = d.messages ++ m ∷ [];
  flag = 0;
  needed = 0;
  have_header = false;
}

abbrev parsed : FrameDecoder → ℕ → Str → FrameDecoder
parsed d n rest = record d { flag = 0; needed = n; have_header = true; buffer = rest }

check_header_fits :
    (d : FrameDecoder) (n : ℕ) (rest : Str)
    → n ≤ d.max_message_size
    → check_header d (some (0, n, rest)) ≡ go (parsed d n rest)
unfolding check_header
check_header_fits d n rest h = ground arith

read_header_fits :
    (d : FrameDecoder) (n : ℕ) (rest : Str)
    → d.have_header ≡ false
    → n ≤ d.max_message_size
    → prefix_of d.buffer ≡ some (0, n, rest)
    → read_header d ≡ go (parsed d n rest)
unfolding read_header
read_header_fits d n rest h k e = ground (arith, check_header_fits d n rest k)

read_body_fits :
    (d : FrameDecoder) (m rest : Str)
    → read_body (parsed d (length m) (m ++ rest)) ≡ go (record (with_message d m) { buffer = rest })
unfolding read_body
read_body_fits d m rest =
    ground (arith, length-append m rest, take-length m rest, drop-length m rest)

-- A header that admits the message, and the message, are one round.
round_frame :
    (d : FrameDecoder) (m rest : Str)
    → d.have_header ≡ false
    → Fits d.max_message_size m
    → prefix_of d.buffer ≡ some (0, length m, m ++ rest)
    → round d ≡ go (record (with_message d m) { buffer = rest })
unfolding round
round_frame d m rest h (fits, short) e =
    ground (arith, read_header_fits d (length m) (m ++ rest) h fits e, read_body_fits d m rest)

abbrev with_messages : FrameDecoder → List Str → FrameDecoder
with_messages d ms = record d { messages = d.messages ++ ms }

round_empty :
    (d : FrameDecoder) → d.have_header ≡ false → d.buffer ≡ [] → round d ≡ halt ok_status d
unfolding round read_header check_header prefix_of
round_empty d h e = ground arith

loop_frames :
    (fuel : ℕ) (d : FrameDecoder) (ms : List Str)
    → d.have_header ≡ false
    → d.needed ≡ 0
    → d.flag ≡ 0
    → All (Fits d.max_message_size) ms
    → d.buffer ≡ frames ms
    → debt d < fuel
    → consume_loop fuel d ≡ (ok_status, record (with_messages d ms) { buffer = [] })
unfolding consume_loop
loop_frames zero d ms h n f fits e k = absurd (omega arith)
loop_frames (suc fuel) d [] h n f fits e k =
    let e' : d.buffer ≡ [] = unfold frames in e in
    rw (round_empty d h e', consume_loop) (ground (arith, append-nil d.messages))
loop_frames (suc fuel) d (m ∷ ms) h n f fits e k =
    let e' : prefix_of d.buffer ≡ some (0, length m, m ++ frames ms) =
      unfold frames in rw e (prefix_of-encode_frame m (frames ms) fits.0.1) in
    let r = round_frame d m (frames ms) h fits.0 e' in
    rw (r, consume_loop)
      (loop_frames fuel (record (with_message d m) { buffer = frames ms }) ms refl refl refl fits.1
          refl (let s = round_go d _ r in omega arith)
        ∙ ground (arith, append_assoc d.messages (m ∷ []) ms))

-- Every frame, in order, comes out of one call.
pub consume-frames :
    (limit : ℕ) (ms : List Str)
    → All (Fits limit) ms
    → consume (new_decoder limit) (frames ms)
      ≡ (ok_status, record (new_decoder limit) { messages = ms })
unfolding consume new_decoder
consume-frames limit ms fits =
    loop_frames (suc (debt (buffered (new_decoder limit) (frames ms))))
      (buffered (new_decoder limit) (frames ms)) ms refl refl refl fits refl (omega arith)

-- The frames of messages that fit the limit, cut into pieces anywhere and fed one by one, give
-- exactly those messages in order, with status ok and nothing left in the buffer.
pub feed-frames :
    (limit : ℕ) (ms chunks : List Str)
    → All (Fits limit) ms
    → joined chunks ≡ frames ms
    → feed (new_decoder limit) chunks ≡ (ok_status, record (new_decoder limit) { messages = ms })
unfolding frames new_decoder
feed-frames limit ms chunks fits e =
    let whole = ap (consume (new_decoder limit)) e ∙ consume-frames limit ms fits in
    let start = consume-frames limit [] tt in
    (feed-joined (new_decoder limit) chunks start).1 (rw whole) ∙ whole
