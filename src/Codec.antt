-- ===== src/Codec.antt =====
-- urpc/core/include/urpc/core/codec.h and urpc/core/source/urpc_codec.cpp: the five-byte message
-- prefix, and the incremental decoder. Bytes are numbers below 256.
pub mod Fuel
pub mod Chunks
pub mod Feed
pub mod Bounds
pub mod RoundTrip
pub mod Taken
use u_rpc.Prelude.{
  ℕ, zero, suc, ◌+◌, ◌*◌, ◌/◌, ◌%◌, ◌^◌, Bool, true, false, not, Option, none, some, List, [], ◌∷◌,
  ◌++◌, ltb, ◌==◌, if◌then◌else◌, length, take, drop, is_empty,
}
use u_rpc.Prelude.Str.{Str, codes, to_string}
use u_rpc.Status.{Status, ok, internal, resource_exhausted, ok_status, status}

-- Appends a uint32_t, most significant byte first.
unfoldable pub append_u32be : Str → ℕ → Str
append_u32be out v =
    out ++ (v / 2 ^ 24) % 256 ∷ (v / 2 ^ 16) % 256 ∷ (v / 2 ^ 8) % 256 ∷ v % 256 ∷ []

-- EncodeFrame: a zero flag, the length as a uint32_t, the message.
unfoldable pub encode_frame : Str → Str → Str
unfolding append_u32be
encode_frame msg out = append_u32be (out ++ 0 ∷ []) (length msg % 2 ^ 32) ++ msg

pub record FrameDecoder : Type 0 where
  pub max_message_size : ℕ
  pub buffer : Str
  pub needed : ℕ
  pub have_header : Bool
  pub flag : ℕ
  pub messages : List Str
  pub message_count : ℕ

unfoldable pub new_decoder : ℕ → FrameDecoder
new_decoder limit = record {
  max_message_size = limit;
  buffer = [];
  needed = 0;
  have_header = false;
  flag = 0;
  messages = [];
  message_count = 0;
}

-- What one half of a round of the loop of Consume does: return a status, or go on.
pub data Phase : Type 0 where
  halt : Status → FrameDecoder → Phase
  go : FrameDecoder → Phase

-- The uint32_t of four bytes; on bytes the `|` of the shifted parts is their sum.
abbrev pub u32be : ℕ → ℕ → ℕ → ℕ → ℕ
u32be a b c d = a * 2 ^ 24 + b * 2 ^ 16 + c * 2 ^ 8 + d

-- The flag, the length and the rest of a buffer of at least `kPrefixLen` bytes.
unfoldable pub prefix_of : Str → Option (ℕ × ℕ × Str)
prefix_of (f ∷ a ∷ b ∷ c ∷ d ∷ rest) = some (f, u32be a b c d, rest)
prefix_of _ = none

abbrev pub compressed : Status
compressed = status internal (codes "compressed messages are not supported")

pub too_long : ℕ → ℕ → Status
too_long mlen limit = status resource_exhausted (
    codes "message of "
    ++ (to_string mlen ++ (codes " bytes exceeds limit of " ++ to_string limit)))

unfoldable pub check_header : FrameDecoder → Option (ℕ × ℕ × Str) → Phase
check_header d none = halt ok_status d
check_header d (some (f, mlen, rest)) =
    if not (f == 0)
    then halt compressed (record d { flag = f })
    else (if ltb d.max_message_size mlen
        then halt (too_long mlen d.max_message_size) (record d { flag = f })
        else go (record d { flag = f; needed = mlen; have_header = true; buffer = rest }))

unfoldable pub read_header : FrameDecoder → Phase
read_header d = if d.have_header then go d else check_header d (prefix_of d.buffer)

unfoldable pub read_body : FrameDecoder → Phase
read_body d =
    if ltb (length d.buffer) d.needed
    then halt ok_status d
    else go (record d {
      messages = d.messages ++ take d.needed d.buffer ∷ [];
      buffer = drop d.needed d.buffer;
      have_header = false;
      needed = 0;
    })

-- One round of the loop.
unfoldable pub round : FrameDecoder → Phase
round d = elim (read_header d) [ halt st d' ↦ halt st d' | go d' ↦ read_body d' ]

-- The `while (true)` of Consume. A round takes the header or the body off the decoder's debt, and
-- `consume` gives more fuel than that.
unfoldable pub consume_loop : ℕ → FrameDecoder → Status × FrameDecoder
consume_loop zero d = (ok_status, d)
consume_loop (suc fuel) d = elim (round d) [ halt st d' ↦ (st, d') | go d' ↦ consume_loop fuel d' ]

-- The rounds that may be left: a parsed header is paid for by its body, a new one by five bytes.
abbrev pub debt : FrameDecoder → ℕ
debt d = length d.buffer + (if d.have_header then 1 else 0)

abbrev pub buffered : FrameDecoder → Str → FrameDecoder
buffered d bytes = record d { buffer = d.buffer ++ bytes }

-- FrameDecoder::Consume
unfoldable pub consume : FrameDecoder → Str → Status × FrameDecoder
unfolding consume_loop round read_header check_header prefix_of read_body
consume d bytes = let d' = buffered d bytes in consume_loop (suc (debt d')) d'

abbrev pub has_message : FrameDecoder → Bool
has_message d = not (is_empty d.messages)

-- std::queue::front and pop; on an empty queue the source's callers do not get here.
take_front : FrameDecoder → List Str → Str × FrameDecoder
take_front d [] = ([], d)
take_front d (m ∷ ms) = (m, record d { messages = ms; message_count = d.message_count + 1 })

-- FrameDecoder::TakeMessage
unfoldable pub take_message : FrameDecoder → Str × FrameDecoder
unfolding take_front
take_message d = take_front d d.messages
