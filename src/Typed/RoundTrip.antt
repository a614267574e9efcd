-- ===== src/Typed/RoundTrip.antt =====
-- Typed messages from the frames of a server to Read of a client: urpc/core/source/urpc_codec.cpp,
-- OnData of urpc/core/source/urpc_channel.cc and ClientReader of urpc/api/include/urpc/stream.h. What
-- upb encodes it decodes again.
use u_rpc.Prelude.{
  ℕ, ◌≡◌, refl, sym, ap, ◌∙◌, true, false, Option, some, List, [], ◌∷◌, ◌++◌, map, arith, ◌==◌,
  if◌then◌else◌, append-nil, append_assoc, All,
}
use u_rpc.Prelude.Str.{Str}
use u_rpc.Prelude.Map.{find}
use u_rpc.Status.{ok_status}
use u_rpc.Codec.{new_decoder}
use u_rpc.Codec.Feed.{joined}
use u_rpc.Codec.RoundTrip.{Fits, frames}
use u_rpc.Channel.State.{Channel, Stream, Fired, message, complete}
use u_rpc.Channel.Receives.{told, receive, messages_received}
use u_rpc.Typed.Channels.{Result, ApiChannel}
use u_rpc.Typed.Client.{new_stream, decode_payload}
use u_rpc.Typed.Reads.{
  StreamEvent, arrives, terminates, arrivals, arrivals-append, payloads, read_run, reads_in_order,
}

-- The callbacks of one stream in a log that has the newest first, oldest first.
abbrev pub event_for : ℕ → Fired → List StreamEvent
event_for id (message id' cb st payload) = if id' == id then arrives st payload ∷ [] else []
event_for id (complete id' cb st) = if id' == id then terminates st ∷ [] else []
event_for id _ = []

unfoldable pub events_for : ℕ → List Fired → List StreamEvent
events_for id [] = []
events_for id (f ∷ log) = events_for id log ++ event_for id f

arrivals_message :
    (id : ℕ) (cb : Option ℕ) (b : Str) (log : List Fired)
    → arrivals (events_for id (message id cb ok_status b ∷ log))
      ≡ arrivals (events_for id log) ++ b ∷ []
unfolding events_for arrivals
arrivals_message id cb b log =
    let self : (id == id) ≡ true = ground arith in
    rw self (arrivals-append (events_for id log) (arrives ok_status b ∷ []))

arrivals_told :
    (id : ℕ) (cb : Option ℕ) (bs : List Str) (log : List Fired)
    → arrivals (events_for id (told id cb bs log)) ≡ arrivals (events_for id log) ++ bs
unfolding told
arrivals_told id cb [] log = sym (append-nil (arrivals (events_for id log)))
arrivals_told id cb (b ∷ bs) log =
    arrivals_told id cb bs (message id cb ok_status b ∷ log)
    ∙ (ap (λ (xs : List Str). xs ++ bs) (arrivals_message id cb b log)
        ∙ append_assoc (arrivals (events_for id log)) (b ∷ []) bs)

abbrev pub good : {Res : Type 0} → Res → Result Res
good res = record { status = ok_status; value = some res }

module _ {Res : Type 0} (encode : Res → Option Str) (decode : Str → Option Res) where
  decoded_one : (m : Res) (b : Str) → decode b ≡ some m → decode_payload decode true b ≡ good m
  unfolding decode_payload
  decoded_one m b e = ground arith

  decoded :
      ((m : Res) (b : Str) → encode m ≡ some b → decode b ≡ some m)
      → (ms : List Res) (bs : List Str) → map encode ms ≡ map some bs
      → map (decode_payload decode true) bs ≡ map good ms
  decoded inverse [] [] e = refl
  decoded inverse [] (b ∷ bs) e = absurd (cc)
  decoded inverse (m ∷ ms) [] e = absurd (cc)
  decoded inverse (m ∷ ms) (b ∷ bs) e =
      rw (decoded_one m b (inverse m b cc)) (ap (◌∷◌ (good m)) (decoded inverse ms bs cc))

  -- Messages that upb encodes, as frames that fit the limit, cut into pieces anywhere and received on an
  -- open stream of a channel: whatever the interleaving of the callbacks with calls of Read, what Read
  -- has given and what waits for it decode to exactly those messages, in order; where upb decodes what
  -- it encodes and an arena is there.
  pub round_trip :
      ((m : Res) (b : Str) → encode m ≡ some b → decode b ≡ some m)
      → (ms : List Res) (bs chunks : List Str) (sid id limit : ℕ) (st : Stream) (c : Channel)
        (es : List StreamEvent) (ch : Option ApiChannel)
      → map encode ms ≡ map some bs
      → All (Fits limit) bs
      → joined chunks ≡ frames bs
      → find sid c.stream_by_sid ≡ some id
      → find id c.streams ≡ some st
      → st.completed ≡ false
      → st.decoder ≡ new_decoder limit
      → c.fired ≡ []
      → arrivals es ≡ arrivals (events_for id (receive sid chunks c).fired)
      → map (decode_payload decode true) (
          payloads (read_run es ([], new_stream ch)).0
          ++ (read_run es ([], new_stream ch)).1.messages)
        ≡ map good ms
  unfolding new_stream payloads events_for arrivals
  round_trip inverse ms bs chunks sid id limit st c es ch encoded fits whole by_sid here going fresh
        silent interleaved =
      ap (map (decode_payload decode true)) (reads_in_order es [] (new_stream ch) ∙ arrived)
      ∙ decoded inverse ms bs encoded
    where
      arrived : arrivals es ≡ bs
      arrived =
          interleaved
          ∙ (ap (λ log. arrivals (events_for id log))
                (messages_received sid id limit bs chunks st c by_sid here going fresh fits whole)
              ∙ (arrivals_told id st.events.on_message bs c.fired
                  ∙ ap (λ log. arrivals (events_for id log) ++ bs) silent))
