-- ===== src/Channel/Receives.antt =====
-- The messages of a stream: OnData of urpc/core/source/urpc_channel.cc over the decoder.
use mathlib.Core.Path.{subst}
use u_rpc.Prelude.{
  ℕ, ◌≡◌, refl, sym, ap, ◌∙◌, inl, inr, true, false, Option, some, List, [], ◌∷◌, ◌++◌, arith,
  Bool-cases, append-nil, All,
}
use u_rpc.Prelude.Str.{Str}
use u_rpc.Prelude.Map.{find, find-insert_self}
use u_rpc.Status.{Status, is_ok, ok_status}
use u_rpc.Codec.{FrameDecoder, consume, new_decoder}
use u_rpc.Codec.Feed.{feed, joined, Settled, consume-Settled}
use u_rpc.Codec.Chunks.{consume_plain}
use u_rpc.Codec.RoundTrip.{Fits, frames, feed-frames, consume-frames}
use u_rpc.Codec.Taken.{behind, consume-behind}
use u_rpc.Channel.State.{Channel, Stream, Fired, message}
use u_rpc.Channel.Streams.{put_stream}
use u_rpc.Channel.Session.{emptied, report_messages, stream_data, on_data}

-- The calls of on_message for some messages, put on a log that has the newest first.
unfoldable pub told : ℕ → Option ℕ → List Str → List Fired → List Fired
told id cb [] log = log
told id cb (m ∷ ms) log = told id cb ms (message id cb ok_status m ∷ log)

-- The session hands over the DATA of a stream in pieces.
unfoldable pub receive : ℕ → List Str → Channel → Channel
receive sid [] c = c
receive sid (s ∷ ss) c = receive sid ss (on_data sid s c)

abbrev pub IsOpen : ℕ → ℕ → Stream → Channel → Type 0
IsOpen sid id st c =
    (find sid c.stream_by_sid ≡ some id) × (find id c.streams ≡ some st) × (st.completed ≡ false)

told-append :
    (id : ℕ) (cb : Option ℕ) (ms ns : List Str) (log : List Fired)
    → told id cb (ms ++ ns) log ≡ told id cb ns (told id cb ms log)
unfolding told
told-append id cb [] ns log = refl
told-append id cb (m ∷ ms) ns log = told-append id cb ms ns (message id cb ok_status m ∷ log)

report_messages-told :
    (id : ℕ) (cb : Option ℕ) (ms : List Str) (c : Channel)
    → report_messages id cb ms c ≡ record c { fired = told id cb ms c.fired }
unfolding report_messages told
report_messages-told id cb [] c = refl
report_messages-told id cb (m ∷ ms) c =
    report_messages-told id cb ms (record c { fired = message id cb ok_status m ∷ c.fired })

on_data_open :
    (sid id : ℕ) (st : Stream) (bytes : Str) (c : Channel)
    → IsOpen sid id st c
    → on_data sid bytes c ≡ stream_data id st bytes c
unfolding on_data
on_data_open sid id st bytes c (by_sid, here, going) = ground arith

stream_data_good :
    (id b : ℕ) (bs : Str) (st : Stream) (c : Channel)
    → is_ok (consume st.decoder (b ∷ bs)).0 ≡ true
    → stream_data id st (b ∷ bs) c
      ≡ report_messages id st.events.on_message
          (consume st.decoder (b ∷ bs)).1.messages
          (put_stream id (record st { decoder = emptied (consume st.decoder (b ∷ bs)).1 }) c)
unfolding stream_data
stream_data_good id b bs st c e = rw e

feed_good :
    (d : FrameDecoder) (s : Str) (ss : List Str)
    → is_ok (feed d (s ∷ ss)).0 ≡ true
    → (is_ok (consume d s).0 ≡ true) × (feed d (s ∷ ss) ≡ feed (consume d s).1 ss)
unfolding feed
feed_good d s ss good = elim (Bool-cases (is_ok (consume d s).0)) [
  | inl e ↦ (e, rw e)
  | inr e ↦ absurd (ground arith)
]

module _ (sid id : ℕ) (cb : Option ℕ) (start : List Fired) where
  -- What the log says where a decoder that keeps its messages stands at `r`.
  abbrev Told : FrameDecoder → ℕ → Stream → Channel → Type 0
  Told r k st c =
      IsOpen sid id st c
      × (st.events.on_message ≡ cb)
      × (st.decoder ≡ record r { messages = []; message_count = k })
      × (c.fired ≡ told id cb r.messages start)

  -- The decoder that keeps its messages, and the one that they are taken from, on the next piece.
  consume-kept :
      (r : FrameDecoder) (k : ℕ) (s : Str)
      → let (st, d) = consume (record r { messages = []; message_count = k }) s in
        consume r s ≡ (st, behind r.messages r.message_count d)
  consume-kept r k s =
      ap (λ (x : FrameDecoder). consume x s)
        (ap (λ (ms : List Str). record r { messages = ms }) (sym (append-nil r.messages)))
      ∙ consume-behind r.messages r.message_count (record r { messages = []; message_count = k }) s

  take_piece :
      (r : FrameDecoder) (k b : ℕ) (bs : Str) (st : Stream) (c : Channel)
      → is_ok (consume r (b ∷ bs)).0 ≡ true
      → Told r k st c
      → (st' : Stream) × (k' : ℕ) × Told (consume r (b ∷ bs)).1 k' st' (on_data sid (b ∷ bs) c)
  take_piece r k b bs st c good ((by_sid, here, going), event, taken, log) = (
    st',
    k',
    subst (Told (consume r s).1 k' st') (sym after)
        (subst (λ x. Told x k' st' c') (sym (ap (λ (p : Status × FrameDecoder). p.1) kept)) base),
  )
    where
      s : Str
      s = b ∷ bs

      d : FrameDecoder
      d = (consume st.decoder s).1

      k' : ℕ
      k' = (emptied d).message_count

      st' : Stream
      st' = record st { decoder = emptied d }

      c' : Channel
      c' = record (put_stream id st' c) { fired = told id st.events.on_message d.messages c.fired }

      kept : consume r s ≡ ((consume st.decoder s).0, behind r.messages r.message_count d)
      kept =
          subst
            (λ (x : FrameDecoder).
              consume r s ≡ ((consume x s).0, behind r.messages r.message_count (consume x s).1))
            (sym taken) (consume-kept r k s)

      after : on_data sid s c ≡ c'
      after =
          on_data_open sid id st s c (by_sid, here, going)
          ∙ (stream_data_good id b bs st c
                (sym (ap (λ (p : Status × FrameDecoder). is_ok p.0) kept) ∙ good)
              ∙ report_messages-told id st.events.on_message d.messages (put_stream id st' c))

      base : Told (behind r.messages r.message_count d) k' st' c'
      base = (
        (by_sid, find-insert_self id st' c.streams, going),
        event,
        refl,
        ap (λ x. told id x d.messages c.fired) event
            ∙ (ap (told id cb d.messages) log
                ∙ sym (told-append id cb r.messages d.messages start)),
      )

  take_nothing :
      (r : FrameDecoder) (k : ℕ) (st : Stream) (c : Channel) → Told r k st c → on_data sid [] c ≡ c
  unfolding stream_data
  take_nothing r k st c (opened, event, taken, log) = on_data_open sid id st [] c opened

  -- Every piece, while the decoder that keeps its messages reads well.
  receive-told :
      (chunks : List Str) (r : FrameDecoder) (k : ℕ) (st : Stream) (c : Channel)
      → Settled r
      → is_ok (feed r chunks).0 ≡ true
      → Told r k st c
      → (receive sid chunks c).fired ≡ told id cb (feed r chunks).1.messages start
  unfolding feed receive
  receive-told [] r k st c settled good (opened, event, taken, log) = log
  receive-told ([] ∷ ss) r k st c settled good h =
      let (e, next) = feed_good r [] ss good in
      let same : feed r ([] ∷ ss) ≡ feed r ss =
        next ∙ ap (λ (p : Status × FrameDecoder). feed p.1 ss) settled in
      let ih =
        receive-told ss r k st c settled
          (sym (ap (λ (p : Status × FrameDecoder). is_ok p.0) same) ∙ good) h in
      ap (λ (c : Channel). (receive sid ss c).fired) (take_nothing r k st c h)
      ∙ (ih ∙ ap (λ (p : Status × FrameDecoder). told id cb p.1.messages start) (sym same))
  receive-told ((b ∷ bs) ∷ ss) r k st c settled good h =
      let s : Str = b ∷ bs in
      let (e, next) = feed_good r s ss good in
      let (st', k', h') = take_piece r k b bs st c e h in
      let same = consume_plain r s e in
      let r' = (consume r s).1 in
      let whole : consume r s ≡ (ok_status, r') = ground (arith, same) in
      receive-told ss r' k' st' (on_data sid s c) (consume-Settled r r' s whole)
        (sym (ap (λ (p : Status × FrameDecoder). is_ok p.0) next) ∙ good) h'
      ∙ ap (λ (p : Status × FrameDecoder). told id cb p.1.messages start) (sym next)

-- The frames of messages that fit the limit, cut into pieces anywhere and handed to OnData one by one:
-- on_message is called once for each message, in order and with status ok, and nothing else is called;
-- on a stream that is open and that has received nothing yet.
pub messages_received :
    (sid id limit : ℕ) (ms chunks : List Str) (st : Stream) (c : Channel)
    → find sid c.stream_by_sid ≡ some id
    → find id c.streams ≡ some st
    → st.completed ≡ false
    → st.decoder ≡ new_decoder limit
    → All (Fits limit) ms
    → joined chunks ≡ frames ms
    → (receive sid chunks c).fired ≡ told id st.events.on_message ms c.fired
unfolding new_decoder told frames
messages_received sid id limit ms chunks st c by_sid here going fresh fits whole =
    let fed = feed-frames limit ms chunks fits whole in
    receive-told sid id st.events.on_message c.fired chunks (new_decoder limit) 0 st c
      (consume-frames limit [] tt) (ap (λ (p : Status × FrameDecoder). is_ok p.0) fed)
      ((by_sid, here, going), refl, fresh, refl)
    ∙ ap (λ (p : Status × FrameDecoder). told id st.events.on_message p.1.messages c.fired) fed
