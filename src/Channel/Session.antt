-- ===== src/Channel/Session.antt =====
-- What the session and the socket report: OnHeadersComplete, OnData, OnStreamClose, the callback of
-- TcpConnect and OnConnectionLost of urpc/core/source/urpc_channel.cc.
use u_rpc.Prelude.{
  ℕ, ◌+◌, Bool, true, false, not, ◌||◌, Option, none, some, List, [], ◌∷◌, if◌then◌else◌, is_empty,
  is_some, length,
}
use u_rpc.Prelude.Str.{Str, codes, str_eq}
use u_rpc.Prelude.Number.{ℤ, stoi}
use u_rpc.Prelude.Map.{Map, find, insert, erase}
use u_rpc.Status.{Status, StatusCode, status, is_ok, ok_status, unavailable, internal, of_int}
use u_rpc.Codec.{FrameDecoder, consume, has_message, take_message}
use u_rpc.Wire.{Headers, field}
use u_rpc.Channel.State.{
  State, ready, broken, Call, Stream, PendingStream, Channel, message, done, fire, stopped,
}
use u_rpc.Channel.Calls.{complete_call, fail_pending, start_pending}
use u_rpc.Channel.Streams.{put_stream, complete_stream, fail_stream, start_pending_streams}

-- GrpcStatusFromInt by what std::stoi makes of the text.
abbrev pub code_or : StatusCode → Option ℤ → StatusCode
code_or fallback none = fallback
code_or fallback (some n) = of_int n

unfoldable pub grpc_status_from_int : Str → StatusCode → StatusCode
unfolding of_int stoi
grpc_status_from_int v fallback = code_or fallback (stoi v)

abbrev pub text_or_empty : Option Str → Str
text_or_empty none = []
text_or_empty (some s) = s

-- The status of a terminal header block, if it is one.
unfoldable pub terminal_status : Headers → Option Status
unfolding grpc_status_from_int
terminal_status hs = elim (field (codes "grpc-status") hs) [
  | none ↦ none
  | some v ↦
      some
        (status (grpc_status_from_int v internal) (text_or_empty (field (codes "grpc-message") hs)))
]

-- Whether `:status` is there and is 200.
abbrev pub is_200 : Option Str → Bool
is_200 none = false
is_200 (some s) = str_eq s (codes "200")

abbrev pub bad_http : Status
bad_http = status unavailable (codes "unexpected http status")

-- OnHeadersComplete on the stream `id` that is not complete.
unfoldable pub stream_headers : ℕ → Stream → Headers → Channel → Channel
unfolding terminal_status complete_stream
stream_headers id st hs c = elim (terminal_status hs) [
  | some s ↦ complete_stream id st s c
  | none ↦ if is_200 (field (codes ":status") hs) then c else complete_stream id st bad_http c
]

-- The message of a call that is delivered with its status.
abbrev pub payload_of : FrameDecoder → Str
payload_of d = if has_message d then (take_message d).0 else []

unfoldable pub call_headers : Call → Headers → Channel → Channel
unfolding terminal_status complete_call take_message
call_headers call hs c = elim (terminal_status hs) [
  | some s ↦ complete_call call s (payload_of call.decoder) c
  | none ↦ if is_200 (field (codes ":status") hs) then c else complete_call call bad_http [] c
]

-- What a stream id stands for: a stream, a call, or neither.
abbrev pub with_call_of : Option ℕ → Channel → (Call → Channel) → Channel
with_call_of none c f = c
with_call_of (some id) c f = elim (find id c.calls) [ none ↦ c | some call ↦ f call ]

abbrev pub with_stream_of : ℕ → Channel → (Stream → Channel) → Channel
with_stream_of id c f = elim (find id c.streams) [
  | none ↦ c
  | some st ↦ if st.completed then c else f st
]

unfoldable pub on_headers : ℕ → Headers → Channel → Channel
unfolding stream_headers call_headers
on_headers sid hs c = elim (find sid c.stream_by_sid) [
  | some id ↦ with_stream_of id c λ st. stream_headers id st hs c
  | none ↦ with_call_of (find sid c.by_stream) c λ call. call_headers call hs c
]

-- `while (HasMessage())`: every message that stands in the decoder, in order.
unfoldable pub report_messages : ℕ → Option ℕ → List Str → Channel → Channel
report_messages id cb [] c = c
report_messages id cb (m ∷ ms) c = report_messages id cb ms (fire (message id cb ok_status m) c)

-- The decoder once all its messages are taken.
abbrev pub emptied : FrameDecoder → FrameDecoder
emptied d = record d { messages = []; message_count = d.message_count + length d.messages }

unfoldable pub stream_data : ℕ → Stream → Str → Channel → Channel
unfolding complete_stream report_messages
stream_data id st bytes c =
    if is_empty bytes
    then c
    else (let (s, d) = consume st.decoder bytes in
        if is_ok s
        then report_messages id st.events.on_message d.messages
            (put_stream id (record st { decoder = emptied d }) c)
        else complete_stream id (record st { decoder = d }) s c)

unfoldable pub call_data : Call → Str → Channel → Channel
unfolding complete_call
call_data call bytes c =
    if call.completed || is_empty bytes
    then c
    else (let (s, d) = consume call.decoder bytes in
        let call' = record call { decoder = d } in
        let c' = record c { calls = insert call.id call' c.calls } in
        if is_ok s then c' else complete_call call' s [] c')

unfoldable pub on_data : ℕ → Str → Channel → Channel
unfolding stream_data call_data
on_data sid bytes c = elim (find sid c.stream_by_sid) [
  | some id ↦ with_stream_of id c λ st. stream_data id st bytes c
  | none ↦ with_call_of (find sid c.by_stream) c λ call. call_data call bytes c
]

abbrev pub stream_closed : Status
stream_closed = status unavailable (codes "stream closed")

-- `stream_by_sid.erase(sit2)`: the iterator was taken before CompleteStream ran.
unfoldable pub erase_stream_iterator : ℕ → Channel → Channel
erase_stream_iterator sid c = record c {
  faulted = c.faulted || not (is_some (find sid c.stream_by_sid));
  stream_by_sid = erase sid c.stream_by_sid;
}

-- `by_stream.erase(sit)`: the iterator was taken before Complete ran.
unfoldable pub erase_call_iterator : ℕ → Channel → Channel
erase_call_iterator sid c = record c {
  faulted = c.faulted || not (is_some (find sid c.by_stream));
  by_stream = erase sid c.by_stream;
}

-- The first half of OnStreamClose.
unfoldable pub close_stream : Option ℕ → ℕ → Channel → Channel
unfolding complete_stream erase_stream_iterator
close_stream none sid c = c
close_stream (some id) sid c =
    erase_stream_iterator sid (
      with_stream_of id c λ st. if st.rst_pending then c else complete_stream id st stream_closed c)

-- The second half.
unfoldable pub close_call : Option ℕ → ℕ → Channel → Channel
unfolding complete_call erase_call_iterator
close_call none sid c = c
close_call (some id) sid c =
    erase_call_iterator sid (with_call_of (some id) c λ call. complete_call call stream_closed [] c)

unfoldable pub on_stream_close : ℕ → Channel → Channel
unfolding close_stream close_call
on_stream_close sid c =
    let c' = close_stream (find sid c.stream_by_sid) sid c in
    close_call (find sid c'.by_stream) sid c'

-- The callback of TcpConnect: an error, or the connected socket and a new session.
unfoldable pub on_connect : Status → Channel → Channel
unfolding fail_pending start_pending start_pending_streams
on_connect st c =
    if is_ok st
    then start_pending_streams
        (start_pending (record c { has_socket = true; has_session = true; state = ready }))
    else fail_pending st (record c { state = broken })

abbrev pub lost : Status
lost = status unavailable (codes "connection lost")

-- The streams that stood open, in the order of their ids.
unfoldable pub fail_streams : Map Stream → Channel → Channel
unfolding fail_stream
fail_streams [] c = c
fail_streams ((id, st) ∷ sts) c =
    fail_streams sts (if st.completed then c else fail_stream st.id st.out_queue st.events lost c)

-- The streams that waited; their messages are dropped with no callback.
unfoldable pub fail_parked : List PendingStream → Channel → Channel
unfolding fail_stream
fail_parked [] c = c
fail_parked (ps ∷ pss) c = fail_parked pss (fail_stream ps.id [] ps.events lost c)

-- The calls that stood open, in the order of their ids.
unfoldable pub fail_open : Map Call → Channel → Channel
fail_open [] c = c
fail_open ((id, call) ∷ calls) c = fail_open calls (
    if call.completed
    then c
    else fire (done call.id call.done lost [])
        (record c { loop = stopped call.timeout_timer c.loop }))

-- OnConnectionLost
unfoldable pub lose : Channel → Channel
unfolding fail_streams fail_parked fail_open fail_pending
lose c =
    let c' = record c {
      state = broken;
      has_socket = false;
      has_session = false;
      calls = [];
      by_stream = [];
      streams = [];
      stream_by_sid = [];
      pending_streams = [];
    } in
    fail_pending lost
      (fail_open c.calls (fail_parked c.pending_streams (fail_streams c.streams c')))

unfoldable pub is_broken : State → Bool
is_broken broken = true
is_broken _ = false

unfoldable pub on_connection_lost : Channel → Channel
unfolding lose is_broken
on_connection_lost c = if is_broken c.state then c else lose c
