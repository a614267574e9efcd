-- ===== src/Server/Request.antt =====
-- The request side: FinishRequest, OnHeadersComplete, OnData and OnStreamClose of
-- urpc/core/source/urpc_server.cc.
use u_rpc.Prelude.{
  ℕ, zero, suc, Bool, true, false, ◌&&◌, not, Option, none, some, [], ◌++◌, ◌==◌, if◌then◌else◌,
  ltb, length, is_empty,
}
use u_rpc.Prelude.Str.{Str, codes, starts_with}
use u_rpc.Prelude.Map.{find, insert, erase}
use u_rpc.Status.{is_ok, ok_status, status, internal, unimplemented}
use u_rpc.Codec.{FrameDecoder, new_decoder, consume, has_message, take_message}
use u_rpc.Router.{
  MethodForm, HandlerEntry, server_streaming, client_streaming, bidi, is_unary, find_handler,
}
use u_rpc.Loop.{Loop, set_timer}
use u_rpc.Timeout.{parse_grpc_timeout}
use u_rpc.Wire.{Headers, field, content_type}
use u_rpc.Server.State.{
  with_call, Call, Conn, User, Deferred, deadline, unary_ctx, unary_call, new_call, put, stop_timer,
}
use u_rpc.Server.Terminal.{trailers_only, respond_error, fire_cancel}
use u_rpc.Server.Stream.{finish_stream, dispatch_stream, deliver_read, cancel_stream_io}

abbrev pub is_server_streaming : MethodForm → Bool
is_server_streaming server_streaming = true
is_server_streaming _ = false

-- The handlers that start when the stream opens.
abbrev pub starts_at_open : MethodForm → Bool
starts_at_open client_streaming = true
starts_at_open bidi = true
starts_at_open _ = false

abbrev pub missing_message : Str
missing_message = codes "missing request message"

abbrev pub multiple_messages : Str
multiple_messages = codes "multiple request messages"

-- The end of OnStreamClose: the timer is cancelled, the call and its context are erased.
unfoldable pub forget : ℕ → Conn → Conn
forget sid c = with_call sid c λ call.
    let c' = stop_timer call.deadline_timer c in
    record c' { calls = erase sid c'.calls; ctxs = erase sid c'.ctxs }

-- `calls[sid]`: the call that stands there, or a new one.
abbrev pub call_at : ℕ → FrameDecoder → Conn → Call
call_at sid d c = elim (find sid c.calls) [ none ↦ new_call d | some call ↦ call ]

-- The handler that the router found.
unfoldable pub with_entry : Option HandlerEntry → Call → Call
with_entry none call = record call { has_handler = false }
with_entry (some e) call = record call { has_handler = true; form = e.form; entry = e }

-- SetTimer for a grpc-timeout that is there and is not 0.
unfoldable pub with_deadline : ℕ → Option Str → Bool → Call → Loop Deferred → Call × Loop Deferred
with_deadline sid none init_ok call l = (call, l)
with_deadline sid (some v) init_ok call l =
    let ms = parse_grpc_timeout v in
    if ltb 0 ms
    then (let (id, l') = set_timer init_ok (deadline sid) l in
        (record call { deadline_timer = id }, l'))
    else (call, l)

module _ (user : User) where
  -- FinishRequest of a unary call; `call` stands in the map, with `request_done`.
  unfoldable pub finish_unary : ℕ → Call → Conn → Conn
  unfolding trailers_only take_message
  finish_unary sid call c =
      if not (call.decoder.message_count == 0)
      then trailers_only sid internal multiple_messages c
      else (if not (has_message call.decoder)
          then trailers_only sid internal missing_message c
          else (let (request, d) = take_message call.decoder in
              let c' = put sid (record call { decoder = d }) c in
              user (unary_call sid call.entry request)
                (record c' { ctxs = insert sid unary_ctx c'.ctxs })))

  -- FinishRequest of a streaming call, with `request_half_closed`.
  unfoldable pub finish_streaming : ℕ → Call → Conn → Conn
  unfolding trailers_only take_message dispatch_stream deliver_read
  finish_streaming sid call c =
      if is_server_streaming call.form && not call.dispatched
      then (if not (has_message call.decoder)
          then trailers_only sid internal missing_message c
          else (let (msg, d) = take_message call.decoder in
              dispatch_stream user sid (some msg) (put sid (record call { decoder = d }) c)))
      else (if not call.dispatched
          then trailers_only sid unimplemented (codes "unknown method: " ++ call.path) c
          else deliver_read user sid ok_status true [] c)

  unfoldable pub finish_request : ℕ → Conn → Conn
  unfolding finish_unary finish_streaming
  finish_request sid c = with_call sid c λ call.
      if call.request_done
      then c
      else (let done = record call { request_done = true } in
          if not call.has_handler
          then trailers_only sid unimplemented (codes "unknown method: " ++ call.path)
              (put sid done c)
          else (if is_unary call.form
              then finish_unary sid done (put sid done c)
              else (let half = record done { request_half_closed = true } in
                  finish_streaming sid half (put sid half c))))

  -- One message of OnData's loop; false when OnData returns there.
  unfoldable pub deliver_one : ℕ → Call → Str → Conn → Bool × Conn
  unfolding finish_stream dispatch_stream deliver_read
  deliver_one sid call msg c =
      if is_server_streaming call.form
      then (if call.dispatched
          then (false, finish_stream sid (status internal multiple_messages) c)
          else (true, dispatch_stream user sid (some msg) c))
      else (true, deliver_read user sid ok_status false msg c)

  -- `while (call.decoder->HasMessage())`; user code does not touch the decoder, so the messages
  -- that stand there at the start are enough fuel.
  unfoldable pub deliver_all : ℕ → ℕ → Conn → Bool × Conn
  unfolding deliver_one take_message
  deliver_all zero sid c = (true, c)
  deliver_all (suc fuel) sid c = elim (find sid c.calls) [
    | none ↦ (true, c)
    | some call ↦ elim (has_message call.decoder) [
      | false ↦ (true, c)
      | true ↦
          let (msg, d) = take_message call.decoder in
          let call' = record call { decoder = d } in
          let (on, c') = deliver_one sid call' msg (put sid call' c) in
          elim on [ true ↦ deliver_all fuel sid c' | false ↦ (false, c') ]
    ]
  ]

  -- OnData behind the decoder; `call` stands in the map.
  unfoldable pub after_consume : ℕ → Call → Bool → Conn → Conn
  unfolding deliver_all finish_request
  after_consume sid call end_stream c =
      let (on, c') =
        if is_unary call.form
        then (true, c)
        else deliver_all (length call.decoder.messages) sid c in
      if on && end_stream then finish_request sid c' else c'

  -- OnData; a null pointer and a length of 0 are the empty text.
  unfoldable pub on_data : ℕ → Str → Bool → Conn → Conn
  unfolding respond_error after_consume
  on_data sid bytes end_stream c = with_call sid c λ call.
      if call.request_done
      then c
      else (if is_empty bytes
          then after_consume sid call end_stream c
          else (let (st, d) = consume call.decoder bytes in
              let call' = record call { decoder = d } in
              if is_ok st
              then after_consume sid call' end_stream (put sid call' c)
              else respond_error sid st (put sid call' c)))

  unfoldable pub on_stream_close : ℕ → Conn → Conn
  unfolding cancel_stream_io fire_cancel forget
  on_stream_close sid c =
      with_call sid c λ _. forget sid (fire_cancel user sid (cancel_stream_io user sid c))

  -- OnHeadersComplete once the headers are found good.
  unfoldable pub open_call : ℕ → Headers → Str → Bool → Conn → Conn
  unfolding with_entry with_deadline dispatch_stream finish_request new_call
  open_call sid hs path end_stream c =
      let d = new_decoder c.max_receive_size in
      let fresh = record (call_at sid d c) { path = path; started_ms = c.now_ms; decoder = d } in
      let routed = with_entry (find_handler c.router path) fresh in
      let (call, l) =
        with_deadline sid (field (codes "grpc-timeout") hs) c.timer_init_ok routed c.loop in
      let c2 = put sid call (record c { loop = l }) in
      let c3 =
        if call.has_handler && starts_at_open call.form
        then dispatch_stream user sid none c2
        else c2 in
      if end_stream then finish_request sid c3 else c3

  abbrev pub good_headers : Option Str → Option Str → Option Str
  good_headers none path = none
  good_headers (some ct) path = if starts_with content_type ct then path else none

  unfoldable pub on_headers : ℕ → Headers → Bool → Conn → Conn
  unfolding trailers_only open_call
  on_headers sid hs end_stream c =
      elim (good_headers (field (codes "content-type") hs) (field (codes ":path") hs)) [
        | none ↦ trailers_only sid internal (codes "bad request headers") c
        | some path ↦ open_call sid hs path end_stream c
      ]
