-- ===== src/Server/Queues/Incoming.antt =====
-- The queues of a call on the request side (urpc/core/source/urpc_server.cc).
use u_rpc.Prelude.{
  ℕ, zero, suc, refl, Bool, true, false, not, ◌&&◌, Option, none, some, [], arith, if◌then◌else◌,
  ◌==◌, ltb, length, is_empty, if-keeps, option-keeps, bool-keeps,
}
use u_rpc.Prelude.Str.{Str, codes}
use u_rpc.Prelude.Map.{find}
use u_rpc.Prelude.Map.Sorted.{All-erase}
use u_rpc.Status.{is_ok, ok_status}
use u_rpc.Codec.{FrameDecoder, new_decoder, has_message, take_message, consume}
use u_rpc.Loop.{Loop}
use u_rpc.Timeout.{parse_grpc_timeout}
use u_rpc.Router.{HandlerEntry, is_unary, find_handler}
use u_rpc.Wire.{Headers, field}
use u_rpc.Server.State.{Call, Conn, User, Deferred, put, new_call}
use u_rpc.Server.Stream.{dispatch_stream}
use u_rpc.Server.Request.{
  forget, call_at, with_entry, with_deadline, finish_unary, finish_streaming, finish_request,
  deliver_one, deliver_all, after_consume, on_data, on_stream_close, open_call, good_headers,
  on_headers, is_server_streaming, starts_at_open,
}
use u_rpc.Server.Rules.{UserKeeps}
use u_rpc.Server.Queues.{
  IsTidy, Held, Tidy, put-Tidy, found-IsTidy, at_call, trailers_only-Tidy, respond_error-Tidy,
  finish_stream-Tidy,
}
use u_rpc.Server.Queues.Delivery.{
  fire_cancel-Tidy, dispatch_stream-Tidy, deliver_read-Tidy, cancel_stream_io-Tidy,
}

forget-Tidy : (sid : ℕ) (c : Conn) → Tidy c → Tidy (forget sid c)
unfolding forget
forget-Tidy sid c h = at_call sid c _ h λ call t. All-erase Held sid c.calls h

call_at-IsTidy : (sid : ℕ) (d : FrameDecoder) (c : Conn) → Tidy c → IsTidy (call_at sid d c)
unfolding new_call
call_at-IsTidy sid d c h =
    option-keeps IsTidy (find sid c.calls) (new_call d) _ (omega arith, omega arith, λ e. refl)
      λ call e. found-IsTidy sid call c e h

with_entry-IsTidy :
    (o : Option HandlerEntry) (call : Call) → IsTidy call → IsTidy (with_entry o call)
unfolding with_entry
with_entry-IsTidy none call t = t
with_entry-IsTidy (some e) call t = t

with_deadline-IsTidy :
    (sid : ℕ) (o : Option Str) (init_ok : Bool) (call : Call) (l : Loop Deferred)
    → IsTidy call
    → IsTidy (with_deadline sid o init_ok call l).0
unfolding with_deadline
with_deadline-IsTidy sid none init_ok call l t = t
with_deadline-IsTidy sid (some v) init_ok call l t =
    if-keeps (λ (r : Call × Loop Deferred). IsTidy r.0) (ltb 0 (parse_grpc_timeout v)) _ (call, l)
      (λ _. t) (λ _. t)

module _ (user : User) (keeps : UserKeeps Tidy user) where
  finish_unary-Tidy :
      (sid : ℕ) (call : Call) (c : Conn)
      → IsTidy call
      → Tidy c
      → Tidy (finish_unary user sid call c)
  unfolding finish_unary
  finish_unary-Tidy sid call c t h =
      if-keeps Tidy (not (call.decoder.message_count == 0)) _ _
        (λ _. trailers_only-Tidy sid _ _ c h)
        (λ _.
          if-keeps Tidy (not (has_message call.decoder)) _ _ (λ _. trailers_only-Tidy sid _ _ c h)
            (λ _. keeps _ _ (put-Tidy sid _ c t h)))

  finish_streaming-Tidy :
      (sid : ℕ) (call : Call) (c : Conn)
      → IsTidy call
      → Tidy c
      → Tidy (finish_streaming user sid call c)
  unfolding finish_streaming
  finish_streaming-Tidy sid call c t h =
      if-keeps Tidy (is_server_streaming call.form && not call.dispatched) _ _
        (λ _.
          if-keeps Tidy (not (has_message call.decoder)) _ _ (λ _. trailers_only-Tidy sid _ _ c h)
            (λ _. dispatch_stream-Tidy user keeps sid _ _ (put-Tidy sid _ c t h)))
        (λ _.
          if-keeps Tidy (not call.dispatched) _ _ (λ _. trailers_only-Tidy sid _ _ c h)
            (λ _. deliver_read-Tidy user keeps sid ok_status true [] c h))

  finish_request-Tidy : (sid : ℕ) (c : Conn) → Tidy c → Tidy (finish_request user sid c)
  unfolding finish_request
  finish_request-Tidy sid c h = at_call sid c _ h λ call t.
      let done = record call { request_done = true } in
      let half = record done { request_half_closed = true } in
      if-keeps Tidy call.request_done _ _ (λ _. h)
        λ _.
          if-keeps Tidy (not call.has_handler) _ _
            (λ _. trailers_only-Tidy sid _ _ _ (put-Tidy sid done c t h))
            (λ _.
              if-keeps Tidy (is_unary call.form) _ _
                (λ _. finish_unary-Tidy sid done _ t (put-Tidy sid done c t h))
                (λ _. finish_streaming-Tidy sid half _ t (put-Tidy sid half c t h)))

  abbrev SecondTidy : Bool × Conn → Type 0
  SecondTidy r = Tidy r.1

  deliver_one-Tidy :
      (sid : ℕ) (call : Call) (msg : Str) (c : Conn)
      → Tidy c
      → SecondTidy (deliver_one user sid call msg c)
  unfolding deliver_one
  deliver_one-Tidy sid call msg c h =
      if-keeps SecondTidy (is_server_streaming call.form) _ _
        (λ _.
          if-keeps SecondTidy call.dispatched _ _ (λ _. finish_stream-Tidy sid _ c h)
            (λ _. dispatch_stream-Tidy user keeps sid _ c h))
        (λ _. deliver_read-Tidy user keeps sid ok_status false msg c h)

  deliver_all-Tidy : (fuel sid : ℕ) (c : Conn) → Tidy c → SecondTidy (deliver_all user fuel sid c)
  unfolding deliver_all
  deliver_all-Tidy zero sid c h = h
  deliver_all-Tidy (suc fuel) sid c h = option-keeps SecondTidy (find sid c.calls) _ _ h λ call e.
      bool-keeps SecondTidy (has_message call.decoder) _ _ (λ _. h)
        λ _.
          let (msg, d) = take_message call.decoder in
          let call' = record call { decoder = d } in
          let p = put-Tidy sid call' c (found-IsTidy sid call c e h) h in
          let (on, c') = deliver_one user sid call' msg (put sid call' c) in
          let q : Tidy c' = deliver_one-Tidy sid call' msg (put sid call' c) p in
          bool-keeps SecondTidy on (false, c') _ (λ _. q) (λ _. deliver_all-Tidy fuel sid c' q)

  after_consume-Tidy :
      (sid : ℕ) (call : Call) (end_stream : Bool) (c : Conn)
      → Tidy c
      → Tidy (after_consume user sid call end_stream c)
  unfolding after_consume
  after_consume-Tidy sid call end_stream c h =
      let r =
        if is_unary call.form
        then (true, c)
        else deliver_all user (length call.decoder.messages) sid c in
      let q : Tidy r.1 =
        if-keeps SecondTidy (is_unary call.form) (true, c) _ (λ _. h)
          (λ _. deliver_all-Tidy _ sid c h) in
      if-keeps Tidy (r.0 && end_stream) _ _ (λ _. finish_request-Tidy sid r.1 q) (λ _. q)

  pub on_data-Tidy :
      (sid : ℕ) (bytes : Str) (end_stream : Bool) (c : Conn)
      → Tidy c
      → Tidy (on_data user sid bytes end_stream c)
  unfolding on_data
  on_data-Tidy sid bytes end_stream c h = at_call sid c _ h λ call t.
      if-keeps Tidy call.request_done _ _ (λ _. h)
        λ _.
          if-keeps Tidy (is_empty bytes) _ _ (λ _. after_consume-Tidy sid call end_stream c h)
            (λ _.
              let (st, d) = consume call.decoder bytes in
              let call' = record call { decoder = d } in
              let p = put-Tidy sid call' c t h in
              if-keeps Tidy (is_ok st) _ _
                (λ _. after_consume-Tidy sid call' end_stream (put sid call' c) p)
                (λ _. respond_error-Tidy sid st (put sid call' c) p))

  pub on_stream_close-Tidy : (sid : ℕ) (c : Conn) → Tidy c → Tidy (on_stream_close user sid c)
  unfolding on_stream_close
  on_stream_close-Tidy sid c h = at_call sid c _ h λ call t.
      forget-Tidy sid _
        (fire_cancel-Tidy user keeps sid _ (cancel_stream_io-Tidy user keeps sid c h))

  open_call-Tidy :
      (sid : ℕ) (hs : Headers) (path : Str) (end_stream : Bool) (c : Conn)
      → Tidy c
      → Tidy (open_call user sid hs path end_stream c)
  unfolding open_call
  open_call-Tidy sid hs path end_stream c h =
      let d = new_decoder c.max_receive_size in
      let start = record (call_at sid d c) { path = path; started_ms = c.now_ms; decoder = d } in
      let routed = with_entry (find_handler c.router path) start in
      let timeout = field (codes "grpc-timeout") hs in
      let timed = with_deadline sid timeout c.timer_init_ok routed c.loop in
      let t : IsTidy timed.0 =
        with_deadline-IsTidy sid timeout c.timer_init_ok routed c.loop
          (with_entry-IsTidy (find_handler c.router path) start (call_at-IsTidy sid d c h)) in
      let c2 = put sid timed.0 (record c { loop = timed.1 }) in
      let h2 : Tidy c2 = put-Tidy sid timed.0 (record c { loop = timed.1 }) t h in
      let c3 =
        if timed.0.has_handler && starts_at_open timed.0.form
        then dispatch_stream user sid none c2
        else c2 in
      let h3 : Tidy c3 =
        if-keeps Tidy (timed.0.has_handler && starts_at_open timed.0.form) _ _
          (λ _. dispatch_stream-Tidy user keeps sid none c2 h2) (λ _. h2) in
      if-keeps Tidy end_stream _ _ (λ _. finish_request-Tidy sid c3 h3) (λ _. h3)

  pub on_headers-Tidy :
      (sid : ℕ) (hs : Headers) (end_stream : Bool) (c : Conn)
      → Tidy c
      → Tidy (on_headers user sid hs end_stream c)
  unfolding on_headers
  on_headers-Tidy sid hs end_stream c h =
      option-keeps Tidy
        (good_headers user (field (codes "content-type") hs) (field (codes ":path") hs)) _ _
        (trailers_only-Tidy sid _ _ c h) (λ path _. open_call-Tidy sid hs path end_stream c h)
