-- ===== src/Server/Once/Outside.antt =====
-- The terminal frames of the request side and of the contexts (urpc/core/source/urpc_server.cc).
use u_rpc.Prelude.{
  ℕ, zero, suc, ◌≡◌, ◌≢◌, refl, Bool, true, false, Option, none, List, [], ◌∷◌, arith,
  if◌then◌else◌, ◌==◌, ◌&&◌, not, ◌||◌, is_empty, leb, length,
}
use u_rpc.Prelude.Str.{Str}
use u_rpc.Prelude.Map.{find, find-insert_self, find-erase}
use u_rpc.Status.{StatusCode, is_ok, ok_status}
use u_rpc.Codec.{has_message, take_message, consume}
use u_rpc.Router.{is_unary}
use u_rpc.Server.State.{Call, Conn, User, put}
use u_rpc.Server.Terminal.{trailers_only}
use u_rpc.Server.Request.{
  forget, finish_unary, finish_streaming, finish_request, deliver_one, deliver_all, after_consume,
  on_data, on_stream_close, is_server_streaming,
}
use u_rpc.Server.Context.{
  CtxOp, responds, finishes, reads, writes, closes_writes, asks_cancel, Read, closed, first, next,
  half_closed, concurrent, waits, do_read, read_of, read_message, write_message, write_done,
  on_cancel, call_ctx, call_all, Script, react, update,
}
use u_rpc.Server.Rules.{UserKeeps, with_call-keeps}
use u_rpc.Prelude.{if-keeps, option-keeps, bool-keeps}
use u_rpc.Server.Once.{Watch, Once, put-Once}
use u_rpc.Server.Once.Final.{
  finish_stream-Once, respond_error-Once, trailers_only-Once, respond-Once,
}
use u_rpc.Server.Once.Silent.{
  fire_cancel-Once, dispatch_stream-Once, deliver_read-Once, cancel_stream_io-Once, pump_out-Once,
  call_write-Once,
}

put_found : (sid : ℕ) (call : Call) (c : Conn) → find sid (put sid call c).calls ≢ none
put_found sid call c e = cc (find-insert_self sid call c.calls)

-- TrailersOnly on a call that was just written.
put_trailers-Once :
    (k : Watch) (sid : ℕ) (call : Call) (code : StatusCode) (msg : Str) (c : Conn)
    → Once k (put sid call c)
    → Once k (trailers_only sid code msg (put sid call c))
put_trailers-Once k sid call code msg c =
    trailers_only-Once k sid code msg (put sid call c)
      (λ absent. absurd (put_found sid call c absent))

forget-Once : (k : Watch) (sid : ℕ) (c : Conn) → Once k c → Once k (forget sid c)
unfolding forget
forget-Once k sid c h =
    with_call-keeps (Once k) sid c _ h λ call e. ground (arith, find-erase k.stream sid c.calls)

module _ (k : Watch) (user : User) (keeps : UserKeeps (Once k) user) where
  finish_unary-Once :
      (sid : ℕ) (call : Call) (c : Conn)
      → Once k (put sid call c)
      → Once k (finish_unary user sid call (put sid call c))
  unfolding finish_unary
  finish_unary-Once sid call c h =
      if-keeps (Once k) (not (call.decoder.message_count == 0)) _ _
        (λ _. put_trailers-Once k sid call _ _ c h)
        (λ _.
          if-keeps (Once k) (not (has_message call.decoder)) _ _
            (λ _. put_trailers-Once k sid call _ _ c h)
            (λ _. keeps _ _ (
              put-Once k sid call _ (put sid call c) (find-insert_self sid call c.calls) refl refl
                h)))

  finish_streaming-Once :
      (sid : ℕ) (call : Call) (c : Conn)
      → Once k (put sid call c)
      → Once k (finish_streaming user sid call (put sid call c))
  unfolding finish_streaming
  finish_streaming-Once sid call c h =
      if-keeps (Once k) (is_server_streaming call.form && not call.dispatched) _ _
        (λ _.
          if-keeps (Once k) (not (has_message call.decoder)) _ _
            (λ _. put_trailers-Once k sid call _ _ c h)
            (λ _. dispatch_stream-Once k user keeps sid _ _ (
              put-Once k sid call _ (put sid call c) (find-insert_self sid call c.calls) refl refl
                h)))
        (λ _.
          if-keeps (Once k) (not call.dispatched) _ _ (λ _. put_trailers-Once k sid call _ _ c h)
            (λ _. deliver_read-Once k user keeps sid ok_status true [] (put sid call c) h))

  pub finish_request-Once : (sid : ℕ) (c : Conn) → Once k c → Once k (finish_request user sid c)
  unfolding finish_request
  finish_request-Once sid c h = with_call-keeps (Once k) sid c _ h λ call e.
      let done = record call { request_done = true } in
      let half = record done { request_half_closed = true } in
      if-keeps (Once k) call.request_done _ _ (λ _. h)
        λ _.
          if-keeps (Once k) (not call.has_handler) _ _
            (λ _. put_trailers-Once k sid done _ _ c (put-Once k sid call done c e refl refl h))
            (λ _.
              if-keeps (Once k) (is_unary call.form) _ _
                (λ _. finish_unary-Once sid done c (put-Once k sid call done c e refl refl h))
                (λ _. finish_streaming-Once sid half c (put-Once k sid call half c e refl refl h)))

  abbrev OnceSecond : Bool × Conn → Type 0
  OnceSecond r = Once k r.1

  deliver_one-Once :
      (sid : ℕ) (call : Call) (msg : Str) (c : Conn)
      → Once k c
      → OnceSecond (deliver_one user sid call msg c)
  unfolding deliver_one
  deliver_one-Once sid call msg c h =
      if-keeps OnceSecond (is_server_streaming call.form) _ _
        (λ _.
          if-keeps OnceSecond call.dispatched _ _ (λ _. finish_stream-Once k sid _ c h)
            (λ _. dispatch_stream-Once k user keeps sid _ c h))
        (λ _. deliver_read-Once k user keeps sid ok_status false msg c h)

  deliver_all-Once : (fuel sid : ℕ) (c : Conn) → Once k c → OnceSecond (deliver_all user fuel sid c)
  unfolding deliver_all
  deliver_all-Once zero sid c h = h
  deliver_all-Once (suc fuel) sid c h = option-keeps OnceSecond (find sid c.calls) _ _ h λ call e.
      bool-keeps OnceSecond (has_message call.decoder) _ _ (λ _. h)
        λ _.
          let (msg, d) = take_message call.decoder in
          let call' = record call { decoder = d } in
          let p = put-Once k sid call call' c e refl refl h in
          let q = deliver_one-Once sid call' msg (put sid call' c) p in
          go (deliver_one user sid call' msg (put sid call' c)) q (deliver_all-Once fuel sid)
    where
      go :
          (r : Bool × Conn)
          → Once k r.1
          → ((c' : Conn) → Once k c' → OnceSecond (deliver_all user fuel sid c'))
          → OnceSecond (elim r.0 [ true ↦ deliver_all user fuel sid r.1 | false ↦ (false, r.1) ])
      go (true, c') q ih = ih c' q
      go (false, c') q ih = q

  after_consume-Once :
      (sid : ℕ) (call : Call) (end_stream : Bool) (c : Conn)
      → Once k c
      → Once k (after_consume user sid call end_stream c)
  unfolding after_consume
  after_consume-Once sid call end_stream c h =
      go
        (if is_unary call.form
          then (true, c)
          else deliver_all user (length call.decoder.messages) sid c)
        (if-keeps OnceSecond (is_unary call.form) (true, c) _ (λ _. h)
          (λ _. deliver_all-Once _ sid c h))
    where
      go :
          (r : Bool × Conn)
          → OnceSecond r
          → Once k (if r.0 && end_stream then finish_request user sid r.1 else r.1)
      go r q =
          if-keeps (Once k) (r.0 && end_stream) _ _ (λ _. finish_request-Once sid r.1 q) (λ _. q)

  pub on_data-Once :
      (sid : ℕ) (bytes : Str) (end_stream : Bool) (c : Conn)
      → Once k c
      → Once k (on_data user sid bytes end_stream c)
  unfolding on_data
  on_data-Once sid bytes end_stream c h = with_call-keeps (Once k) sid c _ h λ call e.
      if-keeps (Once k) call.request_done _ _ (λ _. h)
        λ _.
          if-keeps (Once k) (is_empty bytes) _ _ (λ _. after_consume-Once sid call end_stream c h)
            (λ _.
              let (st, d) = consume call.decoder bytes in
              let call' = record call { decoder = d } in
              let p = put-Once k sid call call' c e refl refl h in
              if-keeps (Once k) (is_ok st) _ _
                (λ _. after_consume-Once sid call' end_stream (put sid call' c) p)
                (λ _. respond_error-Once k sid st (put sid call' c) p))

  pub on_stream_close-Once : (sid : ℕ) (c : Conn) → Once k c → Once k (on_stream_close user sid c)
  unfolding on_stream_close
  on_stream_close-Once sid c h = with_call-keeps (Once k) sid c _ h λ call e.
      forget-Once k sid _
        (fire_cancel-Once k user keeps sid _ (cancel_stream_io-Once k user keeps sid c h))

  update-Once :
      (sid : ℕ) (f : Call → Call) (c : Conn)
      → ((call : Call) → (f call).responded ≡ call.responded)
      → ((call : Call) → (f call).has_finish_pending ≡ call.has_finish_pending)
      → Once k c
      → Once k (update sid f c)
  update-Once sid f c r p h =
      with_call-keeps (Once k) sid c _ h
        λ call e. put-Once k sid call (f call) c e (r call) (p call) h

  do_read-Once : (sid cb : ℕ) (r : Read) (c : Conn) → Once k c → Once k (do_read user sid cb r c)
  unfolding do_read
  do_read-Once sid cb (closed eos) c h = keeps _ c h
  do_read-Once sid cb (first m) c h = keeps _ _ h
  do_read-Once sid cb (next m rest) c h = keeps _ _ (update-Once sid _ c (λ _. refl) (λ _. refl) h)
  do_read-Once sid cb half_closed c h = keeps _ _ (update-Once sid _ c (λ _. refl) (λ _. refl) h)
  do_read-Once sid cb concurrent c h = keeps _ c h
  do_read-Once sid cb waits c h = update-Once sid _ c (λ _. refl) (λ _. refl) h

  write_message-Once :
      (sid : ℕ) (msg : Str) (cb : Option ℕ) (c : Conn)
      → Once k c
      → Once k (write_message user sid msg cb c)
  unfolding write_message
  write_message-Once sid msg cb c h =
      option-keeps (Once k) (find sid c.calls) _ _ (call_write-Once k user keeps cb _ c h) λ call e.
        if-keeps (Once k) (call.responded || call.write_closed) _ _
          (λ _. call_write-Once k user keeps cb _ c h)
          (λ _.
            if-keeps (Once k) (leb 64 (length call.out_queue)) _ _
              (λ _. call_write-Once k user keeps cb _ c h)
              (λ _. pump_out-Once k sid _ (put-Once k sid call _ c e refl refl h)))

  pub call_ctx-Once : (o : CtxOp) (c : Conn) → Once k c → Once k (call_ctx user o c)
  unfolding call_ctx
  call_ctx-Once (responds sid st payload) c h = respond-Once k sid st payload c h
  call_ctx-Once (finishes sid st) c h = finish_stream-Once k sid st c h
  call_ctx-Once (reads sid cb) c h = unfold read_message in do_read-Once sid cb (read_of sid c) c h
  call_ctx-Once (writes sid msg cb) c h = write_message-Once sid msg cb c h
  call_ctx-Once (closes_writes sid) c h =
      unfold write_done in
      with_call-keeps (Once k) sid c _ h λ call e. put-Once k sid call _ c e refl refl h
  call_ctx-Once (asks_cancel sid cb) c h =
      unfold on_cancel in
      option-keeps OnceSecond (find sid c.calls) (false, c) _ h
        λ call e.
          if-keeps OnceSecond call.cancel_fired (false, c) _ (λ _. h)
            (λ _. put-Once k sid call _ c e refl refl h)

  call_all-Once : (os : List CtxOp) (c : Conn) → Once k c → Once k (call_all user os c)
  unfolding call_all
  call_all-Once [] c h = h
  call_all-Once (o ∷ os) c h = call_all-Once os _ (call_ctx-Once o c h)

-- Whatever the user's script, and however deep its callbacks nest.
pub react-Once : (k : Watch) (depth : ℕ) (script : Script) → UserKeeps (Once k) (react depth script)
unfolding react
react-Once k zero script cb c h = h
react-Once k (suc depth) script cb c h =
    call_all-Once k (react depth script) (react-Once k depth script) (script cb c) c h
