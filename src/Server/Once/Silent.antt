-- ===== src/Server/Once/Silent.antt =====
-- The terminal frames of the operations that run user code or move messages
-- (urpc/core/source/urpc_server.cc).
use u_rpc.Prelude.{
  ℕ, zero, suc, ◌≡◌, refl, Bool, true, false, Option, none, some, List, [], ◌∷◌, arith,
  if◌then◌else◌, not, ◌||◌, leb, length,
}
use u_rpc.Prelude.Str.{Str}
use u_rpc.Prelude.Map.{find}
use u_rpc.Status.{Status, is_ok, ok_status}
use u_rpc.Wire.{headers, body}
use u_rpc.Server.State.{
  OutMsg, Call, Conn, User, put, send, cancel_event, read_event, write_event, stream_call,
}
use u_rpc.Server.Terminal.{response_headers, clear_cancel_cbs, run_cancel, fire_cancel, on_deadline}
use u_rpc.Server.Stream.{
  pump_message, pump_call, pump_out, clear_inflight, on_consumed, call_write, call_read,
  dispatch_stream, deliver_message, deliver_read, fail_queue, cancel_stream_io,
}
use u_rpc.Server.Rules.{UserKeeps, with_call-keeps}
use u_rpc.Prelude.{if-keeps, list-keeps}
use u_rpc.Server.Once.{Watch, Once, put-Once, send-Once}
use u_rpc.Server.Once.Final.{send_deadline-Once, finish_stream-Once, deferred_finish-Once}

module _ (k : Watch) (sid : ℕ) where
  pump_message-Once :
      (call : Call) (out : OutMsg) (rest : List OutMsg) (c : Conn)
      → find sid c.calls ≡ some call
      → Once k c
      → Once k (pump_message sid call out rest c)
  unfolding pump_message
  pump_message-Once call out rest c e h =
      let call' = record call {
        out_queue = rest;
        out_inflight = true;
        response_headers_sent = true;
      } in
      let p = put-Once k sid call call' c e refl refl h in
      let c' = put sid call' c in
      let head = headers sid response_headers false in
      let c'' = if call.response_headers_sent then c' else send head c' in
      let q =
        if-keeps (Once k) call.response_headers_sent c' (send head c') (λ _. p)
          (λ _. send-Once k head c' (ground arith) p) in
      send-Once k (body sid out.framed false (some (record { owner = sid; cb = out.cb }))) c''
        (ground arith) q

  pub pump_out-Once : (c : Conn) → Once k c → Once k (pump_out sid c)
  unfolding pump_out
  pump_out-Once c h = with_call-keeps (Once k) sid c _ h λ call e. pumped call.out_queue call e
    where
      pumped :
          (q : List OutMsg) (call : Call)
          → find sid c.calls ≡ some call
          → Once k (pump_call sid call q c)
      pumped [] call e = h
      pumped (out ∷ rest) call e =
          if-keeps (Once k) (call.out_inflight || (call.responded || call.write_closed)) _ _
            (λ _. h) (λ _. pump_message-Once call out rest c e h)

  pub clear_inflight-Once : (c : Conn) → Once k c → Once k (clear_inflight sid c)
  unfolding clear_inflight
  clear_inflight-Once c h =
      with_call-keeps (Once k) sid c _ h λ call e. put-Once k sid call _ c e refl refl h

  pub clear_cancel_cbs-Once : (c : Conn) → Once k c → Once k (clear_cancel_cbs sid c)
  unfolding clear_cancel_cbs
  clear_cancel_cbs-Once c h =
      with_call-keeps (Once k) sid c _ h λ call e. put-Once k sid call _ c e refl refl h

module _ (k : Watch) (user : User) (keeps : UserKeeps (Once k) user) where
  run_cancel-Once : (cbs : List ℕ) (c : Conn) → Once k c → Once k (run_cancel user cbs c)
  unfolding run_cancel
  run_cancel-Once [] c h = h
  run_cancel-Once (cb ∷ cbs) c h = run_cancel-Once cbs _ (keeps (cancel_event cb) c h)

  pub fire_cancel-Once : (sid : ℕ) (c : Conn) → Once k c → Once k (fire_cancel user sid c)
  unfolding fire_cancel
  fire_cancel-Once sid c h = with_call-keeps (Once k) sid c _ h λ call e.
      if-keeps (Once k) call.cancel_fired _ _ (λ _. h)
        λ _.
          clear_cancel_cbs-Once k sid _
            (run_cancel-Once call.cancel_cbs _ (put-Once k sid call _ c e refl refl h))

  pub on_deadline-Once : (sid : ℕ) (c : Conn) → Once k c → Once k (on_deadline user sid c)
  unfolding on_deadline
  on_deadline-Once sid c h = send_deadline-Once k sid _ (fire_cancel-Once sid c h)

  pub call_write-Once :
      (cb : Option ℕ) (st : Status) (c : Conn) → Once k c → Once k (call_write user cb st c)
  call_write-Once none st c h = h
  call_write-Once (some cb) st c h = keeps (write_event cb st) c h

  call_read-Once :
      (cb : Option ℕ) (st : Status) (eos : Bool) (msg : Str) (c : Conn)
      → Once k c
      → Once k (call_read user cb st eos msg c)
  call_read-Once none st eos msg c h = h
  call_read-Once (some cb) st eos msg c h = keeps (read_event cb st eos msg) c h

  pub on_consumed-Once :
      (sid : ℕ) (cb : Option ℕ) (c : Conn) → Once k c → Once k (on_consumed user sid cb c)
  unfolding on_consumed
  on_consumed-Once sid cb c h =
      deferred_finish-Once k sid _ (call_write-Once cb ok_status _ (clear_inflight-Once k sid c h))

  pub dispatch_stream-Once :
      (sid : ℕ) (first : Option Str) (c : Conn)
      → Once k c
      → Once k (dispatch_stream user sid first c)
  unfolding dispatch_stream
  dispatch_stream-Once sid first c h = with_call-keeps (Once k) sid c _ h λ call e.
      if-keeps (Once k) call.dispatched _ _ (λ _. h)
        λ _. keeps (stream_call sid call.entry) _ (put-Once k sid call _ c e refl refl h)

  deliver_message-Once :
      (sid : ℕ) (call : Call) (cb : Option ℕ) (msg : Str) (c : Conn)
      → find sid c.calls ≡ some call
      → Once k c
      → Once k (deliver_message user sid call cb msg c)
  unfolding deliver_message
  deliver_message-Once sid call (some cb) msg c e h =
      keeps (read_event cb ok_status false msg) _ (put-Once k sid call _ c e refl refl h)
  deliver_message-Once sid call none msg c e h =
      if-keeps (Once k) (leb 64 (length call.pending_msgs)) _ _
        (λ _. finish_stream-Once k sid _ c h) (λ _. put-Once k sid call _ c e refl refl h)

  pub deliver_read-Once :
      (sid : ℕ) (st : Status) (eos : Bool) (msg : Str) (c : Conn)
      → Once k c
      → Once k (deliver_read user sid st eos msg c)
  unfolding deliver_read
  deliver_read-Once sid st eos msg c h = with_call-keeps (Once k) sid c _ h λ call e.
      if-keeps (Once k) call.read_finished _ _ (λ _. h)
        λ _.
          if-keeps (Once k) (not (is_ok st) || eos) _ _
            (λ _. call_read-Once call.read_cb st eos msg _ (put-Once k sid call _ c e refl refl h))
            (λ _. deliver_message-Once sid call call.read_cb msg c e h)

  fail_queue-Once : (fuel sid : ℕ) (c : Conn) → Once k c → Once k (fail_queue user fuel sid c)
  unfolding fail_queue
  fail_queue-Once zero sid c h = h
  fail_queue-Once (suc fuel) sid c h = with_call-keeps (Once k) sid c _ h λ call e.
      list-keeps (Once k) call.out_queue _ _ h λ out rest _.
        fail_queue-Once fuel sid _
          (call_write-Once out.cb _ _ (put-Once k sid call _ c e refl refl h))

  pub cancel_stream_io-Once : (sid : ℕ) (c : Conn) → Once k c → Once k (cancel_stream_io user sid c)
  unfolding cancel_stream_io
  cancel_stream_io-Once sid c h = with_call-keeps (Once k) sid c _ h λ call e.
      fail_queue-Once _ sid _
        (call_read-Once call.read_cb _ false [] _ (put-Once k sid call _ c e refl refl h))
