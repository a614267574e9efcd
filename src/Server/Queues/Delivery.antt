-- ===== src/Server/Queues/Delivery.antt =====
-- The queues of a call in the operations that run user code or move messages
-- (urpc/core/source/urpc_server.cc).
use u_rpc.Prelude.{
  ℕ, zero, suc, ◌≤◌, ◌≡◌, refl, Bool, false, not, ◌||◌, Option, none, some, List, [], ◌∷◌, ◌++◌,
  arith, leb, length, length-append, if-keeps, list-keeps,
}
use u_rpc.Prelude.Str.{Str}
use u_rpc.Status.{Status, is_ok, ok_status}
use u_rpc.Server.State.{Call, Conn, User, cancel_event, read_event, write_event, stream_call}
use u_rpc.Server.Terminal.{run_cancel, fire_cancel, on_deadline}
use u_rpc.Server.Stream.{
  on_consumed, call_write, call_read, dispatch_stream, deliver_message, deliver_read, fail_queue,
  cancel_stream_io,
}
use u_rpc.Server.Rules.{UserKeeps}
use u_rpc.Server.Queues.{
  IsTidy, Tidy, put-Tidy, at_call, send_deadline-Tidy, finish_stream-Tidy, deferred_finish-Tidy,
  clear_inflight-Tidy, clear_cancel_cbs-Tidy,
}

-- A queue that is not full has room for one more.
pub room {ℓ} :
    {A : Type ℓ} (q : List A) (x : A) → leb 64 (length q) ≡ false → length (q ++ x ∷ []) ≤ 64
room q x e = ground (arith, length-append q (x ∷ []))

-- A call whose read is taken out.
pub unread : (call : Call) → IsTidy call → IsTidy (record call { read_cb = none })
unread call (o, p, r) = (o, p, λ e. cc)

module _ (user : User) (keeps : UserKeeps Tidy user) where
  run_cancel-Tidy : (cbs : List ℕ) (c : Conn) → Tidy c → Tidy (run_cancel user cbs c)
  unfolding run_cancel
  run_cancel-Tidy [] c h = h
  run_cancel-Tidy (cb ∷ cbs) c h = run_cancel-Tidy cbs _ (keeps (cancel_event cb) c h)

  pub fire_cancel-Tidy : (sid : ℕ) (c : Conn) → Tidy c → Tidy (fire_cancel user sid c)
  unfolding fire_cancel
  fire_cancel-Tidy sid c h = at_call sid c _ h λ call t.
      if-keeps Tidy call.cancel_fired _ _ (λ _. h)
        λ _. clear_cancel_cbs-Tidy sid _ (run_cancel-Tidy call.cancel_cbs _ (put-Tidy sid _ c t h))

  pub on_deadline-Tidy : (sid : ℕ) (c : Conn) → Tidy c → Tidy (on_deadline user sid c)
  unfolding on_deadline
  on_deadline-Tidy sid c h = send_deadline-Tidy sid _ (fire_cancel-Tidy sid c h)

  pub call_write-Tidy :
      (cb : Option ℕ) (st : Status) (c : Conn) → Tidy c → Tidy (call_write user cb st c)
  call_write-Tidy none st c h = h
  call_write-Tidy (some cb) st c h = keeps (write_event cb st) c h

  call_read-Tidy :
      (cb : Option ℕ) (st : Status) (eos : Bool) (msg : Str) (c : Conn)
      → Tidy c
      → Tidy (call_read user cb st eos msg c)
  call_read-Tidy none st eos msg c h = h
  call_read-Tidy (some cb) st eos msg c h = keeps (read_event cb st eos msg) c h

  pub on_consumed-Tidy :
      (sid : ℕ) (cb : Option ℕ) (c : Conn) → Tidy c → Tidy (on_consumed user sid cb c)
  unfolding on_consumed
  on_consumed-Tidy sid cb c h =
      deferred_finish-Tidy sid _ (call_write-Tidy cb ok_status _ (clear_inflight-Tidy sid c h))

  pub dispatch_stream-Tidy :
      (sid : ℕ) (first : Option Str) (c : Conn) → Tidy c → Tidy (dispatch_stream user sid first c)
  unfolding dispatch_stream
  dispatch_stream-Tidy sid first c h = at_call sid c _ h λ call t.
      if-keeps Tidy call.dispatched _ _ (λ _. h)
        λ _. keeps (stream_call sid call.entry) _ (put-Tidy sid _ c t h)

  deliver_message-Tidy :
      (sid : ℕ) (call : Call) (cb : Option ℕ) (msg : Str) (c : Conn)
      → call.read_cb ≡ cb
      → IsTidy call
      → Tidy c
      → Tidy (deliver_message user sid call cb msg c)
  unfolding deliver_message
  deliver_message-Tidy sid call (some cb) msg c e t h =
      keeps (read_event cb ok_status false msg) _ (put-Tidy sid _ c (unread call t) h)
  deliver_message-Tidy sid call none msg c e (o, p, r) h =
      if-keeps Tidy (leb 64 (length call.pending_msgs)) _ _ (λ _. finish_stream-Tidy sid _ c h)
        λ f. put-Tidy sid _ c (o, room call.pending_msgs msg f, λ k. cc) h

  pub deliver_read-Tidy :
      (sid : ℕ) (st : Status) (eos : Bool) (msg : Str) (c : Conn)
      → Tidy c
      → Tidy (deliver_read user sid st eos msg c)
  unfolding deliver_read
  deliver_read-Tidy sid st eos msg c h = at_call sid c _ h λ call t.
      if-keeps Tidy call.read_finished _ _ (λ _. h)
        λ _.
          if-keeps Tidy (not (is_ok st) || eos) _ _
            (λ _. call_read-Tidy call.read_cb st eos msg _ (put-Tidy sid _ c (unread call t) h))
            (λ _. deliver_message-Tidy sid call call.read_cb msg c refl t h)

  fail_queue-Tidy : (fuel sid : ℕ) (c : Conn) → Tidy c → Tidy (fail_queue user fuel sid c)
  unfolding fail_queue
  fail_queue-Tidy zero sid c h = h
  fail_queue-Tidy (suc fuel) sid c h = at_call sid c _ h λ call (o, p, r).
      list-keeps Tidy call.out_queue _ _ h λ out rest e.
        let shorter : length rest ≤ 64 = ground arith in
        fail_queue-Tidy fuel sid _ (
          call_write-Tidy out.cb _ _
            (put-Tidy sid (record call { out_queue = rest }) c (shorter, p, r) h))

  pub cancel_stream_io-Tidy : (sid : ℕ) (c : Conn) → Tidy c → Tidy (cancel_stream_io user sid c)
  unfolding cancel_stream_io
  cancel_stream_io-Tidy sid c h = at_call sid c _ h λ call t.
      fail_queue-Tidy _ sid _
        (call_read-Tidy call.read_cb _ false [] _ (put-Tidy sid _ c (unread call t) h))
