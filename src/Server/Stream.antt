-- ===== src/Server/Stream.antt =====
-- The streaming machinery: DispatchStream, DeliverRead, PumpOut, MaybeSendDeferredFinish,
-- FinishStream and CancelStreamIo of urpc/core/source/urpc_server.cc.
use u_rpc.Prelude.{
  ℕ, zero, suc, Bool, true, false, ◌||◌, not, Option, none, some, List, [], ◌∷◌, ◌++◌,
  if◌then◌else◌, leb, length, is_empty,
}
use u_rpc.Prelude.Str.{Str, codes}
use u_rpc.Prelude.Map.{find, insert}
use u_rpc.Status.{Status, is_ok, ok_status, status, resource_exhausted, unavailable}
use u_rpc.Loop.{post}
use u_rpc.Wire.{headers, body, trailers}
use u_rpc.Server.State.{
  with_call, OutMsg, Call, Conn, User, stream_ctx, pump, stream_call, read_event, write_event, put,
  send, stop_timer,
}
use u_rpc.Server.Terminal.{response_headers, status_trailers, send_trailers_only}

-- FinishStream on a call that has not responded.
unfoldable pub finish_call : ℕ → Status → Call → Conn → Conn
unfolding send_trailers_only
finish_call sid st call c =
    let call' = record call {
      responded = true;
      write_closed = true;
      read_finished = true;
      deadline_timer = 0;
    } in
    let c' = stop_timer call.deadline_timer c in
    if call.out_inflight || not (is_empty call.out_queue)
    then put sid (record call' { finish_pending = st; has_finish_pending = true }) c'
    else (if not call.response_headers_sent
        then send_trailers_only sid st.code st.message (put sid call' c')
        else send (trailers sid (status_trailers st.code st.message)) (put sid call' c'))

unfoldable pub finish_stream : ℕ → Status → Conn → Conn
unfolding finish_call
finish_stream sid st c =
    with_call sid c λ call. if call.responded then c else finish_call sid st call c

unfoldable pub maybe_send_deferred_finish : ℕ → Conn → Conn
maybe_send_deferred_finish sid c = with_call sid c λ call.
    if not call.has_finish_pending || (call.out_inflight || not (is_empty call.out_queue))
    then c
    else send (trailers sid (status_trailers call.finish_pending.code call.finish_pending.message))
        (put sid (record call { has_finish_pending = false }) c)

-- PumpOut past its guards: the response headers if they have not gone out, then one message. The
-- closure given to SendData is `on_consumed`.
unfoldable pub pump_message : ℕ → Call → OutMsg → List OutMsg → Conn → Conn
pump_message sid call out rest c =
    let c' =
      put sid (record call { out_queue = rest; out_inflight = true; response_headers_sent = true })
        c in
    send (body sid out.framed false (some (record { owner = sid; cb = out.cb })))
      (if call.response_headers_sent then c' else send (headers sid response_headers false) c')

unfoldable pub pump_call : ℕ → Call → List OutMsg → Conn → Conn
unfolding pump_message
pump_call sid call [] c = c
pump_call sid call (out ∷ rest) c =
    if call.out_inflight || (call.responded || call.write_closed)
    then c
    else pump_message sid call out rest c

unfoldable pub pump_out : ℕ → Conn → Conn
unfolding pump_call
pump_out sid c = with_call sid c λ call. pump_call sid call call.out_queue c

-- `it2->second.out_inflight = false`
unfoldable pub clear_inflight : ℕ → Conn → Conn
clear_inflight sid c = with_call sid c λ call. put sid (record call { out_inflight = false }) c

module _ (user : User) where
  -- A callback that may be null.
  abbrev pub call_write : Option ℕ → Status → Conn → Conn
  call_write none st c = c
  call_write (some cb) st c = user (write_event cb st) c

  -- What PumpOut gives SendData to call when the body is consumed.
  unfoldable pub on_consumed : ℕ → Option ℕ → Conn → Conn
  unfolding clear_inflight maybe_send_deferred_finish
  on_consumed sid cb c =
      let c' = call_write cb ok_status (clear_inflight sid c) in
      maybe_send_deferred_finish sid (record c' { loop = post (some (pump sid)) c'.loop })

  unfoldable pub dispatch_stream : ℕ → Option Str → Conn → Conn
  dispatch_stream sid first c = with_call sid c λ call.
      if call.dispatched
      then c
      else (let c' = put sid (record call { dispatched = true }) c in
          user (stream_call sid call.entry)
            (record c' { ctxs = insert sid (stream_ctx first) c'.ctxs }))

  -- The read callback, if one waits, is taken out and called.
  abbrev pub call_read : Option ℕ → Status → Bool → Str → Conn → Conn
  call_read none st eos msg c = c
  call_read (some cb) st eos msg c = user (read_event cb st eos msg) c

  -- DeliverRead of a message, by the callback that waits.
  unfoldable pub deliver_message : ℕ → Call → Option ℕ → Str → Conn → Conn
  unfolding finish_stream
  deliver_message sid call (some cb) msg c =
      user (read_event cb ok_status false msg) (put sid (record call { read_cb = none }) c)
  deliver_message sid call none msg c =
      if leb 64 (length call.pending_msgs)
      then finish_stream sid (status resource_exhausted (codes "too many unread request messages"))
          c
      else put sid (record call { pending_msgs = call.pending_msgs ++ msg ∷ [] }) c

  unfoldable pub deliver_read : ℕ → Status → Bool → Str → Conn → Conn
  unfolding deliver_message
  deliver_read sid st eos msg c = with_call sid c λ call.
      if call.read_finished
      then c
      else (if not (is_ok st) || eos
          then call_read call.read_cb st eos msg
              (put sid (record call { read_finished = true; read_cb = none }) c)
          else deliver_message sid call call.read_cb msg c)

  abbrev cancelled : Status
  cancelled = status unavailable (codes "stream cancelled")

  -- `while (!call.out_queue.empty())`: one round takes the front message and fails it.
  unfoldable pub fail_queue : ℕ → ℕ → Conn → Conn
  fail_queue zero sid c = c
  fail_queue (suc fuel) sid c = with_call sid c λ call. elim call.out_queue [
    | [] ↦ c
    | out ∷ rest ↦
        fail_queue fuel sid
          (call_write out.cb cancelled (put sid (record call { out_queue = rest }) c))
  ]

  -- The length of the queue of a call.
  unfoldable pub queued : ℕ → Conn → ℕ
  queued sid c = elim (find sid c.calls) [ none ↦ 0 | some call ↦ length call.out_queue ]

  -- The fuel is the length of the queue, which is enough for user code that sends nothing on the
  -- stream from a failed write.
  unfoldable pub cancel_stream_io : ℕ → Conn → Conn
  unfolding fail_queue queued
  cancel_stream_io sid c = with_call sid c λ call.
      let c' =
        call_read call.read_cb cancelled false []
          (put sid (record call { read_finished = true; read_cb = none }) c) in
      fail_queue (queued sid c') sid c'
