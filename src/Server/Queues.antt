-- ===== src/Server/Queues.antt =====
-- The two queues of a streaming call and the read that waits (urpc/core/source/urpc_server.cc): how a
-- call is ended, and what sends.
pub mod Delivery
pub mod Incoming
pub mod Events
use u_rpc.Prelude.{
  ℕ, ◌≤◌, ◌≡◌, true, false, not, ◌&&◌, ◌||◌, some, List, [], ◌∷◌, arith, length, is_empty, is_some,
  All, if-keeps, option-keeps,
}
use u_rpc.Prelude.Str.{Str}
use u_rpc.Prelude.Map.{find, insert}
use u_rpc.Prelude.Map.Sorted.{All-insert, All-find}
use u_rpc.Status.{Status, StatusCode, is_ok}
use u_rpc.Router.{is_unary}
use u_rpc.Wire.{headers, trailers}
use u_rpc.Server.State.{OutMsg, Call, Conn, put, send, with_call, stop_timer}
use u_rpc.Server.Terminal.{
  response_headers, send_trailers_only, mark_responded, trailers_only, respond_error, send_response,
  respond, send_deadline, clear_cancel_cbs,
}
use u_rpc.Server.Stream.{
  finish_call, finish_stream, maybe_send_deferred_finish, pump_message, pump_call, pump_out,
  clear_inflight,
}
use u_rpc.Server.Rules.{with_call-keeps}

-- Both queues hold 64 messages at most, and a read waits only where no message is pending.
abbrev pub IsTidy : Call → Type 0
IsTidy call =
    (length call.out_queue ≤ 64)
    × (length call.pending_msgs ≤ 64)
    × (is_some call.read_cb ≡ true → call.pending_msgs ≡ [])

abbrev pub Held : ℕ × Call → Type 0
Held (sid, call) = IsTidy call

abbrev pub Tidy : Conn → Type 0
Tidy c = All Held c.calls

pub put-Tidy : (sid : ℕ) (call : Call) (c : Conn) → IsTidy call → Tidy c → Tidy (put sid call c)
put-Tidy sid call c t h = All-insert Held sid call c.calls t h

pub found-IsTidy :
    (sid : ℕ) (call : Call) (c : Conn) → find sid c.calls ≡ some call → Tidy c → IsTidy call
found-IsTidy sid call c e h = All-find Held sid call c.calls e h

-- The one rule for operations that look the call up.
pub at_call :
    (sid : ℕ) (c : Conn) (f : Call → Conn)
    → Tidy c
    → ((call : Call) → IsTidy call → Tidy (f call))
    → Tidy (with_call sid c f)
at_call sid c f h k = with_call-keeps Tidy sid c f h λ call e. k call (found-IsTidy sid call c e h)

send_trailers_only-Tidy :
    (sid : ℕ) (code : StatusCode) (msg : Str) (c : Conn)
    → Tidy c
    → Tidy (send_trailers_only sid code msg c)
unfolding send_trailers_only
send_trailers_only-Tidy sid code msg c h = h

mark_responded-Tidy :
    (sid : ℕ) (call : Call) (c : Conn) → IsTidy call → Tidy c → Tidy (mark_responded sid call c)
unfolding mark_responded
mark_responded-Tidy sid call c t h = put-Tidy sid _ (stop_timer call.deadline_timer c) t h

pub trailers_only-Tidy :
    (sid : ℕ) (code : StatusCode) (msg : Str) (c : Conn)
    → Tidy c
    → Tidy (trailers_only sid code msg c)
unfolding trailers_only send_trailers_only
trailers_only-Tidy sid code msg c h = option-keeps Tidy (find sid c.calls) _ _ h λ call e.
    if-keeps Tidy call.responded _ _ (λ _. h)
      λ _. mark_responded-Tidy sid call c (found-IsTidy sid call c e h) h

pub respond_error-Tidy : (sid : ℕ) (st : Status) (c : Conn) → Tidy c → Tidy (respond_error sid st c)
unfolding respond_error
respond_error-Tidy sid st c h = at_call sid c _ h λ call t.
    if-keeps Tidy call.responded _ _ (λ _. h)
      λ _. trailers_only-Tidy sid st.code st.message _ (mark_responded-Tidy sid call c t h)

send_response-Tidy :
    (sid : ℕ) (st : Status) (payload : Str) (c : Conn)
    → Tidy c
    → Tidy (send_response sid st payload c)
unfolding send_response send_trailers_only
send_response-Tidy sid st payload c h = if-keeps Tidy (is_ok st) _ _ (λ _. h) (λ _. h)

pub respond-Tidy :
    (sid : ℕ) (st : Status) (payload : Str) (c : Conn) → Tidy c → Tidy (respond sid st payload c)
unfolding respond
respond-Tidy sid st payload c h = at_call sid c _ h λ call t.
    if-keeps Tidy call.responded _ _ (λ _. h)
      λ _. send_response-Tidy sid st payload _ (mark_responded-Tidy sid call c t h)

pub send_deadline-Tidy : (sid : ℕ) (c : Conn) → Tidy c → Tidy (send_deadline sid c)
unfolding send_deadline send_trailers_only
send_deadline-Tidy sid c h = at_call sid c _ h λ call t.
    let h' = put-Tidy sid (record call { responded = true; deadline_timer = 0 }) c t h in
    if-keeps Tidy call.responded _ _ (λ _. h)
      λ _.
        if-keeps Tidy (not (is_unary call.form) && call.response_headers_sent) _ _ (λ _. h')
          (λ _. h')

finish_call-Tidy :
    (sid : ℕ) (st : Status) (call : Call) (c : Conn)
    → IsTidy call
    → Tidy c
    → Tidy (finish_call sid st call c)
unfolding finish_call send_trailers_only
finish_call-Tidy sid st call c t h =
    if-keeps Tidy (call.out_inflight || not (is_empty call.out_queue)) _ _
      (λ _. put-Tidy sid _ (stop_timer call.deadline_timer c) t h)
      (λ _.
        if-keeps Tidy (not call.response_headers_sent) _ _
          (λ _. put-Tidy sid _ (stop_timer call.deadline_timer c) t h)
          (λ _. put-Tidy sid _ (stop_timer call.deadline_timer c) t h))

pub finish_stream-Tidy : (sid : ℕ) (st : Status) (c : Conn) → Tidy c → Tidy (finish_stream sid st c)
unfolding finish_stream
finish_stream-Tidy sid st c h =
    at_call sid c _ h
      λ call t. if-keeps Tidy call.responded _ _ (λ _. h) λ _. finish_call-Tidy sid st call c t h

pub deferred_finish-Tidy : (sid : ℕ) (c : Conn) → Tidy c → Tidy (maybe_send_deferred_finish sid c)
unfolding maybe_send_deferred_finish
deferred_finish-Tidy sid c h = at_call sid c _ h λ call t.
    if-keeps Tidy
      (not call.has_finish_pending || (call.out_inflight || not (is_empty call.out_queue))) _ _
      (λ _. h) (λ _. put-Tidy sid (record call { has_finish_pending = false }) c t h)

pump_message-Tidy :
    (sid : ℕ) (call : Call) (out : OutMsg) (rest : List OutMsg) (c : Conn)
    → IsTidy (record call { out_queue = rest })
    → Tidy c
    → Tidy (pump_message sid call out rest c)
unfolding pump_message
pump_message-Tidy sid call out rest c t h =
    let c' =
      put sid (record call { out_queue = rest; out_inflight = true; response_headers_sent = true })
        c in
    let p : Tidy c' = put-Tidy sid _ c t h in
    if-keeps Tidy call.response_headers_sent c' (send (headers sid response_headers false) c')
      (λ _. p) (λ _. p)

pump_call-Tidy :
    (sid : ℕ) (call : Call) (q : List OutMsg) (c : Conn)
    → IsTidy (record call { out_queue = q })
    → Tidy c
    → Tidy (pump_call sid call q c)
unfolding pump_call
pump_call-Tidy sid call [] c t h = h
pump_call-Tidy sid call (out ∷ rest) c (l, p, r) h =
    if-keeps Tidy (call.out_inflight || (call.responded || call.write_closed)) _ _ (λ _. h)
      λ _. pump_message-Tidy sid call out rest c (omega arith, p, r) h

pub pump_out-Tidy : (sid : ℕ) (c : Conn) → Tidy c → Tidy (pump_out sid c)
unfolding pump_out
pump_out-Tidy sid c h = at_call sid c _ h λ call t. pump_call-Tidy sid call call.out_queue c t h

pub clear_inflight-Tidy : (sid : ℕ) (c : Conn) → Tidy c → Tidy (clear_inflight sid c)
unfolding clear_inflight
clear_inflight-Tidy sid c h = at_call sid c _ h λ call t. put-Tidy sid _ c t h

pub clear_cancel_cbs-Tidy : (sid : ℕ) (c : Conn) → Tidy c → Tidy (clear_cancel_cbs sid c)
unfolding clear_cancel_cbs
clear_cancel_cbs-Tidy sid c h = at_call sid c _ h λ call t. put-Tidy sid _ c t h
