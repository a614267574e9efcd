-- ===== src/Channel/Queues/Calls.antt =====
-- The queues of the streams, and the unary operations of urpc/core/source/urpc_channel.cc.
use u_rpc.Prelude.{
  ℕ, not, ◌&&◌, ◌||◌, Option, none, some, List, [], ◌∷◌, if◌then◌else◌, ◌==◌, ltb, is_empty,
  if-keeps, option-keeps,
}
use u_rpc.Prelude.Str.{Str, codes}
use u_rpc.Prelude.Map.{Map, find, insert, erase}
use u_rpc.Status.{Status, is_ok, status, unavailable, deadline_exceeded}
use u_rpc.Codec.{FrameDecoder, consume}
use u_rpc.Loop.{set_timer}
use u_rpc.Wire.{Headers, field, reset}
use u_rpc.Channel.State.{
  State, idle, connecting, ready, broken, Call, PendingCall, call_timeout, Channel, stopped, send,
  head_id, tail_ids,
}
use u_rpc.Channel.Calls.{
  complete_call, submit_request, submitted, call_now, fail_calls, fail_pending, start_calls,
  start_pending, enqueue_call, run_start_call, reset_call, abort_call, run_call_timeout, run_cancel,
}
use u_rpc.Channel.Session.{
  terminal_status, is_200, bad_http, payload_of, call_headers, with_call_of, call_data, close_call,
  erase_call_iterator, stream_closed, fail_open,
}
use u_rpc.Channel.Queues.{Kept}

complete_call-Kept :
    (call : Call) (st : Status) (payload : Str) (c : Channel)
    → Kept c
    → Kept (complete_call call st payload c)
unfolding complete_call
complete_call-Kept call st payload c h = if-keeps Kept call.completed c _ (λ _. h) (λ _. h)

submitted-Kept :
    (answer : Option ℕ) (path framed : Str) (call : Call) (c : Channel)
    → Kept c
    → Kept (submitted answer path framed call c)
unfolding submitted
submitted-Kept none path framed call c h = complete_call-Kept call _ [] c h
submitted-Kept (some sid) path framed call c h =
    unfold submit_request in if-keeps Kept (is_empty framed) _ _ (λ _. h) (λ _. h)

call_now-Kept :
    (path framed : Str) (call : Call) (c : Channel) → Kept c → Kept (call_now path framed call c)
unfolding call_now
call_now-Kept path framed call c h =
    submitted-Kept (head_id c.session_ids) path framed call
      (record c { session_ids = tail_ids c.session_ids }) h

fail_calls-Kept :
    (pcs : List PendingCall) (st : Status) (c : Channel) → Kept c → Kept (fail_calls pcs st c)
unfolding fail_calls
fail_calls-Kept [] st c h = h
fail_calls-Kept (pc ∷ pcs) st c h = fail_calls-Kept pcs st _ (complete_call-Kept pc.call st [] c h)

pub fail_pending-Kept : (st : Status) (c : Channel) → Kept c → Kept (fail_pending st c)
unfolding fail_pending
fail_pending-Kept st c h = fail_calls-Kept c.pending st (record c { pending = [] }) h

start_calls-Kept : (pcs : List PendingCall) (c : Channel) → Kept c → Kept (start_calls pcs c)
unfolding start_calls
start_calls-Kept [] c h = h
start_calls-Kept (pc ∷ pcs) c h =
    start_calls-Kept pcs _ (call_now-Kept pc.path pc.framed pc.call c h)

pub start_pending-Kept : (c : Channel) → Kept c → Kept (start_pending c)
unfolding start_pending
start_pending-Kept c h = start_calls-Kept c.pending (record c { pending = [] }) h

enqueue_call-Kept :
    (s : State) (path framed : Str) (call : Call) (c : Channel)
    → Kept c
    → Kept (enqueue_call s path framed call c)
unfolding enqueue_call
enqueue_call-Kept ready path framed call c h = call_now-Kept path framed call c h
enqueue_call-Kept broken path framed call c h = complete_call-Kept call _ [] c h
enqueue_call-Kept idle path framed call c h = h
enqueue_call-Kept connecting path framed call c h = h

pub run_start_call-Kept :
    (id : ℕ) (path framed : Str) (timeout_ms : ℕ) (cb : Option ℕ) (d : FrameDecoder) (c : Channel)
    → Kept c
    → Kept (run_start_call id path framed timeout_ms cb d c)
unfolding run_start_call
run_start_call-Kept id path framed timeout_ms cb d c h =
    enqueue_call-Kept c.state path framed _
      (record c {
        loop =
            (if ltb 0 timeout_ms
              then set_timer c.timer_init_ok (call_timeout id) c.loop
              else (0, c.loop)).1;
      })
      h

abort_call-Kept : (call : Call) (st : Status) (c : Channel) → Kept c → Kept (abort_call call st c)
unfolding abort_call reset_call
abort_call-Kept call st c h =
    if-keeps Kept (not (call.sid == 0) && c.has_session)
      (send (reset call.sid 0x8) (record c { by_stream = erase call.sid c.by_stream })) c (λ _. h)
      (λ _. h)

pub run_call_timeout-Kept : (id : ℕ) (c : Channel) → Kept c → Kept (run_call_timeout id c)
unfolding run_call_timeout
run_call_timeout-Kept id c h = option-keeps Kept (find id c.calls) c _ h λ call e.
    if-keeps Kept call.completed c _ (λ _. h)
      (λ _. abort_call-Kept call (status deadline_exceeded (codes "deadline exceeded")) c h)

pub run_cancel-Kept : (id : ℕ) (c : Channel) → Kept c → Kept (run_cancel id c)
unfolding run_cancel
run_cancel-Kept id c h = option-keeps Kept (find id c.calls) c _ h λ call e.
    if-keeps Kept call.completed c _ (λ _. h)
      (λ _.
        abort_call-Kept call (status unavailable (codes "cancelled"))
          (record c { loop = stopped call.timeout_timer c.loop }) h)

pub with_call_of-Kept :
    (o : Option ℕ) (c : Channel) (f : Call → Channel)
    → Kept c
    → ((call : Call) → Kept (f call))
    → Kept (with_call_of o c f)
with_call_of-Kept none c f h k = h
with_call_of-Kept (some id) c f h k = option-keeps Kept (find id c.calls) c f h λ call e. k call

pub call_headers-Kept :
    (call : Call) (hs : Headers) (c : Channel) → Kept c → Kept (call_headers call hs c)
unfolding call_headers
call_headers-Kept call hs c h =
    option-keeps Kept (terminal_status hs) _ _
      (if-keeps Kept (is_200 (field (codes ":status") hs)) c _ (λ _. h)
        (λ _. complete_call-Kept call bad_http [] c h))
      (λ st _. complete_call-Kept call st (payload_of call.decoder) c h)

pub call_data-Kept :
    (call : Call) (bytes : Str) (c : Channel) → Kept c → Kept (call_data call bytes c)
unfolding call_data
call_data-Kept call bytes c h =
    if-keeps Kept (call.completed || is_empty bytes) c _ (λ _. h)
      λ _.
        let (st, d) = consume call.decoder bytes in
        let call' = record call { decoder = d } in
        let c' = record c { calls = insert call.id call' c.calls } in
        if-keeps Kept (is_ok st) c' _ (λ _. h) (λ _. complete_call-Kept call' st [] c' h)

pub close_call-Kept : (o : Option ℕ) (sid : ℕ) (c : Channel) → Kept c → Kept (close_call o sid c)
unfolding close_call
close_call-Kept none sid c h = h
close_call-Kept (some id) sid c h =
    unfold erase_call_iterator in
    with_call_of-Kept (some id) c _ h λ call. complete_call-Kept call stream_closed [] c h

pub fail_open-Kept : (m : Map Call) (c : Channel) → Kept c → Kept (fail_open m c)
unfolding fail_open
fail_open-Kept [] c h = h
fail_open-Kept ((id, call) ∷ m) c h =
    fail_open-Kept m _ (if-keeps Kept call.completed c _ (λ _. h) (λ _. h))
