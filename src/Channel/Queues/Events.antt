-- ===== src/Channel/Queues/Events.antt =====
-- The queues of the streams over everything that reaches a channel (urpc/core/source/urpc_channel.cc).
use u_rpc.Prelude.{
  ℕ, true, false, Option, none, some, List, [], ◌∷◌, is_empty, if-keeps, option-keeps,
}
use u_rpc.Prelude.Str.{Str, codes}
use u_rpc.Prelude.Map.{Map, find}
use u_rpc.Prelude.Map.Sorted.{All-find}
use u_rpc.Status.{Status, is_ok, ok_status}
use u_rpc.Codec.{consume}
use u_rpc.Loop.{Task, posted, close_all_handles, close_all, drain_pending, fire_timer}
use u_rpc.Wire.{Headers, field}
use u_rpc.Channel.State.{
  broken, ready, Stream, PendingStream, Deferred, start_call, cancel_call, open_stream,
  send_on_stream, close_stream_send, pump_stream, call_timeout, stream_timeout, Channel, message,
  fire,
}
use u_rpc.Channel.Calls.{start_pending}
use u_rpc.Channel.Session.{
  stream_headers, terminal_status, is_200, bad_http, report_messages, emptied, stream_data,
  close_stream, erase_stream_iterator, with_stream_of, stream_closed, fail_streams, fail_parked,
  fail_open, lost, lose, is_broken, on_headers, on_data, on_stream_close, on_connect,
  on_connection_lost,
}
use u_rpc.Channel.Api.{
  Event, calls, cancels, opens, sends, closes_send, limits, loop_woken, timer_fired, connect_result,
  headers_complete, data_received, stream_close, consumed, connection_lost, loop_stops, call,
  cancel, open_new_stream, stream_send, stream_close_send, set_max_receive_size, run_deferred,
  run_task, run_tasks, run_fired, step, run,
}
use u_rpc.Channel.Queues.{
  IsShort, Open, HasShortQueues, Kept, put-Kept, fail_stream-Kept, complete_stream-Kept,
  run_pump-Kept, on_consumed-Kept, start_pending_streams-Kept, run_stream_timeout-Kept,
  run_open_stream-Kept, run_send-Kept, run_close_send-Kept,
}
use u_rpc.Channel.Queues.Calls.{
  fail_pending-Kept, start_pending-Kept, run_start_call-Kept, run_call_timeout-Kept,
  run_cancel-Kept, with_call_of-Kept, call_headers-Kept, call_data-Kept, close_call-Kept,
  fail_open-Kept,
}

with_stream_of-Kept :
    (id : ℕ) (c : Channel) (f : Stream → Channel)
    → Kept c
    → ((s : Stream) → IsShort s.out_queue → Kept (f s))
    → Kept (with_stream_of id c f)
with_stream_of-Kept id c f h k = option-keeps Kept (find id c.streams) c _ h λ s e.
    if-keeps Kept s.completed c (f s) (λ _. h) (λ _. k s (All-find Open id s c.streams e h.0))

stream_headers-Kept :
    (id : ℕ) (s : Stream) (hs : Headers) (c : Channel) → Kept c → Kept (stream_headers id s hs c)
unfolding stream_headers
stream_headers-Kept id s hs c h =
    option-keeps Kept (terminal_status hs) _ _
      (if-keeps Kept (is_200 (field (codes ":status") hs)) c _ (λ _. h)
        (λ _. complete_stream-Kept id s bad_http c h))
      (λ st _. complete_stream-Kept id s st c h)

report_messages-Kept :
    (id : ℕ) (cb : Option ℕ) (ms : List Str) (c : Channel)
    → Kept c
    → Kept (report_messages id cb ms c)
unfolding report_messages
report_messages-Kept id cb [] c h = h
report_messages-Kept id cb (m ∷ ms) c h =
    report_messages-Kept id cb ms (fire (message id cb ok_status m) c) h

stream_data-Kept :
    (id : ℕ) (s : Stream) (bytes : Str) (c : Channel)
    → IsShort s.out_queue
    → Kept c
    → Kept (stream_data id s bytes c)
unfolding stream_data
stream_data-Kept id s bytes c l h =
    if-keeps Kept (is_empty bytes) c _ (λ _. h)
      λ _.
        let (st, d) = consume s.decoder bytes in
        if-keeps Kept (is_ok st) _ _
          (λ _.
            report_messages-Kept id s.events.on_message d.messages _
              (put-Kept id (record s { decoder = emptied d }) c l h))
          (λ _. complete_stream-Kept id (record s { decoder = d }) st c h)

close_stream-Kept : (o : Option ℕ) (sid : ℕ) (c : Channel) → Kept c → Kept (close_stream o sid c)
unfolding close_stream
close_stream-Kept none sid c h = h
close_stream-Kept (some id) sid c h =
    unfold erase_stream_iterator in
    with_stream_of-Kept id c _ h λ s _.
      if-keeps Kept s.rst_pending c _ (λ _. h) (λ _. complete_stream-Kept id s stream_closed c h)

fail_streams-Kept : (m : Map Stream) (c : Channel) → Kept c → Kept (fail_streams m c)
unfolding fail_streams
fail_streams-Kept [] c h = h
fail_streams-Kept ((id, s) ∷ m) c h = fail_streams-Kept m _ (
    if-keeps Kept s.completed c _ (λ _. h)
      (λ _. fail_stream-Kept s.id s.out_queue s.events lost c h))

fail_parked-Kept : (pss : List PendingStream) (c : Channel) → Kept c → Kept (fail_parked pss c)
unfolding fail_parked
fail_parked-Kept [] c h = h
fail_parked-Kept (ps ∷ pss) c h =
    fail_parked-Kept pss _ (fail_stream-Kept ps.id [] ps.events lost c h)

on_headers-Kept : (sid : ℕ) (hs : Headers) (c : Channel) → Kept c → Kept (on_headers sid hs c)
unfolding on_headers
on_headers-Kept sid hs c h =
    option-keeps Kept (find sid c.stream_by_sid) _ _
      (with_call_of-Kept (find sid c.by_stream) c _ h (λ call. call_headers-Kept call hs c h))
      (λ id _. with_stream_of-Kept id c _ h (λ s _. stream_headers-Kept id s hs c h))

on_data-Kept : (sid : ℕ) (bytes : Str) (c : Channel) → Kept c → Kept (on_data sid bytes c)
unfolding on_data
on_data-Kept sid bytes c h =
    option-keeps Kept (find sid c.stream_by_sid) _ _
      (with_call_of-Kept (find sid c.by_stream) c _ h (λ call. call_data-Kept call bytes c h))
      (λ id _. with_stream_of-Kept id c _ h (λ s l. stream_data-Kept id s bytes c l h))

on_stream_close-Kept : (sid : ℕ) (c : Channel) → Kept c → Kept (on_stream_close sid c)
unfolding on_stream_close
on_stream_close-Kept sid c h =
    let c' = close_stream (find sid c.stream_by_sid) sid c in
    close_call-Kept (find sid c'.by_stream) sid c'
      (close_stream-Kept (find sid c.stream_by_sid) sid c h)

on_connect-Kept : (st : Status) (c : Channel) → Kept c → Kept (on_connect st c)
unfolding on_connect
on_connect-Kept st c h =
    let c' = record c { has_socket = true; has_session = true; state = ready } in
    if-keeps Kept (is_ok st) _ _
      (λ _. start_pending_streams-Kept (start_pending c') (start_pending-Kept c' h))
      (λ _. fail_pending-Kept st (record c { state = broken }) h)

on_connection_lost-Kept : (c : Channel) → Kept c → Kept (on_connection_lost c)
unfolding on_connection_lost lose
on_connection_lost-Kept c h =
    let bare = record c {
      state = broken;
      has_socket = false;
      has_session = false;
      calls = [];
      by_stream = [];
      streams = [];
      stream_by_sid = [];
      pending_streams = [];
    } in
    let s = fail_streams c.streams bare in
    let p = fail_parked c.pending_streams s in
    if-keeps Kept (is_broken c.state) c _ (λ _. h)
      λ _. fail_pending-Kept lost (fail_open c.calls p) (
        fail_open-Kept c.calls p
          (fail_parked-Kept c.pending_streams s (fail_streams-Kept c.streams bare (tt, tt))))

run_deferred-Kept : (t : Deferred) (c : Channel) → Kept c → Kept (run_deferred t c)
unfolding run_deferred
run_deferred-Kept (start_call id path framed timeout_ms cb d) c h =
    run_start_call-Kept id path framed timeout_ms cb d c h
run_deferred-Kept (cancel_call id) c h = run_cancel-Kept id c h
run_deferred-Kept (open_stream id path events timeout_ms) c h =
    run_open_stream-Kept id path events timeout_ms c h
run_deferred-Kept (send_on_stream id framed cb close) c h = run_send-Kept id _ c h
run_deferred-Kept (close_stream_send id) c h = run_close_send-Kept id c h
run_deferred-Kept (pump_stream id) c h = run_pump-Kept id c h
run_deferred-Kept (call_timeout id) c h = run_call_timeout-Kept id c h
run_deferred-Kept (stream_timeout id) c h = run_stream_timeout-Kept id c h

run_tasks-Kept : (ts : List (Task Deferred)) (c : Channel) → Kept c → Kept (run_tasks ts c)
unfolding run_tasks run_task
run_tasks-Kept [] c h = h
run_tasks-Kept (posted t ∷ ts) c h = run_tasks-Kept ts _ (run_deferred-Kept t c h)
run_tasks-Kept (close_all_handles ∷ ts) c h =
    run_tasks-Kept ts (record c { loop = close_all c.loop }) h

run_fired-Kept : (o : Option Deferred) (c : Channel) → Kept c → Kept (run_fired o c)
run_fired-Kept none c h = h
run_fired-Kept (some t) c h = run_deferred-Kept t c h

step-Kept : (e : Event) (c : Channel) → Kept c → Kept (step e c)
unfolding step call cancel open_new_stream stream_send stream_close_send set_max_receive_size
step-Kept (calls path framed timeout_ms cb) c h = h
step-Kept (cancels id) c h = h
step-Kept (opens path events timeout_ms) c h = h
step-Kept (sends id framed cb close) c h = h
step-Kept (closes_send id) c h = h
step-Kept (limits n) c h = h
step-Kept loop_woken c h =
    run_tasks-Kept (drain_pending c.loop).0 (record c { loop = (drain_pending c.loop).1 }) h
step-Kept (timer_fired id) c h =
    run_fired-Kept (fire_timer id c.loop).0 (record c { loop = (fire_timer id c.loop).1 }) h
step-Kept (connect_result st) c h = on_connect-Kept st c h
step-Kept (headers_complete sid hs) c h = on_headers-Kept sid hs c h
step-Kept (data_received sid bytes) c h = on_data-Kept sid bytes c h
step-Kept (stream_close sid) c h = on_stream_close-Kept sid c h
step-Kept (consumed id cb) c h = on_consumed-Kept id cb c h
step-Kept connection_lost c h = on_connection_lost-Kept c h
step-Kept loop_stops c h = h

-- Whatever reaches a channel, no stream ever holds more than 64 messages that wait to be sent, open or
-- parked until the connection stands: from a channel where none does.
pub run-HasShortQueues :
    (es : List Event) (c : Channel) → HasShortQueues c → HasShortQueues (run es c)
unfolding run
run-HasShortQueues [] c h = h
run-HasShortQueues (e ∷ es) c h = run-HasShortQueues es (step e c) (step-Kept e c h)
