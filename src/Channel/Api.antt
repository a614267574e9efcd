-- ===== src/Channel/Api.antt =====
-- The public methods of Channel, which post to the loop, and the events that drive it.
use u_rpc.Prelude.{ℕ, ◌+◌, Bool, Option, none, some, List, [], ◌∷◌}
use u_rpc.Prelude.Str.{Str}
use u_rpc.Status.{Status}
use u_rpc.Codec.{new_decoder}
use u_rpc.Loop.{stop, Task, posted, close_all_handles, post, close_all, drain_pending, fire_timer}
use u_rpc.Wire.{Headers}
use u_rpc.Channel.State.{
  StreamEvents, Deferred, start_call, cancel_call, open_stream, send_on_stream, close_stream_send,
  pump_stream, call_timeout, stream_timeout, Channel,
}
use u_rpc.Channel.Calls.{run_start_call, run_cancel, run_call_timeout}
use u_rpc.Channel.Streams.{
  run_open_stream, run_send, run_close_send, run_pump, run_stream_timeout, on_consumed,
}
use u_rpc.Channel.Session.{on_headers, on_data, on_stream_close, on_connect, on_connection_lost}

abbrev post_task : Deferred → Channel → Channel
post_task t c = record c { loop = post (some t) c.loop }

-- Channel::Call
unfoldable pub call : Str → Str → ℕ → Option ℕ → Channel → ℕ × Channel
call path framed timeout_ms cb c = (
  c.next_call_id,
  post_task (start_call c.next_call_id path framed timeout_ms cb (new_decoder c.max_receive_size))
      (record c { next_call_id = c.next_call_id + 1 }),
)

-- Channel::Cancel
unfoldable pub cancel : ℕ → Channel → Channel
cancel id c = post_task (cancel_call id) c

-- Channel::OpenStream
unfoldable pub open_new_stream : Str → StreamEvents → ℕ → Channel → ℕ × Channel
open_new_stream path events timeout_ms c = (
  c.next_call_id,
  post_task (open_stream c.next_call_id path events timeout_ms)
      (record c { next_call_id = c.next_call_id + 1 }),
)

-- Channel::StreamSend
unfoldable pub stream_send : ℕ → Str → Option ℕ → Bool → Channel → Channel
stream_send id framed cb close c = post_task (send_on_stream id framed cb close) c

-- Channel::StreamCloseSend
unfoldable pub stream_close_send : ℕ → Channel → Channel
stream_close_send id c = post_task (close_stream_send id) c

-- Channel::set_max_receive_size
unfoldable pub set_max_receive_size : ℕ → Channel → Channel
set_max_receive_size n c = record c { max_receive_size = n }

unfoldable pub run_deferred : Deferred → Channel → Channel
unfolding run_start_call run_cancel run_open_stream run_send run_close_send run_pump
    run_call_timeout run_stream_timeout
run_deferred (start_call id path framed timeout_ms cb d) c =
    run_start_call id path framed timeout_ms cb d c
run_deferred (cancel_call id) c = run_cancel id c
run_deferred (open_stream id path events timeout_ms) c = run_open_stream id path events timeout_ms c
run_deferred (send_on_stream id framed cb close) c =
    run_send id (record { framed = framed; close = close; cb = cb }) c
run_deferred (close_stream_send id) c = run_close_send id c
run_deferred (pump_stream id) c = run_pump id c
run_deferred (call_timeout id) c = run_call_timeout id c
run_deferred (stream_timeout id) c = run_stream_timeout id c

unfoldable pub run_task : Task Deferred → Channel → Channel
unfolding run_deferred
run_task (posted t) c = run_deferred t c
run_task close_all_handles c = record c { loop = close_all c.loop }

unfoldable pub run_tasks : List (Task Deferred) → Channel → Channel
unfolding run_task
run_tasks [] c = c
run_tasks (t ∷ ts) c = run_tasks ts (run_task t c)

abbrev pub run_fired : Option Deferred → Channel → Channel
run_fired none c = c
run_fired (some t) c = run_deferred t c

-- What reaches the channel: calls of its methods from any thread, the loop, the session and the
-- socket, and LoopRunner::Stop, which urpc::Channel::Close calls.
pub data Event : Type 0 where
  calls : Str → Str → ℕ → Option ℕ → Event
  cancels : ℕ → Event
  opens : Str → StreamEvents → ℕ → Event
  sends : ℕ → Str → Option ℕ → Bool → Event
  closes_send : ℕ → Event
  limits : ℕ → Event
  loop_woken : Event
  timer_fired : ℕ → Event
  connect_result : Status → Event
  headers_complete : ℕ → Headers → Event
  data_received : ℕ → Str → Event
  stream_close : ℕ → Event
  consumed : ℕ → Option ℕ → Event
  connection_lost : Event
  loop_stops : Event

unfoldable pub step : Event → Channel → Channel
unfolding call cancel open_new_stream stream_send stream_close_send set_max_receive_size run_tasks
    run_deferred on_connect on_headers on_data on_stream_close on_consumed on_connection_lost stop
step (calls path framed timeout_ms cb) c = (call path framed timeout_ms cb c).1
step (cancels id) c = cancel id c
step (opens path events timeout_ms) c = (open_new_stream path events timeout_ms c).1
step (sends id framed cb close) c = stream_send id framed cb close c
step (closes_send id) c = stream_close_send id c
step (limits n) c = set_max_receive_size n c
step loop_woken c = let (ready, l) = drain_pending c.loop in run_tasks ready (record c { loop = l })
step (timer_fired id) c = let (t, l) = fire_timer id c.loop in run_fired t (record c { loop = l })
step (connect_result st) c = on_connect st c
step (headers_complete sid hs) c = on_headers sid hs c
step (data_received sid bytes) c = on_data sid bytes c
step (stream_close sid) c = on_stream_close sid c
step (consumed id cb) c = on_consumed id cb c
step connection_lost c = on_connection_lost c
step loop_stops c = record c { loop = stop c.loop }

unfoldable pub run : List Event → Channel → Channel
unfolding step
run [] c = c
run (e ∷ es) c = run es (step e c)
