-- ===== src/Tests/Channels.antt =====
-- Client channels at concrete inputs.
use u_rpc.Prelude.{arith, ℕ, ◌+◌, ◌≡◌, refl, true, false, some, List, [], ◌∷◌}
use u_rpc.Prelude.Str.{codes}
use u_rpc.Prelude.Map.{insert, find-insert_self, find-empty}
use u_rpc.Status.{ok_status, status, unavailable}
use u_rpc.Codec.{new_decoder, encode_frame}
use u_rpc.Loop.{Loop, new_loop, start, drain_pending, post, set_timer}
use u_rpc.Channel.State.{idle, broken, Call, Deferred, Channel}
use u_rpc.Channel.Session.{on_connect, on_connection_lost, on_stream_close}
use u_rpc.Channel.Api.{Event, calls, loop_woken, connect_result, loop_stops, call, run}
use u_rpc.Channel.Ledger.{answered, open_in, waits_in, starts_in}
use u_rpc.Channel.Loss.{loss_answers}
use u_rpc.Channel.Api.{step, run_tasks}
use u_rpc.Channel.Queues.{HasShortQueues}
use u_rpc.Channel.Queues.Events.{run-HasShortQueues}
use u_rpc.Channel.Answers.{call_in_one_place}
use u_rpc.Channel.Faults.{connect_failure_strands, close_erases_twice}

abbrev idle_loop : Loop Deferred
idle_loop = (start true true new_loop).1

abbrev pub new_channel : Channel
new_channel = record {
  address = codes "tcp://127.0.0.1:1";
  max_receive_size = 16;
  timer_init_ok = true;
  session_ids = some 1 ∷ some 3 ∷ [];
  loop = idle_loop;
  state = idle;
  has_socket = false;
  has_session = false;
  calls = [];
  by_stream = [];
  pending = [];
  next_call_id = 1;
  streams = [];
  stream_by_sid = [];
  pending_streams = [];
  sent = [];
  fired = [];
  faulted = false;
}

-- One call before the one that is watched, and the connection.
abbrev before : List Event
before = calls (codes "/s/m") [] 10 (some 5) ∷ loop_woken ∷ connect_result ok_status ∷ []

-- The loop takes the call, and is then stopped.
abbrev woken_then_stopped : List Event
woken_then_stopped = loop_woken ∷ loop_stops ∷ []

call_in_one_place_example :
    let c1 = run before new_channel in
    let (id, c2) = call (codes "/s/m") (encode_frame (8 ∷ []) []) 0 (some 6) c1 in
    let c3 = run woken_then_stopped c2 in
    answered id c3.fired
      + open_in id c3.calls
      + waits_in id c3.pending
      + starts_in id c3.loop.pending
    ≡ 1
unfolding new_loop start run call step run_tasks on_connect drain_pending post set_timer
    encode_frame
call_in_one_place_example =
    call_in_one_place before woken_then_stopped (codes "/s/m") (encode_frame (8 ∷ []) []) 0 (some 6)
      new_channel (refl, refl, refl, refl, refl) (tt, (refl, tt))

abbrev parked : Channel
parked = record new_channel {
  pending_streams =
      record {
        id = 1;
        path = codes "/s/m";
        events = record { on_message = some 1; on_complete = some 2 };
        timeout_ms = 0;
        out_queue = [];
      }
      ∷ [];
}

connect_failure_strands_example :
    ((on_connect (status unavailable (codes "connect failed")) parked).pending_streams
      ≡ parked.pending_streams)
    × ((on_connect (status unavailable (codes "connect failed")) parked).state ≡ broken)
    × (on_connection_lost (on_connect (status unavailable (codes "connect failed")) parked)
        ≡ on_connect (status unavailable (codes "connect failed")) parked)
connect_failure_strands_example =
    connect_failure_strands (status unavailable (codes "connect failed")) parked refl

abbrev open_call : Call
open_call = record {
  id = 1;
  sid = 3;
  timeout_timer = 0;
  decoder = new_decoder 16;
  done = some 5;
  completed = false;
}

abbrev one_open : Channel
one_open = record new_channel { calls = insert 1 open_call []; by_stream = insert 3 1 [] }

close_erases_twice_example : (on_stream_close 3 one_open).faulted ≡ true
close_erases_twice_example =
    close_erases_twice 3 1 open_call one_open (find-empty {V = ℕ} 3) (find-insert_self 3 1 [])
      (find-insert_self 1 open_call []) refl refl refl

-- The second call is still open when the connection is lost.
loss_answers_example :
    let (id, c2) =
      call (codes "/s/m") (encode_frame (8 ∷ []) []) 0 (some 6) (run before new_channel) in
    let c4 = on_connection_lost (run (loop_woken ∷ []) c2) in
    answered id c4.fired + starts_in id c4.loop.pending ≡ 1
unfolding run call new_loop start step run_tasks on_connect drain_pending post set_timer
    encode_frame
loss_answers_example =
    loss_answers before (loop_woken ∷ []) (codes "/s/m") (encode_frame (8 ∷ []) []) 0 (some 6)
      new_channel (refl, refl, refl, refl, refl) (tt, tt) refl

run-HasShortQueues_example : HasShortQueues (run before parked)
run-HasShortQueues_example = run-HasShortQueues before parked (tt, (omega arith, tt))
