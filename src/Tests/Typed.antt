-- ===== src/Tests/Typed.antt =====
-- The typed API at concrete inputs: a message is a text, which is its own encoding.
use u_rpc.Prelude.{
  ◌+◌, ◌<◌, ◌≡◌, refl, ◌⊎◌, Bool, true, false, Option, none, some, List, [], ◌∷◌, length, to_ℕ,
}
use u_rpc.Prelude.Str.{Str, codes}
use u_rpc.Status.{Status, ok_status, status, unavailable}
use u_rpc.Loop.{new_loop}
use u_rpc.Channel.State.{Channel, StreamEvents, idle}
use u_rpc.Typed.Writer.{
  WriterEvent, writes, delivers, settles, returns, new_write_state, run, write_message, finish,
}
use u_rpc.Typed.Settles.{finish_count, ends_finished, stream_settles}
use u_rpc.Typed.Delivers.{held_times, called_times, handed_times, delivered_once}
use u_rpc.Typed.Channels.{
  ApiChannel, close, call_async, open_stream_raw, stream_send_raw, stream_close_send_raw,
}
use u_rpc.Typed.Closed.{closed_channel}
use u_rpc.Typed.Client.{ClientStream, payload, ended}
use u_rpc.Typed.Reads.{StreamEvent, arrives, terminates, reads, read_run}
use u_rpc.Typed.Handlers.{serve_unary, raised}
use u_rpc.Typed.Answers.{unary_answers}

abbrev itself : Str → Option Str
itself s = some s

-- The handler writes twice, and returns before its writes are delivered.
abbrev two_writes : List (WriterEvent Str)
two_writes =
    writes true (some (codes "a")) (some 1)
    ∷ writes true (some (codes "b")) (some 2)
    ∷ returns
    ∷ delivers 0 ok_status
    ∷ settles
    ∷ delivers 0 ok_status
    ∷ settles
    ∷ []

finishes_behind_writes :
    (run itself two_writes new_write_state).core
    ≡ finish ok_status ∷ write_message (codes "b") ∷ write_message (codes "a") ∷ []
unfolding run new_write_state
finishes_behind_writes = refl

stream_settles_example :
    ((run itself two_writes new_write_state).in_flight
      ≡ length (run itself two_writes new_write_state).armed
        + (run itself two_writes new_write_state).settling)
    × (finish_count (run itself two_writes new_write_state).core
        ≡ to_ℕ (run itself two_writes new_write_state).finished)
    × (((run itself two_writes new_write_state).finished ≡ false)
        ⊎ (ends_finished (run itself two_writes new_write_state).core ≡ true))
    × (((run itself two_writes new_write_state).handler_returned ≡ false)
        ⊎ ((0 < (run itself two_writes new_write_state).in_flight)
            ⊎ (finish_count (run itself two_writes new_write_state).core ≡ 1)))
unfolding run new_write_state
stream_settles_example = stream_settles itself two_writes refl

delivered_once_example :
    held_times 2 (run itself two_writes new_write_state).armed
      + called_times 2 (run itself two_writes new_write_state).delivered
    ≡ handed_times 2 two_writes
delivered_once_example = delivered_once itself two_writes 2

abbrev core_channel : Channel
core_channel = record {
  address = codes "127.0.0.1:1";
  max_receive_size = 16;
  timer_init_ok = true;
  session_ids = [];
  loop = new_loop;
  state = idle;
  has_socket = false;
  has_session = false;
  calls = [];
  by_stream = [];
  pending = [];
  next_call_id = 1;
  streams = [];
  stream_by_sid = [];
  pending_streams = [];
  sent = [];
  fired = [];
  faulted = false;
}

abbrev open_channel : ApiChannel
open_channel = record { core = some core_channel; closed = false; max_receive_message_size = 16 }

abbrev no_events : StreamEvents
no_events = record { on_message = none; on_complete = none }

closed_channel_example :
    (call_async itself true (codes "s") (codes "m") (codes "hi") 5 (some 1) (close open_channel)
      ≡ some (record {
        id = 0;
        failure = some (status unavailable (codes "channel closed"));
        channel = close open_channel;
      }))
    × (open_stream_raw false (codes "/s/m") no_events 5 (some (close open_channel)) ≡ none)
    × (open_stream_raw true (codes "/s/m") no_events 5 (some (close open_channel))
        ≡ some (0, (some (status unavailable (codes "channel closed")), some (close open_channel))))
    × (stream_send_raw 3 (codes "x") (some 1) false (some (close open_channel)) ≡ none)
    × (stream_close_send_raw 3 (some (close open_channel)) ≡ none)
    × (close (close open_channel) ≡ close open_channel)
closed_channel_example =
    closed_channel itself (codes "hi") true (codes "s") (codes "m") (codes "/s/m") (codes "x")
      no_events 3 5 (some 1) false open_channel refl

abbrev client_events : List StreamEvent
client_events =
    reads
    ∷ arrives ok_status (codes "a")
    ∷ arrives ok_status (codes "b")
    ∷ reads
    ∷ terminates ok_status
    ∷ reads
    ∷ reads
    ∷ []

abbrev client : ClientStream
client = record {
  messages = [];
  terminated = false;
  terminal = ok_status;
  id = 1;
  channel = none;
  writes_done = false;
}

client_reads :
    (read_run client_events ([], client)).0
    ≡ payload (codes "a") ∷ payload (codes "b") ∷ ended ok_status ∷ []
unfolding read_run
client_reads = refl

-- A handler that answers and then throws.
abbrev answers_and_throws : Str → List (Status × Option Str) × Bool
answers_and_throws request = ((ok_status, some request) ∷ [], true)

unary_answers_example :
    serve_unary itself itself true (codes "hi") answers_and_throws
    ≡ record { freed = 2; answers = (ok_status, codes "hi") ∷ (raised, []) ∷ [] }
unary_answers_example =
    unary_answers itself itself (codes "hi") (codes "hi") answers_and_throws refl
