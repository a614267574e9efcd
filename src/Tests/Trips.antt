-- ===== src/Tests/Trips.antt =====
-- Messages from frames to Read at a concrete input: a message is a text, which is its own encoding.
use u_rpc.Prelude.{◌≡◌, refl, sym, true, false, Option, none, some, List, [], ◌∷◌, ◌++◌, map, arith}
use u_rpc.Prelude.Str.{Str, codes}
use u_rpc.Prelude.Map.{find, insert, find-insert_self}
use u_rpc.Status.{ok_status}
use u_rpc.Codec.{new_decoder, consume, encode_frame}
use u_rpc.Codec.Feed.{joined}
use u_rpc.Codec.RoundTrip.{frames}
use u_rpc.Channel.State.{Channel, Stream}
use u_rpc.Channel.Session.{on_data}
use u_rpc.Channel.Receives.{receive, told}
use u_rpc.Typed.Client.{new_stream, decode_payload}
use u_rpc.Typed.Reads.{StreamEvent, arrives, reads, arrivals, payloads, read_run}
use u_rpc.Typed.RoundTrip.{events_for, good, round_trip}
use u_rpc.Server.State.{put, new_call}
use u_rpc.Server.Writes.{bodies, outgoing_run}
use u_rpc.EndToEnd.{written_all, server_to_client}
use u_rpc.Tests.Channels.{new_channel}
use u_rpc.Tests.Connections.{new_conn, quiet, sending_call, two_replies}

abbrev itself : Str → Option Str
itself s = some s

abbrev two_texts : List Str
two_texts = codes "a" ∷ codes "b" ∷ []

abbrev pieces : List Str
pieces = (0 ∷ 0 ∷ 0 ∷ []) ∷ (0 ∷ 1 ∷ 97 ∷ 0 ∷ []) ∷ [] ∷ (0 ∷ 0 ∷ 0 ∷ 1 ∷ 98 ∷ []) ∷ []

abbrev open_stream : Stream
open_stream = record {
  id = 1;
  sid = 3;
  timeout_timer = 0;
  decoder = new_decoder 16;
  events = record { on_message = some 1; on_complete = some 2 };
  completed = false;
  send_closed = false;
  rst_pending = false;
  out_queue = [];
  out_inflight = false;
}

abbrev listening : Channel
listening = record new_channel { streams = insert 1 open_stream []; stream_by_sid = insert 3 1 [] }

-- A read that waits, the first message, its read, and the second message.
abbrev interleaving : List StreamEvent
interleaving = reads ∷ arrives ok_status (codes "a") ∷ reads ∷ arrives ok_status (codes "b") ∷ []

round_trip_example :
    map (decode_payload itself true) (
      payloads (read_run interleaving ([], new_stream none)).0
      ++ (read_run interleaving ([], new_stream none)).1.messages)
    ≡ map good two_texts
unfolding joined frames encode_frame events_for arrivals receive on_data consume new_decoder find
    insert
round_trip_example =
    round_trip itself itself (λ m b e. sym e) two_texts two_texts pieces 3 1 16 open_stream
      listening interleaving none refl (omega arith, omega arith) refl (find-insert_self 3 1 [])
      (find-insert_self 1 open_stream []) refl refl refl refl

abbrev reply_pieces : List Str
reply_pieces = (0 ∷ 0 ∷ 0 ∷ []) ∷ (0 ∷ 1 ∷ 1 ∷ 0 ∷ []) ∷ (0 ∷ 0 ∷ 0 ∷ 1 ∷ 2 ∷ []) ∷ []

abbrev first_listening : Channel
first_listening = record new_channel {
  streams = insert 1 open_stream [];
  stream_by_sid = insert 1 1 [];
}

server_to_client_example :
    (receive 1 reply_pieces first_listening).fired
    ≡ told 1 (some 1) (written_all quiet 1 two_replies (put 1 sending_call new_conn)) []
unfolding joined encode_frame consume new_decoder find insert bodies outgoing_run written_all
    new_call
server_to_client_example =
    server_to_client quiet two_replies (put 1 sending_call new_conn) 1 1 16 reply_pieces open_stream
      first_listening (λ cb c. (refl, refl)) refl refl refl (omega arith, omega arith)
      (find-insert_self 1 1 []) (find-insert_self 1 open_stream []) refl refl
