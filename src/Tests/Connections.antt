-- ===== src/Tests/Connections.antt =====
-- Connections of a server at concrete inputs.
use u_rpc.Prelude.{◌⊎◌, ◌++◌, ◌≤◌, ◌≡◌, refl, true, false, none, some, List, [], ◌∷◌, arith}
use u_rpc.Prelude.Str.{Str, codes}
use u_rpc.Prelude.Map.{find, insert, find-insert_self}
use u_rpc.Status.{ok_status, status, internal}
use u_rpc.Codec.{new_decoder, encode_frame}
use u_rpc.Codec.RoundTrip.{frames}
use u_rpc.Router.{Router, unary, bidi, new_router, register_unary, register_stream}
use u_rpc.Loop.{Loop, new_loop, start}
use u_rpc.Wire.{Headers, field, trailers, terminals, content_type}
use u_rpc.Server.State.{
  Call, unary_call, stream_call, read_event, Conn, Deferred, User, put, new_call,
}
use u_rpc.Server.Terminal.{respond_error, status_trailers}
use u_rpc.Server.Stream.{finish_stream, on_consumed, pump_out}
use u_rpc.Server.Request.{on_data, on_headers}
use u_rpc.Server.Context.{responds, reads, writes, Script, react}
use u_rpc.Server.Events.{
  Event, headers_complete, data_received, stream_closed, consumed, loop_woken, run,
}
use u_rpc.Server.Once.Events.{openings, terminal_once}
use u_rpc.Server.Queues.{Tidy}
use u_rpc.Server.Queues.Events.{run-Tidy}
use u_rpc.Server.Writes.{
  Outgoing, writes, consumes, pumps, bodies, ledger, outgoing_run, accepted_all,
}
use u_rpc.Server.Writes.Order.{writes_in_order}
use u_rpc.Server.Endings.{respond_error_silent}
use u_rpc.Server.Endings.Finish.{finish-on_consumed, finish_never_drains}
use u_rpc.Server.Reads.{Queued, deliver_all-queues}
use u_rpc.Server.Request.{deliver_all}
use u_rpc.Server.Replies.{Answers, unknown_method}
use u_rpc.Server.Replies.Deadline.{deadline_reply}
use u_rpc.Server.Request.{finish_request}
use u_rpc.Server.Terminal.{on_deadline}
use u_rpc.Server.Unary.{dispatched, unary_dispatch}

abbrev method : Str
method = codes "/s/m"

abbrev one_method : Router
one_method = (register_unary new_router method (some 7)).1

abbrev idle_loop : Loop Deferred
idle_loop = (start true true new_loop).1

abbrev pub new_conn : Conn
new_conn = record {
  router = one_method;
  max_receive_size = 16;
  now_ms = 5;
  timer_init_ok = true;
  loop = idle_loop;
  calls = [];
  ctxs = [];
  sent = [];
}

abbrev request_headers : Headers
request_headers =
    (codes ":path", method)
    ∷ (codes "content-type", content_type)
    ∷ (codes "grpc-timeout", codes "5S")
    ∷ []

-- A unary handler that echoes its request, twice.
abbrev echo : Script
echo (unary_call sid entry request) c =
    responds sid ok_status request ∷ responds sid ok_status request ∷ []
echo _ c = []

abbrev one_call : List Event
one_call =
    headers_complete 1 request_headers false
    ∷ data_received 1 (encode_frame (9 ∷ 8 ∷ []) []) true
    ∷ stream_closed 1
    ∷ []

-- One request opens the stream, so one terminal frame is allowed.
opened_once : openings 1 (react 2 echo) one_call new_conn 0 ≡ 1
unfolding openings run find
opened_once = refl

terminal_once_example :
    terminals 1 (run (react 2 echo) one_call new_conn).sent
    ≤ openings 1 (react 2 echo) one_call new_conn 0
unfolding terminals
terminal_once_example = terminal_once 1 2 echo one_call new_conn refl refl

-- Bad request headers leave no call, so that the trailing header block is answered once more.
bad_headers_twice :
    terminals 1
      (run
        (react 0 echo)
        (headers_complete 1 [] false ∷ headers_complete 1 [] true ∷ [])
        new_conn).sent
    ≡ 2
unfolding terminals run find field on_headers
bad_headers_twice = refl

-- A bidi handler that reads and writes from the start, and reads again at every message.
abbrev chat : Script
chat (stream_call sid entry) c = reads sid 4 ∷ writes sid (1 ∷ []) none ∷ []
chat (read_event cb st eos msg) c = reads 1 cb ∷ writes 1 msg (some 5) ∷ []
chat _ c = []

abbrev bidi_conn : Conn
bidi_conn = record new_conn { router = (register_stream new_router method bidi (some 8)).1 }

abbrev two_messages : List Event
two_messages =
    headers_complete 1 request_headers false
    ∷ data_received 1 (frames ((9 ∷ []) ∷ (8 ∷ []) ∷ [])) false
    ∷ consumed 1 none
    ∷ loop_woken
    ∷ []

run-Tidy_example : Tidy (run (react 3 chat) two_messages bidi_conn)
run-Tidy_example = run-Tidy 3 chat two_messages bidi_conn tt

abbrev pub quiet : User
quiet cb c = c

abbrev bidi_call : Call
bidi_call = record (new_call (new_decoder 16)) {
  form = bidi;
  has_handler = true;
  dispatched = true;
  out_inflight = true;
  response_headers_sent = true;
}

abbrev waiting_call : Call
waiting_call = record bidi_call { out_queue = record { framed = 0 ∷ []; cb = none } ∷ [] }

abbrev decoded_call : Call
decoded_call = record bidi_call {
  decoder = record (new_decoder 16) { messages = (1 ∷ []) ∷ (2 ∷ []) ∷ [] };
}

abbrev unary_handler_call : Call
unary_handler_call = record (new_call (new_decoder 16)) { form = unary; has_handler = true }

respond_error_silent_example :
    (respond_error 1 (status internal (codes "bad")) (put 1 bidi_call new_conn)).sent ≡ []
respond_error_silent_example =
    respond_error_silent 1 (status internal (codes "bad")) (put 1 bidi_call new_conn)

finish-on_consumed_example :
    ((finish_stream 1 ok_status (put 1 bidi_call new_conn)).sent ≡ [])
    × ((on_consumed quiet 1 (some 5) (finish_stream 1 ok_status (put 1 bidi_call new_conn))).sent
        ≡ trailers 1 (status_trailers ok_status.code ok_status.message) ∷ [])
unfolding new_call
finish-on_consumed_example =
    finish-on_consumed quiet 1 (some 5) ok_status bidi_call (put 1 bidi_call new_conn)
      (λ cb c. (refl, refl)) (find-insert_self 1 bidi_call []) refl refl refl

finish_never_drains_example :
    ((finish_stream 1 ok_status (put 1 waiting_call new_conn)).sent ≡ [])
    × ((on_consumed quiet 1 (some 5) (finish_stream 1 ok_status (put 1 waiting_call new_conn))).sent
        ≡ [])
    × ((pump_out 1 (
          on_consumed quiet 1
            (some 5)
            (finish_stream 1 ok_status (put 1 waiting_call new_conn)))).sent
        ≡ [])
unfolding new_call
finish_never_drains_example =
    finish_never_drains quiet 1 (some 5) ok_status waiting_call (put 1 waiting_call new_conn)
      (λ cb c. (refl, refl)) (find-insert_self 1 waiting_call []) refl refl

deliver_all-queues_example :
    Queued quiet 1
      ((1 ∷ []) ∷ (2 ∷ []) ∷ [])
      decoded_call
      (put 1 decoded_call new_conn)
      (deliver_all quiet 2 1 (put 1 decoded_call new_conn))
unfolding new_call
deliver_all-queues_example =
    deliver_all-queues quiet 1 ((1 ∷ []) ∷ (2 ∷ []) ∷ []) decoded_call (put 1 decoded_call new_conn)
      (find-insert_self 1 decoded_call []) refl refl refl refl (omega arith)

unary_dispatch_example :
    on_data quiet 1 [] true (
      on_data quiet 1 (frames ((3 ∷ []) ∷ (4 ∷ []) ∷ [])) false (put 1 unary_handler_call new_conn))
    ≡ quiet (unary_call 1 unary_handler_call.entry (3 ∷ [])) (
        dispatched 1 16
          (3 ∷ [])
          ((4 ∷ []) ∷ [])
          unary_handler_call
          (put 1 unary_handler_call new_conn))
unfolding new_call
unary_dispatch_example =
    unary_dispatch quiet 1 16 (3 ∷ []) ((4 ∷ []) ∷ []) unary_handler_call
      (put 1 unary_handler_call new_conn) (find-insert_self 1 unary_handler_call []) refl refl refl
      refl (omega arith)

abbrev unknown_call : Call
unknown_call = record (new_call (new_decoder 16)) { path = codes "/s/x" }

unknown_method_example :
    Answers 1
      (codes "12")
      (codes "unknown method: " ++ codes "/s/x")
      true
      (put 1 unknown_call new_conn)
      (finish_request quiet 1 (put 1 unknown_call new_conn))
unfolding new_call
unknown_method_example =
    unknown_method quiet 1 unknown_call (put 1 unknown_call new_conn)
      (find-insert_self 1 unknown_call []) refl refl refl

deadline_reply_example :
    (false ≡ true)
      × ((on_deadline quiet 1 (put 1 bidi_call new_conn)).sent ≡ (put 1 bidi_call new_conn).sent)
    ⊎ (false ≡ false)
      × Answers 1
          (codes "4")
          (codes "deadline exceeded")
          false
          (put 1 bidi_call new_conn)
          (on_deadline quiet 1 (put 1 bidi_call new_conn))
unfolding new_call
deadline_reply_example =
    deadline_reply quiet 1 bidi_call (put 1 bidi_call new_conn) (find-insert_self 1 bidi_call [])
      refl

abbrev pub sending_call : Call
sending_call = record bidi_call { out_inflight = false }

abbrev pub two_replies : List Outgoing
two_replies =
    writes (1 ∷ []) none ∷ writes (2 ∷ []) (some 3) ∷ consumes none ∷ pumps ∷ consumes (some 3) ∷ []

-- Both messages have gone out.
bodies_of_two :
    bodies 1 (outgoing_run quiet 1 two_replies (put 1 sending_call new_conn)).sent
    ≡ encode_frame (1 ∷ []) [] ∷ encode_frame (2 ∷ []) [] ∷ []
unfolding bodies outgoing_run find insert new_call encode_frame
bodies_of_two = refl

writes_in_order_example :
    ledger 1 (outgoing_run quiet 1 two_replies (put 1 sending_call new_conn))
    ≡ ledger 1 (put 1 sending_call new_conn)
      ++ accepted_all quiet 1 two_replies (put 1 sending_call new_conn)
writes_in_order_example =
    writes_in_order quiet 1 two_replies (put 1 sending_call new_conn) (λ cb c. (refl, refl))
