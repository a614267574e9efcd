-- ===== src/Channel/Calls.antt =====
-- Unary calls: Complete, CallNow, FailPending, StartPending and the bodies that Call and Cancel post,
-- of urpc/core/source/urpc_channel.cc.
use u_rpc.Prelude.{
  ℕ, true, false, not, ◌&&◌, Option, none, some, List, [], ◌∷◌, ◌++◌, ◌==◌, if◌then◌else◌, ltb,
  is_empty,
}
use u_rpc.Prelude.Str.{Str, codes}
use u_rpc.Prelude.Map.{find, insert, erase}
use u_rpc.Status.{Status, status, unavailable, deadline_exceeded}
use u_rpc.Codec.{FrameDecoder}
use u_rpc.Loop.{set_timer}
use u_rpc.Wire.{Headers, headers, body, reset, content_type}
use u_rpc.Channel.State.{
  State, idle, connecting, ready, broken, Call, PendingCall, Channel, done, call_timeout, fire,
  send, stopped, erase_sid, head_id, tail_ids,
}

-- Complete; the record `completed = true` is dropped with the entry.
unfoldable pub complete_call : Call → Status → Str → Channel → Channel
complete_call call st payload c = if call.completed then c else record c {
  loop = stopped call.timeout_timer c.loop;
  by_stream = erase_sid call.sid c.by_stream;
  calls = erase call.id c.calls;
  fired = done call.id call.done st payload ∷ c.fired;
}

abbrev pub request_headers : Str → Str → Headers
request_headers path address =
    (codes ":method", codes "POST")
    ∷ (codes ":scheme", codes "http")
    ∷ (codes ":path", path)
    ∷ (codes ":authority", address)
    ∷ (codes "content-type", content_type)
    ∷ (codes "te", codes "trailers")
    ∷ []

-- SubmitRequest: the headers, which end the stream if the body is empty, and the body.
unfoldable pub submit_request : ℕ → Headers → Str → Channel → Channel
submit_request sid hs framed c =
    let c' = send (headers sid hs (is_empty framed)) c in
    if is_empty framed then c' else send (body sid framed true none) c'

-- CallNow by what SubmitRequest answers.
unfoldable pub submitted : Option ℕ → Str → Str → Call → Channel → Channel
unfolding complete_call submit_request
submitted none path framed call c =
    complete_call call (status unavailable (codes "submit failed")) [] c
submitted (some sid) path framed call c =
    let c' = submit_request sid (request_headers path c.address) framed c in
    record c' {
      by_stream = insert sid call.id c'.by_stream;
      calls = insert call.id (record call { sid = sid }) c'.calls;
    }

unfoldable pub call_now : Str → Str → Call → Channel → Channel
unfolding submitted
call_now path framed call c =
    submitted (head_id c.session_ids) path framed call
      (record c { session_ids = tail_ids c.session_ids })

-- The loop of FailPending over the queue, which it empties.
unfoldable pub fail_calls : List PendingCall → Status → Channel → Channel
unfolding complete_call
fail_calls [] st c = c
fail_calls (pc ∷ pcs) st c = fail_calls pcs st (complete_call pc.call st [] c)

unfoldable pub fail_pending : Status → Channel → Channel
unfolding fail_calls
fail_pending st c = fail_calls c.pending st (record c { pending = [] })

-- The loop of StartPending.
unfoldable pub start_calls : List PendingCall → Channel → Channel
unfolding call_now
start_calls [] c = c
start_calls (pc ∷ pcs) c = start_calls pcs (call_now pc.path pc.framed pc.call c)

unfoldable pub start_pending : Channel → Channel
unfolding start_calls
start_pending c = start_calls c.pending (record c { pending = [] })

-- ConnectNow up to TcpConnect, whose outcome is an event of its own.
abbrev pub connect_now : Channel → Channel
connect_now c = record c { state = connecting }

-- The switch on the state in the body that Call posts.
unfoldable pub enqueue_call : State → Str → Str → Call → Channel → Channel
unfolding call_now complete_call
enqueue_call ready path framed call c = call_now path framed call c
enqueue_call broken path framed call c =
    complete_call call (status unavailable (codes "channel broken")) [] c
enqueue_call idle path framed call c =
    connect_now (record c {
      pending = c.pending ++ record { path = path; framed = framed; call = call } ∷ [];
    })
enqueue_call connecting path framed call c = record c {
  pending = c.pending ++ record { path = path; framed = framed; call = call } ∷ [];
}

-- The body that Call posts: the timer, if there is a timeout, and the call.
unfoldable pub run_start_call : ℕ → Str → Str → ℕ → Option ℕ → FrameDecoder → Channel → Channel
unfolding enqueue_call
run_start_call id path framed timeout_ms cb decoder c =
    let (timer, l) =
      if ltb 0 timeout_ms
      then set_timer c.timer_init_ok (call_timeout id) c.loop
      else (0, c.loop) in
    enqueue_call c.state path framed
      (record {
        id = id;
        sid = 0;
        timeout_timer = timer;
        decoder = decoder;
        done = cb;
        completed = false;
      })
      (record c { loop = l })

-- `if (sid != 0 && session)`: the stream is reset and forgotten. 0x8 is CANCEL.
unfoldable pub reset_call : Call → Channel → Channel
reset_call call c =
    if not (call.sid == 0) && c.has_session
    then send (reset call.sid 0x8) (record c { by_stream = erase call.sid c.by_stream })
    else c

-- The end of a call by a timeout or by Cancel.
unfoldable pub abort_call : Call → Status → Channel → Channel
unfolding reset_call
abort_call call st c =
    let c' = reset_call call c in
    fire (done call.id call.done st []) (record c' { calls = erase call.id c'.calls })

-- The timer that Call sets.
unfoldable pub run_call_timeout : ℕ → Channel → Channel
unfolding abort_call
run_call_timeout id c = elim (find id c.calls) [
  | none ↦ c
  | some call ↦
      if call.completed
      then c
      else abort_call call (status deadline_exceeded (codes "deadline exceeded")) c
]

-- The body that Cancel posts.
unfoldable pub run_cancel : ℕ → Channel → Channel
unfolding abort_call
run_cancel id c = elim (find id c.calls) [
  | none ↦ c
  | some call ↦
      if call.completed
      then c
      else abort_call call (status unavailable (codes "cancelled"))
          (record c { loop = stopped call.timeout_timer c.loop })
]
