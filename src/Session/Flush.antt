-- ===== src/Session/Flush.antt =====
-- FlushOut and the Send calls of urpc/core/source/urpc_h2_session.cc. What nghttp2_session_send
-- calls back is the parameter `library`, any function of the session; what the code of a
-- notification submits is `reply`.
use u_rpc.Prelude.{
  ℕ, zero, suc, ◌-◌, Bool, true, false, not, Option, none, some, List, [], ◌∷◌, ◌++◌, ◌==◌,
  if◌then◌else◌, is_empty,
}
use u_rpc.Prelude.Str.{Str}
use u_rpc.Wire.{Headers}
use u_rpc.Session.{
  Submit, request, submit_headers, submit_data, submit_trailer, submit_rst_stream, Session,
  on_write, tell, Upcall, upcalls,
}

-- The calls that submit to a stream.
pub data Op : Type 0 where
  send_headers : ℕ → Headers → Bool → Op
  send_data : ℕ → Str → Bool → Option ℕ → Op
  send_trailers : ℕ → Headers → Op
  reset_stream : ℕ → ℕ → Op

abbrev pub submitted : Submit → Session → Session
submitted sub s = record s { submits = sub ∷ s.submits }

-- A new body at the end of the deque of its stream.
abbrev pub push_body : ℕ → Str → Option ℕ → Session → Session
push_body sid bytes cb s = record s {
  pending_bodies =
      s.pending_bodies
      ++ (record {
        stream = sid;
        address = s.next_address;
        content = bytes;
        offset = 0;
        on_consumed = cb;
      })
        ∷ [];
  next_address = suc s.next_address;
}

-- What a Send call does before it flushes.
unfoldable pub submit : Op → Session → Session
submit (send_headers sid fields end_stream) s = submitted (submit_headers sid fields end_stream) s
submit (send_data sid bytes end_stream cb) s =
    submitted (submit_data sid s.next_address cb end_stream) (push_body sid bytes cb s)
submit (send_trailers sid fields) s = submitted (submit_trailer sid fields) s
submit (reset_stream sid code) s = submitted (submit_rst_stream sid code) s

-- The end of FlushOut: the bytes go to the handler.
unfoldable pub write_out : Session → Session
write_out s = if is_empty s.out then s else record (tell (on_write s.out) s) { out = [] }

abbrev pub deeper : Session → Session
deeper s = record s { flush_depth = suc s.flush_depth }

-- `--flush_depth_` and the write.
abbrev pub leave : Option Session → Option Session
leave none = none
leave (some s) = some (write_out (record s { flush_depth = s.flush_depth - 1 }))

module _ (library : Session → List Upcall) where
  -- nghttp2_session_send
  unfoldable pub session_send : Session → Session
  unfolding upcalls
  session_send s = upcalls (library s) s

  -- FlushOut where an outer FlushOut drains the notifications.
  unfoldable pub flush_inner : Session → Session
  unfolding session_send write_out
  flush_inner s = write_out (session_send s)

  -- The code of a notification: its Send calls, each with the FlushOut behind it.
  unfoldable pub run_ops : List Op → Session → Session
  unfolding submit flush_inner
  run_ops [] s = s
  run_ops (o ∷ os) s = run_ops os (flush_inner (submit o s))

module _ (library : Session → List Upcall) (reply : ℕ → List Op) where
  -- `for (auto& note : notes) note();`
  unfoldable pub run_notes : List ℕ → Session → Session
  unfolding run_ops
  run_notes [] s = s
  run_notes (k ∷ ks) s = run_notes ks (run_ops library (reply k) (record s { ran = k ∷ s.ran }))

  -- One round of the loop of FlushOut.
  unfoldable pub drain_round : Session → Session
  unfolding run_notes session_send
  drain_round s =
      session_send library
        (run_notes s.consumed_notifications (record s { consumed_notifications = [] }))

  -- The `for (;;)` of FlushOut; `none` means that the fuel ran out.
  unfoldable pub drain : ℕ → Session → Option Session
  unfolding drain_round
  drain zero s = none
  drain (suc fuel) s = elim (is_empty s.consumed_notifications) [
    | true ↦ some s
    | false ↦ drain fuel (drain_round s)
  ]

  -- FlushOut
  unfoldable pub flush_out : ℕ → Session → Option Session
  unfolding session_send drain write_out
  flush_out fuel s =
      let s' = session_send library s in
      if s'.flush_depth == 0 then leave (drain fuel (deeper s')) else some (write_out s')

  -- SendHeaders, SendData, SendTrailers and ResetStream.
  unfoldable pub call : ℕ → Op → Session → Option Session
  unfolding submit flush_out
  call fuel o s = flush_out fuel (submit o s)

  -- Consume, with the callbacks that nghttp2_session_mem_recv2 makes.
  unfoldable pub consume : ℕ → List Upcall → Session → Option Session
  unfolding upcalls flush_out
  consume fuel us s = flush_out fuel (upcalls us s)

  -- SubmitRequest and SubmitRequestOpen, with the stream id that nghttp2 answers. An empty body, or
  -- an open request, has no provider.
  unfoldable pub submit_request : ℕ → Option ℕ → Headers → Str → Session → Option Session
  unfolding flush_out
  submit_request fuel none fields bytes s =
      some (submitted (request fields (not (is_empty bytes))) s)
  submit_request fuel (some sid) fields bytes s =
      let s' = submitted (request fields (not (is_empty bytes))) s in
      flush_out fuel (if is_empty bytes then s' else push_body sid bytes none s')

  unfoldable pub submit_request_open : ℕ → Option ℕ → Headers → Session → Option Session
  unfolding flush_out
  submit_request_open fuel none fields s = some (submitted (request fields false) s)
  submit_request_open fuel (some sid) fields s = flush_out fuel (submitted (request fields false) s)
