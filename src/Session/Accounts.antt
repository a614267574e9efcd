-- ===== src/Session/Accounts.antt =====
-- Every callback that a session runs was handed to SendData: over histories of calls of an H2Session,
-- it runs at most as often as it was handed over.
use mathlib.Core.Path.{subst}
use u_rpc.Prelude.{
  ℕ, zero, suc, ◌+◌, ◌≤◌, ◌≡◌, refl, true, false, not, Option, none, some, List, [], ◌∷◌, arith,
  ◌-◌, ◌==◌, if◌then◌else◌, if-keeps, bool-keeps, to_ℕ, is_empty,
}
use u_rpc.Prelude.Str.{Str}
use u_rpc.Wire.{Headers}
use u_rpc.Session.{
  Submit, settings, request, submit_data, Session, new_session, Upcall, upcalls, upcall,
  on_header_cb, on_frame_recv_cb, on_data_chunk_cb, on_stream_close_cb, send_cb2, body_read2,
  headers_frame, data_frame, other_frame, header, frame_recv, data_chunk, stream_close, send_bytes,
  body_read,
}
use u_rpc.Session.Flush.{
  Op, send_headers, send_data, send_trailers, reset_stream, submit, submitted, push_body, write_out,
  session_send, flush_inner, run_ops, run_notes, drain_round, drain, deeper, leave, flush_out, call,
  consume, submit_request, submit_request_open,
}
use u_rpc.Session.Held.{weight, weights, bodies_weight, held, upcalls-held}
use u_rpc.Session.Drains.{submit-held}

-- A call of a method of H2Session, with what nghttp2 answers.
pub data SessionCall : Type 0 where
  sends : Op → SessionCall
  consumes : List Upcall → SessionCall
  requests : Option ℕ → Headers → Str → SessionCall
  opens : Option ℕ → Headers → SessionCall
  flushes : SessionCall

module _ (library : Session → List Upcall) (reply : ℕ → List Op) (fuel : ℕ) where
  unfoldable pub session_call : SessionCall → Session → Option Session
  unfolding call consume submit_request submit_request_open flush_out
  session_call (sends o) s = call library reply fuel o s
  session_call (consumes us) s = consume library reply fuel us s
  session_call (requests sid fields bytes) s = submit_request library reply fuel sid fields bytes s
  session_call (opens sid fields) s = submit_request_open library reply fuel sid fields s
  session_call flushes s = flush_out library reply fuel s

  -- One call after another; `none` where one ran out of fuel.
  unfoldable pub session_calls : List SessionCall → Session → Option Session
  unfolding session_call
  session_calls [] s = some s
  session_calls (c ∷ cs) s = elim (session_call c s) [ none ↦ none | some s' ↦ session_calls cs s' ]

module _ (w : ℕ → ℕ) where
  abbrev pub submit_weight : Submit → ℕ
  submit_weight (submit_data sid address cb end_stream) = weight w cb
  submit_weight _ = 0

  -- What was handed to SendData.
  unfoldable pub submits_weight : List Submit → ℕ
  submits_weight [] = 0
  submits_weight (u ∷ us) = submit_weight u + submits_weight us

  -- What is held, `extra`, and what has run were all handed over.
  abbrev IsAccounted : ℕ → Session → Type 0
  IsAccounted extra s = held w s + extra + weights w s.ran ≤ submits_weight s.submits

  upcall-keeps :
      (u : Upcall) (s : Session) → ((upcall u s).ran ≡ s.ran) × ((upcall u s).submits ≡ s.submits)
  unfolding upcall on_header_cb on_frame_recv_cb on_data_chunk_cb on_stream_close_cb send_cb2
      body_read2
  upcall-keeps (header true sid name value) s = (refl, refl)
  upcall-keeps (header false sid name value) s = (refl, refl)
  upcall-keeps (frame_recv headers_frame sid end_stream) s = ground arith
  upcall-keeps (frame_recv data_frame sid end_stream) s = (refl, refl)
  upcall-keeps (frame_recv other_frame sid end_stream) s = (refl, refl)
  upcall-keeps (data_chunk sid bytes) s = (refl, refl)
  upcall-keeps (stream_close sid code) s = (refl, refl)
  upcall-keeps (send_bytes bytes) s = (refl, refl)
  upcall-keeps (body_read address room) s = (refl, refl)

  upcalls-keeps :
      (us : List Upcall) (s : Session)
      → ((upcalls us s).ran ≡ s.ran) × ((upcalls us s).submits ≡ s.submits)
  unfolding upcalls
  upcalls-keeps [] s = (refl, refl)
  upcalls-keeps (u ∷ us) s = ground (arith, upcalls-keeps us (upcall u s), upcall-keeps u s)

  upcalls-IsAccounted :
      (extra : ℕ) (us : List Upcall) (s : Session)
      → IsAccounted extra s
      → IsAccounted extra (upcalls us s)
  upcalls-IsAccounted extra us s h =
      let (same, kept) = upcalls-keeps us s in rw (same, kept) (omega (arith, upcalls-held w us s))

  write_out-IsAccounted :
      (extra : ℕ) (s : Session) → IsAccounted extra s → IsAccounted extra (write_out s)
  unfolding write_out
  write_out-IsAccounted extra s h = ground arith

  submit-IsAccounted :
      (extra : ℕ) (o : Op) (s : Session) → IsAccounted extra s → IsAccounted extra (submit o s)
  unfolding submit submits_weight
  submit-IsAccounted extra (send_headers sid fields end_stream) s h = omega arith
  submit-IsAccounted extra (send_data sid bytes end_stream cb) s h =
      omega (arith, submit-held w (send_data sid bytes end_stream cb) s)
  submit-IsAccounted extra (send_trailers sid fields) s h = omega arith
  submit-IsAccounted extra (reset_stream sid code) s h = omega arith

  -- SubmitRequest's body has no callback.
  push_body-IsAccounted :
      (sid : ℕ) (bytes : Str) (s : Session)
      → IsAccounted 0 s
      → IsAccounted 0 (push_body sid bytes none s)
  unfolding submit
  push_body-IsAccounted sid bytes s h =
      omega (arith, submit-held w (send_data sid bytes false none) s)

  module _ (library : Session → List Upcall) where
    flush_inner-IsAccounted :
        (extra : ℕ) (s : Session) → IsAccounted extra s → IsAccounted extra (flush_inner library s)
    unfolding flush_inner session_send
    flush_inner-IsAccounted extra s h =
        write_out-IsAccounted extra (upcalls (library s) s)
          (upcalls-IsAccounted extra (library s) s h)

    run_ops-IsAccounted :
        (extra : ℕ) (os : List Op) (s : Session)
        → IsAccounted extra s
        → IsAccounted extra (run_ops library os s)
    unfolding run_ops
    run_ops-IsAccounted extra [] s h = h
    run_ops-IsAccounted extra (o ∷ os) s h =
        run_ops-IsAccounted extra os (flush_inner library (submit o s))
          (flush_inner-IsAccounted extra (submit o s) (submit-IsAccounted extra o s h))

    module _ (reply : ℕ → List Op) where
      -- The notifications that wait to run are the extra.
      run_notes-IsAccounted :
          (ks : List ℕ) (s : Session)
          → IsAccounted (weights w ks) s
          → IsAccounted 0 (run_notes library reply ks s)
      unfolding run_notes weights
      run_notes-IsAccounted [] s h = h
      run_notes-IsAccounted (k ∷ ks) s h =
          run_notes-IsAccounted ks (run_ops library (reply k) (record s { ran = k ∷ s.ran })) (
            run_ops-IsAccounted (weights w ks) (reply k) (record s { ran = k ∷ s.ran })
              (omega arith))

      drain_round-IsAccounted :
          (s : Session) → IsAccounted 0 s → IsAccounted 0 (drain_round library reply s)
      unfolding drain_round session_send weights
      drain_round-IsAccounted s h =
          let s' =
            run_notes library reply s.consumed_notifications
              (record s { consumed_notifications = [] }) in
          upcalls-IsAccounted 0 (library s') s' (
            run_notes-IsAccounted s.consumed_notifications
              (record s { consumed_notifications = [] }) (omega arith))

      abbrev AllAccounted : Option Session → Type 0
      AllAccounted none = Unit
      AllAccounted (some s) = IsAccounted 0 s

      drain-AllAccounted :
          (n : ℕ) (s : Session) → IsAccounted 0 s → AllAccounted (drain library reply n s)
      unfolding drain
      drain-AllAccounted zero s h = tt
      drain-AllAccounted (suc n) s h =
          bool-keeps AllAccounted (is_empty s.consumed_notifications)
            (drain library reply n (drain_round library reply s)) (some s)
            (λ _. drain-AllAccounted n (drain_round library reply s) (drain_round-IsAccounted s h))
            (λ _. h)

      leave-AllAccounted : (o : Option Session) → AllAccounted o → AllAccounted (leave o)
      leave-AllAccounted none h = tt
      leave-AllAccounted (some s) h =
          write_out-IsAccounted 0 (record s { flush_depth = s.flush_depth - 1 }) h

      flush_out-AllAccounted :
          (fuel : ℕ) (s : Session) → IsAccounted 0 s → AllAccounted (flush_out library reply fuel s)
      unfolding flush_out session_send
      flush_out-AllAccounted fuel s h =
          let sent = upcalls (library s) s in
          let h' = upcalls-IsAccounted 0 (library s) s h in
          if-keeps AllAccounted (sent.flush_depth == 0)
            (leave (drain library reply fuel (deeper sent))) (some (write_out sent))
            (λ _.
              leave-AllAccounted (drain library reply fuel (deeper sent))
                (drain-AllAccounted fuel (deeper sent) h'))
            (λ _. write_out-IsAccounted 0 sent h')

      session_call-AllAccounted :
          (fuel : ℕ) (c : SessionCall) (s : Session)
          → IsAccounted 0 s
          → AllAccounted (session_call library reply fuel c s)
      unfolding session_call call consume submit_request submit_request_open submits_weight
      session_call-AllAccounted fuel (sends o) s h =
          flush_out-AllAccounted fuel (submit o s) (submit-IsAccounted 0 o s h)
      session_call-AllAccounted fuel (consumes us) s h =
          flush_out-AllAccounted fuel (upcalls us s) (upcalls-IsAccounted 0 us s h)
      session_call-AllAccounted fuel (requests none fields bytes) s h = omega arith
      session_call-AllAccounted fuel (requests (some sid) fields bytes) s h =
          let asked = submitted (request fields (not (is_empty bytes))) s in
          flush_out-AllAccounted fuel
            (if is_empty bytes then asked else push_body sid bytes none asked)
            (if-keeps (IsAccounted 0) (is_empty bytes) asked (push_body sid bytes none asked)
              (λ _. omega arith) (λ _. push_body-IsAccounted sid bytes asked (omega arith)))
      session_call-AllAccounted fuel (opens none fields) s h = omega arith
      session_call-AllAccounted fuel (opens (some sid) fields) s h =
          flush_out-AllAccounted fuel (submitted (request fields false) s) (omega arith)
      session_call-AllAccounted fuel flushes s h = flush_out-AllAccounted fuel s h

      session_calls-AllAccounted :
          (fuel : ℕ) (cs : List SessionCall) (s : Session)
          → IsAccounted 0 s
          → AllAccounted (session_calls library reply fuel cs s)
      unfolding session_calls
      session_calls-AllAccounted fuel [] s h = h
      session_calls-AllAccounted fuel (c ∷ cs) s h =
          each (session_call library reply fuel c s) (session_call-AllAccounted fuel c s h)
            (session_calls-AllAccounted fuel cs)
        where
          each :
              (o : Option Session)
              → AllAccounted o
              → ((t : Session)
                  → IsAccounted 0 t
                  → AllAccounted (session_calls library reply fuel cs t))
              → AllAccounted
                  (elim o [ none ↦ none | some s' ↦ session_calls library reply fuel cs s' ])
          each none k ih = tt
          each (some t) k ih = ih t k

-- How often a callback stands in a list.
abbrev pub only : ℕ → ℕ → ℕ
only k j = to_ℕ (j == k)

-- From a new session, after any calls of its methods that came back, whatever nghttp2 calls and
-- whatever the code of notifications submits: a callback has run at most as often as it was handed
-- to SendData.
pub runs_as_handed :
    (library : Session → List Upcall) (reply : ℕ → List Op) (fuel : ℕ) (cs : List SessionCall)
    (s : Session) (k : ℕ)
    → session_calls library reply fuel cs new_session ≡ some s
    → weights (only k) s.ran ≤ submits_weight (only k) s.submits
unfolding new_session bodies_weight weights
runs_as_handed library reply fuel cs s k h =
    let start : held (only k) new_session + 0 + 0 ≤ submits_weight (only k) (settings ∷ []) =
      omega arith in
    let all = session_calls-AllAccounted (only k) library reply fuel cs new_session start in
    let end = subst (AllAccounted (only k) library reply) h all in omega arith
