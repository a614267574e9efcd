-- ===== src/Server/Once/Final.antt =====
-- The terminal frames of the operations that end a call (urpc/core/source/urpc_server.cc).
use u_rpc.Prelude.{
  ℕ, suc, ◌+◌, ◌≤◌, ◌≡◌, ◌≢◌, refl, inl, inr, true, false, none, some, arith, if◌then◌else◌, ◌==◌,
  Option-cases, ◌&&◌, not, ◌||◌, is_empty,
}
use u_rpc.Prelude.Str.{Str}
use u_rpc.Prelude.Map.{find, find-insert_self}
use u_rpc.Status.{Status, StatusCode}
use u_rpc.Router.{is_unary}
use u_rpc.Wire.{Headers, trailers, terminals}
use u_rpc.Server.State.{Call, Conn, put, send, stop_timer}
use u_rpc.Server.Terminal.{
  send_trailers_only, mark_responded, trailers_only, respond_error, send_response, respond,
  send_deadline,
}
use u_rpc.Server.Stream.{finish_call, finish_stream, maybe_send_deferred_finish}
use u_rpc.Server.Rules.{with_call-keeps}
use u_rpc.Prelude.{if-keeps}
use u_rpc.Server.Once.{Watch, Room, Once, Owes, Once-rewrite}

-- What an operation does to a log: `m` terminal frames on stream `sid`, seen from stream `k`.
abbrev pub Sends : ℕ → Watch → ℕ → Conn → Conn → Type 0
Sends m k sid c c' =
    terminals k.stream c'.sent
    ≡ (if sid == k.stream then terminals k.stream c.sent + m else terminals k.stream c.sent)

send_trailers_only_calls :
    (sid : ℕ) (code : StatusCode) (msg : Str) (c : Conn)
    → (send_trailers_only sid code msg c).calls ≡ c.calls
unfolding send_trailers_only
send_trailers_only_calls sid code msg c = refl

module _ (k : Watch) (sid : ℕ) where
  pub send_trailers_only-Sends :
      (code : StatusCode) (msg : Str) (c : Conn)
      → Sends 1 k sid c (send_trailers_only sid code msg c)
  unfolding send_trailers_only terminals
  send_trailers_only-Sends code msg c = ground arith

  send_response-Sends :
      (st : Status) (payload : Str) (c : Conn) → Sends 1 k sid c (send_response sid st payload c)
  unfolding send_response terminals
  send_response-Sends st payload c = ground arith

  pub send_response_calls :
      (st : Status) (payload : Str) (c : Conn) → (send_response sid st payload c).calls ≡ c.calls
  unfolding send_response
  send_response_calls st payload c = ground arith

  respond_call-Once :
      (st : Status) (payload : Str) (call : Call) (c : Conn)
      → find sid c.calls ≡ some call
      → call.responded ≡ false
      → Once k c
      → Once k (send_response sid st payload (mark_responded sid call c))
  unfolding mark_responded
  respond_call-Once st payload call c e r =
      let c' = mark_responded sid call c in
      Once-rewrite k sid 1 call (record call { responded = true; deadline_timer = 0 }) c
        (send_response sid st payload c') e (send_response_calls st payload c')
        (send_response-Sends st payload c') (λ n b p. ground arith)

  trailers_call-Once :
      (code : StatusCode) (msg : Str) (call : Call) (c : Conn)
      → find sid c.calls ≡ some call
      → call.responded ≡ false
      → Once k c
      → Once k (send_trailers_only sid code msg (mark_responded sid call c))
  unfolding mark_responded send_trailers_only
  trailers_call-Once code msg call c e r =
      let c' = mark_responded sid call c in
      Once-rewrite k sid 1 call (record call { responded = true; deadline_timer = 0 }) c
        (send_trailers_only sid code msg c') e refl (send_trailers_only-Sends code msg c')
        (λ n b p. ground arith)

  pub mark_responded-Once :
      (call : Call) (c : Conn)
      → find sid c.calls ≡ some call
      → call.responded ≡ false
      → Once k c
      → Once k (mark_responded sid call c)
  unfolding mark_responded
  mark_responded-Once call c e r =
      Once-rewrite k sid 0 call (record call { responded = true; deadline_timer = 0 }) c
        (mark_responded sid call c) e refl (ground arith) (λ n b p. ground arith)

  marked : (call : Call) (c : Conn) → find sid (mark_responded sid call c).calls ≢ none
  unfolding mark_responded
  marked call c e =
      cc (find-insert_self sid (record call { responded = true; deadline_timer = 0 }) c.calls)

  pub respond-Once :
      (st : Status) (payload : Str) (c : Conn) → Once k c → Once k (respond sid st payload c)
  unfolding respond
  respond-Once st payload c h = with_call-keeps (Once k) sid c _ h λ call e.
      if-keeps (Once k) call.responded _ _ (λ _. h) λ r. respond_call-Once st payload call c e r h

  pub trailers_only-Once :
      (code : StatusCode) (msg : Str) (c : Conn)
      → Room k sid c
      → Once k c
      → Once k (trailers_only sid code msg c)
  unfolding trailers_only
  trailers_only-Once code msg c fresh h = elim (Option-cases (find sid c.calls)) [
    | inl e ↦ rw (e, trailers_only) (fresh_trailers e (fresh e))
    | inr (call, e) ↦
        rw (e, trailers_only)
          (if-keeps (Once k) call.responded _ _ (λ _. h)
            λ r. trailers_call-Once code msg call c e r h)
  ]
    where
      fresh_trailers :
          find sid c.calls ≡ none
          → (sid ≡ k.stream → suc (terminals sid c.sent) ≤ k.budget)
          → Once k (send_trailers_only sid code msg c)
      fresh_trailers e z =
          ground
            (arith, send_trailers_only-Sends code msg c, send_trailers_only_calls sid code msg c)

  pub respond_error-Once : (st : Status) (c : Conn) → Once k c → Once k (respond_error sid st c)
  unfolding respond_error
  respond_error-Once st c h = with_call-keeps (Once k) sid c _ h λ call e.
      if-keeps (Once k) call.responded _ _ (λ _. h)
        λ r.
          trailers_only-Once st.code st.message (mark_responded sid call c)
            (λ absent. absurd (marked call c absent)) (mark_responded-Once call c e r h)

  -- The two ways to end a call, by trailers and by a trailers-only response.
  end_by_trailers :
      (call call' : Call) (hs : Headers) (c : Conn)
      → find sid c.calls ≡ some call
      → Owes 1 call call'
      → Once k c
      → Once k (send (trailers sid hs) (put sid call' c))
  end_by_trailers call call' hs c e =
      Once-rewrite k sid 1 call call' c (send (trailers sid hs) (put sid call' c)) e refl
        (unfold terminals in ground arith)

  end_by_headers :
      (call call' : Call) (code : StatusCode) (msg : Str) (c : Conn)
      → find sid c.calls ≡ some call
      → Owes 1 call call'
      → Once k c
      → Once k (send_trailers_only sid code msg (put sid call' c))
  end_by_headers call call' code msg c e =
      Once-rewrite k sid 1 call call' c (send_trailers_only sid code msg (put sid call' c)) e
        (send_trailers_only_calls sid code msg (put sid call' c))
        (send_trailers_only-Sends code msg (put sid call' c))

  pub send_deadline-Once : (c : Conn) → Once k c → Once k (send_deadline sid c)
  unfolding send_deadline
  send_deadline-Once c h = with_call-keeps (Once k) sid c _ h λ call e.
      if-keeps (Once k) call.responded _ _ (λ _. h)
        λ r.
          if-keeps (Once k) (not (is_unary call.form) && call.response_headers_sent) _ _
            (λ _. end_by_trailers call _ _ c e (λ n b p. ground arith) h)
            (λ _. end_by_headers call _ _ _ c e (λ n b p. ground arith) h)

  abbrev ended : Call → Call
  ended call = record call {
    responded = true;
    write_closed = true;
    read_finished = true;
    deadline_timer = 0;
  }

  finish_call-Once :
      (st : Status) (call : Call) (c : Conn)
      → find sid c.calls ≡ some call
      → call.responded ≡ false
      → Once k c
      → Once k (finish_call sid st call c)
  unfolding finish_call
  finish_call-Once st call c e r h =
      let c' = stop_timer call.deadline_timer c in
      if-keeps (Once k) (call.out_inflight || not (is_empty call.out_queue)) _ _
        (λ _.
          let call' = record (ended call) { finish_pending = st; has_finish_pending = true } in
          Once-rewrite k sid 0 call call' c (put sid call' c') e refl (ground arith)
            (λ n b p. ground arith) h)
        (λ _.
          if-keeps (Once k) (not call.response_headers_sent) _ _
            (λ _.
              end_by_headers call (ended call) st.code st.message c' e (λ n b p. ground arith) h)
            (λ _. end_by_trailers call (ended call) _ c' e (λ n b p. ground arith) h))

  pub finish_stream-Once : (st : Status) (c : Conn) → Once k c → Once k (finish_stream sid st c)
  unfolding finish_stream
  finish_stream-Once st c h =
      with_call-keeps (Once k) sid c _ h λ call e.
        if-keeps (Once k) call.responded _ _ (λ _. h) λ r. finish_call-Once st call c e r h

  pub deferred_finish-Once : (c : Conn) → Once k c → Once k (maybe_send_deferred_finish sid c)
  unfolding maybe_send_deferred_finish
  deferred_finish-Once c h = with_call-keeps (Once k) sid c _ h λ call e.
      if-keeps (Once k)
        (not call.has_finish_pending || (call.out_inflight || not (is_empty call.out_queue))) _ _
        (λ _. h)
        λ r.
          end_by_trailers call (record call { has_finish_pending = false }) _ c e
            (λ n b p. ground arith) h
