-- ===== src/Server/Endings/Finish.antt =====
-- FinishStream with messages still to go (urpc/core/source/urpc_server.cc).
use u_rpc.Prelude.{
  ℕ, ◌≡◌, refl, ap, ◌∙◌, true, false, not, ◌||◌, Option, none, some, List, [], ◌∷◌, arith,
  if◌then◌else◌, is_empty,
}
use u_rpc.Prelude.Map.{find, find-insert_self}
use u_rpc.Status.{Status, ok_status}
use u_rpc.Loop.{post}
use u_rpc.Wire.{trailers}
use u_rpc.Server.State.{OutMsg, Call, Conn, User, write_event, put, send, stop_timer, pump}
use u_rpc.Server.Terminal.{status_trailers}
use u_rpc.Server.Stream.{
  finish_call, finish_stream, pump_out, pump_call, clear_inflight, maybe_send_deferred_finish,
  on_consumed, call_write,
}
use u_rpc.Server.Writes.{IsQuiet}
use u_rpc.Server.Rules.{with_call_found}

-- FinishStream on a call with messages still to go.
abbrev finishing : Status → Call → Call
finishing st call = record call {
  responded = true;
  write_closed = true;
  read_finished = true;
  deadline_timer = 0;
  finish_pending = st;
  has_finish_pending = true;
}

finish_deferred :
    (sid : ℕ) (st : Status) (call : Call) (c : Conn)
    → find sid c.calls ≡ some call
    → call.responded ≡ false
    → (call.out_inflight || not (is_empty call.out_queue)) ≡ true
    → finish_stream sid st c ≡ put sid (finishing st call) (stop_timer call.deadline_timer c)
unfolding finish_stream finish_call
finish_deferred sid st call c e r q =
    with_call_found (λ x. x) sid c (λ call. if call.responded then c else finish_call sid st call c)
      call e
    ∙ picked
  where
    picked :
        (if call.responded then c else finish_call sid st call c)
        ≡ put sid (finishing st call) (stop_timer call.deadline_timer c)
    picked = ground arith

-- The connection once the message in flight is consumed and its callback was called.
abbrev told : User → ℕ → Option ℕ → Call → Conn → Conn
told user sid cb call c =
    let c' = call_write user cb ok_status (put sid (record call { out_inflight = false }) c) in
    record c' { loop = post (some (pump sid)) c'.loop }

consumed_found :
    (user : User) (sid : ℕ) (cb : Option ℕ) (call : Call) (c : Conn)
    → find sid c.calls ≡ some call
    → on_consumed user sid cb c ≡ maybe_send_deferred_finish sid (told user sid cb call c)
unfolding on_consumed clear_inflight
consumed_found user sid cb call c e =
    with_call_found
      (λ c'.
        let c'' = call_write user cb ok_status c' in
        maybe_send_deferred_finish sid (record c'' { loop = post (some (pump sid)) c''.loop }))
      sid c (λ call. put sid (record call { out_inflight = false }) c) call e

told_quiet :
    (user : User) (sid : ℕ) (cb : Option ℕ) (call : Call) (c : Conn)
    → IsQuiet user
    → (find sid (told user sid cb call c).calls ≡ some (record call { out_inflight = false }))
      × ((told user sid cb call c).sent ≡ c.sent)
told_quiet user sid none call c quiet =
    (find-insert_self sid (record call { out_inflight = false }) c.calls, refl)
told_quiet user sid (some cb) call c quiet =
    let call' = record call { out_inflight = false } in
    let (same, silent) = quiet (write_event cb ok_status) (put sid call' c) in
    (ap (find sid) same ∙ find-insert_self sid call' c.calls, silent)

deferred_sent :
    (sid : ℕ) (call : Call) (c : Conn)
    → find sid c.calls ≡ some call
    → (maybe_send_deferred_finish sid c).sent ≡ (
        if not call.has_finish_pending || (call.out_inflight || not (is_empty call.out_queue))
        then c.sent
        else trailers sid (status_trailers call.finish_pending.code call.finish_pending.message)
          ∷ c.sent)
unfolding maybe_send_deferred_finish
deferred_sent sid call c e =
    with_call_found (λ c'. c'.sent) sid c
      (λ call.
        if not call.has_finish_pending || (call.out_inflight || not (is_empty call.out_queue))
        then c
        else send
            (trailers sid (status_trailers call.finish_pending.code call.finish_pending.message))
            (put sid (record call { has_finish_pending = false }) c))
      call e
    ∙ ground arith

consumed_sent :
    (user : User) (sid : ℕ) (cb : Option ℕ) (call : Call) (c : Conn)
    → IsQuiet user
    → find sid c.calls ≡ some call
    → (on_consumed user sid cb c).sent ≡ (
        if not call.has_finish_pending || not (is_empty call.out_queue)
        then c.sent
        else trailers sid (status_trailers call.finish_pending.code call.finish_pending.message)
          ∷ c.sent)
consumed_sent user sid cb call c quiet e =
    let (here, silent) = told_quiet user sid cb call c quiet in
    ap (λ x. x.sent) (consumed_found user sid cb call c e)
    ∙ (deferred_sent sid (record call { out_inflight = false }) (told user sid cb call c) here
        ∙ rw silent)

deferred_kept :
    (sid : ℕ) (call : Call) (c : Conn)
    → find sid c.calls ≡ some call
    → is_empty call.out_queue ≡ false
    → maybe_send_deferred_finish sid c ≡ c
unfolding maybe_send_deferred_finish
deferred_kept sid call c e q =
    with_call_found (λ x. x) sid c
      (λ call.
        if not call.has_finish_pending || (call.out_inflight || not (is_empty call.out_queue))
        then c
        else send
            (trailers sid (status_trailers call.finish_pending.code call.finish_pending.message))
            (put sid (record call { has_finish_pending = false }) c))
      call e
    ∙ ground arith

pump_call_kept :
    (sid : ℕ) (call : Call) (q : List OutMsg) (c : Conn)
    → call.responded ≡ true
    → pump_call sid call q c ≡ c
unfolding pump_call
pump_call_kept sid call [] c r = refl
pump_call_kept sid call (out ∷ rest) c r = ground arith

pump_out_kept :
    (sid : ℕ) (call : Call) (c : Conn)
    → find sid c.calls ≡ some call
    → call.responded ≡ true
    → pump_out sid c ≡ c
unfolding pump_out
pump_out_kept sid call c e r =
    with_call_found (λ x. x) sid c (λ call. pump_call sid call call.out_queue c) call e
    ∙ pump_call_kept sid call call.out_queue c r

-- A stream that is finished while its last message is in flight, with none behind it, gets its
-- trailers when that message is consumed, and nothing before; whether or not the message has a write
-- callback, where user code calls nothing on a context from its callbacks.
pub finish-on_consumed :
    (user : User) (sid : ℕ) (cb : Option ℕ) (st : Status) (call : Call) (c : Conn)
    → IsQuiet user
    → find sid c.calls ≡ some call
    → call.responded ≡ false
    → call.out_inflight ≡ true
    → call.out_queue ≡ []
    → ((finish_stream sid st c).sent ≡ c.sent)
      × ((on_consumed user sid cb (finish_stream sid st c)).sent
          ≡ trailers sid (status_trailers st.code st.message) ∷ c.sent)
finish-on_consumed user sid cb st call c quiet e r i q =
    let c' = put sid (finishing st call) (stop_timer call.deadline_timer c) in
    let f = finish_deferred sid st call c e r (ground arith) in
    (
      ap (λ x. x.sent) f,
      ap (λ x. (on_consumed user sid cb x).sent) f
          ∙ consumed_sent user sid cb (finishing st call) c' quiet
              (find-insert_self sid (finishing st call) c.calls)
          ∙ last,
    )
  where
    last :
        (if not true || not (is_empty call.out_queue)
          then c.sent
          else trailers sid (status_trailers st.code st.message) ∷ c.sent)
        ≡ trailers sid (status_trailers st.code st.message) ∷ c.sent
    last = simp q

-- A stream that is finished while messages wait in its queue sends nothing more: neither the pump
-- nor the deferred finish moves it, also once the message in flight is consumed; whether or not that
-- message has a write callback, where user code calls nothing on a context from its callbacks.
pub finish_never_drains :
    (user : User) (sid : ℕ) (cb : Option ℕ) (st : Status) (call : Call) (c : Conn)
    → IsQuiet user
    → find sid c.calls ≡ some call
    → call.responded ≡ false
    → is_empty call.out_queue ≡ false
    → ((finish_stream sid st c).sent ≡ c.sent)
      × ((on_consumed user sid cb (finish_stream sid st c)).sent ≡ c.sent)
      × ((pump_out sid (on_consumed user sid cb (finish_stream sid st c))).sent ≡ c.sent)
finish_never_drains user sid cb st call c quiet e r q =
    let call1 = finishing st call in
    let c1 = put sid call1 (stop_timer call.deadline_timer c) in
    let call2 = record call1 { out_inflight = false } in
    let c2 = told user sid cb call1 c1 in
    let f = finish_deferred sid st call c e r (ground arith) in
    let e1 = find-insert_self sid call1 c.calls in
    let (e2, silent) = told_quiet user sid cb call1 c1 quiet in
    let g =
      ap (on_consumed user sid cb) f
      ∙ consumed_found user sid cb call1 c1 e1
      ∙ deferred_kept sid call2 c2 e2 q in
    (
      ap (λ x. x.sent) f,
      ap (λ x. x.sent) g ∙ silent,
      ap (λ x. (pump_out sid x).sent) g
          ∙ ap (λ x. x.sent) (pump_out_kept sid call2 c2 e2 refl)
          ∙ silent,
    )
