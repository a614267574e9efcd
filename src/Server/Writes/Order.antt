-- ===== src/Server/Writes/Order.antt =====
-- The order of the messages that a stream sends (urpc/core/source/urpc_server.cc).
use mathlib.Core.List.{map-append}
use u_rpc.Prelude.{
  ℕ, ◌≡◌, refl, sym, ap, ◌∙◌, Bool, true, false, not, ◌&&◌, ◌||◌, Option, none, some, List, [], ◌∷◌,
  ◌++◌, if◌then◌else◌, leb, length, append-nil, append_assoc,
}
use u_rpc.Prelude.Str.{Str, codes}
use u_rpc.Prelude.Map.{find, find-insert_self}
use u_rpc.Status.{Status, ok_status, status, unavailable, internal, resource_exhausted}
use u_rpc.Codec.{encode_frame}
use u_rpc.Server.State.{OutMsg, Call, Conn, User, write_event, put}
use u_rpc.Server.Stream.{pump_out, clear_inflight, on_consumed, call_write}
use u_rpc.Server.Context.{write_message}
use u_rpc.Server.Writes.{
  Outgoing, writes, consumes, pumps, IsQuiet, bodies, framed_all, queue_of, ledger, room_in,
  accepted, outgoing_step, outgoing_run, accepted_all, pump_out-Same, clear_inflight-Same,
  deferred_finish-Same,
}

module _ (user : User) (quiet : IsQuiet user) (sid : ℕ) where
  call_write-Same :
      (cb : Option ℕ) (st : Status) (c : Conn) → ledger sid (call_write user cb st c) ≡ ledger sid c
  call_write-Same none st c = refl
  call_write-Same (some cb) st c =
      let (same, silent) = quiet (write_event cb st) c in rw (same, silent)

  on_consumed-Same :
      (cb : Option ℕ) (c : Conn) → ledger sid (on_consumed user sid cb c) ≡ ledger sid c
  unfolding on_consumed
  on_consumed-Same cb c =
      deferred_finish-Same sid _
      ∙ (call_write-Same cb ok_status (clear_inflight sid c) ∙ clear_inflight-Same sid c)

  abbrev Grows : Outgoing → Conn → Conn → Type 0
  Grows o c c' = ledger sid c' ≡ ledger sid c ++ accepted sid o c

  -- The two refusals of WriteMessage, and its message.
  refused_or :
      (closed full : Bool) (x y z c : Conn) (m : List Str)
      → ledger sid x ≡ ledger sid c
      → ledger sid y ≡ ledger sid c
      → ledger sid z ≡ ledger sid c ++ m
      → ledger sid (if closed then x else (if full then y else z))
        ≡ ledger sid c ++ (if not closed && not full then m else [])
  refused_or true full x y z c m p q r = p ∙ sym (append-nil (ledger sid c))
  refused_or false true x y z c m p q r = q ∙ sym (append-nil (ledger sid c))
  refused_or false false x y z c m p q r = r

  queued-Grows :
      (call : Call) (out : OutMsg) (c : Conn)
      → find sid c.calls ≡ some call
      → ledger sid (put sid (record call { out_queue = call.out_queue ++ out ∷ [] }) c)
        ≡ ledger sid c ++ out.framed ∷ []
  queued-Grows call out c e =
      let sent = bodies sid c.sent in
      let call' = record call { out_queue = call.out_queue ++ out ∷ [] } in
      ap (λ (o : Option Call). sent ++ framed_all (queue_of o)) (find-insert_self sid call' c.calls)
      ∙ (ap (λ (xs : List Str). sent ++ xs)
            (map-append (λ (o : OutMsg). o.framed) call.out_queue (out ∷ []))
          ∙ (sym (append_assoc sent (framed_all call.out_queue) (out.framed ∷ []))
              ∙ ap (λ (o : Option Call). (sent ++ framed_all (queue_of o)) ++ out.framed ∷ [])
                  (sym e)))

  write_message-Grows :
      (msg : Str) (cb : Option ℕ) (c : Conn)
      → Grows (writes msg cb) c (write_message user sid msg cb c)
  unfolding write_message
  write_message-Grows msg cb c = wrote (find sid c.calls) refl
    where
      out : OutMsg
      out = record { framed = encode_frame msg []; cb = cb }

      written : Option Call → Conn
      written o = elim o [
        | none ↦ call_write user cb (status unavailable (codes "stream closed")) c
        | some call ↦
            if call.responded || call.write_closed
            then call_write user cb (status internal (codes "stream finished")) c
            else (if leb 64 (length call.out_queue)
                then call_write user cb (status resource_exhausted (codes "send queue full")) c
                else pump_out sid
                    (put sid (record call { out_queue = call.out_queue ++ out ∷ [] }) c))
      ]

      wrote :
          (o : Option Call)
          → find sid c.calls ≡ o
          → ledger sid (written o)
            ≡ ledger sid c ++ (if room_in o then encode_frame msg [] ∷ [] else [])
      wrote none e = call_write-Same cb _ c ∙ sym (append-nil (ledger sid c))
      wrote (some call) e =
          refused_or (call.responded || call.write_closed) (leb 64 (length call.out_queue)) _ _ _ c
            _ (call_write-Same cb _ c) (call_write-Same cb _ c)
            (pump_out-Same sid _ ∙ queued-Grows call out c e)

  step-Grows : (o : Outgoing) (c : Conn) → Grows o c (outgoing_step user sid o c)
  unfolding outgoing_step
  step-Grows (writes msg cb) c = write_message-Grows msg cb c
  step-Grows (consumes cb) c = on_consumed-Same cb c ∙ sym (append-nil (ledger sid c))
  step-Grows pumps c = pump_out-Same sid c ∙ sym (append-nil (ledger sid c))

-- Whatever the order of writes, of bodies that are consumed and of the task that pumps: the bodies that
-- were sent on a stream, followed by those that wait, are exactly those that were there before and the
-- frames of the messages that WriteMessage has accepted since, in that order: none is lost, doubled or
-- overtaken; where user code calls nothing on a context from its callbacks.
pub writes_in_order :
    (user : User) (sid : ℕ) (os : List Outgoing) (c : Conn)
    → IsQuiet user
    → ledger sid (outgoing_run user sid os c) ≡ ledger sid c ++ accepted_all user sid os c
unfolding outgoing_run accepted_all
writes_in_order user sid [] c quiet = sym (append-nil (ledger sid c))
writes_in_order user sid (o ∷ os) c quiet =
    let c' = outgoing_step user sid o c in
    writes_in_order user sid os c' quiet
    ∙ (ap (λ (xs : List Str). xs ++ accepted_all user sid os c') (step-Grows user quiet sid o c)
        ∙ append_assoc (ledger sid c) (accepted sid o c) (accepted_all user sid os c'))
