-- ===== src/Server/Writes.antt =====
-- The messages that a stream sends: StreamCtx::WriteMessage, PumpOut and what PumpOut gives SendData to
-- call (urpc/core/source/urpc_server.cc).
pub mod Order
use u_rpc.Prelude.{
  ℕ, ◌≡◌, refl, sym, ap, ◌∙◌, Bool, true, false, not, ◌&&◌, ◌||◌, Option, none, some, List, [], ◌∷◌,
  ◌++◌, map, arith, if◌then◌else◌, ◌==◌, leb, length, is_empty, append_assoc, if-keeps,
}
use u_rpc.Prelude.Str.{Str}
use u_rpc.Prelude.Map.{find, find-insert_self}
use u_rpc.Codec.{encode_frame}
use u_rpc.Wire.{Frame, headers, body}
use u_rpc.Server.State.{OutMsg, Call, Conn, User, Callback, put, send}
use u_rpc.Server.Terminal.{response_headers}
use u_rpc.Server.Stream.{
  maybe_send_deferred_finish, pump_message, pump_call, pump_out, clear_inflight, on_consumed,
}
use u_rpc.Server.Context.{write_message}
use u_rpc.Server.Rules.{with_call-keeps}

-- What happens to a stream on its way out: a call of WriteMessage, a body that was consumed, and the
-- task that pumps.
pub data Outgoing : Type 0 where
  writes : Str → Option ℕ → Outgoing
  consumes : Option ℕ → Outgoing
  pumps : Outgoing

-- User code that calls nothing on a context from its callbacks.
abbrev pub IsQuiet : User → Type 0
IsQuiet user =
    (cb : Callback) (c : Conn) → ((user cb c).calls ≡ c.calls) × ((user cb c).sent ≡ c.sent)

-- The bodies sent on a stream, oldest first.
unfoldable pub bodies : ℕ → List Frame → List Str
bodies sid [] = []
bodies sid (body s bytes end_stream n ∷ log) =
    if s == sid then bodies sid log ++ bytes ∷ [] else bodies sid log
bodies sid (_ ∷ log) = bodies sid log

abbrev pub framed_all : List OutMsg → List Str
framed_all q = map (λ (o : OutMsg). o.framed) q

abbrev pub queue_of : Option Call → List OutMsg
queue_of none = []
queue_of (some call) = call.out_queue

-- What was sent on a stream, and what waits behind it.
abbrev pub ledger : ℕ → Conn → List Str
ledger sid c = bodies sid c.sent ++ framed_all (queue_of (find sid c.calls))

abbrev pub room_in : Option Call → Bool
room_in none = false
room_in (some call) =
    not (call.responded || call.write_closed) && not (leb 64 (length call.out_queue))

-- What WriteMessage accepts.
abbrev pub accepted : ℕ → Outgoing → Conn → List Str
accepted sid (writes msg cb) c = if room_in (find sid c.calls) then encode_frame msg [] ∷ [] else []
accepted sid (consumes cb) c = []
accepted sid pumps c = []

module _ (user : User) (sid : ℕ) where
  unfoldable pub outgoing_step : Outgoing → Conn → Conn
  unfolding write_message on_consumed pump_out
  outgoing_step (writes msg cb) c = write_message user sid msg cb c
  outgoing_step (consumes cb) c = on_consumed user sid cb c
  outgoing_step pumps c = pump_out sid c

  unfoldable pub outgoing_run : List Outgoing → Conn → Conn
  unfolding outgoing_step
  outgoing_run [] c = c
  outgoing_run (o ∷ os) c = outgoing_run os (outgoing_step o c)

  unfoldable pub accepted_all : List Outgoing → Conn → List Str
  unfolding outgoing_step
  accepted_all [] c = []
  accepted_all (o ∷ os) c = accepted sid o c ++ accepted_all os (outgoing_step o c)

module _ (sid : ℕ) where
  abbrev Same : Conn → Conn → Type 0
  Same c c' = ledger sid c' ≡ ledger sid c

  -- A call rewritten with its queue as it was.
  put-Same :
      (call call' : Call) (c : Conn)
      → find sid c.calls ≡ some call
      → call'.out_queue ≡ call.out_queue
      → Same c (put sid call' c)
  put-Same call call' c e q =
      ap (λ (o : Option Call). bodies sid c.sent ++ framed_all (queue_of o))
        (find-insert_self sid call' c.calls)
      ∙ (ap (λ (os : List OutMsg). bodies sid c.sent ++ framed_all os) q
          ∙ ap (λ (o : Option Call). bodies sid c.sent ++ framed_all (queue_of o)) (sym e))

  pump_message-Same :
      (call : Call) (out : OutMsg) (rest : List OutMsg) (c : Conn)
      → find sid c.calls ≡ some call
      → call.out_queue ≡ out ∷ rest
      → Same c (pump_message sid call out rest c)
  unfolding pump_message bodies
  pump_message-Same call out rest c e q =
      let call' = record call {
        out_queue = rest;
        out_inflight = true;
        response_headers_sent = true;
      } in
      let c' = put sid call' c in
      let head = headers sid response_headers false in
      let sends : Conn → Conn =
        λ x. send (body sid out.framed false (some (record { owner = sid; cb = out.cb }))) x in
      let self : (sid == sid) ≡ true = ground arith in
      let moved : ledger sid (sends c') ≡ ledger sid c =
        rw (self, find-insert_self sid call' c.calls)
          (append_assoc (bodies sid c.sent) (out.framed ∷ []) (framed_all rest)
            ∙ (ap (λ (os : List OutMsg). bodies sid c.sent ++ framed_all os) (sym q)
                ∙ ap (λ (o : Option Call). bodies sid c.sent ++ framed_all (queue_of o))
                    (sym e))) in
      if-keeps (λ x. ledger sid (sends x) ≡ ledger sid c) call.response_headers_sent c'
        (send head c') (λ _. moved) (λ _. moved)

  pub pump_out-Same : (c : Conn) → Same c (pump_out sid c)
  unfolding pump_out
  pump_out-Same c =
      with_call-keeps (Same c) sid c _ refl λ call e. pumped call.out_queue call e refl
    where
      pumped :
          (q : List OutMsg) (call : Call)
          → find sid c.calls ≡ some call
          → call.out_queue ≡ q
          → Same c (pump_call sid call q c)
      pumped [] call e q = refl
      pumped (out ∷ rest) call e q =
          if-keeps (Same c) (call.out_inflight || (call.responded || call.write_closed)) _ _
            (λ _. refl) (λ _. pump_message-Same call out rest c e q)

  pub clear_inflight-Same : (c : Conn) → Same c (clear_inflight sid c)
  unfolding clear_inflight
  clear_inflight-Same c = with_call-keeps (Same c) sid c _ refl λ call e. put-Same call _ c e refl

  pub deferred_finish-Same : (c : Conn) → Same c (maybe_send_deferred_finish sid c)
  unfolding maybe_send_deferred_finish bodies
  deferred_finish-Same c = with_call-keeps (Same c) sid c _ refl λ call e.
      if-keeps (Same c)
        (not call.has_finish_pending || (call.out_inflight || not (is_empty call.out_queue))) _ _
        (λ _. refl) (λ _. put-Same call (record call { has_finish_pending = false }) c e refl)
