-- ===== src/Server/Endings.antt =====
-- How a call ends in Respond, RespondError, FinishStream and FinishRequest of
-- urpc/core/source/urpc_server.cc, on every branch.
pub mod Finish
use u_rpc.Prelude.{
  ℕ, ◌≡◌, refl, ap, ◌∙◌, true, false, not, none, some, arith, if◌then◌else◌, Option-cases,
  Bool-cases, sym, inl, inr,
}
use u_rpc.Prelude.Str.{Str}
use u_rpc.Prelude.Map.{find, find-insert, find-insert_self}
use u_rpc.Status.{Status}
use u_rpc.Wire.{trailers}
use u_rpc.Server.State.{Call, Conn, send}
use u_rpc.Server.Terminal.{respond, respond_error, send_response, trailers_only, mark_responded}
use u_rpc.Server.Rules.{with_call-keeps, with_call_found}
use u_rpc.Server.Once.Final.{send_response_calls}

-- The error of a broken frame reaches nobody: whatever the connection and the call, RespondError
-- sends no frame.
pub respond_error_silent :
    (sid : ℕ) (st : Status) (c : Conn) → (respond_error sid st c).sent ≡ c.sent
unfolding respond_error trailers_only mark_responded
respond_error_silent sid st c =
    with_call-keeps (λ c'. c'.sent ≡ c.sent) sid c _ refl
      λ call e.
        ground (
          arith,
          find-insert sid sid (record call { responded = true; deadline_timer = 0 }) c.calls,
        )

respond_settled :
    (sid : ℕ) (st : Status) (payload : Str) (call : Call) (c : Conn)
    → find sid c.calls ≡ some call
    → call.responded ≡ true
    → respond sid st payload c ≡ c
unfolding respond
respond_settled sid st payload call c e r =
    with_call_found (λ x. x) sid c (λ call. if call.responded then c else respond_call call) call e
    ∙ settled
  where
    respond_call : Call → Conn
    respond_call call = send_response sid st payload (mark_responded sid call c)

    settled : (if call.responded then c else respond_call call) ≡ c
    settled = ground arith

respond_open :
    (sid : ℕ) (st : Status) (payload : Str) (call : Call) (c : Conn)
    → find sid c.calls ≡ some call
    → call.responded ≡ false
    → respond sid st payload c ≡ send_response sid st payload (mark_responded sid call c)
unfolding respond
respond_open sid st payload call c e r =
    with_call_found (λ x. x) sid c (λ call. if call.responded then c else respond_call call) call e
    ∙ opened
  where
    respond_call : Call → Conn
    respond_call call = send_response sid st payload (mark_responded sid call c)

    opened : (if call.responded then c else respond_call call) ≡ respond_call call
    opened = ground arith

respond_absent :
    (sid : ℕ) (st : Status) (payload : Str) (c : Conn)
    → find sid c.calls ≡ none
    → respond sid st payload c ≡ c
unfolding respond
respond_absent sid st payload c e =
    ap
      (λ o. elim o [
        | none ↦ c
        | some call ↦
            if call.responded then c else send_response sid st payload (mark_responded sid call c)
      ])
      e

answered :
    (sid : ℕ) (st : Status) (payload : Str) (call : Call) (c : Conn)
    → find sid (send_response sid st payload (mark_responded sid call c)).calls
      ≡ some (record call { responded = true; deadline_timer = 0 })
unfolding mark_responded
answered sid st payload call c =
    ap (find sid) (
      send_response_calls (record { stream = sid; budget = 0 }) sid st payload
        (mark_responded sid call c))
    ∙ find-insert_self sid (record call { responded = true; deadline_timer = 0 }) c.calls

-- A second Respond changes nothing, whatever the two answers are.
respond_once :
    (sid : ℕ) (st st' : Status) (payload payload' : Str) (c : Conn)
    → respond sid st' payload' (respond sid st payload c) ≡ respond sid st payload c
respond_once sid st st' payload payload' c = elim (Option-cases (find sid c.calls)) [
  | inl e ↦ settled c (respond_absent sid st payload c e) (respond_absent sid st' payload' c e)
  | inr (call, e) ↦ elim (Bool-cases call.responded) [
    | inl r ↦
        settled c (respond_settled sid st payload call c e r)
          (respond_settled sid st' payload' call c e r)
    | inr r ↦
        settled (send_response sid st payload (mark_responded sid call c))
          (respond_open sid st payload call c e r)
          (respond_settled sid st' payload' (record call { responded = true; deadline_timer = 0 }) _
            (answered sid st payload call c) refl)
  ]
]
  where
    settled :
        (c' : Conn)
        → respond sid st payload c ≡ c'
        → respond sid st' payload' c' ≡ c'
        → respond sid st' payload' (respond sid st payload c) ≡ respond sid st payload c
    settled c' p q = ap (respond sid st' payload') p ∙ q ∙ sym p
