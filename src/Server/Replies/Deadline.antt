-- ===== src/Server/Replies/Deadline.antt =====
-- What a call that meets its deadline is answered (urpc/core/source/urpc_server.cc).
use u_rpc.Prelude.{
  ℕ, ◌≡◌, refl, ap, sym, ◌∙◌, true, false, not, ◌&&◌, ◌||◌, ◌⊎◌, some, List, [], arith,
  if◌then◌else◌, inl, inr, Bool-cases,
}
use mathlib.Core.Path.{subst}
use u_rpc.Prelude.Str.{Str, codes, to_string}
use u_rpc.Prelude.Map.{find, insert, find-insert_self}
use u_rpc.Status.{deadline_exceeded}
use u_rpc.Router.{is_unary}
use u_rpc.Wire.{trailers, code_text}
use u_rpc.Server.State.{Call, Conn, User, put, send}
use u_rpc.Server.Terminal.{
  status_trailers, send_trailers_only, clear_cancel_cbs, send_deadline, run_cancel, fire_cancel,
  on_deadline,
}
use u_rpc.Server.Rules.{with_call_found}
use u_rpc.Server.Replies.{Answers, put_responded, send_trailers_only-Answers, trailers-Answers}

-- The call once its cancellation fired, where nobody waits for it.
fire_cancel_quiet :
    (user : User) (sid : ℕ) (call : Call) (c : Conn)
    → find sid c.calls ≡ some call
    → call.cancel_cbs ≡ []
    → (find sid (fire_cancel user sid c).calls ≡ some (record call { cancel_fired = true }))
      × ((fire_cancel user sid c).sent ≡ c.sent)
unfolding fire_cancel run_cancel clear_cancel_cbs
fire_cancel_quiet user sid call c e q = elim (Bool-cases call.cancel_fired) [
  | inl f ↦
      let p : fire_cancel user sid c ≡ c = fired ∙ ground arith in
      (
        ap (λ x. find sid x.calls) p ∙ (e ∙ ap (λ b. some (record call { cancel_fired = b })) f),
        ap (λ x. x.sent) p,
      )
  | inr f ↦
      let p : fire_cancel user sid c ≡ cleared [] = fired ∙ (open_branch f ∙ ap cleared q) in
      let r : cleared [] ≡ put sid (record call1 { cancel_cbs = [] }) (put sid call1 c) =
        with_call_found (λ x. x) sid (put sid call1 c)
          (λ call. put sid (record call { cancel_cbs = [] }) (put sid call1 c)) call1
          (find-insert_self sid call1 c.calls) in
      (
        ap (λ x. find sid x.calls) (p ∙ r)
            ∙ (find-insert_self sid (record call1 { cancel_cbs = [] }) (insert sid call1 c.calls)
                ∙ sym (ap (λ l. some (record call1 { cancel_cbs = l })) q)),
        ap (λ x. x.sent) (p ∙ r),
      )
]
  where
    call1 : Call
    call1 = record call { cancel_fired = true }

    cleared : List ℕ → Conn
    cleared cbs = clear_cancel_cbs sid (run_cancel user cbs (put sid call1 c))

    chosen : Call → Conn
    chosen call =
        if call.cancel_fired
        then c
        else clear_cancel_cbs sid
            (run_cancel user call.cancel_cbs (put sid (record call { cancel_fired = true }) c))

    fired : fire_cancel user sid c ≡ chosen call
    fired = with_call_found (λ x. x) sid c chosen call e

    open_branch : call.cancel_fired ≡ false → chosen call ≡ cleared call.cancel_cbs
    open_branch f = ground arith

-- What OnDeadline does on a call that nobody watches. Once the call has responded, it sends nothing.
-- Otherwise one more frame is sent, which ends the stream and carries DEADLINE_EXCEEDED; it opens the
-- response unless this is a stream whose response headers went out; and the call has responded then.
pub deadline_reply :
    (user : User) (sid : ℕ) (call : Call) (c : Conn)
    → find sid c.calls ≡ some call
    → call.cancel_cbs ≡ []
    → (call.responded ≡ true) × ((on_deadline user sid c).sent ≡ c.sent)
      ⊎ (call.responded ≡ false)
        × Answers sid
            (codes "4")
            (codes "deadline exceeded")
            (is_unary call.form || not call.response_headers_sent)
            c
            (on_deadline user sid c)
unfolding on_deadline send_deadline code_text to_string
deadline_reply user sid call c e q = elim (Bool-cases call.responded) [
  | inl r ↦ inl (r, ap (λ x. x.sent) (reached ∙ settled r) ∙ quiet)
  | inr r ↦ elim (Bool-cases (not (is_unary call.form) && call.response_headers_sent)) [
    | inl h ↦ inr (
      r,
      subst (λ b. Answers sid (codes "4") msg b c (on_deadline user sid c)) (ground arith)
          (subst (Answers sid (codes "4") msg false c) (sym (reached ∙ by_trailers r h)) (
            trailers-Answers sid deadline_exceeded msg c (put sid marked c1) quiet
              (put_responded sid marked c1 refl))),
    )
    | inr h ↦ inr (
      r,
      subst (λ b. Answers sid (codes "4") msg b c (on_deadline user sid c)) (ground arith)
          (subst (Answers sid (codes "4") msg true c) (sym (reached ∙ by_headers r h)) (
            send_trailers_only-Answers sid deadline_exceeded msg c (put sid marked c1) quiet
              (put_responded sid marked c1 refl))),
    )
  ]
]
  where
    msg : Str
    msg = codes "deadline exceeded"

    c1 : Conn
    c1 = fire_cancel user sid c

    marked : Call
    marked = record call { cancel_fired = true; responded = true; deadline_timer = 0 }

    quiet : c1.sent ≡ c.sent
    quiet = (fire_cancel_quiet user sid call c e q).1

    answer : Call → Conn
    answer call =
        if call.responded
        then c1
        else let c' = put sid (record call { responded = true; deadline_timer = 0 }) c1 in
          if not (is_unary call.form) && call.response_headers_sent
          then send (trailers sid (status_trailers deadline_exceeded (codes "deadline exceeded")))
              c'
          else send_trailers_only sid deadline_exceeded (codes "deadline exceeded") c'

    reached : on_deadline user sid c ≡ answer (record call { cancel_fired = true })
    reached =
        with_call_found (λ x. x) sid c1 answer (record call { cancel_fired = true })
          (fire_cancel_quiet user sid call c e q).0

    settled : call.responded ≡ true → answer (record call { cancel_fired = true }) ≡ c1
    settled r = ground arith

    by_trailers :
        call.responded ≡ false
        → (not (is_unary call.form) && call.response_headers_sent) ≡ true
        → answer (record call { cancel_fired = true })
          ≡ send (trailers sid (status_trailers deadline_exceeded msg)) (put sid marked c1)
    by_trailers r h = ground arith

    by_headers :
        call.responded ≡ false
        → (not (is_unary call.form) && call.response_headers_sent) ≡ false
        → answer (record call { cancel_fired = true })
          ≡ send_trailers_only sid deadline_exceeded msg (put sid marked c1)
    by_headers r h = ground arith
