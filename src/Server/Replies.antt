-- ===== src/Server/Replies.antt =====
-- What a call that meets no handler is answered (urpc/core/source/urpc_server.cc).
pub mod Deadline
use u_rpc.Prelude.{
  ℕ, ◌≡◌, refl, ap, sym, ◌∙◌, Bool, true, false, not, Option, none, some, [], ◌∷◌, ◌++◌, arith,
  if◌then◌else◌, option_found,
}
use mathlib.Core.Path.{subst}
use u_rpc.Prelude.Str.{Str, codes, str_eq, to_string}
use u_rpc.Prelude.Map.{find, find-insert_self}
use u_rpc.Status.{StatusCode, unimplemented}
use u_rpc.Router.{is_unary}
use u_rpc.Wire.{Frame, headers, body, trailers, reset, ends, field, content_type, code_text}
use u_rpc.Server.State.{Call, Conn, User, put, send, stop_timer}
use u_rpc.Server.Terminal.{status_trailers, send_trailers_only, mark_responded, trailers_only}
use u_rpc.Server.Request.{finish_request, finish_unary, finish_streaming}
use u_rpc.Server.Rules.{with_call_found}

-- The header of a frame, if it carries headers.
abbrev pub header_of : Str → Frame → Option Str
header_of name (headers s hs end_stream) = field name hs
header_of name (trailers s hs) = field name hs
header_of name (body s bytes end_stream n) = none
header_of name (reset s code) = none

-- Whether a frame is a header block that opens the response.
abbrev pub opens : Frame → Bool
opens (headers s hs end_stream) = true
opens _ = false

abbrev pub responded_at : ℕ → Conn → Bool
responded_at sid c = elim (find sid c.calls) [ none ↦ false | some call ↦ call.responded ]

-- One more frame is sent on the stream; it ends the stream and carries the status and the message; and
-- the call has responded.
abbrev pub Answers : ℕ → Str → Str → Bool → Conn → Conn → Type 0
Answers sid code msg opening c c' =
    (f : Frame) × (c'.sent ≡ f ∷ c.sent)
    × (ends sid f ≡ true)
    × (header_of (codes "grpc-status") f ≡ some code)
    × (header_of (codes "grpc-message") f ≡ some msg)
    × (opens f ≡ opening)
    × (responded_at sid c' ≡ true)

pub put_responded :
    (sid : ℕ) (call : Call) (c : Conn)
    → call.responded ≡ true
    → responded_at sid (put sid call c) ≡ true
put_responded sid call c r =
    ap (λ (o : Option Call). elim o [ none ↦ false | some call ↦ call.responded ])
      (find-insert_self sid call c.calls)
    ∙ r

-- A trailers-only response behind a call that is marked.
pub send_trailers_only-Answers :
    (sid : ℕ) (code : StatusCode) (msg : Str) (c c' : Conn)
    → c'.sent ≡ c.sent
    → responded_at sid c' ≡ true
    → Answers sid (code_text code) msg true c (send_trailers_only sid code msg c')
unfolding send_trailers_only field str_eq
send_trailers_only-Answers sid code msg c c' e r = (
  headers sid
      ((codes ":status", codes "200")
        ∷ (codes "content-type", content_type)
        ∷ (codes "grpc-status", code_text code)
        ∷ (codes "grpc-message", msg)
        ∷ [])
      true,
  rw e,
  ground arith,
  refl,
  refl,
  refl,
  r,
)

-- Trailers behind a call that is marked.
pub trailers-Answers :
    (sid : ℕ) (code : StatusCode) (msg : Str) (c c' : Conn)
    → c'.sent ≡ c.sent
    → responded_at sid c' ≡ true
    → Answers sid (code_text code) msg false c (send (trailers sid (status_trailers code msg)) c')
unfolding field str_eq
trailers-Answers sid code msg c c' e r =
    (trailers sid (status_trailers code msg), rw e, ground arith, refl, refl, refl, r)

trailers_only-Answers :
    (sid : ℕ) (code : StatusCode) (call : Call) (msg : Str) (c : Conn)
    → find sid c.calls ≡ some call
    → call.responded ≡ false
    → Answers sid (code_text code) msg true c (trailers_only sid code msg c)
unfolding trailers_only mark_responded
trailers_only-Answers sid code call msg c e r =
    let call' = record call { responded = true; deadline_timer = 0 } in
    subst (Answers sid (code_text code) msg true c) (sym marked) (
      send_trailers_only-Answers sid code msg c (mark_responded sid call c) refl
        (put_responded sid call' (stop_timer call.deadline_timer c) refl))
  where
    marked :
        trailers_only sid code msg c ≡ send_trailers_only sid code msg (mark_responded sid call c)
    marked =
        option_found (λ x. x) (send_trailers_only sid code msg c)
          (λ call.
            if call.responded
            then c
            else send_trailers_only sid code msg (mark_responded sid call c))
          call (find sid c.calls) e
        ∙ ground arith

-- A request on a call without a handler, which has not responded, is answered when it ends: one more
-- frame is sent, which ends the stream and carries UNIMPLEMENTED and the name of the method; and the
-- call has responded then, so that it is not answered again.
pub unknown_method :
    (user : User) (sid : ℕ) (call : Call) (c : Conn)
    → find sid c.calls ≡ some call
    → call.request_done ≡ false
    → call.has_handler ≡ false
    → call.responded ≡ false
    → Answers sid
        (codes "12")
        (codes "unknown method: " ++ call.path)
        true
        c
        (finish_request user sid c)
unfolding finish_request code_text to_string
unknown_method user sid call c e d n r =
    let done = record call { request_done = true } in
    let msg = codes "unknown method: " ++ call.path in
    subst (Answers sid (codes "12") msg true c)
      (sym (with_call_found (λ x. x) sid c chosen call e ∙ refused))
      (trailers_only-Answers sid unimplemented done msg (put sid done c)
        (find-insert_self sid done c.calls) r)
  where
    chosen : Call → Conn
    chosen call =
        if call.request_done
        then c
        else (let done = record call { request_done = true } in
            if not call.has_handler
            then trailers_only sid unimplemented (codes "unknown method: " ++ call.path)
                (put sid done c)
            else (if is_unary call.form
                then finish_unary user sid done (put sid done c)
                else (let half = record done { request_half_closed = true } in
                    finish_streaming user sid half (put sid half c))))

    refused :
        chosen call
        ≡ trailers_only sid unimplemented
            (codes "unknown method: " ++ call.path)
            (put sid (record call { request_done = true }) c)
    refused = ground arith
