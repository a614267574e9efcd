-- ===== src/Server/Terminal.antt =====
-- How a call ends: Respond, SendTrailersOnly, TrailersOnly, RespondError, OnDeadline, StopDeadline
-- and FireCancel of urpc/core/source/urpc_server.cc.
use u_rpc.Prelude.{ℕ, true, false, ◌&&◌, not, none, some, List, [], ◌∷◌, if◌then◌else◌}
use u_rpc.Prelude.Str.{Str, codes}
use u_rpc.Prelude.Map.{find}
use u_rpc.Status.{Status, StatusCode, is_ok, deadline_exceeded}
use u_rpc.Codec.{encode_frame}
use u_rpc.Router.{is_unary}
use u_rpc.Wire.{Headers, headers, body, trailers, content_type, code_text}
use u_rpc.Server.State.{with_call, Call, Conn, User, cancel_event, put, send, stop_timer}

abbrev pub response_headers : Headers
response_headers = (codes ":status", codes "200") ∷ (codes "content-type", content_type) ∷ []

-- A std::map, in the order of its keys.
abbrev pub status_trailers : StatusCode → Str → Headers
status_trailers code msg = (codes "grpc-message", msg) ∷ (codes "grpc-status", code_text code) ∷ []

-- StopDeadline, on the record that is written back.
abbrev pub no_deadline : Call → Call
no_deadline call = record call { deadline_timer = 0 }

-- SendTrailersOnly
unfoldable pub send_trailers_only : ℕ → StatusCode → Str → Conn → Conn
send_trailers_only sid code msg c =
    send
      (headers sid
        ((codes ":status", codes "200")
          ∷ (codes "content-type", content_type)
          ∷ (codes "grpc-status", code_text code)
          ∷ (codes "grpc-message", msg)
          ∷ [])
        true)
      c

-- `responded = true; StopDeadline(call)`
unfoldable pub mark_responded : ℕ → Call → Conn → Conn
mark_responded sid call c =
    put sid (record call { responded = true; deadline_timer = 0 })
      (stop_timer call.deadline_timer c)

unfoldable pub trailers_only : ℕ → StatusCode → Str → Conn → Conn
unfolding send_trailers_only mark_responded
trailers_only sid code msg c = elim (find sid c.calls) [
  | none ↦ send_trailers_only sid code msg c
  | some call ↦
      if call.responded then c else send_trailers_only sid code msg (mark_responded sid call c)
]

unfoldable pub respond_error : ℕ → Status → Conn → Conn
unfolding trailers_only
respond_error sid st c = with_call sid c λ call.
    if call.responded then c else trailers_only sid st.code st.message (mark_responded sid call c)

-- The frames of a unary answer.
unfoldable pub send_response : ℕ → Status → Str → Conn → Conn
unfolding send_trailers_only
send_response sid st payload c =
    if is_ok st
    then send (trailers sid ((codes "grpc-status", codes "0") ∷ [])) (
        send (body sid (encode_frame payload []) false none)
          (send (headers sid response_headers false) c))
    else send_trailers_only sid st.code st.message c

unfoldable pub respond : ℕ → Status → Str → Conn → Conn
unfolding send_response mark_responded
respond sid st payload c =
    with_call sid c
      λ call. if call.responded then c else send_response sid st payload (mark_responded sid call c)

-- `cancel_cbs.clear()`
unfoldable pub clear_cancel_cbs : ℕ → Conn → Conn
clear_cancel_cbs sid c = with_call sid c λ call. put sid (record call { cancel_cbs = [] }) c

-- OnDeadline once the cancellation callbacks ran: trailers in a stream whose response headers went
-- out, a trailers-only response otherwise.
unfoldable pub send_deadline : ℕ → Conn → Conn
unfolding send_trailers_only
send_deadline sid c = with_call sid c λ call.
    if call.responded
    then c
    else let c' = put sid (record call { responded = true; deadline_timer = 0 }) c in
      if not (is_unary call.form) && call.response_headers_sent
      then send (trailers sid (status_trailers deadline_exceeded (codes "deadline exceeded"))) c'
      else send_trailers_only sid deadline_exceeded (codes "deadline exceeded") c'

module _ (user : User) where
  unfoldable pub run_cancel : List ℕ → Conn → Conn
  run_cancel [] c = c
  run_cancel (cb ∷ cbs) c = run_cancel cbs (user (cancel_event cb) c)

  unfoldable pub fire_cancel : ℕ → Conn → Conn
  unfolding run_cancel clear_cancel_cbs
  fire_cancel sid c = with_call sid c λ call.
      if call.cancel_fired
      then c
      else clear_cancel_cbs sid
          (run_cancel call.cancel_cbs (put sid (record call { cancel_fired = true }) c))

  unfoldable pub on_deadline : ℕ → Conn → Conn
  unfolding fire_cancel send_deadline
  on_deadline sid c = send_deadline sid (fire_cancel sid c)
