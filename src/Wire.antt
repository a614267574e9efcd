-- ===== src/Wire.antt =====
-- What the core hands to an H2Session (urpc/core/include/urpc/core/h2_session.h): header maps, and
-- the frames that its Send calls submit. HTTP/2 itself is nghttp2's.
use u_rpc.Prelude.{
  ℕ, suc, ◌+◌, Bool, false, ◌&&◌, Option, none, some, List, [], ◌∷◌, ◌==◌, if◌then◌else◌,
}
use u_rpc.Prelude.Str.{Str, codes, str_eq, to_string}
use u_rpc.Prelude.Number.{ℤ, pos, negsuc}
use u_rpc.Status.{StatusCode, to_int}

-- H2Session::HeaderMap, and the vectors of pairs.
abbrev pub Headers : Type 0
Headers = List (Str × Str)

unfoldable pub field : Str → Headers → Option Str
field name [] = none
field name ((n, v) ∷ h) = if str_eq n name then some v else field name h

-- The closure that SendData calls when the body is consumed: whose it is, and the callback that it
-- holds.
pub record Note : Type 0 where
  pub owner : ℕ
  pub cb : Option ℕ

pub data Frame : Type 0 where
  headers : ℕ → Headers → Bool → Frame
  body : ℕ → Str → Bool → Option Note → Frame
  trailers : ℕ → Headers → Frame
  reset : ℕ → ℕ → Frame

-- Whether a frame ends the sender's half of a stream, as the END_STREAM flag does.
abbrev pub ends : ℕ → Frame → Bool
ends sid (headers s _ end) = s == sid && end
ends sid (body s _ end _) = s == sid && end
ends sid (trailers s _) = s == sid
ends sid (reset s _) = false

-- How many frames of a log end the stream.
unfoldable pub terminals : ℕ → List Frame → ℕ
terminals sid [] = 0
terminals sid (f ∷ fs) = if ends sid f then suc (terminals sid fs) else terminals sid fs

-- std::to_string of an int.
unfoldable pub int_to_string : ℤ → Str
int_to_string (pos n) = to_string n
int_to_string (negsuc n) = b'-' ∷ to_string (n + 1)

-- std::to_string(static_cast<int>(code))
unfoldable pub code_text : StatusCode → Str
unfolding int_to_string to_int
code_text c = int_to_string (to_int c)

abbrev pub content_type : Str
content_type = codes "application/grpc"
