-- ===== src/Status.antt =====
-- urpc/core/include/urpc/core/status.h and urpc/core/source/urpc_status.cpp.
use u_rpc.Prelude.{Bool, true, false, ◌++◌, is_empty, ◌==◌, if◌then◌else◌}
use u_rpc.Prelude.Str.{Str, codes}
use u_rpc.Prelude.Number.{ℤ, pos, negsuc}

-- The named codes, and any other int that a static_cast makes a StatusCode.
pub data StatusCode : Type 0 where
  ok deadline_exceeded resource_exhausted unimplemented internal unavailable : StatusCode
  data_loss : StatusCode
  other : ℤ → StatusCode

-- static_cast<int>(code)
unfoldable pub to_int : StatusCode → ℤ
to_int ok = pos 0
to_int deadline_exceeded = pos 4
to_int resource_exhausted = pos 8
to_int unimplemented = pos 12
to_int internal = pos 13
to_int unavailable = pos 14
to_int data_loss = pos 15
to_int (other n) = n

unfoldable pub status_code_name : StatusCode → Str
status_code_name ok = codes "OK"
status_code_name deadline_exceeded = codes "DEADLINE_EXCEEDED"
status_code_name unimplemented = codes "UNIMPLEMENTED"
status_code_name internal = codes "INTERNAL"
status_code_name unavailable = codes "UNAVAILABLE"
status_code_name resource_exhausted = codes "RESOURCE_EXHAUSTED"
status_code_name data_loss = codes "DATA_LOSS"
status_code_name (other _) = codes "UNKNOWN"

pub record Status : Type 0 where
  pub code : StatusCode
  pub message : Str

abbrev pub is_ok_code : StatusCode → Bool
is_ok_code ok = true
is_ok_code _ = false

-- Status::ok
abbrev pub is_ok : Status → Bool
is_ok st = is_ok_code st.code

-- Status::Ok
abbrev pub ok_status : Status
ok_status = record { code = ok; message = codes "" }

abbrev pub status : StatusCode → Str → Status
status c m = record { code = c; message = m }

unfoldable pub status_to_string : Status → Str
unfolding status_code_name
status_to_string st =
    if is_empty st.message
    then status_code_name st.code
    else status_code_name st.code ++ (codes ": " ++ st.message)

-- static_cast<StatusCode>(n)
unfoldable pub of_int : ℤ → StatusCode
of_int (pos n) =
    if n == 0
    then ok
    else (if n == 4
        then deadline_exceeded
        else (if n == 8
            then resource_exhausted
            else (if n == 12
                then unimplemented
                else (if n == 13
                    then internal
                    else (if n == 14
                        then unavailable
                        else (if n == 15 then data_loss else other (pos n)))))))
of_int (negsuc n) = other (negsuc n)
