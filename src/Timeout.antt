-- ===== src/Timeout.antt =====
-- ParseGrpcTimeout of urpc/core/source/urpc_server.cc: the grpc-timeout header in milliseconds.
pub mod Units
use u_rpc.Prelude.{
  ℕ, zero, suc, ◌*◌, ◌/◌, ◌%◌, ◌^◌, Option, none, some, List, [], ◌∷◌, ◌==◌, if◌then◌else◌,
}
use u_rpc.Prelude.Str.{Str}
use u_rpc.Prelude.Number.{stoull}

-- All but the last byte, and the last; `none` of an empty text.
unfoldable pub unsnoc : Str → Option (Str × ℕ)
unsnoc [] = none
unsnoc (c ∷ []) = some ([], c)
unsnoc (c ∷ d ∷ s) = elim (unsnoc (d ∷ s)) [ none ↦ none | some (t, e) ↦ some (c ∷ t, e) ]

abbrev pub u64 : ℕ → ℕ
u64 n = n % 2 ^ 64

-- The switch on the unit: hours, minutes, seconds, milli-, micro- and nanoseconds.
unfoldable pub in_unit : ℕ → ℕ → ℕ
in_unit unit n =
    if unit == b'H'
    then u64 (n * 3600000)
    else (if unit == b'M'
        then u64 (n * 60000)
        else (if unit == b'S'
            then u64 (n * 1000)
            else (if unit == b'm'
                then n
                else (if unit == b'u'
                    then n / 1000
                    else (if unit == b'n' then n / 1000000 else 0)))))

abbrev pub of_number : ℕ → Option ℕ → ℕ
of_number unit none = 0
of_number unit (some n) = in_unit unit n

abbrev pub of_parts : Option (Str × ℕ) → ℕ
of_parts none = 0
of_parts (some ([], unit)) = 0
of_parts (some (c ∷ s, unit)) = of_number unit (stoull (c ∷ s))

-- 0 stands for "no deadline": a text shorter than two bytes, no number, or no such unit.
unfoldable pub parse_grpc_timeout : Str → ℕ
unfolding unsnoc
parse_grpc_timeout v = of_parts (unsnoc v)
