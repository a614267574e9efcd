-- ===== src/Timeout/Units.antt =====
-- What ParseGrpcTimeout of urpc/core/source/urpc_server.cc makes of a number in its unit.
use u_rpc.Prelude.{
  ℕ, ◌*◌, ◌/◌, ◌^◌, ◌<◌, ◌≡◌, refl, true, Option, none, some, [], ◌∷◌, ◌++◌, arith, append-nil, inl,
  inr, Option-cases,
}
use u_rpc.Prelude.Str.{Str, to_string}
use u_rpc.Prelude.Number.{
  stoull, stoull-to_string, stoull_bound, starts_digit, starts_digit-to_string,
}
use u_rpc.Timeout.{unsnoc, in_unit, of_parts, parse_grpc_timeout}

-- The units of the gRPC wire format.
pub data TimeUnit : Type 0 where
  hours minutes seconds millis micros nanos : TimeUnit

abbrev pub byte_of : TimeUnit → ℕ
byte_of hours = b'H'
byte_of minutes = b'M'
byte_of seconds = b'S'
byte_of millis = b'm'
byte_of micros = b'u'
byte_of nanos = b'n'

abbrev pub nanoseconds : TimeUnit → ℕ
nanoseconds hours = 3600 * 10 ^ 9
nanoseconds minutes = 60 * 10 ^ 9
nanoseconds seconds = 10 ^ 9
nanoseconds millis = 10 ^ 6
nanoseconds micros = 1000
nanoseconds nanos = 1

in_unit_exact :
    (u : TimeUnit) (n : ℕ) → n < 10 ^ 8 → in_unit (byte_of u) n ≡ n * nanoseconds u / 10 ^ 6
unfolding in_unit
in_unit_exact hours n h = omega arith
in_unit_exact minutes n h = omega arith
in_unit_exact seconds n h = omega arith
in_unit_exact millis n h = omega arith
in_unit_exact micros n h = omega arith
in_unit_exact nanos n h = omega arith

unsnoc_last : (s : Str) (c : ℕ) → unsnoc (s ++ c ∷ []) ≡ some (s, c)
unfolding unsnoc
unsnoc_last [] c = refl
unsnoc_last (a ∷ []) c = refl
unsnoc_last (a ∷ b ∷ s) c = rw (unsnoc_last (b ∷ s) c)

of_parts_number :
    (s : Str) (u n : ℕ)
    → starts_digit s ≡ true
    → stoull s ≡ some n
    → of_parts (some (s, u)) ≡ in_unit u n
of_parts_number [] u n h k = cc
of_parts_number (c ∷ s) u n h k = rw k

-- A grpc-timeout of up to eight digits (all that the wire format allows) and a unit is read as that
-- time in milliseconds, rounded down; no multiplication wraps.
pub parse_grpc_timeout_exact :
    (u : TimeUnit) (n : ℕ)
    → n < 10 ^ 8
    → parse_grpc_timeout (to_string n ++ byte_of u ∷ []) ≡ n * nanoseconds u / 10 ^ 6
unfolding parse_grpc_timeout
parse_grpc_timeout_exact u n h =
    let e : stoull (to_string n) ≡ some n =
      rw append-nil at (stoull-to_string n [] (omega arith) refl) in
    rw
      (
        unsnoc_last (to_string n) (byte_of u),
        of_parts_number (to_string n) (byte_of u) n (starts_digit-to_string n) e,
      )
      (in_unit_exact u n h)

in_unit_bound : (u n : ℕ) → n < 2 ^ 64 → in_unit u n < 2 ^ 64
unfolding in_unit
in_unit_bound u n h = ground arith

of_parts_bound : (o : Option (Str × ℕ)) → of_parts o < 2 ^ 64
of_parts_bound none = omega arith
of_parts_bound (some ([], u)) = omega arith
of_parts_bound (some (c ∷ s, u)) = elim (Option-cases (stoull (c ∷ s))) [
  | inl e ↦ rw e (omega arith)
  | inr (n, e) ↦ rw e (in_unit_bound u n (stoull_bound (c ∷ s) n e))
]
