-- ===== src/Tests/Addresses.antt =====
-- Addresses at concrete inputs, with a libuv that takes every host.
use u_rpc.Prelude.{ℕ, ◌≡◌, refl, true, ◌⊎◌, inr, [], arith}
use u_rpc.Prelude.Str.{Str, codes}
use u_rpc.Prelude.Number.{ℤ}
use u_rpc.Address.{has_colon, parse_address, resolved}
use u_rpc.Address.Endpoints.{endpoint, parse_address-endpoint}

abbrev Taken : Type 0
Taken = Str × ℕ

abbrev takes : Str → ℕ → ℤ ⊎ Taken
takes host n = inr (host, n)

abbrev no_text : ℤ → Str
no_text rc = []

parse_address-endpoint_example :
    parse_address takes takes no_text (endpoint true (codes "127.0.0.1") 80)
    ≡ resolved takes takes no_text
        (endpoint true (codes "127.0.0.1") 80)
        (inr (codes "127.0.0.1", 80))
unfolding has_colon
parse_address-endpoint_example =
    parse_address-endpoint takes takes no_text true (codes "127.0.0.1") 80 refl refl refl
      (omega arith)
