-- ===== src/Address.antt =====
-- ParseAddress of urpc/core/source/platform/urpc_platform.cpp. libuv's uv_ip4_addr and uv_ip6_addr
-- are parameters: an error code, or the address they write; and so is uv_strerror.
pub mod Endpoints
use u_rpc.Prelude.{
  ℕ, zero, suc, ◌+◌, Bool, true, false, not, ◌&&◌, ◌||◌, Option, none, some, ◌⊎◌, inl, inr, List,
  [], ◌∷◌, ◌++◌, ◌==◌, if◌then◌else◌, leb, ltb, drop, length, is_empty,
}
use u_rpc.Prelude.Str.{Str, codes, starts_with}
use u_rpc.Prelude.Number.{ℤ, pos, negsuc, stoi}
use u_rpc.Status.{Status, status, ok_status, internal}

-- rfind(':'): what stands before the last colon and after it.
unfoldable pub split_last : Str → Option (Str × Str)
split_last [] = none
split_last (c ∷ s) = elim (split_last s) [
  | some (h, p) ↦ some (c ∷ h, p)
  | none ↦ if c == b':' then some ([], s) else none
]

unfoldable pub has_colon : Str → Bool
has_colon [] = false
has_colon (c ∷ s) = c == b':' || has_colon s

-- The text without its last byte, and whether that byte is `]`.
unfoldable pub unbracket_tail : Str → Bool × Str
unbracket_tail [] = (false, [])
unbracket_tail (c ∷ []) = (c == b']', [])
unbracket_tail (c ∷ d ∷ s) = let (closes, rest) = unbracket_tail (d ∷ s) in (closes, c ∷ rest)

-- The host without the brackets of IPv6. A lone bracket closes nothing that it opened.
unfoldable pub strip_brackets : Str → Str
unfolding unbracket_tail
strip_brackets [] = []
strip_brackets (c ∷ s) =
    let (closes, rest) = unbracket_tail s in if c == b'[' && closes then rest else c ∷ s

abbrev proto : Str
proto = codes "tcp://"

unfoldable pub without_proto : Str → Str
unfolding starts_with
without_proto a = if starts_with proto a then drop (length proto) a else a

-- The two parts of host:port, if both are there.
unfoldable pub host_port : Option (Str × Str) → Option (Str × Str)
host_port none = none
host_port (some (h, p)) = if is_empty h || is_empty p then none else some (h, p)

-- The port, if it is a number in range; the status otherwise.
unfoldable pub port_of : Str → Option ℤ → Status ⊎ ℕ
port_of text none = inl (status internal (codes "bad port: " ++ text))
port_of text (some (negsuc n)) = inl (status internal (codes "port out of range: " ++ text))
port_of text (some (pos n)) =
    if ltb 65535 n then inl (status internal (codes "port out of range: " ++ text)) else inr n

module _ {A : Type 0} (ip4 ip6 : Str → ℕ → ℤ ⊎ A) (strerror : ℤ → Str) where
  -- What libuv makes of the host.
  unfoldable pub resolved : Str → ℤ ⊎ A → Status × Option A
  resolved address (inl rc) =
      (status internal (codes "bad address '" ++ (address ++ (codes "': " ++ strerror rc))), none)
  resolved address (inr a) = (ok_status, some a)

  unfoldable pub look_up : Str → Str → Status ⊎ ℕ → Status × Option A
  unfolding resolved has_colon
  look_up address host (inl st) = (st, none)
  look_up address host (inr n) =
      resolved address (if has_colon host then ip6 host n else ip4 host n)

  unfoldable pub parse_parts : Str → Option (Str × Str) → Status × Option A
  unfolding look_up port_of strip_brackets stoi
  parse_parts address none = (status internal (codes "address must be host:port"), none)
  parse_parts address (some (h, p)) = look_up address (strip_brackets h) (port_of p (stoi p))

  unfoldable pub parse_address : Str → Status × Option A
  unfolding parse_parts host_port split_last without_proto
  parse_address address = parse_parts address (host_port (split_last (without_proto address)))
