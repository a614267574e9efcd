-- ===== src/Address/Endpoints.antt =====
-- Which texts ParseAddress of urpc/core/source/platform/urpc_platform.cpp takes, and what it asks
-- libuv for.
use u_rpc.Prelude.{
  ℕ, zero, suc, ◌+◌, ◌/◌, ◌%◌, ◌≤◌, ◌≡◌, refl, ap, sym, ◌∙◌, Bool, true, false, not, ◌||◌, Option,
  none, some, ◌⊎◌, inl, inr, [], ◌∷◌, ◌++◌, append-nil, arith, ◌==◌, if◌then◌else◌, length,
  is_empty, drop, Bool-cases,
}
use u_rpc.Prelude.Str.{Str, starts_with, to_string, digits}
use u_rpc.Prelude.Number.{
  ℤ, pos, negsuc, stoi, stoi-to_string, starts_digit, starts_digit-to_string,
}
use u_rpc.Status.{Status}
use u_rpc.Address.{
  split_last, has_colon, strip_brackets, proto, without_proto, host_port, port_of, resolved,
  look_up, parse_parts, parse_address,
}

has_colon-digits :
    (fuel n : ℕ) (rest : Str) → has_colon rest ≡ false → has_colon (digits fuel n rest) ≡ false
unfolding has_colon digits
has_colon-digits zero n rest h = h
has_colon-digits (suc fuel) n rest h =
    ground (arith, has_colon-digits fuel (n / 10) ((n % 10 + b'0') ∷ rest) (ground arith))

split_last-none : (s : Str) → has_colon s ≡ false → split_last s ≡ none
unfolding split_last has_colon
split_last-none [] h = refl
split_last-none (c ∷ s) h = ground (arith, split_last-none s)

split_last_colon :
    (host s : Str) → has_colon s ≡ false → split_last (host ++ b':' ∷ s) ≡ some (host, s)
unfolding split_last
split_last_colon [] s h = ground (arith, split_last-none s h)
split_last_colon (c ∷ host) s h = ground (arith, split_last_colon host s h)

-- A host without a colon is no scheme.
starts_with-proto :
    (host s : Str)
    → has_colon host ≡ false
    → starts_digit s ≡ true
    → starts_with proto (host ++ b':' ∷ s) ≡ false
unfolding starts_with has_colon
starts_with-proto [] s h d = ground arith
starts_with-proto (a ∷ []) s h d = ground arith
starts_with-proto (a ∷ b ∷ []) s h d = ground arith
starts_with-proto (a ∷ b ∷ c ∷ []) [] h d = absurd (ground arith)
starts_with-proto (a ∷ b ∷ c ∷ []) (x ∷ s) h d = ground arith
starts_with-proto (a ∷ b ∷ c ∷ e ∷ host) s h d = ground arith

abbrev pub unbracketed : Str → Bool
unbracketed [] = true
unbracketed (c ∷ s) = not (c == b'[')

strip_brackets_kept : (host : Str) → unbracketed host ≡ true → strip_brackets host ≡ host
unfolding strip_brackets
strip_brackets_kept [] h = refl
strip_brackets_kept (c ∷ s) h = ground arith

-- host:port, after an optional scheme.
abbrev pub endpoint : Bool → Str → ℕ → Str
endpoint tcp host n = (if tcp then proto else []) ++ (host ++ b':' ∷ to_string n)

without_proto-endpoint :
    (tcp : Bool) (host : Str) (n : ℕ)
    → has_colon host ≡ false
    → without_proto (endpoint tcp host n) ≡ host ++ b':' ∷ to_string n
unfolding without_proto starts_with
without_proto-endpoint true host n h = refl
without_proto-endpoint false host n h =
    let no = starts_with-proto host (to_string n) h (starts_digit-to_string n) in
    ap
      (λ b.
        if b then drop (length proto) (host ++ b':' ∷ to_string n) else host ++ b':' ∷ to_string n)
      no

stoi-port : (n : ℕ) → n ≤ 65535 → stoi (to_string n) ≡ some (pos n)
stoi-port n l = ap stoi (sym (append-nil (to_string n))) ∙ stoi-to_string n [] (omega arith) refl

to_string_some : (n : ℕ) → is_empty (to_string n) ≡ false
to_string_some n = digit_some (to_string n) (starts_digit-to_string n)
  where
    digit_some : (s : Str) → starts_digit s ≡ true → is_empty s ≡ false
    digit_some [] d = cc
    digit_some (c ∷ s) d = refl

has_colon-to_string : (n : ℕ) → has_colon (to_string n) ≡ false
unfolding to_string
has_colon-to_string n = has_colon-digits 20 n [] (unfold has_colon in refl)

module _ {A : Type 0} (ip4 ip6 : Str → ℕ → ℤ ⊎ A) (strerror : ℤ → Str) where
  port_of-pos : (text : Str) (n : ℕ) → n ≤ 65535 → port_of text (some (pos n)) ≡ inr n
  unfolding port_of
  port_of-pos text n l = ground arith

  -- An IPv4 host, or a name without colons and brackets, with a port of at most 65535 and with or
  -- without tcp:// in front, is looked up as exactly that host and that port.
  pub parse_address-endpoint :
      (tcp : Bool) (host : Str) (n : ℕ)
      → is_empty host ≡ false
      → has_colon host ≡ false
      → unbracketed host ≡ true
      → n ≤ 65535
      → parse_address ip4 ip6 strerror (endpoint tcp host n)
        ≡ resolved ip4 ip6 strerror (endpoint tcp host n) (ip4 host n)
  unfolding parse_address host_port parse_parts look_up
  parse_address-endpoint tcp host n some_host plain bare l =
      let text = endpoint tcp host n in
      let whole = parse_parts ip4 ip6 strerror text in
      ap (λ a. whole (host_port (split_last a))) (without_proto-endpoint tcp host n plain)
      ∙ (ap (λ o. whole (host_port o)) (split_last_colon host (to_string n) (has_colon-to_string n))
          ∙ (ap
                (λ b.
                  whole (if b || is_empty (to_string n) then none else some (host, to_string n)))
                some_host
              ∙ (ap (λ b. whole (if b then none else some (host, to_string n))) (to_string_some n)
                  ∙ (ap
                        (λ r.
                          look_up ip4 ip6 strerror text (strip_brackets host)
                            (port_of (to_string n) r))
                        (stoi-port n l)
                      ∙ (ap (look_up ip4 ip6 strerror text (strip_brackets host))
                            (port_of-pos (to_string n) n l)
                          ∙ (ap (λ h. look_up ip4 ip6 strerror text h (inr n))
                                (strip_brackets_kept host bare)
                              ∙ ap
                                  (λ b.
                                    resolved ip4 ip6 strerror text
                                      (if b then ip6 host n else ip4 host n))
                                  plain))))))

  port_of_bound : (text : Str) (o : Option ℤ) (n : ℕ) → port_of text o ≡ inr n → n ≤ 65535
  unfolding port_of
  port_of_bound text none n e = absurd (ground arith)
  port_of_bound text (some (negsuc k)) n e = absurd (ground arith)
  port_of_bound text (some (pos k)) n e = ground arith

  resolved-some :
      (text : Str) (a : A) (r : ℤ ⊎ A) → (resolved ip4 ip6 strerror text r).1 ≡ some a → r ≡ inr a
  unfolding resolved
  resolved-some text a (inl rc) e = absurd (ground arith)
  resolved-some text a (inr b) e = ground arith

  -- What stands behind an address: a host and a port in range that libuv took.
  abbrev pub Endpoint : A → Type 0
  Endpoint a = (host : Str) × (n : ℕ) × (n ≤ 65535) × ((ip4 host n ≡ inr a) ⊎ (ip6 host n ≡ inr a))

  look_up-some :
      (text host : Str) (a : A) (r : Status ⊎ ℕ)
      → ((n : ℕ) → r ≡ inr n → n ≤ 65535)
      → (look_up ip4 ip6 strerror text host r).1 ≡ some a
      → Endpoint a
  unfolding look_up
  look_up-some text host a (inl st) b e = absurd (ground arith)
  look_up-some text host a (inr n) b e =
      let k = resolved-some text a (if has_colon host then ip6 host n else ip4 host n) e in
      elim (Bool-cases (has_colon host)) [
        | inl y ↦ (host, n, b n refl, inr (ground (arith, k)))
        | inr y ↦ (host, n, b n refl, inl (ground (arith, k)))
      ]

  parse_parts-some :
      (text : Str) (a : A) (o : Option (Str × Str))
      → (parse_parts ip4 ip6 strerror text o).1 ≡ some a
      → Endpoint a
  unfolding parse_parts
  parse_parts-some text a none e = absurd (ground arith)
  parse_parts-some text a (some (h, p)) e =
      look_up-some text (strip_brackets h) a (port_of p (stoi p)) (λ n. port_of_bound p (stoi p) n)
        e

  -- An address that ParseAddress gives is what libuv made of some host and of a port of at most 65535.
  pub parse_address-port :
      (text : Str) (a : A) → (parse_address ip4 ip6 strerror text).1 ≡ some a → Endpoint a
  unfolding parse_address
  parse_address-port text a e =
      parse_parts-some text a (host_port (split_last (without_proto text))) e
