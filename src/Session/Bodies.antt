-- ===== src/Session/Bodies.antt =====
-- BodyRead2 over the calls that nghttp2 makes for one body, up to the one that sets EOF.
use native.Mathlib.Nat.{zero-add, suc-add}
use u_rpc.Prelude.{
  ℕ, zero, suc, ◌+◌, ◌≤◌, ◌<◌, ◌≡◌, refl, sym, ◌∙◌, ap, Bool, true, false, none, List, [], ◌∷◌,
  ◌++◌, arith, ◌==◌, if◌then◌else◌, Bool-cases, inl, inr, ltb, length, take, drop, take-append-drop,
  length-drop,
}
use u_rpc.Prelude.Str.{Str}
use u_rpc.Session.{PendingBody, Chunk, remaining, copy_chunk, chunk_size, read_chunk, notes_of}

-- What the calls give: the bytes, the notifications, and whether EOF was set.
pub record Sent : Type 0 where
  pub bytes : Str
  pub notes : List ℕ
  pub ended : Bool

abbrev before : Chunk → Sent → Sent
before c r = record {
  bytes = c.bytes ++ r.bytes;
  notes = notes_of c.note ++ r.notes;
  ended = r.ended;
}

-- nghttp2 calls with the room that it has, again and again until EOF.
unfoldable pub read_body_in : List ℕ → PendingBody → Sent
unfolding read_chunk
read_body_in [] b = record { bytes = []; notes = []; ended = false }
read_body_in (room ∷ rooms) b =
    let c = read_chunk room b in
    let rest = read_body_in rooms c.body in
    if c.eof
    then record { bytes = c.bytes; notes = notes_of c.note; ended = true }
    else before c rest

unfoldable pub total : List ℕ → ℕ
total [] = 0
total (n ∷ ns) = n + total ns

take_all : (n : ℕ) (xs : Str) → length xs ≤ n → take n xs ≡ xs
take_all zero [] h = refl
take_all zero (x ∷ xs) h = absurd (omega arith)
take_all (suc n) [] h = refl
take_all (suc n) (x ∷ xs) h = ap (◌∷◌ x) (take_all n xs (omega arith))

drop_nil : (n : ℕ) → drop {A = ℕ} n [] ≡ []
drop_nil zero = refl
drop_nil (suc n) = refl

drop-drop : (m n : ℕ) (xs : Str) → drop n (drop m xs) ≡ drop (m + n) xs
drop-drop zero n xs = rw zero-add
drop-drop (suc m) n [] = drop_nil n ∙ sym (drop_nil (suc m + n))
drop-drop (suc m) n (x ∷ xs) = rw suc-add (drop-drop m n xs)

-- Behind the bytes that are out: what a body has still to give.
abbrev to_give : PendingBody → Str
to_give b = drop b.offset b.content

to_give_nil : (b : PendingBody) → remaining b ≡ 0 → to_give b ≡ []
to_give_nil b h = none_left (to_give b) (omega (arith, length-drop b.offset b.content))
  where
    none_left : (xs : Str) → length xs ≡ 0 → xs ≡ []
    none_left [] e = refl
    none_left (x ∷ xs) e = absurd (omega arith)

-- A call with room for the rest gives all of it, EOF, and the notification.
read_chunk_last :
    (room : ℕ) (b : PendingBody)
    → remaining b ≤ room
    → b.offset ≤ length b.content
    → ((read_chunk room b).bytes ≡ to_give b)
      × ((read_chunk room b).eof ≡ true)
      × ((read_chunk room b).note ≡ b.on_consumed)
unfolding read_chunk copy_chunk
read_chunk_last room b h k = elim (Bool-cases (remaining b == 0)) [
  | inl e ↦ rw e (sym (to_give_nil b (ground arith)), refl, refl)
  | inr e ↦
      let size : chunk_size room b ≡ remaining b = ground arith in
      let whole =
        take_all (remaining b) (to_give b) (omega (arith, length-drop b.offset b.content)) in
      let done : (b.offset + remaining b == length b.content) ≡ true = ground arith in
      rw (e, size, done) (whole, refl, refl)
]

-- A call with less room fills it, and goes on.
read_chunk_more :
    (room : ℕ) (b : PendingBody)
    → room < remaining b
    → read_chunk room b ≡ record {
      bytes = take room (to_give b);
      eof = false;
      note = none;
      body = record b { offset = b.offset + room };
    }
unfolding read_chunk copy_chunk
read_chunk_more room b h =
    let some_left : (remaining b == 0) ≡ false = ground arith in
    let size : chunk_size room b ≡ room = ground arith in
    let more : (b.offset + room == length b.content) ≡ false = ground arith in
    rw (some_left, size, more)

sent_some :
    (rooms : List ℕ) (b : PendingBody)
    → 0 < remaining b
    → remaining b ≤ total rooms
    → read_body_in rooms b
      ≡ record { bytes = to_give b; notes = notes_of b.on_consumed; ended = true }
unfolding read_body_in total
sent_some [] b h k = absurd (omega arith)
sent_some (room ∷ rooms) b h k = elim (Bool-cases (ltb room (remaining b))) [
  | inl e ↦
      let c = read_chunk_more room b (ground arith) in
      let b' : PendingBody = record b { offset = b.offset + room } in
      let rest = sent_some rooms b' (ground arith) (ground arith) in
      let joined : take room (to_give b) ++ to_give b' ≡ to_give b =
        ap (λ (xs : Str). take room (to_give b) ++ xs) (sym (drop-drop b.offset room b.content))
        ∙ take-append-drop room (to_give b) in
      rw (c, rest)
        (ap (λ (xs : Str). record { bytes = xs; notes = notes_of b.on_consumed; ended = true })
          joined)
  | inr e ↦
      let (bytes, eof, note) = read_chunk_last room b (ground arith) (omega arith) in
      rw (eof, bytes, note)
]

-- However nghttp2 cuts a body: once it has had as much room as the body is long, and called at least
-- once, it has been given exactly the bytes of the body, in order, then EOF, and the callback of the
-- body has been moved to the notifications exactly once.
pub body_sent :
    (room : ℕ) (rooms : List ℕ) (b : PendingBody)
    → b.offset ≡ 0
    → length b.content ≤ total (room ∷ rooms)
    → read_body_in (room ∷ rooms) b
      ≡ record { bytes = b.content; notes = notes_of b.on_consumed; ended = true }
unfolding read_body_in total
body_sent room rooms b z h = elim (Bool-cases (remaining b == 0)) [
  | inl e ↦
      let (bytes, eof, note) = read_chunk_last room b (ground arith) (omega arith) in
      rw (eof, bytes, note, z)
  | inr e ↦ sent_some (room ∷ rooms) b (ground arith) (omega arith) ∙ rw z
]
