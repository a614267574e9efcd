-- ===== src/Session/Intake.antt =====
-- How OnHeaderCb and OnFrameRecvCb put a HEADERS frame together.
use u_rpc.Prelude.{
  ℕ, ◌≡◌, refl, ◌∙◌, Bool, true, Option, none, some, List, [], ◌∷◌, ◌++◌, arith, if◌then◌else◌, map,
}
use u_rpc.Prelude.Str.{Str, str_eq, str_eq_iff}
use u_rpc.Prelude.Map.{find, find-insert_self, find-erase_self}
use u_rpc.Wire.{Headers, field}
use u_rpc.Session.{
  Session, set_field, on_header_cb, on_frame_recv_cb, on_headers_complete, headers_frame, Upcall,
  header, frame_recv, upcall, upcalls,
}

-- The value that a name has last in a list of fields.
unfoldable pub last_value : Str → List (Str × Str) → Option Str
last_value name [] = none
last_value name ((n, v) ∷ fs) = elim (last_value name fs) [
  | some later ↦ some later
  | none ↦ if str_eq n name then some v else none
]

-- What the session collects.
abbrev collected : Headers → List (Str × Str) → Headers
collected h [] = h
collected h ((n, v) ∷ fs) = collected (set_field n v h) fs

field-set_field :
    (name n v : Str) (h : Headers)
    → field name (set_field n v h) ≡ (if str_eq n name then some v else field name h)
unfolding field set_field
field-set_field name n v [] = refl
field-set_field name n v ((m, u) ∷ h) =
    ground (arith, str_eq_iff m n, str_eq_iff m name, str_eq_iff n name, field-set_field name n v h)

field-collected :
    (name : Str) (fs : List (Str × Str)) (h : Headers)
    → field name (collected h fs)
      ≡ elim (last_value name fs) [ none ↦ field name h | some v ↦ some v ]
unfolding last_value
field-collected name [] h = refl
field-collected name ((n, v) ∷ fs) h =
    ground (arith, field-collected name fs (set_field n v h), field-set_field name n v h)

abbrev header_of : ℕ → Str × Str → Upcall
header_of sid (n, v) = header true sid n v

-- The callbacks of one HEADERS frame.
abbrev pub header_block : ℕ → List (Str × Str) → Bool → List Upcall
header_block sid fs end_stream =
    map (header_of sid) fs ++ frame_recv headers_frame sid end_stream ∷ []

abbrev Completed : ℕ → Headers → Bool → Session → Session → Type 0
Completed sid h end_stream s t =
    (t.told ≡ on_headers_complete sid h end_stream ∷ s.told) × (find sid t.pending_headers ≡ none)

header_block_from :
    (sid : ℕ) (fs : List (Str × Str)) (end_stream : Bool) (s : Session) (h : Headers)
    → find sid s.pending_headers ≡ some h
    → Completed sid (collected h fs) end_stream s (upcalls (header_block sid fs end_stream) s)
unfolding upcalls upcall on_header_cb on_frame_recv_cb
header_block_from sid [] end_stream s h e =
    (ground arith, ground (arith, find-erase_self sid s.pending_headers))
header_block_from sid ((n, v) ∷ fs) end_stream s h e =
    header_block_from sid fs end_stream (on_header_cb true sid n v s) (set_field n v h)
      (rw e (find-insert_self sid (set_field n v h) s.pending_headers))

-- The callbacks of a HEADERS frame that has fields, on a stream with none pending, tell the handler
-- once: a map in which every name has the value that it has last in the frame, and whether the
-- stream ends. Nothing stays pending for the stream.
pub headers_collected :
    (sid : ℕ) (first : Str × Str) (fs : List (Str × Str)) (end_stream : Bool) (s : Session)
    → find sid s.pending_headers ≡ none
    → (h : Headers) × ((upcalls (header_block sid (first ∷ fs) end_stream) s).told
        ≡ on_headers_complete sid h end_stream ∷ s.told)
      × (find sid (upcalls (header_block sid (first ∷ fs) end_stream) s).pending_headers ≡ none)
      × ((name : Str) → field name h ≡ last_value name (first ∷ fs))
unfolding upcalls upcall on_header_cb field
headers_collected sid (n, v) fs end_stream s e =
    let (told, gone) =
      header_block_from sid fs end_stream (on_header_cb true sid n v s) (set_field n v [])
        (rw e (find-insert_self sid (set_field n v []) s.pending_headers)) in
    (
      collected (set_field n v []) fs,
      told,
      gone,
      λ name. field-collected name ((n, v) ∷ fs) [] ∙ end_of (last_value name ((n, v) ∷ fs)),
    )
  where
    end_of : (o : Option Str) → elim o [ none ↦ none | some v ↦ some v ] ≡ o
    end_of none = refl
    end_of (some v) = refl
