-- ===== src/Typed/Answers.antt =====
-- What a typed unary handler's answers come to.
use mathlib.Core.List.{map-append}
use u_rpc.Prelude.{
  suc, ◌+◌, ◌≡◌, refl, ◌∙◌, Bool, true, false, Option, none, some, List, [], ◌∷◌, ◌++◌, arith, map,
  if◌then◌else◌, length, to_ℕ, length-append, append-nil, append_assoc,
}
use u_rpc.Prelude.Str.{Str, codes}
use u_rpc.Status.{Status, status, is_ok, internal}
use u_rpc.Typed.Handlers.{
  Serving, raised, answer_encoded, typed_done, typed_dones, handler_answers, serve_unary,
}

module _ {Res : Type 0} (encode : Res → Option Str) where
  -- What one answer sends, by itself.
  abbrev pub sent_for : Status × Option Res → Status × Str
  sent_for (st, none) = (st, [])
  sent_for (st, some res) =
      if is_ok st
      then elim (encode res) [
        | none ↦ (status internal (codes "response encode failed"), [])
        | some payload ↦ (st, payload)
      ]
      else (st, [])

  typed_done_lem :
      (a : Status × Option Res) (s : Serving)
      → typed_done encode a.0 a.1 s
        ≡ record { freed = suc s.freed; answers = s.answers ++ sent_for a ∷ [] }
  unfolding typed_done answer_encoded
  typed_done_lem (st, none) s = refl
  typed_done_lem (st, some res) s = ground arith

  typed_dones_lem :
      (given : List (Status × Option Res)) (s : Serving)
      → typed_dones encode given s
        ≡ record { freed = s.freed + length given; answers = s.answers ++ map sent_for given }
  unfolding typed_dones
  typed_dones_lem [] s = ground (arith, append-nil s.answers)
  typed_dones_lem (a ∷ given) s = ground (
    arith,
    typed_done_lem a s,
    typed_dones_lem given (typed_done encode a.0 a.1 s),
    append_assoc s.answers (sent_for a ∷ []) (map sent_for given),
  )

  handler_answers_split :
      (given : List (Status × Option Res)) (threw : Bool)
      → ◌≡◌ {A = Serving}
          (record {
            freed = 0 + length (handler_answers given threw);
            answers = map sent_for (handler_answers given threw);
          })
          (record {
            freed = length given + to_ℕ threw;
            answers = map sent_for given ++ (if threw then (raised, []) ∷ [] else []);
          })
  handler_answers_split given true = ground (
    arith,
    length-append given ((raised, none) ∷ []),
    map-append sent_for given ((raised, none) ∷ []),
  )
  handler_answers_split given false =
      ground (arith, append-nil given, append-nil (map sent_for given))

-- A unary request that decodes is answered once for each answer that its handler gives, in order,
-- and once more if the handler then throws; and its arena is freed as often: twice for a handler
-- that answers and throws.
pub unary_answers :
    {Req Res : Type 0} (decode : Str → Option Req) (encode : Res → Option Str) (bytes : Str)
    (req : Req) (handler : Req → List (Status × Option Res) × Bool)
    → decode bytes ≡ some req
    → serve_unary decode encode true bytes handler ≡ record {
      freed = length (handler req).0 + to_ℕ (handler req).1;
      answers =
          map (sent_for encode) (handler req).0
          ++ (if (handler req).1 then (raised, []) ∷ [] else []);
    }
unfolding serve_unary
unary_answers decode encode bytes req handler h =
    let (given, threw) = handler req in
    rw h (
      typed_dones_lem encode (handler_answers given threw) (record { freed = 0; answers = [] })
      ∙ handler_answers_split encode given threw)
