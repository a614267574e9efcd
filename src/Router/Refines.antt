-- ===== src/Router/Refines.antt =====
-- The registry refines a partial function from paths to handlers, in which the first good registration
-- of a path stands.
use mathlib.Core.Path.{fun_ext}
use u_rpc.Prelude.{
  ◌≡◌, refl, ap, ◌∙◌, Bool, true, false, not, ◌&&◌, Option, none, some, List, [], ◌∷◌, arith,
  Bool-cases, inl, inr, if◌then◌else◌, is_some,
}
use u_rpc.Prelude.Str.{Str, str_eq}
use u_rpc.Status.{is_ok}
use u_rpc.Router.{
  is_unary, HandlerEntry, Router, bad_path, find_handler, Registration, unary_at, stream_at,
  register,
}
use u_rpc.Router.Laws.{path_of, entry_of, register_ok, register_refused}

-- The abstract registry.
abbrev pub Methods : Type 0
Methods = Str → Option HandlerEntry

abbrev pub absent : Methods
absent p = none

-- Whether a registration is good by itself: a path that begins with a slash, and a handler, which of a
-- stream has a streaming form.
abbrev pub is_good : Registration → Bool
is_good (unary_at path h) = not (bad_path path) && is_some h
is_good (stream_at path form h) = not (bad_path path) && (is_some h && not (is_unary form))

abbrev pub is_admitted : Methods → Registration → Bool
is_admitted f x = is_good x && not (is_some (f (path_of x)))

abbrev pub add : Methods → Registration → Methods
add f x p = if str_eq (path_of x) p then some (entry_of x) else f p

-- What a list of registrations makes of the abstract registry: which are admitted, and the methods.
unfoldable pub admit_all : Methods → List Registration → List Bool × Methods
admit_all f [] = ([], f)
admit_all f (x ∷ xs) =
    let (oks, g) = admit_all (if is_admitted f x then add f x else f) xs in
    (is_admitted f x ∷ oks, g)

-- And of the registry itself: which return ok.
unfoldable pub results : Router → List Registration → List Bool × Router
results r [] = ([], r)
results r (x ∷ xs) =
    let (oks, r') = results (register r x).1 xs in (is_ok (register r x).0 ∷ oks, r')

register-is_admitted :
    (r : Router) (x : Registration) → is_ok (register r x).0 ≡ is_admitted (find_handler r) x
unfolding register find_handler
register-is_admitted r (unary_at path h) = ground arith
register-is_admitted r (stream_at path form h) = ground arith

register-find_handler :
    (r : Router) (x : Registration)
    → find_handler (register r x).1
      ≡ (if is_admitted (find_handler r) x then add (find_handler r) x else find_handler r)
register-find_handler r x = elim (Bool-cases (is_admitted (find_handler r) x)) [
  | inl e ↦
      let ok : is_ok (register r x).0 ≡ true = register-is_admitted r x ∙ e in
      rw e (fun_ext (register_ok r x ok).4)
  | inr e ↦
      let no_ok : is_ok (register r x).0 ≡ false = register-is_admitted r x ∙ e in
      rw e (ap find_handler (register_refused r x no_ok))
]

-- For any registrations, one after another: exactly those return ok that the abstract registry admits,
-- and behind them every path is found to have the handler that it has there.
pub results-refine :
    (xs : List Registration) (r : Router)
    → ((results r xs).0 ≡ (admit_all (find_handler r) xs).0)
      × (find_handler (results r xs).1 ≡ (admit_all (find_handler r) xs).1)
unfolding results admit_all
results-refine [] r = (refl, refl)
results-refine (x ∷ xs) r =
    let (oks, methods) = results-refine xs (register r x).1 in
    let e = register-find_handler r x in
    (
      rw (register-is_admitted r x) (
          ap (◌∷◌ (is_admitted (find_handler r) x))
            (oks ∙ ap (λ (g : Methods). (admit_all g xs).0) e)),
      methods ∙ ap (λ (g : Methods). (admit_all g xs).1) e,
    )
