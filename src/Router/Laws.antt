-- ===== src/Router/Laws.antt =====
-- Registrations and the registry of urpc/core/source/urpc_router.cpp.
use u_rpc.Prelude.{suc, ◌≡◌, true, false, not, none, some, arith, if◌then◌else◌, is_some}
use u_rpc.Prelude.Str.{Str, str_eq}
use u_rpc.Status.{is_ok}
use u_rpc.Router.{
  is_unary, HandlerEntry, Router, bad_path, find_handler, router_size, Registration, unary_at,
  stream_at, register, unary,
}

abbrev pub path_of : Registration → Str
path_of (unary_at path h) = path
path_of (stream_at path form h) = path

abbrev pub entry_of : Registration → HandlerEntry
entry_of (unary_at path h) = record { form = unary; unary_handler = h; stream_handler = none }
entry_of (stream_at path form h) = record { form = form; unary_handler = none; stream_handler = h }

-- The handler of the kind that the form calls for is there, and the other one is not.
abbrev pub IsUsable : HandlerEntry → Type 0
IsUsable e =
    (is_some e.unary_handler ≡ is_unary e.form) × (is_some e.stream_handler ≡ not (is_unary e.form))

-- A registration that returns ok is found under its path, is usable, makes the registry one larger and
-- leaves every other path as it was; its path was free and begins with a slash.
pub register_ok :
    (r : Router) (x : Registration)
    → is_ok (register r x).0 ≡ true
    → (find_handler r (path_of x) ≡ none)
      × (bad_path (path_of x) ≡ false)
      × IsUsable (entry_of x)
      × (router_size (register r x).1 ≡ suc (router_size r))
      × ((p : Str)
          → find_handler (register r x).1 p
            ≡ (if str_eq (path_of x) p then some (entry_of x) else find_handler r p))
unfolding register find_handler router_size
register_ok r (unary_at path h) k =
    (ground arith, ground arith, ground arith, ground arith, λ p. ground arith)
register_ok r (stream_at path form h) k =
    (ground arith, ground arith, ground arith, ground arith, λ p. ground arith)

-- A registration that does not return ok leaves the registry as it was.
pub register_refused :
    (r : Router) (x : Registration) → is_ok (register r x).0 ≡ false → (register r x).1 ≡ r
unfolding register
register_refused r (unary_at path h) k = ground arith
register_refused r (stream_at path form h) k = ground arith
