-- ===== src/Router.antt =====
-- urpc/core/include/urpc/core/router.h and urpc/core/source/urpc_router.cpp: the path-to-handler
-- registry. A handler is its identity, a number; nullptr is `none`. The mutex and the shared
-- snapshot make each operation one step on one map, which is the state here.
pub mod Laws
pub mod Refines
use u_rpc.Prelude.{
  ℕ, suc, ◌+◌, Bool, true, false, not, ◌||◌, Option, none, some, List, [], ◌∷◌, ◌++◌, ◌==◌,
  if◌then◌else◌, is_empty, is_some, length,
}
use u_rpc.Prelude.Str.{Str, codes, str_eq}
use u_rpc.Status.{Status, internal, ok_status, status}

pub data MethodForm : Type 0 where
  unary server_streaming client_streaming bidi : MethodForm

abbrev pub is_unary : MethodForm → Bool
is_unary unary = true
is_unary _ = false

pub record HandlerEntry : Type 0 where
  pub form : MethodForm
  pub unary_handler : Option ℕ
  pub stream_handler : Option ℕ

-- std::map<std::string, HandlerEntry>; nothing iterates over it, so the order is not modelled.
pub record Router : Type 0 where
  pub snapshot : List (Str × HandlerEntry)

unfoldable pub new_router : Router
new_router = record { snapshot = [] }

unfoldable pub find_path : Str → List (Str × HandlerEntry) → Option HandlerEntry
find_path p [] = none
find_path p ((q, e) ∷ m) = if str_eq q p then some e else find_path p m

-- path.empty() || path.front() != '/'
unfoldable pub bad_path : Str → Bool
bad_path [] = true
bad_path (c ∷ s) = not (c == b'/')

abbrev pub invalid_registration : Str → Status
invalid_registration path = status internal (codes "invalid registration: " ++ path)

abbrev pub duplicate_path : Str → Status
duplicate_path path =
    status internal (codes "duplicate method path: " ++ (path ++ codes " (rejected)"))

-- Router::RegisterUnary
unfoldable pub register_unary : Router → Str → Option ℕ → Status × Router
unfolding bad_path
register_unary r path handler =
    if bad_path path || not (is_some handler)
    then (invalid_registration path, r)
    else (if is_some (find_path path r.snapshot)
        then (duplicate_path path, r)
        else (ok_status, record { snapshot = (path, entry) ∷ r.snapshot }))
  where
    entry : HandlerEntry
    entry = record { form = unary; unary_handler = handler; stream_handler = none }

-- Router::RegisterStream
unfoldable pub register_stream : Router → Str → MethodForm → Option ℕ → Status × Router
unfolding bad_path
register_stream r path form handler =
    if bad_path path || not (is_some handler)
    then (invalid_registration path, r)
    else (if is_unary form
        then (status internal (codes "RegisterStream requires a streaming form: " ++ path), r)
        else (if is_some (find_path path r.snapshot)
            then (duplicate_path path, r)
            else (ok_status, record { snapshot = (path, entry) ∷ r.snapshot })))
  where
    entry : HandlerEntry
    entry = record { form = form; unary_handler = none; stream_handler = handler }

-- Router::Find
unfoldable pub find_handler : Router → Str → Option HandlerEntry
unfolding find_path
find_handler r path = find_path path r.snapshot

-- Router::size
unfoldable pub router_size : Router → ℕ
router_size r = length r.snapshot

-- A registration by either call.
pub data Registration : Type 0 where
  unary_at : Str → Option ℕ → Registration
  stream_at : Str → MethodForm → Option ℕ → Registration

unfoldable pub register : Router → Registration → Status × Router
unfolding register_unary register_stream
register r (unary_at path h) = register_unary r path h
register r (stream_at path form h) = register_stream r path form h

unfoldable pub register_all : Router → List Registration → Router
register_all r [] = r
register_all r (x ∷ xs) = register_all (register r x).1 xs
