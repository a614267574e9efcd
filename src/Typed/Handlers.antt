-- ===== src/Typed/Handlers.antt =====
-- The wrappers that typed handlers are registered in: RegisterUnaryFor of
-- urpc/api/include/urpc/unary.h, the reads and RegisterClientStreamingFor of
-- urpc/api/include/urpc/stream.h, and RegisterStreamRaw of urpc/api/source/urpc_api_impl.cc. A
-- handler is the list of the answers that it gives through `done`, and whether it then throws.
use u_rpc.Prelude.{
  ℕ, suc, Bool, true, false, not, ◌||◌, Option, none, some, List, [], ◌∷◌, ◌++◌, if◌then◌else◌,
}
use u_rpc.Prelude.Str.{Str, codes}
use u_rpc.Status.{Status, ok_status, status, is_ok, internal, data_loss}
use u_rpc.Router.{Router, MethodForm, unary, register_stream, register_unary}
use u_rpc.Typed.Channels.{route}
use u_rpc.Typed.Writer.{WriteState, finish_core, write_message}

-- A unary request while it is served: how often its arena was freed, and the calls of the raw `done`,
-- oldest first.
pub record Serving : Type 0 where
  pub freed : ℕ
  pub answers : List (Status × Str)

abbrev pub answer : Status → Str → Serving → Serving
answer st payload s = record s { answers = s.answers ++ (st, payload) ∷ [] }

abbrev free : Serving → Serving
free s = record s { freed = suc s.freed }

-- What the wrapper of a generated service answers when its handler throws.
abbrev pub raised : Status
raised = status internal (codes "service handler raised an exception")

-- The part of typed_done behind its encoding.
unfoldable pub answer_encoded : Status → Option Str → Serving → Serving
answer_encoded st none s = free (answer (status internal (codes "response encode failed")) [] s)
answer_encoded st (some payload) s = free (answer st payload s)

module _ {Res : Type 0} (encode : Res → Option Str) where
  -- typed_done
  unfoldable pub typed_done : Status → Option Res → Serving → Serving
  unfolding answer_encoded
  typed_done st none s = free (answer st [] s)
  typed_done st (some res) s =
      if not (is_ok st) then free (answer st [] s) else answer_encoded st (encode res) s

  unfoldable pub typed_dones : List (Status × Option Res) → Serving → Serving
  unfolding typed_done
  typed_dones [] s = s
  typed_dones ((st, res) ∷ given) s = typed_dones given (typed_done st res s)

-- What the handler and the `catch` around it answer.
abbrev pub handler_answers :
    {Res : Type 0} → List (Status × Option Res) → Bool → List (Status × Option Res)
handler_answers given threw = given ++ (if threw then (raised, none) ∷ [] else [])

module _ {Req Res : Type 0} (decode : Str → Option Req) (encode : Res → Option Str) where
  unfoldable pub serve_decoded :
      Option Req → (Req → List (Status × Option Res) × Bool) → Serving → Serving
  unfolding typed_dones
  serve_decoded none handler s =
      answer (status data_loss (codes "request decode failed")) [] (free s)
  serve_decoded (some req) handler s =
      let (given, threw) = handler req in typed_dones encode (handler_answers given threw) s

  -- The raw handler of RegisterUnaryFor; the flag says whether there is an arena.
  unfoldable pub serve_unary : Bool → Str → (Req → List (Status × Option Res) × Bool) → Serving
  unfolding serve_decoded
  serve_unary arena bytes handler =
      let fresh : Serving = record { freed = 0; answers = [] } in
      if arena
      then serve_decoded (decode bytes) handler fresh
      else answer (status internal (codes "arena alloc failed")) [] fresh

-- ServerReader: what the callback of ReadMessage hands on of what the core read.
pub record ReadResult (Req : Type 0) : Type 0 where
  pub status : Status
  pub eos : Bool
  pub message : Option Req

module _ {Req : Type 0} (decode : Str → Option Req) where
  unfoldable pub read_decoded : Status → Option Req → ReadResult Req
  read_decoded st none = record {
    status = status data_loss (codes "request decode failed");
    eos = false;
    message = none;
  }
  read_decoded st (some req) = record { status = st; eos = false; message = some req }

  unfoldable pub read_result : Bool → Status → Bool → Str → ReadResult Req
  unfolding read_decoded
  read_result arena st eos bytes =
      if eos || not (is_ok st)
      then record { status = st; eos = eos; message = none }
      else read_decoded st (if arena then decode bytes else none)

-- `done` of RegisterClientStreamingFor.
module _ {Res : Type 0} (encode : Res → Option Str) where
  unfoldable pub finish_encoded : Option Str → WriteState → WriteState
  finish_encoded none w = finish_core (status internal (codes "response encode failed")) w
  finish_encoded (some payload) w =
      finish_core ok_status (record w { wrote = true; core = write_message payload ∷ w.core })

  unfoldable pub stream_done : Bool → Status → Option Res → WriteState → WriteState
  unfolding finish_encoded
  stream_done arena st none w =
      finish_core (if is_ok st then status internal (codes "missing response message") else st)
        (record w { finished = true })
  stream_done arena st (some res) w =
      let w' = record w { finished = true } in
      if not (is_ok st)
      then finish_core st w'
      else (if arena
          then finish_encoded (encode res) w'
          else finish_core (status internal (codes "arena alloc failed")) w')

-- What the one read of RegisterServerStreamingFor comes to: nothing, a call of Finish, or a call of
-- the handler, behind which Typed.Writer.handler_returns is run.
pub data Served (Req : Type 0) : Type 0 where
  ignored : Served Req
  finished_with : Status → Served Req
  handled : Req → Served Req

unfoldable pub serve_stream :
    {Req : Type 0} → (Str → Option Req) → Bool → Status → Bool → Str → Served Req
serve_stream decode arena st eos bytes =
    if not (is_ok st) || eos
    then ignored
    else (if arena
        then elim (decode bytes) [
          | none ↦ finished_with (status data_loss (codes "request decode failed"))
          | some req ↦ handled req
        ]
        else finished_with (status internal (codes "arena alloc failed")))

-- RegisterUnaryRaw
unfoldable pub register_unary_raw : Str → Str → ℕ → Router → Status × Router
unfolding route
register_unary_raw service method handler r = register_unary r (route service method) (some handler)

-- RegisterStreamRaw: the form has to be a streaming one. `none` is a null server.
unfoldable pub register_stream_raw :
    Str → Str → MethodForm → ℕ → Option Router → Status × Option Router
unfolding route
register_stream_raw service method form body none = (status internal (codes "null server"), none)
register_stream_raw service method unary body (some r) =
    (status internal (codes "RegisterStreamRaw requires a streaming form"), some r)
register_stream_raw service method form body (some r) =
    let (st, r') = register_stream r (route service method) form (some body) in (st, some r')

-- A handler of a stream that throws, and is contained.
unfoldable pub contain : Bool → WriteState → WriteState
contain threw w = if threw then finish_core raised w else w
