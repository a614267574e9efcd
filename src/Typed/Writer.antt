-- ===== src/Typed/Writer.antt =====
-- ServerWriter, detail::ServerWriteState, and the wrapper of RegisterServerStreamingFor, of
-- urpc/api/include/urpc/stream.h. The core holds the callbacks that WriteMessage is given and calls
-- each of them later; the calls of the core's context are a log, newest first.
use u_rpc.Prelude.{
  ℕ, zero, suc, ◌+◌, ◌-◌, Bool, true, false, not, ◌||◌, Option, none, some, List, [], ◌∷◌, ◌++◌,
  ◌==◌, if◌then◌else◌,
}
use u_rpc.Prelude.Str.{Str, codes}
use u_rpc.Status.{Status, ok_status, status, internal, unimplemented}

-- A call of StreamCallCtx.
pub data CoreCall : Type 0 where
  write_message : Str → CoreCall
  finish : Status → CoreCall

-- ServerWriteState, with what stands around it: the callbacks that the core still holds, oldest
-- first, how many of those that it called have not come to OnDelivered yet, the calls of `delivered`,
-- and whether the wrapper's one read has run, and refused.
pub record WriteState : Type 0 where
  pub wrote : Bool
  pub finished : Bool
  pub in_flight : ℕ
  pub handler_returned : Bool
  pub has_finish_ctx : Bool
  pub core : List CoreCall
  pub armed : List (Option ℕ)
  pub settling : ℕ
  pub delivered : List (ℕ × Status)
  pub served : Bool
  pub refused : Bool

unfoldable pub new_write_state : WriteState
new_write_state = record {
  wrote = false;
  finished = false;
  in_flight = 0;
  handler_returned = false;
  has_finish_ctx = false;
  core = [];
  armed = [];
  settling = 0;
  delivered = [];
  served = false;
  refused = false;
}

-- `if (cb) cb(st);`
abbrev pub notify : Option ℕ → Status → WriteState → WriteState
notify none st w = w
notify (some k) st w = record w { delivered = (k, st) ∷ w.delivered }

abbrev pub finish_core : Status → WriteState → WriteState
finish_core st w = record w { core = finish st ∷ w.core }

-- MaybeAutoFinish
unfoldable pub maybe_auto_finish : WriteState → WriteState
maybe_auto_finish w =
    if not (w.in_flight == 0)
    then w
    else (if not w.handler_returned || not w.has_finish_ctx
        then w
        else (if w.finished then w else finish_core ok_status (record w { finished = true })))

-- OnDelivered: fetch_sub answers the number before it.
unfoldable pub on_delivered : WriteState → WriteState
unfolding maybe_auto_finish
on_delivered w =
    let w' = record w { in_flight = w.in_flight - 1 } in
    if w.in_flight == 1 then maybe_auto_finish w' else w'

-- The `fail` of Write.
abbrev pub fail : Str → Option ℕ → WriteState → Bool × WriteState
fail text cb w = (false, notify cb (status internal text) w)

-- Write behind its encoding.
unfoldable pub write_encoded : Option Str → Option ℕ → WriteState → Bool × WriteState
write_encoded none cb w = fail (codes "response encode failed") cb w
write_encoded (some payload) cb w = (
  true,
  record w {
    wrote = true;
    in_flight = w.in_flight + 1;
    core = write_message payload ∷ w.core;
    armed = w.armed ++ cb ∷ [];
  },
)

module _ {Msg : Type 0} (encode : Msg → Option Str) where
  -- ServerWriter::Write
  unfoldable pub write : Bool → Option Msg → Option ℕ → WriteState → Bool × WriteState
  unfolding write_encoded
  write arena none cb w = fail (codes "null message") cb w
  write arena (some msg) cb w =
      if w.finished
      then fail (codes "stream already finished") cb w
      else (if arena
          then write_encoded (encode msg) cb w
          else fail (codes "arena alloc failed") cb w)

-- ServerWriter::Finish
unfoldable pub finish_stream : Status → WriteState → Bool × WriteState
finish_stream st w =
    if w.finished then (false, w) else (true, finish_core st (record w { finished = true }))

-- What the wrapper does once the handler has returned.
unfoldable pub handler_returns : WriteState → WriteState
unfolding maybe_auto_finish
handler_returns w =
    if w.finished
    then w
    else (if w.wrote
        then maybe_auto_finish (record w { handler_returned = true; has_finish_ctx = true })
        else finish_core
            (status unimplemented (codes "method not implemented: no responses written"))
            (record w { refused = true }))

-- The callbacks that are left, and the one that the core calls, by its place.
unfoldable pub take_armed : ℕ → List (Option ℕ) → Option (Option ℕ × List (Option ℕ))
take_armed i [] = none
take_armed zero (cb ∷ cbs) = some (cb, cbs)
take_armed (suc i) (cb ∷ cbs) = elim (take_armed i cbs) [
  | none ↦ none
  | some (found, rest) ↦ some (found, cb ∷ rest)
]

-- The core calls a callback that it holds: the part that calls `delivered`.
unfoldable pub deliver : ℕ → Status → WriteState → WriteState
unfolding take_armed
deliver i st w = elim (take_armed i w.armed) [
  | none ↦ w
  | some (cb, rest) ↦ notify cb st (record w { armed = rest; settling = suc w.settling })
]

-- And the part behind it, once the user's code has come back.
unfoldable pub settle : ℕ → WriteState → WriteState
unfolding on_delivered
settle zero w = w
settle (suc n) w = on_delivered (record w { settling = n })

-- What reaches a server stream. The handler runs where its calls stand, up to `returns`; what it
-- leaves behind, and what `delivered` does, are calls too.
pub data WriterEvent (Msg : Type 0) : Type 0 where
  writes : Bool → Option Msg → Option ℕ → WriterEvent Msg
  finishes : Status → WriterEvent Msg
  delivers : ℕ → Status → WriterEvent Msg
  settles : WriterEvent Msg
  returns : WriterEvent Msg

module _ {Msg : Type 0} (encode : Msg → Option Str) where
  unfoldable pub step : WriterEvent Msg → WriteState → WriteState
  unfolding write finish_stream deliver settle handler_returns
  step (writes arena msg cb) w = (write encode arena msg cb w).1
  step (finishes st) w = (finish_stream st w).1
  step (delivers i st) w = deliver i st w
  step settles w = settle w.settling w
  step returns w = if w.served then w else handler_returns (record w { served = true })

  unfoldable pub run : List (WriterEvent Msg) → WriteState → WriteState
  unfolding step
  run [] w = w
  run (e ∷ es) w = run es (step e w)
