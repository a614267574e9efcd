-- ===== src/Typed/Delivers.antt =====
-- Each `delivered` that Write is given is called exactly once, or is still held by the core.
use u_rpc.Prelude.{
  ℕ, zero, suc, ◌+◌, ◌≡◌, refl, Bool, true, false, Option, none, some, List, [], ◌∷◌, ◌++◌, arith,
  ◌==◌, if◌then◌else◌, to_ℕ,
}
use u_rpc.Prelude.Str.{Str, codes}
use u_rpc.Status.{Status, status, internal}
use u_rpc.Typed.Writer.{
  WriteState, new_write_state, notify, maybe_auto_finish, on_delivered, fail, write_encoded, write,
  finish_stream, handler_returns, take_armed, deliver, settle, WriterEvent, writes, finishes,
  delivers, settles, returns, step, run,
}

module _ (k : ℕ) where
  abbrev pub is_it : Option ℕ → ℕ
  is_it none = 0
  is_it (some j) = to_ℕ (j == k)

  -- How often the callback is held, and how often it was called.
  unfoldable pub held_times : List (Option ℕ) → ℕ
  held_times [] = 0
  held_times (cb ∷ cbs) = is_it cb + held_times cbs

  unfoldable pub called_times : List (ℕ × Status) → ℕ
  called_times [] = 0
  called_times ((j, st) ∷ cs) = to_ℕ (j == k) + called_times cs

  abbrev known : WriteState → ℕ
  known w = held_times w.armed + called_times w.delivered

  held_times-append :
      (cbs ds : List (Option ℕ)) → held_times (cbs ++ ds) ≡ held_times cbs + held_times ds
  unfolding held_times
  held_times-append [] ds = omega arith
  held_times-append (cb ∷ cbs) ds = omega (arith, held_times-append cbs ds)

  notify-known :
      (cb : Option ℕ) (st : Status) (w : WriteState) → known (notify cb st w) ≡ known w + is_it cb
  unfolding called_times
  notify-known none st w = omega arith
  notify-known (some j) st w = omega arith

  take_armed-held :
      (i : ℕ) (cbs : List (Option ℕ)) {cb : Option ℕ} {rest : List (Option ℕ)}
      → take_armed i cbs ≡ some (cb, rest)
      → held_times cbs ≡ is_it cb + held_times rest
  unfolding take_armed held_times
  take_armed-held i [] h = cc
  take_armed-held zero (cb ∷ cbs) h = ground arith
  take_armed-held (suc i) (cb ∷ cbs) h = after (take_armed i cbs) (λ c r. take_armed-held i cbs) h
    where
      after :
          (o : Option (Option ℕ × List (Option ℕ)))
          → ((c : Option ℕ) (r : List (Option ℕ))
              → o ≡ some (c, r)
              → held_times cbs ≡ is_it c + held_times r)
          → {c : Option ℕ} {r : List (Option ℕ)}
          → ◌≡◌ {A = Option (Option ℕ × List (Option ℕ))}
              (elim o [ none ↦ none | some (found, left) ↦ some (found, cb ∷ left) ])
              (some (c, r))
          → is_it cb + held_times cbs ≡ is_it c + held_times r
      after none ih e = cc
      after (some (found, left)) ih e = ground (arith, ih found left refl)

  -- What an event hands over.
  abbrev pub handed_by : {Msg : Type 0} → WriterEvent Msg → ℕ
  handed_by (writes arena msg cb) = is_it cb
  handed_by _ = 0

  unfoldable pub handed_times : {Msg : Type 0} → List (WriterEvent Msg) → ℕ
  handed_times [] = 0
  handed_times (e ∷ es) = handed_by e + handed_times es

  write_encoded-known :
      (o : Option Str) (cb : Option ℕ) (w : WriteState)
      → known (write_encoded o cb w).1 ≡ known w + is_it cb
  unfolding write_encoded held_times
  write_encoded-known none cb w =
      notify-known cb (status internal (codes "response encode failed")) w
  write_encoded-known (some payload) cb w = omega (arith, held_times-append w.armed (cb ∷ []))

  deliver-known : (i : ℕ) (st : Status) (w : WriteState) → known (deliver i st w) ≡ known w
  unfolding deliver
  deliver-known i st w = found (take_armed i w.armed) refl
    where
      found :
          (o : Option (Option ℕ × List (Option ℕ)))
          → take_armed i w.armed ≡ o
          → known (elim o [
            | none ↦ w
            | some (cb, rest) ↦ notify cb st (record w { armed = rest; settling = suc w.settling })
          ])
            ≡ known w
      found none e = refl
      found (some (cb, rest)) e = omega (
        arith,
        notify-known cb st (record w { armed = rest; settling = suc w.settling }),
        take_armed-held i w.armed e,
      )

  maybe_auto_finish-known : (w : WriteState) → known (maybe_auto_finish w) ≡ known w
  unfolding maybe_auto_finish
  maybe_auto_finish-known w = ground arith

  settle-known : (n : ℕ) (w : WriteState) → known (settle n w) ≡ known w
  unfolding settle on_delivered
  settle-known zero w = refl
  settle-known (suc n) w = ground arith

  module _ {Msg : Type 0} (encode : Msg → Option Str) where
    write-known :
        (arena : Bool) (msg : Option Msg) (cb : Option ℕ) (w : WriteState)
        → known (write encode arena msg cb w).1 ≡ known w + is_it cb
    unfolding write
    write-known arena none cb w = notify-known cb (status internal (codes "null message")) w
    write-known arena (some msg) cb w = on_flags w.finished arena
      where
        on_flags :
            (f a : Bool)
            → known
                (if f
                  then fail (codes "stream already finished") cb w
                  else (if a
                      then write_encoded (encode msg) cb w
                      else fail (codes "arena alloc failed") cb w)).1
              ≡ known w + is_it cb
        on_flags true a = notify-known cb (status internal (codes "stream already finished")) w
        on_flags false true = write_encoded-known (encode msg) cb w
        on_flags false false = notify-known cb (status internal (codes "arena alloc failed")) w

    step-known :
        (e : WriterEvent Msg) (w : WriteState) → known (step encode e w) ≡ known w + handed_by e
    unfolding step finish_stream handler_returns
    step-known (writes arena msg cb) w = write-known arena msg cb w
    step-known (finishes st) w = ground arith
    step-known (delivers i st) w = omega (arith, deliver-known i st w)
    step-known settles w = omega (arith, settle-known w.settling w)
    step-known returns w = ground arith

    run-known :
        (es : List (WriterEvent Msg)) (w : WriteState)
        → known (run encode es w) ≡ known w + handed_times es
    unfolding run handed_times
    run-known [] w = omega arith
    run-known (e ∷ es) w = omega (arith, run-known es (step encode e w), step-known e w)

-- After any events on a server stream, of the `delivered` callbacks that Write was given, accepted or
-- not, each is still held by the core or has been called, together exactly as often as it was given.
pub delivered_once :
    {Msg : Type 0} (encode : Msg → Option Str) (es : List (WriterEvent Msg)) (k : ℕ)
    → held_times k (run encode es new_write_state).armed
        + called_times k (run encode es new_write_state).delivered
      ≡ handed_times k es
unfolding new_write_state held_times called_times
delivered_once encode es k = omega (arith, run-known k encode es new_write_state)
