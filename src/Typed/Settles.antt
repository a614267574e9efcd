-- ===== src/Typed/Settles.antt =====
-- How a server stream ends: the counter of ServerWriteState, and when the wrapper finishes.
use u_rpc.Prelude.{
  ℕ, zero, suc, ◌+◌, ◌-◌, ◌<◌, ◌≡◌, refl, ◌⊎◌, Bool, true, false, Option, none, some, List, [], ◌∷◌,
  arith, ◌==◌, if◌then◌else◌, to_ℕ, length, length-append, Bool-cases, inl, inr, if-keeps,
}
use u_rpc.Prelude.Str.{Str, codes}
use u_rpc.Status.{Status, status, internal, unimplemented}
use u_rpc.Typed.Writer.{
  CoreCall, write_message, finish, WriteState, new_write_state, notify, finish_core,
  maybe_auto_finish, on_delivered, fail, write_encoded, write, finish_stream, handler_returns,
  take_armed, deliver, settle, WriterEvent, writes, finishes, delivers, settles, returns, step, run,
}

-- How often the core was told to finish.
unfoldable pub finish_count : List CoreCall → ℕ
finish_count [] = 0
finish_count (write_message payload ∷ cs) = finish_count cs
finish_count (finish st ∷ cs) = suc (finish_count cs)

-- Whether the last call is Finish.
abbrev pub ends_finished : List CoreCall → Bool
ends_finished (finish st ∷ cs) = true
ends_finished _ = false

pub record IsSound (w : WriteState) : Type 0 where
  pub counted : w.in_flight ≡ length w.armed + w.settling
  pub once : finish_count w.core ≡ to_ℕ w.finished + to_ℕ w.refused
  pub drained : w.handler_returned ≡ true → w.in_flight ≡ 0 → w.finished ≡ true
  pub reachable : w.handler_returned ≡ true → w.has_finish_ctx ≡ true
  pub last : w.finished ≡ true → w.refused ≡ false → ends_finished w.core ≡ true
  pub refused_served : w.refused ≡ true → w.served ≡ true
  pub refused_kept : w.refused ≡ true → w.handler_returned ≡ false
  pub served_first : w.handler_returned ≡ true → w.served ≡ true

notify-IsSound :
    (cb : Option ℕ) (st : Status) (w : WriteState) → IsSound w → IsSound (notify cb st w)
notify-IsSound none st w h = h
notify-IsSound (some k) st w h = ground arith

write_encoded-IsSound :
    (o : Option Str) (cb : Option ℕ) (w : WriteState)
    → IsSound w
    → w.finished ≡ false
    → IsSound (write_encoded o cb w).1
unfolding write_encoded finish_count
write_encoded-IsSound none cb w h f =
    notify-IsSound cb (status internal (codes "response encode failed")) w h
write_encoded-IsSound (some payload) cb w h f = ground (arith, length-append w.armed (cb ∷ []))

finish_stream-IsSound : (st : Status) (w : WriteState) → IsSound w → IsSound (finish_stream st w).1
unfolding finish_stream finish_count
finish_stream-IsSound st w h = ground arith

-- The wrapper finishes at the end of all writes, with every fact but `drained` at hand.
maybe_auto_finish-IsSound :
    (w : WriteState)
    → IsSound (record w { handler_returned = false })
    → (w.handler_returned ≡ true → w.has_finish_ctx ≡ true)
    → (w.refused ≡ true → w.handler_returned ≡ false)
    → (w.handler_returned ≡ true → w.served ≡ true)
    → IsSound (maybe_auto_finish w)
unfolding maybe_auto_finish finish_count
maybe_auto_finish-IsSound w h r k s = ground arith

length-take_armed :
    (i : ℕ) (cbs : List (Option ℕ)) {cb : Option ℕ} {rest : List (Option ℕ)}
    → take_armed i cbs ≡ some (cb, rest)
    → length cbs ≡ suc (length rest)
unfolding take_armed
length-take_armed i [] h = cc
length-take_armed zero (cb ∷ cbs) h = ground arith
length-take_armed (suc i) (cb ∷ cbs) h = after (take_armed i cbs) (λ c r. length-take_armed i cbs) h
  where
    after :
        (o : Option (Option ℕ × List (Option ℕ)))
        → ((c : Option ℕ) (r : List (Option ℕ)) → o ≡ some (c, r) → length cbs ≡ suc (length r))
        → {c : Option ℕ} {r : List (Option ℕ)}
        → ◌≡◌ {A = Option (Option ℕ × List (Option ℕ))}
            (elim o [ none ↦ none | some (found, left) ↦ some (found, cb ∷ left) ])
            (some (c, r))
        → suc (length cbs) ≡ suc (length r)
    after none ih e = cc
    after (some (found, left)) ih e = ground (arith, ih found left refl)

deliver-IsSound : (i : ℕ) (st : Status) (w : WriteState) → IsSound w → IsSound (deliver i st w)
unfolding deliver
deliver-IsSound i st w h = found (take_armed i w.armed) refl
  where
    found :
        (o : Option (Option ℕ × List (Option ℕ)))
        → take_armed i w.armed ≡ o
        → IsSound (elim o [
          | none ↦ w
          | some (cb, rest) ↦ notify cb st (record w { armed = rest; settling = suc w.settling })
        ])
    found none e = h
    found (some (cb, rest)) e =
        notify-IsSound cb st (record w { armed = rest; settling = suc w.settling })
          (ground (arith, length-take_armed i w.armed e))

-- The last callback that settles lets the wrapper finish.
settle-IsSound : (n : ℕ) (w : WriteState) → w.settling ≡ n → IsSound w → IsSound (settle n w)
unfolding settle on_delivered
settle-IsSound zero w e h = h
settle-IsSound (suc n) w e h = elim (Bool-cases (w.in_flight == 1)) [
  | inl last ↦ rw last (
      maybe_auto_finish-IsSound (record w { settling = n; in_flight = w.in_flight - 1 })
        (ground arith) h.reachable h.refused_kept h.served_first)
  | inr more ↦ rw more (ground arith)
]

handler_returns-IsSound :
    (w : WriteState)
    → IsSound w
    → w.served ≡ false
    → IsSound (handler_returns (record w { served = true }))
unfolding handler_returns finish_count
handler_returns-IsSound w h s =
    let w' : WriteState = record w { served = true } in
    let w'' : WriteState = record w' { handler_returned = true; has_finish_ctx = true } in
    let no_answer : Status =
      status unimplemented (codes "method not implemented: no responses written") in
    let refuses : WriteState = finish_core no_answer (record w' { refused = true }) in
    if-keeps IsSound w.finished w' (if w.wrote then maybe_auto_finish w'' else refuses)
      (λ e. ground arith)
      (λ e.
        if-keeps IsSound w.wrote (maybe_auto_finish w'') refuses
          (λ k.
            maybe_auto_finish-IsSound w'' (ground arith) (ground arith) (ground arith)
              (ground arith))
          (λ k. ground arith))

module _ {Msg : Type 0} (encode : Msg → Option Str) where
  write-IsSound :
      (arena : Bool) (msg : Option Msg) (cb : Option ℕ) (w : WriteState)
      → IsSound w
      → IsSound (write encode arena msg cb w).1
  unfolding write
  write-IsSound arena none cb w h = notify-IsSound cb (status internal (codes "null message")) w h
  write-IsSound arena (some msg) cb w h = on_flags w.finished arena refl
    where
      on_flags :
          (f a : Bool)
          → w.finished ≡ f
          → IsSound
              (if f
                then fail (codes "stream already finished") cb w
                else (if a
                    then write_encoded (encode msg) cb w
                    else fail (codes "arena alloc failed") cb w)).1
      on_flags true a e = notify-IsSound cb (status internal (codes "stream already finished")) w h
      on_flags false true e = write_encoded-IsSound (encode msg) cb w h e
      on_flags false false e = notify-IsSound cb (status internal (codes "arena alloc failed")) w h

  step-IsSound : (e : WriterEvent Msg) (w : WriteState) → IsSound w → IsSound (step encode e w)
  unfolding step
  step-IsSound (writes arena msg cb) w h = write-IsSound arena msg cb w h
  step-IsSound (finishes st) w h = finish_stream-IsSound st w h
  step-IsSound (delivers i st) w h = deliver-IsSound i st w h
  step-IsSound settles w h = settle-IsSound w.settling w refl h
  step-IsSound returns w h =
      if-keeps IsSound w.served w (handler_returns (record w { served = true })) (λ _. h)
        (λ e. handler_returns-IsSound w h e)

  run-IsSound :
      (es : List (WriterEvent Msg)) (w : WriteState) → IsSound w → IsSound (run encode es w)
  unfolding run
  run-IsSound [] w h = h
  run-IsSound (e ∷ es) w h = run-IsSound es (step encode e w) (step-IsSound e w h)

new-IsSound : IsSound new_write_state
unfolding new_write_state finish_count
new-IsSound = ground arith

finished_or :
    (w : WriteState)
    → IsSound w
    → w.refused ≡ false
    → (w.finished ≡ false) ⊎ (ends_finished w.core ≡ true)
finished_or w h r = elim (Bool-cases w.finished) [ inl e ↦ inr (h.last e r) | inr e ↦ inl e ]

returned_or :
    (w : WriteState)
    → IsSound w
    → w.refused ≡ false
    → (w.handler_returned ≡ false) ⊎ ((0 < w.in_flight) ⊎ (finish_count w.core ≡ 1))
returned_or w h r = elim (Bool-cases w.handler_returned) [
  | inr e ↦ inl e
  | inl e ↦ elim (Bool-cases (w.in_flight == 0)) [
    | inr k ↦ inr (inl (ground arith))
    | inl k ↦ inr (inr (let f = h.drained e (ground arith) in ground arith))
  ]
]

-- A server-streaming call, after any writes, deliveries and calls of Finish in any order, before and
-- after its handler returns, where the handler did not return with nothing written: the counter is
-- the number of callbacks that the core holds or that have not come to OnDelivered, so that it never
-- runs below zero; the core has been told to finish once if the stream is finished and never
-- otherwise, with nothing written behind that; and unless the handler has still to return or a write
-- is in flight, it has been told.
pub stream_settles :
    {Msg : Type 0} (encode : Msg → Option Str) (es : List (WriterEvent Msg))
    → (run encode es new_write_state).refused ≡ false
    → let w = run encode es new_write_state in
      (w.in_flight ≡ length w.armed + w.settling)
      × (finish_count w.core ≡ to_ℕ w.finished)
      × ((w.finished ≡ false) ⊎ (ends_finished w.core ≡ true))
      × ((w.handler_returned ≡ false) ⊎ ((0 < w.in_flight) ⊎ (finish_count w.core ≡ 1)))
stream_settles encode es r =
    let w = run encode es new_write_state in
    let h = run-IsSound encode es new_write_state new-IsSound in
    (h.counted, ground arith, finished_or w h r, returned_or w h r)
