-- ===== src/Typed/Reads.antt =====
-- The order in which ClientReader::Read gives the messages of a stream.
use u_rpc.Prelude.{
  ◌≡◌, refl, sym, ◌∙◌, ap, inl, inr, Option, none, some, List, [], ◌∷◌, ◌++◌, arith, if◌then◌else◌,
  append-nil, append_assoc, Bool-cases,
}
use u_rpc.Prelude.Str.{Str}
use u_rpc.Status.{Status, is_ok}
use u_rpc.Typed.Client.{
  ClientStream, on_message, notify_terminal, Taken, payload, ended, take_queued, read,
}

-- The core's callbacks, and calls of Read; one that would wait does nothing yet.
pub data StreamEvent : Type 0 where
  arrives : Status → Str → StreamEvent
  terminates : Status → StreamEvent
  reads : StreamEvent

-- What has been read so far, in order, and the stream.
unfoldable pub read_step : StreamEvent → List Taken × ClientStream → List Taken × ClientStream
unfolding on_message notify_terminal read
read_step (arrives st bytes) (taken, s) = (taken, on_message st bytes s)
read_step (terminates st) (taken, s) = (taken, notify_terminal st s)
read_step reads (taken, s) = elim (read s) [
  | none ↦ (taken, s)
  | some (t, s') ↦ (taken ++ t ∷ [], s')
]

unfoldable pub read_run : List StreamEvent → List Taken × ClientStream → List Taken × ClientStream
unfolding read_step
read_run [] r = r
read_run (e ∷ es) r = read_run es (read_step e r)

unfoldable pub payloads : List Taken → List Str
payloads [] = []
payloads (payload bytes ∷ ts) = bytes ∷ payloads ts
payloads (ended st ∷ ts) = payloads ts

-- The payloads of the messages that arrive with status ok.
unfoldable pub arrivals : List StreamEvent → List Str
arrivals [] = []
arrivals (arrives st bytes ∷ es) = if is_ok st then bytes ∷ arrivals es else arrivals es
arrivals (terminates st ∷ es) = arrivals es
arrivals (reads ∷ es) = arrivals es

payloads-append : (ts us : List Taken) → payloads (ts ++ us) ≡ payloads ts ++ payloads us
unfolding payloads
payloads-append [] us = refl
payloads-append (payload bytes ∷ ts) us = ap (◌∷◌ bytes) (payloads-append ts us)
payloads-append (ended st ∷ ts) us = payloads-append ts us

abbrev known : List Taken × ClientStream → List Str
known r = payloads r.0 ++ r.1.messages

-- A read moves what it takes.
module _ (taken : List Taken) (s : ClientStream) where
  after_take : Option (Taken × ClientStream) → List Taken × ClientStream
  after_take o = elim o [ none ↦ (taken, s) | some (t, s') ↦ (taken ++ t ∷ [], s') ]

  take_queued-known :
      (ms : List Str) → s.messages ≡ ms → known (after_take (take_queued ms s)) ≡ known (taken, s)
  unfolding after_take take_queued payloads
  take_queued-known [] e = elim (Bool-cases s.terminated) [
    | inl t ↦ rw t (
        ap (λ (xs : List Str). xs ++ s.messages)
          (payloads-append taken (ended s.terminal ∷ []) ∙ append-nil (payloads taken)))
    | inr t ↦ rw t
  ]
  take_queued-known (m ∷ ms) e =
      ap (λ (xs : List Str). xs ++ ms) (payloads-append taken (payload m ∷ []))
      ∙ (append_assoc (payloads taken) (m ∷ []) ms
          ∙ ap (λ (xs : List Str). payloads taken ++ xs) (sym e))

-- One step: what is read and what waits grow by what arrives.
read_step-known :
    (e : StreamEvent) (taken : List Taken) (s : ClientStream)
    → known (read_step e (taken, s)) ≡ known (taken, s) ++ arrivals (e ∷ [])
unfolding read_step on_message notify_terminal read arrivals after_take
read_step-known (arrives st bytes) taken s = elim (Bool-cases (is_ok st)) [
  | inl e ↦ rw e (sym (append_assoc (payloads taken) s.messages (bytes ∷ [])))
  | inr e ↦ rw e (sym (append-nil (payloads taken ++ s.messages)))
]
read_step-known (terminates st) taken s = sym (append-nil (payloads taken ++ s.messages))
read_step-known reads taken s =
    take_queued-known taken s s.messages refl ∙ sym (append-nil (payloads taken ++ s.messages))

arrivals-cons :
    (e : StreamEvent) (es : List StreamEvent) → arrivals (e ∷ es) ≡ arrivals (e ∷ []) ++ arrivals es
unfolding arrivals
arrivals-cons (arrives st bytes) es = ground arith
arrivals-cons (terminates st) es = refl
arrivals-cons reads es = refl

pub arrivals-append : (es fs : List StreamEvent) → arrivals (es ++ fs) ≡ arrivals es ++ arrivals fs
unfolding arrivals
arrivals-append [] fs = refl
arrivals-append (e ∷ es) fs =
    arrivals-cons e (es ++ fs)
    ∙ (ap (λ (xs : List Str). arrivals (e ∷ []) ++ xs) (arrivals-append es fs)
        ∙ (sym (append_assoc (arrivals (e ∷ [])) (arrivals es) (arrivals fs))
            ∙ ap (λ (xs : List Str). xs ++ arrivals fs) (sym (arrivals-cons e es))))

run_known :
    (es : List StreamEvent) (r : List Taken × ClientStream)
    → known (read_run es r) ≡ known r ++ arrivals es
unfolding read_run arrivals
run_known [] (taken, s) = sym (append-nil (payloads taken ++ s.messages))
run_known (e ∷ es) (taken, s) =
    run_known es (read_step e (taken, s))
    ∙ (ap (λ (xs : List Str). xs ++ arrivals es) (read_step-known e taken s)
        ∙ (append_assoc (payloads taken ++ s.messages) (arrivals (e ∷ [])) (arrivals es)
            ∙ ap (λ (xs : List Str). (payloads taken ++ s.messages) ++ xs)
                (sym (arrivals-cons e es))))

-- Whatever the interleaving of arrivals, the end and reads: the payloads that Read has given, followed
-- by those that wait, are exactly those that were there and those that have arrived with status ok
-- since, in that order: none is lost, doubled or overtaken.
pub reads_in_order :
    (es : List StreamEvent) (taken : List Taken) (s : ClientStream)
    → payloads (read_run es (taken, s)).0 ++ (read_run es (taken, s)).1.messages
      ≡ payloads taken ++ (s.messages ++ arrivals es)
unfolding read_run
reads_in_order es taken s =
    run_known es (taken, s) ∙ append_assoc (payloads taken) s.messages (arrivals es)
