-- ===== src/Channel/Ledger/History.antt =====
-- The books over a history of a channel (urpc/core/source/urpc_channel.cc).
use u_rpc.Prelude.{
  ℕ, ◌+◌, ◌≡◌, refl, sym, ap, ◌∙◌, not, ◌&&◌, if◌then◌else◌, Bool, true, ◌||◌, Option, List, [],
  ◌∷◌, arith, ◌==◌,
}
use u_rpc.Prelude.Str.{Str}
use u_rpc.Prelude.Map.{find}
use u_rpc.Codec.{new_decoder}
use u_rpc.Loop.{Loop, stop, posted, post}
use u_rpc.Channel.State.{
  Deferred, start_call, cancel_call, open_stream, send_on_stream, close_stream_send, Channel,
}
use u_rpc.Channel.Api.{
  Event, calls, cancels, opens, sends, closes_send, limits, loop_woken, timer_fired, connect_result,
  headers_complete, data_received, stream_close, consumed, connection_lost, loop_stops, call,
  cancel, open_new_stream, stream_send, stream_close_send, set_max_receive_size, step, run,
}
use u_rpc.Channel.Ledger.{starts_in, Books, starts-append}
use u_rpc.Channel.Ledger.Streams.{on_consumed-Books}
use u_rpc.Channel.Ledger.Aborts.{on_connection_lost-Books}
use u_rpc.Channel.Ledger.Events.{
  on_headers-Books, on_data-Books, on_stream_close-Books, on_connect-Books, timer_fired-Books,
  loop_woken-Books, post_task-Books,
}

-- The calls that were issued, once Channel::Call issues another.
abbrev pub issue : ℕ → (ℕ → Bool) → ℕ → Bool
issue id E k = E k || id == k

pub call-Books :
    (E : ℕ → Bool) (path framed : Str) (timeout_ms : ℕ) (cb : Option ℕ) (c : Channel)
    → Books E [] [] c
    → Books (issue c.next_call_id E) [] [] (call path framed timeout_ms cb c).1
unfolding call post
call-Books E path framed timeout_ms cb c (sums, ahead, sorted, keyed, waiting, timers, free) = (
  (λ k. ground (
    arith,
    sums k,
    ahead k,
    starts-append k c.loop.pending (
        posted
          (start_call c.next_call_id path framed timeout_ms cb (new_decoder c.max_receive_size))
        ∷ []),
  )),
  (λ k l. ground (arith, ahead k)),
  sorted,
  keyed,
  waiting,
  timers,
  free,
)

-- The calls that Stop leaves: all, where the loop does not run.
abbrev pub spared : Channel → (ℕ → Bool) → ℕ → Bool
spared c E k = E k && (not c.loop.running || starts_in k c.loop.pending == 0)

-- The calls that are in the books after an event.
abbrev pub issued : Event → Channel → (ℕ → Bool) → ℕ → Bool
issued (calls path framed timeout_ms cb) c E = issue c.next_call_id E
issued loop_stops c E = spared c E
issued _ c E = E

stop_starts :
    (k : ℕ) (l : Loop Deferred)
    → starts_in k (stop l).pending ≡ (if l.running then 0 else starts_in k l.pending)
unfolding stop
stop_starts k l = ground arith

stop_timers : (l : Loop Deferred) → (stop l).timers ≡ l.timers
unfolding stop
stop_timers l = ground arith

-- Stop drops the calls whose task is still posted.
stopped-Books :
    (E : ℕ → Bool) (c : Channel) → Books E [] [] c → Books (spared c E) [] [] (step loop_stops c)
unfolding step
stopped-Books E c (sums, ahead, sorted, keyed, waiting, timers, free) = (
  (λ k. ground (arith, sums k, stop_starts k c.loop)),
  (λ k l. ground (arith, ahead k l)),
  sorted,
  keyed,
  waiting,
  (λ id t e. timers id t (sym (ap (find id) (stop_timers c.loop)) ∙ e)),
  free,
)

pub step-Books :
    (E : ℕ → Bool) (e : Event) (c : Channel)
    → Books E [] [] c
    → Books (issued e c E) [] [] (step e c)
unfolding step
step-Books E (calls path framed timeout_ms cb) c h = call-Books E path framed timeout_ms cb c h
step-Books E (cancels id) c h = unfold cancel in post_task-Books E (cancel_call id) c (λ k. refl) h
step-Books E (opens path events timeout_ms) c (sums, ahead, sorted, keyed, waiting, timers, free) =
    unfold open_new_stream in
    post_task-Books E (open_stream c.next_call_id path events timeout_ms)
      (record c { next_call_id = c.next_call_id + 1 }) (λ k. refl)
      (sums, (λ k l. ahead k (omega arith)), sorted, keyed, waiting, timers, free)
step-Books E (sends id framed cb close) c h =
    unfold stream_send in post_task-Books E (send_on_stream id framed cb close) c (λ k. refl) h
step-Books E (closes_send id) c h =
    unfold stream_close_send in post_task-Books E (close_stream_send id) c (λ k. refl) h
step-Books E (limits n) c h = unfold set_max_receive_size in h
step-Books E loop_woken c h = loop_woken-Books E c h
step-Books E (timer_fired id) c h = timer_fired-Books E id c h
step-Books E (connect_result st) c h = on_connect-Books E st c h
step-Books E (headers_complete sid hs) c h = on_headers-Books E sid hs c h
step-Books E (data_received sid bytes) c h = on_data-Books E sid bytes c h
step-Books E (stream_close sid) c h = on_stream_close-Books E sid c h
step-Books E (consumed id cb) c h = on_consumed-Books E [] [] id cb c h
step-Books E connection_lost c h = on_connection_lost-Books E [] c h
step-Books E loop_stops c h = stopped-Books E c h

-- The calls that were issued after a history.
abbrev pub issued_all : List Event → Channel → (ℕ → Bool) → ℕ → Bool
issued_all [] c E = E
issued_all (e ∷ es) c E = issued_all es (step e c) (issued e c E)

pub run-Books :
    (E : ℕ → Bool) (es : List Event) (c : Channel)
    → Books E [] [] c
    → Books (issued_all es c E) [] [] (run es c)
unfolding run
run-Books E [] c h = h
run-Books E (e ∷ es) c h = run-Books (issued e c E) es (step e c) (step-Books E e c h)

-- The task of a call is not posted when the loop stops.
abbrev pub Spares : ℕ → Event → Channel → Type 0
Spares k loop_stops c = starts_in k c.loop.pending ≡ 0
Spares k _ c = Unit {0}

abbrev pub SparesAll : ℕ → List Event → Channel → Type 0
SparesAll k [] c = Unit {0}
SparesAll k (e ∷ es) c = Spares k e c × SparesAll k es (step e c)

issued_grows :
    (E : ℕ → Bool) (k : ℕ) (e : Event) (c : Channel)
    → Spares k e c
    → E k ≡ true
    → issued e c E k ≡ true
issued_grows E k (calls path framed timeout_ms cb) c z h = ground arith
issued_grows E k (cancels id) c z h = h
issued_grows E k (opens path events timeout_ms) c z h = h
issued_grows E k (sends id framed cb close) c z h = h
issued_grows E k (closes_send id) c z h = h
issued_grows E k (limits n) c z h = h
issued_grows E k loop_woken c z h = h
issued_grows E k (timer_fired id) c z h = h
issued_grows E k (connect_result st) c z h = h
issued_grows E k (headers_complete sid hs) c z h = h
issued_grows E k (data_received sid bytes) c z h = h
issued_grows E k (stream_close sid) c z h = h
issued_grows E k (consumed id cb) c z h = h
issued_grows E k connection_lost c z h = h
issued_grows E k loop_stops c z h = ground (arith, z)

pub issued_all_grows :
    (E : ℕ → Bool) (k : ℕ) (es : List Event) (c : Channel)
    → SparesAll k es c
    → E k ≡ true
    → issued_all es c E k ≡ true
issued_all_grows E k [] c z h = h
issued_all_grows E k (e ∷ es) c z h =
    issued_all_grows (issued e c E) k es (step e c) z.1 (issued_grows E k e c z.0 h)
