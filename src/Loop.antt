-- ===== src/Loop.antt =====
-- urpc/core/include/urpc/core/loop.h and urpc/core/source/urpc_loop.cpp: the event loop's queue of
-- posted tasks and its one-shot timers. A task is a value of the client's type `T`: what its
-- std::function would run. libuv is outside: the results of its calls are arguments, and when the
-- loop wakes or a timer fires is an event.
pub mod Order
pub mod Timers
use u_rpc.Prelude.{
  ℕ, zero, suc, ◌+◌, Bool, true, false, ◌&&◌, ◌||◌, not, Option, none, some, List, [], ◌∷◌, ◌++◌,
  map, ◌==◌, if◌then◌else◌,
}
use u_rpc.Prelude.Map.{Map, find, insert, erase}

-- What stands in `pending_`: a posted task, or the quit task of Stop.
pub data Task {ℓ} (T : Type ℓ) : Type ℓ where
  posted : T → Task T
  close_all_handles : Task T

pub record Loop {ℓ} (T : Type ℓ) : Type ℓ where
  pub running : Bool
  pub quit_requested : Bool
  pub wake_sent : Bool  -- uv_async_send since the last OnWakeTramp
  pub wake_closed : Bool  -- uv_close on the wake handle
  pub pending : List (Task T)
  pub timers : Map T
  pub next_timer_id : ℕ

module _ {ℓ} {T : Type ℓ} where
  unfoldable pub new_loop : Loop T
  new_loop = record {
    running = false;
    quit_requested = false;
    wake_sent = false;
    wake_closed = false;
    pending = [];
    timers = [];
    next_timer_id = 1;
  }

  -- LoopRunner::Start, by whether uv_loop_init and uv_async_init succeed.
  unfoldable pub start : Bool → Bool → Loop T → Bool × Loop T
  start loop_init async_init l =
      if l.running
      then (false, l)
      else (if loop_init && async_init
          then (true, record l { running = true; quit_requested = false; wake_closed = false })
          else (false, l))

  -- LoopRunner::Post; an empty std::function is `none`.
  unfoldable pub post : Option T → Loop T → Loop T
  post none l = l
  post (some t) l = record l {
    pending = l.pending ++ posted t ∷ [];
    wake_sent = l.running || l.wake_sent;
  }

  -- LoopRunner::DrainPending takes the queue as it is; the tasks then run in this order, and what
  -- they post waits for the next wake.
  unfoldable pub drain_pending : Loop T → List (Task T) × Loop T
  drain_pending l = (l.pending, record l { pending = []; wake_sent = false })

  -- LoopRunner::CloseAllHandlesOnLoop
  unfoldable pub close_all : Loop T → Loop T
  close_all l = record l { timers = []; wake_closed = true }

  -- LoopRunner::Stop up to the join: the queue is cleared for the quit task.
  unfoldable pub stop : Loop T → Loop T
  stop l =
      if l.running
      then (record l {
        running = false;
        quit_requested = true;
        pending = close_all_handles ∷ [];
        wake_sent = not l.wake_closed || l.wake_sent;
      })
      else l

  -- LoopRunner::SetTimer, by whether uv_timer_init succeeds; 0 is no timer. The delay is libuv's.
  unfoldable pub set_timer : Bool → T → Loop T → ℕ × Loop T
  set_timer timer_init t l =
      if l.running
      then (if timer_init
          then (
            l.next_timer_id,
            record l {
              timers = insert l.next_timer_id t l.timers;
              next_timer_id = l.next_timer_id + 1;
            },
          )
          else (0, record l { next_timer_id = l.next_timer_id + 1 }))
      else (0, l)

  -- LoopRunner::CancelTimer
  unfoldable pub cancel_timer : ℕ → Loop T → Loop T
  cancel_timer id l = record l { timers = erase id l.timers }

  -- LoopRunner::OnTimerTramp: the timer is cancelled, then its task runs. libuv fires no timer that
  -- was stopped.
  unfoldable pub fire_timer : ℕ → Loop T → Option T × Loop T
  unfolding cancel_timer
  fire_timer id l = (find id l.timers, cancel_timer id l)
