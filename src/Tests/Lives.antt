-- ===== src/Tests/Lives.antt =====
-- The life of a server at concrete inputs.
use u_rpc.Prelude.{◌≡◌, refl, Bool, true, false, List, [], ◌∷◌, ltb, length}
use u_rpc.Prelude.Str.{codes}
use u_rpc.Status.{Status, ok_status, status, unavailable}
use u_rpc.Codec.{new_decoder}
use u_rpc.Router.{new_router}
use u_rpc.Loop.{new_loop}
use u_rpc.Prelude.Map.{find, insert}
use u_rpc.Server.State.{Conn, User, new_call}
use u_rpc.Server.Terminal.{respond}
use u_rpc.Server.Lifecycle.{
  Life, bound, in_flight, fire_all, listener_closed, shutdown_task, grace_over,
}
use u_rpc.Server.Lifecycle.Shutdown.{
  LifeEvent, accepts, grace_fires, close_callback, life_run, shutdown_drains, shutdown_blocks,
}

abbrev busy_conn : Conn
busy_conn = record {
  router = new_router;
  max_receive_size = 16;
  now_ms = 0;
  timer_init_ok = true;
  loop = new_loop;
  calls = (1, new_call (new_decoder 16)) ∷ [];
  ctxs = [];
  sent = [];
}

abbrev new_life : Life
new_life = record {
  conns = [];
  start_done = false;
  start_status = ok_status;
  listening = false;
  listener_open = false;
  listener_closing = false;
  shutdown_requested = false;
  grace_armed = false;
  drained = false;
  locked = false;
  blocked = false;
}

abbrev serving : Life
serving = record new_life {
  conns = record { conn = busy_conn; closed = false; has_socket = true } ∷ [];
  start_done = true;
  listening = true;
  listener_open = true;
  shutdown_requested = true;
}

abbrev still : User
still cb c = c

-- A cancellation callback that answers its call, and nghttp2, which closes the stream with the answer.
abbrev answering : User
answering cb c = respond 1 (status unavailable (codes "cancelled")) [] c

abbrev closes_none : Conn → Conn → Bool
closes_none c c' = false

abbrev closes_answered : Conn → Conn → Bool
closes_answered c c' = ltb (length c.sent) (length c'.sent)

shutdown_drains_example :
    ((listener_closed (grace_over still closes_none (shutdown_task serving))).drained ≡ true)
    × ((listener_closed (grace_over still closes_none (shutdown_task serving))).conns ≡ [])
    × ((listener_closed (grace_over still closes_none (shutdown_task serving))).blocked ≡ false)
unfolding in_flight
shutdown_drains_example =
    shutdown_drains still closes_none serving refl refl refl refl refl (refl, tt)

-- The same server with a call that is watched, and whose callback answers: FinishShutdown waits for the
-- mutex that it holds.
abbrev watched : Life
watched = record serving {
  conns =
      record {
        conn = record busy_conn {
          calls = (1, record (new_call (new_decoder 16)) { cancel_cbs = 9 ∷ [] }) ∷ [];
        };
        closed = false;
        has_socket = true;
      }
      ∷ [];
}

finish_deadlocks : (grace_over answering closes_answered (shutdown_task watched)).blocked ≡ true
unfolding grace_over shutdown_task fire_all respond find insert new_call
finish_deadlocks = refl

abbrev in_use : Status
in_use = status unavailable (codes "address in use")

abbrev later : List LifeEvent
later = accepts busy_conn ∷ grace_fires ∷ close_callback ∷ []

shutdown_blocks_example :
    ((life_run still closes_none later (shutdown_task (bound true in_use new_life))).blocked ≡ true)
    × ((life_run still closes_none later (shutdown_task (bound true in_use new_life))).drained
        ≡ false)
shutdown_blocks_example =
    shutdown_blocks still closes_none true in_use new_life later refl refl refl refl refl
