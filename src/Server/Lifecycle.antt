-- ===== src/Server/Lifecycle.antt =====
-- The life of a server: Start, Shutdown, OnConnIdle, FinishShutdown and the read callback of
-- urpc/core/source/urpc_server.cc. What runs on the loop thread is one step; the outcome of
-- BindAndListen, the end of a socket and the close callback of the listener are events. Only the loop
-- thread takes the mutex inside a step: `locked` says that it holds it, and `blocked` that it waits for
-- it while it holds it, so that nothing runs on the loop any more.
pub mod Shutdown
use u_rpc.Prelude.{
  ℕ, zero, suc, Bool, true, false, not, ◌&&◌, ◌||◌, none, List, [], ◌∷◌, ◌++◌, if◌then◌else◌,
  is_empty,
}
use u_rpc.Prelude.Map.{keys}
use u_rpc.Status.{Status, is_ok}
use u_rpc.Server.State.{Conn, User}
use u_rpc.Server.Terminal.{fire_cancel}
use u_rpc.Server.Stream.{cancel_stream_io}

-- A connection with the two fields that its life cycle uses.
pub record Peer : Type 0 where
  pub conn : Conn
  pub closed : Bool
  pub has_socket : Bool

pub record Life : Type 0 where
  pub conns : List Peer
  pub start_done : Bool
  pub start_status : Status
  pub listening : Bool
  pub listener_open : Bool  -- TcpListener: `loop_ != nullptr`
  pub listener_closing : Bool  -- Close was called, and its callback will run
  pub shutdown_requested : Bool
  pub grace_armed : Bool
  pub drained : Bool
  pub locked : Bool  -- the loop thread holds `mu`
  pub blocked : Bool  -- and waits for it

-- The task that Start posts, by what BindAndListen answers: an address that cannot be parsed leaves
-- the listener without a loop.
unfoldable pub bound : Bool → Status → Life → Life
bound parsed st s = record s {
  start_status = st;
  listening = is_ok st;
  start_done = true;
  listener_open = parsed;
}

unfoldable pub accept : Conn → Life → Life
accept conn s = record s {
  conns = s.conns ++ record { conn = conn; closed = false; has_socket = true } ∷ [];
}

-- `std::lock_guard<std::mutex> lock(mu);` and what follows in its scope.
unfoldable pub with_lock : (Life → Life) → Life → Life
with_lock f s =
    if s.blocked
    then s
    else (if s.locked
        then record s { blocked = true }
        else (let s' = f (record s { locked = true }) in
            if s'.blocked then s' else record s' { locked = false }))

-- The callback given to TcpListener::Close, and `finish` of Shutdown.
unfoldable pub set_drained : Life → Life
unfolding with_lock
set_drained s = with_lock (λ s. record s { drained = true }) s

-- TcpListener::Close with the callback that drains; when the listener is closed already it runs at
-- once.
unfoldable pub close_listener : Life → Life
unfolding set_drained
close_listener s =
    if s.listener_open
    then record s { listener_open = false; listener_closing = true }
    else set_drained s

-- The close callback: OnClosedTramp with the callback given to Close.
unfoldable pub listener_closed : Life → Life
unfolding set_drained
listener_closed s =
    if s.listener_closing then set_drained (record s { listener_closing = false }) else s

unfoldable pub open_only : List Peer → List Peer
open_only [] = []
open_only (p ∷ ps) = let rest = open_only ps in if p.closed then rest else p ∷ rest

-- Whether OnConnIdle closes the listener, once the closed connections are erased.
unfoldable pub closes_now : Life → Bool
closes_now s = s.shutdown_requested && (is_empty s.conns && (not s.drained && s.listening))

-- The part of OnConnIdle under the mutex.
unfoldable pub idle_locked : Life → Life
unfolding open_only closes_now
idle_locked s =
    let s' = record s { conns = open_only s.conns } in
    if closes_now s' then record s' { listening = false } else s'

unfoldable pub on_conn_idle : Life → Life
unfolding idle_locked close_listener
on_conn_idle s =
    let s' = with_lock idle_locked s in
    if not s'.blocked && closes_now (record s { conns = open_only s.conns })
    then close_listener s'
    else s'

-- The connections that have calls: Shutdown closes the others at once.
unfoldable pub in_flight : List Peer → List Peer
in_flight [] = []
in_flight (p ∷ ps) = let rest = in_flight ps in if is_empty p.conn.calls then rest else p ∷ rest

-- The part of the task of Shutdown under the mutex, which is all of it.
unfoldable pub shutdown_locked : Life → Life
unfolding in_flight close_listener
shutdown_locked s =
    let s' = record s { conns = in_flight s.conns } in
    if not (is_empty s'.conns)
    then record s' { grace_armed = true }
    else (if s.listening then close_listener (record s' { listening = false }) else set_drained s')

-- The task that Shutdown posts.
unfoldable pub shutdown_task : Life → Life
unfolding shutdown_locked with_lock
shutdown_task s = with_lock shutdown_locked s

-- Shutdown up to the wait: the task is posted once.
unfoldable pub shutdown : Life → Bool × Life
shutdown s =
    if not s.start_done || s.shutdown_requested
    then (false, s)
    else (true, record s { shutdown_requested = true })

module _ (user : User) (closes : Conn → Conn → Bool) where
  -- FireCancel for every call of a connection.
  unfoldable pub fire_all : List ℕ → Conn → Conn
  unfolding fire_cancel
  fire_all [] c = c
  fire_all (sid ∷ sids) c = fire_all sids (fire_cancel user sid c)

  -- The loop of FinishShutdown over the connections, under the mutex. `closes` says whether nghttp2, while
  -- it sends what the callbacks have handed to the session, closes a stream, so that OnStreamClose calls
  -- OnConnIdle. What else becomes of a connection is dropped, since all of them are cleared next.
  unfoldable pub cancel_conns : List Peer → Life → Life
  unfolding fire_all on_conn_idle keys
  cancel_conns [] s = s
  cancel_conns (p ∷ ps) s =
      let s' = if closes p.conn (fire_all (keys p.conn.calls) p.conn) then on_conn_idle s else s in
      if s'.blocked then s' else cancel_conns ps s'

  unfoldable pub finish_locked : Life → Life
  unfolding cancel_conns
  finish_locked s =
      if s.drained
      then s
      else (let s' = cancel_conns s.conns s in
          if s'.blocked
          then s'
          else (if s'.listening
              then record s' { conns = []; listening = false }
              else record s' { conns = []; drained = true }))

  -- FinishShutdown; it closes the listener once the mutex is free.
  unfoldable pub finish_shutdown : Life → Life
  unfolding finish_locked close_listener with_lock
  finish_shutdown s =
      let s' = with_lock finish_locked s in
      if not s'.blocked && (not s.drained && s.listening) then close_listener s' else s'

  -- The grace timer.
  unfoldable pub grace_over : Life → Life
  unfolding finish_shutdown
  grace_over s = if s.grace_armed then finish_shutdown (record s { grace_armed = false }) else s

-- Whether OnRead finds the connection closed already; a place where none stands counts as closed.
unfoldable pub closed_at : ℕ → List Peer → Bool
closed_at n [] = true
closed_at zero (p ∷ ps) = p.closed
closed_at (suc n) (p ∷ ps) = closed_at n ps

module _ (user : User) where
  -- `for (auto& [sid, call] : conn->calls)` of the read callback: a callback erases no call.
  unfoldable pub cancel_all : List ℕ → Conn → Conn
  cancel_all [] c = c
  cancel_all (sid ∷ sids) c = cancel_all sids (fire_cancel user sid (cancel_stream_io user sid c))

  unfoldable pub end_at : ℕ → List Peer → List Peer
  unfolding cancel_all keys
  end_at n [] = []
  end_at zero (p ∷ ps) =
      record p { conn = cancel_all (keys p.conn.calls) p.conn; closed = true } ∷ ps
  end_at (suc n) (p ∷ ps) = p ∷ end_at n ps

  -- OnRead with an error or an end, on the connection at a place in the list.
  unfoldable pub on_read_end : ℕ → Life → Life
  unfolding closed_at end_at on_conn_idle
  on_read_end n s =
      if closed_at n s.conns then s else on_conn_idle (record s { conns = end_at n s.conns })
