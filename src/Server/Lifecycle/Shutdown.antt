-- ===== src/Server/Lifecycle/Shutdown.antt =====
-- How Shutdown ends (urpc/core/source/urpc_server.cc).
use mathlib.Core.Path.{subst}
use u_rpc.Prelude.{
  sym, ℕ, ◌≡◌, refl, ap, ◌∙◌, Bool, true, false, List, [], ◌∷◌, arith, if◌then◌else◌, All,
}
use u_rpc.Prelude.Map.{keys}
use u_rpc.Status.{Status, is_ok}
use u_rpc.Server.State.{Conn, User}
use u_rpc.Server.Lifecycle.{
  Peer, Life, accept, on_read_end, bound, listener_closed, in_flight, shutdown_task, fire_all,
  cancel_conns, grace_over,
}

-- What happens on the loop of a server. A loop thread that waits for a mutex runs nothing more.
pub data LifeEvent : Type 0 where
  accepts : Conn → LifeEvent
  read_ends : ℕ → LifeEvent
  shutdown_runs : LifeEvent
  grace_fires : LifeEvent
  close_callback : LifeEvent

module _ (user : User) (closes : Conn → Conn → Bool) where
  -- The cancellation callbacks of a connection make nghttp2 close none of its streams.
  abbrev pub IsQuiet : Peer → Type 0
  IsQuiet p = closes p.conn (fire_all user closes (keys p.conn.calls) p.conn) ≡ false

  cancel_conns_quiet :
      (ps : List Peer) (s : Life)
      → All IsQuiet ps
      → s.blocked ≡ false
      → cancel_conns user closes ps s ≡ s
  unfolding cancel_conns
  cancel_conns_quiet [] s h b = refl
  cancel_conns_quiet (p ∷ ps) s h b = ground (arith, h.0, cancel_conns_quiet ps s h.1 b)

  unfoldable pub on_event : LifeEvent → Life → Life
  unfolding accept on_read_end shutdown_task grace_over listener_closed
  on_event (accepts c) s = accept c s
  on_event (read_ends n) s = on_read_end user n s
  on_event shutdown_runs s = shutdown_task s
  on_event grace_fires s = grace_over user closes s
  on_event close_callback s = listener_closed s

  unfoldable pub life_step : LifeEvent → Life → Life
  unfolding on_event
  life_step e s = if s.blocked then s else on_event e s

  unfoldable pub life_run : List LifeEvent → Life → Life
  unfolding life_step
  life_run [] s = s
  life_run (e ∷ es) s = life_run es (life_step e s)

  blocked_stays : (es : List LifeEvent) (s : Life) → s.blocked ≡ true → life_run es s ≡ s
  unfolding life_run life_step
  blocked_stays [] s b = refl
  blocked_stays (e ∷ es) s b =
      let same : life_step e s ≡ s = rw b in ap (life_run es) same ∙ blocked_stays es s b

  -- A server that listens, whose loop goes on.
  abbrev up : Life → Life
  up s = record s {
    listening = true;
    listener_open = true;
    drained = false;
    locked = false;
    blocked = false;
  }

  -- The listener is being closed and no connection is left.
  abbrev closing : Life → Life
  closing s = record (up s) {
    conns = [];
    listening = false;
    listener_open = false;
    listener_closing = true;
  }

  shutdown_none : (s : Life) → in_flight s.conns ≡ [] → shutdown_task (up s) ≡ closing s
  unfolding shutdown_task
  shutdown_none s e = rw e

  shutdown_some :
      (s : Life) (p : Peer) (ps : List Peer)
      → in_flight s.conns ≡ p ∷ ps
      → shutdown_task (up s) ≡ record (up s) { conns = p ∷ ps; grace_armed = true }
  unfolding shutdown_task
  shutdown_some s p ps e = rw e

  grace_some :
      (s : Life) (ps : List Peer)
      → All IsQuiet ps
      → grace_over user closes (record (up s) { conns = ps; grace_armed = true })
        ≡ record (closing s) { grace_armed = false }
  unfolding grace_over
  grace_some s ps quiet = rw (
      cancel_conns_quiet ps (record (up s) { conns = ps; grace_armed = false; locked = true }) quiet
        refl)

  abbrev Drained : Life → Type 0
  Drained s = (s.drained ≡ true) × (s.conns ≡ []) × (s.blocked ≡ false)

  closing_drains :
      (s : Life) (armed : Bool)
      → Drained
          (listener_closed (grace_over user closes (record (closing s) { grace_armed = armed })))
  unfolding grace_over listener_closed cancel_conns
  closing_drains s true = (refl, refl, refl)
  closing_drains s false = (refl, refl, refl)

  up_drains :
      (s : Life) (q : List Peer)
      → in_flight s.conns ≡ q
      → All IsQuiet q
      → Drained (listener_closed (grace_over user closes (shutdown_task (up s))))
  unfolding listener_closed
  up_drains s [] e h =
      subst (λ t. Drained (listener_closed (grace_over user closes t))) (sym (shutdown_none s e))
        (closing_drains s s.grace_armed)
  up_drains s (p ∷ ps) e h =
      subst (λ t. Drained (listener_closed (grace_over user closes t)))
        (sym (shutdown_some s p ps e))
        (subst (λ t. Drained (listener_closed t)) (sym (grace_some s (p ∷ ps) h))
          (refl, refl, refl))

  none_in_flight : in_flight [] ≡ []
  unfolding in_flight
  none_in_flight = refl

  failed_blocks :
      (parsed : Bool) (st : Status) (s : Life)
      → is_ok st ≡ false
      → in_flight s.conns ≡ []
      → s.drained ≡ false
      → s.locked ≡ false
      → s.blocked ≡ false
      → let s' = shutdown_task (bound parsed st s) in (s'.blocked ≡ true) × (s'.drained ≡ false)
  unfolding shutdown_task bound
  failed_blocks parsed st s e n d k b = (rw (k, b, n, e), rw (k, b, n, e, d))

  -- A server that listens drains: once the task of Shutdown ran, the grace timer, where it was armed,
  -- fired, and the listener's close callback ran, the server is drained, has no connections, and waits
  -- for no mutex that it holds; where the cancellation callbacks, which FinishShutdown calls while it
  -- holds the mutex, make nghttp2 close no stream.
  pub shutdown_drains :
      (s : Life)
      → s.listening ≡ true
      → s.listener_open ≡ true
      → s.drained ≡ false
      → s.locked ≡ false
      → s.blocked ≡ false
      → All IsQuiet (in_flight s.conns)
      → let s' = listener_closed (grace_over user closes (shutdown_task s)) in
        (s'.drained ≡ true) × (s'.conns ≡ []) × (s'.blocked ≡ false)
  shutdown_drains s l o d k b quiet =
      let same : up s ≡ s = rw (l, o, d, k, b) in
      subst (λ t. Drained (listener_closed (grace_over user closes (shutdown_task t)))) same
        (up_drains s (in_flight s.conns) refl quiet)

  -- A server whose Start failed never shuts down: the task of Shutdown calls, while it holds the mutex,
  -- the function that takes it, and the loop waits for ever; whatever comes later, the server is not
  -- drained, so that Shutdown does not return. The server has no connection and is not drained.
  pub shutdown_blocks :
      (parsed : Bool) (st : Status) (s : Life) (es : List LifeEvent)
      → is_ok st ≡ false
      → s.conns ≡ []
      → s.drained ≡ false
      → s.locked ≡ false
      → s.blocked ≡ false
      → let s' = life_run es (shutdown_task (bound parsed st s)) in
        (s'.blocked ≡ true) × (s'.drained ≡ false)
  shutdown_blocks parsed st s es e n d k b =
      let stuck = failed_blocks parsed st s e (ap in_flight n ∙ none_in_flight) d k b in
      let still = blocked_stays es (shutdown_task (bound parsed st s)) stuck.0 in
      (ap (λ t. t.blocked) still ∙ stuck.0, ap (λ t. t.drained) still ∙ stuck.1)
