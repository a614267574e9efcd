-- ===== src/Channel/Ledger/Streams.antt =====
-- The books and the streaming operations of urpc/core/source/urpc_channel.cc.
use u_rpc.Prelude.{
  ℕ, ◌≡◌, refl, Bool, true, not, ◌&&◌, ◌||◌, Option, none, some, List, [], ◌∷◌, ◌++◌, arith,
  if◌then◌else◌, ◌==◌, ltb, leb, length, is_empty, is_some, if-keeps, option-keeps,
}
use u_rpc.Prelude.Str.{Str}
use u_rpc.Prelude.Map.{find, erase}
use u_rpc.Status.{Status}
use u_rpc.Loop.{Task, post, set_timer}
use u_rpc.Wire.{reset}
use u_rpc.Channel.State.{
  Call, OutMsg, Stream, StreamEvents, PendingStream, State, idle, connecting, ready, broken, Fired,
  flushed, Deferred, pump_stream, stream_timeout, Channel, stopped, fire, head_id, tail_ids, send,
}
use u_rpc.Channel.Streams.{
  flush_all, fail_stream, complete_stream, pump_front, run_pump, on_consumed, opened,
  open_stream_now, start_streams, start_pending_streams, run_stream_timeout, enqueue_stream,
  run_open_stream, park, send_unopened, run_send, close_open, run_close_send,
}
use u_rpc.Channel.Ledger.{Books, answered, stopped-keeps, timed-keeps, loop-Books, post-keeps}

-- What a search through the parked streams adds to the log is no call of `done`.
park_silent :
    (k id : ℕ) (m : OutMsg) (pss : List PendingStream) (fs : List Fired)
    → answered k ((park id m pss).1 ++ fs) ≡ answered k fs
unfolding park
park_silent k id m [] fs = refl
park_silent k id m (ps ∷ pss) fs = ground (arith, park_silent k id m pss fs)

module _ (E : ℕ → Bool) (ts : List (Task Deferred)) (held : List Call) where
  abbrev Kept : Channel → Type 0
  Kept = Books E ts held

  flush_all-Books : (q : List OutMsg) (st : Status) (c : Channel) → Kept c → Kept (flush_all q st c)
  unfolding flush_all
  flush_all-Books [] st c h = h
  flush_all-Books (m ∷ ms) st c h = flush_all-Books ms st (fire (flushed m.cb st) c) h

  pub fail_stream-Books :
      (id : ℕ) (q : List OutMsg) (events : StreamEvents) (st : Status) (c : Channel)
      → Kept c
      → Kept (fail_stream id q events st c)
  unfolding fail_stream
  fail_stream-Books id q events st c h = flush_all-Books q st c h

  pub complete_stream-Books :
      (id : ℕ) (s : Stream) (st : Status) (c : Channel) → Kept c → Kept (complete_stream id s st c)
  unfolding complete_stream
  complete_stream-Books id s st c h =
      if-keeps Kept s.completed c _ (λ _. h)
        λ _. fail_stream-Books s.id s.out_queue s.events st _ (
          loop-Books E ts held (stopped s.timeout_timer c.loop) c
            (stopped-keeps s.timeout_timer c.loop) h)

  pump_front-Books :
      (id : ℕ) (s : Stream) (q : List OutMsg) (c : Channel) → Kept c → Kept (pump_front id s q c)
  unfolding pump_front
  pump_front-Books id s [] c h = h
  pump_front-Books id s (out ∷ rest) c h = h

  pub run_pump-Books : (id : ℕ) (c : Channel) → Kept c → Kept (run_pump id c)
  unfolding run_pump
  run_pump-Books id c h = option-keeps Kept (find id c.streams) c _ h λ s _.
      if-keeps Kept (s.completed || (s.out_inflight || (s.sid == 0 || not c.has_session))) c _
        (λ _. h) (λ _. pump_front-Books id s s.out_queue c h)

  pub on_consumed-Books :
      (id : ℕ) (cb : Option ℕ) (c : Channel) → Kept c → Kept (on_consumed id cb c)
  unfolding on_consumed
  on_consumed-Books id cb c h = option-keeps Kept (find id c.streams) _ _ h λ s _.
      loop-Books E ts held (post (some (pump_stream id)) c.loop) c
        (post-keeps (pump_stream id) c.loop (λ k. refl)) h

  opened-Books : (o : Option ℕ) (ps : PendingStream) (c : Channel) → Kept c → Kept (opened o ps c)
  unfolding opened
  opened-Books none ps c h = fail_stream-Books ps.id ps.out_queue ps.events _ c h
  opened-Books (some sid) ps c h =
      let (timer, l) =
        if ltb 0 ps.timeout_ms
        then set_timer c.timer_init_ok (stream_timeout ps.id) c.loop
        else (0, c.loop) in
      run_pump-Books ps.id _ (
        loop-Books E ts held l c
          (timed-keeps (ltb 0 ps.timeout_ms) c.timer_init_ok (stream_timeout ps.id) c.loop
            (λ k. refl))
          h)

  open_stream_now-Books : (ps : PendingStream) (c : Channel) → Kept c → Kept (open_stream_now ps c)
  unfolding open_stream_now
  open_stream_now-Books ps c h =
      opened-Books (head_id c.session_ids) ps (record c { session_ids = tail_ids c.session_ids }) h

  start_streams-Books :
      (pss : List PendingStream) (c : Channel) → Kept c → Kept (start_streams pss c)
  unfolding start_streams
  start_streams-Books [] c h = h
  start_streams-Books (ps ∷ pss) c h = start_streams-Books pss _ (open_stream_now-Books ps c h)

  pub start_pending_streams-Books : (c : Channel) → Kept c → Kept (start_pending_streams c)
  unfolding start_pending_streams
  start_pending_streams-Books c h =
      start_streams-Books c.pending_streams (record c { pending_streams = [] }) h

  pub run_stream_timeout-Books : (id : ℕ) (c : Channel) → Kept c → Kept (run_stream_timeout id c)
  unfolding run_stream_timeout
  run_stream_timeout-Books id c h = option-keeps Kept (find id c.streams) c _ h λ s _.
      if-keeps Kept s.completed c _ (λ _. h)
        λ _.
          complete_stream-Books id (record s { rst_pending = true }) _ _
            (if-keeps Kept (not (s.sid == 0) && c.has_session)
              (send (reset s.sid 0x8) (record c { stream_by_sid = erase s.sid c.stream_by_sid })) c
              (λ _. h) (λ _. h))

  enqueue_stream-Books :
      (s : State) (ps : PendingStream) (c : Channel) → Kept c → Kept (enqueue_stream s ps c)
  unfolding enqueue_stream
  enqueue_stream-Books ready ps c h = open_stream_now-Books ps c h
  enqueue_stream-Books broken ps c h = h
  enqueue_stream-Books idle ps c h = h
  enqueue_stream-Books connecting ps c h = h

  pub run_open_stream-Books :
      (id : ℕ) (path : Str) (events : StreamEvents) (timeout_ms : ℕ) (c : Channel)
      → Kept c
      → Kept (run_open_stream id path events timeout_ms c)
  unfolding run_open_stream
  run_open_stream-Books id path events timeout_ms c h =
      if-keeps Kept (is_some events.on_complete) _ c (λ _. enqueue_stream-Books c.state _ c h)
        (λ _. h)

  send_unopened-Books : (id : ℕ) (m : OutMsg) (c : Channel) → Kept c → Kept (send_unopened id m c)
  unfolding send_unopened
  send_unopened-Books id m c h =
      let (parked, refused, pss) = park id m c.pending_streams in
      if-keeps Kept parked (record c { pending_streams = pss; fired = refused ++ c.fired }) _
        (λ _. told refused (λ k. park_silent k id m c.pending_streams c.fired)) (λ _. h)
    where
      told :
          (refused : List Fired)
          → ((k : ℕ) → answered k (refused ++ c.fired) ≡ answered k c.fired)
          → Kept (record c { fired = refused ++ c.fired })
      told refused e =
          let (sums, ahead, sorted, keyed, waiting, timers, opens) = h in
          ((λ k. omega (arith, e k, sums k)), ahead, sorted, keyed, waiting, timers, opens)

  pub run_send-Books : (id : ℕ) (m : OutMsg) (c : Channel) → Kept c → Kept (run_send id m c)
  unfolding run_send
  run_send-Books id m c h =
      option-keeps Kept (find id c.streams) _ _ (send_unopened-Books id m c h) λ s _.
        if-keeps Kept s.completed _ _ (λ _. send_unopened-Books id m c h)
          λ _.
            if-keeps Kept s.send_closed _ _ (λ _. h)
              λ _.
                if-keeps Kept (leb 64 (length s.out_queue)) _ _ (λ _. h)
                  (λ _. run_pump-Books id _ h)

  close_open-Books : (id : ℕ) (s : Stream) (c : Channel) → Kept c → Kept (close_open id s c)
  unfolding close_open
  close_open-Books id s c h =
      if-keeps Kept s.send_closed c _ (λ _. h)
        λ _.
          if-keeps Kept (is_empty s.out_queue) _ _
            (λ _. if-keeps Kept (not (s.sid == 0) && c.has_session) _ _ (λ _. h) (λ _. h)) (λ _. h)

  pub run_close_send-Books : (id : ℕ) (c : Channel) → Kept c → Kept (run_close_send id c)
  unfolding run_close_send
  run_close_send-Books id c h =
      option-keeps Kept (find id c.streams) _ _ h
        λ s _. if-keeps Kept s.completed _ _ (λ _. h) (λ _. close_open-Books id s c h)
