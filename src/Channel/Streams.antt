-- ===== src/Channel/Streams.antt =====
-- Streaming calls: Stream::Fail, CompleteStream, PumpStream, OpenStreamNow, StartPendingStreams and
-- the bodies that OpenStream, StreamSend and StreamCloseSend post, of
-- urpc/core/source/urpc_channel.cc.
use u_rpc.Prelude.{
  ℕ, Bool, true, false, not, ◌&&◌, ◌||◌, Option, none, some, List, [], ◌∷◌, ◌++◌, ◌==◌,
  if◌then◌else◌, ltb, leb, is_empty, is_some, length,
}
use u_rpc.Prelude.Str.{Str, codes}
use u_rpc.Prelude.Map.{find, insert, erase}
use u_rpc.Status.{
  Status, status, ok_status, unavailable, deadline_exceeded, internal, resource_exhausted,
}
use u_rpc.Codec.{new_decoder}
use u_rpc.Loop.{set_timer, post}
use u_rpc.Wire.{headers, body, reset}
use u_rpc.Channel.State.{
  State, idle, connecting, ready, broken, OutMsg, Stream, StreamEvents, PendingStream, Fired,
  Channel, complete, flushed, pump_stream, stream_timeout, fire, send, stopped, erase_sid, head_id,
  tail_ids,
}
use u_rpc.Channel.Calls.{request_headers, connect_now}

-- Every queued send is told the status, the front first.
unfoldable pub flush_all : List OutMsg → Status → Channel → Channel
flush_all [] st c = c
flush_all (m ∷ ms) st c = flush_all ms st (fire (flushed m.cb st) c)

-- Stream::Fail on a stream that stands in no map.
unfoldable pub fail_stream : ℕ → List OutMsg → StreamEvents → Status → Channel → Channel
unfolding flush_all
fail_stream id queue events st c = fire (complete id events.on_complete st) (flush_all queue st c)

abbrev pub put_stream : ℕ → Stream → Channel → Channel
put_stream id st c = record c { streams = insert id st c.streams }

-- CompleteStream on the stream that stands under `id`.
unfoldable pub complete_stream : ℕ → Stream → Status → Channel → Channel
unfolding fail_stream
complete_stream id st status c =
    if st.completed
    then c
    else fail_stream st.id st.out_queue st.events status (record c {
      loop = stopped st.timeout_timer c.loop;
      stream_by_sid = erase_sid st.sid c.stream_by_sid;
      streams =
          insert id (record st { completed = true; timeout_timer = 0; out_queue = [] }) c.streams;
    })

-- PumpStream past its guards: one message to the session, with the closure `on_consumed`.
unfoldable pub pump_front : ℕ → Stream → List OutMsg → Channel → Channel
pump_front id st [] c = c
pump_front id st (out ∷ rest) c =
    send (body st.sid out.framed out.close (some (record { owner = id; cb = out.cb }))) (
      put_stream id
        (record st {
          out_queue = rest;
          out_inflight = true;
          send_closed = st.send_closed || out.close;
        })
        c)

unfoldable pub run_pump : ℕ → Channel → Channel
unfolding pump_front
run_pump id c = elim (find id c.streams) [
  | none ↦ c
  | some st ↦
      if st.completed || (st.out_inflight || (st.sid == 0 || not c.has_session))
      then c
      else pump_front id st st.out_queue c
]

-- What PumpStream gives SendData to call when the body is consumed.
unfoldable pub on_consumed : ℕ → Option ℕ → Channel → Channel
on_consumed id cb c = elim (find id c.streams) [
  | none ↦ fire (flushed cb ok_status) c
  | some st ↦ fire (flushed cb ok_status) (
      put_stream id (record st { out_inflight = false })
        (record c { loop = post (some (pump_stream id)) c.loop }))
]

unfoldable pub any_close : List OutMsg → Bool
any_close [] = false
any_close (m ∷ ms) = m.close || any_close ms

-- `queue.back().close = true` on a queue that is not empty.
unfoldable pub close_last : List OutMsg → List OutMsg
close_last [] = []
close_last (m ∷ []) = record m { close = true } ∷ []
close_last (m ∷ n ∷ ms) = m ∷ close_last (n ∷ ms)

-- The queue that a stream starts with: if any parked message closes the stream, the last does.
unfoldable pub seeded : List OutMsg → List OutMsg
unfolding any_close close_last
seeded q = if any_close q then close_last q else q

-- OpenStreamNow by what SubmitRequestOpen answers.
unfoldable pub opened : Option ℕ → PendingStream → Channel → Channel
unfolding fail_stream seeded run_pump
opened none ps c =
    fail_stream ps.id ps.out_queue ps.events (status unavailable (codes "submit failed")) c
opened (some sid) ps c =
    let (timer, l) =
      if ltb 0 ps.timeout_ms
      then set_timer c.timer_init_ok (stream_timeout ps.id) c.loop
      else (0, c.loop) in
    let st : Stream = record {
      id = ps.id;
      sid = sid;
      timeout_timer = timer;
      decoder = new_decoder c.max_receive_size;
      events = ps.events;
      completed = false;
      send_closed = false;
      rst_pending = false;
      out_queue = seeded ps.out_queue;
      out_inflight = false;
    } in
    let c' = send (headers sid (request_headers ps.path c.address) false) c in
    run_pump ps.id (record c' {
      loop = l;
      stream_by_sid = insert sid ps.id c'.stream_by_sid;
      streams = insert ps.id st c'.streams;
    })

unfoldable pub open_stream_now : PendingStream → Channel → Channel
unfolding opened
open_stream_now ps c =
    opened (head_id c.session_ids) ps (record c { session_ids = tail_ids c.session_ids })

-- The loop of StartPendingStreams.
unfoldable pub start_streams : List PendingStream → Channel → Channel
unfolding open_stream_now
start_streams [] c = c
start_streams (ps ∷ pss) c = start_streams pss (open_stream_now ps c)

unfoldable pub start_pending_streams : Channel → Channel
unfolding start_streams
start_pending_streams c = start_streams c.pending_streams (record c { pending_streams = [] })

-- The timer of OpenStreamNow: the stream is reset, completed and erased.
unfoldable pub run_stream_timeout : ℕ → Channel → Channel
unfolding complete_stream
run_stream_timeout id c = elim (find id c.streams) [
  | none ↦ c
  | some st ↦
      if st.completed
      then c
      else (let s = record st { rst_pending = true } in
          let c1 =
            if not (s.sid == 0) && c.has_session
            then send (reset s.sid 0x8) (record c { stream_by_sid = erase s.sid c.stream_by_sid })
            else c in
          let c2 = complete_stream id s (status deadline_exceeded (codes "deadline exceeded")) c1 in
          record c2 { streams = erase id c2.streams })
]

-- The switch on the state in the body that OpenStream posts.
unfoldable pub enqueue_stream : State → PendingStream → Channel → Channel
unfolding open_stream_now
enqueue_stream ready ps c = open_stream_now ps c
enqueue_stream broken ps c =
    fire (complete ps.id ps.events.on_complete (status unavailable (codes "channel broken"))) c
enqueue_stream idle ps c = connect_now (record c { pending_streams = c.pending_streams ++ ps ∷ [] })
enqueue_stream connecting ps c = record c { pending_streams = c.pending_streams ++ ps ∷ [] }

-- The body that OpenStream posts; without on_complete it does nothing.
unfoldable pub run_open_stream : ℕ → Str → StreamEvents → ℕ → Channel → Channel
unfolding enqueue_stream
run_open_stream id path events timeout_ms c =
    if is_some events.on_complete
    then enqueue_stream c.state
        (record { id = id; path = path; events = events; timeout_ms = timeout_ms; out_queue = [] })
        c
    else c

abbrev pub queue_full : Status
queue_full = status resource_exhausted (codes "send queue full")

-- The search through `pending_streams`: whether the stream is parked there, and the sends that are
-- refused and the queue that results.
unfoldable pub park : ℕ → OutMsg → List PendingStream → Bool × List Fired × List PendingStream
park id m [] = (false, [], [])
park id m (ps ∷ pss) =
    let (parked, refused, rest) = park id m pss in
    if ps.id == id
    then (if leb 64 (length ps.out_queue)
        then (true, flushed m.cb queue_full ∷ [], ps ∷ pss)
        else (true, [], record ps { out_queue = ps.out_queue ++ m ∷ [] } ∷ pss))
    else (parked, refused, ps ∷ rest)

-- StreamSend when the stream is not open, or is complete.
unfoldable pub send_unopened : ℕ → OutMsg → Channel → Channel
unfolding park
send_unopened id m c =
    let (parked, refused, pss) = park id m c.pending_streams in
    if parked
    then record c { pending_streams = pss; fired = refused ++ c.fired }
    else fire (flushed m.cb (status unavailable (codes "stream closed"))) c

-- The body that StreamSend posts.
unfoldable pub run_send : ℕ → OutMsg → Channel → Channel
unfolding send_unopened run_pump
run_send id m c = elim (find id c.streams) [
  | none ↦ send_unopened id m c
  | some st ↦
      if st.completed
      then send_unopened id m c
      else (if st.send_closed
          then fire (flushed m.cb (status internal (codes "already closed"))) c
          else (if leb 64 (length st.out_queue)
              then fire (flushed m.cb queue_full) c
              else run_pump id
                  (put_stream id (record st { out_queue = st.out_queue ++ m ∷ [] }) c)))
]

-- StreamCloseSend on a parked stream: its last message closes, or an empty one is added.
unfoldable pub park_close : ℕ → List PendingStream → List PendingStream
unfolding close_last
park_close id [] = []
park_close id (ps ∷ pss) =
    let rest = park_close id pss in
    if ps.id == id
    then record ps {
      out_queue =
          if is_empty ps.out_queue
          then record { framed = []; close = true; cb = none } ∷ []
          else close_last ps.out_queue;
    }
      ∷ pss
    else ps ∷ rest

-- StreamCloseSend on an open stream.
unfoldable pub close_open : ℕ → Stream → Channel → Channel
unfolding close_last
close_open id st c =
    if st.send_closed
    then c
    else (if is_empty st.out_queue
        then (let c' = put_stream id (record st { send_closed = true }) c in
            if not (st.sid == 0) && c.has_session then send (body st.sid [] true none) c' else c')
        else put_stream id (record st { out_queue = close_last st.out_queue }) c)

-- The body that StreamCloseSend posts.
unfoldable pub run_close_send : ℕ → Channel → Channel
unfolding park_close close_open
run_close_send id c = elim (find id c.streams) [
  | none ↦ record c { pending_streams = park_close id c.pending_streams }
  | some st ↦
      if st.completed
      then record c { pending_streams = park_close id c.pending_streams }
      else close_open id st c
]
