-- ===== src/Channel/Queues.antt =====
-- The queues of the streams of a channel, and the streaming operations of
-- urpc/core/source/urpc_channel.cc.
pub mod Calls
pub mod Events
use u_rpc.Prelude.{
  ℕ, zero, suc, ◌+◌, ◌≤◌, ◌<◌, ◌≡◌, refl, ap, Bool, true, false, not, ◌&&◌, ◌||◌, Option, none,
  some, List, [], ◌∷◌, ◌++◌, arith, if◌then◌else◌, ◌==◌, ltb, leb, length, length-append, is_empty,
  is_some, All, All-append, if-keeps, option-keeps,
}
use u_rpc.Prelude.Str.{Str, codes}
use u_rpc.Prelude.Map.{Map, find, insert, erase}
use u_rpc.Prelude.Map.Sorted.{All-insert, All-erase, All-find}
use u_rpc.Status.{Status, is_ok, ok_status}
use u_rpc.Codec.{FrameDecoder, consume}
use u_rpc.Wire.{Headers, field, reset}
use u_rpc.Channel.State.{
  State, idle, connecting, ready, broken, OutMsg, Stream, StreamEvents, PendingStream, Channel,
  message, flushed, fire, send, head_id, tail_ids,
}
use u_rpc.Channel.Streams.{
  flush_all, fail_stream, complete_stream, pump_front, run_pump, on_consumed, any_close, close_last,
  seeded, opened, open_stream_now, start_streams, start_pending_streams, run_stream_timeout,
  enqueue_stream, run_open_stream, park, send_unopened, run_send, park_close, close_open,
  run_close_send,
}
use u_rpc.Channel.Session.{
  stream_headers, terminal_status, is_200, bad_http, report_messages, stream_data, close_stream,
  erase_stream_iterator, with_stream_of, stream_closed, fail_streams, fail_parked, lost,
}

abbrev pub IsShort : List OutMsg → Type 0
IsShort q = length q ≤ 64

abbrev pub Open : ℕ × Stream → Type 0
Open (id, s) = IsShort s.out_queue

abbrev pub Parked : PendingStream → Type 0
Parked ps = IsShort ps.out_queue

-- Every queue of an open or a parked stream holds 64 messages at most.
abbrev pub HasShortQueues : Channel → Type 0
HasShortQueues c = All Open c.streams × All Parked c.pending_streams

abbrev pub Kept : Channel → Type 0
Kept = HasShortQueues

pub put-Kept :
    (id : ℕ) (s : Stream) (c : Channel)
    → IsShort s.out_queue
    → Kept c
    → Kept (record c { streams = insert id s c.streams })
put-Kept id s c l h = (All-insert Open id s c.streams l h.0, h.1)

length-close_last : (q : List OutMsg) → length (close_last q) ≡ length q
unfolding close_last
length-close_last [] = refl
length-close_last (m ∷ []) = refl
length-close_last (m ∷ n ∷ q) = ap suc (length-close_last (n ∷ q))

length-seeded : (q : List OutMsg) → length (seeded q) ≡ length q
unfolding seeded
length-seeded q = ground (arith, length-close_last q)

flush_all-Kept : (q : List OutMsg) (st : Status) (c : Channel) → Kept c → Kept (flush_all q st c)
unfolding flush_all
flush_all-Kept [] st c h = h
flush_all-Kept (m ∷ ms) st c h = flush_all-Kept ms st (fire (flushed m.cb st) c) h

pub fail_stream-Kept :
    (id : ℕ) (q : List OutMsg) (events : StreamEvents) (st : Status) (c : Channel)
    → Kept c
    → Kept (fail_stream id q events st c)
unfolding fail_stream
fail_stream-Kept id q events st c h = flush_all-Kept q st c h

pub complete_stream-Kept :
    (id : ℕ) (s : Stream) (st : Status) (c : Channel) → Kept c → Kept (complete_stream id s st c)
unfolding complete_stream
complete_stream-Kept id s st c h =
    if-keeps Kept s.completed c _ (λ _. h)
      λ _. fail_stream-Kept s.id s.out_queue s.events st _ (
        put-Kept id (record s { completed = true; timeout_timer = 0; out_queue = [] }) c
          (omega arith) h)

pump_front-Kept :
    (id : ℕ) (s : Stream) (q : List OutMsg) (c : Channel)
    → IsShort q
    → Kept c
    → Kept (pump_front id s q c)
unfolding pump_front
pump_front-Kept id s [] c l h = h
pump_front-Kept id s (out ∷ rest) c l h =
    put-Kept id
      (record s { out_queue = rest; out_inflight = true; send_closed = s.send_closed || out.close })
      c (omega arith) h

pub run_pump-Kept : (id : ℕ) (c : Channel) → Kept c → Kept (run_pump id c)
unfolding run_pump
run_pump-Kept id c h = option-keeps Kept (find id c.streams) c _ h λ s e.
    if-keeps Kept (s.completed || (s.out_inflight || (s.sid == 0 || not c.has_session))) c _
      (λ _. h) (λ _. pump_front-Kept id s s.out_queue c (All-find Open id s c.streams e h.0) h)

pub on_consumed-Kept : (id : ℕ) (cb : Option ℕ) (c : Channel) → Kept c → Kept (on_consumed id cb c)
unfolding on_consumed
on_consumed-Kept id cb c h =
    option-keeps Kept (find id c.streams) _ _ h λ s e.
      put-Kept id (record s { out_inflight = false }) c (All-find Open id s c.streams e h.0) h

opened-Kept :
    (o : Option ℕ) (ps : PendingStream) (c : Channel) → Parked ps → Kept c → Kept (opened o ps c)
unfolding opened
opened-Kept none ps c l h = fail_stream-Kept ps.id ps.out_queue ps.events _ c h
opened-Kept (some sid) ps c l h =
    run_pump-Kept ps.id _ (put-Kept ps.id _ c (omega (arith, length-seeded ps.out_queue)) h)

open_stream_now-Kept :
    (ps : PendingStream) (c : Channel) → Parked ps → Kept c → Kept (open_stream_now ps c)
unfolding open_stream_now
open_stream_now-Kept ps c l h =
    opened-Kept (head_id c.session_ids) ps (record c { session_ids = tail_ids c.session_ids }) l h

start_streams-Kept :
    (pss : List PendingStream) (c : Channel) → All Parked pss → Kept c → Kept (start_streams pss c)
unfolding start_streams
start_streams-Kept [] c l h = h
start_streams-Kept (ps ∷ pss) c l h = start_streams-Kept pss _ l.1 (open_stream_now-Kept ps c l.0 h)

pub start_pending_streams-Kept : (c : Channel) → Kept c → Kept (start_pending_streams c)
unfolding start_pending_streams
start_pending_streams-Kept c h =
    start_streams-Kept c.pending_streams (record c { pending_streams = [] }) h.1 (h.0, tt)

pub run_stream_timeout-Kept : (id : ℕ) (c : Channel) → Kept c → Kept (run_stream_timeout id c)
unfolding run_stream_timeout
run_stream_timeout-Kept id c h = option-keeps Kept (find id c.streams) c _ h λ s e.
    if-keeps Kept s.completed c _ (λ _. h)
      λ _.
        let c1 =
          if not (s.sid == 0) && c.has_session
          then send (reset s.sid 0x8) (record c { stream_by_sid = erase s.sid c.stream_by_sid })
          else c in
        let h1 : Kept c1 =
          if-keeps Kept (not (s.sid == 0) && c.has_session)
            (send (reset s.sid 0x8) (record c { stream_by_sid = erase s.sid c.stream_by_sid })) c
            (λ _. h) (λ _. h) in
        let (o, p) = complete_stream-Kept id (record s { rst_pending = true }) _ c1 h1 in
        (All-erase Open id _ o, p)

enqueue_stream-Kept :
    (s : State) (ps : PendingStream) (c : Channel)
    → Parked ps
    → Kept c
    → Kept (enqueue_stream s ps c)
unfolding enqueue_stream
enqueue_stream-Kept ready ps c l h = open_stream_now-Kept ps c l h
enqueue_stream-Kept broken ps c l h = h
enqueue_stream-Kept idle ps c l h = (h.0, All-append Parked c.pending_streams (ps ∷ []) h.1 (l, tt))
enqueue_stream-Kept connecting ps c l h =
    (h.0, All-append Parked c.pending_streams (ps ∷ []) h.1 (l, tt))

pub run_open_stream-Kept :
    (id : ℕ) (path : Str) (events : StreamEvents) (timeout_ms : ℕ) (c : Channel)
    → Kept c
    → Kept (run_open_stream id path events timeout_ms c)
unfolding run_open_stream
run_open_stream-Kept id path events timeout_ms c h =
    if-keeps Kept (is_some events.on_complete) _ c
      (λ _. enqueue_stream-Kept c.state _ c (omega arith) h) (λ _. h)

park-Parked :
    (id : ℕ) (m : OutMsg) (pss : List PendingStream) → All Parked pss → All Parked (park id m pss).2
unfolding park
park-Parked id m [] h = h
park-Parked id m (ps ∷ pss) h =
    ground (arith, park-Parked id m pss h.1, h.0, h.1, length-append ps.out_queue (m ∷ []))

send_unopened-Kept : (id : ℕ) (m : OutMsg) (c : Channel) → Kept c → Kept (send_unopened id m c)
unfolding send_unopened
send_unopened-Kept id m c h =
    if-keeps Kept (park id m c.pending_streams).0 _ _
      (λ _. (h.0, park-Parked id m c.pending_streams h.1)) (λ _. h)

pub run_send-Kept : (id : ℕ) (m : OutMsg) (c : Channel) → Kept c → Kept (run_send id m c)
unfolding run_send
run_send-Kept id m c h =
    option-keeps Kept (find id c.streams) _ _ (send_unopened-Kept id m c h) λ s e.
      if-keeps Kept s.completed _ _ (λ _. send_unopened-Kept id m c h)
        λ _.
          if-keeps Kept s.send_closed _ _ (λ _. h)
            λ _.
              if-keeps Kept (leb 64 (length s.out_queue)) _ _ (λ _. h)
                λ room. run_pump-Kept id _ (
                  put-Kept id (record s { out_queue = s.out_queue ++ m ∷ [] }) c
                    (ground (arith, room, length-append s.out_queue (m ∷ []))) h)

park_close-Parked :
    (id : ℕ) (pss : List PendingStream) → All Parked pss → All Parked (park_close id pss)
unfolding park_close
park_close-Parked id [] h = h
park_close-Parked id (ps ∷ pss) h =
    ground (arith, park_close-Parked id pss h.1, h.0, h.1, length-close_last ps.out_queue)

close_open-Kept :
    (id : ℕ) (s : Stream) (c : Channel) → IsShort s.out_queue → Kept c → Kept (close_open id s c)
unfolding close_open
close_open-Kept id s c l h =
    if-keeps Kept s.send_closed c _ (λ _. h)
      λ _.
        if-keeps Kept (is_empty s.out_queue) _ _
          (λ _.
            let k = put-Kept id (record s { send_closed = true }) c l h in
            if-keeps Kept (not (s.sid == 0) && c.has_session) _ _ (λ _. k) (λ _. k))
          (λ _.
            put-Kept id (record s { out_queue = close_last s.out_queue }) c
              (omega (arith, length-close_last s.out_queue)) h)

pub run_close_send-Kept : (id : ℕ) (c : Channel) → Kept c → Kept (run_close_send id c)
unfolding run_close_send
run_close_send-Kept id c h =
    option-keeps Kept (find id c.streams) _ _ (h.0, park_close-Parked id c.pending_streams h.1)
      λ s e.
        if-keeps Kept s.completed _ _ (λ _. (h.0, park_close-Parked id c.pending_streams h.1))
          (λ _. close_open-Kept id s c (All-find Open id s c.streams e h.0) h)
