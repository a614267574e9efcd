-- ===== src/Channel/Ledger/Session.antt =====
-- The books and what the session reports of streams (urpc/core/source/urpc_channel.cc).
use u_rpc.Prelude.{ℕ, Bool, Option, none, some, List, [], ◌∷◌, is_empty, if-keeps, option-keeps}
use u_rpc.Prelude.Str.{Str, codes}
use u_rpc.Prelude.Map.{Map, find}
use u_rpc.Status.{is_ok, ok_status}
use u_rpc.Codec.{consume}
use u_rpc.Loop.{Task}
use u_rpc.Wire.{Headers, field}
use u_rpc.Channel.State.{Call, Stream, PendingStream, message, Deferred, Channel, fire}
use u_rpc.Channel.Session.{
  stream_headers, terminal_status, is_200, bad_http, report_messages, stream_data,
  erase_stream_iterator, close_stream, with_stream_of, stream_closed, fail_streams, fail_parked,
  lost,
}
use u_rpc.Channel.Ledger.{Books}
use u_rpc.Channel.Ledger.Streams.{complete_stream-Books, fail_stream-Books}

module _ (E : ℕ → Bool) (ts : List (Task Deferred)) (held : List Call) where
  abbrev Kept : Channel → Type 0
  Kept = Books E ts held

  pub with_stream_of-Books :
      (id : ℕ) (c : Channel) (f : Stream → Channel)
      → Kept c
      → ((s : Stream) → Kept (f s))
      → Kept (with_stream_of id c f)
  with_stream_of-Books id c f h k =
      option-keeps Kept (find id c.streams) c _ h
        λ s _. if-keeps Kept s.completed c (f s) (λ _. h) (λ _. k s)

  pub stream_headers-Books :
      (id : ℕ) (s : Stream) (hs : Headers) (c : Channel) → Kept c → Kept (stream_headers id s hs c)
  unfolding stream_headers
  stream_headers-Books id s hs c h =
      option-keeps Kept (terminal_status hs) _ _
        (if-keeps Kept (is_200 (field (codes ":status") hs)) c _ (λ _. h)
          (λ _. complete_stream-Books E ts held id s bad_http c h))
        (λ st _. complete_stream-Books E ts held id s st c h)

  report_messages-Books :
      (id : ℕ) (cb : Option ℕ) (ms : List Str) (c : Channel)
      → Kept c
      → Kept (report_messages id cb ms c)
  unfolding report_messages
  report_messages-Books id cb [] c h = h
  report_messages-Books id cb (m ∷ ms) c h =
      report_messages-Books id cb ms (fire (message id cb ok_status m) c) h

  pub stream_data-Books :
      (id : ℕ) (s : Stream) (bytes : Str) (c : Channel) → Kept c → Kept (stream_data id s bytes c)
  unfolding stream_data
  stream_data-Books id s bytes c h =
      if-keeps Kept (is_empty bytes) c _ (λ _. h)
        λ _.
          let (st, d) = consume s.decoder bytes in
          if-keeps Kept (is_ok st) _ _
            (λ _. report_messages-Books id s.events.on_message d.messages _ h)
            (λ _. complete_stream-Books E ts held id (record s { decoder = d }) st c h)

  pub close_stream-Books :
      (o : Option ℕ) (sid : ℕ) (c : Channel) → Kept c → Kept (close_stream o sid c)
  unfolding close_stream
  close_stream-Books none sid c h = h
  close_stream-Books (some id) sid c h =
      unfold erase_stream_iterator in
      with_stream_of-Books id c _ h λ s.
        if-keeps Kept s.rst_pending c _ (λ _. h)
          (λ _. complete_stream-Books E ts held id s stream_closed c h)

  pub fail_streams-Books : (m : Map Stream) (c : Channel) → Kept c → Kept (fail_streams m c)
  unfolding fail_streams
  fail_streams-Books [] c h = h
  fail_streams-Books ((id, s) ∷ m) c h = fail_streams-Books m _ (
      if-keeps Kept s.completed c _ (λ _. h)
        (λ _. fail_stream-Books E ts held s.id s.out_queue s.events lost c h))

  pub fail_parked-Books :
      (pss : List PendingStream) (c : Channel) → Kept c → Kept (fail_parked pss c)
  unfolding fail_parked
  fail_parked-Books [] c h = h
  fail_parked-Books (ps ∷ pss) c h =
      fail_parked-Books pss _ (fail_stream-Books E ts held ps.id [] ps.events lost c h)
