-- ===== src/Session.antt =====
-- H2Session of urpc/core/source/urpc_h2_session.cc: its state, and what its callbacks do when
-- nghttp2 calls them. A body is known to nghttp2 by its address, here a number; what nghttp2 is
-- told, and what the handler is told, are logs, newest first.
pub mod Flush
pub mod Intake
pub mod Bodies
pub mod Held
pub mod Drains
pub mod Accounts
use u_rpc.Prelude.{
  ℕ, suc, ◌+◌, ◌-◌, Bool, true, false, not, ◌&&◌, Option, none, some, List, [], ◌∷◌, ◌++◌, ◌==◌,
  if◌then◌else◌, ltb, length, take, drop, is_empty,
}
use u_rpc.Prelude.Str.{Str, str_eq}
use u_rpc.Prelude.Map.{Map, find, insert, erase}
use u_rpc.Wire.{Headers}

-- A body that is submitted, under its stream.
pub record PendingBody : Type 0 where
  pub stream : ℕ
  pub address : ℕ
  pub content : Str
  pub offset : ℕ
  pub on_consumed : Option ℕ

-- What the handler of the session is told.
pub data HandlerCall : Type 0 where
  on_headers_complete : ℕ → Headers → Bool → HandlerCall
  on_data : ℕ → Str → Bool → HandlerCall
  on_stream_close : ℕ → ℕ → HandlerCall
  on_write : Str → HandlerCall

-- What nghttp2 is told to submit.
pub data Submit : Type 0 where
  settings : Submit
  request : Headers → Bool → Submit
  submit_headers : ℕ → Headers → Bool → Submit
  submit_data : ℕ → ℕ → Option ℕ → Bool → Submit
  submit_trailer : ℕ → Headers → Submit
  submit_rst_stream : ℕ → ℕ → Submit

-- H2Session::Impl. The bodies of all streams stand in one list, oldest first.
pub record Session : Type 0 where
  pub out : Str
  pub pending_headers : Map Headers
  pub pending_bodies : List PendingBody
  pub next_address : ℕ
  pub consumed_notifications : List ℕ
  pub flush_depth : ℕ
  pub submits : List Submit
  pub told : List HandlerCall
  pub ran : List ℕ

-- H2Session::H2Session submits the SETTINGS frame.
unfoldable pub new_session : Session
new_session = record {
  out = [];
  pending_headers = [];
  pending_bodies = [];
  next_address = 0;
  consumed_notifications = [];
  flush_depth = 0;
  submits = settings ∷ [];
  told = [];
  ran = [];
}

abbrev pub tell : HandlerCall → Session → Session
tell call s = record s { told = call ∷ s.told }

-- `headers[name] = value` of a std::map.
unfoldable pub set_field : Str → Str → Headers → Headers
set_field name value [] = (name, value) ∷ []
set_field name value ((n, v) ∷ h) =
    if str_eq n name then (name, value) ∷ h else (n, v) ∷ set_field name value h

-- `pending_headers[sid]`, which makes an empty map where there is none.
abbrev pub headers_at : Option Headers → Headers
headers_at none = []
headers_at (some h) = h

-- OnHeaderCb; the flag says that the frame is of type HEADERS.
unfoldable pub on_header_cb : Bool → ℕ → Str → Str → Session → Session
unfolding set_field
on_header_cb false sid name value s = s
on_header_cb true sid name value s = record s {
  pending_headers =
      insert sid (set_field name value (headers_at (find sid s.pending_headers))) s.pending_headers;
}

-- The types of frames that OnFrameRecvCb tells apart.
pub data FrameType : Type 0 where
  headers_frame data_frame other_frame : FrameType

-- OnFrameRecvCb
unfoldable pub on_frame_recv_cb : FrameType → ℕ → Bool → Session → Session
on_frame_recv_cb headers_frame sid end_stream s = elim (find sid s.pending_headers) [
  | none ↦ s
  | some headers ↦
      tell (on_headers_complete sid headers end_stream)
        (record s { pending_headers = erase sid s.pending_headers })
]
on_frame_recv_cb data_frame sid end_stream s = tell (on_data sid [] end_stream) s
on_frame_recv_cb other_frame sid end_stream s = s

-- OnDataChunkCb
unfoldable pub on_data_chunk_cb : ℕ → Str → Session → Session
on_data_chunk_cb sid bytes s = tell (on_data sid bytes false) s

-- `pending_bodies.erase(stream_id)`
unfoldable pub erase_bodies : ℕ → List PendingBody → List PendingBody
erase_bodies sid [] = []
erase_bodies sid (b ∷ bs) =
    let rest = erase_bodies sid bs in if b.stream == sid then rest else b ∷ rest

-- OnStreamCloseCb
unfoldable pub on_stream_close_cb : ℕ → ℕ → Session → Session
unfolding erase_bodies
on_stream_close_cb sid code s = tell (on_stream_close sid code) (record s {
  pending_headers = erase sid s.pending_headers;
  pending_bodies = erase_bodies sid s.pending_bodies;
})

-- SendCb2
unfoldable pub send_cb2 : Str → Session → Session
send_cb2 bytes s = record s { out = s.out ++ bytes }

-- What one call of BodyRead2 does with a body: the bytes it copies, whether it sets EOF, and the
-- callback that it moves to the notifications.
pub record Chunk : Type 0 where
  pub bytes : Str
  pub eof : Bool
  pub note : Option ℕ
  pub body : PendingBody

abbrev pub remaining : PendingBody → ℕ
remaining b = length b.content - b.offset

-- At the end of the body: EOF, and the callback moves out.
abbrev pub at_end : Str → PendingBody → Chunk
at_end bytes b = record {
  bytes = bytes;
  eof = true;
  note = b.on_consumed;
  body = record b { on_consumed = none };
}

abbrev pub chunk_size : ℕ → PendingBody → ℕ
chunk_size room b = if ltb (remaining b) room then remaining b else room

-- The part of BodyRead2 behind the test of `remaining`.
unfoldable pub copy_chunk : ℕ → PendingBody → Chunk
copy_chunk n b =
    let bytes = take n (drop b.offset b.content) in
    let b' = record b { offset = b.offset + n } in
    if b.offset + n == length b.content
    then at_end bytes b'
    else record { bytes = bytes; eof = false; note = none; body = b' }

-- BodyRead2 on the body that its source points at.
unfoldable pub read_chunk : ℕ → PendingBody → Chunk
unfolding copy_chunk
read_chunk room b = if remaining b == 0 then at_end [] b else copy_chunk (chunk_size room b) b

abbrev pub notes_of : Option ℕ → List ℕ
notes_of none = []
notes_of (some k) = k ∷ []

-- BodyRead2 by address: the bodies after it, and what it adds to the notifications. An address that
-- is not there is a body that was freed; nghttp2 does not read the bodies of a closed stream.
unfoldable pub read_body_at : ℕ → ℕ → List PendingBody → List PendingBody × List ℕ
unfolding read_chunk
read_body_at address room [] = ([], [])
read_body_at address room (b ∷ bs) =
    let (bs', notes) = read_body_at address room bs in
    if b.address == address
    then ((read_chunk room b).body ∷ bs, notes_of (read_chunk room b).note)
    else (b ∷ bs', notes)

unfoldable pub body_read2 : ℕ → ℕ → Session → Session
unfolding read_body_at
body_read2 address room s =
    let (bodies, notes) = read_body_at address room s.pending_bodies in
    record s { pending_bodies = bodies; consumed_notifications = s.consumed_notifications ++ notes }

-- A callback that nghttp2 makes.
pub data Upcall : Type 0 where
  header : Bool → ℕ → Str → Str → Upcall
  frame_recv : FrameType → ℕ → Bool → Upcall
  data_chunk : ℕ → Str → Upcall
  stream_close : ℕ → ℕ → Upcall
  send_bytes : Str → Upcall
  body_read : ℕ → ℕ → Upcall

unfoldable pub upcall : Upcall → Session → Session
unfolding on_header_cb on_frame_recv_cb on_data_chunk_cb on_stream_close_cb send_cb2 body_read2
upcall (header is_headers sid name value) s = on_header_cb is_headers sid name value s
upcall (frame_recv type sid end_stream) s = on_frame_recv_cb type sid end_stream s
upcall (data_chunk sid bytes) s = on_data_chunk_cb sid bytes s
upcall (stream_close sid code) s = on_stream_close_cb sid code s
upcall (send_bytes bytes) s = send_cb2 bytes s
upcall (body_read address room) s = body_read2 address room s

unfoldable pub upcalls : List Upcall → Session → Session
unfolding upcall
upcalls [] s = s
upcalls (u ∷ us) s = upcalls us (upcall u s)
