-- ===== src/Session/Held.antt =====
-- What the callbacks that a session holds weigh: those of bodies that are not consumed, and those of
-- notifications that have not run. nghttp2's callbacks only move them, or drop them with a stream.
use u_rpc.Prelude.{ℕ, ◌+◌, ◌≤◌, ◌≡◌, true, false, Option, none, some, List, [], ◌∷◌, ◌++◌, arith}
use u_rpc.Session.{
  PendingBody, Session, on_header_cb, on_frame_recv_cb, on_data_chunk_cb, erase_bodies,
  on_stream_close_cb, send_cb2, copy_chunk, read_chunk, notes_of, read_body_at, body_read2, Upcall,
  headers_frame, data_frame, other_frame, header, frame_recv, data_chunk, stream_close, send_bytes,
  body_read, upcall, upcalls,
}
use u_rpc.Session.Flush.{write_out}

module _ (w : ℕ → ℕ) where
  abbrev pub weight : Option ℕ → ℕ
  weight none = 0
  weight (some k) = w k

  unfoldable pub weights : List ℕ → ℕ
  weights [] = 0
  weights (k ∷ ks) = w k + weights ks

  unfoldable pub bodies_weight : List PendingBody → ℕ
  bodies_weight [] = 0
  bodies_weight (b ∷ bs) = weight b.on_consumed + bodies_weight bs

  -- What the session holds.
  abbrev pub held : Session → ℕ
  held s = bodies_weight s.pending_bodies + weights s.consumed_notifications

  pub weights-append : (ks js : List ℕ) → weights (ks ++ js) ≡ weights ks + weights js
  unfolding weights
  weights-append [] js = omega arith
  weights-append (k ∷ ks) js = omega (arith, weights-append ks js)

  pub bodies_weight-append :
      (bs cs : List PendingBody) → bodies_weight (bs ++ cs) ≡ bodies_weight bs + bodies_weight cs
  unfolding bodies_weight
  bodies_weight-append [] cs = omega arith
  bodies_weight-append (b ∷ bs) cs = omega (arith, bodies_weight-append bs cs)

  erase_bodies-le :
      (sid : ℕ) (bs : List PendingBody) → bodies_weight (erase_bodies sid bs) ≤ bodies_weight bs
  unfolding erase_bodies bodies_weight
  erase_bodies-le sid [] = omega arith
  erase_bodies-le sid (b ∷ bs) = ground (arith, erase_bodies-le sid bs)

  -- A read moves the callback, and keeps it in one place.
  read_chunk-weight :
      (room : ℕ) (b : PendingBody)
      → weight (read_chunk room b).body.on_consumed + weights (notes_of (read_chunk room b).note)
        ≡ weight b.on_consumed
  unfolding read_chunk copy_chunk weights
  read_chunk-weight room b = ground arith

  read_body_at-weight :
      (address room : ℕ) (bs : List PendingBody)
      → bodies_weight (read_body_at address room bs).0 + weights (read_body_at address room bs).1
        ≡ bodies_weight bs
  unfolding read_body_at bodies_weight weights
  read_body_at-weight address room [] = omega arith
  read_body_at-weight address room (b ∷ bs) =
      ground (arith, read_chunk-weight room b, read_body_at-weight address room bs)

  pub upcall-held : (u : Upcall) (s : Session) → held (upcall u s) ≤ held s
  unfolding upcall on_header_cb on_frame_recv_cb on_data_chunk_cb on_stream_close_cb send_cb2
      body_read2
  upcall-held (header true sid name value) s = omega arith
  upcall-held (header false sid name value) s = omega arith
  upcall-held (frame_recv headers_frame sid end_stream) s = ground arith
  upcall-held (frame_recv data_frame sid end_stream) s = omega arith
  upcall-held (frame_recv other_frame sid end_stream) s = omega arith
  upcall-held (data_chunk sid bytes) s = omega arith
  upcall-held (stream_close sid code) s = omega (arith, erase_bodies-le sid s.pending_bodies)
  upcall-held (send_bytes bytes) s = omega arith
  upcall-held (body_read address room) s = omega (
    arith,
    read_body_at-weight address room s.pending_bodies,
    weights-append s.consumed_notifications (read_body_at address room s.pending_bodies).1,
  )

  pub upcalls-held : (us : List Upcall) (s : Session) → held (upcalls us s) ≤ held s
  unfolding upcalls
  upcalls-held [] s = omega arith
  upcalls-held (u ∷ us) s = omega (arith, upcall-held u s, upcalls-held us (upcall u s))

  pub write_out-held : (s : Session) → held (write_out s) ≡ held s
  unfolding write_out
  write_out-held s = ground arith
