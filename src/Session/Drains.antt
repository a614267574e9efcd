-- ===== src/Session/Drains.antt =====
-- The loop of FlushOut ends: where the code of a notification hands over callbacks that weigh less
-- than the notification itself, each round makes what the session holds lighter.
use u_rpc.Prelude.{
  ℕ, zero, suc, ◌+◌, ◌-◌, ◌≤◌, ◌<◌, ◌≡◌, refl, ◌∙◌, ap, true, false, some, List, [], ◌∷◌, arith,
  length,
}
use u_rpc.Session.{
  Session, Upcall, upcalls, upcall, on_header_cb, on_frame_recv_cb, on_data_chunk_cb,
  on_stream_close_cb, send_cb2, body_read2, headers_frame, data_frame, other_frame, header,
  frame_recv, data_chunk, stream_close, send_bytes, body_read,
}
use u_rpc.Session.Flush.{
  Op, send_headers, send_data, send_trailers, reset_stream, submit, write_out, session_send,
  flush_inner, run_ops, run_notes, drain_round, drain, deeper, flush_out,
}
use u_rpc.Session.Held.{
  weight, weights, bodies_weight, held, bodies_weight-append, upcalls-held, write_out-held,
}

abbrev pub op_weight : (ℕ → ℕ) → Op → ℕ
op_weight w (send_headers sid fields end_stream) = 0
op_weight w (send_data sid bytes end_stream cb) = weight w cb
op_weight w (send_trailers sid fields) = 0
op_weight w (reset_stream sid code) = 0

-- What a list of Send calls hands over.
unfoldable pub ops_weight : (ℕ → ℕ) → List Op → ℕ
ops_weight w [] = 0
ops_weight w (o ∷ os) = op_weight w o + ops_weight w os

pub submit-held :
    (w : ℕ → ℕ) (o : Op) (s : Session) → held w (submit o s) ≤ held w s + op_weight w o
unfolding submit bodies_weight
submit-held w (send_headers sid fields end_stream) s = omega arith
submit-held w (send_data sid bytes end_stream cb) s = omega (
  arith,
  bodies_weight-append w s.pending_bodies (
      (record {
        stream = sid;
        address = s.next_address;
        content = bytes;
        offset = 0;
        on_consumed = cb;
      })
      ∷ []),
)
submit-held w (send_trailers sid fields) s = omega arith
submit-held w (reset_stream sid code) s = omega arith

upcall-depth : (u : Upcall) (s : Session) → (upcall u s).flush_depth ≡ s.flush_depth
unfolding upcall on_header_cb on_frame_recv_cb on_data_chunk_cb on_stream_close_cb send_cb2
    body_read2
upcall-depth (header true sid name value) s = refl
upcall-depth (header false sid name value) s = refl
upcall-depth (frame_recv headers_frame sid end_stream) s = ground arith
upcall-depth (frame_recv data_frame sid end_stream) s = refl
upcall-depth (frame_recv other_frame sid end_stream) s = refl
upcall-depth (data_chunk sid bytes) s = refl
upcall-depth (stream_close sid code) s = refl
upcall-depth (send_bytes bytes) s = refl
upcall-depth (body_read address room) s = refl

pub upcalls-depth : (us : List Upcall) (s : Session) → (upcalls us s).flush_depth ≡ s.flush_depth
unfolding upcalls
upcalls-depth [] s = refl
upcalls-depth (u ∷ us) s = upcalls-depth us (upcall u s) ∙ upcall-depth u s

write_out_lem :
    (s : Session)
    → ((write_out s).out ≡ [])
      × ((write_out s).consumed_notifications ≡ s.consumed_notifications)
      × ((write_out s).flush_depth ≡ s.flush_depth)
unfolding write_out
write_out_lem s = empty_or s.out refl
  where
    empty_or :
        (bytes : List ℕ)
        → s.out ≡ bytes
        → ((write_out s).out ≡ [])
          × ((write_out s).consumed_notifications ≡ s.consumed_notifications)
          × ((write_out s).flush_depth ≡ s.flush_depth)
    empty_or [] e = (ground arith, ground arith, ground arith)
    empty_or (b ∷ bs) e = (ground arith, ground arith, ground arith)

submit-depth : (o : Op) (s : Session) → (submit o s).flush_depth ≡ s.flush_depth
unfolding submit
submit-depth (send_headers sid fields end_stream) s = refl
submit-depth (send_data sid bytes end_stream cb) s = refl
submit-depth (send_trailers sid fields) s = refl
submit-depth (reset_stream sid code) s = refl

module _ (library : Session → List Upcall) (reply : ℕ → List Op) where
  flush_inner-depth : (s : Session) → (flush_inner library s).flush_depth ≡ s.flush_depth
  unfolding flush_inner session_send
  flush_inner-depth s = (write_out_lem (upcalls (library s) s)).2 ∙ upcalls-depth (library s) s

  run_ops-depth : (os : List Op) (s : Session) → (run_ops library os s).flush_depth ≡ s.flush_depth
  unfolding run_ops
  run_ops-depth [] s = refl
  run_ops-depth (o ∷ os) s =
      run_ops-depth os (flush_inner library (submit o s))
      ∙ (flush_inner-depth (submit o s) ∙ submit-depth o s)

  run_notes-depth :
      (ks : List ℕ) (s : Session) → (run_notes library reply ks s).flush_depth ≡ s.flush_depth
  unfolding run_notes
  run_notes-depth [] s = refl
  run_notes-depth (k ∷ ks) s =
      run_notes-depth ks (run_ops library (reply k) (record s { ran = k ∷ s.ran }))
      ∙ run_ops-depth (reply k) (record s { ran = k ∷ s.ran })

  drain_round-depth : (s : Session) → (drain_round library reply s).flush_depth ≡ s.flush_depth
  unfolding drain_round session_send
  drain_round-depth s =
      let s' =
        run_notes library reply s.consumed_notifications
          (record s { consumed_notifications = [] }) in
      upcalls-depth (library s') s'
      ∙ run_notes-depth s.consumed_notifications (record s { consumed_notifications = [] })

  -- A FlushOut inside another drains nothing: it is what `run_ops` does behind each submit.
  pub flush_out_inner :
      (fuel depth : ℕ) (s : Session)
      → s.flush_depth ≡ suc depth
      → flush_out library reply fuel s ≡ some (flush_inner library s)
  unfolding flush_out flush_inner session_send
  flush_out_inner fuel depth s h = ground (arith, upcalls-depth (library s) s)

  module _ (w : ℕ → ℕ) where
    flush_inner-held : (s : Session) → held w (flush_inner library s) ≤ held w s
    unfolding flush_inner session_send
    flush_inner-held s =
        omega (arith, write_out-held w (upcalls (library s) s), upcalls-held w (library s) s)

    pub run_ops-held :
        (os : List Op) (s : Session) → held w (run_ops library os s) ≤ held w s + ops_weight w os
    unfolding run_ops ops_weight
    run_ops-held [] s = omega arith
    run_ops-held (o ∷ os) s = omega (
      arith,
      run_ops-held os (flush_inner library (submit o s)),
      flush_inner-held (submit o s),
      submit-held w o s,
    )

    module _ (lighter : (k : ℕ) → ops_weight w (reply k) < w k) where
      run_notes-held :
          (ks : List ℕ) (s : Session)
          → held w (run_notes library reply ks s) + length ks ≤ held w s + weights w ks
      unfolding run_notes weights
      run_notes-held [] s = omega arith
      run_notes-held (k ∷ ks) s = omega (
        arith,
        run_notes-held ks (run_ops library (reply k) (record s { ran = k ∷ s.ran })),
        run_ops-held (reply k) (record s { ran = k ∷ s.ran }),
        lighter k,
      )

      drain_round-held :
          (s : Session)
          → held w (drain_round library reply s) + length s.consumed_notifications ≤ held w s
      unfolding drain_round session_send weights
      drain_round-held s =
          let s' =
            run_notes library reply s.consumed_notifications
              (record s { consumed_notifications = [] }) in
          omega (
            arith,
            upcalls-held w (library s') s',
            run_notes-held s.consumed_notifications (record s { consumed_notifications = [] }),
          )

      -- With more fuel than what is held the loop ends, by its test.
      drain_total :
          (fuel : ℕ) (s : Session)
          → held w s < fuel
          → (s' : Session) × (drain library reply fuel s ≡ some s')
            × (s'.consumed_notifications ≡ [])
            × (s'.flush_depth ≡ s.flush_depth)
      unfolding drain
      drain_total zero s h = absurd (omega arith)
      drain_total (suc fuel) s h = next (drain_total fuel) s.consumed_notifications refl
        where
          next :
              ((t : Session)
                → held w t < fuel
                → (s' : Session) × (drain library reply fuel t ≡ some s')
                  × (s'.consumed_notifications ≡ [])
                  × (s'.flush_depth ≡ t.flush_depth))
              → (notes : List ℕ) → s.consumed_notifications ≡ notes
              → (s' : Session) × (drain library reply (suc fuel) s ≡ some s')
                × (s'.consumed_notifications ≡ [])
                × (s'.flush_depth ≡ s.flush_depth)
          next ih [] e = (s, ground arith, e, refl)
          next ih (k ∷ ks) e =
              let n : length s.consumed_notifications ≡ suc (length ks) = ap length e in
              let (s', r, done, depth) =
                ih (drain_round library reply s) (omega (arith, drain_round-held s)) in
              (s', ground arith, done, depth ∙ drain_round-depth s)

      -- FlushOut comes back, whatever nghttp2 does while it sends, where the code of each notification
      -- hands over less than the notification weighs and the fuel passes what is held: with no
      -- notification and no byte left, and outside every FlushOut again.
      pub flush_out_drains :
          (fuel : ℕ) (s : Session)
          → held w s < fuel
          → s.flush_depth ≡ 0
          → (s' : Session) × (flush_out library reply fuel s ≡ some s')
            × (s'.consumed_notifications ≡ [])
            × (s'.out ≡ [])
            × (s'.flush_depth ≡ 0)
      unfolding flush_out session_send
      flush_out_drains fuel s h z =
          let sent = upcalls (library s) s in
          let z' : sent.flush_depth ≡ 0 = upcalls-depth (library s) s ∙ z in
          let (t, r, done, depth) =
            drain_total fuel (deeper sent) (omega (arith, upcalls-held w (library s) s)) in
          let t' : Session = record t { flush_depth = t.flush_depth - 1 } in
          let (wrote, same, flat) = write_out_lem t' in
          (write_out t', ground arith, same ∙ done, wrote, flat ∙ omega arith)
