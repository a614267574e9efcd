-- ===== src/Server/Unary.antt =====
-- A unary request from its DATA bytes to its handler: OnData and FinishRequest of
-- urpc/core/source/urpc_server.cc over the decoder of urpc/core/source/urpc_codec.cpp.
use u_rpc.Prelude.{
  ℕ, ◌≡◌, refl, ap, ◌∙◌, true, false, not, none, some, List, [], ◌∷◌, ◌++◌, arith, if◌then◌else◌,
  is_empty, All,
}
use u_rpc.Prelude.Str.{Str, codes}
use u_rpc.Prelude.Map.{find, insert, find-insert_self}
use u_rpc.Status.{Status, is_ok, unimplemented}
use u_rpc.Codec.{FrameDecoder, new_decoder, consume, take_message, encode_frame}
use u_rpc.Codec.RoundTrip.{frames, Fits, consume-frames}
use u_rpc.Router.{is_unary}
use u_rpc.Server.State.{Call, Conn, User, unary_call, unary_ctx, put}
use u_rpc.Server.Terminal.{respond_error, trailers_only}
use u_rpc.Server.Request.{after_consume, on_data, finish_request, finish_unary, finish_streaming}

-- The decoder of a call whose messages are all read from the wire, and where the first is taken.
abbrev filled : ℕ → List Str → FrameDecoder
filled limit ms = record (new_decoder limit) { messages = ms }

abbrev opened : ℕ → List Str → FrameDecoder
opened limit ms = record (new_decoder limit) { messages = ms; message_count = 1 }

-- The connection when the handler is called: the request is done, the first message is taken.
abbrev pub dispatched : ℕ → ℕ → Str → List Str → Call → Conn → Conn
dispatched sid limit m ms call c =
    let call1 = record call { decoder = filled limit (m ∷ ms) } in
    let call2 = record call1 { request_done = true } in
    let c' =
      put sid (record call2 { decoder = opened limit ms }) (put sid call2 (put sid call1 c)) in
    record c' { ctxs = insert sid unary_ctx c'.ctxs }

module _ (user : User) (sid limit : ℕ) (m : Str) (ms : List Str) where
  finish-dispatches :
      (call : Call) (c : Conn)
      → find sid c.calls ≡ some call
      → call.request_done ≡ false
      → call.has_handler ≡ true
      → is_unary call.form ≡ true
      → finish_request user sid c
        ≡ finish_unary user sid
            (record call { request_done = true })
            (put sid (record call { request_done = true }) c)
  unfolding finish_request
  finish-dispatches call c e r h u =
      ap (λ o. elim o [ none ↦ c | some call ↦ chosen call ]) e ∙ unary
    where
      chosen : Call → Conn
      chosen call =
          if call.request_done
          then c
          else (let done = record call { request_done = true } in
              if not call.has_handler
              then trailers_only sid unimplemented (codes "unknown method: " ++ call.path)
                  (put sid done c)
              else (if is_unary call.form
                  then finish_unary user sid done (put sid done c)
                  else (let half = record done { request_half_closed = true } in
                      finish_streaming user sid half (put sid half c))))

      unary :
          chosen call
          ≡ finish_unary user sid
              (record call { request_done = true })
              (put sid (record call { request_done = true }) c)
      unary = ground arith

  -- The DATA of the request comes with end_stream not set.
  data-fills :
      (call : Call) (c : Conn)
      → find sid c.calls ≡ some call
      → call.request_done ≡ false
      → is_unary call.form ≡ true
      → call.decoder ≡ new_decoder limit
      → All (Fits limit) (m ∷ ms)
      → on_data user sid (frames (m ∷ ms)) false c
        ≡ put sid (record call { decoder = filled limit (m ∷ ms) }) c
  unfolding on_data
  data-fills call c e r u d fits =
      ap (λ o. elim o [ none ↦ c | some call ↦ chosen call ]) e
      ∙ open_request
      ∙ some_bytes
      ∙ ap (λ d. read (consume d (frames (m ∷ ms)))) d
      ∙ ap read (consume-frames limit (m ∷ ms) fits)
      ∙ consumed
    where
      read : Status × FrameDecoder → Conn
      read (st, d) =
          let call' = record call { decoder = d } in
          if is_ok st
          then after_consume user sid call' false (put sid call' c)
          else respond_error sid st (put sid call' c)

      by_bytes : Call → Conn
      by_bytes call =
          if is_empty (frames (m ∷ ms))
          then after_consume user sid call false c
          else (let (st, d) = consume call.decoder (frames (m ∷ ms)) in
              let call' = record call { decoder = d } in
              if is_ok st
              then after_consume user sid call' false (put sid call' c)
              else respond_error sid st (put sid call' c))

      chosen : Call → Conn
      chosen call = if call.request_done then c else by_bytes call

      open_request : chosen call ≡ by_bytes call
      open_request = ground arith

      some_bytes : by_bytes call ≡ read (consume call.decoder (frames (m ∷ ms)))
      some_bytes = unfold frames encode_frame in refl

      consumed :
          after_consume user sid
            (record call { decoder = filled limit (m ∷ ms) })
            false
            (put sid (record call { decoder = filled limit (m ∷ ms) }) c)
          ≡ put sid (record call { decoder = filled limit (m ∷ ms) }) c
      consumed = unfold after_consume in ground arith

  -- The end of the request comes with no bytes.
  end-finishes :
      (call : Call) (c : Conn)
      → find sid c.calls ≡ some call
      → call.request_done ≡ false
      → is_unary call.form ≡ true
      → on_data user sid [] true c ≡ finish_request user sid c
  unfolding on_data after_consume
  end-finishes call c e r u =
      ap
        (λ o. elim o [
          | none ↦ c
          | some call ↦ if call.request_done then c else after_consume user sid call true c
        ])
        e
      ∙ ground arith

  -- Frames of messages that fit the limit, in the one piece of DATA of a unary request, and then the end
  -- of the request, which the session reports with no bytes, call the handler with the first message.
  -- The messages behind it are not noticed: the check for several messages counts those that were taken.
  pub unary_dispatch :
      (call : Call) (c : Conn)
      → find sid c.calls ≡ some call
      → call.request_done ≡ false
      → call.has_handler ≡ true
      → is_unary call.form ≡ true
      → call.decoder ≡ new_decoder limit
      → All (Fits limit) (m ∷ ms)
      → on_data user sid [] true (on_data user sid (frames (m ∷ ms)) false c)
        ≡ user (unary_call sid call.entry m) (dispatched sid limit m ms call c)
  unary_dispatch call c e r h u d fits =
      let call1 = record call { decoder = filled limit (m ∷ ms) } in
      let here = find-insert_self sid call1 c.calls in
      ap (on_data user sid [] true) (data-fills call c e r u d fits)
      ∙ end-finishes call1 (put sid call1 c) here r u
      ∙ finish-dispatches call1 (put sid call1 c) here r h u
      ∙ taken
    where
      taken :
          finish_unary user sid
            (record call { decoder = filled limit (m ∷ ms); request_done = true })
            (put sid
              (record call { decoder = filled limit (m ∷ ms); request_done = true })
              (put sid (record call { decoder = filled limit (m ∷ ms) }) c))
          ≡ user (unary_call sid call.entry m) (dispatched sid limit m ms call c)
      taken = unfold finish_unary take_message new_decoder in refl
