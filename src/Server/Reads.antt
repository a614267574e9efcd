-- ===== src/Server/Reads.antt =====
-- How request messages reach a handler: OnData's loop, DeliverRead and FinishRequest of
-- urpc/core/source/urpc_server.cc.
use u_rpc.Prelude.{
  ℕ, suc, ◌+◌, ◌<◌, ◌≤◌, ◌≡◌, refl, ap, sym, ◌∙◌, Bool, true, false, not, ◌||◌, none, some, List,
  [], ◌∷◌, ◌++◌, append-nil, append_assoc, arith, if◌then◌else◌, length, length-append,
}
use u_rpc.Prelude.Str.{Str}
use u_rpc.Prelude.Map.{find, find-insert_self}
use u_rpc.Status.{ok_status, is_ok}
use u_rpc.Codec.{FrameDecoder, take_message, has_message}
use u_rpc.Server.State.{Call, Conn, User, put}
use u_rpc.Server.Stream.{deliver_read, deliver_message, call_read}
use u_rpc.Server.Request.{deliver_one, deliver_all, is_server_streaming}
use u_rpc.Server.Rules.{with_call_found}

-- The call once one more message waits in its queue.
abbrev queueing : Str → Call → Call
queueing m call = record call { pending_msgs = call.pending_msgs ++ m ∷ [] }

-- The decoder once its first message is taken.
abbrev popped : List Str → FrameDecoder → FrameDecoder
popped ms d = record d { messages = ms; message_count = d.message_count + 1 }

-- The call once its decoded messages wait in its queue.
abbrev pub all_queued : List Str → Call → Call
all_queued ms call = record call {
  decoder = record call.decoder {
    messages = [];
    message_count = call.decoder.message_count + length ms;
  };
  pending_msgs = call.pending_msgs ++ ms;
}

all_queued_nil : (call : Call) → call.decoder.messages ≡ [] → call ≡ all_queued [] call
all_queued_nil call d =
    ap (λ q. record call { decoder = record call.decoder { messages = q } }) d
    ∙ (ap (λ n. record call { decoder = record call.decoder { messages = []; message_count = n } })
          zeros
        ∙ ap
            (λ q. record call {
              decoder = record call.decoder {
                messages = [];
                message_count = call.decoder.message_count + 0;
              };
              pending_msgs = q;
            })
            (sym (append-nil call.pending_msgs)))
  where
    zeros : call.decoder.message_count ≡ call.decoder.message_count + 0
    zeros = omega arith

all_queued_cons :
    (m : Str) (ms : List Str) (call : Call)
    → all_queued ms (queueing m (record call { decoder = popped ms call.decoder }))
      ≡ all_queued (m ∷ ms) call
all_queued_cons m ms call =
    ap
      (λ n. record call {
        decoder = record call.decoder { messages = []; message_count = n };
        pending_msgs = (call.pending_msgs ++ m ∷ []) ++ ms;
      })
      counts
    ∙ ap
        (λ q. record call {
          decoder = record call.decoder {
            messages = [];
            message_count = call.decoder.message_count + suc (length ms);
          };
          pending_msgs = q;
        })
        (append_assoc call.pending_msgs (m ∷ []) ms)
  where
    counts :
        call.decoder.message_count + 1 + length ms ≡ call.decoder.message_count + suc (length ms)
    counts = omega arith

module _ (user : User) (sid : ℕ) where
  deliver_read-queues :
      (m : Str) (call : Call) (c : Conn)
      → find sid c.calls ≡ some call
      → call.read_finished ≡ false
      → call.read_cb ≡ none
      → length call.pending_msgs < 64
      → deliver_read user sid ok_status false m c ≡ put sid (queueing m call) c
  unfolding deliver_read
  deliver_read-queues m call c e f r l =
      with_call_found (λ x. x) sid c
        (λ call.
          if call.read_finished
          then c
          else (if not (is_ok ok_status) || false
              then call_read user call.read_cb ok_status false m
                  (put sid (record call { read_finished = true; read_cb = none }) c)
              else deliver_message user sid call call.read_cb m c))
        call e
      ∙ open_call
      ∙ ap (λ cb. deliver_message user sid call cb m c) r
      ∙ room
    where
      open_call :
          (if call.read_finished then c else deliver_message user sid call call.read_cb m c)
          ≡ deliver_message user sid call call.read_cb m c
      open_call = ground arith

      room : deliver_message user sid call none m c ≡ put sid (queueing m call) c
      room = ground arith

  deliver_all-step :
      (n : ℕ) (m : Str) (ms : List Str) (call : Call) (c : Conn)
      → find sid c.calls ≡ some call
      → call.decoder.messages ≡ m ∷ ms
      → is_server_streaming call.form ≡ false
      → call.read_finished ≡ false
      → call.read_cb ≡ none
      → length call.pending_msgs < 64
      → deliver_all user (suc n) sid c
        ≡ deliver_all user n sid (
            put sid
              (queueing m (record call { decoder = popped ms call.decoder }))
              (put sid (record call { decoder = popped ms call.decoder }) c))
  unfolding deliver_all deliver_one take_message
  deliver_all-step n m ms call c e d s f r l =
      let call' = record call { decoder = popped ms call.decoder } in
      let c' = put sid call' c in
      ap (λ o. elim o [ none ↦ (true, c) | some call ↦ taken call ]) e
      ∙ (ap (λ q. taken (record call { decoder = record call.decoder { messages = q } })) d
          ∙ (ap next_of one
              ∙ ap (deliver_all user n sid)
                  (deliver_read-queues m call' c' (find-insert_self sid call' c.calls) f r l)))
    where
      next_of : Bool × Conn → Bool × Conn
      next_of r = elim r.0 [ true ↦ deliver_all user n sid r.1 | false ↦ (false, r.1) ]

      taken : Call → Bool × Conn
      taken call = elim (has_message call.decoder) [
        | false ↦ (true, c)
        | true ↦
            let (msg, d) = take_message call.decoder in
            let call' = record call { decoder = d } in
            let (on, c') = deliver_one user sid call' msg (put sid call' c) in
            elim on [ true ↦ deliver_all user n sid c' | false ↦ (false, c') ]
      ]

      one :
          deliver_one user sid
            (record call { decoder = popped ms call.decoder })
            m
            (put sid (record call { decoder = popped ms call.decoder }) c)
          ≡ (
            true,
            deliver_read user sid ok_status false m
                (put sid (record call { decoder = popped ms call.decoder }) c),
          )
      one = ground arith

  -- The result of OnData's loop where all messages go to the queue.
  abbrev pub Queued : List Str → Call → Conn → Bool × Conn → Type 0
  Queued ms call c r =
      (r.0 ≡ true) × (find sid r.1.calls ≡ some (all_queued ms call)) × (r.1.sent ≡ c.sent)

  -- OnData hands every decoded message to a client-streaming or bidi handler, in the order of the
  -- wire and with nothing lost: where no read waits, none has ended and the messages fit the bound
  -- of 64, they end up behind those that waited already, the decoder is empty, and nothing is sent.
  pub deliver_all-queues :
      (ms : List Str) (call : Call) (c : Conn)
      → find sid c.calls ≡ some call
      → call.decoder.messages ≡ ms
      → is_server_streaming call.form ≡ false
      → call.read_finished ≡ false
      → call.read_cb ≡ none
      → length call.pending_msgs + length ms ≤ 64
      → Queued ms call c (deliver_all user (length ms) sid c)
  deliver_all-queues [] call c e d s f r l =
      unfold deliver_all in (refl, e ∙ ap some (all_queued_nil call d), refl)
  deliver_all-queues (m ∷ ms) call c e d s f r l =
      let call1 = record call { decoder = popped ms call.decoder } in
      let call2 = queueing m call1 in
      let c2 = put sid call2 (put sid call1 c) in
      let p = deliver_all-step (length ms) m ms call c e d s f r (omega arith) in
      let fits : length call2.pending_msgs + length ms ≤ 64 =
        omega (arith, length-append call.pending_msgs (m ∷ [])) in
      let (on, stands, quiet) =
        deliver_all-queues ms call2 c2 (find-insert_self sid call2 (put sid call1 c).calls) refl s f
          r fits in
      (
        ap (λ r. r.0) p ∙ on,
        ap (λ r. find sid r.1.calls) p ∙ (stands ∙ ap some (all_queued_cons m ms call)),
        ap (λ r. r.1.sent) p ∙ quiet,
      )
