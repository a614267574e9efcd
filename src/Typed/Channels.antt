-- ===== src/Typed/Channels.antt =====
-- urpc::Channel and its bridge to the core: urpc/api/include/urpc/client.h,
-- urpc/api/include/urpc/proxy.h and urpc/api/source/urpc_api_impl.cc. A call through a null pointer
-- is `none`. What the loop does is the core's; a message of the request is encoded by `encode`.
use u_rpc.Prelude.{
  ℕ, Bool, true, false, not, ◌⊎◌, inl, inr, Option, none, some, [], ◌++◌, if◌then◌else◌,
}
use u_rpc.Prelude.Str.{Str, codes}
use u_rpc.Status.{Status, StatusCode, status, is_ok, internal, unavailable, data_loss}
use u_rpc.Codec.{encode_frame}
use u_rpc.Channel.State.{Channel, StreamEvents}
use u_rpc.Channel.Api.{call, open_new_stream, stream_send, stream_close_send, set_max_receive_size}

-- Result<Res>: a status, and the message or a null pointer.
pub record Result (Res : Type 0) : Type 0 where
  pub status : Status
  pub value : Option Res

-- Result::ok
unfoldable pub result_ok : {Res : Type 0} → Result Res → Bool
result_ok r = elim r.value [ none ↦ false | some v ↦ is_ok r.status ]

abbrev pub failed : {Res : Type 0} → Status → Result Res
failed st = record { status = st; value = none }

-- Channel::Impl; Close resets the core channel.
pub record ApiChannel : Type 0 where
  pub core : Option Channel
  pub closed : Bool
  pub max_receive_message_size : ℕ

-- Channel::Close, which stops the loop of the core channel and drops it.
unfoldable pub close : ApiChannel → ApiChannel
close ch = if ch.closed then ch else record ch { closed = true; core = none }

-- Channel::set_max_receive_message_size
unfoldable pub set_max_receive_message_size : ℕ → ApiChannel → ApiChannel
set_max_receive_message_size n ch = record ch {
  max_receive_message_size = n;
  core = elim ch.core [ none ↦ none | some c ↦ some (set_max_receive_size n c) ];
}

-- "/" + service + "/" + method
unfoldable pub route : Str → Str → Str
route service method = codes "/" ++ (service ++ (codes "/" ++ method))

-- What a method does through `channel->impl()->channel`.
abbrev pub through : {A : Type 0} → ApiChannel → (Channel → A) → Option A
through ch f = elim ch.core [ none ↦ none | some c ↦ some (f c) ]

abbrev with_core : ApiChannel → Channel → ApiChannel
with_core ch c = record ch { core = some c }

-- ChannelCallRaw
unfoldable pub call_raw : Str → Str → ℕ → Option ℕ → ApiChannel → Option (ℕ × ApiChannel)
call_raw path framed timeout_ms cb ch =
    through ch λ c. let (id, c') = call path framed timeout_ms cb c in (id, with_core ch c')

-- ChannelOpenStreamRaw: the id, and what on_complete is told at once. Its test for a closed channel
-- stands under the test of the environment variable URPC_WIRE_DEBUG, which is the flag here.
unfoldable pub open_stream_raw :
    Bool
    → Str
    → StreamEvents
    → ℕ
    → Option ApiChannel
    → Option (ℕ × (Option Status × Option ApiChannel))
open_stream_raw debug path events timeout_ms none =
    if debug then some (0, (some (status unavailable (codes "channel closed")), none)) else none
open_stream_raw debug path events timeout_ms (some ch) =
    let opens : Option (ℕ × (Option Status × Option ApiChannel)) = through ch λ c.
      let (id, c') = open_new_stream path events timeout_ms c in
      (id, (none, some (with_core ch c'))) in
    if debug
    then (if ch.closed
        then some (0, (some (status unavailable (codes "channel closed")), some ch))
        else opens)
    else opens

-- ChannelStreamSendRaw: what on_flushed is told at once, if it is not null.
unfoldable pub stream_send_raw :
    ℕ → Str → Option ℕ → Bool → Option ApiChannel → Option (Option Status × Option ApiChannel)
stream_send_raw id framed cb close none =
    some (some (status unavailable (codes "channel closed")), none)
stream_send_raw id framed cb close (some ch) =
    through ch λ c. (none, some (with_core ch (stream_send id framed cb close c)))

-- ChannelStreamCloseSendRaw
unfoldable pub stream_close_send_raw : ℕ → Option ApiChannel → Option (Option ApiChannel)
stream_close_send_raw id none = some none
stream_close_send_raw id (some ch) = through ch λ c. some (with_core ch (stream_close_send id c))

-- ChannelOnLoopThreadRaw, with what the core's loop answers.
unfoldable pub on_loop_thread_raw : Bool → Option ApiChannel → Option Bool
on_loop_thread_raw on_loop none = some false
on_loop_thread_raw on_loop (some ch) = through ch λ c. on_loop

-- What CallAsync does before it returns: the id, a result for `done` if it fails at once, the channel.
pub record Started : Type 0 where
  pub id : ℕ
  pub failure : Option Status
  pub channel : ApiChannel

abbrev pub refused : StatusCode → Str → ApiChannel → Option Started
refused code text ch = some (record { id = 0; failure = some (status code text); channel = ch })

-- The part of CallAsync behind its encoding.
unfoldable pub call_encoded : Str → Str → ℕ → Option ℕ → Option Str → ApiChannel → Option Started
unfolding route call_raw
call_encoded service method timeout_ms cb none ch =
    refused internal (codes "request encode failed") ch
call_encoded service method timeout_ms cb (some bytes) ch =
    elim (call_raw (route service method) (encode_frame bytes []) timeout_ms cb ch) [
      | none ↦ none
      | some (id, ch') ↦ some (record { id = id; failure = none; channel = ch' })
    ]

module _ {Req : Type 0} (encode : Req → Option Str) where
  -- Channel::CallAsync; the first flag says whether upb_Arena_New gives an arena.
  unfoldable pub call_async : Bool → Str → Str → Req → ℕ → Option ℕ → ApiChannel → Option Started
  unfolding call_encoded
  call_async arena service method request timeout_ms cb ch =
      if ch.closed
      then refused unavailable (codes "channel closed") ch
      else (if arena
          then call_encoded service method timeout_ms cb (encode request) ch
          else refused internal (codes "arena alloc failed") ch)

  -- Channel::Call up to its wait; `inl` is a result at once.
  unfoldable pub call_sync :
      Bool → Bool → Str → Str → Req → ℕ → Option ℕ → ApiChannel → Option (Status ⊎ Started)
  unfolding call_async
  call_sync on_loop arena service method request timeout_ms cb ch =
      if ch.closed
      then some (inl (status unavailable (codes "channel closed")))
      else (if on_loop
          then some (
              inl (
                status internal (codes "sync Call() is not allowed on the urpc event-loop thread")))
          else elim (call_async arena service method request timeout_ms cb ch) [
            | none ↦ none
            | some started ↦ some (inr started)
          ])

  -- ProxyCallAsync: the weak reference, locked.
  unfoldable pub proxy_call_async :
      Bool → Str → Str → Req → ℕ → Option ℕ → Option ApiChannel → Option (ℕ × Option Status)
  unfolding call_async
  proxy_call_async arena service method request timeout_ms cb none =
      some (0, some (status unavailable (codes "channel closed")))
  proxy_call_async arena service method request timeout_ms cb (some ch) =
      if ch.closed
      then some (0, some (status unavailable (codes "channel closed")))
      else elim (call_async arena service method request timeout_ms cb ch) [
        | none ↦ none
        | some started ↦ some (started.id, started.failure)
      ]

  -- ProxyCall
  unfoldable pub proxy_call :
      Bool → Bool → Str → Str → Req → ℕ → Option ℕ → Option ApiChannel → Option (Status ⊎ Started)
  unfolding call_sync
  proxy_call on_loop arena service method request timeout_ms cb none =
      some (inl (status unavailable (codes "channel closed")))
  proxy_call on_loop arena service method request timeout_ms cb (some ch) =
      if ch.closed
      then some (inl (status unavailable (codes "channel closed")))
      else call_sync on_loop arena service method request timeout_ms cb ch

-- What CallAsync hands to `done` when the core answers.
module _ {Res : Type 0} (decode : Str → Option Res) where
  unfoldable pub response_of : Bool → Status → Str → Result Res
  response_of arena st payload =
      if not (is_ok st)
      then failed st
      else (if arena
          then elim (decode payload) [
            | none ↦ failed (status data_loss (codes "response decode failed"))
            | some res ↦ record { status = st; value = some res }
          ]
          else failed (status internal (codes "arena alloc failed")))
