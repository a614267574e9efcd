-- ===== src/Typed/Closed.antt =====
-- What is left of a urpc::Channel after Close.
use u_rpc.Prelude.{ℕ, ◌≡◌, refl, Bool, true, false, Option, none, some}
use u_rpc.Prelude.Str.{Str, codes}
use u_rpc.Status.{status, unavailable}
use u_rpc.Channel.State.{StreamEvents}
use u_rpc.Typed.Channels.{
  ApiChannel, close, open_stream_raw, stream_send_raw, stream_close_send_raw, call_async,
}

-- A channel that is open, and is closed: a unary call fails at once with UNAVAILABLE and leaves it as
-- it is; but opening a stream goes through the null pointer to the core channel, unless
-- URPC_WIRE_DEBUG is set, when it fails with UNAVAILABLE; and so does sending on a stream that was
-- open, and ending it. A second Close changes nothing.
pub closed_channel :
    {Req : Type 0} (encode : Req → Option Str) (request : Req) (arena : Bool)
    (service method path framed : Str) (events : StreamEvents) (id timeout_ms : ℕ) (cb : Option ℕ)
    (last : Bool) (ch : ApiChannel)
    → ch.closed ≡ false
    → let c = close ch in
      (call_async encode arena service method request timeout_ms cb c
        ≡ some (record {
          id = 0;
          failure = some (status unavailable (codes "channel closed"));
          channel = c;
        }))
      × (open_stream_raw false path events timeout_ms (some c) ≡ none)
      × (open_stream_raw true path events timeout_ms (some c)
          ≡ some (0, (some (status unavailable (codes "channel closed")), some c)))
      × (stream_send_raw id framed cb last (some c) ≡ none)
      × (stream_close_send_raw id (some c) ≡ none)
      × (close c ≡ c)
unfolding close call_async open_stream_raw stream_send_raw stream_close_send_raw
closed_channel encode request arena service method path framed events id timeout_ms cb last ch h =
    rw h (refl, refl, refl, refl, refl, refl)
