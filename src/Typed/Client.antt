-- ===== src/Typed/Client.antt =====
-- The client's ends of a stream: ClientStreamImpl, ClientReader, ClientWriter, ClientReaderWriter and
-- ClientStreamFactory of urpc/api/include/urpc/stream.h. The callbacks of the core and the calls of
-- the user are steps; a call that waits for a condition steps once it holds.
use u_rpc.Prelude.{
  ℕ, Bool, true, false, not, ◌⊎◌, inl, inr, Option, none, some, List, [], ◌∷◌, ◌++◌, if◌then◌else◌,
}
use u_rpc.Prelude.Str.{Str, codes}
use u_rpc.Status.{Status, ok_status, status, is_ok, internal, data_loss}
use u_rpc.Codec.{encode_frame}
use u_rpc.Channel.State.{StreamEvents}
use u_rpc.Typed.Channels.{
  Result, failed, ApiChannel, route, open_stream_raw, stream_send_raw, stream_close_send_raw,
  on_loop_thread_raw,
}

-- ClientStreamState, with the id and the channel of ClientStreamImpl and the flag of ClientWriter.
pub record ClientStream : Type 0 where
  pub messages : List Str
  pub terminated : Bool
  pub terminal : Status
  pub id : ℕ
  pub channel : Option ApiChannel
  pub writes_done : Bool

unfoldable pub new_stream : Option ApiChannel → ClientStream
new_stream ch = record {
  messages = [];
  terminated = false;
  terminal = ok_status;
  id = 0;
  channel = ch;
  writes_done = false;
}

-- The callback on_message that Open gives the core.
unfoldable pub on_message : Status → Str → ClientStream → ClientStream
on_message st payload s =
    if not (is_ok st) then s else record s { messages = s.messages ++ payload ∷ [] }

-- NotifyTerminal
unfoldable pub notify_terminal : Status → ClientStream → ClientStream
notify_terminal st s = record s { terminal = st; terminated = true }

abbrev told_at_once : Option Status → ClientStream → ClientStream
told_at_once none s = s
told_at_once (some st) s = notify_terminal st s

-- ClientStreamFactory::Open
unfoldable pub open_client_stream :
    Bool → Str → Str → StreamEvents → ℕ → Option ApiChannel → Option ClientStream
unfolding route open_stream_raw notify_terminal new_stream
open_client_stream debug service method events timeout_ms ch =
    elim (open_stream_raw debug (route service method) events timeout_ms ch) [
      | none ↦ none
      | some (id, (told, ch')) ↦
          some (record (told_at_once told (new_stream ch)) { id = id; channel = ch' })
    ]

-- A send on the stream; what on_flushed is told at once is its answer.
abbrev pub send_framed :
    Str → Option ℕ → Bool → ClientStream → Option (Option Status × ClientStream)
send_framed framed cb last s = elim (stream_send_raw s.id framed cb last s.channel) [
  | none ↦ none
  | some (told, ch) ↦ some (told, record s { channel = ch })
]

module _ {Req : Type 0} (encode : Req → Option Str) where
  -- SendSingleRequest: where there is no arena or no encoding, nothing is sent, and nobody is told.
  unfoldable pub send_single_request : Bool → Req → ClientStream → Option ClientStream
  unfolding stream_send_raw
  send_single_request false request s = some s
  send_single_request true request s = elim (encode request) [
    | none ↦ some s
    | some bytes ↦ elim (send_framed (encode_frame bytes []) none true s) [
      | none ↦ none
      | some (told, s') ↦ some s'
    ]
  ]

  -- ClientWriter::Write up to its wait: `inl` is its answer at once, `inr` waits for the callback.
  unfoldable pub write_message :
      Bool
      → Bool
      → Option Req
      → ℕ
      → ClientStream
      → Option (Bool × ClientStream ⊎ Option Status × ClientStream)
  unfolding stream_send_raw on_loop_thread_raw
  write_message on_loop arena none cb s = some (inl (false, s))
  write_message on_loop arena (some req) cb s =
      let refuses : Option (Bool × ClientStream ⊎ Option Status × ClientStream) =
        some (inl (false, s)) in
      let sends : Option (Bool × ClientStream ⊎ Option Status × ClientStream) = elim (encode req) [
        | none ↦ some (inl (false, s))
        | some bytes ↦ elim (send_framed (encode_frame bytes []) (some cb) false s) [
          | none ↦ none
          | some sent ↦ some (inr sent)
        ]
      ] in
      if s.terminated then refuses else elim (on_loop_thread_raw on_loop s.channel) [
        | none ↦ none
        | some here ↦ if here then refuses else (if arena then sends else refuses)
      ]

-- ClientWriter::WritesDone
unfoldable pub writes_done : ClientStream → Option ClientStream
unfolding stream_close_send_raw
writes_done s = if s.writes_done then some s else elim (stream_close_send_raw s.id s.channel) [
  | none ↦ none
  | some ch ↦ some (record s { writes_done = true; channel = ch })
]

-- What Read and Finish find once their wait is over: a message, or the end of the stream.
pub data Taken : Type 0 where
  payload : Str → Taken
  ended : Status → Taken

-- ClientReader::Read; `none` waits.
unfoldable pub take_queued : List Str → ClientStream → Option (Taken × ClientStream)
take_queued [] s = if s.terminated then some (ended s.terminal, s) else none
take_queued (m ∷ ms) s = some (payload m, record s { messages = ms })

unfoldable pub read : ClientStream → Option (Taken × ClientStream)
unfolding take_queued
read s = take_queued s.messages s

module _ {Res : Type 0} (decode : Str → Option Res) where
  -- ClientReader::Decode
  unfoldable pub decode_payload : Bool → Str → Result Res
  decode_payload false bytes = failed (status internal (codes "arena alloc failed"))
  decode_payload true bytes = elim (decode bytes) [
    | none ↦ failed (status data_loss (codes "decode failed"))
    | some res ↦ record { status = ok_status; value = some res }
  ]

  -- The Result that Read makes of what it found.
  unfoldable pub read_result : Bool → Taken → Result Res
  unfolding decode_payload
  read_result arena (payload bytes) = decode_payload arena bytes
  read_result arena (ended st) = if is_ok st then failed ok_status else failed st

  -- ClientWriter::Finish behind its wait: the first message, with all others dropped.
  unfoldable pub final_response : Bool → List Str → ClientStream → Result Res × ClientStream
  unfolding decode_payload
  final_response arena [] s = (failed (status data_loss (codes "missing response")), s)
  final_response arena (m ∷ ms) s = (decode_payload arena m, record s { messages = [] })

  unfoldable pub writer_finish : Bool → ClientStream → Option (Result Res × ClientStream)
  unfolding final_response
  writer_finish arena s =
      if not s.terminated
      then none
      else (if is_ok s.terminal
          then some (final_response arena s.messages s)
          else some (failed s.terminal, s))

-- Finish of ClientReader, and of ClientReaderWriter behind its WritesDone.
unfoldable pub stream_finish : Bool → ClientStream → Option (Option Status)
unfolding on_loop_thread_raw
stream_finish on_loop s = elim (on_loop_thread_raw on_loop s.channel) [
  | none ↦ none
  | some here ↦
      if here
      then some (
          some
            (status internal (codes "sync Finish() is not allowed on the urpc event-loop thread")))
      else some (if s.terminated then some s.terminal else none)
]

-- ClientWriter::Finish up to its wait: WritesDone first, then the test for the loop's thread; `inl` is
-- a status at once.
unfoldable pub begin_finish : Bool → ClientStream → Option ((Status ⊎ Unit {0}) × ClientStream)
unfolding writes_done on_loop_thread_raw
begin_finish on_loop s = elim (writes_done s) [
  | none ↦ none
  | some s' ↦ elim (on_loop_thread_raw on_loop s'.channel) [
    | none ↦ none
    | some here ↦
        if here
        then some (
          inl (
              status internal (codes "sync Finish() is not allowed on the urpc event-loop thread")),
          s',
        )
        else some (inr tt, s')
  ]
]

-- OpenClientReader: opens the stream and sends the one request.
unfoldable pub open_client_reader :
    {Req : Type 0}
    → (Req → Option Str)
    → Bool
    → Bool
    → Str
    → Str
    → StreamEvents
    → ℕ
    → Req
    → Option ApiChannel
    → Option ClientStream
unfolding open_client_stream send_single_request
open_client_reader encode debug arena service method events timeout_ms request ch =
    elim (open_client_stream debug service method events timeout_ms ch) [
      | none ↦ none
      | some s ↦ send_single_request encode arena request s
    ]
