-- ===== src/EndToEnd.antt =====
-- A server stream and a client stream together: what a handler writes (urpc/core/source/urpc_server.cc)
-- and what the other side's on_message is given (urpc/core/source/urpc_channel.cc), over HTTP/2, which
-- delivers the bytes of the bodies in order and cuts them anywhere.
use u_rpc.Prelude.{
  ℕ, ◌≡◌, refl, sym, ap, ◌∙◌, Bool, true, false, some, List, [], ◌∷◌, ◌++◌, map, if◌then◌else◌,
  append-nil, All,
}
use mathlib.Core.List.{map-append}
use u_rpc.Prelude.Str.{Str}
use u_rpc.Prelude.Map.{find}
use u_rpc.Codec.{new_decoder, encode_frame}
use u_rpc.Codec.Feed.{joined}
use u_rpc.Codec.RoundTrip.{Fits, frames}
use u_rpc.Channel.State.{Channel, Stream}
use u_rpc.Channel.Receives.{told, receive, messages_received}
use u_rpc.Server.State.{Conn, User, OutMsg}
use u_rpc.Server.Writes.{
  Outgoing, writes, consumes, pumps, IsQuiet, bodies, queue_of, ledger, room_in, accepted,
  outgoing_step, outgoing_run, accepted_all,
}
use u_rpc.Server.Writes.Order.{writes_in_order}

-- The messages, without their frames, that WriteMessage accepts.
abbrev pub written : ℕ → Outgoing → Conn → List Str
written sid (writes msg cb) c = if room_in (find sid c.calls) then msg ∷ [] else []
written sid (consumes cb) c = []
written sid pumps c = []

unfoldable pub written_all : User → ℕ → List Outgoing → Conn → List Str
written_all user sid [] c = []
written_all user sid (o ∷ os) c =
    written sid o c ++ written_all user sid os (outgoing_step user sid o c)

abbrev framed : Str → Str
framed m = encode_frame m []

accepted-written :
    (sid : ℕ) (o : Outgoing) (c : Conn) → accepted sid o c ≡ map framed (written sid o c)
accepted-written sid (writes msg cb) c = either (room_in (find sid c.calls))
  where
    either :
        (b : Bool) → (if b then framed msg ∷ [] else []) ≡ map framed (if b then msg ∷ [] else [])
    either true = refl
    either false = refl
accepted-written sid (consumes cb) c = refl
accepted-written sid pumps c = refl

accepted_all-written :
    (user : User) (sid : ℕ) (os : List Outgoing) (c : Conn)
    → accepted_all user sid os c ≡ map framed (written_all user sid os c)
unfolding accepted_all written_all
accepted_all-written user sid [] c = refl
accepted_all-written user sid (o ∷ os) c =
    let c' = outgoing_step user sid o c in
    ap (λ (xs : List Str). xs ++ accepted_all user sid os c') (accepted-written sid o c)
    ∙ (ap (λ (xs : List Str). map framed (written sid o c) ++ xs)
          (accepted_all-written user sid os c')
        ∙ sym (map-append framed (written sid o c) (written_all user sid os c')))

joined-frames : (ms : List Str) → joined (map framed ms) ≡ frames ms
unfolding joined frames
joined-frames [] = refl
joined-frames (m ∷ ms) = ap (λ (s : Str). framed m ++ s) (joined-frames ms)

-- The messages of a handler reach on_message of the client: whatever the order of writes, consumed bodies
-- and pumps on a stream where nothing was sent and nothing waited, once nothing waits any more, and
-- however the bytes of its bodies are cut on the way, on_message of an open client stream that has
-- received nothing yet is called once for each message that WriteMessage has accepted, in order and with
-- status ok, and nothing else is called; where the messages fit the client's limit, and the handler's
-- code calls nothing on a context from its callbacks.
pub server_to_client :
    (user : User) (os : List Outgoing) (s : Conn) (sid id limit : ℕ) (chunks : List Str)
    (st : Stream) (c : Channel)
    → IsQuiet user
    → ledger sid s ≡ []
    → queue_of (find sid (outgoing_run user sid os s).calls) ≡ []
    → joined chunks ≡ joined (bodies sid (outgoing_run user sid os s).sent)
    → All (Fits limit) (written_all user sid os s)
    → find sid c.stream_by_sid ≡ some id
    → find id c.streams ≡ some st
    → st.completed ≡ false
    → st.decoder ≡ new_decoder limit
    → (receive sid chunks c).fired
      ≡ told id st.events.on_message (written_all user sid os s) c.fired
server_to_client user os s sid id limit chunks st c quiet fresh drained cut fits by_sid here going
      new =
    messages_received sid id limit (written_all user sid os s) chunks st c by_sid here going new
      fits (cut ∙ (ap joined sent ∙ joined-frames (written_all user sid os s)))
  where
    s' : Conn
    s' = outgoing_run user sid os s

    sent : bodies sid s'.sent ≡ map framed (written_all user sid os s)
    sent =
        sym (append-nil (bodies sid s'.sent))
        ∙ (ap (λ (q : List OutMsg). bodies sid s'.sent ++ map (λ (o : OutMsg). o.framed) q)
              (sym drained)
            ∙ (writes_in_order user sid os s quiet
                ∙ (ap (λ (xs : List Str). xs ++ accepted_all user sid os s) fresh
                    ∙ accepted_all-written user sid os s)))
