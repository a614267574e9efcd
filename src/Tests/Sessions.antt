-- ===== src/Tests/Sessions.antt =====
-- An H2Session whose producer chains its messages, at concrete inputs.
use u_rpc.Prelude.{
  ℕ, zero, suc, ◌≤◌, ◌<◌, ◌≡◌, refl, true, false, Option, none, some, List, [], ◌∷◌, arith,
}
use u_rpc.Prelude.Str.{Str, codes}
use u_rpc.Prelude.Map.{find}
use u_rpc.Wire.{Headers, field}
use u_rpc.Session.{
  PendingBody, Session, new_session, on_headers_complete, Upcall, body_read, send_bytes, upcalls,
  on_write, submit_data, settings,
}
use u_rpc.Session.Flush.{Op, send_data, flush_out, submit}
use u_rpc.Session.Held.{weights, bodies_weight}
use u_rpc.Session.Drains.{ops_weight, flush_out_drains}
use u_rpc.Session.Accounts.{session_calls, SessionCall, sends, submits_weight, only, runs_as_handed}
use u_rpc.Session.Bodies.{read_body_in, total, body_sent}
use u_rpc.Session.Intake.{last_value, header_block, headers_collected}

-- nghttp2 that reads each body once, and writes a byte for it.
abbrev reads_of : List PendingBody → List Upcall
reads_of [] = []
reads_of (b ∷ bs) = body_read b.address 64 ∷ send_bytes (7 ∷ []) ∷ reads_of bs

abbrev eager : Session → List Upcall
eager s = reads_of s.pending_bodies

-- The producer sends its next message when one is consumed.
abbrev chain : ℕ → List Op
chain zero = []
chain (suc k) = send_data 1 (codes "x") false (some k) ∷ []

abbrev chain_weight : ℕ → ℕ
chain_weight k = suc k

chain_lighter : (k : ℕ) → ops_weight chain_weight (chain k) < chain_weight k
unfolding ops_weight
chain_lighter zero = omega arith
chain_lighter (suc k) = omega arith

abbrev chained : Session
chained = submit (send_data 1 (codes "abc") false (some 3)) new_session

flush_out_drains_example :
    (s' : Session) × (flush_out eager chain 9 chained ≡ some s')
    × (s'.consumed_notifications ≡ [])
    × (s'.out ≡ [])
    × (s'.flush_depth ≡ 0)
unfolding submit new_session bodies_weight weights
flush_out_drains_example =
    flush_out_drains eager chain chain_weight chain_lighter 9 chained (omega arith) refl

abbrev ran_of : Option Session → List ℕ
ran_of none = []
ran_of (some s) = s.ran

chain_runs : ran_of (flush_out eager chain 9 chained) ≡ 0 ∷ 1 ∷ 2 ∷ 3 ∷ []
unfolding flush_out submit new_session
chain_runs = refl

-- A producer that sends one message.
abbrev quiet : ℕ → List Op
quiet k = []

abbrev one_send : List SessionCall
one_send = sends (send_data 1 (codes "abc") false (some 3)) ∷ []

abbrev after_send : Session
after_send = record {
  out = [];
  pending_headers = [];
  pending_bodies =
      (record { stream = 1; address = 0; content = codes "abc"; offset = 3; on_consumed = none })
      ∷ [];
  next_address = 1;
  consumed_notifications = [];
  flush_depth = 0;
  submits = submit_data 1 0 (some 3) false ∷ settings ∷ [];
  told = on_write (7 ∷ 7 ∷ []) ∷ [];
  ran = 3 ∷ [];
}

runs_as_handed_example :
    weights (only 3) after_send.ran ≤ submits_weight (only 3) after_send.submits
unfolding session_calls new_session
runs_as_handed_example = runs_as_handed eager quiet 3 one_send after_send 3 refl

abbrev hello : PendingBody
hello = record {
  stream = 1;
  address = 0;
  content = codes "hello";
  offset = 0;
  on_consumed = some 4;
}

body_sent_example :
    read_body_in (2 ∷ 0 ∷ 2 ∷ 9 ∷ []) hello
    ≡ record { bytes = codes "hello"; notes = 4 ∷ []; ended = true }
unfolding total
body_sent_example = body_sent 2 (0 ∷ 2 ∷ 9 ∷ []) hello refl (omega arith)

abbrev two_fields : List (Str × Str)
two_fields = (codes ":path", codes "/a/b") ∷ (codes ":path", codes "/a/c") ∷ []

headers_collected_example :
    (h : Headers) × ((upcalls (header_block 5 two_fields true) new_session).told
      ≡ on_headers_complete 5 h true ∷ new_session.told)
    × (find 5 (upcalls (header_block 5 two_fields true) new_session).pending_headers ≡ none)
    × ((name : Str) → field name h ≡ last_value name two_fields)
unfolding new_session find
headers_collected_example =
    headers_collected 5 (codes ":path", codes "/a/b") ((codes ":path", codes "/a/c") ∷ []) true
      new_session refl
