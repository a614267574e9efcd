-- ===== src/Server/Once.antt =====
-- The terminal frames of a stream (urpc/core/source/urpc_server.cc).
pub mod Silent
pub mod Final
pub mod Outside
pub mod Events
use u_rpc.Prelude.{
  ℕ, suc, ◌+◌, ◌≤◌, ◌≡◌, refl, false, Option, none, some, arith, if◌then◌else◌, ◌==◌, to_ℕ,
}
use u_rpc.Prelude.Map.{find, insert, find-insert}
use u_rpc.Wire.{Frame, ends, terminals}
use u_rpc.Server.State.{Call, Conn, put, send}

-- A stream that is watched, and how many terminal frames it may send.
pub record Watch : Type 0 where
  pub stream : ℕ
  pub budget : ℕ

-- A call that has not responded leaves one terminal frame of the budget over, and holds none back; one
-- that has responded has sent or holds back one at most.
abbrev pub OnceAt : Option Call → ℕ → ℕ → Type 0
OnceAt none n b = n ≤ b
OnceAt (some call) n b = suc (n + to_ℕ call.has_finish_pending) ≤ to_ℕ call.responded + b

abbrev pub Once : Watch → Conn → Type 0
Once k c = OnceAt (find k.stream c.calls) (terminals k.stream c.sent) k.budget

-- The budget has one terminal frame left where a stream has no call.
abbrev pub Room : Watch → ℕ → Conn → Type 0
Room k sid c = find sid c.calls ≡ none → sid ≡ k.stream → suc (terminals sid c.sent) ≤ k.budget

-- What an operation that rewrites the call of one stream owes: `m` terminal frames at most.
abbrev pub Owes : ℕ → Call → Call → Type 0
Owes m call call' =
    (n b : ℕ)
    → suc (n + to_ℕ call.has_finish_pending) ≤ to_ℕ call.responded + b
    → suc (n + m + to_ℕ call'.has_finish_pending) ≤ to_ℕ call'.responded + b

-- The one rule for all of them: the call of a stream is rewritten, and some frames are sent on it.
pub Once-rewrite :
    (k : Watch) (sid m : ℕ) (call call' : Call) (c c' : Conn)
    → find sid c.calls ≡ some call
    → c'.calls ≡ insert sid call' c.calls
    → terminals k.stream c'.sent
      ≡ (if sid == k.stream then terminals k.stream c.sent + m else terminals k.stream c.sent)
    → Owes m call call'
    → Once k c
    → Once k c'
Once-rewrite k sid m call call' c c' e calls sent owes h =
    ground
      (arith, find-insert k.stream sid call' c.calls, owes (terminals k.stream c.sent) k.budget)

-- A call rewritten in its other fields.
pub put-Once :
    (k : Watch) (sid : ℕ) (call call' : Call) (c : Conn)
    → find sid c.calls ≡ some call
    → call'.responded ≡ call.responded
    → call'.has_finish_pending ≡ call.has_finish_pending
    → Once k c
    → Once k (put sid call' c)
put-Once k sid call call' c e r p h =
    Once-rewrite k sid 0 call call' c (put sid call' c) e refl (ground arith)
      (λ n b q. ground arith) h

-- A frame that does not end the stream.
pub send-Once :
    (k : Watch) (f : Frame) (c : Conn) → ends k.stream f ≡ false → Once k c → Once k (send f c)
unfolding terminals
send-Once k f c e h = ground arith
