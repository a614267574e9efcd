-- ===== src/Server/Rules.antt =====
-- How a property of connections passes through the shapes that the operations are built from.
use u_rpc.Prelude.{ℕ, ◌≡◌, refl, ap, Option, none, some}
use u_rpc.Prelude.Map.{find}
use u_rpc.Server.State.{Call, Conn, User, Callback, with_call}

-- User code keeps a property of connections.
abbrev pub UserKeeps : (Conn → Type 0) → User → Type 0
UserKeeps P user = (cb : Callback) (c : Conn) → P c → P (user cb c)

found {ℓ} :
    (P : Conn → Type ℓ) (c : Conn) (f : Call → Conn) (o m : Option Call)
    → m ≡ o
    → P c
    → ((call : Call) → m ≡ some call → P (f call))
    → P (elim o [ none ↦ c | some call ↦ f call ])
found P c f none m e h k = h
found P c f (some call) m e h k = k call e

pub with_call-keeps {ℓ} :
    (P : Conn → Type ℓ) (sid : ℕ) (c : Conn) (f : Call → Conn)
    → P c
    → ((call : Call) → find sid c.calls ≡ some call → P (f call))
    → P (with_call sid c f)
with_call-keeps P sid c f h k = found P c f (find sid c.calls) (find sid c.calls) refl h k

-- `with_call` where the call stands, and where there is none.
pub with_call_found {ℓ} :
    {A : Type ℓ} (P : Conn → A) (sid : ℕ) (c : Conn) (f : Call → Conn) (call : Call)
    → find sid c.calls ≡ some call
    → P (with_call sid c f) ≡ P (f call)
with_call_found P sid c f call e = ap (λ o. P (elim o [ none ↦ c | some call' ↦ f call' ])) e
