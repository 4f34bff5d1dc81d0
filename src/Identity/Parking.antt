-- ===== src/Identity/Parking.antt =====
-- A call that waits asks once, and an answer stays the answer.
use agent_quilt.Base.{◌≡◌, arith, find, Option-cases, inl, inr, Option, String}
use agent_quilt.Runtime.{Runtime}
use agent_quilt.Store.{Db, ApprovalState}
use agent_quilt.Identity.{Park, decided, is_continuation, park_approval}

-- An answered continuation is answered from the table, which stays as it is.
pub park_decided :
    (rt : Runtime) (r : Park) (db : Db) {s : ApprovalState} {reason : Option String}
    → (park_approval rt r db).0 ≡ decided s reason
    → (park_approval rt r db).1 ≡ db
unfolding park_approval
park_decided rt r db h = elim (Option-cases (find (is_continuation r) db.approvals)) [
  | inl e ↦ absurd (ground (arith, e))
  | inr (a, e) ↦ ground (arith, e)
]
