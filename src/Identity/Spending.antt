-- ===== src/Identity/Spending.antt =====
-- An approval is spent once, and only by the call it is bound to.
use agent_quilt.Base.{
  ◌≤◌, ◌<◌, ◌≡◌, refl, true, false, none, some, List, [], ◌∷◌, arith, find, find_holds,
  update_where, update_where-none, if◌then◌else◌, eq_iff, Option-cases, inl, inr, ap, ◌≢◌, find-Mem,
  find-ne_none,
}
use agent_quilt.Runtime.{Uuid}
use agent_quilt.Store.{Db, Approval, opened}
use agent_quilt.Identity.{Consume, is_spendable, spend, consume_approval}
use mathlib.Core.List.{Mem}

-- The two requests name one principal, operation version and argument digest.
abbrev pub SameBinding : Consume → Consume → Type 0
SameBinding r s =
    (r.granted_to ≡ s.granted_to)
    × (r.operation_version_id ≡ s.operation_version_id)
    × (r.args_hash ≡ s.args_hash)

-- The request's principal, operation version and digest, on an open approval that is not over.
pub record IsBound (r : Consume) (a : Approval) : Type 0 where
  pub same_principal : a.granted_to ≡ r.granted_to
  pub same_version : a.operation_version_id ≡ r.operation_version_id
  pub same_args : a.args_hash ≡ r.args_hash
  pub is_open : a.state ≡ opened
  pub alive : r.now < a.expires_at

pub spendable-IsBound : (r : Consume) (a : Approval) → is_spendable r a ≡ true → IsBound r a
spendable-IsBound r a h =
    ground
      (arith, eq_iff a.operation_version_id r.operation_version_id, eq_iff a.args_hash r.args_hash)

pub IsBound-spendable : (r : Consume) (a : Approval) → IsBound r a → is_spendable r a ≡ true
IsBound-spendable r a b =
    ground
      (arith, eq_iff a.operation_version_id r.operation_version_id, eq_iff a.args_hash r.args_hash)

spent_not_spendable :
    (r s : Consume) (a : Approval)
    → r.now ≤ s.now
    → SameBinding r s
    → is_spendable s (if is_spendable r a then spend r a else a) ≡ false
spent_not_spendable r s a later same = ground arith

none_spendable :
    (r s : Consume) (rows : List Approval)
    → r.now ≤ s.now
    → SameBinding r s
    → find (is_spendable s) (update_where (is_spendable r) (spend r) rows) ≡ none
none_spendable r s [] later same = refl
none_spendable r s (a ∷ rows) later same =
    rw (spent_not_spendable r s a later same) (none_spendable r s rows later same)

-- After one consume, whatever it found, another with the same principal, operation version and
-- digest at the same or a later time finds nothing.
pub consume_twice :
    (r s : Consume) (db : Db)
    → r.now ≤ s.now
    → SameBinding r s
    → (consume_approval s (consume_approval r db).1).0 ≡ none
unfolding consume_approval
consume_twice r s db later same =
    ap (λ o. elim o [ none ↦ none | some a ↦ some a.id ])
      (none_spendable r s db.approvals later same)

-- What a consume answers was an open approval of the table, bound to the request and still alive.
pub consume_sound :
    (r : Consume) (db : Db) (i : Uuid)
    → (consume_approval r db).0 ≡ some i
    → (a : Approval) × Mem a db.approvals × (a.id ≡ i) × IsBound r a
unfolding consume_approval
consume_sound r db i h = elim (Option-cases (find (is_spendable r) db.approvals)) [
  | inl e ↦ absurd (ground arith)
  | inr (a, e) ↦ (
    a,
    find-Mem (is_spendable r) db.approvals a e,
    ground arith,
    spendable-IsBound r a (find_holds (is_spendable r) db.approvals a e),
  )
]

-- A request finds an approval where an open one of the table is bound to it and still alive.
pub consume_complete :
    (r : Consume) (db : Db) (a : Approval)
    → Mem a db.approvals
    → IsBound r a
    → (consume_approval r db).0 ≢ none
unfolding consume_approval
consume_complete r db a m b none_found =
    find-ne_none (is_spendable r) db.approvals a m (IsBound-spendable r a b) (ground arith)

-- A request that finds nothing to spend leaves the table as it is.
pub consume_none :
    (r : Consume) (db : Db) → (consume_approval r db).0 ≡ none → (consume_approval r db).1 ≡ db
unfolding consume_approval
consume_none r db h = elim (Option-cases (find (is_spendable r) db.approvals)) [
  | inl e ↦ rw (update_where-none (is_spendable r) (spend r) db.approvals e) refl
  | inr (a, e) ↦ absurd (ground (arith, e))
]
