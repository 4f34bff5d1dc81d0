-- ===== src/Ledger/Replay.antt =====
-- A key that names an action names it for good: the second commit under it is a replay.
use agent_quilt.Base.{
  ◌≡◌, ◌≢◌, refl, Option, none, some, List, [], ◌∷◌, arith, find, String, Option-cases, Bool-cases,
  inl, inr, ==_refl, and_then, and_then_assoc, All,
}
use mathlib.Core.Path.{subst, sym, ◌∙◌}
use agent_quilt.Runtime.{Uuid, Runtime}
use agent_quilt.Store.{Db, ok, Action, IdempotencyKey, find_action}
use agent_quilt.Ledger.{
  Commit, commit, write_commit, stored_action, is_key, complete_key, chosen_id,
}
use agent_quilt.Ledger.Writes.{commit-eq-ok, find-complete_key}

abbrev pub Refers : Option Uuid → List Action → Type 0
Refers none actions = Unit
Refers (some i) actions = find_action i actions ≢ none

-- The foreign key of the retry keys: the action that a key names is in the table.
abbrev pub IsReferential : Db → Type 0
IsReferential db = All (λ k. Refers k.action_id db.actions) db.keys

find_key-none :
    (name key : String) (actions : List Action) (ks : List IdempotencyKey)
    → All (λ k. Refers k.action_id actions) ks
    → and_then (find (is_key name key) ks) (λ k. and_then k.action_id (λ i. find_action i actions))
      ≡ none
    → and_then (find (is_key name key) ks) (λ k. k.action_id) ≡ none
find_key-none name key actions [] h e = refl
find_key-none name key actions (k ∷ ks) h e = elim (Bool-cases (is_key name key k)) [
  | inl this ↦ rw this (elim (Option-cases k.action_id) [
    | inl open_key ↦ open_key
    | inr (i, named) ↦
        absurd (subst (λ o. Refers o actions) named h.0 (ground (arith, this, named)))
  ])
  | inr other ↦ rw other (find_key-none name key actions ks h.1 (ground arith))
]

-- After the write the key names the action written.
pub stored_action-write_commit :
    (rt : Runtime) (r : Commit) (db : Db)
    → IsReferential db
    → stored_action r.operation_name r.idempotency_key db ≡ none
    → let (a, after) = write_commit rt r db in
      stored_action r.operation_name r.idempotency_key after ≡ some a
unfolding stored_action write_commit
stored_action-write_commit rt r db h fresh =
    let i = (chosen_id rt r.action_id db).0 in
    let actions = (write_commit rt r db).1.actions in
    let open_key = find_key-none r.operation_name r.idempotency_key db.actions db.keys h fresh in
    let named = find-complete_key r.operation_name r.idempotency_key i db.keys open_key in
    sym (
      and_then_assoc
        (find (is_key r.operation_name r.idempotency_key)
          (complete_key r.operation_name r.idempotency_key i db.keys))
        (λ k. k.action_id) (λ j. find_action j actions))
    ∙ rw named (rw (==_refl i))

Refers-cons :
    (o : Option Uuid) (a : Action) (actions : List Action)
    → Refers o actions
    → Refers o (a ∷ actions)
Refers-cons none a actions h = tt
Refers-cons (some i) a actions h = ground arith

Refers-self : (a : Action) (actions : List Action) → Refers (some a.id) (a ∷ actions)
Refers-self a actions = rw (==_refl a.id) (λ e. cc)

All-Refers-cons :
    (a : Action) (actions : List Action) (ks : List IdempotencyKey)
    → All (λ k. Refers k.action_id actions) ks
    → All (λ k. Refers k.action_id (a ∷ actions)) ks
All-Refers-cons a actions [] h = tt
All-Refers-cons a actions (k ∷ ks) h =
    (Refers-cons k.action_id a actions h.0, All-Refers-cons a actions ks h.1)

complete_key-Refers :
    (name key : String) (a : Action) (actions : List Action) (ks : List IdempotencyKey)
    → All (λ k. Refers k.action_id actions) ks
    → All (λ k. Refers k.action_id (a ∷ actions)) (complete_key name key a.id ks)
complete_key-Refers name key a actions [] h = (Refers-self a actions, tt)
complete_key-Refers name key a actions (k ∷ ks) h = elim (Bool-cases (is_key name key k)) [
  | inl this ↦ rw this (elim (Option-cases k.action_id) [
    | inl open_key ↦ rw open_key (Refers-self a actions, All-Refers-cons a actions ks h.1)
    | inr (i, named) ↦ rw named (
      subst (λ o. Refers o (a ∷ actions)) named (Refers-cons k.action_id a actions h.0),
      All-Refers-cons a actions ks h.1,
    )
  ])
  | inr other ↦
      rw other
        (Refers-cons k.action_id a actions h.0, complete_key-Refers name key a actions ks h.1)
]

pub write_commit-IsReferential :
    (rt : Runtime) (r : Commit) (db : Db)
    → IsReferential db
    → IsReferential (write_commit rt r db).1
unfolding write_commit
write_commit-IsReferential rt r db h =
    complete_key-Refers r.operation_name r.idempotency_key (write_commit rt r db).0 db.actions
      db.keys h

-- After a commit that returned, its key names the action that it returned.
pub stored_action-commit :
    (rt : Runtime) (r : Commit) (db : Db) {a : Action} {after : Db}
    → IsReferential db
    → commit rt r db ≡ ok (a, after)
    → stored_action r.operation_name r.idempotency_key after ≡ some a
stored_action-commit rt r db h e = elim (commit-eq-ok rt r db e) [
  | inl (stored, same) ↦ rw same stored
  | inr (fresh, _, written) ↦
      subst (λ (w : Action × Db). stored_action r.operation_name r.idempotency_key w.1 ≡ some w.0)
        written (stored_action-write_commit rt r db h fresh)
]

-- Where the retry keys name actions of the table, a commit that returned is remembered: another commit under the same operation name and key, with
-- whatever else it asks for, returns the same action and changes nothing.
pub commit_again :
    (rt : Runtime) (r s : Commit) (db : Db) {a : Action} {after : Db}
    → IsReferential db
    → s.operation_name ≡ r.operation_name
    → s.idempotency_key ≡ r.idempotency_key
    → commit rt r db ≡ ok (a, after)
    → commit rt s after ≡ ok (a, after)
unfolding commit
commit_again rt r s db h same_name same_key e =
    rw (same_name, same_key, stored_action-commit rt r db h e, commit)

-- Where every completed retry key names an action of the table, it does so after a commit that
-- returns.
pub commit-IsReferential :
    (rt : Runtime) (r : Commit) (db : Db) {a : Action} {after : Db}
    → IsReferential db
    → commit rt r db ≡ ok (a, after)
    → IsReferential after
commit-IsReferential rt r db h e = elim (commit-eq-ok rt r db e) [
  | inl (_, same) ↦ rw same h
  | inr (_, _, written) ↦
      subst (λ (w : Action × Db). IsReferential w.1) written (write_commit-IsReferential rt r db h)
]
