-- ===== src/Ledger/Refinement.antt =====
-- The ledger as its callers see it, a version for each aggregate and an action for each retry key, and
-- `commit` as an implementation of it.
use agent_quilt.Base.{
  ℕ, suc, ◌+◌, ◌≡◌, ◌≢◌, refl, ◌==◌, ◌&&◌, str_eq, Bool, false, Option, none, some, String, List,
  [], ◌∷◌, arith, find, if◌then◌else◌, Option-cases, Bool-cases, inl, inr, eq_iff, and_then, All,
  ap, ◌∙◌, sym,
}
use mathlib.Core.Path.{subst}
use agent_quilt.Runtime.{Uuid, Runtime}
use agent_quilt.Store.{Db, Result, ok, raise, version_conflict, Action, IdempotencyKey, find_action}
use agent_quilt.Ledger.{
  Commit, commit, commit_from, checked_write, write_commit, stored_action, current_version, is_key,
  complete_key, chosen_id,
}
use agent_quilt.Ledger.Replay.{IsReferential, Refers, stored_action-write_commit}
use agent_quilt.Ledger.Streams.{current_version-move_head}

pub record View : Type 0 where
  pub version : String → Uuid → ℕ
  pub done : String → String → Option Action

abbrev pub view : Db → View
view db = record {
  version = λ kind i. current_version kind i db.heads;
  done = λ name key. stored_action name key db;
}

-- What a new commit makes of the view: its aggregate is one version on, and its key names its action.
abbrev pub with_commit : Commit → Action → View → View
with_commit r a v = record {
  version = λ kind i.
      if str_eq r.aggregate_kind kind && r.aggregate_id == i
      then v.version kind i + 1
      else v.version kind i;
  done = λ name key.
      if str_eq r.operation_name name && str_eq r.idempotency_key key
      then some a
      else v.done name key;
}

abbrev pub IsSame : View → View → Type 0
IsSame v w =
    ((kind : String) (i : Uuid) → v.version kind i ≡ w.version kind i)
    × ((name key : String) → v.done name key ≡ w.done name key)

-- What the view asks of a commit: a key that is done is answered again; otherwise an expected version
-- that is not the aggregate's is refused, and any other commit is made.
abbrev pub IsImplementation : Commit → View → Option Action → Result (Action × Db) → Type 0
IsImplementation r v (some b) result =
    (after : Db) × (result ≡ ok (b, after)) × IsSame (view after) v
IsImplementation r v none (ok (a, after)) =
    ((e : ℕ) → r.expected_version ≡ some e → v.version r.aggregate_kind r.aggregate_id ≡ e)
    × IsSame (view after) (with_commit r a v)
IsImplementation r v none (raise x) =
    (e : ℕ) × (r.expected_version ≡ some e)
    × (v.version r.aggregate_kind r.aggregate_id ≢ e)
    × (x ≡ version_conflict e (v.version r.aggregate_kind r.aggregate_id))

-- Another key is as it was.
find-complete_key_other :
    (name key n k : String) (i : Uuid) (ks : List IdempotencyKey)
    → (str_eq name n && str_eq key k) ≡ false
    → find (is_key n k) (complete_key name key i ks) ≡ find (is_key n k) ks
find-complete_key_other name key n k i [] e = ground (arith, e)
find-complete_key_other name key n k i (x ∷ ks) e = ground (
  arith,
  e,
  find-complete_key_other name key n k i ks,
  eq_iff x.operation_name name,
  eq_iff x.operation_name n,
  eq_iff x.idempotency_key key,
  eq_iff x.idempotency_key k,
)

All-find {ℓ κ} :
    {A : Type ℓ} (P : A → Type κ) (p : A → Bool) (xs : List A) (x : A)
    → All P xs
    → find p xs ≡ some x
    → P x
All-find P p [] x h e = absurd (ground (arith, e))
All-find P p (y ∷ ys) x (this, h) e = elim (Bool-cases (p y)) [
  | inl t ↦ (let same : y ≡ x = ground (arith, rw t at e) in subst P same this)
  | inr t ↦ All-find P p ys x h (rw t at e)
]

-- A new action is found under its own identifier alone.
found_before :
    (a : Action) (actions : List Action) (o : Option Uuid)
    → find_action a.id actions ≡ none
    → Refers o actions
    → and_then o (λ i. find_action i (a ∷ actions)) ≡ and_then o (λ i. find_action i actions)
found_before a actions none fresh h = refl
found_before a actions (some i) fresh h = elim (Bool-cases (a.id == i)) [
  | inl e ↦
      let same : a.id ≡ i = ground arith in
      absurd (h (subst (λ x. find_action x actions ≡ none) same fresh))
  | inr e ↦ rw e refl
]

module _ (rt : Runtime) (r : Commit) (db : Db) (h : IsReferential db)
    (fresh : find_action (chosen_id rt r.action_id db).0 db.actions ≡ none) where
  abbrev written : Action × Db
  written = write_commit rt r db

  other_done :
      (name key : String)
      → (str_eq r.operation_name name && str_eq r.idempotency_key key) ≡ false
      → stored_action name key (write_commit rt r db).1 ≡ stored_action name key db
  unfolding stored_action write_commit
  other_done name key e =
      rw
        (find-complete_key_other r.operation_name r.idempotency_key name key
          (chosen_id rt r.action_id db).0 db.keys e)
        (elim (Option-cases (find (is_key name key) db.keys)) [
          | inl missing ↦ rw missing refl
          | inr (k, found) ↦ rw found (
              found_before (write_commit rt r db).0 db.actions k.action_id fresh (
                All-find (λ (x : IdempotencyKey). Refers x.action_id db.actions) (is_key name key)
                  db.keys k h found))
        ])

  next_version :
      (kind : String) (i : Uuid)
      → current_version kind i (write_commit rt r db).1.heads ≡ (
          if str_eq r.aggregate_kind kind && r.aggregate_id == i
          then current_version kind i db.heads + 1
          else current_version kind i db.heads)
  unfolding write_commit
  next_version kind i =
      current_version-move_head r.aggregate_kind kind r.aggregate_id i (suc db.event_seq) db.heads

  write_commit-IsSame :
      stored_action r.operation_name r.idempotency_key db ≡ none
      → IsSame (view (write_commit rt r db).1) (with_commit r (write_commit rt r db).0 (view db))
  write_commit-IsSame new = (
    next_version,
    λ name key. elim (Bool-cases (str_eq r.operation_name name && str_eq r.idempotency_key key)) [
      | inl e ↦
          let same_name : r.operation_name ≡ name =
            ground (arith, e, eq_iff r.operation_name name) in
          let same_key : r.idempotency_key ≡ key =
            ground (arith, e, eq_iff r.idempotency_key key) in
          rw e (
            ap (λ n. stored_action n key (write_commit rt r db).1) (sym same_name)
            ∙ ap (λ k. stored_action r.operation_name k (write_commit rt r db).1) (sym same_key)
            ∙ stored_action-write_commit rt r db h new)
      | inr e ↦ rw e (other_done name key e)
    ],
  )

  checked_write-IsImplementation :
      (o : Option ℕ)
      → r.expected_version ≡ o
      → stored_action r.operation_name r.idempotency_key db ≡ none
      → IsImplementation r (view db) none (checked_write rt r o db)
  unfolding checked_write
  checked_write-IsImplementation none e new =
      ((λ n k. absurd (ground (arith, e, k))), write_commit-IsSame new)
  checked_write-IsImplementation (some v) e new =
      elim (Bool-cases (current_version r.aggregate_kind r.aggregate_id db.heads == v)) [
        | inl same ↦
            rw (IsImplementation, checked_write, same)
              ((λ n k. ground (arith, e, k, same)), write_commit-IsSame new)
        | inr other ↦
            rw (IsImplementation, checked_write, other)
              (v, e, (λ same. ground (arith, other, same)), refl)
      ]

  -- Where the retry keys name actions of the table and the commit's action is a new one, `commit` does to
  -- the ledger what its view asks for: a key that is done answers its action and changes nothing; an
  -- expected version that is not the aggregate's raises the conflict with both versions; any other commit
  -- moves its aggregate one version on, makes its key name the action, and leaves every other version
  -- and every other key as they were.
  pub commit_implements :
      IsImplementation r
        (view db)
        (stored_action r.operation_name r.idempotency_key db)
        (commit rt r db)
  unfolding commit commit_from
  commit_implements = elim (Option-cases (stored_action r.operation_name r.idempotency_key db)) [
    | inl new ↦ rw (new, commit) (checked_write-IsImplementation r.expected_version refl new)
    | inr (b, stored) ↦ rw (stored, commit) (db, refl, ((λ kind i. refl), (λ name key. refl)))
  ]
