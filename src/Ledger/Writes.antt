-- ===== src/Ledger/Writes.antt =====
-- What `commit` does on each branch: the replay, the lost race and the write.
use agent_quilt.Base.{
  ℕ, ◌≡◌, refl, ◌⊎◌, Option, none, some, List, [], ◌∷◌, arith, find, String, Option-cases, inl, inr,
  str_eq_refl, and_then,
}
use agent_quilt.Runtime.{Uuid, Runtime}
use agent_quilt.Store.{Db, ok, Action, IdempotencyKey}
use agent_quilt.Ledger.{
  Commit, commit, write_commit, current_version, stored_action, checked_write, commit_from, is_key,
  complete_key,
}

-- The expectation of a caller about the version: none, or the version itself.
abbrev pub Agrees : Option ℕ → ℕ → Type 0
Agrees none actual = Unit
Agrees (some e) actual = actual ≡ e

-- The version that a request's aggregate has.
abbrev pub version_at : Commit → Db → ℕ
version_at r db = current_version r.aggregate_kind r.aggregate_id db.heads

module _ (rt : Runtime) (r : Commit) (db : Db) where
  checked_write-eq-ok :
      (o : Option ℕ) {a : Action} {after : Db}
      → checked_write rt r o db ≡ ok (a, after)
      → Agrees o (version_at r db) × (write_commit rt r db ≡ (a, after))
  unfolding checked_write
  checked_write-eq-ok none e = (tt, ground arith)
  checked_write-eq-ok (some v) e = (ground arith, ground arith)

  checked_write-Agrees :
      (o : Option ℕ)
      → Agrees o (version_at r db)
      → checked_write rt r o db ≡ ok (write_commit rt r db)
  unfolding checked_write
  checked_write-Agrees none h = refl
  checked_write-Agrees (some v) h = ground arith

  -- A commit that returns was a replay that changed nothing, or a write at the expected version.
  pub commit-eq-ok :
      {a : Action} {after : Db}
      → commit rt r db ≡ ok (a, after)
      → ((stored_action r.operation_name r.idempotency_key db ≡ some a) × (after ≡ db))
        ⊎ ((stored_action r.operation_name r.idempotency_key db ≡ none)
            × Agrees r.expected_version (version_at r db)
            × (write_commit rt r db ≡ (a, after)))
  unfolding commit_from commit
  commit-eq-ok e = elim (Option-cases (stored_action r.operation_name r.idempotency_key db)) [
    | inl fresh ↦
        let (agrees, written) = checked_write-eq-ok r.expected_version (rw (fresh, commit) at e) in
        inr (fresh, agrees, written)
    | inr (b, stored) ↦ inl (ground arith, ground arith)
  ]

  pub commit_fresh :
      stored_action r.operation_name r.idempotency_key db ≡ none
      → Agrees r.expected_version (version_at r db)
      → commit rt r db ≡ ok (write_commit rt r db)
  unfolding commit
  commit_fresh fresh h = rw (fresh, commit) (checked_write-Agrees r.expected_version h)

pub find-complete_key :
    (name key : String) (i : Uuid) (ks : List IdempotencyKey)
    → and_then (find (is_key name key) ks) (λ k. k.action_id) ≡ none
    → and_then (find (is_key name key) (complete_key name key i ks)) (λ k. k.action_id) ≡ some i
find-complete_key name key i [] h = ground (arith, str_eq_refl name, str_eq_refl key)
find-complete_key name key i (k ∷ ks) h = ground (arith, find-complete_key name key i ks)
