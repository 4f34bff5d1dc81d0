-- ===== src/Ledger/Streams.antt =====
-- The streams of the ledger: every aggregate's commits are numbered 1, 2, 3, …, and its head is the
-- last of them.
use agent_quilt.Base.{
  countdown, countdown-add_one, ℕ, suc, ◌+◌, ◌≡◌, refl, ◌==◌, str_eq, ◌&&◌, Bool, true, false,
  Option, none, some, List, ◌∷◌, arith, find, filter, map, if◌then◌else◌, String, Option-cases,
  Bool-cases, inl, inr, eq_iff, find_holds, find-update_where, str_eq_refl, ==_refl,
}
use mathlib.Core.Path.{ap₂, subst}
use agent_quilt.Runtime.{Uuid, Runtime}
use agent_quilt.Store.{Db, Event, EventKind, operation_commit, StreamHead, ok, Action}
use agent_quilt.Ledger.Writes.{commit-eq-ok}
use agent_quilt.Ledger.{
  Commit, Append, commit, append, write_commit, is_stream, version_of, current_version, move_head,
}

abbrev pub is_commit : EventKind → Bool
is_commit operation_commit = true
is_commit _ = false

abbrev pub is_commit_of : String → Uuid → Event → Bool
is_commit_of kind i e = is_commit e.kind && str_eq e.aggregate_kind kind && e.aggregate_id == i

-- The versions of an aggregate's commits, the newest first.
unfoldable pub commit_versions : String → Uuid → List Event → List ℕ
commit_versions kind i events = map (λ e. e.aggregate_version) (filter (is_commit_of kind i) events)

-- Each aggregate's commits carry the versions from 1 up to the version of its head, none twice and
-- none left out.
abbrev pub IsNumbered : Db → Type 0
IsNumbered db =
    (kind : String) (i : Uuid)
    → commit_versions kind i db.events ≡ countdown (current_version kind i db.heads)

-- After a commit to the stream of `kind` and `i`, seen from the stream of `k` and `j`.
current_version-move_head_other :
    (kind k : String) (i j : Uuid) (v e : ℕ) (o : Option StreamHead) (heads : List StreamHead)
    → (str_eq kind k && i == j) ≡ false
    → current_version k j (move_head kind i v e o heads) ≡ current_version k j heads
current_version-move_head_other kind k i j v e none heads ne = ground arith
current_version-move_head_other kind k i j v e (some h) heads ne =
    rw
      (find-update_where (is_stream k j) (is_stream kind i)
        (λ x. record x { version = v; last_event_id = e }) heads (λ x. refl))
      (elim (Option-cases (find (is_stream k j) heads)) [
        | inl no_head ↦ rw no_head refl
        | inr (g, found) ↦ ground (
          arith,
          found,
          find_holds (is_stream k j) heads g found,
          eq_iff g.aggregate_kind kind,
          eq_iff g.aggregate_kind k,
          eq_iff kind k,
        )
      ])

current_version-move_head_self :
    (kind : String) (i : Uuid) (e : ℕ) (heads : List StreamHead)
    → let head = find (is_stream kind i) heads in
      current_version kind i (move_head kind i (version_of head + 1) e head heads)
      ≡ current_version kind i heads + 1
current_version-move_head_self kind i e heads =
    elim (Option-cases (find (is_stream kind i) heads)) [
      | inl no_head ↦ rw no_head (ground (arith, str_eq_refl kind, ==_refl i))
      | inr (g, found) ↦ ground (
        arith,
        found,
        find_holds (is_stream kind i) heads g found,
        find-update_where (is_stream kind i) (is_stream kind i)
            (λ x. record x { version = g.version + 1; last_event_id = e }) heads (λ x. refl),
      )
    ]

pub current_version-move_head :
    (kind k : String) (i j : Uuid) (e : ℕ) (heads : List StreamHead)
    → let head = find (is_stream kind i) heads in
      current_version k j (move_head kind i (version_of head + 1) e head heads) ≡ (
        if str_eq kind k && i == j
        then current_version k j heads + 1
        else current_version k j heads)
current_version-move_head kind k i j e heads = elim (Bool-cases (str_eq kind k && i == j)) [
  | inl same ↦
      let same_kind : kind ≡ k = ground (arith, eq_iff kind k) in
      let same_id : i ≡ j = ground arith in
      rw same (rw (← same_kind, ← same_id) (current_version-move_head_self kind i e heads))
  | inr other ↦
      rw other
        (current_version-move_head_other kind k i j _ e (find (is_stream kind i) heads) heads other)
]

-- An append is no commit, so it numbers nothing.
pub append-IsNumbered : (r : Append) (db : Db) → IsNumbered db → IsNumbered (append r db).1
unfolding append commit_versions
append-IsNumbered r db h kind i = ground (arith, h kind i)

pub write_commit-IsNumbered :
    (rt : Runtime) (r : Commit) (db : Db) → IsNumbered db → IsNumbered (write_commit rt r db).1
unfolding write_commit commit_versions
write_commit-IsNumbered rt r db h kind i =
    let moved =
      current_version-move_head r.aggregate_kind kind r.aggregate_id i (suc db.event_seq)
        db.heads in
    rw moved (elim (Bool-cases (str_eq r.aggregate_kind kind && r.aggregate_id == i)) [
      | inl same ↦
          let same_kind : r.aggregate_kind ≡ kind = ground (arith, eq_iff r.aggregate_kind kind) in
          let same_id : r.aggregate_id ≡ i = ground arith in
          rw (same, countdown-add_one)
            (ap₂ (λ (n : ℕ) (l : List ℕ). (n + 1) ∷ l)
              (ap₂ (λ k j. current_version k j db.heads) same_kind same_id) (h kind i))
      | inr other ↦ rw (other, h kind i)
    ])

-- A commit keeps the numbering: where the commits of each aggregate are the versions from 1 to its
-- head's, they are so after a commit that returns, whether it writes or replays.
pub commit-IsNumbered :
    (rt : Runtime) (r : Commit) (db : Db) {a : Action} {after : Db}
    → IsNumbered db
    → commit rt r db ≡ ok (a, after)
    → IsNumbered after
commit-IsNumbered rt r db h e = elim (commit-eq-ok rt r db e) [
  | inl (_, same) ↦ rw same h
  | inr (_, _, written) ↦
      subst (λ (w : Action × Db). IsNumbered w.1) written (write_commit-IsNumbered rt r db h)
]
