-- ===== src/Skills/Activation.antt =====
-- Activating a version is undone by activating it at the stage that it left.
use agent_quilt.Base.{
  ◌≡◌, refl, true, false, Option, some, String, List, [], ◌∷◌, arith, str_eq, Bool-cases, inl, inr,
  All, ap, sym,
}
use agent_quilt.Json.{Json}
use agent_quilt.Store.{Db, Result, ok, Stage, SkillVersion}
use agent_quilt.Skills.{activate, activate_version_row, find_version, staged, is_barred}

-- The identifier is a key: the rows that have it are all the one that it finds.
abbrev pub IsKeyed : String → SkillVersion → List SkillVersion → Type 0
IsKeyed i v rows = All (λ x. str_eq x.id i ≡ true → x ≡ v) rows

abbrev at_stage : Stage → SkillVersion → Option SkillVersion
at_stage stage v = some (record v { stage = stage })

find-staged :
    (i : String) (stage : Stage) (v : SkillVersion) (rows : List SkillVersion)
    → find_version i rows ≡ some v
    → find_version i (staged i stage rows) ≡ at_stage stage v
find-staged i stage v [] h = absurd (ground arith)
find-staged i stage v (x ∷ rows) h = elim (Bool-cases (str_eq x.id i)) [
  | inl e ↦
      rw (e, e)
        (let same : x ≡ v = (let k = rw e at h in ground arith) in
          ap (λ (y : SkillVersion). at_stage stage y) same)
  | inr e ↦ rw (e, e) (find-staged i stage v rows (rw e at h))
]

staged-staged :
    (i : String) (stage : Stage) (v : SkillVersion) (rows : List SkillVersion)
    → IsKeyed i v rows
    → staged i v.stage (staged i stage rows) ≡ rows
staged-staged i stage v [] h = refl
staged-staged i stage v (x ∷ rows) (this, h) = elim (Bool-cases (str_eq x.id i)) [
  | inl e ↦
      rw (e, e, staged-staged i stage v rows h)
        (let back : Stage → List SkillVersion = λ w. record x { stage = w } ∷ rows in
          ap back (sym (ap (λ (y : SkillVersion). y.stage) (this e))))
  | inr e ↦ rw (e, e, staged-staged i stage v rows h) refl
]

-- A version that is not barred (inline with operations) is activated at any stage, which returns the
-- stage that it left; activating it at that stage afterwards restores the database exactly, where
-- its identifier is a key.
pub activate_undo :
    (shown : Json → String) (i : String) (stage : Stage) (db : Db) (v : SkillVersion)
    → find_version i db.skill_versions ≡ some v
    → is_barred v ≡ false
    → IsKeyed i v db.skill_versions
    → (after : Db) × (activate shown i stage db ≡ ok (v.stage, after))
      × (find_version i after.skill_versions ≡ some (record v { stage = stage }))
      × (activate shown i v.stage after ≡ ok (stage, db))
unfolding activate activate_version_row
activate_undo shown i stage db v found free keyed =
    let versions = staged i stage db.skill_versions in
    let there = find-staged i stage v db.skill_versions found in
    let back : List SkillVersion → Result (Stage × Db) =
      λ rows. ok (stage, record db { skill_versions = rows }) in
    (
      record db { skill_versions = versions },
      rw (found, free) refl,
      there,
      rw (there, free) (ap back (staged-staged i stage v db.skill_versions keyed)),
    )
