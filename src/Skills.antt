-- ===== src/Skills.antt =====
-- backend/app/modules/skills/service.py: what a run may bind, and how a version reaches a stage.
-- `shown` is the text of `sorted(operations)`.
pub mod Activation
use Prim.Native.String.{compare}
use Prim.Native.Nat.{Ordering}
use agent_quilt.Base.{
  ◌&&◌, Bool, true, false, not, Option, none, some, String, List, [], ◌∷◌, ◌++◌, find, filter, map,
  update_where, str_eq, if◌then◌else◌, concat, ◌==◌,
}
use agent_quilt.Base.Sorting.{sorted}
use agent_quilt.Json.{Json, JsonValue, text, end, field}
use agent_quilt.Store.{
  Db, M, Result, ok, raise, value_error, no_result, Stage, dev, qa, prod, Skill, SkillVersion,
  ExecutionMode, inline, delegated,
}
use agent_quilt.Registry.{stage_text}

pub record Bindable : Type 0 where
  pub name : String
  pub version_id : String
  pub execution_mode : ExecutionMode

abbrev pub same_stage : Stage → Stage → Bool
same_stage a b = str_eq (stage_text a) (stage_text b)

unfoldable pub text_le : String → String → Bool
text_le s t = elim (compare s t) [ Ordering.gt ↦ false | _ ↦ true ]

-- `order by name, id`
bindable_le : Bindable → Bindable → Bool
unfolding text_le
bindable_le a b =
    if str_eq a.name b.name then text_le a.version_id b.version_id else text_le a.name b.name

-- The versions of one skill at a stage.
versions_at : Stage → Skill → List SkillVersion → List Bindable
versions_at stage s versions =
    map (λ v. record { name = s.name; version_id = v.id; execution_mode = v.execution_mode })
      (filter (λ v. v.skill_id == s.id && same_stage v.stage stage) versions)

joined : Stage → List Skill → List SkillVersion → List Bindable
unfolding versions_at
joined stage [] versions = []
joined stage (s ∷ skills) versions = versions_at stage s versions ++ joined stage skills versions

unfoldable pub directory : Stage → Db → List Bindable
unfolding joined bindable_le sorted
directory stage db = sorted bindable_le (joined stage db.skills db.skill_versions)

-- An inline skill that declares operations.
abbrev pub is_barred : SkillVersion → Bool
is_barred v = elim v.execution_mode [
  | delegated ↦ false
  | inline ↦ elim v.operations [ end ↦ false | field _ _ _ ↦ true ]
]

abbrev pub find_version : String → List SkillVersion → Option SkillVersion
find_version i = find (λ v. str_eq v.id i)

abbrev pub staged : String → Stage → List SkillVersion → List SkillVersion
staged i stage = update_where (λ v. str_eq v.id i) (λ v. record v { stage = stage })

activate_version_row :
    (Json → String) → Stage → String → Option SkillVersion → Db → Result (Stage × Db)
activate_version_row shown stage i none db = raise no_result
activate_version_row shown stage i (some v) db =
    if is_barred v
    then raise (
        value_error (
          concat (
            "skill version "
            ∷ v.id
            ∷ " is inline and declares "
            ∷ shown v.operations
            ∷ "; an inline skill declares no operations (ADR-0013)"
            ∷ [])))
    else ok (v.stage, record db { skill_versions = staged i stage db.skill_versions })

-- The stage that the version left.
unfoldable pub activate : (Json → String) → String → Stage → M Stage
unfolding activate_version_row
activate shown i stage db = activate_version_row shown stage i (find_version i db.skill_versions) db

activated : String → Result (Stage × Db) → Result (Json × Db)
activated i (raise e) = raise e
activated i (ok (previous, db)) =
    ok (field "skill_version_id" (text i) (field "stage" (text (stage_text previous)) end), db)

-- `activate_version`, the operation's body: its result is the compensating call's arguments.
unfoldable pub activate_version : (Json → String) → String → Stage → M Json
unfolding activated activate
activate_version shown i stage db = activated i (activate shown i stage db)
