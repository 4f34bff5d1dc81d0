-- ===== src/Registry/Declaring.antt =====
-- What the checks of a declaration let through.
use agent_quilt.Base.{
  ◌≡◌, ◌≢◌, ◌↔◌, refl, true, Option, none, some, String, arith, eq_iff, str_eq_refl, Option-cases,
  inl, inr, length, Bool-cases, ◌==◌,
}
use agent_quilt.Base.Dict.{lookup, insert, lookup-insert}
use agent_quilt.Store.{ok, Result-cases}
use agent_quilt.Registry.{
  Mode, read, write, Reversal, reversible, draftable, irreversible, Declares, Handler, Operation,
  Registry, ArgsModel, is_read, is_read_verb, validate, validate_reversal, operation, register,
  operation_of, args_model_of, annotated,
}
use agent_quilt.Registry.Names.{codes, is_name, verb_of, has_underscore}

-- A read declares neither class nor compensator; a write declares a class, and a compensator just
-- when the class is reversible.
abbrev pub Consistent : Mode → Option Reversal → Option String → Type 0
Consistent read none none = Unit {0}
Consistent write (some reversible) (some _) = Unit {0}
Consistent write (some draftable) none = Unit {0}
Consistent write (some irreversible) none = Unit {0}
Consistent _ _ _ = ⊥

-- The name is `module.verb_noun`, and its verb is a reading verb just for a read.
abbrev pub IsNamedFor : String → Mode → Type 0
IsNamedFor name mode =
    (is_name (codes name) ≡ true)
    × (has_underscore (verb_of (codes name)) ≡ true)
    × (is_read_verb (verb_of (codes name)) ≡ is_read mode)

reversal_checked :
    (m : Mode) (r : Option Reversal) (c : Option String) (d : Declares)
    → d.mode ≡ m
    → d.reversal ≡ r
    → d.compensator ≡ c
    → validate_reversal d ≡ ok tt
    → Consistent m r c
unfolding validate_reversal
reversal_checked read none none d em er ec h = tt
reversal_checked read none (some _) d em er ec h = ground arith
reversal_checked read (some _) c d em er ec h = ground arith
reversal_checked write none c d em er ec h = ground arith
reversal_checked write (some reversible) none d em er ec h = ground arith
reversal_checked write (some reversible) (some _) d em er ec h = tt
reversal_checked write (some draftable) none d em er ec h = tt
reversal_checked write (some draftable) (some _) d em er ec h = ground arith
reversal_checked write (some irreversible) none d em er ec h = tt
reversal_checked write (some irreversible) (some _) d em er ec h = ground arith

reversal_accepted :
    (d : Declares) → Consistent d.mode d.reversal d.compensator → validate_reversal d ≡ ok tt
unfolding validate_reversal
reversal_accepted d h = ground arith

names_checked :
    (name : String) (d : Declares)
    → validate name d ≡ ok tt
    → IsNamedFor name d.mode × (validate_reversal d ≡ ok tt)
unfolding validate
names_checked name d h = ground arith

names_accepted :
    (name : String) (d : Declares)
    → IsNamedFor name d.mode
    → validate_reversal d ≡ ok tt
    → validate name d ≡ ok tt
unfolding validate
names_accepted name d n h = ground arith

-- A declaration is accepted exactly if its name fits its mode and its reversal class and compensator
-- are consistent with the mode.
pub validate_iff :
    (name : String) (d : Declares)
    → (validate name d ≡ ok tt)
      ↔ (IsNamedFor name d.mode × Consistent d.mode d.reversal d.compensator)
validate_iff name d = (
  λ h.
      let (named, checked) = names_checked name d h in
      (named, reversal_checked d.mode d.reversal d.compensator d refl refl refl checked),
  λ h. names_accepted name d h.0 (reversal_accepted d h.1),
)

-- The function is a coroutine of two parameters, the second annotated with the model.
abbrev pub IsHandler : Handler → ArgsModel → Type 0
IsHandler fn m = (fn.is_coroutine ≡ true) × (length fn.parameters ≡ 2) × (fn.annotation ≡ some m)

args_model_of-IsHandler : (fn : Handler) (m : ArgsModel) → args_model_of fn ≡ ok m → IsHandler fn m
unfolding args_model_of annotated
args_model_of-IsHandler fn m h = elim (Option-cases fn.annotation) [
  | inl bare ↦ absurd (ground (arith, h, bare))
  | inr (x, e) ↦ elim (Bool-cases fn.is_coroutine) [
    | inr plain ↦ absurd (ground (arith, h, plain))
    | inl awaited ↦ elim (Bool-cases (length fn.parameters == 2)) [
      | inr other ↦ absurd (ground (arith, h, awaited, other))
      | inl two ↦ (awaited, ground (arith, two), ground (arith, h, awaited, two, e))
    ]
  ]
]

-- The operation that a registration adds, and the registration's conditions.
pub record Declared (name : String) (d : Declares) (fn : Handler) (reg after : Registry)
    : Type 0 where
  pub op : Operation
  pub was_new : lookup name reg ≡ none
  pub added : lookup name after ≡ some op
  pub same_name : op.name ≡ name
  pub is_as_declared :
      (op.mode ≡ d.mode)
      × (op.reversal ≡ d.reversal)
      × (op.taint ≡ d.taint)
      × (op.compensator ≡ d.compensator)
      × (op.aggregate ≡ d.aggregate)
      × (op.stage ≡ d.stage)
  pub handled : IsHandler fn op.args_model × (op.fn ≡ fn.fn) × (op.description ≡ fn.summary)
  pub named : IsNamedFor op.name op.mode
  pub consistent : Consistent op.mode op.reversal op.compensator
  pub others : (j : String) → name ≢ j → lookup j after ≡ lookup j reg

registered_model :
    (name : String) (d : Declares) (fn : Handler) (reg : Registry) {after : Registry}
    → register name d fn reg ≡ ok after
    → (m : ArgsModel) × (lookup name reg ≡ none)
      × IsHandler fn m
      × (insert name (operation_of name d fn m) reg ≡ after)
unfolding register
registered_model name d fn reg h = elim (Option-cases (lookup name reg)) [
  | inl new ↦ elim (Result-cases (args_model_of fn)) [
    | inl (m, e) ↦ (m, new, args_model_of-IsHandler fn m e, ground (arith, new, e))
    | inr (x, e) ↦ absurd (ground (arith, new, e))
  ]
  | inr (op, old) ↦ absurd (ground (arith, old))
]

-- A registration that returns was of a new name, with a declaration that is in order and a coroutine
-- function of two parameters whose second is annotated with a model. It adds one operation under that
-- name, with the mode, the classes, the compensator, the aggregate and the stage of the declaration and
-- the body, the model and the summary of the function, and changes none of the others.
pub operation_declares :
    (name : String) (d : Declares) (fn : Handler) (reg : Registry) {after : Registry}
    → operation name d fn reg ≡ ok after
    → Declared name d fn reg after
unfolding operation
operation_declares name d fn reg {after} h =
    let accepted : validate name d ≡ ok tt = ground arith in
    let (m, new, handler, e) = registered_model name d fn reg {after = after} (ground arith) in
    let (named, consistent) = (validate_iff name d).0 accepted in
    record {
      op = operation_of name d fn m;
      was_new = new;
      added = rw (← e, lookup-insert, str_eq_refl name);
      same_name = refl;
      is_as_declared = (refl, refl, refl, refl, refl, refl);
      handled = (handler, refl, refl);
      named = named;
      consistent = consistent;
      others = λ j ne. rw (← e, lookup-insert) (ground (arith, eq_iff name j));
    }
