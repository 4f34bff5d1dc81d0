-- ===== src/Registry/Publishing.antt =====
-- The versions of the registered operations (backend/app/kernel/declare/registry.py, `publish`).
use agent_quilt.Base.{
  ◌≡◌, ◌≢◌, refl, none, some, List, [], ◌∷◌, ◌++◌, arith, find, str_eq, str_eq_refl, Option-cases,
  inl, inr, Bool-cases, All, ap, ◌∙◌, sym,
}
use mathlib.Core.Path.{subst}
use mathlib.Core.List.{Mem, mem-cons_self, mem-cons_of_mem, append_assoc}
use agent_quilt.Runtime.{Runtime}
use agent_quilt.Store.{Db, OperationVersion}
use agent_quilt.Registry.{
  Operation, Registry, operations, declaration, version_id, publish, publish_one, publish_all,
}

-- The row of an operation: its digest, its name, its stage and its whole declaration.
abbrev pub IsVersionOf : Runtime → Operation → OperationVersion → Type 0
IsVersionOf rt op v =
    (v.id ≡ version_id rt op)
    × (v.operation_name ≡ op.name)
    × (v.stage ≡ op.stage)
    × (v.declaration ≡ declaration op)

abbrev pub HasVersion : Runtime → List OperationVersion → Operation → Type 0
HasVersion rt rows op = find (λ (v : OperationVersion). str_eq v.id (version_id rt op)) rows ≢ none

-- The rows are those from before and, ahead of them, rows of some of these operations.
abbrev pub Adds : Runtime → List Operation → List OperationVersion → List OperationVersion → Type 0
Adds rt ops rows after =
    (new : List OperationVersion) × (after ≡ new ++ rows)
    × All (λ v. (op : Operation) × Mem op ops × IsVersionOf rt op v) new

module _ (rt : Runtime) where
  abbrev row : Operation → OperationVersion
  row op = record {
    id = version_id rt op;
    operation_name = op.name;
    stage = op.stage;
    declaration = declaration op;
  }

  stays :
      (op : Operation) (rows : List OperationVersion) (v : OperationVersion)
      → find (λ (x : OperationVersion). str_eq x.id (version_id rt op)) rows ≡ some v
      → publish_one rt op rows ≡ rows
  unfolding publish_one
  stays op rows v e = rw (publish_one, e) refl

  grows :
      (op : Operation) (rows : List OperationVersion)
      → find (λ (x : OperationVersion). str_eq x.id (version_id rt op)) rows ≡ none
      → publish_one rt op rows ≡ row op ∷ rows
  unfolding publish_one
  grows op rows e = rw (publish_one, e) refl

  published_has :
      (op : Operation) (rows : List OperationVersion) → HasVersion rt (publish_one rt op rows) op
  published_has op rows =
      elim (Option-cases (find (λ (v : OperationVersion). str_eq v.id (version_id rt op)) rows)) [
        | inr (v, e) ↦
            subst (λ x. HasVersion rt x op) (sym (stays op rows v e)) (λ h. ground (arith, e, h))
        | inl e ↦
            subst (λ x. HasVersion rt x op) (sym (grows op rows e))
              (λ h. ground (arith, h, str_eq_refl (version_id rt op)))
      ]

  published_keeps :
      (op other : Operation) (rows : List OperationVersion)
      → HasVersion rt rows other
      → HasVersion rt (publish_one rt op rows) other
  published_keeps op other rows h =
      elim (Option-cases (find (λ (v : OperationVersion). str_eq v.id (version_id rt op)) rows)) [
        | inr (v, e) ↦ subst (λ x. HasVersion rt x other) (sym (stays op rows v e)) h
        | inl e ↦
            subst (λ x. HasVersion rt x other) (sym (grows op rows e))
              (elim (Bool-cases (str_eq (version_id rt op) (version_id rt other))) [
                | inl same ↦ (λ k. ground (arith, same, k))
                | inr differs ↦ (λ k. h (ground (arith, differs, k)))
              ])
      ]

  all_keeps :
      (other : Operation) (ops : List Operation) (rows : List OperationVersion)
      → HasVersion rt rows other
      → HasVersion rt (publish_all rt ops rows) other
  unfolding publish_all
  all_keeps other [] rows h = h
  all_keeps other (op ∷ ops) rows h =
      all_keeps other ops (publish_one rt op rows) (published_keeps op other rows h)

  all_have :
      (ops : List Operation) (rows : List OperationVersion)
      → All (HasVersion rt (publish_all rt ops rows)) ops
  unfolding publish_all
  all_have [] rows = tt
  all_have (op ∷ ops) rows = (
    all_keeps op ops (publish_one rt op rows) (published_has op rows),
    all_have ops (publish_one rt op rows),
  )

  -- Where all have their rows, none is added.
  all_there :
      (ops : List Operation) (rows : List OperationVersion)
      → All (HasVersion rt rows) ops
      → publish_all rt ops rows ≡ rows
  unfolding publish_all
  all_there [] rows h = refl
  all_there (op ∷ ops) rows (this, h) =
      elim (Option-cases (find (λ (v : OperationVersion). str_eq v.id (version_id rt op)) rows)) [
        | inr (v, e) ↦ ap (publish_all rt ops) (stays op rows v e) ∙ all_there ops rows h
        | inl e ↦ absurd (this e)
      ]

  later :
      (op : Operation) (ops : List Operation) (new : List OperationVersion)
      → All (λ v. (o : Operation) × Mem o ops × IsVersionOf rt o v) new
      → All (λ v. (o : Operation) × Mem o (op ∷ ops) × IsVersionOf rt o v) new
  later op ops [] h = tt
  later op ops (v ∷ new) ((o, there, same), h) =
      ((o, mem-cons_of_mem op there, same), later op ops new h)

  snoc :
      (P : OperationVersion → Type 0) (new : List OperationVersion) (v : OperationVersion)
      → All P new
      → P v
      → All P (new ++ v ∷ [])
  snoc P [] v h p = (p, tt)
  snoc P (x ∷ new) v (this, h) p = (this, snoc P new v h p)

  all_add :
      (ops : List Operation) (rows : List OperationVersion)
      → Adds rt ops rows (publish_all rt ops rows)
  unfolding publish_all
  all_add [] rows = ([], refl, tt)
  all_add (op ∷ ops) rows =
      elim (Option-cases (find (λ (v : OperationVersion). str_eq v.id (version_id rt op)) rows)) [
        | inr (v, e) ↦
            let (new, same, all) = all_add ops rows in
            (new, ap (publish_all rt ops) (stays op rows v e) ∙ same, later op ops new all)
        | inl e ↦
            let (new, same, all) = all_add ops (row op ∷ rows) in
            (
              new ++ row op ∷ [],
              ap (publish_all rt ops) (grows op rows e)
                  ∙ same
                  ∙ sym (append_assoc new (row op ∷ []) rows),
              snoc _ new (row op) (later op ops new all)
                  (op, mem-cons_self, (refl, refl, refl, refl)),
            )
      ]

-- Publishing keeps every row of the table and adds only rows of the registered operations, each with the
-- operation's digest, name, stage and declaration. Afterwards every registered operation has a row under
-- its digest, and publishing again changes nothing.
pub publish_once :
    (rt : Runtime) (reg : Registry) (db : Db)
    → Adds rt (operations reg) db.versions (publish rt reg db).versions
      × All (HasVersion rt (publish rt reg db).versions) (operations reg)
      × (publish rt reg (publish rt reg db) ≡ publish rt reg db)
unfolding publish
publish_once rt reg db =
    let had = all_have rt (operations reg) db.versions in
    (
      all_add rt (operations reg) db.versions,
      had,
      ap (λ rows. record db { versions = rows }) (all_there rt (operations reg) _ had),
    )
