-- ===== src/Dispatch/Once.antt =====
-- A committed call runs once: made again, it is answered from the ledger.
use mathlib.Core.Path.{subst, subst₂, sym, ◌∙◌}
use agent_quilt.Base.{
  ◌≡◌, refl, Option, some, String, List, [], ◌∷◌, find, arith, Bool-cases, inl, inr, and_then, All,
  ap,
}
use agent_quilt.Base.Dict.{lookup}
use agent_quilt.Json.{Json}
use agent_quilt.Runtime.{Runtime}
use agent_quilt.Store.{Db, ok, Action, IdempotencyKey}
use agent_quilt.Ledger.{stored_action, reserve_key, is_key}
use agent_quilt.Ledger.Replay.{IsReferential, Refers}
use agent_quilt.Registry.{CallContext, Operation, Registry}
use agent_quilt.Dispatch.{
  Call, committed, replayed, dispatch, reserved_call, known_call, reserve, idempotency_key,
}
use agent_quilt.Dispatch.Remembering.{KeepsReferences, Remembers, reserved_call-Remembers}

reserve_key-Refers :
    (name key : String) (actions : List Action) (ks : List IdempotencyKey)
    → All (λ k. Refers k.action_id actions) ks
    → All (λ k. Refers k.action_id actions) (reserve_key name key ks)
reserve_key-Refers name key actions [] h = (tt, tt)
reserve_key-Refers name key actions (k ∷ ks) h = elim (Bool-cases (is_key name key k)) [
  | inl e ↦ rw e h
  | inr e ↦ rw e (h.0, reserve_key-Refers name key actions ks h.1)
]

-- A key that names an action is there, so reserving it changes nothing.
reserve_key_stored :
    (name key : String) (f : IdempotencyKey → Option Action) {a : Action} (ks : List IdempotencyKey)
    → and_then (find (is_key name key) ks) f ≡ some a
    → reserve_key name key ks ≡ ks
reserve_key_stored name key f {a} [] h = absurd (ground arith)
reserve_key_stored name key f {a} (k ∷ ks) h =
    ground (arith, reserve_key_stored name key f {a = a} ks)

reserve_stored :
    (name key : String) (db : Db) {a : Action}
    → stored_action name key db ≡ some a
    → reserve name key db ≡ (some a, db)
unfolding reserve stored_action
reserve_stored name key db {a} h = rw (reserve_key_stored name key _ {a = a} db.keys h, h) refl

-- A call of a registered operation that committed an action, made again under the same operation name
-- and reservation key, is answered by that action: nothing runs and no table changes, whatever its
-- arguments, its grants or its clock are then. It takes an operation registered under its own name
-- whose body keeps the foreign key of the retry keys, on a database where it holds.
pub dispatch_again :
    (rt : Runtime) (registry : Registry) (ctx ctx' : CallContext) (call call' : Call)
    (op : Operation) (db : Db) {action : Action} {result : Json} {after : Db}
    → lookup call.operation_name registry ≡ some op
    → op.name ≡ call.operation_name
    → KeepsReferences op
    → IsReferential db
    → call'.operation_name ≡ call.operation_name
    → idempotency_key rt ctx' call' ≡ idempotency_key rt ctx call
    → dispatch rt registry ctx call db ≡ ok (committed (some action) result, after)
    → dispatch rt registry ctx' call' after ≡ ok (replayed action, after)
unfolding dispatch reserve
dispatch_again rt registry ctx ctx' call call' op db {action} {result} {after} declared named keeps
      h same_name same_key e =
    let first =
      reserved_call-Remembers rt ctx call op named keeps _ _ (
        reserve_key-Refers call.operation_name (idempotency_key rt ctx call) db.actions db.keys
          h) in
    let stored : stored_action call.operation_name (idempotency_key rt ctx call) after
        ≡ some action =
      subst (Remembers rt ctx call op named keeps) (rw (declared, dispatch, known_call) at e)
        first in
    let found : stored_action call'.operation_name (idempotency_key rt ctx' call') after
        ≡ some action =
      subst₂ (λ name key. stored_action name key after ≡ some action) (sym same_name) (sym same_key)
        stored in
    ap (λ o. known_call rt ctx' call' o after) (ap (λ n. lookup n registry) same_name ∙ declared)
    ∙ ap (reserved_call rt ctx' call' op)
        (reserve_stored call'.operation_name (idempotency_key rt ctx' call') after found)
