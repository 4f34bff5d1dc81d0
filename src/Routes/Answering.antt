-- ===== src/Routes/Answering.antt =====
-- How a decision or an undo over HTTP ends.
use agent_quilt.Base.{◌≡◌, refl, none, suc, find, String, ℕ}
use agent_quilt.Json.{Json}
use agent_quilt.Runtime.{Time, Runtime}
use agent_quilt.Store.{Db, Session, Result, ok, raise}
use agent_quilt.Ledger.{is_key}
use agent_quilt.Registry.{Registry}
use agent_quilt.Dispatch.{Outcome, committed, replayed, denied, waiting, dispatch, idempotency_key}
use agent_quilt.Dispatch.Outside.{IsAnswered, dispatch-IsAnswered}
use agent_quilt.Tenancy.{Served, served, refused, failed}
use agent_quilt.Routes.{in_session, outside_context, outside_call, answered, call_operation}

-- The answer of a call and the database it leaves, by what its dispatch did.
abbrev pub IsAnswerOf : Db → Result (Outcome × Db) → Served Json × Db → Type 0
IsAnswerOf db (ok (committed a result, after)) r = r ≡ (served result, after)
IsAnswerOf db (ok (denied reason e, after)) r = r ≡ (refused 403 reason, db)
IsAnswerOf db (ok (replayed a, after)) r = ⊥
IsAnswerOf db (ok (waiting a t, after)) r = ⊥
IsAnswerOf db (raise e) r = r ≡ (failed e, db)

answered-IsAnswerOf :
    (db : Db) (name : String) (r : Result (Outcome × Db))
    → IsAnswered r
    → IsAnswerOf db r (in_session db (answered name r))
answered-IsAnswerOf db name (raise e) h = refl
answered-IsAnswerOf db name (ok (committed a result, after)) h = refl
answered-IsAnswerOf db name (ok (denied reason e, after)) h = refl
answered-IsAnswerOf db name (ok (replayed a, after)) h = absurd h
answered-IsAnswerOf db name (ok (waiting a t, after)) h = absurd h

-- A decision or an undo over HTTP, whose tool call has a fresh key, never meets an outcome that it
-- does not expect: an operation that ran is answered with its result and committed, a denied one is
-- answered with 403, and a raise is passed on. In the last two cases the request leaves the database as
-- it found it: the ledger does not keep the denial of the call.
pub call_operation_settles :
    (rt : Runtime) (registry : Registry) (s : Session) (clock : ℕ → Time) (name : String)
    (args : Json) (db : Db)
    → find
        (is_key name (idempotency_key rt (outside_context s clock) (outside_call rt name args db)))
        db.keys
      ≡ none
    → IsAnswerOf db
        (dispatch rt registry
          (outside_context s clock)
          (outside_call rt name args db)
          (record db { draws = suc db.draws }))
        (in_session db (call_operation rt registry s clock name args db))
unfolding call_operation
call_operation_settles rt registry s clock name args db fresh = answered-IsAnswerOf db name _ (
    dispatch-IsAnswered rt (outside_context s clock) (outside_call rt name args db) refl registry
      (record db { draws = suc db.draws }) fresh)
