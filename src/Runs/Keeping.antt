-- ===== src/Runs/Keeping.antt =====
-- A message to a run that is not done changes neither the runs nor the queue.
use agent_quilt.Base.{
  ◌≡◌, ◌≢◌, refl, true, some, arith, inl, inr, Option-cases, Bool-cases, ap, suc, ◌∷◌, count,
}
use agent_quilt.Json.{Json}
use agent_quilt.Runtime.{Uuid, Runtime}
use agent_quilt.Store.{
  Db, Session, Run, RunState, queued, running, waiting_approval, done, failed, cancelled, find_run,
  MessageKind, is_done,
}
use agent_quilt.Store.Keeping.{IsStable, Keeps, of_work}
use agent_quilt.Runs.{is_of, post, post_to, post_message, answered, new_message}
use agent_quilt.Runs.Scheduling.{IsScheduled, wanted, state_at, wake-IsScheduled}

module _ (P : Db → Type 0) (stable : IsStable P) (rt : Runtime) (s : Session) (i : Uuid)
    (kind : MessageKind) (body : Json) where
  post_to-Keeps :
      (d : Db) (r : Run) (state : RunState)
      → r.state ≡ state
      → state ≢ done
      → P d
      → Keeps P (post_to rt s i kind body (some r) d)
  unfolding post_to post_message
  post_to-Keeps d r running e ne h = rw e (stable d _ (refl, refl) h)
  post_to-Keeps d r queued e ne h = rw e (stable d _ (refl, refl) h)
  post_to-Keeps d r waiting_approval e ne h = rw e (stable d _ (refl, refl) h)
  post_to-Keeps d r cancelled e ne h = rw e h
  post_to-Keeps d r failed e ne h = rw e h
  post_to-Keeps d r done e ne h = absurd (ne refl)

  pub post-Keeps :
      (d : Db) → state_at i d.runs ≢ some done → P d → Keeps P (post rt s i kind body d)
  unfolding post post_to
  post-Keeps d ne h = elim (Option-cases (find_run i d.runs)) [
    | inl e ↦ rw (e, post) h
    | inr (r, e) ↦
        rw (e, post) (post_to-Keeps d r r.state refl (λ same. ne (rw e (ap some same))) h)
  ]

IsScheduled-IsStable : IsStable IsScheduled
IsScheduled-IsStable =
    of_work (λ runs queue. (j : Uuid) → count (is_of j) queue ≡ wanted (state_at j runs))

done_only : (s : RunState) → is_done s ≡ true → s ≡ done
done_only s e = ground (arith, e)

-- A message keeps runs and queue in agreement: one to a finished run wakes it.
module _ (rt : Runtime) (s : Session) (i : Uuid) (kind : MessageKind) (body : Json) (db : Db)
    (h : IsScheduled db) where
  post_to_done :
      (r : Run) → r.state ≡ done → Keeps IsScheduled (post_to rt s i kind body (some r) db)
  unfolding post_to post_message answered
  post_to_done r e =
      let (after, woken, agrees, _, _) =
        wake-IsScheduled i
          (record db {
            draws = suc db.draws;
            mailbox = new_message rt s i kind body db ∷ db.mailbox;
          })
          h in
      rw (e, woken) agrees

  pub post-IsScheduled : Keeps IsScheduled (post rt s i kind body db)
  unfolding post post_to
  post-IsScheduled = elim (Option-cases (find_run i db.runs)) [
    | inl e ↦ rw (e, post) h
    | inr (r, e) ↦ elim (Bool-cases (is_done r.state)) [
      | inl t ↦ rw (e, post) (post_to_done r (done_only r.state t))
      | inr t ↦
          post-Keeps IsScheduled IsScheduled-IsStable rt s i kind body db
            (λ f. ground (arith, e, t, f)) h
    ]
  ]
