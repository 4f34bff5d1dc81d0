-- ===== src/Runs/Mailbox.antt =====
-- The mailbox of a run is numbered without gaps, and a message wakes a finished run.
use agent_quilt.Base.{
  ℕ, zero, suc, ◌+◌, ◌≡◌, refl, ◌==◌, Option, none, some, List, [], ◌∷◌, arith, map, filter,
  Bool-cases, Option-cases, inl, inr, countdown, length, ap,
}
use agent_quilt.Json.{Json}
use agent_quilt.Runtime.{Uuid, Runtime}
use agent_quilt.Store.{
  Db, Session, Result, ok, Run, RunState, queued, running, waiting_approval, done, failed,
  cancelled, MailboxMessage, MessageKind, find_run,
}
use agent_quilt.Runs.{
  last_seq, Posted, sent, ended, no_run, post, post_to, post_message, answered, new_message,
}
use agent_quilt.Runs.Scheduling.{IsScheduled, state_at, wake-IsScheduled}

-- The numbers of a run's messages, the newest first.
abbrev pub seqs : Uuid → List MailboxMessage → List ℕ
seqs i ms = map (λ m. m.seq) (filter (λ (m : MailboxMessage). m.run_id == i) ms)

-- The messages of each run are numbered 1, 2, 3, ….
abbrev pub IsGapless : List MailboxMessage → Type 0
IsGapless ms = (i : Uuid) → seqs i ms ≡ countdown (length (seqs i ms))

last_seq-countdown :
    (i : Uuid) (ms : List MailboxMessage) (n : ℕ) → seqs i ms ≡ countdown n → last_seq i ms ≡ n
last_seq-countdown i [] zero h = refl
last_seq-countdown i [] (suc n) h = absurd (ground arith)
last_seq-countdown i (m ∷ ms) zero h = elim (Bool-cases (m.run_id == i)) [
  | inl e ↦ absurd (ground (arith, e))
  | inr e ↦ rw e (last_seq-countdown i ms zero (ground (arith, e)))
]
last_seq-countdown i (m ∷ ms) (suc n) h = elim (Bool-cases (m.run_id == i)) [
  | inl e ↦ ground (arith, e, last_seq-countdown i ms n)
  | inr e ↦ rw e (last_seq-countdown i ms (suc n) (ground (arith, e)))
]

-- The next message takes the next number.
pub new_message-IsGapless :
    (rt : Runtime) (s : Session) (i : Uuid) (kind : MessageKind) (body : Json) (db : Db)
    → IsGapless db.mailbox
    → IsGapless (new_message rt s i kind body db ∷ db.mailbox)
new_message-IsGapless rt s i kind body db h j = elim (Bool-cases (i == j)) [
  | inl e ↦
      let same : i ≡ j = ground arith in
      ground (
        arith,
        e,
        h j,
        ap (λ x. last_seq x db.mailbox) same,
        last_seq-countdown j db.mailbox (length (seqs j db.mailbox)),
      )
  | inr e ↦ rw e (h j)
]

-- The message in the run's mailbox: what the sender wrote, under the number after those that are there.
abbrev pub IsMessage : Session → Uuid → MessageKind → Json → Db → MailboxMessage → Type 0
IsMessage s i kind body db m =
    (m.run_id ≡ i)
    × (m.kind ≡ kind)
    × (m.author_principal_id ≡ s.principal)
    × (m.body ≡ body)
    × (m.seq ≡ length (seqs i db.mailbox) + 1)

-- How a run in a given state answers a message.
abbrev pub Answer :
    Session → MessageKind → Json → Option RunState → Uuid → Db → Posted → Db → Type 0
Answer s kind body none i db p after = (p ≡ no_run) × (after ≡ db)
Answer s kind body (some cancelled) i db p after = (p ≡ ended) × (after ≡ db)
Answer s kind body (some failed) i db p after = (p ≡ ended) × (after ≡ db)
Answer s kind body (some done) i db p after =
    (m : MailboxMessage) × (p ≡ sent m)
    × IsMessage s i kind body db m
    × (after.mailbox ≡ m ∷ db.mailbox)
    × (state_at i after.runs ≡ some queued)
Answer s kind body (some _) i db p after =
    (m : MailboxMessage) × (p ≡ sent m)
    × IsMessage s i kind body db m
    × (after.mailbox ≡ m ∷ db.mailbox)
    × (after.runs ≡ db.runs)
    × (after.queue ≡ db.queue)

abbrev pub Posts :
    Session → MessageKind → Json → Option RunState → Uuid → Db → Result (Posted × Db) → Type 0
Posts s kind body state i db r =
    (p : Posted) × (after : Db) × (r ≡ ok (p, after))
    × IsScheduled after
    × IsGapless after.mailbox
    × Answer s kind body state i db p after

module _ (rt : Runtime) (s : Session) (i : Uuid) (kind : MessageKind) (body : Json) (db : Db)
    (h : IsScheduled db) (g : IsGapless db.mailbox) where
  abbrev added : Db
  added = record db { draws = suc db.draws; mailbox = new_message rt s i kind body db ∷ db.mailbox }

  is_message : IsMessage s i kind body db (new_message rt s i kind body db)
  is_message = (
    refl,
    refl,
    refl,
    refl,
    ap (λ n. n + 1) (last_seq-countdown i db.mailbox (length (seqs i db.mailbox)) (g i)),
  )

  wakes :
      state_at i db.runs ≡ some done
      → Posts s kind body (some done) i db (post_message rt s i kind body done db)
  unfolding post_message
  wakes finished =
      let (after, e, scheduled, same, woken) = wake-IsScheduled i added h in
      (
        sent (new_message rt s i kind body db),
        after,
        rw (e, answered) refl,
        scheduled,
        rw same (new_message-IsGapless rt s i kind body db g),
        (new_message rt s i kind body db, refl, is_message, same, woken finished),
      )

  posts :
      (state : RunState)
      → state_at i db.runs ≡ some state
      → (r : Run) → r.state ≡ state
      → Posts s kind body (some state) i db (post_to rt s i kind body (some r) db)
  unfolding post_to post_message
  posts cancelled at r e = (ended, db, rw e, h, g, (refl, refl))
  posts failed at r e = (ended, db, rw e, h, g, (refl, refl))
  posts done at r e = rw e (wakes at)
  posts queued at r e = (
    sent (new_message rt s i kind body db),
    added,
    rw e,
    h,
    new_message-IsGapless rt s i kind body db g,
    (new_message rt s i kind body db, refl, is_message, refl, refl, refl),
  )
  posts running at r e = (
    sent (new_message rt s i kind body db),
    added,
    rw e,
    h,
    new_message-IsGapless rt s i kind body db g,
    (new_message rt s i kind body db, refl, is_message, refl, refl, refl),
  )
  posts waiting_approval at r e = (
    sent (new_message rt s i kind body db),
    added,
    rw e,
    h,
    new_message-IsGapless rt s i kind body db g,
    (new_message rt s i kind body db, refl, is_message, refl, refl, refl),
  )

  -- Where runs and queue agree and every mailbox is numbered without gaps, a message to a run never
  -- fails: a missing or an ended run refuses it and nothing changes, a finished one takes it and is
  -- queued again, a live one takes it and goes on as it was. A message that is taken is the newest of the
  -- run's mailbox, with the sender as its author, the kind and the body that were sent and the next
  -- number; every mailbox stays numbered without gaps, and states and queue still agree.
  pub post_answers : Posts s kind body (state_at i db.runs) i db (post rt s i kind body db)
  unfolding post
  post_answers = elim (Option-cases (find_run i db.runs)) [
    | inl e ↦ rw e (no_run, db, refl, h, g, (refl, refl))
    | inr (r, e) ↦ rw e (posts r.state (rw e) r refl)
  ]
