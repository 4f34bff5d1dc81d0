-- ===== src/Routes/Streaming.antt =====
-- What a stream that polls the ledger delivers. It may leave out an event whose transaction commits after
-- one with a higher identifier has been read.
use agent_quilt.Base.{
  ℕ, ◌<◌, ◌≡◌, ◌≢◌, Bool, true, List, [], ◌∷◌, ◌++◌, arith, filter, All, Bool-cases, inl, inr, ltb,
  ◌&&◌,
}
use agent_quilt.Base.Sorting.{sorted, insert_sorted}
use agent_quilt.Runtime.{Uuid}
use agent_quilt.Store.{Db, Event}
use agent_quilt.Runs.{events, event_le, is_event_of}
use agent_quilt.Routes.{stream_events, cursor_after}

-- The identifiers grow, from past a cursor on.
abbrev pub IsAscending : ℕ → List Event → Type 0
IsAscending c [] = Unit
IsAscending c (e ∷ es) = (c < e.id) × IsAscending e.id es

-- No two events have the same identifier, which is the primary key.
abbrev pub IsKeyed : List Event → Type 0
IsKeyed [] = Unit
IsKeyed (e ∷ es) = All (λ (x : Event). x.id ≢ e.id) es × IsKeyed es

-- The same of every database of a list.
abbrev pub AllKeyed : List Db → Type 0
AllKeyed dbs = All (λ (db : Db). IsKeyed db.events) dbs

insert-IsAscending :
    (c : ℕ) (e : Event) (xs : List Event)
    → c < e.id
    → All (λ (x : Event). x.id ≢ e.id) xs
    → IsAscending c xs
    → IsAscending c (insert_sorted event_le e xs)
unfolding insert_sorted event_le
insert-IsAscending c e [] past other h = (past, tt)
insert-IsAscending c e (x ∷ xs) past (differs, other) (below, h) =
    elim (Bool-cases (ltb x.id e.id)) [
      | inl t ↦ rw t (below, insert-IsAscending x.id e xs (ground (arith, t)) other h)
      | inr t ↦ rw t (past, (ground (arith, t, differs), h))
    ]

All-insert {ℓ} :
    (P : Event → Type ℓ) (e : Event) (xs : List Event)
    → P e
    → All P xs
    → All P (insert_sorted event_le e xs)
unfolding insert_sorted
All-insert P e [] p h = (p, tt)
All-insert P e (x ∷ xs) p (this, h) = elim (Bool-cases (event_le e x)) [
  | inl t ↦ rw t (p, (this, h))
  | inr t ↦ rw t (this, All-insert P e xs p h)
]

module _ (i : Uuid) (c : ℕ) where
  abbrev is_new : Event → Bool
  is_new e = is_event_of i e && ltb c e.id

  -- What holds of the events that pass the test holds of the batch.
  All-batch {ℓ} :
      (P : Event → Type ℓ) (es : List Event)
      → All (λ e. is_new e ≡ true → P e) es
      → All P (sorted event_le (filter is_new es))
  unfolding sorted
  All-batch P [] h = tt
  All-batch P (e ∷ es) (this, h) = elim (Bool-cases (is_new e)) [
    | inl t ↦ rw t (All-insert P e _ (this t) (All-batch P es h))
    | inr t ↦ rw t (All-batch P es h)
  ]

  keyed_batch :
      (n : ℕ) (es : List Event)
      → All (λ (x : Event). x.id ≢ n) es
      → All (λ e. is_new e ≡ true → e.id ≢ n) es
  keyed_batch n [] h = tt
  keyed_batch n (e ∷ es) (this, h) = ((λ t. this), keyed_batch n es h)

  batch-IsAscending :
      (es : List Event) → IsKeyed es → IsAscending c (sorted event_le (filter is_new es))
  unfolding sorted
  batch-IsAscending [] h = tt
  batch-IsAscending (e ∷ es) (differs, h) = elim (Bool-cases (is_new e)) [
    | inl t ↦ rw t (
        insert-IsAscending c e _ (ground (arith, t))
          (All-batch (λ x. x.id ≢ e.id) es (keyed_batch e.id es differs)) (batch-IsAscending es h))
    | inr t ↦ rw t (batch-IsAscending es h)
  ]

  of_run : (es : List Event) → All (λ e. is_new e ≡ true → is_event_of i e ≡ true) es
  of_run [] = tt
  of_run (e ∷ es) = ((λ t. ground (arith, t)), of_run es)

append-IsAscending :
    (c : ℕ) (xs ys : List Event)
    → IsAscending c xs
    → IsAscending (cursor_after c xs) ys
    → IsAscending c (xs ++ ys)
append-IsAscending c [] ys h k = k
append-IsAscending c (x ∷ xs) ys (this, h) k = (this, append-IsAscending x.id xs ys h k)

All-append {ℓ} : (P : Event → Type ℓ) (xs ys : List Event) → All P xs → All P ys → All P (xs ++ ys)
All-append P [] ys h k = k
All-append P (x ∷ xs) ys (this, h) k = (this, All-append P xs ys h k)

-- Whatever databases the passes of a stream see, each with distinct identifiers of its events, the stream
-- delivers events of its run alone, all past the cursor that it was asked for, with growing identifiers:
-- it never repeats an event and never goes back, over any number of passes.
pub stream_once :
    (i : Uuid) (c : ℕ) (dbs : List Db)
    → AllKeyed dbs
    → IsAscending c (stream_events i c dbs)
      × All (λ e. is_event_of i e ≡ true) (stream_events i c dbs)
unfolding stream_events events
stream_once i c [] h = (tt, tt)
stream_once i c (db ∷ later) (keyed, h) =
    let (grows, mine) = stream_once i (cursor_after c (events i c db)) later h in
    (
      append-IsAscending c _ _ (batch-IsAscending i c db.events keyed) grows,
      All-append _ _ _
          (All-batch i c (λ e. is_event_of i e ≡ true) db.events (of_run i c db.events)) mine,
    )
