-- ===== src/Context/Slots.antt =====
-- What the claims of slots make of a prefix.
use agent_quilt.Base.{
  ◌+◌, ◌≤◌, ◌≡◌, refl, Bool, none, String, List, [], ◌∷◌, ◌++◌, arith, count, Bool-cases,
  Option-cases, inl, inr, is_some, str_eq, if◌then◌else◌, ap, ◌∙◌, sym,
}
use mathlib.Core.List.{append_assoc, append-nil}
use mathlib.Core.Path.{subst}
use agent_quilt.Base.Sorting.{sorted, insert_sorted, sorted-IsSorted, IsSorted}
use agent_quilt.Json.{Json}
use agent_quilt.Runtime.{Runtime}
use agent_quilt.Store.{Db, Result, ok, raise, Result-cases}
use agent_quilt.Registry.{Registry}
use agent_quilt.Context.{
  PrefixSlot, PrefixLayer, Layer, PrefixContributor, Scope, Owners, same_slot, owner_of, claim_slot,
  l0, l1, l2, l3, l4, l5, l6, claim_layers, claim_returned, claim_all, declares, ordered, prefix,
  prefix_index, layer_le, tools, policy_layer,
}

abbrev pub in_slot : PrefixSlot → PrefixLayer → Bool
in_slot slot l = same_slot slot l.slot

-- A slot has a layer at most once, and only where it has an owner.
Owned : Owners → List PrefixLayer → Type 0
Owned seen layers =
    (slot : PrefixSlot)
    → count (in_slot slot) layers ≤ (if is_some (owner_of slot seen) then 1 else 0)

count-add_layer :
    (slot : PrefixSlot) (layers : List PrefixLayer) (l : PrefixLayer)
    → count (in_slot slot) (layers ++ l ∷ [])
      ≡ (if in_slot slot l then 1 else 0) + count (in_slot slot) layers
count-add_layer slot [] l = refl
count-add_layer slot (m ∷ layers) l = omega (arith, count-add_layer slot layers l)

claimed_free :
    (seen : Owners) (slot : PrefixSlot) (owner : String) (declared : List PrefixSlot)
    (taken : Owners)
    → claim_slot seen slot owner declared ≡ ok taken
    → (owner_of slot seen ≡ none) × (taken ≡ (slot, owner) ∷ seen)
unfolding claim_slot
claimed_free seen slot owner declared taken h = elim (Bool-cases (declares slot declared)) [
  | inr e ↦ absurd (let k = rw e at h in ground arith)
  | inl e ↦ elim (Option-cases (owner_of slot seen)) [
    | inl free ↦ (free, let k = rw (e, free) at h in ground arith)
    | inr (other, held) ↦ elim (Bool-cases (str_eq other owner)) [
      | inl mine ↦ absurd (let k = rw (e, held, mine) at h in ground arith)
      | inr another ↦ absurd (let k = rw (e, held, another) at h in ground arith)
    ]
  ]
]

owner_of_same :
    (a b : PrefixSlot) (seen : Owners)
    → prefix_index a ≡ prefix_index b
    → owner_of a seen ≡ owner_of b seen
owner_of_same a b [] h = refl
owner_of_same a b ((s, o) ∷ seen) h = ground (arith, h, owner_of_same a b seen h)

Owned-add :
    (seen : Owners) (owner : String) (layers : List PrefixLayer) (l : PrefixLayer)
    → owner_of l.slot seen ≡ none
    → Owned seen layers
    → Owned ((l.slot, owner) ∷ seen) (layers ++ l ∷ [])
unfolding Owned
Owned-add seen owner layers l free h slot =
    rw (count-add_layer slot layers l) (elim (Bool-cases (same_slot l.slot slot)) [
      | inl same ↦
          ground (arith, same, h slot, owner_of_same l.slot slot seen (ground (arith, same)), free)
      | inr other ↦ ground (arith, other, h slot)
    ])

OwnedResult : Result (Owners × List PrefixLayer) → Type 0
unfolding Owned
OwnedResult (raise e) = Unit
OwnedResult (ok (seen, layers)) = Owned seen layers

claim_layers-Owned :
    (seen : Owners) (c : PrefixContributor) (rest : List Layer) (layers : List PrefixLayer)
    → Owned seen layers
    → OwnedResult (claim_layers seen c rest layers)
unfolding claim_layers OwnedResult
claim_layers-Owned seen c [] layers owned = owned
claim_layers-Owned seen c (l ∷ rest) layers owned =
    elim (Result-cases (claim_slot seen l.slot c.owner c.prefix_slots)) [
      | inr (e, failed) ↦ rw (OwnedResult, failed) tt
      | inl (t, done) ↦
          let (free, same) = claimed_free seen l.slot c.owner c.prefix_slots t done in
          let added : PrefixLayer = record {
            slot = l.slot;
            owner = c.owner;
            version = l.version;
            body = l.body;
          } in
          rw (OwnedResult, done ∙ ap ok same)
            (claim_layers-Owned ((l.slot, c.owner) ∷ seen) c rest (layers ++ added ∷ [])
              (Owned-add seen c.owner layers added free owned))
    ]

claim_returned-Owned :
    (seen : Owners) (c : PrefixContributor) (r : Result (List Layer)) (layers : List PrefixLayer)
    → Owned seen layers
    → OwnedResult (claim_returned seen c r layers)
unfolding claim_returned OwnedResult
claim_returned-Owned seen c (raise e) layers owned = tt
claim_returned-Owned seen c (ok rest) layers owned = claim_layers-Owned seen c rest layers owned

claim_all-Owned :
    (scope : Scope) (db : Db) (seen : Owners) (cs : List PrefixContributor)
    (layers : List PrefixLayer)
    → Owned seen layers
    → OwnedResult (claim_all scope db seen cs layers)
unfolding claim_all OwnedResult
claim_all-Owned scope db seen [] layers owned = owned
claim_all-Owned scope db seen (c ∷ cs) layers owned =
    elim (Result-cases (claim_returned seen c (c.layers scope db) layers)) [
      | inr (e, failed) ↦ rw (OwnedResult, failed) tt
      | inl ((t, more), done) ↦
          rw (OwnedResult, done)
            (claim_all-Owned scope db t cs more (
              subst OwnedResult done
                (claim_returned-Owned seen c (c.layers scope db) layers owned)))
    ]

-- Sorting keeps how many layers pass a test.
count-insert_layer :
    (p : PrefixLayer → Bool) (l : PrefixLayer) (layers : List PrefixLayer)
    → count p (insert_sorted layer_le l layers) ≡ (if p l then 1 else 0) + count p layers
unfolding insert_sorted
count-insert_layer p l [] = refl
count-insert_layer p l (m ∷ layers) = elim (Bool-cases (layer_le l m)) [
  | inl e ↦ rw e refl
  | inr e ↦ rw e (omega (arith, count-insert_layer p l layers))
]

count-sorted_layers :
    (p : PrefixLayer → Bool) (layers : List PrefixLayer)
    → count p (sorted layer_le layers) ≡ count p layers
unfolding sorted
count-sorted_layers p [] = refl
count-sorted_layers p (l ∷ layers) =
    count-insert_layer p l (sorted layer_le layers)
    ∙ ap (λ n. (if p l then 1 else 0) + n) (count-sorted_layers p layers)

Owned-once :
    (seen : Owners) (layers : List PrefixLayer)
    → Owned seen layers
    → (slot : PrefixSlot) → count (in_slot slot) layers ≤ 1
unfolding Owned
Owned-once seen layers h slot = ground (arith, h slot)

-- The kernel's layers as assembly starts from them.
kernel-Owned :
    (rt : Runtime) (policy : String) (registry : Registry) (ceiling : Json)
    → Owned
        ((l0, "kernel") ∷ (l5, "kernel") ∷ [])
        (policy_layer rt policy ∷ tools rt registry ceiling ∷ [])
unfolding Owned tools
kernel-Owned rt policy registry ceiling l0 = omega arith
kernel-Owned rt policy registry ceiling l1 = omega arith
kernel-Owned rt policy registry ceiling l2 = omega arith
kernel-Owned rt policy registry ceiling l3 = omega arith
kernel-Owned rt policy registry ceiling l4 = omega arith
kernel-Owned rt policy registry ceiling l5 = omega arith
kernel-Owned rt policy registry ceiling l6 = omega arith

layers-IsSorted : (layers : List PrefixLayer) → IsSorted layer_le (sorted layer_le layers)
unfolding layer_le
layers-IsSorted layers =
    sorted-IsSorted layer_le (λ x y e. ground (arith, e)) (λ x y z e f. ground (arith, e, f)) layers

-- The layers that the contributors return, each under its contributor's name.
abbrev pub named : PrefixContributor → List Layer → List PrefixLayer
named c [] = []
named c (l ∷ rest) =
    record { slot = l.slot; owner = c.owner; version = l.version; body = l.body } ∷ named c rest

abbrev pub named_of : PrefixContributor → Result (List Layer) → List PrefixLayer
named_of c (raise e) = []
named_of c (ok rest) = named c rest

abbrev pub offered : Scope → Db → List PrefixContributor → List PrefixLayer
offered scope db [] = []
offered scope db (c ∷ cs) = named_of c (c.layers scope db) ++ offered scope db cs

-- The claims that succeed drop none of the layers and add none.
Appends : List PrefixLayer → Result (Owners × List PrefixLayer) → Type 0
Appends all (raise e) = Unit
Appends all (ok (seen, layers)) = layers ≡ all

claim_layers-Appends :
    (seen : Owners) (c : PrefixContributor) (rest : List Layer) (layers : List PrefixLayer)
    → Appends (layers ++ named c rest) (claim_layers seen c rest layers)
unfolding claim_layers Appends
claim_layers-Appends seen c [] layers = sym (append-nil layers)
claim_layers-Appends seen c (l ∷ rest) layers =
    let added : PrefixLayer = record {
      slot = l.slot;
      owner = c.owner;
      version = l.version;
      body = l.body;
    } in
    elim (Result-cases (claim_slot seen l.slot c.owner c.prefix_slots)) [
      | inr (e, failed) ↦ rw (Appends, failed) tt
      | inl (t, done) ↦
          rw (Appends, done)
            (subst (λ all. Appends all (claim_layers t c rest (layers ++ added ∷ [])))
              (append_assoc layers (added ∷ []) (named c rest))
              (claim_layers-Appends t c rest (layers ++ added ∷ [])))
    ]

claim_returned-Appends :
    (seen : Owners) (c : PrefixContributor) (r : Result (List Layer)) (layers : List PrefixLayer)
    → Appends (layers ++ named_of c r) (claim_returned seen c r layers)
unfolding claim_returned Appends
claim_returned-Appends seen c (raise e) layers = tt
claim_returned-Appends seen c (ok rest) layers = claim_layers-Appends seen c rest layers

claim_all-Appends :
    (scope : Scope) (db : Db) (seen : Owners) (cs : List PrefixContributor)
    (layers : List PrefixLayer)
    → Appends (layers ++ offered scope db cs) (claim_all scope db seen cs layers)
unfolding claim_all Appends
claim_all-Appends scope db seen [] layers = sym (append-nil layers)
claim_all-Appends scope db seen (c ∷ cs) layers =
    elim (Result-cases (claim_returned seen c (c.layers scope db) layers)) [
      | inr (e, failed) ↦ rw (Appends, failed) tt
      | inl ((t, more), done) ↦
          let same : more ≡ layers ++ named_of c (c.layers scope db) =
            subst (Appends (layers ++ named_of c (c.layers scope db))) done
              (claim_returned-Appends seen c (c.layers scope db) layers) in
          rw (Appends, done)
            (subst (λ all. Appends all (claim_all scope db t cs more))
              (ap (λ x. x ++ offered scope db cs) same
                ∙ append_assoc layers (named_of c (c.layers scope db)) (offered scope db cs))
              (claim_all-Appends scope db t cs more))
    ]

-- A prefix made of just these layers: each slot once at the most, in order, and nothing lost or added.
abbrev pub IsPrefix : List PrefixLayer → Result (List PrefixLayer) → Type 0
IsPrefix all (raise e) = Unit
IsPrefix all (ok layers) =
    ((slot : PrefixSlot) → count (in_slot slot) layers ≤ 1)
    × IsSorted layer_le layers
    × ((p : PrefixLayer → Bool) → count p layers ≡ count p all)

ordered-IsPrefix :
    (all : List PrefixLayer) (r : Result (Owners × List PrefixLayer))
    → OwnedResult r
    → Appends all r
    → IsPrefix all (ordered r)
unfolding ordered OwnedResult Appends
ordered-IsPrefix all (raise e) h k = tt
ordered-IsPrefix all (ok (seen, layers)) h k = (
  (λ slot. rw (count-sorted_layers (in_slot slot) layers) (Owned-once seen layers h slot)),
  layers-IsSorted layers,
  (λ p. count-sorted_layers p layers ∙ ap (count p) k),
)

-- A prefix whose assembly does not fail has each slot once at the most, its layers stand in the order of
-- their slots, and they are the kernel's policy and tools and all the layers that the contributors
-- returned, none lost and none added. So a layer for a slot that is taken fails the turn: it can neither
-- stand in the prefix nor be left out.
pub prefix_lem :
    (rt : Runtime) (policy : String) (contributors : List PrefixContributor) (scope : Scope)
    (ceiling : Json) (registry : Registry) (db : Db)
    → IsPrefix
        (policy_layer rt policy ∷ tools rt registry ceiling ∷ offered scope db contributors)
        (prefix rt policy contributors scope ceiling registry db)
unfolding prefix
prefix_lem rt policy contributors scope ceiling registry db =
    let start = policy_layer rt policy ∷ tools rt registry ceiling ∷ [] in
    ordered-IsPrefix _ _
      (claim_all-Owned scope db ((l0, "kernel") ∷ (l5, "kernel") ∷ []) contributors start
        (kernel-Owned rt policy registry ceiling))
      (claim_all-Appends scope db ((l0, "kernel") ∷ (l5, "kernel") ∷ []) contributors start)
