-- ===== src/Context/Slices.antt =====
-- backend/app/kernel/context/service.py and backend/app/kernel/ports/context_contributor.py: the layers, the
-- slices and the contributors, by their slots.

use agent_quilt.Base.{
  ℕ, zero, suc, ◌+◌, ◌/◌, ◌==◌, Bool, Option, none, some, String, List, [], ◌∷◌, find, length,
  if◌then◌else◌, concat, is_some,
}
use agent_quilt.Runtime.{Uuid, Runtime}
use agent_quilt.Store.{Db, Result, TierBinding, PrefixProfile}
use agent_quilt.Registry.Names.{codes}

-- `_PREFIX_ORDER` and `_ENVELOPE_ORDER` give a slot its index.
pub data PrefixSlot : Type 0 where
  l0 l1 l2 l3 l4 l5 l6 : PrefixSlot

pub data EnvelopeSlot : Type 0 where
  d1 d3 d4 d5 d6 : EnvelopeSlot

abbrev pub prefix_index : PrefixSlot → ℕ
prefix_index l0 = 0
prefix_index l1 = 1
prefix_index l2 = 2
prefix_index l3 = 3
prefix_index l4 = 4
prefix_index l5 = 5
prefix_index l6 = 6

abbrev pub envelope_index : EnvelopeSlot → ℕ
envelope_index d1 = 0
envelope_index d3 = 1
envelope_index d4 = 2
envelope_index d5 = 3
envelope_index d6 = 4

abbrev pub slot_text : PrefixSlot → String
slot_text l0 = "L0"
slot_text l1 = "L1"
slot_text l2 = "L2"
slot_text l3 = "L3"
slot_text l4 = "L4"
slot_text l5 = "L5"
slot_text l6 = "L6"

pub record PrefixLayer : Type 0 where
  pub slot : PrefixSlot
  pub owner : String
  pub version : String
  pub body : String

pub record Layer : Type 0 where
  pub slot : PrefixSlot
  pub version : String
  pub body : String

pub record Slice : Type 0 where
  pub slot : EnvelopeSlot
  pub body : String
  pub provenance : String
  pub priority : ℕ

pub record Scope : Type 0 where
  pub agent_definition_id : Uuid
  pub principal_id : Uuid
  pub prefix_profile : PrefixProfile
  pub surface : String

-- `fetch` and then `layers`: a row that `fetch` asks for and that is not there raises.
pub record PrefixContributor : Type 0 where
  pub owner : String
  pub prefix_slots : List PrefixSlot
  pub layers : Scope → Db → Result (List Layer)

pub record EnvelopeContributor : Type 0 where
  pub owner : String
  pub envelope_slots : List EnvelopeSlot
  pub slices : Scope → Uuid → ℕ → Db → List Slice

pub record TurnCall : Type 0 where
  pub budget_tokens : ℕ
  pub intake : String
  pub transcript : String

pub record AssembledTurn : Type 0 where
  pub prefix : List PrefixLayer
  pub envelope : List Slice
  pub prefix_key : String
  pub token_cost : ℕ
  pub manifest_id : Uuid
  pub binding : TierBinding
  pub tier : String

abbrev pub tokens : String → ℕ
tokens body = (length (codes body) + 3) / 4

abbrev pub total_tokens {ℓ} : {A : Type ℓ} → (A → String) → List A → ℕ
total_tokens body [] = 0
total_tokens body (x ∷ xs) = tokens (body x) + total_tokens body xs

-- `[:n]`
abbrev pub take_text : ℕ → String → String
take_text zero s = ""
take_text (suc n) String.[] = ""
take_text (suc n) (String.◌∷◌ c s) = String.◌∷◌ c (take_text n s)

-- `version` (backend/app/kernel/context/contributors.py)
abbrev pub version_of_layer : Runtime → String → String → String
version_of_layer rt term body = concat (term ∷ ":" ∷ take_text 16 (rt.sha256 body) ∷ [])

-- The slots that are taken, with their owners.
abbrev pub Owners : Type 0
Owners = List (PrefixSlot × String)

abbrev pub same_slot : PrefixSlot → PrefixSlot → Bool
same_slot a b = prefix_index a == prefix_index b

abbrev pub owner_of : PrefixSlot → Owners → Option String
owner_of slot [] = none
owner_of slot ((s, o) ∷ seen) = if same_slot s slot then some o else owner_of slot seen

abbrev pub declares : PrefixSlot → List PrefixSlot → Bool
declares slot slots = is_some (find (same_slot slot) slots)
