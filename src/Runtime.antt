-- ===== src/Runtime.antt =====
-- What the kernel calls and does not implement: the hashes, the identifiers and the renderings of
-- Python's libraries and of rfc8785. Theorems that need more of them say so as hypotheses.
use agent_quilt.Base.{ℕ, ◌≡◌, Bool, String, Option}
use agent_quilt.Json.{Json, JsonValue}

-- A UUID is only compared, and so is a moment, by its microseconds.
abbrev pub Uuid : Type 0
Uuid = ℕ

abbrev pub Time : Type 0
Time = ℕ

pub record Runtime : Type 0 where
  -- `hashlib.sha256(text.encode()).hexdigest()`
  pub sha256 : String → String
  -- whether `rfc8785.dumps` takes these arguments: it raises on what it cannot represent
  pub is_canonical : Json → Bool
  -- `rfc8785.dumps`, where it does not raise, and `json.dumps(…, sort_keys=True, separators=(",", ":"))`, as texts
  pub canonical_json : Json → String
  pub dumps : JsonValue → String
  -- the n-th `uuid4()` of the transaction, and `uuid5(NAMESPACE_URL, name)`
  pub uuid4 : ℕ → Uuid
  pub uuid5 : String → Uuid
  -- `UUID(text)`, `str(uuid)`, `str(number)` and `str(value)`
  pub parse_uuid : String → Option Uuid
  pub str_uuid : Uuid → String
  pub str_number : ℕ → String
  pub str_value : JsonValue → String

-- Distinct texts have distinct digests.
abbrev pub IsCollisionFree : Runtime → Type 0
IsCollisionFree rt = (s t : String) → rt.sha256 s ≡ rt.sha256 t → s ≡ t
