-- ===== src/Json.antt =====
-- JSON as the ledger stores it. The source's `Json` is `dict[str, object]`: a JSON object
-- (backend/app/kernel/store/models.py). The kernel itself writes only natural numbers: counts, versions
-- and step numbers. Arguments and results may hold others: `negative n` is -(n + 1), and `decimal` a
-- float by its text.
use agent_quilt.Base.{ℕ, Bool, List, [], ◌∷◌, Option, none, some, String, str_eq, if◌then◌else◌}

mutual
  pub data JsonValue : Type 0 where
    null : JsonValue
    boolean : Bool → JsonValue
    number negative : ℕ → JsonValue
    decimal : String → JsonValue
    text : String → JsonValue
    array : JsonItems → JsonValue
    object : Json → JsonValue

  pub data JsonItems : Type 0 where
    nil : JsonItems
    item : JsonValue → JsonItems → JsonItems

  pub data Json : Type 0 where
    end : Json
    field : String → JsonValue → Json → Json

-- `d.get(k)`
abbrev pub get : String → Json → Option JsonValue
get k end = none
get k (field j v d) = if str_eq j k then some v else get k d

-- `value if isinstance(value, int) else default`, for a position in a list that begins at 1: one below 0,
-- which nothing writes, is as good as the default 0.
abbrev pub int_or : ℕ → Option JsonValue → ℕ
int_or d (some (number n)) = n
int_or d _ = d

-- `value if isinstance(value, dict)`
abbrev pub as_object : Option JsonValue → Option Json
as_object (some (object d)) = some d
as_object _ = none

-- `value if isinstance(value, str)`
abbrev pub as_text : Option JsonValue → Option String
as_text (some (text s)) = some s
as_text _ = none

abbrev pub items : List JsonValue → JsonItems
items [] = nil
items (x ∷ xs) = item x (items xs)

abbrev pub optional_text : Option String → JsonValue
optional_text none = null
optional_text (some s) = text s

abbrev pub optional_number : Option ℕ → JsonValue
optional_number none = null
optional_number (some n) = number n
