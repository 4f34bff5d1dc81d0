-- ===== src/Dispatch/Ceiling.antt =====
-- A run's stored ceiling bounds what its calls may do, whatever is granted later.
use Prim.Native.Nat.{min}
use agent_quilt.Base.{ℕ, ◌≡◌, Option, none, some, String, arith, str_eq, if◌then◌else◌}
use agent_quilt.Json.{Json}
use agent_quilt.Store.{Level, may_use, asks_first, never}
use agent_quilt.Dispatch.{under_ceiling, bounded, ceiling_bound}

-- How much a level lets a call do: nothing, ask, or act.
abbrev pub strength : Option Level → ℕ
strength none = 0
strength (some never) = 0
strength (some asks_first) = 1
strength (some may_use) = 2

-- The same for the text of a stored ceiling.
abbrev pub strength_of_text : Option String → ℕ
strength_of_text none = 0
strength_of_text (some bound) =
    if str_eq bound "never" then 0 else if str_eq bound "asks_first" then 1 else 2

strength-bounded :
    (level : Option Level) (bound : Option String)
    → strength (bounded level bound) ≡ min (strength level) (strength_of_text bound)
strength-bounded none bound = omega arith
strength-bounded (some never) none = omega arith
strength-bounded (some asks_first) none = omega arith
strength-bounded (some may_use) none = omega arith
strength-bounded (some never) (some bound) = ground arith
strength-bounded (some asks_first) (some bound) = ground arith
strength-bounded (some may_use) (some bound) = ground arith

-- Inside a run a call may do exactly the lesser of what the principal is granted and what the run's
-- ceiling says, so a grant made or widened later never widens the run.
pub strength-under_ceiling :
    (ceiling : Json) (name : String) (level : Option Level)
    → strength (under_ceiling (some ceiling) name level)
      ≡ min (strength level) (strength_of_text (ceiling_bound ceiling name))
unfolding under_ceiling
strength-under_ceiling ceiling name level = strength-bounded level (ceiling_bound ceiling name)
