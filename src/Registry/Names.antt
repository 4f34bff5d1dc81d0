-- ===== src/Registry/Names.antt =====
-- The shape of an operation's name, over its code points.
use Prim.Native.Char.{code}
use Prim.Native.String.{String}
use agent_quilt.Base.{ℕ, ◌==◌, ◌&&◌, ◌||◌, Bool, true, false, List, [], ◌∷◌, leb, if◌then◌else◌}

abbrev pub codes : String → List ℕ
codes String.[] = []
codes (String.◌∷◌ c s) = code c ∷ codes s

-- `[a-z]` and `[a-z0-9_]`
abbrev pub is_lower : ℕ → Bool
is_lower c = leb b'a' c && leb c b'z'

abbrev pub is_word : ℕ → Bool
is_word c = is_lower c || leb b'0' c && leb c b'9' || c == b'_'

-- `[a-z0-9_]*$`: the end of the text, or a line feed that ends it.
abbrev pub word_end : List ℕ → Bool
word_end [] = true
word_end (c ∷ []) = is_word c || c == 10
word_end (c ∷ cs) = is_word c && word_end cs

abbrev pub verb_start : List ℕ → Bool
verb_start [] = false
verb_start (c ∷ cs) = is_lower c && word_end cs

abbrev pub module_rest : List ℕ → Bool
module_rest [] = false
module_rest (c ∷ cs) =
    let rest = module_rest cs in if c == b'.' then verb_start cs else is_word c && rest

-- `^[a-z][a-z0-9_]*\.[a-z][a-z0-9_]*$`
unfoldable pub is_name : List ℕ → Bool
is_name [] = false
is_name (c ∷ cs) = is_lower c && module_rest cs

-- `name.partition(".")[2]`
unfoldable pub verb_of : List ℕ → List ℕ
verb_of [] = []
verb_of (c ∷ cs) = if c == b'.' then cs else verb_of cs

-- `"_" in verb`
unfoldable pub has_underscore : List ℕ → Bool
has_underscore [] = false
has_underscore (c ∷ cs) = c == b'_' || has_underscore cs

unfoldable pub starts_with : List ℕ → List ℕ → Bool
starts_with [] s = true
starts_with (c ∷ cs) [] = false
starts_with (c ∷ cs) (d ∷ ds) = c == d && starts_with cs ds
