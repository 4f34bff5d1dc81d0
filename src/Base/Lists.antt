-- ===== src/Base/Lists.antt =====
-- Lists measured by native numbers, and selections by a Boolean test, under the library's names.
use native.Mathlib.Numerals.{add-one}
use Prim.Native.Nat.{zero, ℕ, suc, ◌+◌}
use Prim.Native.String.{String, ◌++◌ as append}
use mathlib.Core.Path.{◌≡◌, refl, ap, subst}
use mathlib.Core.Logic.{inl, inr, ◌≢◌}
use mathlib.Core.Logic.Or
use mathlib.Core.HLevel.{⊥_prop}
use mathlib.Core.List.{Mem, mem-cons_self, mem-cons_of_mem, eq-or-mem_of_mem-cons, not-mem-nil}
use mathlib.Core.Bool.{Bool, true}
use mathlib.Core.List.{List, [], ◌∷◌, ◌++◌}
use mathlib.Core.Option.{Option, none, some}
use mathlib.Core.Option
use native.Mathlib.Omega.{arith}
use agent_quilt.Base.Tests.{Bool-cases, if◌then◌else◌}

module _ {ℓ} {A : Type ℓ} where
  abbrev pub length : List A → ℕ
  length [] = 0
  length (x ∷ xs) = suc (length xs)

  -- `select … where p`
  abbrev pub filter : (A → Bool) → List A → List A
  filter p [] = []
  filter p (x ∷ xs) = let rest = filter p xs in if p x then x ∷ rest else rest

  -- The first row that passes.
  abbrev pub find : (A → Bool) → List A → Option A
  find p [] = none
  find p (x ∷ xs) = if p x then some x else find p xs

  -- `update … where p`: every row that passes.
  abbrev pub update_where : (A → Bool) → (A → A) → List A → List A
  update_where p f [] = []
  update_where p f (x ∷ xs) = (if p x then f x else x) ∷ update_where p f xs

  abbrev pub count : (A → Bool) → List A → ℕ
  count p [] = 0
  count p (x ∷ xs) = (if p x then 1 else 0) + count p xs

  abbrev pub All {κ} : (A → Type κ) → List A → Type κ
  All P [] = Unit
  All P (x ∷ xs) = P x × All P xs

  pub length-append : (xs ys : List A) → length (xs ++ ys) ≡ length xs + length ys
  length-append [] ys = omega arith
  length-append (x ∷ xs) ys = omega (arith, length-append xs ys)

  pub length-filter : (p : A → Bool) (xs : List A) → length (filter p xs) ≡ count p xs
  length-filter p [] = refl
  length-filter p (x ∷ xs) = ground (arith, length-filter p xs)

  pub find_holds : (p : A → Bool) (xs : List A) (a : A) → find p xs ≡ some a → p a ≡ true
  find_holds p [] a h = ground arith
  find_holds p (x ∷ xs) a h = ground (arith, find_holds p xs a)

  pub filter-append :
      (p : A → Bool) (xs ys : List A) → filter p (xs ++ ys) ≡ filter p xs ++ filter p ys
  filter-append p [] ys = refl
  filter-append p (x ∷ xs) ys = ground (arith, filter-append p xs ys)

  pub find-none-filter : (p : A → Bool) (xs : List A) → find p xs ≡ none → filter p xs ≡ []
  find-none-filter p [] h = refl
  find-none-filter p (x ∷ xs) h = ground (arith, find-none-filter p xs)

  pub find-Mem : (p : A → Bool) (xs : List A) (a : A) → find p xs ≡ some a → Mem a xs
  find-Mem p [] a h = absurd (ground arith)
  find-Mem p (b ∷ xs) a h = elim (Bool-cases (p b)) [
    | inl e ↦ let same : b ≡ a = ground arith in subst (λ y. Mem y (b ∷ xs)) same mem-cons_self
    | inr e ↦ mem-cons_of_mem b (find-Mem p xs a (ground arith))
  ]

  pub find-ne_none : (p : A → Bool) (xs : List A) (a : A) → Mem a xs → p a ≡ true → find p xs ≢ none
  find-ne_none p [] a m h e = not-mem-nil m
  find-ne_none p (b ∷ xs) a m h e =
      Or.elim ⊥_prop (eq-or-mem_of_mem-cons m) (λ (same : a ≡ b). ground (arith, ap p same))
        (λ (rest : Mem a xs). find-ne_none p xs a rest h (ground arith))

  pub find-update_where :
      (q p : A → Bool) (f : A → A) (xs : List A)
      → ((x : A) → q (f x) ≡ q x)
      → find q (update_where p f xs) ≡ Option.map (λ x. if p x then f x else x) (find q xs)
  find-update_where q p f [] same = refl
  find-update_where q p f (x ∷ xs) same = ground (arith, same x, find-update_where q p f xs same)

  pub update_where-none :
      (p : A → Bool) (f : A → A) (xs : List A) → find p xs ≡ none → update_where p f xs ≡ xs
  update_where-none p f [] h = refl
  update_where-none p f (x ∷ xs) h = ground (arith, update_where-none p f xs)

-- The texts one after another, as an f-string puts them.
abbrev pub concat : List String → String
concat [] = ""
concat (s ∷ ss) = append s (concat ss)

-- n, n - 1, …, 1.
abbrev pub countdown : ℕ → List ℕ
countdown zero = []
countdown (suc n) = suc n ∷ countdown n

pub countdown-add_one : (n : ℕ) → countdown (n + 1) ≡ (n + 1) ∷ countdown n
countdown-add_one n = rw add-one
