-- ===== src/Context/Fitting.antt =====
-- Which slices a turn keeps.
use agent_quilt.Base.{
  ℕ, ◌+◌, ◌≤◌, ◌≡◌, refl, Bool, List, [], ◌∷◌, ◌++◌, arith, Bool-cases, inl, inr, ltb, ap, ◌∙◌,
}
use mathlib.Core.List.{Perm, perm_middle}
use mathlib.Core.List.Perm
use agent_quilt.Base.Sorting.{sorted, insert_sorted, sorted-perm}
use agent_quilt.Context.{Slice, tokens, total_tokens, fit, fit_each, priority_le, envelope_le}

-- Every slice is kept or dropped.
fit_each-perm :
    (total budget : ℕ) (slices : List Slice)
    → Perm ((fit_each total budget slices).0 ++ (fit_each total budget slices).1) slices
unfolding fit_each
fit_each-perm total budget [] = Perm.refl []
fit_each-perm total budget (x ∷ xs) = elim (Bool-cases (ltb budget (total + tokens x.body))) [
  | inl e ↦ rw e (
      Perm.trans (perm_middle (fit_each total budget xs).0 (fit_each total budget xs).1)
        (Perm.cons x (fit_each-perm total budget xs)))
  | inr e ↦ rw e (Perm.cons x (fit_each-perm (total + tokens x.body) budget xs))
]

fit_each_bounded :
    (total budget : ℕ) (slices : List Slice)
    → total ≤ budget
    → total + total_tokens (λ (x : Slice). x.body) (fit_each total budget slices).0 ≤ budget
unfolding fit_each
fit_each_bounded total budget [] h = omega (arith, h)
fit_each_bounded total budget (x ∷ xs) h = elim (Bool-cases (ltb budget (total + tokens x.body))) [
  | inl e ↦ rw e (fit_each_bounded total budget xs h)
  | inr e ↦ rw e (
      let rest = fit_each_bounded (total + tokens x.body) budget xs (ground (arith, e)) in
      omega (arith, rest))
]

total-insert_sorted :
    (le : Slice → Slice → Bool) (x : Slice) (xs : List Slice)
    → total_tokens (λ (s : Slice). s.body) (insert_sorted le x xs)
      ≡ tokens x.body + total_tokens (λ (s : Slice). s.body) xs
unfolding insert_sorted
total-insert_sorted le x [] = refl
total-insert_sorted le x (y ∷ ys) = elim (Bool-cases (le x y)) [
  | inl e ↦ rw e refl
  | inr e ↦ rw e (omega (arith, total-insert_sorted le x ys))
]

total-sorted :
    (le : Slice → Slice → Bool) (xs : List Slice)
    → total_tokens (λ (s : Slice). s.body) (sorted le xs) ≡ total_tokens (λ (s : Slice). s.body) xs
unfolding sorted
total-sorted le [] = refl
total-sorted le (x ∷ xs) =
    total-insert_sorted le x (sorted le xs) ∙ ap (λ n. tokens x.body + n) (total-sorted le xs)

-- A prefix that fits the budget fits it together with the slices that are kept, and every slice is
-- kept or dropped, whole and once: those kept and those dropped are the slices in another order.
pub fit_lem :
    (slices : List Slice) (prefix_tokens budget : ℕ)
    → prefix_tokens ≤ budget
    → (prefix_tokens + total_tokens (λ (s : Slice). s.body) (fit slices prefix_tokens budget).0
        ≤ budget)
      × Perm ((fit slices prefix_tokens budget).0 ++ (fit slices prefix_tokens budget).1) slices
unfolding fit
fit_lem slices n budget h = (
  omega (
    arith,
    fit_each_bounded n budget (sorted priority_le slices) h,
    total-sorted envelope_le (fit_each n budget (sorted priority_le slices)).0,
  ),
  Perm.trans
      (Perm.append (sorted-perm envelope_le (fit_each n budget (sorted priority_le slices)).0)
        (Perm.refl (fit_each n budget (sorted priority_le slices)).1))
      (Perm.trans (fit_each-perm n budget (sorted priority_le slices))
        (sorted-perm priority_le slices)),
)
