-- ===== src/Common/Least.antt =====
-- The row of least order among those that pass a test (`ORDER BY … ASC LIMIT 1`), and the order
-- that comes after all of them.
use Prim.Native.Nat.{ℕ, ◌+◌, ◌≤◌, ◌<◌}
use mathlib.Core.Path.{◌≡◌, sym, subst}
use mathlib.Core.Logic.{inl, inr}
use mathlib.Core.Bool.{Bool, true, false}
use mathlib.Core.Option.{Option, none, some}
use mathlib.Core.List.{List, [], ◌∷◌, ◌++◌}
use native.Mathlib.Omega.{arith}
use agentic_collab.Common.Tests.{if◌then◌else◌, leb, Bool-cases, Option-cases}
use agentic_collab.Common.Lists.{All}
use agentic_collab.Common.Tables.{some_inj, none_ne_some}

module _ {ℓ} {A : Type ℓ} (p : A → Bool) (order : A → ℕ) where
  abbrev pub lesser : A → Option A → A
  lesser x none = x
  lesser x (some y) = if leb (order x) (order y) then x else y

  abbrev pub least : List A → Option A
  least [] = none
  least (x ∷ xs) = let rest = least xs in if p x then some (lesser x rest) else rest

  abbrev pub next_order : List A → ℕ
  next_order [] = 0
  next_order (x ∷ xs) =
      let rest = next_order xs in
      if p x then (if leb rest (order x) then order x + 1 else rest) else rest

  pub next_order_lem : (xs : List A) → All (λ x. p x ≡ true → order x < next_order xs) xs
  next_order_lem xs = above xs (next_order xs) (omega arith)
    where
      above : (ys : List A) (n : ℕ) → next_order ys ≤ n → All (λ x. p x ≡ true → order x < n) ys
      above [] n h = tt
      above (y ∷ ys) n h = elim (Bool-cases (p y)) [
        | inl e ↦ ((λ q. ground arith), above ys n (ground arith))
        | inr e ↦ ((λ q. ground arith), above ys n (ground arith))
      ]

  -- No row that passes has none before it.
  pub least-none : (xs : List A) → least xs ≡ none → All (λ x. p x ≡ false) xs
  least-none [] h = tt
  least-none (x ∷ xs) h = elim (Bool-cases (p x)) [
    | inl e ↦ absurd (none_ne_some (sym (rw e at h)))
    | inr e ↦ (e, least-none xs (rw e at h))
  ]

  at_most-All :
      (xs : List A) (n : ℕ) → All (λ x. p x ≡ false) xs → All (λ x. p x ≡ true → n ≤ order x) xs
  at_most-All [] n h = tt
  at_most-All (x ∷ xs) n (e, h) = ((λ q. ground arith), at_most-All xs n h)

  weaken :
      (xs : List A) (m n : ℕ)
      → n ≤ m
      → All (λ x. p x ≡ true → m ≤ order x) xs
      → All (λ x. p x ≡ true → n ≤ order x) xs
  weaken [] m n l h = tt
  weaken (x ∷ xs) m n l (a, h) = ((λ q. let b = a q in omega arith), weaken xs m n l h)

  pub least_lem :
      (xs : List A) (r : A)
      → least xs ≡ some r
      → (p r ≡ true) × All (λ x. p x ≡ true → order r ≤ order x) xs
  least_lem [] r h = absurd (none_ne_some h)
  least_lem (x ∷ xs) r h = elim (Bool-cases (p x)) [
    | inr e ↦ let (a, b) = least_lem xs r (rw e at h) in (a, ((λ q. ground arith), b))
    | inl e ↦ elim (Option-cases (least xs)) [
      | inl k ↦
          let same : x ≡ r = some_inj (rw (e, k) at h) in
          (
            rw⁻¹ same e,
            ((λ q. rw⁻¹ same (omega arith)), at_most-All xs (order r) (least-none xs k)),
          )
      | inr (y, k) ↦
          let (a, b) = least_lem xs y k in
          elim (Bool-cases (leb (order x) (order y))) [
            | inl t ↦
                let same : x ≡ r = some_inj (rw (e, k, t) at h) in
                (
                  rw⁻¹ same e,
                  (
                    (λ q. rw⁻¹ same (omega arith)),
                    weaken xs (order y) (order r) (rw⁻¹ same (ground arith)) b,
                  ),
                )
            | inr t ↦
                let same : y ≡ r = some_inj (rw (e, k, t) at h) in
                (
                  rw⁻¹ same a,
                  (
                    (λ q. rw⁻¹ same (ground arith)),
                    subst (λ z. All (λ x. p x ≡ true → order z ≤ order x) xs) same b,
                  ),
                )
          ]
    ]
  ]

  -- A row that comes after all others is the least only where there was none.
  pub least-append :
      (xs : List A) (m : A)
      → All (λ x. p x ≡ true → order x < order m) xs
      → least (xs ++ m ∷ [])
        ≡ (elim (least xs) [ none ↦ (if p m then some m else none) | some r ↦ some r ])
  least-append [] m h = ground arith
  least-append (x ∷ xs) m (a, h) = ground (arith, least-append xs m h)
