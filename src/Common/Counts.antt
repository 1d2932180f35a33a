-- ===== src/Common/Counts.antt =====
-- Counting the rows that pass a test.
use Prim.Native.Nat.{◌≤◌}
use mathlib.Core.Path.{◌≡◌, refl}
use mathlib.Core.Logic.{inl, inr}
use mathlib.Core.Bool.{Bool, true, false, ◌&&◌}
use mathlib.Core.List.{List, [], ◌∷◌}
use mathlib.Core.Option.{some}
use native.Mathlib.Omega.{arith}
use agentic_collab.Common.Tests.{if◌then◌else◌, Bool-cases, is_some}
use agentic_collab.Common.Lists.{count, select, find, any}

module _ {ℓ} {A : Type ℓ} where
  pub count-select_none :
      (p q : A → Bool)
      → ((x : A) → p x ≡ true → q x ≡ false)
      → (xs : List A) → count p (select q xs) ≡ 0
  count-select_none p q h [] = refl
  count-select_none p q h (x ∷ xs) = ground (arith, h x, count-select_none p q h xs)

  pub count-select_all :
      (p q : A → Bool)
      → ((x : A) → p x ≡ true → q x ≡ true)
      → (xs : List A) → count p (select q xs) ≡ count p xs
  count-select_all p q h [] = refl
  count-select_all p q h (x ∷ xs) = ground (arith, h x, count-select_all p q h xs)

  pub count_of_any : (p : A → Bool) (xs : List A) → any p xs ≡ false → count p xs ≡ 0
  count_of_any p [] h = refl
  count_of_any p (x ∷ xs) h = ground (arith, count_of_any p xs)

  pub count_of_none : (p : A → Bool) (xs : List A) → is_some (find p xs) ≡ false → count p xs ≡ 0
  count_of_none p [] h = refl
  count_of_none p (x ∷ xs) h = ground (arith, count_of_none p xs)

  pub count_of_some : (p : A → Bool) (xs : List A) (a : A) → find p xs ≡ some a → 1 ≤ count p xs
  count_of_some p [] a h = cc
  count_of_some p (x ∷ xs) a h = ground (arith, count_of_some p xs a)

  pub count-and-le : (p q : A → Bool) (xs : List A) → count (λ x. p x && q x) xs ≤ count p xs
  count-and-le p q [] = omega arith
  count-and-le p q (x ∷ xs) = ground (arith, count-and-le p q xs)

  -- Where one row at most passes `p`, the rows that pass `q` too are counted by the first.
  pub count-and_first :
      (p q : A → Bool) (xs : List A) (a : A)
      → find p xs ≡ some a
      → count p xs ≤ 1
      → count (λ x. p x && q x) xs ≡ (if q a then 1 else 0)
  count-and_first p q [] a h l = cc
  count-and_first p q (x ∷ xs) a h l = elim (Bool-cases (p x)) [
    | inl t ↦ ground (arith, count-and-le p q xs)
    | inr t ↦ ground (arith, count-and_first p q xs a)
  ]
