-- ===== src/Common/Tables.antt =====
-- Tables as lists of rows: what a query finds after an update.
use mathlib.Core.Path.{◌≡◌, refl, ap}
use mathlib.Core.Logic.{◌≢◌, inl, inr}
use mathlib.Core.Bool.{Bool, true, false}
use mathlib.Core.List.{List, [], ◌∷◌, ◌++◌, map}
use mathlib.Core.Option.{Option, none, some}
use native.Mathlib.Omega.{arith}
use agentic_collab.Common.Tests.{◌==◌, if◌then◌else◌, Bool-cases, or_else}
use agentic_collab.Common.Lists.{find, update, count, All, select}

pub some_inj {ℓ} : {A : Type ℓ} {a b : A} → some a ≡ some b → a ≡ b
some_inj {a} h = ap (λ o. or_else o a) h

pub none_ne_some {ℓ} : {A : Type ℓ} {a : A} → none ≢ some a
none_ne_some h = cc

abbrev pub map_option {ℓ κ} : {A : Type ℓ} {B : Type κ} → (A → B) → Option A → Option B
map_option f none = none
map_option f (some a) = some (f a)

module _ {ℓ} {A : Type ℓ} where
  pub find_holds : (p : A → Bool) (xs : List A) (a : A) → find p xs ≡ some a → p a ≡ true
  find_holds p [] a h = cc
  find_holds p (x ∷ xs) a h = ground (arith, find_holds p xs a)

  -- A query that does not see the update finds the row that it found before, updated.
  pub find-update :
      (p q : A → Bool) (f : A → A)
      → ((a : A) → p (f a) ≡ p a)
      → (xs : List A)
      → find p (update q f xs) ≡ map_option (λ a. if q a then f a else a) (find p xs)
  find-update p q f keep [] = refl
  find-update p q f keep (x ∷ xs) = ground (arith, keep x, find-update p q f keep xs)

  pub count_of_find :
      (p q : A → Bool) (xs : List A) (a : A)
      → find p xs ≡ some a
      → q a ≡ true
      → (count q xs == 0) ≡ false
  count_of_find p q [] a h k = cc
  count_of_find p q (x ∷ xs) a h k = ground (arith, count_of_find p q xs a)

  pub find-append :
      (p : A → Bool) (xs : List A) (a : A)
      → find p (xs ++ a ∷ [])
        ≡ elim (find p xs) [ none ↦ (if p a then some a else none) | some b ↦ some b ]
  find-append p [] a = ground arith
  find-append p (x ∷ xs) a = ground (arith, find-append p xs a)

  pub find-none_of_count :
      (p : A → Bool) (xs : List A) → (count p xs == 0) ≡ true → find p xs ≡ none
  find-none_of_count p [] h = refl
  find-none_of_count p (x ∷ xs) h = ground (arith, find-none_of_count p xs)

  pub All-update {κ} :
      (P : A → Type κ) (q : A → Bool) (f : A → A)
      → ((a : A) → P a → P (f a))
      → (xs : List A) → All P xs
      → All P (update q f xs)
  All-update P q f keep [] h = tt
  All-update P q f keep (x ∷ xs) (px, h) = elim (Bool-cases (q x)) [
    | inl t ↦ rw t (keep x px, All-update P q f keep xs h)
    | inr t ↦ rw t (px, All-update P q f keep xs h)
  ]

  pub All-append {κ} :
      (P : A → Type κ) (xs : List A) (a : A) → All P xs → P a → All P (xs ++ a ∷ [])
  All-append P [] a h k = (k, tt)
  All-append P (x ∷ xs) a (px, h) k = (px, All-append P xs a h k)

  pub All-select {κ} :
      (P : A → Type κ) (q : A → Bool) (xs : List A) → All P xs → All P (select q xs)
  All-select P q [] h = tt
  All-select P q (x ∷ xs) (px, h) = elim (Bool-cases (q x)) [
    | inl t ↦ rw t (px, All-select P q xs h)
    | inr t ↦ rw t (All-select P q xs h)
  ]

  -- A column that an update keeps.
  pub map-update {κ} :
      {B : Type κ} (col : A → B) (q : A → Bool) (f : A → A)
      → ((a : A) → col (f a) ≡ col a)
      → (xs : List A) → map col (update q f xs) ≡ map col xs
  map-update col q f keep [] = refl
  map-update col q f keep (x ∷ xs) = elim (Bool-cases (q x)) [
    | inl t ↦ rw t (rw (keep x, map-update col q f keep xs))
    | inr t ↦ rw t (rw (map-update col q f keep xs))
  ]
