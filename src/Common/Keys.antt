-- ===== src/Common/Keys.antt =====
-- A text column without repetitions: the primary key of a table.
use Prim.Native.String.{String}
use mathlib.Core.Path.{◌≡◌, refl, ap, sym}
use mathlib.Core.Logic.{◌≢◌, inl, inr}
use mathlib.Core.Bool.{Bool, true}
use mathlib.Core.List.{List, [], ◌∷◌, ◌++◌, map}
use native.Mathlib.Omega.{arith}
use text.Mathlib.Text.{◌==◌ as str_eq}
use text.Mathlib.TextEquality.{eq_iff}
use agentic_collab.Common.Tests.{◌==◌, Bool-cases}
use agentic_collab.Common.Lists.{count, All, select}
use agentic_collab.Common.Tables.{All-append}

abbrev pub IsDistinct : List String → Type 0
IsDistinct [] = Unit
IsDistinct (n ∷ ns) = All (λ m. m ≢ n) ns × IsDistinct ns

pub IsDistinct-append :
    (ns : List String) (n : String)
    → IsDistinct ns
    → All (λ m. m ≢ n) ns
    → IsDistinct (ns ++ n ∷ [])
IsDistinct-append [] n h k = (tt, tt)
IsDistinct-append (m ∷ ns) n (a, h) (d, k) =
    (All-append (λ p. p ≢ m) ns n a (λ e. d (sym e)), IsDistinct-append ns n h k)

module _ {ℓ} {A : Type ℓ} (key : A → String) where
  pub map-append_one : (xs : List A) (a : A) → map key (xs ++ a ∷ []) ≡ map key xs ++ key a ∷ []
  map-append_one [] a = refl
  map-append_one (x ∷ xs) a = ap (λ ns. key x ∷ ns) (map-append_one xs a)

  pub absent_of_count :
      (n : String) (xs : List A)
      → (count (λ a. str_eq (key a) n) xs == 0) ≡ true
      → All (λ m. m ≢ n) (map key xs)
  absent_of_count n [] h = tt
  absent_of_count n (x ∷ xs) h = ground (arith, eq_iff (key x) n, absent_of_count n xs)

  pub All-map-select :
      (P : String → Type 0) (q : A → Bool) (xs : List A)
      → All P (map key xs)
      → All P (map key (select q xs))
  All-map-select P q [] h = tt
  All-map-select P q (x ∷ xs) (p, h) = elim (Bool-cases (q x)) [
    | inl t ↦ rw t (p, All-map-select P q xs h)
    | inr t ↦ rw t (All-map-select P q xs h)
  ]

  pub IsDistinct-select :
      (q : A → Bool) (xs : List A) → IsDistinct (map key xs) → IsDistinct (map key (select q xs))
  IsDistinct-select q [] h = tt
  IsDistinct-select q (x ∷ xs) (a, h) = elim (Bool-cases (q x)) [
    | inl t ↦ rw t (All-map-select (λ m. m ≢ key x) q xs a, IsDistinct-select q xs h)
    | inr t ↦ rw t (IsDistinct-select q xs h)
  ]
