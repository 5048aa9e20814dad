-- ===== src/Prelude/Sums.antt =====
-- Writes into lists, sums over them, and how a write changes a sum.
use Prim.Native.Nat.{ℕ, zero, suc, ◌+◌, ◌≤◌}
use mathlib.Core.Path.{◌≡◌, refl}
use mathlib.Core.Option.{some}
use mathlib.Core.List.{List, [], ◌∷◌, ◌++◌}
use native.Mathlib.Omega.{arith}
use uni_api.Prelude.Lists.{get_elem?}

-- `xs[i] = x`; out of range nothing changes.
unfoldable pub set {ℓ} : {A : Type ℓ} → ℕ → A → List A → List A
set i x [] = []
set zero x (y ∷ ys) = x ∷ ys
set (suc i) x (y ∷ ys) = y ∷ set i x ys

module _ {ℓ} {A : Type ℓ} (f : A → ℕ) where
  abbrev pub total : List A → ℕ
  total [] = 0
  total (x ∷ xs) = f x + total xs

  pub total-append : (xs ys : List A) → total (xs ++ ys) ≡ total xs + total ys
  total-append [] ys = omega arith
  total-append (x ∷ xs) ys = omega (arith, total-append xs ys)

  pub total-set :
      (xs : List A) (i : ℕ) (x a : A)
      → get_elem? xs i ≡ some a
      → total (set i x xs) + f a ≡ total xs + f x
  unfolding set
  total-set [] i x a h = cc
  total-set (y ∷ xs) zero x a h = ground arith
  total-set (y ∷ xs) (suc i) x a h = omega (arith, total-set xs i x a h)

  pub le-total : (xs : List A) (i : ℕ) (a : A) → get_elem? xs i ≡ some a → f a ≤ total xs
  le-total [] i a h = cc
  le-total (y ∷ xs) zero a h = ground arith
  le-total (y ∷ xs) (suc i) a h = omega (arith, le-total xs i a h)

pub get_elem?-set {ℓ} :
    {A : Type ℓ} (xs : List A) (i : ℕ) (x a : A)
    → get_elem? xs i ≡ some a
    → get_elem? (set i x xs) i ≡ some x
unfolding set
get_elem?-set [] i x a h = cc
get_elem?-set (y ∷ xs) zero x a h = refl
get_elem?-set (y ∷ xs) (suc i) x a h = get_elem?-set xs i x a h
