-- ===== src/Admission/Counter.antt =====
-- `collections.Counter` as uni_api/admission/memory.py and cpu.py use it: a dictionary in the order of insertion
-- with 0 for a missing key, whose entry is deleted when it falls to 0.
use uni_api.Prelude.{
  ℕ, ◌+◌, ◌-◌, ◌≤◌, String, ◌≡◌, refl, inl, inr, true, false, List, [], ◌∷◌, arith, ◌==◌,
  if◌then◌else◌, Bool-cases, str_eq, str_eq_iff,
}

unfoldable pub count : String → List (String × ℕ) → ℕ
count k [] = 0
count k ((j, m) ∷ xs) = if str_eq j k then m else count k xs

-- `counter[k] += n`
unfoldable pub add : String → ℕ → List (String × ℕ) → List (String × ℕ)
add k n [] = (k, n) ∷ []
add k n ((j, m) ∷ xs) = if str_eq j k then (j, m + n) ∷ xs else (j, m) ∷ add k n xs

-- `counter[k] -= n`, and `del counter[k]` if that leaves 0.
unfoldable pub take_off : String → ℕ → List (String × ℕ) → List (String × ℕ)
take_off k n [] = []
take_off k n ((j, m) ∷ xs) =
    if str_eq j k then (if m - n == 0 then xs else (j, m - n) ∷ xs) else (j, m) ∷ take_off k n xs

-- `sum(counter.values())`
unfoldable pub sum : List (String × ℕ) → ℕ
sum [] = 0
sum ((j, m) ∷ xs) = m + sum xs

-- The part of an amount under one key that counts for another.
abbrev pub at_key : String → String → ℕ → ℕ
at_key j k n = if str_eq j k then n else 0

-- Each key has one entry, which is not 0.
unfoldable pub Normal : List (String × ℕ) → Type 0
Normal [] = Unit
Normal ((j, m) ∷ xs) = (1 ≤ m) × (count j xs ≡ 0) × Normal xs

same_key : (i j k : String) → str_eq i j ≡ true → str_eq j k ≡ str_eq i k
same_key i j k e = rw ((str_eq_iff i j).0 e) refl

other_key : (i j k : String) → str_eq i j ≡ false → str_eq i k ≡ true → str_eq j k ≡ false
other_key i j k e f = elim (Bool-cases (str_eq j k)) [
  | inl g ↦ cc (e, (str_eq_iff j k).0 g)
  | inr g ↦ g
]

pub count-add :
    (j k : String) (n : ℕ) (xs : List (String × ℕ))
    → count k (add j n xs) ≡ count k xs + at_key j k n
unfolding count add
count-add j k n [] = ground arith
count-add j k n ((i, m) ∷ xs) = elim (Bool-cases (str_eq i j)) [
  | inl e ↦ rw e (ground (arith, same_key i j k e))
  | inr e ↦ rw e (ground (arith, count-add j k n xs, other_key i j k e))
]

pub sum-add : (k : String) (n : ℕ) (xs : List (String × ℕ)) → sum (add k n xs) ≡ sum xs + n
unfolding sum add
sum-add k n [] = omega arith
sum-add k n ((i, m) ∷ xs) = ground (arith, sum-add k n xs)

pub count-take_off :
    (j k : String) (n : ℕ) (xs : List (String × ℕ))
    → n ≤ count j xs
    → Normal xs
    → count k (take_off j n xs) + at_key j k n ≡ count k xs
unfolding count take_off Normal
count-take_off j k n [] h v = ground arith
count-take_off j k n ((i, m) ∷ xs) h v =
    ground (arith, v, count-take_off j k n xs, same_key i j k, str_eq_iff i k)

pub sum-take_off :
    (k : String) (n : ℕ) (xs : List (String × ℕ))
    → n ≤ count k xs
    → sum (take_off k n xs) + n ≡ sum xs
unfolding sum take_off count
sum-take_off k n [] h = omega arith
sum-take_off k n ((i, m) ∷ xs) h = ground (arith, sum-take_off k n xs)

pub add-Normal :
    (k : String) (n : ℕ) (xs : List (String × ℕ)) → 1 ≤ n → Normal xs → Normal (add k n xs)
unfolding Normal add count
add-Normal k n [] h v = (h, refl, tt)
add-Normal k n ((i, m) ∷ xs) h v =
    ground (arith, v, add-Normal k n xs, count-add k i n xs, str_eq_iff i k, str_eq_iff k i)

pub take_off-Normal :
    (k : String) (n : ℕ) (xs : List (String × ℕ))
    → n ≤ count k xs
    → Normal xs
    → Normal (take_off k n xs)
unfolding Normal take_off count
take_off-Normal k n [] h v = tt
take_off-Normal k n ((i, m) ∷ xs) h v =
    ground (arith, v, take_off-Normal k n xs, count-take_off k i n xs)
