-- ===== src/Sampling/Taking.antt =====
-- The first records of a list that pass a test.
use databridge.Base.{ℕ, zero, suc, ◌-◌, ◌≡◌, refl, ap, Bool, true, false, List, [], ◌∷◌, arith}
use databridge.Base.Lists.{take, keep_if}
use databridge.Value.{Value}

abbrev pub records_of {ℓ} : {F : Type ℓ} → List (Value × F) → List Value
records_of [] = []
records_of ((v, d) ∷ rest) = v ∷ records_of rest

pub take-nil : (n : ℕ) → [] ≡ take {A = Value} n []
take-nil zero = refl
take-nil (suc n) = refl

pub minus_zero : (n : ℕ) → n - 0 ≡ n
minus_zero n = omega arith

-- One more record on both sides of "the first `n` of those that pass the test".
module _ (p : Value → Bool) (v : Value) (xs ys : List Value) where
  pub keep_take_in :
      {n m : ℕ}
      → p v ≡ true
      → n ≡ suc m
      → keep_if p xs ≡ take m (keep_if p ys)
      → keep_if p (v ∷ xs) ≡ take n (keep_if p (v ∷ ys))
  keep_take_in h e ih = rw (h, e) (ap (λ r. v ∷ r) ih)

  pub keep_take_out :
      {n m : ℕ}
      → p v ≡ false
      → n ≡ m
      → keep_if p xs ≡ take m (keep_if p ys)
      → keep_if p (v ∷ xs) ≡ take n (keep_if p (v ∷ ys))
  keep_take_out h e ih = rw (h, e) ih

  pub keep_take_full :
      {n m : ℕ}
      → n ≡ 0
      → m ≡ 0
      → keep_if p xs ≡ take m (keep_if p ys)
      → keep_if p xs ≡ take n (keep_if p (v ∷ ys))
  keep_take_full e e' ih = rw e (rw e' at ih)

  pub keep_take_skip :
      {n m : ℕ}
      → p v ≡ false
      → n ≡ m
      → keep_if p xs ≡ take m (keep_if p ys)
      → keep_if p xs ≡ take n (keep_if p (v ∷ ys))
  keep_take_skip h e ih = rw (h, e) ih
