-- ===== src/Stuck/Tail.antt =====
-- The last entries of a list.
use ctrlrelay.Base.{
  ap, ℕ, ◌+◌, ◌≤◌, ◌≡◌, refl, List, [], ◌∷◌, ◌++◌, length, ltb, arith, Bool-cases, inl, inr,
}
use ctrlrelay.Stuck.Loop.{last_n}

module _ {A : Type 0} where
  pub length-append_lem : (xs ys : List A) → length (xs ++ ys) ≡ length xs + length ys
  length-append_lem [] ys = omega arith
  length-append_lem (x ∷ xs) ys = ground (arith, length-append_lem xs ys)

  pub last_n-all : (n : ℕ) (xs : List A) → length xs ≤ n → last_n n xs ≡ xs
  unfolding last_n
  last_n-all n [] h = refl
  last_n-all n (x ∷ xs) h = ground arith

  -- They are as many as asked for, and stand at the end.
  pub last_n-split :
      (n : ℕ) (xs : List A)
      → n ≤ length xs
      → (length (last_n n xs) ≡ n) × ((before : List A) × (xs ≡ before ++ last_n n xs))
  unfolding last_n
  last_n-split n [] h = (omega arith, ([], refl))
  last_n-split n (x ∷ xs) h = elim (Bool-cases (ltb (length xs) n)) [
    | inl all ↦ rw all (ground arith, ([], refl))
    | inr more ↦
        let (len, (before, at)) = last_n-split n xs (ground arith) in
        rw more (len, (x ∷ before, ap (λ ys. x ∷ ys) at))
  ]

  -- ... and only they do.
  pub last_n-append : (before tail : List A) → last_n (length tail) (before ++ tail) ≡ tail
  unfolding last_n
  last_n-append [] tail = last_n-all (length tail) tail (omega arith)
  last_n-append (x ∷ before) tail =
      ground (arith, length-append_lem before tail, last_n-append before tail)
