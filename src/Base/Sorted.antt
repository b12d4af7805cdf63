-- ===== src/Base/Sorted.antt =====
-- A sort puts a row with the least key first.
use mathlib.Core.List.{Memᴰ}
use ctrlrelay.Base.{
  ℕ, ◌≡◌, ◌≤◌, List, [], ◌∷◌, arith, All, leb, Bool-cases, inl, inr, insert_by, sort_by, subst,
}
use ctrlrelay.Base.Members.{All-mem, mem-sort_by}

module _ {A : Type 0} (key : A → ℕ) where
  abbrev pub IsSorted : List A → Type 0
  IsSorted [] = Unit
  IsSorted (x ∷ xs) = All (λ z. key x ≤ key z) xs × IsSorted xs

  All-le : (a b : ℕ) (xs : List A) → a ≤ b → All (λ z. b ≤ key z) xs → All (λ z. a ≤ key z) xs
  All-le a b [] le h = tt
  All-le a b (x ∷ xs) le (h, hs) = (omega arith, All-le a b xs le hs)

  insert_by-All :
      (a : ℕ) (y : A) (xs : List A)
      → a ≤ key y
      → All (λ z. a ≤ key z) xs
      → All (λ z. a ≤ key z) (insert_by key y xs)
  unfolding insert_by
  insert_by-All a y [] le h = (le, tt)
  insert_by-All a y (x ∷ xs) le (h, hs) = elim (Bool-cases (leb (key y) (key x))) [
    | inl e ↦ rw e (le, (h, hs))
    | inr e ↦ rw e (h, insert_by-All a y xs le hs)
  ]

  insert_by-IsSorted : (y : A) (xs : List A) → IsSorted xs → IsSorted (insert_by key y xs)
  unfolding insert_by
  insert_by-IsSorted y [] h = (tt, tt)
  insert_by-IsSorted y (x ∷ xs) (h, hs) = elim (Bool-cases (leb (key y) (key x))) [
    | inl e ↦
        let le : key y ≤ key x = ground arith in
        rw e ((le, All-le (key y) (key x) xs le h), (h, hs))
    | inr e ↦ rw e (insert_by-All (key x) y xs (ground arith) h, insert_by-IsSorted y xs hs)
  ]

  sort_by-IsSorted : (xs : List A) → IsSorted (sort_by key xs)
  unfolding sort_by
  sort_by-IsSorted [] = tt
  sort_by-IsSorted (x ∷ xs) = insert_by-IsSorted x (sort_by key xs) (sort_by-IsSorted xs)

  least : (y : A) (ys : List A) → IsSorted (y ∷ ys) → {x : A} → Memᴰ x (y ∷ ys) → key y ≤ key x
  least y ys (h, hs) (Memᴰ.head e) = rw e (omega arith)
  least y ys (h, hs) (Memᴰ.tail m) = All-mem (λ z. key y ≤ key z) ys h m

  pub sort_by-head :
      (xs : List A) (y : A) (ys : List A)
      → sort_by key xs ≡ y ∷ ys
      → {x : A} → Memᴰ x xs
      → key y ≤ key x
  sort_by-head xs y ys e {x} m =
      least y ys (subst IsSorted e (sort_by-IsSorted xs)) {x = x}
        (subst (λ l. Memᴰ x l) e (mem-sort_by key xs m))
