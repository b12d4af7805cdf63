-- ===== src/Base/Members.antt =====
-- What a selection and a sort hold.
use mathlib.Core.List.{Memᴰ}
use ctrlrelay.Base.{
  All, ℕ, ◌≡◌, refl, sym, Bool, true, some, List, [], ◌∷◌, arith, select, find, sort_by, insert_by,
  leb, Bool-cases, inl, inr, ◌⊎◌, ◌++◌, ◌+◌, ◌||◌, any, count, if◌then◌else◌,
}

module _ {A : Type 0} where
  pub mem-find :
      (p : A → Bool) (xs : List A) (x : A) → find p xs ≡ some x → Memᴰ x xs × (p x ≡ true)
  unfolding find
  mem-find p [] x e = cc
  mem-find p (y ∷ ys) x e = elim (Bool-cases (p y)) [
    | inl hit ↦ let same : y ≡ x = ground (arith, hit) in (Memᴰ.head (sym same), rw (← same) hit)
    | inr miss ↦ let (m, h) = mem-find p ys x (ground (arith, miss)) in (Memᴰ.tail m, h)
  ]

  pub mem-select :
      (p : A → Bool) (xs : List A) {x : A} → Memᴰ x xs → p x ≡ true → Memᴰ x (select p xs)
  unfolding select
  mem-select p [] m h = elim m [ ]
  mem-select p (y ∷ ys) {x} (Memᴰ.head e) h = rw (rw e at h) (Memᴰ.head e)
  mem-select p (y ∷ ys) (Memᴰ.tail m) h = elim (Bool-cases (p y)) [
    | inl hit ↦ rw hit (Memᴰ.tail (mem-select p ys m h))
    | inr miss ↦ rw miss (mem-select p ys m h)
  ]

  apart : {y x : A} {ys : List A} → Memᴰ x (y ∷ ys) → (x ≡ y) ⊎ Memᴰ x ys
  apart (Memᴰ.head e) = inl e
  apart (Memᴰ.tail m) = inr m

  at_head :
      (p : A → Bool) (y : A) (ys zs : List A) {x : A}
      → p y ≡ true
      → (Memᴰ x zs → Memᴰ x ys × (p x ≡ true))
      → Memᴰ x (y ∷ zs)
      → Memᴰ x (y ∷ ys) × (p x ≡ true)
  at_head p y ys zs hit rest (Memᴰ.head e) = (Memᴰ.head e, rw e hit)
  at_head p y ys zs hit rest (Memᴰ.tail m) = let (m', h) = rest m in (Memᴰ.tail m', h)

  pub mem-select_inv :
      (p : A → Bool) (xs : List A) {x : A} → Memᴰ x (select p xs) → Memᴰ x xs × (p x ≡ true)
  unfolding select
  mem-select_inv p [] m = elim m [ ]
  mem-select_inv p (y ∷ ys) {x} m = elim (Bool-cases (p y)) [
    | inl hit ↦
        at_head p y ys (select p ys) hit (mem-select_inv p ys {x = x}) (rw (hit, select) at m)
    | inr miss ↦
        let (m', h) = mem-select_inv p ys {x = x} (rw (miss, select) at m) in (Memᴰ.tail m', h)
  ]

  mem-insert_by_self : (key : A → ℕ) (y : A) (xs : List A) → Memᴰ y (insert_by key y xs)
  unfolding insert_by
  mem-insert_by_self key y [] = Memᴰ.head refl
  mem-insert_by_self key y (z ∷ zs) = elim (Bool-cases (leb (key y) (key z))) [
    | inl le ↦ rw le (Memᴰ.head refl)
    | inr gt ↦ rw gt (Memᴰ.tail (mem-insert_by_self key y zs))
  ]

  mem-insert_by_of_mem :
      (key : A → ℕ) (y : A) (xs : List A) {x : A} → Memᴰ x xs → Memᴰ x (insert_by key y xs)
  unfolding insert_by
  mem-insert_by_of_mem key y [] m = elim m [ ]
  mem-insert_by_of_mem key y (z ∷ zs) (Memᴰ.head e) = elim (Bool-cases (leb (key y) (key z))) [
    | inl le ↦ rw le (Memᴰ.tail (Memᴰ.head e))
    | inr gt ↦ rw gt (Memᴰ.head e)
  ]
  mem-insert_by_of_mem key y (z ∷ zs) (Memᴰ.tail m) = elim (Bool-cases (leb (key y) (key z))) [
    | inl le ↦ rw le (Memᴰ.tail (Memᴰ.tail m))
    | inr gt ↦ rw gt (Memᴰ.tail (mem-insert_by_of_mem key y zs m))
  ]

  pub mem-sort_by : (key : A → ℕ) (xs : List A) {x : A} → Memᴰ x xs → Memᴰ x (sort_by key xs)
  unfolding sort_by
  mem-sort_by key [] m = m
  mem-sort_by key (y ∷ ys) (Memᴰ.head e) = rw e (mem-insert_by_self key y (sort_by key ys))
  mem-sort_by key (y ∷ ys) (Memᴰ.tail m) =
      mem-insert_by_of_mem key y (sort_by key ys) (mem-sort_by key ys m)

  insert_by_cases :
      (key : A → ℕ) (y : A) (xs : List A) {x : A}
      → Memᴰ x (insert_by key y xs)
      → (x ≡ y) ⊎ Memᴰ x xs
  unfolding insert_by
  insert_by_cases key y [] m = apart m
  insert_by_cases key y (z ∷ zs) {x} m = elim (Bool-cases (leb (key y) (key z))) [
    | inl le ↦ apart (rw (le, insert_by) at m)
    | inr gt ↦ below (insert_by_cases key y zs {x = x}) (apart (rw (gt, insert_by) at m))
  ]
    where
      below :
          (Memᴰ x (insert_by key y zs) → (x ≡ y) ⊎ Memᴰ x zs)
          → (x ≡ z) ⊎ Memᴰ x (insert_by key y zs)
          → (x ≡ y) ⊎ Memᴰ x (z ∷ zs)
      below rest (inl e) = inr (Memᴰ.head e)
      below rest (inr m) = elim (rest m) [ inl e ↦ inl e | inr n ↦ inr (Memᴰ.tail n) ]

  pub mem-sort_by_inv : (key : A → ℕ) (xs : List A) {x : A} → Memᴰ x (sort_by key xs) → Memᴰ x xs
  unfolding sort_by
  mem-sort_by_inv key [] m = m
  mem-sort_by_inv key (y ∷ ys) {x} m = elim (insert_by_cases key y (sort_by key ys) m) [
    | inl e ↦ Memᴰ.head e
    | inr n ↦ Memᴰ.tail (mem-sort_by_inv key ys {x = x} n)
  ]

  pub All-mem : (P : A → Type 0) (xs : List A) → All P xs → {x : A} → Memᴰ x xs → P x
  All-mem P [] h m = elim m [ ]
  All-mem P (y ∷ ys) (h, hs) (Memᴰ.head e) = rw e h
  All-mem P (y ∷ ys) (h, hs) (Memᴰ.tail m) = All-mem P ys hs m

  pub mem-All : (P : A → Type 0) (xs : List A) → ((x : A) → Memᴰ x xs → P x) → All P xs
  mem-All P [] h = tt
  mem-All P (y ∷ ys) h = (h y (Memᴰ.head refl), mem-All P ys (λ x m. h x (Memᴰ.tail m)))

-- One more element at the end.
pub All-append {κ} :
    {A : Type 0} (P : A → Type κ) (es : List A) (e : A) → All P es → P e → All P (es ++ e ∷ [])
All-append P [] e hs h = (h, tt)
All-append P (f ∷ es) e (g, hs) h = (g, All-append P es e hs h)

pub count-append :
    {A : Type 0} (p : A → Bool) (es : List A) (e : A)
    → count p (es ++ e ∷ []) ≡ count p es + (if p e then 1 else 0)
unfolding count
count-append p [] e = ground arith
count-append p (f ∷ es) e = ground (arith, count-append p es e)

pub any-append :
    {A : Type 0} (p : A → Bool) (xs ys : List A) → any p (xs ++ ys) ≡ (any p xs || any p ys)
unfolding any
any-append p [] ys = refl
any-append p (x ∷ xs) ys = ground (arith, any-append p xs ys)
