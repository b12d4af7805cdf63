-- ===== src/Base/Keyed.antt =====
-- Tables with a text for a primary key: what a query by key sees of an update, a deletion and an
-- insertion.
use mathlib.Core.Option
use ctrlrelay.Base.{
  ◌≢◌, true, ◌≡◌, refl, Bool, false, ◌&&◌, String, Option, none, some, List, [], ◌∷◌, ◌++◌, arith,
  if◌then◌else◌, str_eq, eq_iff, ltb, any, find, update, count, delete, Bool-cases, inl, inr,
}

-- What a guarded UPDATE makes of the row that it finds.
abbrev pub guarded : {A : Type 0} → (A → Bool) → (A → A) → A → A
guarded g f x = if g x then f x else x

abbrev pub holds : {A : Type 0} → (A → Bool) → Option A → Bool
holds g none = false
holds g (some x) = g x

abbrev pub kept_unless : {A : Type 0} → (A → Bool) → Option A → Option A
kept_unless p none = none
kept_unless p (some x) = if p x then none else some x

pub count-pos_any : {A : Type 0} (p : A → Bool) (xs : List A) → ltb 0 (count p xs) ≡ any p xs
unfolding count any
count-pos_any p [] = refl
count-pos_any p (x ∷ xs) = ground (arith, count-pos_any p xs)

module _ {A : Type 0} (key : A → String) where
  unfoldable pub row : String → List A → Option A
  row k xs = find (λ x. str_eq (key x) k) xs

  abbrev pub IsUnique : List A → Type 0
  IsUnique [] = Unit
  IsUnique (x ∷ xs) = (any (λ y. str_eq (key y) (key x)) xs ≡ false) × IsUnique xs

  -- A row found by a key has it.
  pub key-row : (k : String) (xs : List A) {x : A} → row k xs ≡ some x → key x ≡ k
  unfolding row find
  key-row k [] e = cc
  key-row k (y ∷ xs) {x} e = ground (arith, eq_iff (key y) k, key-row k xs {x = x})

  -- A query by key after an update finds the row that it found before, changed if it was touched.
  pub row-update :
      (j : String) (p : A → Bool) (f : A → A) (xs : List A)
      → ((x : A) → p x ≡ true → key (f x) ≡ key x)
      → row j (update p f xs) ≡ Option.map (guarded p f) (row j xs)
  unfolding row find update
  row-update j p f [] same = ground arith
  row-update j p f (x ∷ xs) same = ground (arith, same x, row-update j p f xs same)

  -- A guarded test of the rows with a key is the guard on the row found.
  any-row_none :
      (k : String) (g : A → Bool) (xs : List A)
      → any (λ y. str_eq (key y) k) xs ≡ false
      → any (λ x. str_eq (key x) k && g x) xs ≡ false
  unfolding any
  any-row_none k g [] h = refl
  any-row_none k g (x ∷ xs) h = ground (arith, any-row_none k g xs)

  pub any-row :
      (k : String) (g : A → Bool) (xs : List A)
      → IsUnique xs
      → any (λ x. str_eq (key x) k && g x) xs ≡ holds g (row k xs)
  unfolding row find any
  any-row k g [] u = refl
  any-row k g (x ∷ xs) (fresh, u) = elim (Bool-cases (str_eq (key x) k)) [
    | inl e ↦
        let same : key x ≡ k = (eq_iff (key x) k).0 e in
        let rest : any (λ y. str_eq (key y) k && g y) xs ≡ false =
          any-row_none k g xs (rw same at fresh) in
        ground (arith, e, rest)
    | inr ne ↦ ground (arith, ne, any-row k g xs u)
  ]

  any-update :
      (k : String) (p : A → Bool) (f : A → A) (xs : List A)
      → ((x : A) → p x ≡ true → key (f x) ≡ key x)
      → any (λ y. str_eq (key y) k) (update p f xs) ≡ any (λ y. str_eq (key y) k) xs
  unfolding any update
  any-update k p f [] same = refl
  any-update k p f (x ∷ xs) same = ground (arith, same x, any-update k p f xs same)

  -- The key stays a key through an update that leaves it alone, a deletion and an insertion.
  pub update-IsUnique :
      (p : A → Bool) (f : A → A) (xs : List A)
      → ((x : A) → p x ≡ true → key (f x) ≡ key x)
      → IsUnique xs
      → IsUnique (update p f xs)
  unfolding update
  update-IsUnique p f [] same u = tt
  update-IsUnique p f (x ∷ xs) same (fresh, u) = ground (
    arith,
    same x,
    any-update (key x) p f xs same,
    any-update (key (f x)) p f xs same,
    update-IsUnique p f xs same u,
  )

  any-delete : (q p : A → Bool) (xs : List A) → any q xs ≡ false → any q (delete p xs) ≡ false
  unfolding any delete
  any-delete q p [] h = refl
  any-delete q p (x ∷ xs) h = ground (arith, any-delete q p xs)

  pub delete-IsUnique : (p : A → Bool) (xs : List A) → IsUnique xs → IsUnique (delete p xs)
  unfolding delete
  delete-IsUnique p [] u = tt
  delete-IsUnique p (x ∷ xs) (fresh, u) =
      ground (arith, any-delete (λ y. str_eq (key y) (key x)) p xs fresh, delete-IsUnique p xs u)

  pub row-any-false :
      (k : String) (xs : List A) → any (λ y. str_eq (key y) k) xs ≡ false → row k xs ≡ none
  unfolding row find any
  row-any-false k [] h = refl
  row-any-false k (x ∷ xs) h = ground (arith, row-any-false k xs)

  pub row-delete :
      (k : String) (p : A → Bool) (xs : List A)
      → IsUnique xs
      → row k (delete p xs) ≡ kept_unless p (row k xs)
  unfolding row find delete
  row-delete k p [] u = refl
  row-delete k p (x ∷ xs) (fresh, u) = elim (Bool-cases (str_eq (key x) k)) [
    | inl e ↦
        let same : key x ≡ k = (eq_iff (key x) k).0 e in
        let gone : row k xs ≡ none = row-any-false k xs (rw same at fresh) in
        ground (arith, e, gone, row-delete k p xs u)
    | inr ne ↦ ground (arith, ne, row-delete k p xs u)
  ]

  pub row-append :
      (k : String) (x : A) (xs : List A)
      → row k (xs ++ x ∷ [])
        ≡ elim (row k xs) [ none ↦ if str_eq (key x) k then some x else none | some y ↦ some y ]
  unfolding row find
  row-append k x [] = ground arith
  row-append k x (y ∷ xs) = ground (arith, row-append k x xs)

  any-append :
      (q : A → Bool) (x : A) (xs : List A)
      → any q xs ≡ false
      → q x ≡ false
      → any q (xs ++ x ∷ []) ≡ false
  unfolding any
  any-append q x [] h e = ground arith
  any-append q x (y ∷ xs) h e = ground (arith, any-append q x xs)

  pub append-IsUnique :
      (x : A) (xs : List A)
      → any (λ y. str_eq (key y) (key x)) xs ≡ false
      → IsUnique xs
      → IsUnique (xs ++ x ∷ [])
  unfolding any
  append-IsUnique x [] h u = (refl, tt)
  append-IsUnique x (y ∷ xs) h (fresh, u) =
      let h' : any (λ z. str_eq (key z) (key x)) xs ≡ false = ground arith in
      let ne : str_eq (key x) (key y) ≡ false =
        ground (arith, eq_iff (key x) (key y), eq_iff (key y) (key x)) in
      (any-append (λ z. str_eq (key z) (key y)) x xs fresh ne, append-IsUnique x xs h' u)

  -- A fact about the row of a key survives what keeps it on the rows that are touched.
  pub holds-update :
      (q : A → Bool) (j : String) (p : A → Bool) (f : A → A) (xs : List A)
      → ((x : A) → p x ≡ true → key (f x) ≡ key x)
      → ((x : A) → key x ≡ j → q x ≡ true → p x ≡ true → q (f x) ≡ true)
      → holds q (row j xs) ≡ true
      → holds q (row j (update p f xs)) ≡ true
  holds-update q j p f xs same keep h =
      rw (row-update j p f xs same) (at_row (row j xs) (λ x e. key-row j xs e) h)
    where
      at_row :
          (o : Option A)
          → ((x : A) → o ≡ some x → key x ≡ j)
          → holds q o ≡ true
          → holds q (Option.map (guarded p f) o) ≡ true
      at_row none k h = cc
      at_row (some x) k h = elim (Bool-cases (p x)) [
        | inr skip ↦ ground (arith, skip)
        | inl hit ↦ ground (arith, hit, keep x (k x refl) h hit)
      ]

  pub holds-delete :
      (q : A → Bool) (k : String) (p : A → Bool) (xs : List A)
      → IsUnique xs
      → ((x : A) → key x ≡ k → q x ≡ true → p x ≡ false)
      → holds q (row k xs) ≡ true
      → holds q (row k (delete p xs)) ≡ true
  holds-delete q k p xs u keep h =
      rw (row-delete k p xs u) (at_row (row k xs) (λ x e. key-row k xs e) h)
    where
      at_row :
          (o : Option A)
          → ((x : A) → o ≡ some x → key x ≡ k)
          → holds q o ≡ true
          → holds q (kept_unless p o) ≡ true
      at_row none e h = cc
      at_row (some x) e h = rw (keep x (e x refl) h) h

  pub holds-append :
      (q : A → Bool) (k : String) (x : A) (xs : List A)
      → holds q (row k xs) ≡ true
      → holds q (row k (xs ++ x ∷ [])) ≡ true
  holds-append q k x xs h = rw (row-append k x xs) (at_row (row k xs) h)
    where
      at_row :
          (o : Option A)
          → holds q o ≡ true
          → holds q (elim o [ none ↦ if str_eq (key x) k then some x else none | some y ↦ some y ])
            ≡ true
      at_row none h = cc
      at_row (some y) h = h

  pub row-any-true :
      (k : String) (xs : List A) → any (λ y. str_eq (key y) k) xs ≡ true → row k xs ≢ none
  unfolding row find any
  row-any-true k [] h = cc
  row-any-true k (x ∷ xs) h = ground (arith, row-any-true k xs)
