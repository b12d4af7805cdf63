-- ===== src/Base/Changes.antt =====
-- What an update and a deletion leave of a test on the rows.
use ctrlrelay.Base.{
  ◌≡◌, refl, ap, ◌&&◌, Bool, true, false, List, [], ◌∷◌, arith, any, update, delete, Bool-cases,
  inl, inr,
}

module _ {A : Type 0} (p : A → Bool) where
  -- After the deletion of the rows that pass a test none passes it.
  pub any-delete_self : (xs : List A) → any p (delete p xs) ≡ false
  unfolding any delete
  any-delete_self [] = refl
  any-delete_self (x ∷ xs) = ground (arith, any-delete_self xs)

  -- Nor after an update that makes each of them fail it.
  pub any-update_off :
      (f : A → A) (xs : List A)
      → ((x : A) → p x ≡ true → p (f x) ≡ false)
      → any p (update p f xs) ≡ false
  unfolding any update
  any-update_off f [] off = refl
  any-update_off f (x ∷ xs) off = ground (arith, off x, any-update_off f xs off)

  -- Where no row passes the test, an update changes nothing.
  pub update-none : (f : A → A) (xs : List A) → any p xs ≡ false → update p f xs ≡ xs
  unfolding any update
  update-none f [] h = refl
  update-none f (x ∷ xs) h = elim (Bool-cases (p x)) [
    | inl hit ↦ ground (arith, hit)
    | inr miss ↦ rw miss (ap (λ ys. x ∷ ys) (update-none f xs (ground (arith, miss))))
  ]

  -- Of the rows that an update touched, none passes a test that every new row fails.
  pub any-update_touched :
      (q : A → Bool) (f : A → A) (xs : List A)
      → ((x : A) → q (f x) ≡ false)
      → any (λ x. p x && q x) (update p f xs) ≡ false
  unfolding any update
  any-update_touched q f [] off = refl
  any-update_touched q f (x ∷ xs) off = ground (arith, off x, any-update_touched q f xs off)
