-- ===== src/Poller/Fresh.antt =====
-- core/poller.py: an issue that is not seen and due stays so while others are looked at.
use ctrlrelay.Poller.Poll.{clear_if}
use ctrlrelay.Base.{
  ◌==◌, if◌then◌else◌, any, ℕ, ◌≡◌, inl, inr, refl, sym, subst, ◌∙◌, Bool, true, false, not, String,
  Option, none, some, List, [], ◌∷◌, ◌++◌, find, delete, arith, ltb, eq_iff, Bool-cases,
}
use ctrlrelay.Poller.Issue.{PolledIssue}
use ctrlrelay.Poller.Book.{
  mark_seen, set_seen, clear_blocked, Key, Book, is_key, is_seen, recheck_due, due_at, entry,
  drop_entry, value_of,
}
use ctrlrelay.Poller.Searches.{is_number, any_candidate, any_fresh, or_fresh, is_fresh}
use ctrlrelay.Poller.Kept.{is_seen_same, is_key-eq}

find-delete_same : {A : Type 0} (p : A → Bool) (xs : List A) → find p (delete p xs) ≡ none
unfolding find delete
find-delete_same p [] = refl
find-delete_same p (x ∷ xs) = ground (arith, find-delete_same p xs)

find-delete_other :
    {A : Type 0} (p q : A → Bool) (xs : List A)
    → ((x : A) → p x ≡ true → q x ≡ false)
    → find p (delete q xs) ≡ find p xs
unfolding find delete
find-delete_other p q [] apart = refl
find-delete_other p q (x ∷ xs) apart = ground (arith, apart x, find-delete_other p q xs apart)

keys-apart : (j k : Key) (x : Key) → is_key k j ≡ false → is_key k x ≡ true → is_key j x ≡ false
keys-apart (r, m) (r', n) (r'', o) ne h = ground (arith, eq_iff r'' r', eq_iff r r', eq_iff r'' r)

still_unseen :
    (k j : Key) (b : Book)
    → is_key k j ≡ false
    → is_seen k b ≡ false
    → any (is_key k) (j ∷ b.seen_issues) ≡ false
unfolding is_seen any
still_unseen k j b other h = ground (arith, other, h)

-- No time is written down before which the issue is left alone.
abbrev pub is_due : ℕ → Option ℕ → Bool
is_due now none = true
is_due now (some when) = not (ltb now when)

module _ (k : Key) (now : ℕ) where
  -- Not seen, and due.
  pub record IsFresh (b : Book) : Type 0 where
    pub unseen : is_seen k b ≡ false
    pub due : is_due now (entry k b.recheck_after) ≡ true

  drop-due :
      (j : Key) (es : List (Key × ℕ))
      → is_due now (entry k es) ≡ true
      → is_due now (entry k (drop_entry j es)) ≡ true
  unfolding entry drop_entry
  drop-due j es h = elim (Bool-cases (is_key k j)) [
    | inl same ↦
        let e : j ≡ k = is_key-eq k j.0 j.1 same in
        subst
          (λ i.
            is_due now (value_of (find (λ e. is_key k e.0) (delete (λ e. is_key i e.0) es))) ≡ true)
          (sym e) (rw (find-delete_same (λ (e : Key × ℕ). is_key k e.0) es) refl)
    | inr other ↦
        rw
          (find-delete_other (λ (e : Key × ℕ). is_key k e.0) (λ e. is_key j e.0) es
            (λ x. keys-apart j k x.0 other))
          h
  ]

  due_at-IsFresh : (j : Key) (o : Option ℕ) (b : Book) → IsFresh b → IsFresh (due_at o j now b).1
  due_at-IsFresh j none b f = f
  due_at-IsFresh j (some when) b f = elim (Bool-cases (ltb now when)) [
    | inl early ↦ rw early f
    | inr due ↦ rw due (record { unseen = seen_lem; due = drop-due j b.recheck_after f.due })
  ]
    where
      seen_lem : is_seen k (record b { recheck_after = drop_entry j b.recheck_after }) ≡ false
      seen_lem =
          is_seen_same k b (record b { recheck_after = drop_entry j b.recheck_after }) refl
          ∙ f.unseen

  pub recheck-IsFresh : (j : Key) (b : Book) → IsFresh b → IsFresh (recheck_due j now b).1
  unfolding recheck_due
  recheck-IsFresh j b f = due_at-IsFresh j (entry j b.recheck_after) b f

  pub recheck-due : (b : Book) → IsFresh b → (recheck_due k now b).0 ≡ true
  unfolding recheck_due
  recheck-due b f = at_entry (entry k b.recheck_after) f.due
    where
      at_entry : (o : Option ℕ) → is_due now o ≡ true → (due_at o k now b).0 ≡ true
      at_entry none h = refl
      at_entry (some when) h = let late : ltb now when ≡ false = ground arith in rw late refl

  is_fresh-IsFresh :
      (repo : String) (o : Option ℕ) (b : Book) → IsFresh b → IsFresh (is_fresh repo now o b).1
  is_fresh-IsFresh repo none b f = f
  is_fresh-IsFresh repo (some n) b f = elim (Bool-cases (is_seen (repo, n) b)) [
    | inl seen ↦ rw seen f
    | inr new ↦ rw new (recheck-IsFresh (repo, n) b f)
  ]

  any_fresh-IsFresh :
      (repo : String) (rows : List PolledIssue) (b : Book)
      → IsFresh b
      → IsFresh (any_fresh repo now rows b).1
  unfolding any_fresh
  any_fresh-IsFresh repo [] b f = f
  any_fresh-IsFresh repo (i ∷ is) b f =
      from (is_fresh repo now i.number b) (is_fresh-IsFresh repo i.number b f)
        (λ c. any_fresh-IsFresh repo is c)
    where
      from :
          (c : Bool × Book)
          → IsFresh c.1
          → ((d : Book) → IsFresh d → IsFresh (any_fresh repo now is d).1)
          → IsFresh (or_fresh c (any_fresh repo now is)).1
      from (true, c) f rest = f
      from (false, c) f rest = rest c f

  pub any_candidate-IsFresh :
      (repo : String) (rows : List PolledIssue) (o : Option (List PolledIssue)) (b : Book)
      → IsFresh b
      → IsFresh (any_candidate repo now rows o b).1
  any_candidate-IsFresh repo rows none b f = f
  any_candidate-IsFresh repo rows (some more) b f = any_fresh-IsFresh repo (rows ++ more) b f

  pub clear_if-IsFresh :
      (clears : Bool) (j : Key) (b : Book) → IsFresh b → IsFresh (clear_if clears j b)
  unfolding clear_blocked
  clear_if-IsFresh true j b f = record {
    unseen = is_seen_same k b (clear_if true j b) refl ∙ f.unseen;
    due = f.due;
  }
  clear_if-IsFresh false j b f = f

  new_unseen :
      (j : Key) (b : Book)
      → is_key k j ≡ false
      → is_seen k b ≡ false
      → is_seen k (set_seen (j ∷ b.seen_issues) b) ≡ false
  unfolding is_seen
  new_unseen j b other h = still_unseen k j b other h

  pub mark_seen-IsFresh :
      (j : Key) (b : Book) → is_key k j ≡ false → IsFresh b → IsFresh (mark_seen j b)
  unfolding mark_seen
  mark_seen-IsFresh j b other f = elim (Bool-cases (is_seen j b)) [
    | inl there ↦ rw there f
    | inr new ↦ rw new (record { unseen = new_unseen j b other f.unseen; due = f.due })
  ]

  -- A search that finds the issue finds something new.
  pub any_fresh-found :
      (rows : List PolledIssue) (b : Book)
      → IsFresh b
      → any (λ i. is_number k.1 i.number) rows ≡ true
      → (any_fresh k.0 now rows b).0 ≡ true
  unfolding any_fresh any
  any_fresh-found [] b f h = cc
  any_fresh-found (i ∷ is) b f h =
      at_number i.number (is_fresh-IsFresh k.0 i.number b f) h (λ c. any_fresh-found is c)
    where
      by_fresh :
          (c : Bool × Book)
          → IsFresh c.1
          → ((d : Book) → IsFresh d → (any_fresh k.0 now is d).0 ≡ true)
          → (or_fresh c (any_fresh k.0 now is)).0 ≡ true
      by_fresh (true, c) f rest = refl
      by_fresh (false, c) f rest = rest c f

      own : (m : ℕ) → m ≡ k.1 → (is_fresh k.0 now (some m) b).0 ≡ true
      own m e =
          subst (λ m. (is_fresh k.0 now (some m) b).0 ≡ true) (sym e)
            (rw (f.unseen) (recheck-due b f))

      hit : (c : Bool × Book) → c.0 ≡ true → (or_fresh c (any_fresh k.0 now is)).0 ≡ true
      hit (true, c) h = refl
      hit (false, c) h = cc

      at_number :
          (o : Option ℕ)
          → IsFresh (is_fresh k.0 now o b).1
          → (if is_number k.1 o then true else any (λ i. is_number k.1 i.number) is) ≡ true
          → ((d : Book)
              → IsFresh d
              → any (λ i. is_number k.1 i.number) is ≡ true
              → (any_fresh k.0 now is d).0 ≡ true)
          → (or_fresh (is_fresh k.0 now o b) (any_fresh k.0 now is)).0 ≡ true
      at_number none f' h rest = refl
      at_number (some m) f' h rest = elim (Bool-cases (m == k.1)) [
        | inl same ↦ hit (is_fresh k.0 now (some m) b) (own m (ground (arith, same)))
        | inr other ↦
            by_fresh (is_fresh k.0 now (some m) b) f' (λ d fd. rest d fd (ground (arith, other, h)))
      ]
