-- ===== src/Poller/Kept.antt =====
-- core/poller.py: the steps of a poll keep what was seen.
use ctrlrelay.Base.{
  ℕ, ◌≡◌, refl, ◌∙◌, Bool, true, false, String, Option, none, some, List, [], ◌∷◌, ◌++◌, any,
  eq_refl, Bool-cases, inl, inr, arith, eq_iff,
}
use ctrlrelay.Poller.Issue.{PolledIssue}
use ctrlrelay.Poller.Book.{
  Key, Book, is_key, is_seen, mark_seen, recheck_due, due_at, entry, clear_blocked,
}
use ctrlrelay.Poller.Searches.{any_candidate, any_fresh, or_fresh, is_fresh}
use ctrlrelay.Poller.Poll.{clear_if}

-- What is seen stays so.
abbrev pub Keeps : Book → Book → Type 0
Keeps b c = (k : Key) → is_seen k b ≡ true → is_seen k c ≡ true

pub is_seen_same :
    (k : Key) (b c : Book) → c.seen_issues ≡ b.seen_issues → is_seen k c ≡ is_seen k b
unfolding is_seen
is_seen_same k b c e = rw e refl

pub same-Keeps : (b c : Book) → c.seen_issues ≡ b.seen_issues → Keeps b c
unfolding is_seen
same-Keeps b c e k h = rw e h

pub mark_seen-Keeps : (j : Key) (b : Book) → Keeps b (mark_seen j b)
unfolding mark_seen is_seen any
mark_seen-Keeps j b k h = ground arith

pub is_seen-mark_seen : (k : Key) (b : Book) → is_seen k (mark_seen k b) ≡ true
unfolding mark_seen is_seen any
is_seen-mark_seen k b = elim (Bool-cases (any (is_key k) b.seen_issues)) [
  | inl there ↦ rw there there
  | inr fresh ↦ rw (fresh, eq_refl k.0) (ground arith)
]

pub due_at-seen :
    (o : Option ℕ) (k : Key) (now : ℕ) (b : Book) → (due_at o k now b).1.seen_issues ≡ b.seen_issues
due_at-seen none k now b = refl
due_at-seen (some when) k now b = ground arith

is_fresh-seen :
    (repo : String) (now : ℕ) (o : Option ℕ) (b : Book)
    → (is_fresh repo now o b).1.seen_issues ≡ b.seen_issues
unfolding recheck_due
is_fresh-seen repo now none b = refl
is_fresh-seen repo now (some n) b = elim (Bool-cases (is_seen (repo, n) b)) [
  | inl there ↦ rw there refl
  | inr fresh ↦ rw fresh (due_at-seen (entry (repo, n) b.recheck_after) (repo, n) now b)
]

any_fresh-seen :
    (repo : String) (now : ℕ) (rows : List PolledIssue) (b : Book)
    → (any_fresh repo now rows b).1.seen_issues ≡ b.seen_issues
unfolding any_fresh
any_fresh-seen repo now [] b = refl
any_fresh-seen repo now (i ∷ is) b =
    from (is_fresh repo now i.number b) (is_fresh-seen repo now i.number b)
      (λ c. any_fresh-seen repo now is c)
  where
    from :
        (c : Bool × Book)
        → c.1.seen_issues ≡ b.seen_issues
        → ((d : Book) → (any_fresh repo now is d).1.seen_issues ≡ d.seen_issues)
        → (or_fresh c (any_fresh repo now is)).1.seen_issues ≡ b.seen_issues
    from (true, c) e rest = e
    from (false, c) e rest = rest c ∙ e

pub any_candidate-seen :
    (repo : String) (now : ℕ) (rows : List PolledIssue) (o : Option (List PolledIssue)) (b : Book)
    → (any_candidate repo now rows o b).1.seen_issues ≡ b.seen_issues
any_candidate-seen repo now rows none b = refl
any_candidate-seen repo now rows (some more) b = any_fresh-seen repo now (rows ++ more) b

pub clear_if-Keeps : (clears : Bool) (k : Key) (b : Book) → Keeps b (clear_if clears k b)
unfolding clear_blocked is_seen
clear_if-Keeps true k b j h = h
clear_if-Keeps false k b j h = h

-- Two keys that the test takes for one.
pub is_key-eq : (k : Key) (repo : String) (n : ℕ) → is_key k (repo, n) ≡ true → (repo, n) ≡ k
is_key-eq (r, m) repo n h =
    let a : repo ≡ r = ground (arith, eq_iff repo r) in let b : n ≡ m = ground arith in cc
