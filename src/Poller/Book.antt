-- ===== src/Poller/Book.antt =====
-- core/poller.py: what the poller remembers of the issues, and the methods that change it.
use ctrlrelay.Base.{
  ℕ, ◌+◌, Bool, true, false, not, ◌&&◌, String, Option, none, some, List, [], ◌∷◌, str_eq, ltb, leb,
  ◌==◌, any, find, delete, is_some, if◌then◌else◌,
}

-- A repository and the number of an issue in it.
abbrev pub Key : Type 0
Key = String × ℕ

abbrev pub is_key : Key → Key → Bool
is_key k j = str_eq j.0 k.0 && (j.1 == k.1)

-- Why an issue is held back: its open blockers as they were last read, and the lookups that failed since.
pub record BlockerEntry : Type 0 where
  pub open_blockers : Option (List String)
  pub failures : ℕ

-- A dict of dicts, or of sets, by repository and number is a list with the two as its key.
pub record Book : Type 0 where
  pub seen_issues : List Key
  pub recheck_after : List (Key × ℕ)
  pub blocked : List (Key × BlockerEntry)
  pub pre_dispatch_failures : List (Key × ℕ)
  pub publish_failures : List (Key × ℕ)

abbrev pub set_seen : List Key → Book → Book
set_seen seen b = record {
  seen_issues = seen;
  recheck_after = b.recheck_after;
  blocked = b.blocked;
  pre_dispatch_failures = b.pre_dispatch_failures;
  publish_failures = b.publish_failures;
}

abbrev pub set_recheck : List (Key × ℕ) → Book → Book
set_recheck recheck b = record {
  seen_issues = b.seen_issues;
  recheck_after = recheck;
  blocked = b.blocked;
  pre_dispatch_failures = b.pre_dispatch_failures;
  publish_failures = b.publish_failures;
}

abbrev pub set_blocked : List (Key × BlockerEntry) → Book → Book
set_blocked blocked b = record {
  seen_issues = b.seen_issues;
  recheck_after = b.recheck_after;
  blocked = blocked;
  pre_dispatch_failures = b.pre_dispatch_failures;
  publish_failures = b.publish_failures;
}

abbrev pub set_publish : List (Key × ℕ) → Book → Book
set_publish counts b = record {
  seen_issues = b.seen_issues;
  recheck_after = b.recheck_after;
  blocked = b.blocked;
  pre_dispatch_failures = b.pre_dispatch_failures;
  publish_failures = counts;
}

abbrev pub set_pre_dispatch : List (Key × ℕ) → Book → Book
set_pre_dispatch counts b = record {
  seen_issues = b.seen_issues;
  recheck_after = b.recheck_after;
  blocked = b.blocked;
  pre_dispatch_failures = counts;
  publish_failures = b.publish_failures;
}

-- Entries by their key.
abbrev pub value_of : {A : Type 0} → Option (Key × A) → Option A
value_of none = none
value_of (some e) = some e.1

unfoldable pub entry : {A : Type 0} → Key → List (Key × A) → Option A
entry k es = value_of (find (λ e. is_key k e.0) es)

unfoldable pub drop_entry : {A : Type 0} → Key → List (Key × A) → List (Key × A)
drop_entry k es = delete (λ e. is_key k e.0) es

abbrev pub put_entry : {A : Type 0} → Key → A → List (Key × A) → List (Key × A)
put_entry k a es = (k, a) ∷ drop_entry k es

unfoldable pub is_seen : Key → Book → Bool
is_seen k b = any (is_key k) b.seen_issues

-- `seen_issues[repo].add(number)`.
unfoldable pub mark_seen : Key → Book → Book
unfolding is_seen
mark_seen k b = if is_seen k b then b else set_seen (k ∷ b.seen_issues) b

unfoldable pub unmark_seen : Key → Book → Book
unmark_seen k b = set_seen (delete (is_key k) b.seen_issues) b

unfoldable pub recheck_at : Key → ℕ → Book → Book
unfolding unmark_seen
recheck_at k when b = unmark_seen k (set_recheck (put_entry k when b.recheck_after) b)

abbrev pub due_at : Option ℕ → Key → ℕ → Book → Bool × Book
due_at none k now b = (true, b)
due_at (some when) k now b =
    if ltb now when then (false, b) else (true, set_recheck (drop_entry k b.recheck_after) b)

-- `_recheck_due`: a time that has passed is forgotten.
unfoldable pub recheck_due : Key → ℕ → Book → Bool × Book
unfolding entry
recheck_due k now b = due_at (entry k b.recheck_after) k now b

abbrev pub blockers_unreadable_after : ℕ
blockers_unreadable_after = 3

-- `_hold`.
abbrev pub hold_entry : Key → Book → Option BlockerEntry
hold_entry k b = entry k b.blocked

unfoldable pub same_list : List String → List String → Bool
same_list [] [] = true
same_list (x ∷ xs) (y ∷ ys) = str_eq x y && same_list xs ys
same_list xs ys = false

abbrev pub are_open : Option (List String) → List String → Bool
are_open none blockers = false
are_open (some bs) blockers = same_list bs blockers

abbrev pub is_news : Option BlockerEntry → List String → Bool
is_news none blockers = true
is_news (some before) blockers =
    leb blockers_unreadable_after before.failures && not (are_open before.open_blockers blockers)

-- The Boolean is whether the chat is told.
unfoldable pub note_blocked : Key → List String → Book → Bool × Book
unfolding entry unmark_seen
note_blocked k blockers b = (
  is_news (hold_entry k b) blockers,
  set_blocked (put_entry k record { open_blockers = some blockers; failures = 0 } b.blocked)
      (unmark_seen k b),
)

abbrev pub failures_of : Option BlockerEntry → ℕ
failures_of none = 0
failures_of (some before) = before.failures

abbrev pub open_of : Option BlockerEntry → Option (List String)
open_of none = none
open_of (some before) = before.open_blockers

unfoldable pub note_blockers_unreadable : Key → Book → Bool × Book
unfolding entry unmark_seen
note_blockers_unreadable k b =
    let before = hold_entry k b in
    let failures = failures_of before + 1 in
    (
      failures == blockers_unreadable_after,
      set_blocked
          (put_entry k record { open_blockers = open_of before; failures = failures } b.blocked)
          (unmark_seen k b),
    )

unfoldable pub is_held : Key → Book → Bool
unfolding entry
is_held k b = is_some (hold_entry k b)

unfoldable pub clear_blocked : Key → Book → Book
clear_blocked k b = set_blocked (drop_entry k b.blocked) b

abbrev pub count_of : Option ℕ → ℕ
count_of none = 0
count_of (some n) = n

unfoldable pub count_publish_failure : Key → Bool → Book → ℕ × Book
unfolding entry unmark_seen
count_publish_failure k unmark b =
    let n = count_of (entry k b.publish_failures) + 1 in
    let counted = set_publish (put_entry k n b.publish_failures) b in
    (n, if unmark then unmark_seen k counted else counted)

unfoldable pub clear_publish_failures : Key → Book → Book
clear_publish_failures k b = set_publish (drop_entry k b.publish_failures) b

unfoldable pub record_pre_dispatch_failure : Key → Book → ℕ × Book
unfolding entry
record_pre_dispatch_failure k b =
    let n = count_of (entry k b.pre_dispatch_failures) + 1 in
    (n, set_pre_dispatch (put_entry k n b.pre_dispatch_failures) b)

unfoldable pub clear_pre_dispatch_failures : Key → Book → Book
clear_pre_dispatch_failures k b = set_pre_dispatch (drop_entry k b.pre_dispatch_failures) b
