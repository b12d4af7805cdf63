-- ===== src/Poller/Order.antt =====
-- core/poller.py: the order in which a batch runs.
use Prim.Native.String.{compare as compare_text}
use Prim.Native.Nat.{Ordering}
use ctrlrelay.Base.{
  ℕ, suc, Bool, true, false, ◌&&◌, ◌||◌, String, Option, none, some, List, [], ◌∷◌, ◌==◌,
  if◌then◌else◌, is_none, or_else, ltb, str_eq, All, not, Bool-cases, inl, inr, count, arith, ◌≡◌,
  refl,
}
use ctrlrelay.Poller.Events.{Settings, contains, lowered}
use ctrlrelay.Poller.Issue.{PolledIssue}

-- An item of a batch.
pub record Entry : Type 0 where
  pub repo : String
  pub number : ℕ
  pub issue : PolledIssue

-- `ranks`, the place at which each label of the list first stands, and how many it has.
unfoldable pub rank_in : ℕ → String → List String → Option ℕ
rank_in i name [] = none
rank_in i name (l ∷ ls) =
    let rest = rank_in (suc i) name ls in if str_eq l name then some i else rest

unfoldable pub count_labels : List String → List String → ℕ
count_labels before [] = 0
count_labels before (l ∷ ls) =
    let rest = count_labels (l ∷ before) ls in if contains l before then rest else suc rest

abbrev pub better : Option ℕ → ℕ → ℕ
better none best = best
better (some rank) best = if ltb rank best then rank else best

unfoldable pub best_rank : Settings → List String → ℕ → List String → ℕ
best_rank s ranked best [] = best
best_rank s ranked best (name ∷ labels) =
    best_rank s ranked (better (rank_in 0 (s.lower name) ranked) best) labels

unfoldable pub priority_rank : Settings → List String → PolledIssue → ℕ
unfolding best_rank
priority_rank s priority_labels issue =
    let ranked = lowered s priority_labels in
    best_rank s ranked (count_labels [] ranked) issue.labels

-- The comparison of two keys, part by part: `below` and `same` are those of a part.
abbrev pub then_by : Bool → Bool → Bool → Bool
then_by below same rest = below || (same && rest)

abbrev pub same_bool : Bool → Bool → Bool
same_bool true b = b
same_bool false true = false
same_bool false false = true

abbrev pub text_below : String → String → Bool
text_below a b = elim (compare_text a b) [ Ordering.lt ↦ true | _ ↦ false ]

-- `key(a) <= key(b)`.
unfoldable pub is_before : Settings → List String → Entry → Entry → Bool
is_before s priority_labels a b =
    let ra = priority_rank s priority_labels a.issue in
    let rb = priority_rank s priority_labels b.issue in
    let wa = a.issue.created_at in
    let wb = b.issue.created_at in
    then_by (ltb ra rb) (ra == rb) (
      then_by (is_none wb && not (is_none wa)) (same_bool (is_none wa) (is_none wb)) (
        then_by (ltb (or_else wa 0) (or_else wb 0)) (or_else wa 0 == or_else wb 0) (
          then_by (ltb a.number b.number) (a.number == b.number)
            (then_by (text_below a.repo b.repo) (str_eq a.repo b.repo) true))))

-- `sorted`, which is stable.
unfoldable pub insert_entry : (Entry → Entry → Bool) → Entry → List Entry → List Entry
insert_entry before e [] = e ∷ []
insert_entry before e (f ∷ fs) =
    let rest = insert_entry before e fs in if before e f then e ∷ f ∷ fs else f ∷ rest

unfoldable pub sort_entries : (Entry → Entry → Bool) → List Entry → List Entry
unfolding insert_entry
sort_entries before [] = []
sort_entries before (e ∷ es) = insert_entry before e (sort_entries before es)

unfoldable pub order_batch : Settings → List String → List Entry → List Entry
unfolding sort_entries is_before
order_batch s priority_labels = sort_entries (is_before s priority_labels)

All-insert_entry :
    (P : Entry → Type 0) (before : Entry → Entry → Bool) (e : Entry) (es : List Entry)
    → P e
    → All P es
    → All P (insert_entry before e es)
unfolding insert_entry
All-insert_entry P before e [] p ps = (p, tt)
All-insert_entry P before e (f ∷ fs) p (q, qs) = elim (Bool-cases (before e f)) [
  | inl le ↦ rw le (p, (q, qs))
  | inr gt ↦ rw gt (q, All-insert_entry P before e fs p qs)
]

-- What holds of every item of a batch holds of every one in its order.
pub All-order_batch :
    (P : Entry → Type 0) (s : Settings) (priority_labels : List String) (es : List Entry)
    → All P es
    → All P (order_batch s priority_labels es)
unfolding order_batch sort_entries
All-order_batch P s priority_labels [] ps = tt
All-order_batch P s priority_labels (e ∷ es) (p, ps) =
    All-insert_entry P (is_before s priority_labels) e (order_batch s priority_labels es) p
      (All-order_batch P s priority_labels es ps)

count-insert_entry :
    (p : Entry → Bool) (before : Entry → Entry → Bool) (e : Entry) (es : List Entry)
    → count p (insert_entry before e es) ≡ count p (e ∷ es)
unfolding insert_entry count
count-insert_entry p before e [] = refl
count-insert_entry p before e (f ∷ fs) = ground (arith, count-insert_entry p before e fs)

-- It holds each as often.
pub count-order_batch :
    (p : Entry → Bool) (s : Settings) (priority_labels : List String) (es : List Entry)
    → count p (order_batch s priority_labels es) ≡ count p es
unfolding order_batch sort_entries count
count-order_batch p s priority_labels [] = refl
count-order_batch p s priority_labels (e ∷ es) = ground (
  arith,
  count-insert_entry p (is_before s priority_labels) e (order_batch s priority_labels es),
  count-order_batch p s priority_labels es,
)
