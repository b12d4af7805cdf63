-- ===== src/Poller/Awaits.antt =====
-- core/poller.py: a row of the searches, for an issue that waits to be handed out.
use ctrlrelay.Base.{
  ℕ, ◌≡◌, ◌⊎◌, inl, inr, sym, subst, ◌∙◌, Bool, true, false, String, Option, none, some, [], ◌∷◌,
  any, arith, Bool-cases,
}
use ctrlrelay.Base.Members.{any-append}
use ctrlrelay.Poller.Events.{Settings}
use ctrlrelay.Poller.Issue.{PolledIssue, Act, leave, mark, hand_out, judge_new}
use ctrlrelay.Poller.Book.{Key, Book, is_key, is_seen, mark_seen, recheck_due, is_held}
use ctrlrelay.Poller.Searches.{Intake, in_query}
use ctrlrelay.Poller.Order.{Entry}
use ctrlrelay.Poller.Poll.{Answers, PollState, with_book, act_on, judge_if_due, consider_number}
use ctrlrelay.Poller.Trust.{key_of}
use ctrlrelay.Poller.Fresh.{
  IsFresh, recheck-IsFresh, recheck-due, clear_if-IsFresh, mark_seen-IsFresh,
}
use ctrlrelay.Poller.Kept.{is_key-eq}

module _ (s : Settings) (intake : Intake) (answers : Answers) (k : Key) where
  abbrev pub is_for : Entry → Bool
  is_for e = is_key k (key_of e)

  -- What the poll makes of a row, as GitHub answers about it, whether it is held or not.
  abbrev verdict : String → ℕ → PolledIssue → Bool → Act
  verdict repo m i held =
      (judge_new s repo i (in_query intake repo m) held (answers.labellings repo m)
        (answers.assignments repo m)).act

  -- A row that stands for another issue, or that is to be handed out.
  abbrev pub Picked : String → PolledIssue → Option ℕ → Type 0
  Picked repo i none = Unit
  Picked repo i (some m) =
      (is_key k (repo, m) ≡ false)
      ⊎ ((verdict repo m i true ≡ hand_out) × (verdict repo m i false ≡ hand_out))

  -- The issue is still fresh, or it is in the batch.
  abbrev pub Awaits : PollState → Type 0
  Awaits r = IsFresh k answers.now r.book ⊎ (any is_for r.batch ≡ true)

  act_on-grows :
      (a : Act) (clears : Bool) (e : Entry) (r : PollState)
      → any is_for r.batch ≡ true
      → any is_for (act_on a clears e r).batch ≡ true
  act_on-grows leave clears e r h = h
  act_on-grows mark clears e r h = h
  act_on-grows hand_out clears e r h = any-append is_for r.batch (e ∷ []) ∙ ground (arith, h)

  act_on-IsFresh :
      (a : Act) (clears : Bool) (e : Entry) (r : PollState)
      → is_for e ≡ false
      → IsFresh k answers.now r.book
      → IsFresh k answers.now (act_on a clears e r).book
  act_on-IsFresh leave clears e r other f =
      clear_if-IsFresh k answers.now clears (key_of e) r.book f
  act_on-IsFresh mark clears e r other f =
      clear_if-IsFresh k answers.now clears (key_of e) (mark_seen (key_of e) r.book)
        (mark_seen-IsFresh k answers.now (key_of e) r.book other f)
  act_on-IsFresh hand_out clears e r other f =
      clear_if-IsFresh k answers.now clears (key_of e) (mark_seen (key_of e) r.book)
        (mark_seen-IsFresh k answers.now (key_of e) r.book other f)

  acted :
      (a : Act) (clears : Bool) (e : Entry) (r : PollState)
      → a ≡ hand_out
      → is_for e ≡ true
      → any is_for (act_on a clears e r).batch ≡ true
  unfolding any
  acted leave clears e r h own = cc
  acted mark clears e r h own = cc
  acted hand_out clears e r h own = any-append is_for r.batch (e ∷ []) ∙ ground (arith, own)

  grows-due :
      (c : Bool × Book) (e : Entry) (r : PollState)
      → any is_for r.batch ≡ true
      → any is_for (judge_if_due s intake answers c e r).batch ≡ true
  grows-due (false, b) e r h = h
  grows-due (true, b) e r h = act_on-grows _ _ e (with_book b r) h

  other-due :
      (c : Bool × Book) (e : Entry) (r : PollState)
      → is_for e ≡ false
      → IsFresh k answers.now c.1
      → IsFresh k answers.now (judge_if_due s intake answers c e r).book
  other-due (false, b) e r other f = f
  other-due (true, b) e r other f = act_on-IsFresh _ _ e (with_book b r) other f

  own-due :
      (c : Bool × Book) (e : Entry) (r : PollState)
      → c.0 ≡ true
      → is_for e ≡ true
      → (verdict e.repo e.number e.issue true ≡ hand_out)
        × (verdict e.repo e.number e.issue false ≡ hand_out)
      → any is_for (judge_if_due s intake answers c e r).batch ≡ true
  own-due (false, b) e r due own picked = cc
  own-due (true, b) e r due own (held, free) =
      acted _ _ e (with_book b r) (by_hold (is_held (e.repo, e.number) b)) own
    where
      by_hold : (h : Bool) → verdict e.repo e.number e.issue h ≡ hand_out
      by_hold true = held
      by_hold false = free

  -- A row of the issue puts it into the batch.
  own-row :
      (repo : String) (i : PolledIssue) (m : ℕ) (r : PollState)
      → is_key k (repo, m) ≡ true
      → Picked repo i (some m)
      → Awaits r
      → any is_for (consider_number s intake answers (some m) repo i r).batch ≡ true
        ⊎ (any is_for r.batch ≡ true)
  own-row repo i m r own picked (inr there) = inr there
  own-row repo i m r own (inl other) (inl f) = let no : true ≡ false = sym own ∙ other in cc
  own-row repo i m r own (inr picked) (inl f) =
      let same : (repo, m) ≡ k = is_key-eq k repo m own in
      let new : is_seen (repo, m) r.book ≡ false =
        subst (λ j. is_seen j r.book ≡ false) (sym same) f.unseen in
      let due : (recheck_due (repo, m) answers.now r.book).0 ≡ true =
        subst (λ j. (recheck_due j answers.now r.book).0 ≡ true) (sym same)
          (recheck-due k answers.now r.book f) in
      inl (rw new (own-due _ record { repo = repo; number = m; issue = i } r due own picked))

  pub number-grows :
      (o : Option ℕ) (repo : String) (i : PolledIssue) (r : PollState)
      → any is_for r.batch ≡ true
      → any is_for (consider_number s intake answers o repo i r).batch ≡ true
  number-grows none repo i r h = h
  number-grows (some m) repo i r h = elim (Bool-cases (is_seen (repo, m) r.book)) [
    | inl seen ↦ rw seen h
    | inr new ↦ rw new (grows-due _ record { repo = repo; number = m; issue = i } r h)
  ]

  pub number-hit :
      (repo : String) (i : PolledIssue) (m : ℕ) (r : PollState)
      → is_key k (repo, m) ≡ true
      → Picked repo i (some m)
      → Awaits r
      → any is_for (consider_number s intake answers (some m) repo i r).batch ≡ true
  number-hit repo i m r own picked a = elim (own-row repo i m r own picked a) [
    | inl hit ↦ hit
    | inr there ↦ number-grows (some m) repo i r there
  ]

  pub number-Awaits :
      (o : Option ℕ) (repo : String) (i : PolledIssue) (r : PollState)
      → Picked repo i o
      → Awaits r
      → Awaits (consider_number s intake answers o repo i r)
  number-Awaits o repo i r picked (inr h) = inr (number-grows o repo i r h)
  number-Awaits none repo i r picked (inl f) = inl f
  number-Awaits (some m) repo i r picked (inl f) = elim (Bool-cases (is_key k (repo, m))) [
    | inl own ↦ inr (number-hit repo i m r own picked (inl f))
    | inr other ↦ elim (Bool-cases (is_seen (repo, m) r.book)) [
      | inl seen ↦ rw seen (inl f)
      | inr new ↦ rw new (
          inl (
            other-due _ record { repo = repo; number = m; issue = i } r other
              (recheck-IsFresh k answers.now (repo, m) r.book f)))
    ]
  ]
