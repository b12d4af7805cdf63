-- ===== src/Orphans/Rows.antt =====
-- core/orphans.py: what each turn of the two loops keeps.
use ctrlrelay.Base.{
  ℕ, ◌≡◌, ◌≢◌, ◌⊎◌, inl, inr, refl, ◌∙◌, Bool, true, false, ◌&&◌, not, String, Option, none, some,
  List, [], ◌∷◌, ◌++◌, All, arith, eq_iff, any, delete, if◌then◌else◌, str_eq, Bool-cases,
}
use ctrlrelay.Base.Members.{All-append, any-append}
use ctrlrelay.Sqlite.{Outcome, Conn, ok, raised}
use ctrlrelay.State.Rows.{Session, Lock, Db}
use ctrlrelay.State.Sessions.{is_session, fail_orphaned_session}
use ctrlrelay.State.Rules.{Both}
use ctrlrelay.Poller.Book.{Key, Book, is_key, is_seen, unmark_seen}
use ctrlrelay.Orphans.World.{
  World, left_alone, saved_pr, same_number, may_hand_back, is_issue_pipeline, open_pr_for,
}
use ctrlrelay.Orphans.Reap.{
  Reaped, SettledRun, settle_run, after_update, reap_row, reap_rows, with_conn, settle_issue,
  settle_no_issue, settle_by, report,
}
use ctrlrelay.Orphans.Kept.{Untouched, fail-Untouched}

-- The report of a run that hands the issue back.
abbrev pub hands_back : Key → SettledRun → Bool
hands_back k e =
    e.handed_back && (elim e.issue_number [ none ↦ false | some n ↦ is_key k (e.repo, n) ])

-- An issue goes back where no pull request was found for it, or the one that its run had saved.
abbrev pub IsJust : World → SettledRun → Type 0
IsJust w e =
    (e.handed_back ≡ false) ⊎ ((e.pr_number ≡ none) ⊎ (saved_pr w e.session_id ≡ e.pr_number))

same_number-eq : (a b : Option ℕ) → same_number a b ≡ true → a ≡ b
same_number-eq none none h = refl
same_number-eq (some a) (some b) h = ground arith
same_number-eq none (some b) h = cc
same_number-eq (some a) none h = cc

may_hand_back-why :
    (w : World) (s : Session) (pr : Option ℕ)
    → (may_hand_back w s pr ≡ false) ⊎ ((pr ≡ none) ⊎ (saved_pr w s.id ≡ pr))
unfolding may_hand_back
may_hand_back-why w s none = inr (inl refl)
may_hand_back-why w s (some n) = elim (Bool-cases (same_number (saved_pr w s.id) (some n))) [
  | inl same ↦ inr (inr (same_number-eq (saved_pr w s.id) (some n) same))
  | inr other ↦ inl (ground (arith, other))
]

any-delete_other :
    {A : Type 0} (q p : A → Bool) (xs : List A)
    → ((x : A) → q x ≡ true → p x ≡ false)
    → any q xs ≡ true
    → any q (delete p xs) ≡ true
unfolding any delete
any-delete_other q p [] apart h = h
any-delete_other q p (x ∷ xs) apart h = ground (arith, apart x, any-delete_other q p xs apart)

-- Only the issue itself is forgotten.
unmark_seen-keeps :
    (j k : Key) (b : Book)
    → is_seen k b ≡ true
    → (is_key k j ≡ true) ⊎ (is_seen k (unmark_seen j b) ≡ true)
unfolding is_seen unmark_seen
unmark_seen-keeps (r, n) k b h = elim (Bool-cases (is_key k (r, n))) [
  | inl same ↦ inl same
  | inr other ↦ inr (
      any-delete_other (is_key k) (is_key (r, n)) b.seen_issues
        (λ (r', n') mine. ground (arith, eq_iff r' k.0, eq_iff r' r, eq_iff r k.0)) h)
]

module _ (w : World) (sid : String) (k : Key) (rs : List Session) (ls : List Lock) where
  pub record Inv (r : Reaped) : Type 0 where
    pub kept : Both (Untouched sid rs ls) r.conn
    pub own : any (λ e. str_eq e.session_id sid) r.settled ≡ false
    pub just : All (IsJust w) r.settled
    pub seen : (is_seen k r.book ≡ true) ⊎ (any (hands_back k) r.settled ≡ true)

  with_conn-Inv :
      (c : Conn Db) (r : Reaped) → Both (Untouched sid rs ls) c → Inv r → Inv (with_conn c r)
  with_conn-Inv c r b i = record { kept = b; own = i.own; just = i.just; seen = i.seen }

  own-append :
      (e : SettledRun) (es : List SettledRun)
      → e.session_id ≢ sid
      → any (λ e. str_eq e.session_id sid) es ≡ false
      → any (λ e. str_eq e.session_id sid) (es ++ e ∷ []) ≡ false
  unfolding any
  own-append e es ne h =
      any-append (λ e. str_eq e.session_id sid) es (e ∷ [])
      ∙ ground (arith, h, eq_iff e.session_id sid)

  seen-append :
      (e : SettledRun) (es : List SettledRun)
      → any (hands_back k) es ≡ true
      → any (hands_back k) (es ++ e ∷ []) ≡ true
  seen-append e es h = any-append (hands_back k) es (e ∷ []) ∙ ground (arith, h)

  back-append :
      (e : SettledRun) (es : List SettledRun)
      → hands_back k e ≡ true
      → any (hands_back k) (es ++ e ∷ []) ≡ true
  unfolding any
  back-append e es h = any-append (hands_back k) es (e ∷ []) ∙ ground (arith, h)

  settle_no_issue-Inv :
      (s : Session) (branch : Option String) (r : Reaped)
      → s.id ≢ sid
      → Inv r
      → Inv (settle_no_issue s branch r)
  settle_no_issue-Inv s branch r ne i = record {
    kept = i.kept;
    own = own-append _ r.settled ne i.own;
    just = All-append (IsJust w) r.settled _ i.just (inl refl);
    seen = elim i.seen [ inl h ↦ inl h | inr h ↦ inr (seen-append _ r.settled h) ];
  }

  settle_issue-Inv :
      (s : Session) (branch : Option String) (issue : ℕ) (r : Reaped)
      → s.id ≢ sid
      → s.issue_number ≡ some issue
      → Inv r
      → Inv (settle_issue w s branch issue r)
  settle_issue-Inv s branch issue r ne e i = record {
    kept = i.kept;
    own = own-append _ r.settled ne i.own;
    just =
        All-append (IsJust w) r.settled _ i.just
          (may_hand_back-why w s (open_pr_for w s.repo branch));
    seen = seen_after (open_pr_for w s.repo branch) (may_hand_back w s _) i.seen;
  }
    where
      seen_after :
          (pr : Option ℕ) (back : Bool)
          → (is_seen k r.book ≡ true) ⊎ (any (hands_back k) r.settled ≡ true)
          → (is_seen k (if back then unmark_seen (s.repo, issue) r.book else r.book) ≡ true)
            ⊎ (any (hands_back k) (r.settled ++ report s branch pr back ∷ []) ≡ true)
      seen_after pr back (inr h) = inr (seen-append _ r.settled h)
      seen_after pr false (inl h) = inl h
      seen_after pr true (inl h) = elim (unmark_seen-keeps (s.repo, issue) k r.book h) [
        | inl mine ↦ inr (back-append _ r.settled (ground (arith, mine, e)))
        | inr still ↦ inl still
      ]

  settle_by-Inv :
      (s : Session) (branch : Option String) (o : Option ℕ) (r : Reaped)
      → s.id ≢ sid
      → s.issue_number ≡ o
      → Inv r
      → Inv (settle_by w s branch o r)
  settle_by-Inv s branch none r ne e i = settle_no_issue-Inv s branch r ne i
  settle_by-Inv s branch (some issue) r ne e i = elim (Bool-cases (is_issue_pipeline s.pipeline)) [
    | inl ours ↦ rw ours (settle_issue-Inv s branch issue r ne e i)
    | inr other ↦ rw other (settle_no_issue-Inv s branch r ne i)
  ]

  settle_run-Inv : (s : Session) (r : Reaped) → s.id ≢ sid → Inv r → Inv (settle_run w s r)
  unfolding settle_run
  settle_run-Inv s r ne i = settle_by-Inv s _ s.issue_number r ne refl i

  after_update-Inv :
      (s : Session) (o : Outcome Bool × Conn Db) (r : Reaped)
      → s.id ≢ sid
      → Both (Untouched sid rs ls) o.1
      → Inv r
      → Inv (after_update w s o r)
  after_update-Inv s (ok true, c) r ne b i =
      settle_run-Inv s (with_conn c r) ne (with_conn-Inv c r b i)
  after_update-Inv s (ok false, c) r ne b i = with_conn-Inv c r b i
  after_update-Inv s (raised e, c) r ne b i = with_conn-Inv c r b i

  reap_row-Inv :
      (now : ℕ) (s : Session) (r : Reaped)
      → (is_session sid s && not (left_alone w s)) ≡ false
      → Inv r
      → Inv (reap_row w now s r)
  unfolding reap_row
  reap_row-Inv now s r spared i = elim (Bool-cases (left_alone w s)) [
    | inl alone ↦ rw alone i
    | inr dead ↦ rw dead (settled (ground (arith, dead, eq_iff s.id sid)))
  ]
    where
      settled :
          s.id ≢ sid
          → Inv (after_update w s (fail_orphaned_session now s.id (w.summary s) r.conn) r)
      settled ne =
          after_update-Inv s _ r ne
            (fail-Untouched sid rs ls now s.id (w.summary s) ne r.conn i.kept) i

  pub reap_rows-Inv :
      (now : ℕ) (ss : List Session) (r : Reaped)
      → any (λ s. is_session sid s && not (left_alone w s)) ss ≡ false
      → Inv r
      → Inv (reap_rows w now ss r)
  unfolding reap_rows any
  reap_rows-Inv now [] r h i = i
  reap_rows-Inv now (s ∷ ss) r h i =
      reap_rows-Inv now ss (reap_row w now s r) (ground arith)
        (reap_row-Inv now s r (ground arith) i)
