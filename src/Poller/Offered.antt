-- ===== src/Poller/Offered.antt =====
-- core/poller.py and core/blockers.py: an issue that is not started is offered again.
use mathlib.Core.List.{Memᴰ}
use ctrlrelay.Base.{
  ap, sym, subst, ◌∙◌, ◌≢◌, ◌⊎◌, All, any, ℕ, ◌≡◌, inl, inr, refl, Bool, true, false, String,
  Option, none, some, List, [], ◌∷◌, eq_refl, find, delete, Bool-cases, arith,
}
use ctrlrelay.Base.Changes.{any-delete_self}
use ctrlrelay.Poller.Events.{Settings}
use ctrlrelay.Poller.Issue.{PolledIssue}
use ctrlrelay.Poller.Book.{
  Key, Book, BlockerEntry, is_key, is_seen, unmark_seen, clear_blocked, note_blocked,
  note_blockers_unreadable, is_held, entry, drop_entry,
}
use ctrlrelay.Poller.Searches.{Intake, issues_in}
use ctrlrelay.Poller.Poll.{Answers, poll}
use ctrlrelay.Poller.Kept.{is_seen_same}
use ctrlrelay.Poller.Fresh.{is_due}
use ctrlrelay.Poller.Candidates.{numbered}
use ctrlrelay.Poller.Awaits.{is_for}
use ctrlrelay.Poller.Next.{IsPicked, poll-offers}
use ctrlrelay.Poller.Startable.{IsStartable, may_start_iff, still_open-none, still_open-some}
use ctrlrelay.Poller.Dispatch.{
  Blocker, Live, live_is, unknown, with_live, may_start, recheck_before_dispatch, Blockers,
  blockers_are, blockers_unreadable, BlockerHold, still_open, hold_on, hold_if_blocked,
}

is_seen-unmark_seen : (k : Key) (b : Book) → is_seen k (unmark_seen k b) ≡ false
unfolding is_seen unmark_seen
is_seen-unmark_seen k b = any-delete_self (is_key k) b.seen_issues

unseen_by :
    (k : Key) (b c : Book) → c.seen_issues ≡ (unmark_seen k b).seen_issues → is_seen k c ≡ false
unseen_by k b c same = is_seen_same k (unmark_seen k b) c same ∙ is_seen-unmark_seen k b

is_key_self : (k : Key) → is_key k k ≡ true
is_key_self (r, n) = rw (eq_refl r) (ground arith)

find-delete_self : {A : Type 0} (p : A → Bool) (xs : List A) → find p (delete p xs) ≡ none
unfolding find delete
find-delete_self p [] = refl
find-delete_self p (x ∷ xs) = ground (arith, find-delete_self p xs)

-- The next poll: what its searches found, what GitHub answers, and the repositories that it goes over.
pub record NextPoll : Type 0 where
  pub intake : Intake
  pub answers : Answers
  pub priority_labels : List String
  pub repos : List String

module _ (s : Settings) (repo : String) (n : ℕ) (next : NextPoll) where
  -- It finds the issue, in a repository that is not archived, and by its labels and assignments, as
  -- GitHub answers then, the issue is to be handed out.
  pub record FindsIt : Type 0 where
    pub visits : Memᴰ repo next.repos
    pub live : next.answers.archived repo ≡ false
    pub there : any (numbered n) (issues_in s next.intake repo) ≡ true
    pub picked :
        All (IsPicked s next.intake next.answers (repo, n) repo) (issues_in s next.intake repo)

  -- Not seen, and in the batch of that poll.
  abbrev pub IsOffered : Book → Type 0
  IsOffered c =
      (is_seen (repo, n) c ≡ false)
      × (any (is_for s next.intake next.answers (repo, n))
            (poll s next.intake next.answers next.priority_labels next.repos c).batch
          ≡ true)

  -- What the two checks may come to, with the book that each leaves.
  abbrev pub Rechecked : Live → PolledIssue → Book → Option PolledIssue × Book → Type 0
  Rechecked live issue b (none, c) =
      IsOffered c
      × ((live ≡ unknown)
          ⊎ ((state : String) × (labels : List String) × (assignees : List String) × (live
                ≡ live_is state labels assignees)
              × ¬ IsStartable s repo state (with_live issue labels assignees)))
  Rechecked live issue b (some fresh, c) =
      (c ≡ b)
      × ((state : String) × (labels : List String) × (assignees : List String) × (live
            ≡ live_is state labels assignees)
          × (fresh ≡ with_live issue labels assignees)
          × IsStartable s repo state fresh)

  abbrev pub Unblocked : Blockers → Option BlockerHold × Book → Type 0
  Unblocked blockers (none, c) =
      (is_held (repo, n) c ≡ false)
      × ((bs : List Blocker) × (blockers ≡ blockers_are bs) × All (λ b. b.state ≢ "open") bs)
  Unblocked blockers (some hold, c) =
      IsOffered c
      × (is_held (repo, n) c ≡ true)
      × ((blockers ≡ blockers_unreadable)
          ⊎ ((bs : List Blocker) × (b : Blocker) × (blockers ≡ blockers_are bs)
              × Memᴰ b bs
              × (b.state ≡ "open")))

  module _ (finds : FindsIt) where
    offered :
        (b c : Book)
        → is_due next.answers.now (entry (repo, n) b.recheck_after) ≡ true
        → c.recheck_after ≡ b.recheck_after
        → is_seen (repo, n) c ≡ false
        → IsOffered c
    offered b c due same unseen = (
      unseen,
      poll-offers s next.intake next.answers (repo, n) next.priority_labels next.repos c
          record {
            unseen = unseen;
            due = ap (λ es. is_due next.answers.now (entry (repo, n) es)) same ∙ due;
          }
          finds.visits finds.live finds.there finds.picked,
    )

    recheck-Rechecked :
        (live : Live) (issue : PolledIssue) (b : Book)
        → is_due next.answers.now (entry (repo, n) b.recheck_after) ≡ true
        → Rechecked live issue b (recheck_before_dispatch s repo live n issue b)
    unfolding recheck_before_dispatch clear_blocked unmark_seen
    recheck-Rechecked unknown issue b due =
        (offered b _ due refl (unseen_by (repo, n) b (unmark_seen (repo, n) b) refl), inl refl)
    recheck-Rechecked (live_is state labels assignees) issue b due =
        elim (Bool-cases (may_start s repo state (with_live issue labels assignees))) [
          | inl may ↦
              rw may
                (refl, (state, labels, assignees, refl, refl, (may_start_iff s repo state _).0 may))
          | inr gone ↦ rw gone (
            offered b _ due refl
                (unseen_by (repo, n) b (clear_blocked (repo, n) (unmark_seen (repo, n) b)) refl),
            inr (
              state,
              labels,
              assignees,
              refl,
              λ startable.
                  let no : true ≡ false = sym ((may_start_iff s repo state _).1 startable) ∙ gone in
                  cc,
            ),
          )
        ]

    hold-Unblocked :
        (blockers : Blockers) (b : Book)
        → is_due next.answers.now (entry (repo, n) b.recheck_after) ≡ true
        → Unblocked blockers (hold_if_blocked blockers (repo, n) b)
    unfolding hold_if_blocked note_blocked note_blockers_unreadable clear_blocked is_held entry
        drop_entry unmark_seen find
    hold-Unblocked blockers_unreadable b due = (
      offered b _ due refl (unseen_by (repo, n) b _ refl),
      rw (is_key_self (repo, n)) refl,
      inl refl,
    )
    hold-Unblocked (blockers_are bs) b due = at_open (still_open bs) refl
      where
        at_open :
            (refs : List String)
            → still_open bs ≡ refs
            → Unblocked (blockers_are bs) (hold_on refs (repo, n) b)
        at_open [] e = (
          rw (find-delete_self (λ (x : Key × BlockerEntry). is_key (repo, n) x.0) b.blocked) refl,
          (bs, refl, still_open-none bs e),
        )
        at_open (r ∷ refs) e =
            let (blocker, m, is_open, _) =
              still_open-some bs r (subst (λ rs. Memᴰ r rs) (sym e) (Memᴰ.head refl)) in
            (
              offered b _ due refl (unseen_by (repo, n) b _ refl),
              rw (is_key_self (repo, n)) refl,
              inr (bs, blocker, refl, m, is_open),
            )

-- An issue that a poll handed out and that is not started is offered again. No time is written down
-- before which the issue is to be left alone, or it has come by the next poll, and that poll finds the
-- issue as one to hand out. Read again before it starts, the issue is either not seen any more and in
-- the batch of the next poll, and then GitHub did not answer or it may not start; or it may, which
-- means that it is open, carries no excluding label, and is either assigned to the operator, with a
-- required label where one is needed, or has a trigger label, as it is now. And by its blockers it is
-- either held, not seen any more and in the batch of the next poll, and then they could not be read or
-- one of them is open; or GitHub answered, none of them is open, and no hold is left.
pub start_or_offer :
    (s : Settings) (repo : String) (n : ℕ) (next : NextPoll) (live : Live) (blockers : Blockers)
    (issue : PolledIssue) (b c : Book)
    → FindsIt s repo n next
    → is_due next.answers.now (entry (repo, n) b.recheck_after) ≡ true
    → is_due next.answers.now (entry (repo, n) c.recheck_after) ≡ true
    → Rechecked s repo n next live issue b (recheck_before_dispatch s repo live n issue b)
      × Unblocked s repo n next blockers (hold_if_blocked blockers (repo, n) c)
start_or_offer s repo n next live blockers issue b c finds due due' = (
  recheck-Rechecked s repo n next finds live issue b due,
  hold-Unblocked s repo n next finds blockers c due',
)
