-- ===== src/Poller/Trust.antt =====
-- core/poller.py: an issue is handed out only where someone who may handed it over.
use ctrlrelay.Base.{
  ◌≡◌, ◌⊎◌, refl, Bool, true, false, not, String, List, is_some, Bool-cases, inl, inr, ◌≢◌,
}
use ctrlrelay.Poller.Events.{
  Settings, Assignment, Labelling, EventsRead, events, unreadable, AssignmentCheck, accepted,
  foreign, check_failed, is_self_assigned, label_added_by_self, assigned_by_allowed, check_events,
  lowered,
}
use ctrlrelay.Poller.Issue.{
  PolledIssue, mark, hand_out, judge_new, is_set, matched_label, matched_include_labels, by_trigger,
  by_label, by_assignment, counts_assigned, label_match, mark_if,
}
use ctrlrelay.Poller.Book.{Key}
use ctrlrelay.Poller.Order.{Entry}
use ctrlrelay.Poller.Poll.{Answers}

abbrev pub key_of : Entry → Key
key_of e = (e.repo, e.number)

module _ (s : Settings) (answers : Answers) where
  -- Someone who may hand the repository's issues to the relay did so: added a trigger label that the
  -- issue carries, or made the operator's last assignment, where not every assignment counts.
  abbrev pub IsTrusted : Entry → Type 0
  IsTrusted e =
      (label_added_by_self s e.repo
          (matched_include_labels s e.issue (lowered s (s.include_labels e.repo)))
          (answers.labellings e.repo e.number)
        ≡ true)
      ⊎ (s.accepts_foreign e.repo ≡ true)
      ⊎ ((es : List Assignment) × (answers.assignments e.repo e.number ≡ events es)
          × (assigned_by_allowed s e.repo es ≡ true))

  abbrev pub IsWanted : Entry → Type 0
  IsWanted e =
      IsTrusted e
      × (is_some (matched_label s e.issue (lowered s (s.exclude_labels e.repo))) ≡ false)
      × (answers.archived e.repo ≡ false)

pub is_self_assigned-accepted :
    (s : Settings) (repo : String) (r : EventsRead Assignment)
    → is_self_assigned s repo r ≡ accepted
    → (s.accepts_foreign repo ≡ true)
      ⊎ ((es : List Assignment) × (r ≡ events es) × (assigned_by_allowed s repo es ≡ true))
unfolding is_self_assigned
is_self_assigned-accepted s repo r h = elim (Bool-cases (s.accepts_foreign repo)) [
  | inl any_one ↦ inl any_one
  | inr own ↦ inr (by_events r (rw own at h))
]
  where
    by_events :
        (r : EventsRead Assignment)
        → check_events s repo r ≡ accepted
        → (es : List Assignment) × (r ≡ events es) × (assigned_by_allowed s repo es ≡ true)
    by_events unreadable h = cc
    by_events (events es) h = elim (Bool-cases (assigned_by_allowed s repo es)) [
      | inl allowed ↦ (es, refl, allowed)
      | inr other ↦ let no : foreign ≡ accepted = rw other at h in cc
    ]

never_hands_out : (b : Bool) → mark_if b ≢ hand_out
never_hands_out true h = cc
never_hands_out false h = cc

-- Only the two triggers lead to a hand-out, and never past an excluding label.
pub judge_new-hand_out :
    (s : Settings) (repo : String) (i : PolledIssue) (queried held : Bool)
    (ls : EventsRead Labelling) (r : EventsRead Assignment)
    → (judge_new s repo i queried held ls r).act ≡ hand_out
    → (is_some (matched_label s i (lowered s (s.exclude_labels repo))) ≡ false)
      × ((label_added_by_self s repo
              (matched_include_labels s i (lowered s (s.include_labels repo)))
              ls
            ≡ true)
          ⊎ (is_self_assigned s repo r ≡ accepted))
unfolding judge_new
judge_new-hand_out s repo i queried held ls r h =
    elim (Bool-cases (is_some (matched_label s i (lowered s (s.exclude_labels repo))))) [
      | inl excluded ↦ let no : mark ≡ hand_out = rw excluded at h in cc
      | inr wanted ↦ (
        wanted,
        triggered (label_match s repo i) (counts_assigned s repo queried i) (rw wanted at h),
      )
    ]
  where
    by_self : Bool
    by_self =
        label_added_by_self s repo (matched_include_labels s i (lowered s (s.include_labels repo)))
          ls

    assigned :
        (c : AssignmentCheck)
        → is_self_assigned s repo r ≡ c
        → (by_assignment (is_set (s.include_labels repo)) held c).act ≡ hand_out
        → is_self_assigned s repo r ≡ accepted
    assigned accepted e h = e
    assigned foreign e h = absurd (never_hands_out (not (is_set (s.include_labels repo))) h)
    assigned check_failed e h = absurd (never_hands_out (not held) h)

    labelled :
        (b is_assigned : Bool)
        → by_self ≡ b
        → (by_label s repo b is_assigned
            (by_assignment (is_set (s.include_labels repo)) held (is_self_assigned s repo r))).act
          ≡ hand_out
        → (by_self ≡ true) ⊎ (is_self_assigned s repo r ≡ accepted)
    labelled true is_assigned e h = inl e
    labelled false true e h = inr (assigned (is_self_assigned s repo r) refl h)
    labelled false false e h = cc

    triggered :
        (matched is_assigned : Bool)
        → (by_trigger s repo i matched is_assigned ls
            (by_assignment (is_set (s.include_labels repo)) held (is_self_assigned s repo r))).act
          ≡ hand_out
        → (by_self ≡ true) ⊎ (is_self_assigned s repo r ≡ accepted)
    triggered true is_assigned h = labelled by_self is_assigned refl h
    triggered false true h = inr (assigned (is_self_assigned s repo r) refl h)
    triggered false false h = cc
