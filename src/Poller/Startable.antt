-- ===== src/Poller/Startable.antt =====
-- core/poller.py and core/blockers.py: what an issue is that may start, without the code's searches.
use ctrlrelay.Poller.Labels.{
  matched-HasNoneOf, mem-contains, one-none, matched-HasOneOf, contains-mem, HasNoneOf, HasOneOf,
}
use mathlib.Core.List.{Memᴰ}
use ctrlrelay.Base.{
  distinct, ◌≡◌, ◌≢◌, ◌⊎◌, ◌↔◌, inl, inr, refl, sym, true, false, ◌||◌, String, List, [], ◌∷◌, All,
  select, str_eq, is_some, eq_iff, arith, Bool-cases,
}
use ctrlrelay.Poller.Events.{Settings, contains, lowered, is_no_text}
use ctrlrelay.Poller.Issue.{PolledIssue, matched_label, lacks_required}
use ctrlrelay.Poller.Dispatch.{may_start, still_assigned, Blocker, still_open}

module _ (s : Settings) where
  -- What an issue is that may start: open, with no excluding label, and either assigned to the operator,
  -- with a required label where one is needed, or with a trigger label.
  abbrev pub IsAssigned : String → PolledIssue → Type 0
  IsAssigned repo issue =
      (s.lower s.username ≢ "")
      × ((a : String) × Memᴰ a issue.assignees × (s.lower s.username ≡ s.lower a))
      × ((s.require_labels repo ≡ []) ⊎ HasOneOf s issue.labels (s.require_labels repo))

  abbrev pub IsStartable : String → String → PolledIssue → Type 0
  IsStartable repo state issue =
      (s.lower state ≡ "open")
      × HasNoneOf s issue.labels (s.exclude_labels repo)
      × (IsAssigned repo issue ⊎ HasOneOf s issue.labels (s.include_labels repo))

  lacks-none :
      (repo : String) (issue : PolledIssue)
      → lacks_required s repo issue ≡ false
      → (s.require_labels repo ≡ []) ⊎ HasOneOf s issue.labels (s.require_labels repo)
  lacks-none repo issue h = by_labels (s.require_labels repo) refl
    where
      by_labels :
          (ws : List String)
          → s.require_labels repo ≡ ws
          → (s.require_labels repo ≡ []) ⊎ HasOneOf s issue.labels (s.require_labels repo)
      by_labels [] e = inl e
      by_labels (w ∷ ws) e =
          inr (matched-HasOneOf s issue (s.require_labels repo) (ground (arith, h, e)))

  lacks-some :
      (repo : String) (issue : PolledIssue)
      → lacks_required s repo issue ≡ true
      → (s.require_labels repo ≡ []) ⊎ HasOneOf s issue.labels (s.require_labels repo)
      → ⊥
  lacks-some repo issue h (inl e) = let no : false ≡ true = rw e at h in cc
  lacks-some repo issue h (inr one) =
      one-none s issue.labels (s.require_labels repo) one
        (matched-HasNoneOf s issue (s.require_labels repo) (ground (arith, h)))

  IsAssigned-iff :
      (repo : String) (issue : PolledIssue)
      → (still_assigned s repo issue ≡ true) ↔ IsAssigned repo issue
  IsAssigned-iff repo issue = (
    λ h.
        let named : str_eq (s.lower s.username) "" ≡ false = ground (arith, h) in
        (
          distinct named,
          contains-mem s (s.lower s.username) issue.assignees (ground (arith, h)),
          lacks-none repo issue (ground (arith, h)),
        ),
    λ (named, (a, m, e), required).
        let there : contains (s.lower s.username) (lowered s issue.assignees) ≡ true =
          mem-contains s (s.lower s.username) issue.assignees a m e in
        elim (Bool-cases (is_no_text (s.lower s.username))) [
          | inl empty ↦ absurd (named ((eq_iff (s.lower s.username) "").0 empty))
          | inr full ↦ elim (Bool-cases (lacks_required s repo issue)) [
            | inl lacks ↦ absurd (lacks-some repo issue lacks required)
            | inr fine ↦ ground (arith, full, there, fine)
          ]
        ],
  )

  -- The check before a start passes exactly such an issue.
  pub may_start_iff :
      (repo state : String) (issue : PolledIssue)
      → (may_start s repo state issue ≡ true) ↔ IsStartable repo state issue
  may_start_iff repo state issue =
      let (there, back) = IsAssigned-iff repo issue in
      (
        λ h. (
          (eq_iff (s.lower state) "open").0 (ground (arith, h)),
          matched-HasNoneOf s issue (s.exclude_labels repo) (ground (arith, h)),
          elim (Bool-cases (still_assigned s repo issue)) [
            | inl own ↦ inl (there own)
            | inr other ↦
                inr (matched-HasOneOf s issue (s.include_labels repo) (ground (arith, h, other)))
          ],
        ),
        λ (is_open, none_of, trigger).
            elim (Bool-cases
              (is_some (matched_label s issue (lowered s (s.exclude_labels repo))))) [
                | inl excluded ↦ absurd (
                    one-none s issue.labels (s.exclude_labels repo)
                      (matched-HasOneOf s issue (s.exclude_labels repo) excluded) none_of)
                | inr wanted ↦
                    ground
                      (arith, (eq_iff (s.lower state) "open").1 is_open, wanted, triggers trigger)
              ],
      )
    where
      triggers :
          IsAssigned repo issue ⊎ HasOneOf s issue.labels (s.include_labels repo)
          → (still_assigned s repo issue
              || is_some (matched_label s issue (lowered s (s.include_labels repo))))
            ≡ true
      triggers (inl own) = ground (arith, (IsAssigned-iff repo issue).1 own)
      triggers (inr one) =
          elim (Bool-cases (is_some (matched_label s issue (lowered s (s.include_labels repo))))) [
            | inl there ↦ ground (arith, there)
            | inr missing ↦ absurd (
                one-none s issue.labels (s.include_labels repo) one
                  (matched-HasNoneOf s issue (s.include_labels repo) missing))
          ]

-- None of the blockers is open, or the references are those of the open ones.
pub still_open-none : (bs : List Blocker) → still_open bs ≡ [] → All (λ b. b.state ≢ "open") bs
unfolding still_open select
still_open-none [] e = tt
still_open-none (b ∷ bs) e = elim (Bool-cases (str_eq b.state "open")) [
  | inl is_open ↦ let no : ◌≡◌ {A = List String} (b.ref ∷ still_open bs) [] = rw is_open at e in cc
  | inr shut ↦ (distinct shut, still_open-none bs (rw shut at e))
]

pub still_open-some :
    (bs : List Blocker) (ref : String)
    → Memᴰ ref (still_open bs)
    → (b : Blocker) × Memᴰ b bs × (b.state ≡ "open") × (b.ref ≡ ref)
unfolding still_open select
still_open-some [] ref m = elim m [ ]
still_open-some (b ∷ bs) ref m = elim (Bool-cases (str_eq b.state "open")) [
  | inr shut ↦
      let (x, n, is_open, e) = still_open-some bs ref (rw shut at m) in (x, Memᴰ.tail n, is_open, e)
  | inl is_open ↦
      at_head ((eq_iff b.state "open").0 is_open) (rw is_open at m) (still_open-some bs ref)
]
  where
    at_head :
        b.state ≡ "open"
        → Memᴰ ref (b.ref ∷ still_open bs)
        → (Memᴰ ref (still_open bs)
            → (x : Blocker) × Memᴰ x bs × (x.state ≡ "open") × (x.ref ≡ ref))
        → (x : Blocker) × Memᴰ x (b ∷ bs) × (x.state ≡ "open") × (x.ref ≡ ref)
    at_head is_open (Memᴰ.head e) rest = (b, Memᴰ.head refl, is_open, sym e)
    at_head is_open (Memᴰ.tail n) rest = let (x, k, o, e) = rest n in (x, Memᴰ.tail k, o, e)
