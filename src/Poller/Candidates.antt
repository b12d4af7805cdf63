-- ===== src/Poller/Candidates.antt =====
-- core/poller.py: what a poll takes from its searches is among the candidates.
use ctrlrelay.Base.{
  ℕ, ◌≡◌, inl, inr, refl, sym, ◌∙◌, Bool, true, false, String, Option, none, some, List, [], ◌∷◌,
  ◌++◌, any, arith, ◌==◌, Bool-cases, ap,
}
use ctrlrelay.Base.Members.{any-append}
use ctrlrelay.Poller.Events.{Settings}
use ctrlrelay.Poller.Issue.{PolledIssue, is_set}
use ctrlrelay.Poller.Book.{Book}
use ctrlrelay.Poller.Searches.{
  Intake, Search, found, search_failed, joined, labeled_rows, any_candidate, issues_in, is_number,
  put_row, has_row, add_assigned, add_labeled, all_assigned, all_labeled, add_search, issues_of,
  add_labels,
}
use ctrlrelay.Poller.Fresh.{IsFresh, any_fresh-found}

module _ (n : ℕ) where
  abbrev pub numbered : PolledIssue → Bool
  numbered i = is_number n i.number

  abbrev in_row : ℕ × PolledIssue → Bool
  in_row r = numbered r.1

  put_row-none :
      (m : ℕ) (i : PolledIssue) (rows : List (ℕ × PolledIssue))
      → numbered i ≡ false
      → any in_row rows ≡ false
      → any in_row (put_row m i rows) ≡ false
  unfolding put_row any
  put_row-none m i [] h g = ground (arith, h)
  put_row-none m i ((l, j) ∷ rows) h g = elim (Bool-cases (l == m)) [
    | inl same ↦ rw same (ground (arith, h, g))
    | inr other ↦ rw other (ground (arith, g, put_row-none m i rows h))
  ]

  all_assigned-none :
      (is : List PolledIssue) (rows : List (ℕ × PolledIssue))
      → any numbered is ≡ false
      → any in_row rows ≡ false
      → any in_row (all_assigned is rows) ≡ false
  unfolding all_assigned any
  all_assigned-none [] rows h g = g
  all_assigned-none (i ∷ is) rows h g =
      all_assigned-none is (add_assigned i.number i rows) (ground arith)
        (added i.number (ground arith))
    where
      added : (o : Option ℕ) → numbered i ≡ false → any in_row (add_assigned o i rows) ≡ false
      added none e = g
      added (some m) e = put_row-none m i rows e g

  all_labeled-none :
      (is : List PolledIssue) (rows : List (ℕ × PolledIssue))
      → any numbered is ≡ false
      → any in_row rows ≡ false
      → any in_row (all_labeled is rows) ≡ false
  unfolding all_labeled any
  all_labeled-none [] rows h g = g
  all_labeled-none (i ∷ is) rows h g =
      all_labeled-none is (add_labeled i.number i rows) (ground arith)
        (added i.number (ground arith))
    where
      added : (o : Option ℕ) → numbered i ≡ false → any in_row (add_labeled o i rows) ≡ false
      added none e = g
      added (some m) e = elim (Bool-cases (has_row m rows)) [
        | inl there ↦ rw there g
        | inr new ↦ rw new (any-append in_row rows ((m, i) ∷ []) ∙ ground (arith, e, g))
      ]

  add_labels-none :
      (s : Settings) (intake : Intake) (repo : String) (labels : List String)
      (more : List PolledIssue) (rows : List (ℕ × PolledIssue))
      → labeled_rows s intake repo labels ≡ some more
      → any numbered more ≡ false
      → any in_row rows ≡ false
      → any in_row (add_labels s intake repo labels rows) ≡ false
  unfolding labeled_rows add_labels
  add_labels-none s intake repo [] more rows e h g = g
  add_labels-none s intake repo (label ∷ labels) more rows e h g =
      by_search (intake.labeled (s.lower label)) (labeled_rows s intake repo labels) e
        (λ more' rows'. add_labels-none s intake repo labels more' rows')
    where
      by_search :
          (search : Search) (o : Option (List PolledIssue))
          → joined search repo o ≡ some more
          → ((more' : List PolledIssue) (rows' : List (ℕ × PolledIssue))
              → o ≡ some more'
              → any numbered more' ≡ false
              → any in_row rows' ≡ false
              → any in_row (add_labels s intake repo labels rows') ≡ false)
          → any in_row (add_labels s intake repo labels (add_search search repo rows)) ≡ false
      by_search search_failed o e rest = cc
      by_search (found by_repo) none e rest = cc
      by_search (found by_repo) (some more') e rest =
          let same : by_repo repo ++ more' ≡ more = cc in
          let both = any-append numbered (by_repo repo) more' in
          let whole : any numbered (by_repo repo ++ more') ≡ false = ap (any numbered) same ∙ h in
          rest more' (all_labeled (by_repo repo) rows) refl (ground (arith, both, whole))
            (all_labeled-none (by_repo repo) rows (ground (arith, both, whole)) g)

  issues_of-same : (rows : List (ℕ × PolledIssue)) → any numbered (issues_of rows) ≡ any in_row rows
  unfolding issues_of any
  issues_of-same [] = refl
  issues_of-same ((m, i) ∷ rows) = ground (arith, issues_of-same rows)

  issues_in-none :
      (s : Settings) (intake : Intake) (repo : String) (more : List PolledIssue)
      → labeled_rows s intake repo (s.include_labels repo) ≡ some more
      → any numbered (intake.assigned repo ++ more) ≡ false
      → any numbered (issues_in s intake repo) ≡ false
  unfolding issues_in any
  issues_in-none s intake repo more e h =
      let both = any-append numbered (intake.assigned repo) more in
      elim (Bool-cases (is_set (s.include_labels repo))) [
        | inr unset ↦ rw unset (ground (arith, both, h))
        | inl set ↦ rw set (
            issues_of-same _
            ∙ add_labels-none s intake repo (s.include_labels repo) more _ e
                (ground (arith, both, h))
                (all_assigned-none (intake.assigned repo) [] (ground (arith, both, h)) refl))
      ]

  pub any_candidate-found :
      (s : Settings) (intake : Intake) (repo : String) (now : ℕ) (b : Book)
      → IsFresh (repo, n) now b
      → any numbered (issues_in s intake repo) ≡ true
      → (any_candidate repo now
          (intake.assigned repo)
          (labeled_rows s intake repo (s.include_labels repo))
          b).0
        ≡ true
  any_candidate-found s intake repo now b f h =
      at_rows (labeled_rows s intake repo (s.include_labels repo)) refl
    where
      at_rows :
          (o : Option (List PolledIssue))
          → labeled_rows s intake repo (s.include_labels repo) ≡ o
          → (any_candidate repo now (intake.assigned repo) o b).0 ≡ true
      at_rows none e = refl
      at_rows (some more) e = elim (Bool-cases (any numbered (intake.assigned repo ++ more))) [
        | inl there ↦ any_fresh-found (repo, n) now (intake.assigned repo ++ more) b f there
        | inr gone ↦ let no : true ≡ false = sym h ∙ issues_in-none s intake repo more e gone in cc
      ]
