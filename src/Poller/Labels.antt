-- ===== src/Poller/Labels.antt =====
-- core/poller.py: the labels that a search for configured ones finds, without the search.
use ctrlrelay.Base.Members.{All-mem}
use mathlib.Core.List.{Memᴰ}
use ctrlrelay.Base.{
  distinct, ◌≡◌, ◌≢◌, ◌⊎◌, inl, inr, refl, sym, Bool, true, false, String, List, [], ◌∷◌, All, any,
  find, str_eq, is_some, eq_iff, arith, Bool-cases,
}
use ctrlrelay.Poller.Events.{Settings, contains, lowered, is_no_text}
use ctrlrelay.Poller.Issue.{PolledIssue, is_match, matched_label}

module _ (s : Settings) where
  -- A label and a configured one, in any case of letters.
  abbrev pub Alike : String → String → Type 0
  Alike name wanted = (name ≢ "") × (s.lower name ≡ s.lower wanted)

  abbrev pub Apart : String → String → Type 0
  Apart name wanted = (name ≡ "") ⊎ (s.lower name ≢ s.lower wanted)

  abbrev pub HasOneOf : List String → List String → Type 0
  HasOneOf labels wanted =
      (name : String) × (w : String) × Memᴰ name labels × Memᴰ w wanted × Alike name w

  abbrev pub HasNoneOf : List String → List String → Type 0
  HasNoneOf labels wanted = All (λ name. All (Apart name) wanted) labels

  pub contains-mem :
      (t : String) (ws : List String)
      → contains t (lowered s ws) ≡ true
      → (w : String) × Memᴰ w ws × (t ≡ s.lower w)
  unfolding any
  contains-mem t [] h = cc
  contains-mem t (w ∷ ws) h = elim (Bool-cases (str_eq (s.lower w) t)) [
    | inl same ↦ (w, Memᴰ.head refl, sym ((eq_iff (s.lower w) t).0 same))
    | inr other ↦ let (v, m, e) = contains-mem t ws (ground (arith, other)) in (v, Memᴰ.tail m, e)
  ]

  pub mem-contains :
      (t : String) (ws : List String) (w : String)
      → Memᴰ w ws
      → t ≡ s.lower w
      → contains t (lowered s ws) ≡ true
  unfolding any
  mem-contains t [] w m e = elim m [ ]
  mem-contains t (v ∷ ws) w (Memᴰ.head same) e =
      ground (arith, (eq_iff (s.lower v) t).1 (rw (← same) (sym e)))
  mem-contains t (v ∷ ws) w (Memᴰ.tail m) e = ground (arith, mem-contains t ws w m e)

  apart-contains :
      (t : String) (ws : List String)
      → contains t (lowered s ws) ≡ false
      → All (λ w. t ≢ s.lower w) ws
  unfolding any
  apart-contains t [] h = tt
  apart-contains t (w ∷ ws) h = (
    λ e.
        let no : str_eq (s.lower w) t ≡ true = (eq_iff (s.lower w) t).1 (sym e) in
        ground (arith, no),
    apart-contains t ws (ground arith),
  )

  any-of :
      (xs : List String) (p : String → Bool)
      → is_some (find p xs) ≡ true
      → (x : String) × Memᴰ x xs × (p x ≡ true)
  unfolding find
  any-of [] p h = cc
  any-of (x ∷ xs) p h = elim (Bool-cases (p x)) [
    | inl hit ↦ (x, Memᴰ.head refl, hit)
    | inr miss ↦ let (y, m, e) = any-of xs p (ground (arith, miss)) in (y, Memᴰ.tail m, e)
  ]

  none-of :
      (xs : List String) (p : String → Bool)
      → is_some (find p xs) ≡ false
      → All (λ x. p x ≡ false) xs
  unfolding find
  none-of [] p h = tt
  none-of (x ∷ xs) p h = (ground arith, none-of xs p (ground arith))

  All-map :
      (P Q : String → Type 0) (xs : List String) → ((x : String) → P x → Q x) → All P xs → All Q xs
  All-map P Q [] f h = tt
  All-map P Q (x ∷ xs) f (h, hs) = (f x h, All-map P Q xs f hs)

  Apart-match :
      (ws : List String) (name : String)
      → is_match s (lowered s ws) name ≡ false
      → All (Apart name) ws
  Apart-match ws name h = elim (Bool-cases (is_no_text name)) [
    | inl empty ↦
        All-map (λ _. Unit {0}) (Apart name) ws (λ w _. inl ((eq_iff name "").0 empty))
          (all_unit ws)
    | inr named ↦
        All-map (λ w. s.lower name ≢ s.lower w) (Apart name) ws (λ w ne. inr ne)
          (apart-contains (s.lower name) ws (ground (arith, named, h)))
  ]
    where
      all_unit : (ws : List String) → All (λ _. Unit {0}) ws
      all_unit [] = tt
      all_unit (w ∷ ws) = (tt, all_unit ws)

  -- The search for a configured label finds one exactly where one is there.
  pub matched-HasOneOf :
      (issue : PolledIssue) (wanted : List String)
      → is_some (matched_label s issue (lowered s wanted)) ≡ true
      → HasOneOf issue.labels wanted
  unfolding matched_label
  matched-HasOneOf issue [] h = cc
  matched-HasOneOf issue (w ∷ ws) h =
      let (name, m, hit) = any-of issue.labels (is_match s (lowered s (w ∷ ws))) h in
      let (v, n, same) = contains-mem (s.lower name) (w ∷ ws) (ground (arith, hit)) in
      let named : str_eq name "" ≡ false = ground (arith, hit) in
      (name, v, m, n, (distinct named, same))

  pub matched-HasNoneOf :
      (issue : PolledIssue) (wanted : List String)
      → is_some (matched_label s issue (lowered s wanted)) ≡ false
      → HasNoneOf issue.labels wanted
  unfolding matched_label
  matched-HasNoneOf issue [] h = nothing issue.labels
    where
      nothing : (names : List String) → All (λ name. All (Apart name) []) names
      nothing [] = tt
      nothing (name ∷ names) = (tt, nothing names)
  matched-HasNoneOf issue (w ∷ ws) h =
      All-map (λ name. is_match s (lowered s (w ∷ ws)) name ≡ false)
        (λ name. All (Apart name) (w ∷ ws)) issue.labels (Apart-match (w ∷ ws))
        (none-of issue.labels (is_match s (lowered s (w ∷ ws))) h)

  pub one-none :
      (labels wanted : List String) → HasOneOf labels wanted → HasNoneOf labels wanted → ⊥
  one-none labels wanted (name, w, m, n, (named, same)) none_of =
      elim (All-mem (Apart name) wanted
        (All-mem (λ x. All (Apart x) wanted) labels none_of {x = name} m) {x = w} n) [
          | inl empty ↦ named empty
          | inr ne ↦ ne same
        ]
