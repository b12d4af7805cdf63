-- ===== src/Stuck/Failures.antt =====
-- core/stuck.py: what kind of failure the logs of a CI round show.
use ctrlrelay.Base.{
  ◌≡◌, ◌↔◌, refl, Bool, true, false, ◌&&◌, String, Option, none, some, List, [], ◌∷◌, ◌++◌, any,
  All, arith, Bool-cases, inl, inr, if◌then◌else◌, ◌≢◌,
}

pub data FailureKind : Type 0 where
  infra : FailureKind
  code : FailureKind
  budget : FailureKind

abbrev pub is_infra : FailureKind → Bool
is_infra infra = true
is_infra k = false

abbrev pub is_code : FailureKind → Bool
is_code code = true
is_code k = false

abbrev pub is_budget : FailureKind → Bool
is_budget budget = true
is_budget k = false

unfoldable pub all_infra : List FailureKind → Bool
all_infra [] = true
all_infra (k ∷ ks) = is_infra k && all_infra ks

-- A set of names is true where it is not empty.
abbrev pub is_named : List String → Bool
is_named [] = false
is_named (t ∷ ts) = true

-- The kind of a round, and the failing tests that its logs name.
pub record Round : Type 0 where
  pub kind : FailureKind
  pub names : List String

abbrev pub round_of : List FailureKind → List String → Round
round_of [] names = record { kind = code; names = [] }
round_of (k ∷ kinds) names =
    if any is_budget (k ∷ kinds)
    then record { kind = budget; names = [] }
    else if all_infra (k ∷ kinds)
    then record { kind = infra; names = [] }
    else record { kind = code; names = names }

all_infra-budget : (ks : List FailureKind) → all_infra ks ≡ true → any is_budget ks ≡ false
unfolding all_infra any
all_infra-budget [] h = refl
all_infra-budget (infra ∷ ks) h = all_infra-budget ks h
all_infra-budget (code ∷ ks) h = cc
all_infra-budget (budget ∷ ks) h = cc

round_of-infra :
    (k : FailureKind) (ks : List FailureKind) (names : List String)
    → ((round_of (k ∷ ks) names).kind ≡ infra) ↔ (all_infra (k ∷ ks) ≡ true)
round_of-infra k ks names = elim (Bool-cases (all_infra (k ∷ ks))) [
  | inl all ↦ (λ _. all, λ _. rw (all_infra-budget (k ∷ ks) all, all) refl)
  | inr some_other ↦ elim (Bool-cases (any is_budget (k ∷ ks))) [
    | inl b ↦ (λ h. let no : budget ≡ infra = rw b at h in cc, λ all. cc)
    | inr b ↦ (λ h. let no : code ≡ infra = rw (b, some_other) at h in cc, λ all. cc)
  ]
]

-- The searches for the patterns in a log, and the tests that a log reports failing.
module _ (has_budget has_infra : String → Bool) (failed_tests : String → List String) where
  unfoldable pub classify_failure : String → FailureKind
  classify_failure log =
      if has_budget log
      then budget
      else if is_named (failed_tests log)
      then code
      else if has_infra log
      then infra
      else code

  abbrev pub kind_of : Option String → FailureKind
  kind_of none = code
  kind_of (some log) = classify_failure log

  abbrev pub names_in : FailureKind → String → List String
  names_in code log = failed_tests log
  names_in k log = []

  abbrev pub add_names : Option String → List String → List String
  add_names none names = names
  add_names (some log) names = names ++ names_in (classify_failure log) log

  unfoldable pub kinds_of : List (Option String) → List FailureKind
  kinds_of [] = []
  kinds_of (log ∷ logs) = kind_of log ∷ kinds_of logs

  unfoldable pub names_of : List (Option String) → List String → List String
  names_of [] names = names
  names_of (log ∷ logs) names = names_of logs (add_names log names)

  unfoldable pub classify_failures : List (Option String) → Round
  classify_failures logs = round_of (kinds_of logs) (names_of logs [])

  -- A log of flaky infrastructure alone.
  abbrev pub IsFlaky : Option String → Type 0
  IsFlaky log =
      (text : String) × (log ≡ some text)
      × (has_budget text ≡ false)
      × (failed_tests text ≡ [])
      × (has_infra text ≡ true)

  IsFlaky-iff : (log : Option String) → (kind_of log ≡ infra) ↔ IsFlaky log
  unfolding classify_failure
  IsFlaky-iff none = (λ h. cc, λ (_, e, _, _, _). cc)
  IsFlaky-iff (some log) = (
    flaky (has_budget log) (failed_tests log) (has_infra log) refl refl refl,
    λ (text, e, b, t, i). let same : log ≡ text = cc in rw (same, b, t, i) refl,
  )
    where
      flaky :
          (b : Bool) (t : List String) (i : Bool)
          → has_budget log ≡ b
          → failed_tests log ≡ t
          → has_infra log ≡ i
          → classify_failure log ≡ infra
          → IsFlaky (some log)
      flaky true t i eb et ei h = let no : budget ≡ infra = rw eb at h in cc
      flaky false (x ∷ t) i eb et ei h = let no : code ≡ infra = rw (eb, et) at h in cc
      flaky false [] false eb et ei h = let no : code ≡ infra = rw (eb, et, ei) at h in cc
      flaky false [] true eb et ei h = (log, refl, eb, et, ei)

  is_infra-eq : (k : FailureKind) → is_infra k ≡ true → k ≡ infra
  is_infra-eq infra h = refl
  is_infra-eq code h = cc
  is_infra-eq budget h = cc

  all_infra-All :
      (logs : List (Option String)) → (all_infra (kinds_of logs) ≡ true) ↔ All IsFlaky logs
  unfolding all_infra kinds_of
  all_infra-All [] = (λ h. tt, λ h. refl)
  all_infra-All (log ∷ logs) =
      let (there, back) = all_infra-All logs in
      (
        λ h. ((IsFlaky-iff log).0 (is_infra-eq (kind_of log) (ground arith)), there (ground arith)),
        λ (f, fs). rw ((IsFlaky-iff log).1 f, back fs) refl,
      )

  -- The jobs of a round are run again without a look at the code exactly where there is a failed job
  -- and the log of each was read, shows nothing of the budget, names no failing test, and shows
  -- flaky infrastructure.
  pub classify_failures-infra :
      (logs : List (Option String))
      → ((classify_failures logs).kind ≡ infra) ↔ ((logs ≢ []) × All IsFlaky logs)
  unfolding classify_failures kinds_of
  classify_failures-infra [] = (λ h. cc, λ (some_log, _). absurd (some_log refl))
  classify_failures-infra (log ∷ logs) =
      let (there, back) = all_infra-All (log ∷ logs) in
      let (is_all, all_is) =
        round_of-infra (kind_of log) (kinds_of logs) (names_of (log ∷ logs) []) in
      (λ h. (λ e. cc, there (is_all h)), λ (_, all). all_is (back all))
