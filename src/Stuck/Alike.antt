-- ===== src/Stuck/Alike.antt =====
-- core/stuck.py: what the slices and sets of `detect_loop` say of the calls.
use ctrlrelay.Base.{
  ℕ, ◌≤◌, ◌<◌, ◌≡◌, ◌≢◌, ◌↔◌, ◌⊎◌, refl, ap, Bool, true, false, not, ◌&&◌, String, Option, none,
  some, List, [], ◌∷◌, ◌++◌, length, ltb, any, count, select, All, arith, Bool-cases, inl, inr,
  str_eq, eq_iff, eq_refl, is_some, if◌then◌else◌,
}
use ctrlrelay.Stuck.Calls.{ToolCall}
use ctrlrelay.Stuck.Loop.{
  last_n, same_option, all_calls, has_result, is_repeating, bool_is, has_failed, from_failed,
  is_same_error, is_success_of, all_first, same_failure, as_circle,
}

module _ (p : ToolCall → Bool) (P : ToolCall → Type 0) where
  all_calls-All :
      ((c : ToolCall) → p c ≡ true → P c) → (cs : List ToolCall) → all_calls p cs ≡ true → All P cs
  unfolding all_calls
  all_calls-All f [] h = tt
  all_calls-All f (c ∷ cs) h = (f c (ground arith), all_calls-All f cs (ground arith))

  All-all_calls :
      ((c : ToolCall) → P c → p c ≡ true) → (cs : List ToolCall) → All P cs → all_calls p cs ≡ true
  unfolding all_calls
  All-all_calls f [] h = refl
  All-all_calls f (c ∷ cs) (h, hs) = rw (f c h, All-all_calls f cs hs) refl

  none-All :
      ((c : ToolCall) → p c ≡ false → P c) → (cs : List ToolCall) → any p cs ≡ false → All P cs
  unfolding any
  none-All f [] h = tt
  none-All f (c ∷ cs) h = (f c (ground arith), none-All f cs (ground arith))

  All-none :
      ((c : ToolCall) → P c → p c ≡ false) → (cs : List ToolCall) → All P cs → any p cs ≡ false
  unfolding any
  All-none f [] h = refl
  All-none f (c ∷ cs) (h, hs) = rw (f c h, All-none f cs hs) refl

same_option-eq : (a b : Option String) → same_option a b ≡ true → a ≡ b
same_option-eq none none h = refl
same_option-eq none (some b) h = cc
same_option-eq (some a) none h = cc
same_option-eq (some a) (some b) h = ap some ((eq_iff a b).0 h)

same_option_self : (a : Option String) → same_option a a ≡ true
same_option_self none = refl
same_option_self (some a) = eq_refl a

all_calls-and :
    (p q : ToolCall → Bool) (cs : List ToolCall)
    → all_calls (λ c. p c && q c) cs ≡ (all_calls p cs && all_calls q cs)
unfolding all_calls
all_calls-and p q [] = refl
all_calls-and p q (c ∷ cs) = ground (arith, all_calls-and p q cs)

pub is_repeating-All :
    (tail : List ToolCall)
    → is_repeating tail ≡ true
    → (key : String) × (result : String) × All (λ c. (c.key ≡ key) × (c.result ≡ some result)) tail
unfolding all_calls
is_repeating-All [] h = cc
is_repeating-All (c ∷ cs) h = found c.result refl
  where
    alike : ToolCall → Bool
    alike d = str_eq d.key c.key && same_option d.result c.result

    all_alike : all_calls alike cs ≡ true
    all_alike =
        rw (all_calls-and (λ d. str_eq d.key c.key) (λ d. same_option d.result c.result) cs)
          (ground arith)

    as_told :
        (r : String)
        → c.result ≡ some r
        → (d : ToolCall) → alike d ≡ true
        → (d.key ≡ c.key) × (d.result ≡ some r)
    as_told r e d h =
        let k : str_eq d.key c.key ≡ true = ground arith in
        let same : same_option d.result c.result ≡ true = ground arith in
        ((eq_iff d.key c.key).0 k, rw (← e) (same_option-eq d.result c.result same))

    found :
        (o : Option String)
        → c.result ≡ o
        → (key : String) × (result : String) × All
            (λ d. (d.key ≡ key) × (d.result ≡ some result))
            (c ∷ cs)
    found none e =
        let read : has_result c ≡ true = ground arith in
        let unread : false ≡ true = rw e at read in cc
    found (some r) e = (c.key, r, ((refl, e), all_calls-All alike _ (as_told r e) cs all_alike))

pub All-is_repeating :
    (c : ToolCall) (cs : List ToolCall) (key result : String)
    → All (λ d. (d.key ≡ key) × (d.result ≡ some result)) (c ∷ cs)
    → is_repeating (c ∷ cs) ≡ true
unfolding all_calls
All-is_repeating c cs key result ((k, r), rest) =
    let keys : all_calls (λ d. str_eq d.key c.key) cs ≡ true =
      All-all_calls _ _ (λ d (kd, rd). rw (kd, k) (eq_refl key)) cs rest in
    let read : all_calls has_result cs ≡ true =
      All-all_calls _ _ (λ d (kd, rd). rw rd refl) cs rest in
    let results : all_calls (λ d. same_option d.result c.result) cs ≡ true =
      All-all_calls _ _ (λ d (kd, rd). rw (rd, r) (eq_refl result)) cs rest in
    rw (keys, read, results, r) refl

pub length-from_failed : (cs : List ToolCall) → length (from_failed cs) ≡ count has_failed cs
unfolding from_failed count
length-from_failed [] = refl
length-from_failed (c ∷ cs) = ground (arith, length-from_failed cs)

all_first-from_failed :
    (p : ToolCall → Bool) (cs : List ToolCall)
    → all_first p (from_failed cs) ≡ all_calls p (select has_failed cs)
unfolding all_first from_failed all_calls select
all_first-from_failed p [] = refl
all_first-from_failed p (c ∷ cs) = ground (arith, all_first-from_failed p cs)

pub from_failed-append :
    (before cs : List ToolCall)
    → (window : List (List ToolCall)) × (from_failed (before ++ cs) ≡ window ++ from_failed cs)
unfolding from_failed
from_failed-append [] cs = ([], refl)
from_failed-append (c ∷ before) cs =
    let (window, e) = from_failed-append before cs in
    elim (Bool-cases (has_failed c)) [
      | inl h ↦ rw h ((c ∷ before ++ cs) ∷ window, ap (λ w. (c ∷ before ++ cs) ∷ w) e)
      | inr h ↦ rw h (window, e)
    ]

-- The window of the last failures starts with a failed call, and is what failed from there on.
pub last_n-from_failed :
    (n : ℕ) (cs : List ToolCall)
    → 0 < n
    → n ≤ length (from_failed cs)
    → (before : List ToolCall) × (first : ToolCall) × (rest : List ToolCall) × (cs
        ≡ before ++ first ∷ rest)
      × (has_failed first ≡ true)
      × (last_n n (from_failed cs) ≡ from_failed (first ∷ rest))
      × (length (from_failed (first ∷ rest)) ≡ n)
unfolding from_failed last_n
last_n-from_failed n [] pos h = absurd (omega arith)
last_n-from_failed n (c ∷ cs) pos h = elim (Bool-cases (has_failed c)) [
  | inr ok ↦
      let (before, first, rest, at, failed, same, len) = last_n-from_failed n cs pos (rw ok at h) in
      rw ok (c ∷ before, first, rest, ap (λ ys. c ∷ ys) at, failed, same, len)
  | inl failed ↦ elim (Bool-cases (ltb (length (from_failed cs)) n)) [
    | inl all ↦
        rw (failed, all)
          ([], c, cs, refl, failed, rw failed refl, rw failed (ground (arith, failed)))
    | inr more ↦
        let (before, first, rest, at, failed', same, len) =
          last_n-from_failed n cs pos (ground arith) in
        rw (failed, more) (c ∷ before, first, rest, ap (λ ys. c ∷ ys) at, failed', same, len)
  ]
]

is_same_error-eq :
    (first c : ToolCall)
    → (is_same_error first c ≡ true) ↔ ((c.key ≡ first.key) × (c.error ≡ first.error))
is_same_error-eq first c = (
  λ h.
      let k : str_eq c.key first.key ≡ true = ground arith in
      let e : same_option c.error first.error ≡ true = ground arith in
      ((eq_iff c.key first.key).0 k, same_option-eq c.error first.error e),
  λ (k, e). rw (k, e, eq_refl first.key, same_option_self first.error) refl,
)

bool_is-true : (o : Option Bool) → (bool_is o true ≡ true) ↔ (o ≡ some true)
bool_is-true none = (λ h. cc, λ e. cc)
bool_is-true (some true) = (λ h. refl, λ e. refl)
bool_is-true (some false) = (λ h. cc, λ e. cc)

not_success :
    (first c : ToolCall)
    → (is_success_of first c ≡ false) ↔ ((c.key ≢ first.key) ⊎ (c.ok ≢ some true))
not_success first c = (
  λ h. elim (Bool-cases (str_eq c.key first.key)) [
    | inr other ↦ inl (λ e. ground (arith, eq_iff c.key first.key))
    | inl same ↦ inr (λ e. ground (arith, bool_is-true c.ok))
  ],
  λ s. elim s [
    | inl other ↦ ground (arith, eq_iff c.key first.key)
    | inr unlike ↦ ground (arith, bool_is-true c.ok)
  ],
)

abbrev pub verdict_on : ToolCall → List ToolCall → Option ToolCall
verdict_on first rest =
    if all_calls (is_same_error first) (select has_failed (first ∷ rest))
      && not (any (is_success_of first) (first ∷ rest))
    then some first
    else none

pub verdict_on-some :
    (first : ToolCall) (rest : List ToolCall)
    → is_some (as_circle (verdict_on first rest)) ≡ true
    → All (λ c. (c.key ≡ first.key) × (c.error ≡ first.error)) (select has_failed (first ∷ rest))
      × All (λ c. (c.key ≢ first.key) ⊎ (c.ok ≢ some true)) (first ∷ rest)
verdict_on-some first rest h =
    elim (Bool-cases (all_calls (is_same_error first) (select has_failed (first ∷ rest)))) [
      | inr unlike ↦ let no : false ≡ true = rw unlike at h in cc
      | inl same ↦ elim (Bool-cases (any (is_success_of first) (first ∷ rest))) [
        | inl succeeded ↦ let no : false ≡ true = rw (same, succeeded) at h in cc
        | inr never ↦ (
          all_calls-All _ _ (λ c. (is_same_error-eq first c).0) _ same,
          none-All _ _ (λ c. (not_success first c).0) (first ∷ rest) never,
        )
      ]
    ]

pub some-verdict_on :
    (first : ToolCall) (rest : List ToolCall)
    → All (λ c. (c.key ≡ first.key) × (c.error ≡ first.error)) (select has_failed (first ∷ rest))
    → All (λ c. (c.key ≢ first.key) ⊎ (c.ok ≢ some true)) (first ∷ rest)
    → is_some (as_circle (verdict_on first rest)) ≡ true
some-verdict_on first rest errors never =
    let same : all_calls (is_same_error first) (select has_failed (first ∷ rest)) ≡ true =
      All-all_calls _ _ (λ c. (is_same_error-eq first c).1) _ errors in
    let none_succeeded : any (is_success_of first) (first ∷ rest) ≡ false =
      All-none _ _ (λ c. (not_success first c).1) _ never in
    rw (same, none_succeeded) refl

-- The window of the failures from `first` on decides for it exactly where they all are one failure.
pub same_failure-from_failed :
    (first : ToolCall) (rest : List ToolCall)
    → has_failed first ≡ true
    → same_failure (from_failed (first ∷ rest)) ≡ verdict_on first rest
unfolding from_failed select all_first all_calls
same_failure-from_failed first rest failed =
    rw (failed, all_first-from_failed (is_same_error first) rest) refl
