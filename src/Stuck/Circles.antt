-- ===== src/Stuck/Circles.antt =====
-- core/stuck.py: the loops that are found, described without the code's slices and sets.
use ctrlrelay.Stuck.Alike.{
  some-verdict_on, verdict_on-some, same_failure-from_failed, length-from_failed, verdict_on,
  is_repeating-All, from_failed-append, last_n-from_failed, All-is_repeating,
}
use ctrlrelay.Base.{
  ℕ, ◌≤◌, ◌<◌, ◌≡◌, ◌≢◌, ◌↔◌, ◌⊎◌, refl, true, false, ◌&&◌, String, Option, none, some, List, [],
  ◌∷◌, ◌++◌, length, ltb, leb, count, select, All, arith, Bool-cases, inl, inr, is_some,
  if◌then◌else◌,
}
use ctrlrelay.Stuck.Calls.{ToolCall, Row, calls_of}
use ctrlrelay.Stuck.Loop.{
  last_n, is_repeating, has_failed, from_failed, same_failure, Circle, find_circle, detect_loop,
  as_circle,
}
use ctrlrelay.Stuck.Tail.{length-append_lem, last_n-split, last_n-append}

-- The last calls are one call with one result.
abbrev pub Repeats : ℕ → List ToolCall → Type 0
Repeats limit calls =
    (before : List ToolCall) × (tail : List ToolCall) × (key : String) × (result : String) × (calls
      ≡ before ++ tail)
    × (length tail ≡ limit)
    × All (λ c. (c.key ≡ key) × (c.result ≡ some result)) tail

-- From some failed call on, `limit` calls failed, all of them that call with that error, and it never
-- succeeded.
abbrev pub FailsAgain : ℕ → List ToolCall → Type 0
FailsAgain limit calls =
    (before : List ToolCall) × (first : ToolCall) × (rest : List ToolCall) × (calls
      ≡ before ++ first ∷ rest)
    × (has_failed first ≡ true)
    × (count has_failed (first ∷ rest) ≡ limit)
    × All (λ c. (c.key ≡ first.key) × (c.error ≡ first.error)) (select has_failed (first ∷ rest))
    × All (λ c. (c.key ≢ first.key) ⊎ (c.ok ≢ some true)) (first ∷ rest)

module _ (limit : ℕ) (calls : List ToolCall) where
  Repeats-iff :
      0 < limit
      → (leb limit (length calls) && is_repeating (last_n limit calls) ≡ true) ↔ Repeats limit calls
  Repeats-iff pos = (
    λ h.
        let (len, (before, at)) = last_n-split limit calls (ground arith) in
        let (key, result, all) = is_repeating-All (last_n limit calls) (ground arith) in
        (before, last_n limit calls, key, result, at, len, all),
    λ (before, tail, key, result, at, len, all). back before tail key result at len all,
  )
    where
      back :
          (before tail : List ToolCall) (key result : String)
          → calls ≡ before ++ tail
          → length tail ≡ limit
          → All (λ c. (c.key ≡ key) × (c.result ≡ some result)) tail
          → leb limit (length calls) && is_repeating (last_n limit calls) ≡ true
      back before [] key result at len all = absurd (omega arith)
      back before (c ∷ cs) key result at len all =
          let enough : leb limit (length calls) ≡ true =
            rw (at, length-append_lem before (c ∷ cs), len) (ground arith) in
          let same : last_n limit calls ≡ c ∷ cs = rw (← len, at) (last_n-append before (c ∷ cs)) in
          rw (enough, same) (All-is_repeating c cs key result all)

  -- How `find_circle` looks for the second kind.
  abbrev found_failure : Option Circle
  found_failure =
      if leb limit (length (from_failed calls))
      then as_circle (same_failure (last_n limit (from_failed calls)))
      else none

  found_failure-FailsAgain : 0 < limit → is_some found_failure ≡ true → FailsAgain limit calls
  found_failure-FailsAgain pos h = elim (Bool-cases (leb limit (length (from_failed calls)))) [
    | inr few ↦ let none_found : false ≡ true = rw few at h in cc
    | inl enough ↦
        let (before, first, rest, at, failed, same, len) =
          last_n-from_failed limit calls pos (ground arith) in
        let told : is_some (as_circle (verdict_on first rest)) ≡ true =
          rw (enough, same, same_failure-from_failed first rest failed) at h in
        let (errors, never) = verdict_on-some first rest told in
        (
          before,
          first,
          rest,
          at,
          failed,
          rw (← length-from_failed (first ∷ rest)) len,
          errors,
          never,
        )
  ]

  FailsAgain-found_failure : FailsAgain limit calls → is_some found_failure ≡ true
  FailsAgain-found_failure (before, first, rest, at, failed, len, errors, never) =
      let (window, w) = from_failed-append before (first ∷ rest) in
      let all : from_failed calls ≡ window ++ from_failed (first ∷ rest) = rw at w in
      let len' : length (from_failed (first ∷ rest)) ≡ limit =
        rw (length-from_failed (first ∷ rest)) len in
      let enough : leb limit (length (from_failed calls)) ≡ true =
        rw (all, length-append_lem window (from_failed (first ∷ rest)), len') (ground arith) in
      let same : last_n limit (from_failed calls) ≡ from_failed (first ∷ rest) =
        rw (← len', all) (last_n-append window (from_failed (first ∷ rest))) in
      rw (enough, same, same_failure-from_failed first rest failed)
        (some-verdict_on first rest errors never)

  find_circle_iff :
      0 < limit
      → (is_some (find_circle limit calls) ≡ true) ↔ (Repeats limit calls ⊎ FailsAgain limit calls)
  unfolding find_circle
  find_circle_iff pos =
      elim (Bool-cases (leb limit (length calls) && is_repeating (last_n limit calls))) [
        | inl now ↦ (λ _. inl ((Repeats-iff pos).0 now), λ _. rw now refl)
        | inr not_now ↦ (
          λ h. inr (found_failure-FailsAgain pos (rw not_now at h)),
          λ found. elim found [
            | inl repeats ↦
                let no : false ≡ true = rw (← not_now) ((Repeats-iff pos).1 repeats) in cc
            | inr fails ↦ rw not_now (FailsAgain-found_failure fails)
          ],
        )
      ]

-- A transcript counts as one of an agent that goes in circles exactly where, of the calls that were
-- read since the given time, the last `limit` are one call with one result that was read, or from
-- some failed call on there were `limit` failures, all of that call with that error, and it never
-- succeeded; and never with a limit below 2.
pub detect_loop_iff :
    (rows : List Row) (since : Option ℕ) (limit : ℕ)
    → (is_some (detect_loop rows since limit) ≡ true) ↔ (
        (2 ≤ limit)
        × (Repeats limit (calls_of since rows []) ⊎ FailsAgain limit (calls_of since rows [])))
unfolding detect_loop
detect_loop_iff rows since limit = elim (Bool-cases (ltb limit 2)) [
  | inl short ↦
      (λ h. let no : false ≡ true = rw short at h in cc, λ (two, _). absurd (ground arith))
  | inr long ↦
      let two : 2 ≤ limit = ground arith in
      let (there, back) = find_circle_iff limit (calls_of since rows []) (omega arith) in
      (λ h. (two, there (rw long at h)), λ (_, found). rw long (back found))
]
