-- ===== src/Stuck/Loop.antt =====
-- core/stuck.py: whether the tool calls show an agent that goes in circles.
use ctrlrelay.Base.{
  ℕ, Bool, true, false, not, ◌&&◌, String, Option, none, some, List, [], ◌∷◌, length, any, leb, ltb,
  str_eq, if◌then◌else◌, is_some,
}
use ctrlrelay.Stuck.Calls.{ToolCall, Row, calls_of}

-- `xs[-n:]` for a positive `n`: the last `n` entries, or all where there are fewer.
unfoldable pub last_n : {A : Type 0} → ℕ → List A → List A
last_n n [] = []
last_n n (x ∷ xs) = let rest = last_n n xs in if ltb (length xs) n then x ∷ xs else rest

abbrev pub same_option : Option String → Option String → Bool
same_option none none = true
same_option (some a) (some b) = str_eq a b
same_option a b = false

unfoldable pub all_calls : (ToolCall → Bool) → List ToolCall → Bool
all_calls p [] = true
all_calls p (c ∷ cs) = p c && all_calls p cs

-- `len({f(c) for c in calls}) == 1`.
abbrev pub is_one_key : List ToolCall → Bool
is_one_key [] = false
is_one_key (c ∷ cs) = all_calls (λ d. str_eq d.key c.key) cs

abbrev pub is_one_result : List ToolCall → Bool
is_one_result [] = false
is_one_result (c ∷ cs) = all_calls (λ d. same_option d.result c.result) cs

abbrev pub has_result : ToolCall → Bool
has_result c = is_some c.result

abbrev pub is_repeating : List ToolCall → Bool
is_repeating tail = is_one_key tail && all_calls has_result tail && is_one_result tail

abbrev pub bool_is : Option Bool → Bool → Bool
bool_is none b = false
bool_is (some true) b = b
bool_is (some false) b = not b

abbrev pub has_failed : ToolCall → Bool
has_failed c = bool_is c.ok false

-- `calls[i:]` for every `i` of `failed`.
unfoldable pub from_failed : List ToolCall → List (List ToolCall)
from_failed [] = []
from_failed (c ∷ cs) = let rest = from_failed cs in if has_failed c then (c ∷ cs) ∷ rest else rest

abbrev pub is_same_error : ToolCall → ToolCall → Bool
is_same_error first c = str_eq c.key first.key && same_option c.error first.error

abbrev pub is_success_of : ToolCall → ToolCall → Bool
is_success_of first c = str_eq c.key first.key && bool_is c.ok true

-- `all(… for c in window)`, where each list of the window starts with its call.
unfoldable pub all_first : (ToolCall → Bool) → List (List ToolCall) → Bool
all_first p [] = true
all_first p ([] ∷ window) = all_first p window
all_first p ((c ∷ cs) ∷ window) = p c && all_first p window

-- The first failed call of the window, where every one is the same call with the same error, and that
-- call did not succeed from there on.
abbrev pub same_failure : List (List ToolCall) → Option ToolCall
same_failure ((first ∷ cs) ∷ window) =
    if all_first (is_same_error first) ((first ∷ cs) ∷ window)
      && not (any (is_success_of first) (first ∷ cs))
    then some first
    else none
same_failure window = none

-- Why the agent goes in circles; the two texts before they are formatted.
pub data Circle : Type 0 where
  same_command : Circle
  same_error : ToolCall → Circle

abbrev pub as_circle : Option ToolCall → Option Circle
as_circle none = none
as_circle (some c) = some (same_error c)

unfoldable pub find_circle : ℕ → List ToolCall → Option Circle
find_circle limit calls =
    if leb limit (length calls) && is_repeating (last_n limit calls)
    then some same_command
    else if leb limit (length (from_failed calls))
    then as_circle (same_failure (last_n limit (from_failed calls)))
    else none

unfoldable pub detect_loop : List Row → Option ℕ → ℕ → Option Circle
unfolding find_circle
detect_loop rows since limit =
    if ltb limit 2 then none else find_circle limit (calls_of since rows [])
