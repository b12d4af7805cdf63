-- ===== src/Stuck/Examples.antt =====
-- core/stuck.py: a transcript and a CI round at concrete values.
use ctrlrelay.Base.{
  Option, ◌≢◌, ◌≡◌, refl, ◌↔◌, ◌⊎◌, ◌≤◌, Bool, true, false, String, none, some, List, [], ◌∷◌,
  is_some, All, str_eq,
}
use ctrlrelay.Stuck.Calls.{
  Row, tool_use, tool_result, calls_of, read_items, read_item, append_call, set_last,
}
use ctrlrelay.Stuck.Loop.{detect_loop, find_circle, last_n, all_calls, from_failed, same_command}
use ctrlrelay.Stuck.Circles.{Repeats, FailsAgain, detect_loop_iff}
use ctrlrelay.Stuck.Failures.{IsFlaky, classify_failures, classify_failures-infra, infra}

-- Two rounds of the same test, with the same result.
abbrev use_row : String → Row
use_row id = record {
  type = some "assistant";
  timestamp = some 10;
  content = some (tool_use (some "Bash") "{\"command\": \"pytest\"}" (some id) ∷ []);
}

abbrev result_row : String → Row
result_row id = record {
  type = some "user";
  timestamp = some 11;
  content = some (tool_result (some id) true "one test failed" ∷ []);
}

abbrev transcript : List Row
transcript = use_row "a" ∷ result_row "a" ∷ use_row "b" ∷ result_row "b" ∷ []

finds_circle : detect_loop transcript (some 5) 2 ≡ some same_command
unfolding detect_loop find_circle calls_of read_items read_item append_call set_last last_n
    all_calls
finds_circle = refl

finds_no_circle : detect_loop transcript (some 5) 3 ≡ none
unfolding detect_loop find_circle calls_of read_items read_item append_call set_last last_n
    all_calls from_failed
finds_no_circle = refl

detect_loop_iff_example : (is_some (detect_loop transcript (some 5) 2) ≡ true) ↔ (
    (2 ≤ 2)
    × (Repeats 2 (calls_of (some 5) transcript [])
        ⊎ FailsAgain 2 (calls_of (some 5) transcript [])))
detect_loop_iff_example = detect_loop_iff transcript (some 5) 2

abbrev never : String → Bool
never log = false

abbrev names_reset : String → Bool
names_reset log = str_eq log "connection reset by peer"

abbrev no_tests : String → List String
no_tests log = []

abbrev lost_connection : List (Option String)
lost_connection = some "connection reset by peer" ∷ []

classify_failures-infra_example :
    ((classify_failures never names_reset no_tests lost_connection).kind ≡ infra)
    ↔ ((lost_connection ≢ []) × All (IsFlaky never names_reset no_tests) lost_connection)
classify_failures-infra_example = classify_failures-infra never names_reset no_tests lost_connection
