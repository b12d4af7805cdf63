-- ===== src/Intake/Hold.antt =====
-- core/intake_hold.py: both sides of the hold, the updater's and the poller's.
use ctrlrelay.Base.{
  ℕ, ◌+◌, ◌-◌, Bool, false, not, String, Option, none, some, [], ◌∷◌, str_eq, ltb, leb,
  if◌then◌else◌,
}
use ctrlrelay.Intake.Files.{
  File, Fields, missing, object, bool, int, text, read_json, get, as_text, as_int, as_bool, Hold,
  to_json, from_json,
}

-- The two files, the work that the poller has in flight, the clock, and which processes live.
pub record Node : Type 0 where
  pub hold_file : File
  pub ack_file : File
  pub in_flight : ℕ
  pub now : ℕ
  pub alive : ℕ → Bool

pub record Ack : Type 0 where
  pub token : String
  pub busy : Bool
  pub at : ℕ

abbrev pub set_files : File → File → Node → Node
set_files hold ack n = record {
  hold_file = hold;
  ack_file = ack;
  in_flight = n.in_flight;
  now = n.now;
  alive = n.alive;
}

abbrev pub set_in_flight : ℕ → Node → Node
set_in_flight k n = record {
  hold_file = n.hold_file;
  ack_file = n.ack_file;
  in_flight = k;
  now = n.now;
  alive = n.alive;
}

-- `_drop`: a file that cannot be removed stays. `_write_json`: it replaces the file or leaves it.
abbrev pub drop : Bool → File → File
drop ok f = if ok then missing else f

abbrev pub write_json : Bool → Fields → File → File
write_json ok fields f = if ok then object fields else f

abbrev pub new_hold : String → ℕ → String → ℕ → ℕ → Hold
new_hold token pid reason seconds now = record {
  token = token;
  pid = pid;
  reason = reason;
  placed_at = now;
  expires_at = now + seconds;
}

-- The updater. The Booleans say whether the removals and the write succeed.
unfoldable pub place_hold : Bool → Bool → String → ℕ → String → ℕ → Node → Node
place_hold drops writes token pid reason seconds n =
    set_files (write_json writes (to_json (new_hold token pid reason seconds n.now)) n.hold_file)
      (drop drops n.ack_file) n

abbrev pub is_others : Option String → Option Hold → Bool
is_others none current = false
is_others (some token) none = false
is_others (some token) (some h) = not (str_eq h.token token)

unfoldable pub release_hold : Bool → Bool → Option String → Node → Node
release_hold drops drops_ack token n =
    if is_others token (from_json (read_json n.hold_file))
    then n
    else set_files (drop drops n.hold_file) (drop drops_ack n.ack_file) n

abbrev pub ack_of : String → Option Bool → Option ℕ → Option Ack
ack_of token (some busy) (some at) = some record { token = token; busy = busy; at = at }
ack_of token busy at = none

abbrev pub is_token : String → Option String → Bool
is_token token none = false
is_token token (some t) = str_eq t token

unfoldable pub read_ack : String → Option Fields → Option Ack
read_ack token none = none
read_ack token (some d) =
    if is_token token (as_text (get "token" d))
    then ack_of token (as_bool (get "busy" d)) (as_int (get "at" d))
    else none

-- The poller.
abbrev pub in_force : Option Hold → ℕ → (ℕ → Bool) → Option Hold
in_force none now alive = none
in_force (some h) now alive =
    if leb h.expires_at now then none else if not (alive h.pid) then none else some h

unfoldable pub active : Node → Option Hold
active n = in_force (from_json (read_json n.hold_file)) n.now n.alive

abbrev pub begin_unless : Option Hold → Node → Option Hold × Node
begin_unless (some hold) n = (some hold, n)
begin_unless none n = (none, set_in_flight (n.in_flight + 1) n)

unfoldable pub begin : Node → Option Hold × Node
begin n = begin_unless (active n) n

-- `max(0, in_flight - 1)`.
unfoldable pub end_work : Node → Node
end_work n = set_in_flight (n.in_flight - 1) n

abbrev pub ack_fields : Hold → Node → Fields
ack_fields hold n =
    ("token", text hold.token) ∷ ("busy", bool (ltb 0 n.in_flight)) ∷ ("at", int n.now) ∷ []

abbrev pub acknowledge_hold : Bool → Option Hold → Node → Node
acknowledge_hold writes none n = n
acknowledge_hold writes (some hold) n =
    set_files n.hold_file (write_json writes (ack_fields hold n) n.ack_file) n

unfoldable pub acknowledge : Bool → Node → Node
acknowledge writes n = acknowledge_hold writes (active n) n
