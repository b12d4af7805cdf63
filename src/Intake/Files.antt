-- ===== src/Intake/Files.antt =====
-- core/intake_hold.py: the two small JSON files, and a hold as it stands in one.
use ctrlrelay.Base.{ℕ, Bool, String, Option, none, some, List, [], ◌∷◌, str_eq, find, if◌then◌else◌}

-- A value in a JSON object. No negative number is written, so that none is told apart from `other`.
pub data Json : Type 0 where
  bool : Bool → Json
  int : ℕ → Json
  text : String → Json
  other : Json

abbrev pub Fields : Type 0
Fields = List (String × Json)

-- What stands under a path. `damaged` is what cannot be read, is no JSON, or is no object.
pub data File : Type 0 where
  missing : File
  damaged : File
  object : Fields → File

-- `_read_json`, where it gives a dict.
abbrev pub read_json : File → Option Fields
read_json (object fields) = some fields
read_json f = none

abbrev pub second : Option (String × Json) → Option Json
second none = none
second (some (name, v)) = some v

-- `data.get(name)`.
unfoldable pub get : String → Fields → Option Json
get name fields = second (find (λ f. str_eq f.0 name) fields)

pub record Hold : Type 0 where
  pub token : String
  pub pid : ℕ
  pub reason : String
  pub placed_at : ℕ
  pub expires_at : ℕ

unfoldable pub to_json : Hold → Fields
to_json h =
    ("token", text h.token)
    ∷ ("pid", int h.pid)
    ∷ ("reason", text h.reason)
    ∷ ("placed_at", int h.placed_at)
    ∷ ("expires_at", int h.expires_at)
    ∷ []

abbrev pub as_text : Option Json → Option String
as_text (some (text t)) = some t
as_text v = none

abbrev pub as_int : Option Json → Option ℕ
as_int (some (int n)) = some n
as_int v = none

abbrev pub as_bool : Option Json → Option Bool
as_bool (some (bool b)) = some b
as_bool v = none

abbrev pub hold_from : Option String → Option ℕ → Option String → Option ℕ → Option ℕ → Option Hold
hold_from (some token) (some pid) (some reason) (some placed) (some expires) =
    if str_eq token ""
    then none
    else some record {
      token = token;
      pid = pid;
      reason = reason;
      placed_at = placed;
      expires_at = expires;
    }
hold_from token pid reason placed expires = none

unfoldable pub from_json : Option Fields → Option Hold
unfolding get
from_json none = none
from_json (some d) =
    hold_from (as_text (get "token" d)) (as_int (get "pid" d)) (as_text (get "reason" d))
      (as_int (get "placed_at" d)) (as_int (get "expires_at" d))
