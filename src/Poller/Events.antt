-- ===== src/Poller/Events.antt =====
-- core/poller.py: who assigned an issue or labelled it, by the events that GitHub keeps.
use ctrlrelay.Base.{
  Bool, true, false, not, ◌&&◌, ◌||◌, String, Option, none, some, List, [], ◌∷◌, map, str_eq, any,
  or_else, if◌then◌else◌,
}

-- The accounts and the labels that a repository is configured with. Lists of labels are as configured;
-- `lower` is the method of a text.
pub record Settings : Type 0 where
  pub lower : String → String
  pub username : String
  pub allowed_accounts : String → List String
  pub accepts_foreign : String → Bool
  pub exclude_labels : String → List String
  pub include_labels : String → List String
  pub require_labels : String → List String

-- An `assigned` event: the logins of the account that was assigned and of the one that did it.
pub record Assignment : Type 0 where
  pub assignee : Option String
  pub assigner : Option String

pub record Labelling : Type 0 where
  pub label : Option String
  pub actor : Option String

-- `list_assignment_events` and `list_label_events`: the events in order, or an error.
pub data EventsRead (A : Type 0) : Type 0 where
  events : List A → EventsRead A
  unreadable : EventsRead A

abbrev pub contains : String → List String → Bool
contains t ts = any (λ s. str_eq s t) ts

abbrev pub lowered : Settings → List String → List String
lowered s labels = map s.lower labels

abbrev pub is_no_text : String → Bool
is_no_text t = str_eq t ""

unfoldable pub is_allowed : Settings → String → Option String → Bool
is_allowed s repo none = false
is_allowed s repo (some login) =
    not (is_no_text login)
    && (str_eq (s.lower login) (s.lower s.username)
        || contains (s.lower login) (s.allowed_accounts repo))

abbrev pub login_or_empty : Option String → String
login_or_empty login = or_else login ""

abbrev pub is_mine : Settings → Assignment → Bool
is_mine s e = str_eq (s.lower (login_or_empty e.assignee)) (s.lower s.username)

abbrev pub names_nobody : Assignment → Bool
names_nobody e = is_no_text (login_or_empty e.assignee)

abbrev pub later_or : {A : Type 0} → Option A → Option A → Option A
later_or (some a) b = some a
later_or none b = b

-- What stands after the last entry that a test holds of, and that entry.
unfoldable pub after_last : {A : Type 0} → (A → Bool) → List A → Option (List A)
after_last p [] = none
after_last p (x ∷ xs) = let rest = after_last p xs in later_or rest (if p x then some xs else none)

unfoldable pub last_of : {A : Type 0} → (A → Bool) → List A → Option A
last_of p [] = none
last_of p (x ∷ xs) = let rest = last_of p xs in later_or rest (if p x then some x else none)

abbrev pub assigner_of : Option Assignment → Option String
assigner_of none = none
assigner_of (some e) = e.assigner

-- Whether the last assignment of the operator's account was made by an account that may.
abbrev pub assigned_by_allowed : Settings → String → List Assignment → Bool
assigned_by_allowed s repo es =
    if any names_nobody (or_else (after_last (is_mine s) es) es)
    then false
    else is_allowed s repo (assigner_of (last_of (is_mine s) es))

-- What the assignment check of `poll` comes to.
pub data AssignmentCheck : Type 0 where
  accepted : AssignmentCheck
  foreign : AssignmentCheck
  check_failed : AssignmentCheck

abbrev pub as_check : Bool → AssignmentCheck
as_check true = accepted
as_check false = foreign

abbrev pub check_events : Settings → String → EventsRead Assignment → AssignmentCheck
check_events s repo unreadable = check_failed
check_events s repo (events es) = as_check (assigned_by_allowed s repo es)

unfoldable pub is_self_assigned : Settings → String → EventsRead Assignment → AssignmentCheck
is_self_assigned s repo read = if s.accepts_foreign repo then accepted else check_events s repo read

abbrev pub is_label : Settings → String → Labelling → Bool
is_label s wanted e = str_eq (s.lower (login_or_empty e.label)) wanted

abbrev pub actor_of : Option Labelling → Option String
actor_of none = none
actor_of (some e) = e.actor

abbrev pub added_by : Settings → List Labelling → String → Option String
added_by s es wanted = actor_of (last_of (is_label s wanted) es)

unfoldable pub label_added_by_self : Settings → String → List String → EventsRead Labelling → Bool
label_added_by_self s repo labels unreadable = false
label_added_by_self s repo labels (events es) =
    any (λ wanted. is_allowed s repo (added_by s es wanted)) (lowered s labels)
