-- ===== src/Intake/Quiet.antt =====
-- core/intake_hold.py: what the updater may conclude from an acknowledgement.
use ctrlrelay.Base.{
  ◌<◌, ℕ, ◌+◌, ◌≤◌, ◌≡◌, ◌≢◌, refl, sym, ap, Bool, true, false, not, ◌&&◌, String, Option, none,
  some, str_eq, eq_iff, eq_refl, find, ltb, leb, ◌==◌, Bool-cases, inl, inr, arith, ◌∙◌,
}
use ctrlrelay.Intake.Files.{File, missing, read_json, get, Hold, to_json, from_json}
use ctrlrelay.Intake.Hold.{
  Node, Ack, set_files, drop, new_hold, place_hold, release_hold, is_others, read_ack, in_force,
  active, begin, begin_unless, end_work, ack_fields, acknowledge, acknowledge_hold,
}

-- A hold that was written is read back as it was placed.
from_json-to_json : (h : Hold) → h.token ≢ "" → from_json (some (to_json h)) ≡ some h
unfolding from_json to_json get find
from_json-to_json h named = elim (Bool-cases (str_eq h.token "")) [
  | inl blank ↦ absurd (named ((eq_iff h.token "").0 blank))
  | inr given ↦ rw given refl
]

-- ... and never under another token.
token-from_json : (h h' : Hold) → from_json (some (to_json h)) ≡ some h' → h'.token ≡ h.token
unfolding from_json to_json get find
token-from_json h h' e = elim (Bool-cases (str_eq h.token "")) [
  | inl blank ↦ let no : none ≡ some h' = rw blank at e in cc
  | inr given ↦ let same : some h ≡ some h' = rw given at e in cc
]

-- A hold in force is the one in the file.
in_force-some :
    (o : Option Hold) (now : ℕ) (alive : ℕ → Bool) {h : Hold}
    → in_force o now alive ≡ some h
    → o ≡ some h
in_force-some none now alive e = cc
in_force-some (some g) now alive {h} e = elim (Bool-cases (leb g.expires_at now)) [
  | inl over ↦ let no : none ≡ some h = rw over at e in cc
  | inr lasts ↦ elim (Bool-cases (alive g.pid)) [
    | inl lives ↦ rw (lasts, lives) at e
    | inr dead ↦ let no : none ≡ some h = rw (lasts, dead) at e in cc
  ]
]

-- It was in force before, as time passes and processes die.
in_force-before :
    (o : Option Hold) (now later : ℕ) (alive alive' : ℕ → Bool) {h : Hold}
    → now ≤ later
    → ((p : ℕ) → alive' p ≡ true → alive p ≡ true)
    → in_force o later alive' ≡ some h
    → in_force o now alive ≡ some h
in_force-before none now later alive alive' le was e = cc
in_force-before (some g) now later alive alive' {h} le was e =
    elim (Bool-cases (leb g.expires_at later)) [
      | inl over ↦ let no : none ≡ some h = rw over at e in cc
      | inr lasts ↦ elim (Bool-cases (alive' g.pid)) [
        | inr dead ↦ let no : none ≡ some h = rw (lasts, dead) at e in cc
        | inl lives ↦
            let lasted : leb g.expires_at now ≡ false = ground arith in
            rw (lasted, was g.pid lives) (rw (lasts, lives) at e)
      ]
    ]

-- An acknowledgement that is read was there before a removal.
read_ack-drop :
    (drops : Bool) (f : File) (token : String) {a : Ack}
    → read_ack token (read_json (drop drops f)) ≡ some a
    → read_ack token (read_json f) ≡ some a
unfolding read_ack
read_ack-drop true f token e = cc
read_ack-drop false f token e = e

-- What the updaters, the poller, the clock and the end of a process do, in any order. A Boolean says
-- whether a call on a file succeeds.
pub data Step : Type 0 where
  placed : Bool → Bool → String → ℕ → String → ℕ → Step
  released : Bool → Bool → Option String → Step
  begun : Step
  ended : Step
  acknowledged : Bool → Step
  passes : ℕ → Step
  dies : ℕ → Step

abbrev pub wait : ℕ → Node → Node
wait seconds n = record {
  hold_file = n.hold_file;
  ack_file = n.ack_file;
  in_flight = n.in_flight;
  now = n.now + seconds;
  alive = n.alive;
}

abbrev pub kill : ℕ → Node → Node
kill pid n = record {
  hold_file = n.hold_file;
  ack_file = n.ack_file;
  in_flight = n.in_flight;
  now = n.now;
  alive = λ p. n.alive p && not (p == pid);
}

unfoldable pub take : Step → Node → Node
take (placed drops writes token pid reason seconds) n =
    place_hold drops writes token pid reason seconds n
take (released drops drops_ack token) n = release_hold drops drops_ack token n
take begun n = (begin n).1
take ended n = end_work n
take (acknowledged writes) n = acknowledge writes n
take (passes seconds) n = wait seconds n
take (dies pid) n = kill pid n

-- A token is random: the one of a new hold is in no acknowledgement.
abbrev pub MayTake : Step → Node → Type 0
MayTake (placed drops writes token pid reason seconds) n =
    read_ack token (read_json n.ack_file) ≡ none
MayTake s n = Unit

pub data Steps (n : Node) : Node → Type 0 where
  start : Steps n n
  next : {m : Node} → Steps n m → (s : Step) → MayTake s m → Steps n (take s m)

-- Where the hold in force was acknowledged as not busy, nothing is in flight.
abbrev IsQuiet : Node → Type 0
IsQuiet n =
    (h : Hold) (a : Ack)
    → active n ≡ some h
    → read_ack h.token (read_json n.ack_file) ≡ some a
    → a.busy ≡ false
    → n.in_flight ≡ 0

place_hold-IsQuiet :
    (drops writes : Bool) (token : String) (pid : ℕ) (reason : String) (seconds : ℕ) (n : Node)
    → read_ack token (read_json n.ack_file) ≡ none
    → IsQuiet n
    → IsQuiet (place_hold drops writes token pid reason seconds n)
unfolding place_hold active
place_hold-IsQuiet drops false token pid reason seconds n fresh quiet h a act ack idle =
    quiet h a act (read_ack-drop drops n.ack_file h.token ack) idle
place_hold-IsQuiet drops true token pid reason seconds n fresh quiet h a act ack idle =
    let there =
      in_force-some (from_json (some (to_json (new_hold token pid reason seconds n.now)))) n.now
        n.alive act in
    let same : h.token ≡ token =
      token-from_json (new_hold token pid reason seconds n.now) h there in
    let was : read_ack token (read_json n.ack_file) ≡ some a =
      rw same at (read_ack-drop drops n.ack_file h.token ack) in
    let no : none ≡ some a = rw fresh at was in cc

release_hold-IsQuiet :
    (drops drops_ack : Bool) (token : Option String) (n : Node)
    → IsQuiet n
    → IsQuiet (release_hold drops drops_ack token n)
unfolding release_hold active from_json
release_hold-IsQuiet drops drops_ack token n quiet =
    elim (Bool-cases (is_others token (from_json (read_json n.hold_file)))) [
      | inl others ↦ rw others quiet
      | inr own ↦ rw own (removed drops)
    ]
  where
    removed :
        (drops : Bool) → IsQuiet (set_files (drop drops n.hold_file) (drop drops_ack n.ack_file) n)
    removed true h a act ack idle = cc
    removed false h a act ack idle =
        quiet h a act (read_ack-drop drops_ack n.ack_file h.token ack) idle

begin-IsQuiet : (n : Node) → IsQuiet n → IsQuiet (begin n).1
unfolding begin active
begin-IsQuiet n quiet = begun_at (active n) refl
  where
    begun_at : (o : Option Hold) → active n ≡ o → IsQuiet (begin_unless o n).1
    begun_at (some hold) e = quiet
    begun_at none e = λ h a act ack idle. let no : none ≡ some h = rw e at act in cc

acknowledge-IsQuiet : (writes : Bool) (n : Node) → IsQuiet n → IsQuiet (acknowledge writes n)
unfolding acknowledge active read_ack get find
acknowledge-IsQuiet writes n quiet = acknowledged_at (active n) refl writes
  where
    own : Hold → Ack
    own h = record { token = h.token; busy = ltb 0 n.in_flight; at = n.now }

    wrote :
        (hold h : Hold) (a : Ack)
        → active n ≡ some hold
        → active n ≡ some h
        → read_ack h.token (some (ack_fields hold n)) ≡ some a
        → a.busy ≡ false
        → n.in_flight ≡ 0
    wrote hold h a e act ack idle =
        let same : hold ≡ h = cc in
        let told : read_ack h.token (some (ack_fields h n)) ≡ some (own h) =
          rw (eq_refl h.token) refl in
        let read : read_ack h.token (some (ack_fields h n)) ≡ some a = rw same at ack in
        let mine : some (own h) ≡ some a = sym told ∙ read in
        let ours : own h ≡ a = cc in
        let busy : ltb 0 n.in_flight ≡ a.busy = ap (λ (x : Ack). x.busy) ours in ground arith

    acknowledged_at :
        (o : Option Hold) → active n ≡ o → (writes : Bool) → IsQuiet (acknowledge_hold writes o n)
    acknowledged_at none e writes = quiet
    acknowledged_at (some hold) e false = quiet
    acknowledged_at (some hold) e true = λ h a act ack idle. wrote hold h a e act ack idle

take-IsQuiet : (s : Step) (n : Node) → MayTake s n → IsQuiet n → IsQuiet (take s n)
unfolding take end_work active
take-IsQuiet (placed drops writes token pid reason seconds) n fresh quiet =
    place_hold-IsQuiet drops writes token pid reason seconds n fresh quiet
take-IsQuiet (released drops drops_ack token) n may quiet =
    release_hold-IsQuiet drops drops_ack token n quiet
take-IsQuiet begun n may quiet = begin-IsQuiet n quiet
take-IsQuiet ended n may quiet =
    λ h a act ack idle. let none_before : n.in_flight ≡ 0 = quiet h a act ack idle in omega arith
take-IsQuiet (acknowledged writes) n may quiet = acknowledge-IsQuiet writes n quiet
take-IsQuiet (passes seconds) n may quiet = λ h a act ack idle.
    quiet h a
      (in_force-before (from_json (read_json n.hold_file)) n.now (n.now + seconds) n.alive n.alive
        (omega arith) (λ p lives. lives) act)
      ack idle
take-IsQuiet (dies pid) n may quiet = λ h a act ack idle.
    quiet h a
      (in_force-before (from_json (read_json n.hold_file)) n.now n.now n.alive _ (omega arith)
        (λ p lives. ground arith) act)
      ack idle

Steps-IsQuiet : {n m : Node} → Steps n m → IsQuiet n → IsQuiet m
Steps-IsQuiet start quiet = quiet
Steps-IsQuiet (next {m = m} steps s may) quiet = take-IsQuiet s m may (Steps-IsQuiet steps quiet)

-- From a node without acknowledgement, whatever the updaters and the poller do and whichever of their
-- calls on the files fail: where the hold in force is one whose acknowledgement says "not busy", no
-- work is in flight, and none begins while that hold is in force. So its updater may restart the
-- poller.
pub acknowledged_idle_is_quiet :
    (n m : Node)
    → n.ack_file ≡ missing
    → Steps n m
    → (h : Hold) (a : Ack) → active m ≡ some h
    → read_ack h.token (read_json m.ack_file) ≡ some a
    → a.busy ≡ false
    → (m.in_flight ≡ 0) × (begin m ≡ (some h, m))
unfolding begin read_ack
acknowledged_idle_is_quiet n m clean steps h a act ack idle = (
  Steps-IsQuiet steps (λ h' a' act' ack' idle'. let no : none ≡ some a' = rw clean at ack' in cc) h
      a act ack idle,
  rw act refl,
)

-- What an updater places the poller reads back, field by field, as the hold in force, as long as the
-- updater lives and less than its seconds have passed.
pub active-place_hold :
    (drops : Bool) (token : String) (pid : ℕ) (reason : String) (seconds passed : ℕ) (n : Node)
    → token ≢ ""
    → n.alive pid ≡ true
    → passed < seconds
    → active (wait passed (place_hold drops true token pid reason seconds n))
      ≡ some (new_hold token pid reason seconds n.now)
unfolding active place_hold
active-place_hold drops token pid reason seconds passed n named lives early =
    let lasts : leb (n.now + seconds) (n.now + passed) ≡ false = ground arith in
    rw (from_json-to_json (new_hold token pid reason seconds n.now) named, lasts, lives) refl
