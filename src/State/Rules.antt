-- ===== src/State/Rules.antt =====
-- core/state.py: how a fact is carried through a method, whatever the database answers.
use ctrlrelay.Base.{
  none, ℕ, ◌≡◌, ◌⊎◌, inl, inr, Bool, true, false, Option, some, arith, ltb, subst, sym, not,
}
use ctrlrelay.Sqlite.{
  Outcome, ok, raised, Conn, M, write, commit, rollback, ◌>>=◌, ◌>>◌, pure, when, on_error,
  and_then, handled,
}
use ctrlrelay.State.Rows.{Db}
use ctrlrelay.State.Sessions.{update_then, both_changes, follow, settle, second_change, undo_if}
use ctrlrelay.State.Pending.{changed}

-- The connection after a call, whether it returned or raised.
abbrev pub after : {A : Type 0} → M Db A → Conn Db → Conn Db
after m c = (m c).1

-- A fact about what is saved and about what the connection sees.
pub record Both (P : Db → Type 0) (c : Conn Db) : Type 0 where
  pub saved : P c.saved
  pub current : P c.current

-- A statement that never fails a constraint and keeps a fact.
abbrev pub Keeps : (P : Db → Type 0) → (Db → Option (ℕ × Db)) → Type 0
Keeps P statement = (d : Db) → P d → (n : ℕ) × (d' : Db) × (statement d ≡ some (n, d')) × P d'

one_of : {D : Type 0} (P : D → Type 0) {x a b : D} → P a → P b → (x ≡ a) ⊎ (x ≡ b) → P x
one_of P pa pb (inl e) = subst P (sym e) pa
one_of P pa pb (inr e) = subst P (sym e) pb

write-ends :
    {D : Type 0} (s : D → Option (ℕ × D)) (c : Conn D) (n : ℕ) (d : D)
    → s c.current ≡ some (n, d)
    → ((write s c).1.saved ≡ c.saved)
      × (((write s c).1.current ≡ c.current) ⊎ ((write s c).1.current ≡ d))
unfolding write
write-ends s c n d e = ground arith

pub write-Both :
    (P : Db → Type 0) (s : Db → Option (ℕ × Db)) (c : Conn Db)
    → Keeps P s
    → Both P c
    → Both P (after (write s) c)
write-Both P s c keep h =
    let (n, d, e, p) = keep c.current h.current in
    let (same, ends) = write-ends s c n d e in
    record { saved = subst P (sym same) h.saved; current = one_of P h.current p ends }

-- A statement that may fail a constraint, and otherwise keeps a fact.
abbrev pub KeepsOrFails : (P : Db → Type 0) → (Db → Option (ℕ × Db)) → Type 0
KeepsOrFails P statement =
    (d : Db)
    → P d
    → (statement d ≡ none) ⊎ ((n : ℕ) × (d' : Db) × (statement d ≡ some (n, d')) × P d')

write-fails :
    {D : Type 0} (s : D → Option (ℕ × D)) (c : Conn D)
    → s c.current ≡ none
    → ((write s c).1.saved ≡ c.saved) × ((write s c).1.current ≡ c.current)
unfolding write
write-fails s c e = ground arith

pub write-Both_or_fails :
    (P : Db → Type 0) (s : Db → Option (ℕ × Db)) (c : Conn Db)
    → KeepsOrFails P s
    → Both P c
    → Both P (after (write s) c)
write-Both_or_fails P s c keep h = elim (keep c.current h.current) [
  | inl e ↦
      let (saved, current) = write-fails s c e in
      record { saved = subst P (sym saved) h.saved; current = subst P (sym current) h.current }
  | inr (n, d, e, p) ↦
      let (same, ends) = write-ends s c n d e in
      record { saved = subst P (sym same) h.saved; current = one_of P h.current p ends }
]

commit-ends :
    {D : Type 0} (c : Conn D)
    → ((commit c).1.current ≡ c.current)
      × (((commit c).1.saved ≡ c.saved) ⊎ ((commit c).1.saved ≡ c.current))
unfolding commit
commit-ends c = ground arith

pub commit-Both : (P : Db → Type 0) (c : Conn Db) → Both P c → Both P (after commit c)
commit-Both P c h =
    let (same, ends) = commit-ends c in
    record { saved = one_of P h.saved h.current ends; current = subst P (sym same) h.current }

pub rollback-Both : (P : Db → Type 0) (c : Conn Db) → Both P c → Both P (after rollback c)
unfolding rollback
rollback-Both P c h = record { saved = h.saved; current = h.saved }

-- A program that keeps a fact, whatever its outcome.
abbrev pub Rule : {A : Type 0} (P : Db → Type 0) → M Db A → Type 0
Rule P m = (c : Conn Db) → Both P c → Both P (after m c)

and_then-Both :
    {A B : Type 0} (P : Db → Type 0) (r : Outcome A × Conn Db) (f : A → M Db B)
    → Both P r.1
    → ((a : A) → Rule P (f a))
    → Both P (and_then r f).1
and_then-Both P (ok a, c) f h k = k a c h
and_then-Both P (raised e, c) f h k = h

pub bind-Rule :
    {A B : Type 0} (P : Db → Type 0) (m : M Db A) (f : A → M Db B)
    → Rule P m
    → ((a : A) → Rule P (f a))
    → Rule P (m >>= f)
bind-Rule P m f h k c b = and_then-Both P (m c) f (h c b) k

pub pure-Rule : {A : Type 0} (P : Db → Type 0) (a : A) → Rule P (pure a)
pure-Rule P a c b = b

pub when-Rule : (P : Db → Type 0) (b : Bool) (m : M Db (Unit {0})) → Rule P m → Rule P (when b m)
when-Rule P true m h = h
when-Rule P false m h = λ c b. b

handled-Both :
    {A : Type 0} (P : Db → Type 0) (r : Outcome A × Conn Db) (handler : M Db (Unit {0}))
    → Both P r.1
    → Rule P handler
    → Both P (handled r handler).1
handled-Both P (ok a, c) handler h k = h
handled-Both P (raised e, c) handler h k = and_then-Both P (handler c) _ (k c h) (λ _ c b. b)

pub on_error-Rule :
    {A : Type 0} (P : Db → Type 0) (m : M Db A) (handler : M Db (Unit {0}))
    → Rule P m
    → Rule P handler
    → Rule P (on_error m handler)
on_error-Rule P m handler h k c b = handled-Both P (m c) handler (h c b) k

pub undo_if-Rule : (P : Db → Type 0) (ours : Bool) → Rule P (undo_if ours)
undo_if-Rule P ours c b = when-Rule P _ rollback (rollback-Both P) c b

-- One statement and its commit.
pub changed-Rule : (P : Db → Type 0) (s : Db → Option (ℕ × Db)) → Keeps P s → Rule P (changed s)
changed-Rule P s keep =
    bind-Rule P (write s) _ (λ c. write-Both P s c keep)
      (λ n. bind-Rule P commit _ (commit-Both P) (λ _. pure-Rule P (ltb 0 n)))

pub written-Rule :
    (P : Db → Type 0) (s : Db → Option (ℕ × Db)) → Keeps P s → Rule P (do write s; commit)
written-Rule P s keep = bind-Rule P (write s) _ (λ c. write-Both P s c keep) (λ n. commit-Both P)

-- Two statements in one transaction, the second only where the first changed a row.
both_changes-Rule :
    (P : Db → Type 0) (joined : Bool) (first second : Db → Option (ℕ × Db))
    → Keeps P first
    → Keeps P second
    → Rule P (both_changes joined first second)
both_changes-Rule P joined first second keep keep' =
    bind-Rule {B = Bool} P (write first) (follow joined second) (λ c. write-Both P first c keep)
      λ n.
        bind-Rule {B = Bool} P (when (ltb 0 n) (second_change second)) (λ _. settle joined n)
          (when-Rule P (ltb 0 n) (second_change second) (
            bind-Rule {B = Unit {0}} P (write second) (λ _. pure tt)
              (λ c. write-Both P second c keep') (λ _. pure-Rule P tt)))
          λ _.
            bind-Rule {B = Bool} P (when (not joined) commit) (λ _. pure (ltb 0 n))
              (when-Rule P (not joined) commit (commit-Both P)) (λ _. pure-Rule P (ltb 0 n))

pub update_then-Rule :
    (P : Db → Type 0) (first second : Db → Option (ℕ × Db))
    → Keeps P first
    → Keeps P second
    → Rule P (update_then first second)
update_then-Rule P first second keep keep' c b =
    on_error-Rule P (both_changes c.in_transaction first second) (undo_if (not c.in_transaction))
      (both_changes-Rule P c.in_transaction first second keep keep')
      (undo_if-Rule P (not c.in_transaction)) c b
