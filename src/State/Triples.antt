-- ===== src/State/Triples.antt =====
-- core/state.py: what a program returns, beside the fact that it keeps, whatever the database
-- answers.
use ctrlrelay.Base.{ℕ, arith, subst, Option, ◌≡◌, Bool, true, false}
use ctrlrelay.Sqlite.{
  throw, handled, Outcome, ok, raised, Conn, M, ◌>>=◌, pure, query, write, commit, begin_immediate,
  and_then, when,
}
use ctrlrelay.State.Rows.{Db}
use ctrlrelay.State.Sessions.{undo_if}
use ctrlrelay.State.Health.{transaction_unless, own_transaction}
use ctrlrelay.State.Rules.{Both, Keeps, write-Both, commit-Both, undo_if-Rule}

abbrev pub Returns : {A : Type 0} (Q : A → Type 0) → Outcome A → Type 0
Returns Q (ok a) = Q a
Returns Q (raised e) = Unit

-- From a connection where the fact holds, the program keeps it, and a value that it returns is such.
abbrev pub Triple : {A : Type 0} (P : Db → Type 0) → M Db A → (A → Type 0) → Type 0
Triple P m Q = (c : Conn Db) → Both P c → Both P (m c).1 × Returns Q (m c).0

abbrev pub Any : {A : Type 0} → A → Type 0
Any a = Unit {0}

begin_same :
    (c : Conn Db)
    → (c.saved ≡ (begin_immediate c).1.saved) × (c.current ≡ (begin_immediate c).1.current)
unfolding begin_immediate
begin_same c = ground arith

module _ (P : Db → Type 0) where
  and_then-Triple :
      {A B : Type 0} (r : Outcome A × Conn Db) (f : A → M Db B) (Q : A → Type 0) (R : B → Type 0)
      → Both P r.1 × Returns Q r.0
      → ((a : A) → Q a → Triple P (f a) R)
      → Both P (and_then r f).1 × Returns R (and_then r f).0
  and_then-Triple (ok a, c) f Q R (h, q) k = k a q c h
  and_then-Triple (raised e, c) f Q R (h, q) k = (h, tt)

  pub bind-Triple :
      {A B : Type 0} (m : M Db A) (f : A → M Db B) (Q : A → Type 0) (R : B → Type 0)
      → Triple P m Q
      → ((a : A) → Q a → Triple P (f a) R)
      → Triple P (m >>= f) R
  bind-Triple m f Q R h k c b = and_then-Triple (m c) f Q R (h c b) k

  Any-value : {A : Type 0} (o : Outcome A) → Returns Any o
  Any-value (ok a) = tt
  Any-value (raised e) = tt

  pub write-Triple : (s : Db → Option (ℕ × Db)) → Keeps P s → Triple P (write s) Any
  write-Triple s keep c b = (write-Both P s c keep b, Any-value (write s c).0)

  pub commit-Triple : Triple P commit Any
  commit-Triple c b = (commit-Both P c b, Any-value (commit c).0)

  begin_immediate-Triple : Triple P begin_immediate Any
  begin_immediate-Triple c b =
      let (saved, current) = begin_same c in
      (
        record { saved = subst P saved b.saved; current = subst P current b.current },
        Any-value (begin_immediate c).0,
      )

  handled-Triple :
      {A : Type 0} (r : Outcome A × Conn Db) (Q : A → Type 0)
      → Both P r.1 × Returns Q r.0
      → Both P (handled r (undo_if true)).1 × Returns Q (handled r (undo_if true)).0
  handled-Triple (ok a, c) Q h = h
  handled-Triple (raised e, c) Q (b, _) =
      and_then-Triple (undo_if true c) (λ _. throw e) Any Q
        (undo_if-Rule P true c b, Any-value (undo_if true c).0) (λ _ _ c b. (b, tt))

  transaction_unless-Triple :
      {A : Type 0} (joined : Bool) (body : M Db A) (Q : A → Type 0)
      → Triple P body Q
      → Triple P (transaction_unless joined body) Q
  transaction_unless-Triple true body Q h c b = h c b
  transaction_unless-Triple false body Q h c b =
      and_then-Triple (begin_immediate c) _ Any Q (begin_immediate-Triple c b) (λ _ _ c b.
        handled-Triple _ Q (
          bind-Triple body _ Q Q h
            (λ a q. bind-Triple commit (λ _. pure a) Any Q commit-Triple (λ _ _ c b. (b, q))) c b))

  pub own_transaction-Triple :
      {A : Type 0} (body : M Db A) (Q : A → Type 0)
      → Triple P body Q
      → Triple P (own_transaction body) Q
  own_transaction-Triple body Q h c b = transaction_unless-Triple c.in_transaction body Q h c b

  pub query-Triple :
      {A : Type 0} (f : Db → A) (Q : A → Type 0) → ((d : Db) → P d → Q (f d)) → Triple P (query f) Q
  query-Triple f Q h c b = (b, h c.current b.current)

  pub pure-Triple : {A : Type 0} (a : A) (Q : A → Type 0) → Q a → Triple P (pure a) Q
  pure-Triple a Q q c b = (b, q)

  pub when-Triple :
      (test : Bool) (m : M Db (Unit {0})) → Triple P m Any → Triple P (when test m) Any
  when-Triple true m h c b = h c b
  when-Triple false m h c b = (b, tt)
