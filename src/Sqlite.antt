-- ===== src/Sqlite.antt =====
-- What core/state.py uses of Python's sqlite3 module: one connection in its default isolation
-- level. The first INSERT, UPDATE or DELETE opens a transaction, which stays open, also after an
-- error, until `commit` or `rollback`. A statement or a commit fails when the database is busy.
use ctrlrelay.Base.{ℕ, Bool, true, false, Option, none, some, List, [], ◌∷◌, if◌then◌else◌}

pub data Error : Type 0 where
  -- `sqlite3.OperationalError`: the database is locked.
  operational : Error
  -- `sqlite3.IntegrityError`: a constraint failed.
  integrity : Error
  -- `ValueError`, raised by the caller's own checks.
  value_error : Error

pub data Outcome {ℓ} (A : Type ℓ) : Type ℓ where
  ok : A → Outcome A
  raised : Error → Outcome A

-- `saved` is what other connections see, `current` what this one sees. `busy` says of each further
-- statement that writes, and of each commit, whether it finds the database locked; past its end
-- none does.
pub record Conn (D : Type 0) : Type 0 where
  pub saved : D
  pub current : D
  pub in_transaction : Bool
  pub busy : List Bool

abbrev pub M : Type 0 → Type 0 → Type 0
M D A = Conn D → Outcome A × Conn D

module _ {D A B : Type 0} where
  abbrev pub and_then : Outcome A × Conn D → (A → M D B) → Outcome B × Conn D
  and_then (ok a, c) f = f a c
  and_then (raised e, c) f = (raised e, c)

  infixl 5 ◌>>=◌ ◌>>◌
  abbrev pub ◌>>=◌ : M D A → (A → M D B) → M D B
  ◌>>=◌ m f c = and_then (m c) f

  abbrev pub ◌>>◌ : M D A → M D B → M D B
  ◌>>◌ m k c = and_then (m c) (λ _. k)

-- Whether the next write finds the database locked, and what is left to be said of later ones.
abbrev is_busy : List Bool → Bool
is_busy [] = false
is_busy (b ∷ bs) = b

abbrev later : List Bool → List Bool
later [] = []
later (b ∷ bs) = bs

module _ {D : Type 0} where
  abbrev pub pure : {A : Type 0} → A → M D A
  pure a c = (ok a, c)

  -- `raise`.
  abbrev pub throw : {A : Type 0} → Error → M D A
  throw e c = (raised e, c)

  -- A statement that only reads opens no transaction.
  abbrev pub query : {A : Type 0} → (D → A) → M D A
  query f c = (ok (f c.current), c)

  -- `conn.in_transaction`.
  abbrev pub is_in_transaction : M D Bool
  is_in_transaction c = (ok c.in_transaction, c)

  abbrev apply_statement : Option (ℕ × D) → Conn D → Outcome ℕ × Conn D
  apply_statement none c = (raised integrity, c)
  apply_statement (some (n, d)) c = (ok n, record c { current = d })

  -- INSERT, UPDATE or DELETE: `rowcount` and the new contents, or `none` where a constraint fails.
  unfoldable pub write : (D → Option (ℕ × D)) → M D ℕ
  write statement c =
      let c' = record c { in_transaction = true; busy = later c.busy } in
      if is_busy c.busy then (raised operational, c') else apply_statement (statement c.current) c'

  unfoldable pub commit : M D (Unit {0})
  commit c =
      if is_busy c.busy
      then (raised operational, record c { busy = later c.busy })
      else (ok tt, record c { saved = c.current; in_transaction = false; busy = later c.busy })

  unfoldable pub rollback : M D (Unit {0})
  rollback c = (ok tt, record c { current = c.saved; in_transaction = false })

  -- `BEGIN IMMEDIATE` takes the write lock or fails, and then opens no transaction.
  unfoldable pub begin_immediate : M D (Unit {0})
  begin_immediate c =
      if is_busy c.busy
      then (raised operational, record c { busy = later c.busy })
      else (ok tt, record c { in_transaction = true; busy = later c.busy })

  abbrev pub handled : {A : Type 0} → Outcome A × Conn D → M D (Unit {0}) → Outcome A × Conn D
  handled (ok a, c) handler = (ok a, c)
  handled (raised e, c) handler = and_then (handler c) (λ _. throw e)

  -- `try: m; except BaseException: handler; raise`.
  abbrev pub on_error : {A : Type 0} → M D A → M D (Unit {0}) → M D A
  on_error m handler c = handled (m c) handler

  abbrev pub when : Bool → M D (Unit {0}) → M D (Unit {0})
  when true m = m
  when false m = pure tt
