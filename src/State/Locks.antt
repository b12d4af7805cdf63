-- ===== src/State/Locks.antt =====
-- core/state.py: the repository locks, and the two methods that clear up after a dead run.
pub mod Held
pub mod Exclusive
use ctrlrelay.Base.{
  ℕ, Bool, true, false, ◌&&◌, String, Option, none, some, [], ◌∷◌, ◌++◌, if◌then◌else◌, str_eq, ltb,
  any, find, count, delete,
}
use ctrlrelay.Sqlite.{Error, Outcome, Conn, M, ◌>>=◌, ◌>>◌, pure, write, commit}
use ctrlrelay.State.Rows.{Lock, Db}

abbrev pub is_repo : String → Lock → Bool
is_repo repo l = str_eq l.repo repo

abbrev pub is_lock_of : String → String → Lock → Bool
is_lock_of repo session_id l = str_eq l.repo repo && str_eq l.session_id session_id

abbrev pub is_held_by : String → Lock → Bool
is_held_by session_id l = str_eq l.session_id session_id

-- INSERT INTO repo_locks; `repo` is the primary key.
unfoldable pub insert_lock : ℕ → String → String → Db → Option (ℕ × Db)
insert_lock now repo session_id d =
    if any (is_repo repo) d.repo_locks
    then none
    else some (
      1,
      record d {
        repo_locks =
            d.repo_locks ++ record { repo = repo; session_id = session_id; acquired_at = now } ∷ [];
      },
    )

abbrev pub delete_locks : (Lock → Bool) → Db → Option (ℕ × Db)
delete_locks p d = some (count p d.repo_locks, record d { repo_locks = delete p d.repo_locks })

abbrev refused_if_integrity : Outcome Bool × Conn Db → Outcome Bool × Conn Db
refused_if_integrity (Outcome.ok b, c) = (Outcome.ok b, c)
refused_if_integrity (Outcome.raised Error.integrity, c) = (Outcome.ok false, c)
refused_if_integrity (Outcome.raised e, c) = (Outcome.raised e, c)

unfoldable pub acquire_lock : ℕ → String → String → M Db Bool
unfolding insert_lock
acquire_lock now repo session_id c =
    refused_if_integrity ((do write (insert_lock now repo session_id); commit; pure true) c)

unfoldable pub release_lock : String → String → M Db Bool
release_lock repo session_id = do
  n ← write (delete_locks (is_lock_of repo session_id))
  commit
  pure (ltb 0 n)

unfoldable pub get_lock_holder : String → Db → Option String
get_lock_holder repo d = elim (find (is_repo repo) d.repo_locks) [
  | none ↦ none
  | some l ↦ some l.session_id
]
