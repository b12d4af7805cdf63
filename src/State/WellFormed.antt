-- ===== src/State/WellFormed.antt =====
-- core/state.py: which states the rows of `pending_resumes` can be in.
use ctrlrelay.Sqlite.{Conn}
use ctrlrelay.State.Lifecycle.Steps.{run-Both, Preserved}
use ctrlrelay.State.Lifecycle.{
  unnote_answer, note_answer, note_issue, prune, resume, expire, take, answer, run, park, ask, Op,
}
use ctrlrelay.State.Sweep.{
  is_to_execute, last_activity, list_pending_resumes_to_execute, is_prunable,
  list_unanswered_pending_resumes, prune_rows,
}
use ctrlrelay.State.Sessions.{update_sessions}
use mathlib.Core.List.{Memᴰ}
use ctrlrelay.Base.Members.{
  mem-All, mem-find, mem-select, mem-select_inv, mem-sort_by, mem-sort_by_inv, All-mem,
}
use ctrlrelay.Base.{
  str_eq, some, ◌≤◌, ◌↔◌, eq_iff, sym, any, Option, ℕ, if◌then◌else◌, ◌||◌, ◌≡◌, refl, Bool, true,
  ◌&&◌, none, List, [], ◌∷◌, ◌++◌, arith, All, String, is_some, update, delete, count, Bool-cases,
  inl, inr,
}
use ctrlrelay.Base.Keyed.{row, delete-IsUnique, append-IsUnique, IsUnique, update-IsUnique}
use ctrlrelay.State.Rows.{Session, Db, Pending}
use ctrlrelay.State.Rules.{Both, Keeps}
use ctrlrelay.State.Pending.{rewritten, new_row, upsert_row, is_open, is_row, update_row}
use ctrlrelay.State.Facts.{session_key}

-- A row is answered exactly when it holds an answer; an expired row has none; an executed one has.
abbrev pub IsWellFormed : Pending → Type 0
IsWellFormed r =
    (is_some r.answer ≡ is_some r.answered_at)
    × (is_some r.expired_at ≡ true → r.answered_at ≡ none)
    × (is_some r.resumed_at ≡ true → is_some r.answered_at ≡ true)

pub record IsSound (d : Db) : Type 0 where
  pub unique : IsUnique session_key d.pending_resumes
  pub rows : All IsWellFormed d.pending_resumes

module _ (P : Pending → Type 0) where
  update-All :
      (p : Pending → Bool) (f : Pending → Pending) (xs : List Pending)
      → ((x : Pending) → P x → p x ≡ true → P (f x))
      → All P xs
      → All P (update p f xs)
  unfolding update
  update-All p f [] keep h = tt
  update-All p f (x ∷ xs) keep (h, hs) = elim (Bool-cases (p x)) [
    | inl hit ↦ rw hit (keep x h hit, update-All p f xs keep hs)
    | inr miss ↦ rw miss (h, update-All p f xs keep hs)
  ]

  delete-All : (p : Pending → Bool) (xs : List Pending) → All P xs → All P (delete p xs)
  unfolding delete
  delete-All p [] h = tt
  delete-All p (x ∷ xs) (h, hs) = elim (Bool-cases (p x)) [
    | inl hit ↦ rw hit (delete-All p xs hs)
    | inr miss ↦ rw miss (h, delete-All p xs hs)
  ]

  append-All : (xs : List Pending) (x : Pending) → All P xs → P x → All P (xs ++ x ∷ [])
  append-All [] x h px = (px, tt)
  append-All (y ∷ xs) x (h, hs) px = (h, append-All xs x hs px)

update_row-IsSound :
    (k : String) (g : Pending → Bool) (f : Pending → Pending)
    → ((x : Pending) → (f x).session_id ≡ x.session_id)
    → ((x : Pending) → IsWellFormed x → g x ≡ true → IsWellFormed (f x))
    → Keeps IsSound (update_row k g f)
update_row-IsSound k g f same keep d h =
    let p = λ (r : Pending). is_row k r && g r in
    (
      count p d.pending_resumes,
      record d { pending_resumes = update p f d.pending_resumes },
      refl,
      record {
        unique = update-IsUnique session_key p f d.pending_resumes (λ x _. same x) h.unique;
        rows =
            update-All IsWellFormed p f d.pending_resumes (λ x w hit. keep x w (ground arith))
              h.rows;
      },
    )

update_sessions-IsSound :
    (p : Session → Bool) (f : Session → Session) → Keeps IsSound (update_sessions p f)
update_sessions-IsSound p f d h = (
  count p d.sessions,
  record d { sessions = update p f d.sessions },
  refl,
  record { unique = h.unique; rows = h.rows },
)

prune_rows-IsSound : (ts : ℕ) → Keeps IsSound (prune_rows ts)
unfolding prune_rows
prune_rows-IsSound ts d h =
    let p = is_prunable ts in
    (
      count p d.pending_resumes,
      record d { pending_resumes = delete p d.pending_resumes },
      refl,
      record {
        unique = delete-IsUnique session_key p d.pending_resumes h.unique;
        rows = delete-All IsWellFormed p d.pending_resumes h.rows;
      },
    )

upsert_row-IsSound :
    (now : ℕ) (k pipeline repo question : String) (held : Option ℕ) (posted : Option Bool)
    → Keeps IsSound (upsert_row (new_row now k pipeline repo question held posted))
unfolding upsert_row
upsert_row-IsSound now k pipeline repo question held posted d h =
    let new = new_row now k pipeline repo question held posted in
    elim (Bool-cases (any (is_row k) d.pending_resumes)) [
      | inl there ↦ (
        1,
        record d { pending_resumes = update (is_row k) (rewritten new) d.pending_resumes },
        rw there,
        record {
          unique =
              update-IsUnique session_key (is_row k) (rewritten new) d.pending_resumes
                (λ x e. sym ((eq_iff x.session_id k).0 e)) h.unique;
          rows =
              update-All IsWellFormed (is_row k) (rewritten new) d.pending_resumes
                (λ x w hit. (refl, λ e. refl, λ e. cc)) h.rows;
        },
      )
      | inr absent ↦ (
        1,
        record d { pending_resumes = d.pending_resumes ++ new ∷ [] },
        rw absent,
        record {
          unique = append-IsUnique session_key new d.pending_resumes absent h.unique;
          rows = append-All IsWellFormed d.pending_resumes new h.rows (refl, λ e. refl, λ e. cc);
        },
      )
    ]

Op-IsSound : (op : Op) → Preserved IsSound op
Op-IsSound (ask now k pipeline repo question held posted) =
    upsert_row-IsSound now k pipeline repo question held posted
Op-IsSound (park now k pipeline repo question) =
    (update_sessions-IsSound _ _, upsert_row-IsSound now k pipeline repo question none none)
Op-IsSound (answer now k _ source by ref) =
    update_row-IsSound k _ _ (λ x. refl) (λ x w g. ground arith)
Op-IsSound (take now k _) =
    (update_row-IsSound k _ _ (λ x. refl) (λ x w g. ground arith), update_sessions-IsSound _ _)
Op-IsSound (expire now k _) = update_row-IsSound k _ _ (λ x. refl) (λ x w g. ground arith)
Op-IsSound (resume now k none given) = update_row-IsSound k _ _ (λ x. refl) (λ x w g. ground arith)
Op-IsSound (resume now k (some at) given) =
    update_row-IsSound k _ _ (λ x. refl) (λ x w g. ground arith)
Op-IsSound (prune ts) = prune_rows-IsSound ts
Op-IsSound (note_issue k _ _ _) = update_row-IsSound k _ _ (λ x. refl) (λ x w g. w)
Op-IsSound (note_answer now k _) = update_row-IsSound k _ _ (λ x. refl) (λ x w g. w)
Op-IsSound (unnote_answer k _) = update_row-IsSound k _ _ (λ x. refl) (λ x w g. w)

run-IsSound : (ops : List Op) (c : Conn Db) → Both IsSound c → Both IsSound (run ops c)
run-IsSound ops = run-Both IsSound ops (each ops)
  where
    each : (ops : List Op) → All (Preserved IsSound) ops
    each [] = tt
    each (op ∷ ops) = (Op-IsSound op, each ops)

-- How far a question has come.
pub data Phase : Type 0 where
  opened : Phase
  to_execute : Phase
  finished : Phase

-- Finished as the prune says it: expired or executed.
abbrev pub is_finished : Pending → Bool
is_finished r = is_some r.expired_at || is_some r.resumed_at

abbrev pub phase : Pending → Phase
phase r = if is_finished r then finished else if is_some r.answered_at then to_execute else opened

-- The row is in the list of its phase, and in no other.
abbrev pub InOnePhase : Db → Pending → Type 0
InOnePhase d r =
    (Memᴰ r (list_unanswered_pending_resumes d) ↔ (phase r ≡ opened))
    × (Memᴰ r (list_pending_resumes_to_execute d) ↔ (phase r ≡ to_execute))
    × ((ts : ℕ) → (is_prunable ts r ≡ true) ↔ ((phase r ≡ finished) × (last_activity r ≤ ts)))

one_phase : (d : Db) (r : Pending) → IsSound d → Memᴰ r d.pending_resumes → InOnePhase d r
unfolding list_unanswered_pending_resumes list_pending_resumes_to_execute
one_phase d r s m = (
  (
    λ l.
        let (_, h) = mem-select_inv is_open d.pending_resumes (mem-sort_by_inv _ _ l) in
        ground (arith, well),
    λ e. mem-sort_by _ _ (mem-select is_open d.pending_resumes m (ground (arith, well))),
  ),
  (
    λ l.
        let (_, h) = mem-select_inv is_to_execute d.pending_resumes (mem-sort_by_inv _ _ l) in
        ground (arith, well),
    λ e. mem-sort_by _ _ (mem-select is_to_execute d.pending_resumes m (ground (arith, well))),
  ),
  λ ts. (λ h. ground (arith, well), λ h. ground (arith, well)),
)
  where
    well : IsWellFormed r
    well = All-mem IsWellFormed d.pending_resumes s.rows m

pub row-IsWellFormed :
    (sid : String) (d : Db) {r : Pending}
    → IsSound d
    → row session_key sid d.pending_resumes ≡ some r
    → IsWellFormed r
unfolding row
row-IsWellFormed sid d {r} s e =
    let (m, _) = mem-find (λ x. str_eq (session_key x) sid) d.pending_resumes r e in
    All-mem IsWellFormed d.pending_resumes s.rows m

-- The table stays sound through any calls, in any order, whatever the locked database refuses:
-- one row for a session, answered exactly when it holds an answer, never answered and expired,
-- never executed without an answer. And then each row is in exactly one of three lists: the open
-- questions that a reply is routed to, the answers that the sweeper executes, and the finished rows
-- that a prune may delete.
pub run-InOnePhase :
    (ops : List Op) (c : Conn Db)
    → Both IsSound c
    → Both IsSound (run ops c)
      × All (InOnePhase (run ops c).current) (run ops c).current.pending_resumes
run-InOnePhase ops c sound =
    let kept = run-IsSound ops c sound in
    (kept, mem-All _ _ (λ r m. one_phase (run ops c).current r kept.current m))
