-- ===== src/Jobs/Claimer.antt =====
-- core/job_claims.py: a machine claims a job for one window by creating a ref.
use Prim.Native.String.{len, slice, find as text_find}
use ctrlrelay.Base.{
  ◌==◌, ℕ, ◌+◌, ◌*◌, Bool, true, false, not, ◌&&◌, String, Option, none, some, List, ◌∷◌, str_eq,
  ltb, leb, find, any, delete, if◌then◌else◌,
}

-- A ref of the repository named `refs/ctrlrelay/claims/<job>/<window>`, with the text of the blob that it
-- points at, without the end of the line.
pub record Ref : Type 0 where
  pub job : String
  pub window : String
  pub text : String

pub record JobClaim : Type 0 where
  pub won : Bool
  pub owner : Option String
  pub error : Option String

-- What GitHub does with the calls of one claim: an error is raised where there is one. The creation of
-- the ref can raise an error before or after GitHub has created it.
pub record Luck : Type 0 where
  pub blob_fails : Option String
  pub create_fails : Option String
  pub answer_lost : Option String
  pub owner_fails : Bool
  pub list_fails : Bool
  pub delete_fails : String → Bool

abbrev pub keep_days : ℕ
keep_days = 30

abbrev pub is_ref : String → String → Ref → Bool
is_ref job window r = str_eq r.job job && str_eq r.window window

-- What `create_ref` comes to.
pub data Created : Type 0 where
  created : Created
  exists_already : Created
  raises : String → Created

abbrev pub told : Option String → Created → Created
told none c = c
told (some e) c = raises e

abbrev pub send : Option String → Option String → Bool → Ref → List Ref → Created × List Ref
send (some e) lost there r refs = (raises e, refs)
send none lost true r refs = (told lost exists_already, refs)
send none lost false r refs = (told lost created, r ∷ refs)

unfoldable pub create_ref : Luck → Ref → List Ref → Created × List Ref
create_ref luck r refs =
    send luck.create_fails luck.answer_lost (any (is_ref r.job r.window) refs) r refs

-- `name[:100] or "unknown"`.
unfoldable pub owner_name : String → String
owner_name text = let name = slice text 0 100 in if len name == 0 then "unknown" else name

abbrev pub name_in : Option Ref → String
name_in none = "unknown"
name_in (some r) = owner_name r.text

unfoldable pub ref_owner : Luck → String → String → List Ref → String
ref_owner luck job window refs =
    if luck.owner_fails then "unknown" else name_in (find (is_ref job window) refs)

-- `when` is at least `KEEP_DAYS` before `now`, both in minutes.
abbrev pub is_over : Option ℕ → Option ℕ → Bool
is_over none when = false
is_over (some now) none = false
is_over (some now) (some when) = leb (when + keep_days * 1440) now

-- "/" in window.
abbrev pub is_nested : String → Bool
is_nested window = ltb (text_find window "/") (len window)

abbrev pub is_blank : String → Bool
is_blank window = len window == 0

-- `minutes` reads a window's name as a time.
module _ (minutes : String → Option ℕ) where
  abbrev pub is_old : String → String → Bool
  is_old current window =
      not (is_blank window) && not (is_nested window) && is_over (minutes current) (minutes window)

  abbrev pub is_pruned : Luck → String → String → Ref → Bool
  is_pruned luck job current r =
      str_eq r.job job && is_old current r.window && not (luck.delete_fails r.window)

  unfoldable pub prune : Luck → String → String → List Ref → List Ref
  prune luck job current refs =
      if luck.list_fails then refs else delete (is_pruned luck job current) refs

  abbrev pub failed : String → JobClaim
  failed e = record { won = false; owner = none; error = some e }

  abbrev pub won_it : JobClaim
  won_it = record { won = true; owner = none; error = none }

  abbrev pub lost_to : String → JobClaim
  lost_to owner = record { won = false; owner = some owner; error = none }

  abbrev pub by_owner : String → String → JobClaim
  by_owner node owner = if str_eq owner node then won_it else lost_to owner

  abbrev pub after_create :
      Luck → String → String → String → Created × List Ref → JobClaim × List Ref
  after_create luck node window job (raises e, refs) = (failed e, refs)
  after_create luck node window job (created, refs) = (won_it, prune luck job window refs)
  after_create luck node window job (exists_already, refs) =
      (by_owner node (ref_owner luck job window refs), refs)

  abbrev pub after_blob :
      Option String → Luck → String → String → String → List Ref → JobClaim × List Ref
  after_blob (some e) luck node window job refs = (failed e, refs)
  after_blob none luck node window job refs =
      after_create luck node window job
        (create_ref luck record { job = job; window = window; text = node } refs)

  unfoldable pub claim : Luck → String → String → String → List Ref → JobClaim × List Ref
  claim luck node window job refs = after_blob luck.blob_fails luck node window job refs
