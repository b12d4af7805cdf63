-- ===== src/Jobs/Once.antt =====
-- core/job_claims.py: the first machine to create a window's ref holds it.
use ctrlrelay.Base.{
  ℕ, ◌≡◌, ◌≢◌, ◌⊎◌, refl, sym, Bool, true, false, not, ◌&&◌, String, Option, none, some, List, [],
  ◌∷◌, str_eq, eq_iff, eq_refl, find, any, delete, All, arith, Bool-cases, Option-cases, inl, inr,
  subst,
}
use ctrlrelay.Jobs.Claimer.{
  is_blank, is_nested, Ref, JobClaim, Luck, is_ref, Created, created, exists_already, raises, send,
  create_ref, owner_name, name_in, ref_owner, is_old, is_over, is_pruned, prune, by_owner,
  after_create, after_blob, claim,
}

find-delete_off :
    (p q : Ref → Bool) (refs : List Ref)
    → ((r : Ref) → p r ≡ true → q r ≡ false)
    → find p (delete q refs) ≡ find p refs
unfolding find delete
find-delete_off p q [] off = refl
find-delete_off p q (r ∷ refs) off = ground (arith, off r, find-delete_off p q refs off)

any-find : (p : Ref → Bool) (refs : List Ref) {r : Ref} → find p refs ≡ some r → any p refs ≡ true
unfolding find any
any-find p [] e = cc
any-find p (x ∷ refs) {r} e = ground (arith, any-find p refs {r = r})

is_ref-window : (job w : String) (r : Ref) → is_ref job w r ≡ true → r.window ≡ w
is_ref-window job w r h = ground (arith, eq_iff r.window w)

-- The window's ref names this machine, as the others read it.
abbrev pub IsHeldBy : String → String → String → List Ref → Type 0
IsHeldBy job w n refs = (r : Ref) × (find (is_ref job w) refs ≡ some r) × (owner_name r.text ≡ n)

module _ (minutes : String → Option ℕ) where
  is_old_self : (w : String) → is_old minutes w w ≡ false
  is_old_self w = rw (never (minutes w)) (and-false (not (is_blank w)) (not (is_nested w)))
    where
      never : (m : Option ℕ) → is_over m m ≡ false
      never none = refl
      never (some m) = ground arith

      and-false : (a b : Bool) → (a && b && false) ≡ false
      and-false a b = ground arith

  prune-IsHeldBy :
      (luck : Luck) (job' current job w n : String) (refs : List Ref)
      → is_old minutes current w ≡ false
      → IsHeldBy job w n refs
      → IsHeldBy job w n (prune minutes luck job' current refs)
  unfolding prune
  prune-IsHeldBy luck job' current job w n refs young (r, e, name) =
      elim (Bool-cases luck.list_fails) [
        | inl fails ↦ rw fails (r, e, name)
        | inr listed ↦
            rw
              (
                listed,
                find-delete_off (is_ref job w) (is_pruned minutes luck job' current) refs off,
              )
              (r, e, name)
      ]
    where
      off : (x : Ref) → is_ref job w x ≡ true → is_pruned minutes luck job' current x ≡ false
      off x h = rw (is_ref-window job w x h, young) (ground arith)

  create_ref-IsHeldBy :
      (luck : Luck) (x : Ref) (job w n : String) (refs : List Ref)
      → IsHeldBy job w n refs
      → IsHeldBy job w n (create_ref luck x refs).1
  unfolding create_ref find any
  create_ref-IsHeldBy luck x job w n refs (r, e, name) = elim (Option-cases luck.create_fails) [
    | inr (err, fails) ↦ rw fails (r, e, name)
    | inl goes ↦ rw goes (sent (any (is_ref x.job x.window) refs) refl luck.answer_lost)
  ]
    where
      beside :
          (is_ref job w x ≡ true) ⊎ (is_ref job w x ≡ false)
          → any (is_ref x.job x.window) refs ≡ false
          → find (is_ref job w) (x ∷ refs) ≡ some r
      beside (inr other) at = rw other e
      beside (inl same) at =
          let jobs : x.job ≡ job = ground (arith, eq_iff x.job job) in
          let windows : x.window ≡ w = is_ref-window job w x same in
          let there : any (is_ref job w) refs ≡ true = any-find (is_ref job w) refs e in
          let no : true ≡ false = rw (← there, ← jobs, ← windows) at in cc

      sent :
          (there : Bool)
          → any (is_ref x.job x.window) refs ≡ there
          → (lost : Option String) → IsHeldBy job w n (send none lost there x refs).1
      sent true at lost = (r, e, name)
      sent false at lost = (r, beside (Bool-cases (is_ref job w x)) at, name)

  -- No claim, of whatever machine and job, takes a window away, unless it is so late that it prunes it.
  claim-IsHeldBy :
      (luck : Luck) (node window job' job w n : String) (refs : List Ref)
      → is_old minutes window w ≡ false
      → IsHeldBy job w n refs
      → IsHeldBy job w n (claim minutes luck node window job' refs).1
  unfolding claim
  claim-IsHeldBy luck node window job' job w n refs young held = blob luck.blob_fails
    where
      after :
          (c : Created × List Ref)
          → IsHeldBy job w n c.1
          → IsHeldBy job w n (after_create minutes luck node window job' c).1
      after (raises e, refs') h = h
      after (created, refs') h = prune-IsHeldBy luck job' window job w n refs' young h
      after (exists_already, refs') h = h

      blob :
          (o : Option String) → IsHeldBy job w n (after_blob minutes o luck node window job' refs).1
      blob (some err) = held
      blob none = after (create_ref luck _ refs) (create_ref-IsHeldBy luck _ job w n refs held)

  -- The window that a machine wins has its name.
  claim-won :
      (luck : Luck) (n w job : String) (refs : List Ref)
      → owner_name n ≡ n
      → n ≢ "unknown"
      → (claim minutes luck n w job refs).0.won ≡ true
      → IsHeldBy job w n (claim minutes luck n w job refs).1
  unfolding claim create_ref ref_owner find
  claim-won luck n w job refs fits known = blob luck.blob_fails
    where
      mine : Ref
      mine = record { job = job; window = w; text = n }

      named :
          (o : Option Ref) (refs' : List Ref)
          → find (is_ref job w) refs' ≡ o
          → str_eq (name_in o) n ≡ true
          → IsHeldBy job w n refs'
      named none refs' e h = absurd (known (sym ((eq_iff "unknown" n).0 h)))
      named (some r) refs' e h = (r, e, (eq_iff (owner_name r.text) n).0 h)

      by :
          (owner : String)
          → ref_owner luck job w refs ≡ owner
          → (str_eq owner n ≡ true) ⊎ (str_eq owner n ≡ false)
          → (by_owner minutes n owner).won ≡ true
          → IsHeldBy job w n refs
      by owner e (inr other) h = let no : false ≡ true = rw other at h in cc
      by owner e (inl mine) h = elim (Bool-cases luck.owner_fails) [
        | inl fails ↦
            let away : "unknown" ≡ owner = rw fails at e in
            absurd (known (sym (rw (sym away) at ((eq_iff owner n).0 mine))))
        | inr read ↦
            let name : name_in (find (is_ref job w) refs) ≡ owner = rw read at e in
            named (find (is_ref job w) refs) refs refl (rw (name, mine) refl)
      ]

      sent :
          (o lost : Option String) (there : Bool)
          → any (is_ref job w) refs ≡ there
          → (after_create minutes luck n w job (send o lost there mine refs)).0.won ≡ true
          → IsHeldBy job w n (after_create minutes luck n w job (send o lost there mine refs)).1
      sent (some e) lost there at h = cc
      sent none (some e) true at h = cc
      sent none (some e) false at h = cc
      sent none none false at h =
          prune-IsHeldBy luck job w job w n (mine ∷ refs) (is_old_self w)
            (mine, rw (eq_refl job, eq_refl w) refl, fits)
      sent none none true at h =
          by (ref_owner luck job w refs) refl (Bool-cases (str_eq (ref_owner luck job w refs) n)) h

      blob :
          (o : Option String)
          → (after_blob minutes o luck n w job refs).0.won ≡ true
          → IsHeldBy job w n (after_blob minutes o luck n w job refs).1
      blob (some e) h = cc
      blob none h = sent luck.create_fails luck.answer_lost (any (is_ref job w) refs) refl h

-- A claim of some machine, for a job and a window.
pub record Attempt : Type 0 where
  pub luck : Luck
  pub claimant : String
  pub job : String
  pub window : String

module _ (minutes : String → Option ℕ) where
  abbrev pub claim_by : Attempt → List Ref → JobClaim × List Ref
  claim_by a = claim minutes a.luck a.claimant a.window a.job

  -- The refs after the claims, in this order.
  unfoldable pub after_claims : List Attempt → List Ref → List Ref
  after_claims [] refs = refs
  after_claims (a ∷ later) refs = after_claims later (claim_by a refs).1

  after_claims-IsHeldBy :
      (later : List Attempt) (job w n : String) (refs : List Ref)
      → All (λ a. is_old minutes a.window w ≡ false) later
      → IsHeldBy job w n refs
      → IsHeldBy job w n (after_claims later refs)
  unfolding after_claims
  after_claims-IsHeldBy [] job w n refs young held = held
  after_claims-IsHeldBy (a ∷ later) job w n refs (h, hs) held =
      after_claims-IsHeldBy later job w n (claim_by a refs).1 hs
        (claim-IsHeldBy minutes a.luck a.claimant a.window a.job job w n refs h held)

  IsHeldBy-unique :
      (job w n m : String) (refs : List Ref) → IsHeldBy job w n refs → IsHeldBy job w m refs → n ≡ m
  IsHeldBy-unique job w n m refs (r, e, name) (r', e', name') =
      let same : r ≡ r' = cc in rw (← name, same, name') refl

  -- A job runs on one machine in a window: where a claim is won, whatever claims of other machines
  -- follow and whatever errors they meet, only that machine wins a claim of the same job and window
  -- again. The claims between are for windows that do not prune this one, by being 30 days later;
  -- the names are what the others can read of them, not cut at 100 characters, and not "unknown".
  pub won_by_one :
      (a b : Attempt) (later : List Attempt) (refs : List Ref)
      → a.job ≡ b.job
      → a.window ≡ b.window
      → owner_name a.claimant ≡ a.claimant
      → owner_name b.claimant ≡ b.claimant
      → a.claimant ≢ "unknown"
      → b.claimant ≢ "unknown"
      → All (λ c. is_old minutes c.window a.window ≡ false) later
      → (claim_by a refs).0.won ≡ true
      → (claim_by b (after_claims later (claim_by a refs).1)).0.won ≡ true
      → a.claimant ≡ b.claimant
  won_by_one a b later refs jobs windows fits fits' known known' young won won' =
      let before = after_claims later (claim_by a refs).1 in
      let held = claim-won minutes a.luck a.claimant a.window a.job refs fits known won in
      let kept =
        after_claims-IsHeldBy later a.job a.window a.claimant (claim_by a refs).1 young held in
      let still =
        claim-IsHeldBy minutes b.luck b.claimant b.window b.job a.job a.window a.claimant before
          (rw windows (is_old_self minutes b.window)) kept in
      let mine = claim-won minutes b.luck b.claimant b.window b.job before fits' known' won' in
      let refs' : List Ref = (claim_by b before).1 in
      let same_job : IsHeldBy b.job a.window a.claimant refs' =
        subst (λ j. IsHeldBy j a.window a.claimant refs') jobs still in
      let same_window : IsHeldBy b.job b.window a.claimant refs' =
        subst (λ w. IsHeldBy b.job w a.claimant refs') windows same_job in
      IsHeldBy-unique b.job b.window a.claimant b.claimant refs' same_window mine
