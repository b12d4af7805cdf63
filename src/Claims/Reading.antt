-- ===== src/Claims/Reading.antt =====
-- core/claims.py: which claims stand, and whose the issue is.
use ctrlrelay.Base.{
  ℕ, ◌+◌, Bool, false, not, ◌&&◌, String, Option, none, some, List, [], ◌∷◌, ◌++◌, str_eq, leb,
  text_is, any, select, delete, sort_by, is_none, is_some, or_else, if◌then◌else◌,
}
use ctrlrelay.Claims.Records.{Attrs, Comment, Claim, ClaimSettings}

abbrev pub unknown_node : String
unknown_node = "unknown"

abbrev pub working : String
working = "working"

abbrev pub held : String
held = "held"

-- `Claim.stale_at`.
unfoldable pub stale_at : ℕ → Claim → Option ℕ
stale_at stale_after c =
    if str_eq c.state working
    then elim c.updated_at [ none ↦ none | some t ↦ some (t + stale_after) ]
    else none

-- `stale_at is not None and now >= stale_at`.
abbrev pub is_past : ℕ → Option ℕ → Bool
is_past now none = false
is_past now (some t) = leb t now

unfoldable pub is_stale : ℕ → ℕ → Claim → Bool
unfolding stale_at
is_stale stale_after now c = is_past now (stale_at stale_after c)

-- A claim of a version that named no machine, or one that cannot be read.
abbrev pub unnamed_claim : ℕ → Claim
unnamed_claim comment_id = record {
  comment_id = comment_id;
  node = unknown_node;
  claim_id = none;
  state = held;
  updated_at = none;
  replaces = [];
  run = none;
  seen = none;
}

-- The claim of a comment with a claim marker.
unfoldable pub claim_of : Option ℕ → Option String → Option ℕ → Attrs → Claim
claim_of none _ written_at attrs = unnamed_claim 0
claim_of (some comment_id) none written_at attrs = unnamed_claim comment_id
claim_of (some comment_id) (some named) written_at attrs = record {
  comment_id = comment_id;
  node = named;
  claim_id = attrs.id;
  state = or_else attrs.state held;
  updated_at = written_at;
  replaces = attrs.replaces;
  run = attrs.run;
  seen = attrs.seen;
}

-- What one comment of the relay's own account does to the claims before it.
unfoldable pub read_comment : List Claim → Comment → List Claim
unfolding claim_of
read_comment claims comment = elim comment.released [
  | some gone ↦ delete (λ c. text_is c.claim_id gone) claims
  | none ↦
      if comment.dispatch_failed
      then delete (λ c. is_none c.claim_id) claims
      else elim comment.claimed [
        | none ↦ claims
        | some attrs ↦ claims ++ claim_of comment.id attrs.node comment.written_at attrs ∷ []
      ]
]

-- The loop of `parse_claims`.
unfoldable pub read_on : String → List Claim → List Comment → List Claim
unfolding read_comment
read_on account claims [] = claims
read_on account claims (x ∷ xs) =
    let next = if str_eq x.author account then read_comment claims x else claims in
    read_on account next xs

unfoldable pub parse_claims : List Comment → String → List Claim
parse_claims comments account = read_on account [] comments

-- Whether a claim is named in some other's `replaces`: `claim.claim_id in _replaced_ids(claims)`.
unfoldable pub has_id : Option String → List String → Bool
has_id none ids = false
has_id (some id) ids = any (str_eq id) ids

-- `_replaced_ids`, as a list of all the names.
unfoldable pub replaced_ids : List Claim → List String
replaced_ids [] = []
replaced_ids (c ∷ cs) = c.replaces ++ replaced_ids cs

abbrev pub is_live : List String → ℕ → ℕ → Claim → Bool
is_live replaced stale_after now c =
    not (has_id c.claim_id replaced) && not (is_stale stale_after now c)

unfoldable pub live_claims : List Comment → ClaimSettings → ℕ → List Claim
live_claims comments settings now =
    let claims = parse_claims comments settings.account in
    sort_by (λ c. c.comment_id)
      (select (is_live (replaced_ids claims) settings.stale_after_seconds now) claims)

abbrev pub owner_of : String → List Claim → Option Claim
owner_of node [] = none
owner_of node (c ∷ cs) = if str_eq c.node node then none else some c

unfoldable pub other_owner : List Comment → ClaimSettings → ℕ → Option Claim
other_owner comments settings now = owner_of settings.node (live_claims comments settings now)

-- A claim of another machine that went stale.
abbrev pub may_take_over : ClaimSettings → ℕ → Claim → Bool
may_take_over settings now c =
    not (str_eq c.node settings.node)
    && is_some c.claim_id
    && is_stale settings.stale_after_seconds now c

-- `_stale_claims`.
unfoldable pub stale_claims : List Comment → ClaimSettings → ℕ → List Claim
stale_claims comments settings now =
    select (may_take_over settings now) (parse_claims comments settings.account)
