-- ===== src/Claims/Records.antt =====
-- core/claims.py: the comments of an issue, as the module reads them, and the claims in them. Of a
-- comment's text stands what the searches for the markers find in it. Times are in whole seconds.
use ctrlrelay.Base.{ℕ, Bool, String, Option, List}

-- The attributes of a claim marker; `replaces` is the list between its commas.
pub record Attrs : Type 0 where
  pub node : Option String
  pub id : Option String
  pub state : Option String
  pub replaces : List String
  pub run : Option String
  pub seen : Option ℕ

-- An author's login is in lower case and empty where GitHub names none; `id` is missing where it is
-- no number, and `written_at` is the comment's `updated_at or created_at`.
pub record Comment : Type 0 where
  pub author : String
  pub id : Option ℕ
  pub written_at : Option ℕ
  pub released : Option String
  pub dispatch_failed : Bool
  pub claimed : Option Attrs

pub record Claim : Type 0 where
  pub comment_id : ℕ
  pub node : String
  pub claim_id : Option String
  pub state : String
  pub updated_at : Option ℕ
  pub replaces : List String
  pub run : Option String
  pub seen : Option ℕ

-- `account` is in lower case, as `parse_claims` compares it.
pub record ClaimSettings : Type 0 where
  pub node : String
  pub account : String
  pub race_wait_seconds : ℕ
  pub refresh_seconds : ℕ
  pub stale_after_seconds : ℕ
