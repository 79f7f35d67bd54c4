-- ===== src/OAuth/Store.antt =====
-- The tables of ui/worker/migrations/0004_mcp_oauth.sql and the rows of ui/worker/lib/oauth.ts.
use benis_phone.Common.{ℕ, Option, List}
use benis_phone.Common.Text.{Text}

pub data Status : Type 0 where
  pending approved denied expired : Status

pub data Kind : Type 0 where
  access refresh : Kind

pub record Client : Type 0 where
  pub client_id : Text
  pub client_name : Text
  pub redirect_uris : List Text
  pub created_at : ℕ

pub record AuthorizationRequest : Type 0 where
  pub request_id : Text
  pub client_id : Text
  pub redirect_uri : Text
  pub state : Option Text
  pub code_challenge : Text
  pub resource : Text
  pub scope : Text
  pub csrf_hash : Text
  pub created_at : ℕ
  pub expires_at : ℕ
  pub decided_at : Option ℕ
  pub status : Status

pub record Grant : Type 0 where
  pub grant_id : Text
  pub client_id : Text
  pub access_identity : Text
  pub scope : Text
  pub created_at : ℕ
  pub last_used_at : Option ℕ
  pub revoked_at : Option ℕ

pub record Code : Type 0 where
  pub code_hash : Text
  pub grant_id : Text
  pub client_id : Text
  pub redirect_uri : Text
  pub code_challenge : Text
  pub resource : Text
  pub expires_at : ℕ
  pub used_at : Option ℕ

pub record Token : Type 0 where
  pub token_hash : Text
  pub grant_id : Text
  pub kind : Kind
  pub created_at : ℕ
  pub expires_at : ℕ
  pub revoked_at : Option ℕ

pub record Store : Type 0 where
  pub clients : List Client
  pub requests : List AuthorizationRequest
  pub grants : List Grant
  pub codes : List Code
  pub tokens : List Token
