-- ===== src/Bridge/Store.antt =====
-- The tables of ui/worker/migrations/0003_bridge_enrollment.sql that the bridge handlers use,
-- and the rows of `configs` as far as they read them.
use benis_phone.Common.{ℕ, String, Option, List}
use benis_phone.Common.Text.{Text}

pub data Status : Type 0 where
  pending approved denied expired : Status

pub record Enrollment : Type 0 where
  pub request_id : String
  pub config_name : String
  pub public_key : String
  pub fingerprint : Text
  pub hostname : String
  pub platform : String
  pub version : String
  pub created_at : ℕ
  pub expires_at : ℕ
  pub status : Status
  pub decided_at : Option ℕ
  pub bridge_id : Option String

pub record Bridge : Type 0 where
  pub bridge_id : String
  pub config_name : String
  pub public_key : String
  pub fingerprint : Text
  pub approved_at : ℕ
  pub last_seen : Option ℕ
  pub revoked_at : Option ℕ

pub record Nonce : Type 0 where
  pub bridge_id : String
  pub nonce : String
  pub expires_at : ℕ

pub record Config : Type 0 where
  pub name : String
  pub registration_id : String

pub record Store : Type 0 where
  pub configs : List Config
  pub enrollments : List Enrollment
  pub bridges : List Bridge
  pub nonces : List Nonce
