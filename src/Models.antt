-- ===== src/Models.antt =====
-- backend/app/models/*.py: the rows of the tables, and the database as their lists, in the order of
-- insertion. An id is a number where the source has a UUID; times are in microseconds. Of users and
-- organizations the columns `created_at` and `updated_at`, which only order listings, are left out.
use ai_inference_platform.Prelude.{
  ℕ, String, Bool, true, false, Option, List, [], Text, text_eq, ◌≡◌, ◌↔◌, arith, text_eq_iff,
}

-- A user's role is a string; the code compares it with four values.
pub data Role : Type 0 where
  platform_admin org_admin operator viewer : Role
  custom : Text → Role

unfoldable pub role_eq : Role → Role → Bool
role_eq platform_admin platform_admin = true
role_eq org_admin org_admin = true
role_eq operator operator = true
role_eq viewer viewer = true
role_eq (custom s) (custom t) = text_eq s t
role_eq _ _ = false

pub data AuthProvider : Type 0 where
  local google : AuthProvider

pub record Org : Type 0 where
  pub id : ℕ
  pub name : Text
  pub slug : Text
  pub rate_limit_rpm : ℕ
  pub rate_limit_burst : ℕ
  pub is_active : Bool

pub record User : Type 0 where
  pub id : ℕ
  pub org_id : ℕ
  pub name : Text
  pub email : Text
  pub password_hash : Option Text
  pub google_id : Option Text
  pub profile_picture : Option Text
  pub auth_provider : AuthProvider
  pub role : Role
  pub is_active : Bool
  pub is_verified : Bool
  pub password_set : Bool
  pub last_login_at : Option ℕ

pub record ApiKey : Type 0 where
  pub id : ℕ
  pub org_id : ℕ
  pub created_by_user_id : ℕ
  pub name : Text
  pub key_hash : Text
  pub key_prefix : Text
  pub is_active : Bool
  pub expires_at : Option ℕ
  pub last_used_at : Option ℕ
  pub created_at : ℕ

pub data Purpose : Type 0 where
  signup forgot_password : Purpose

unfoldable pub purpose_eq : Purpose → Purpose → Bool
purpose_eq signup signup = true
purpose_eq forgot_password forgot_password = true
purpose_eq _ _ = false

pub record Otp : Type 0 where
  pub id : ℕ
  pub email : Text
  pub otp_hash : Text
  pub purpose : Purpose
  pub expires_at : ℕ
  pub attempts : ℕ
  pub verified : Bool
  pub created_at : ℕ

pub record UsageLog : Type 0 where
  pub id : ℕ
  pub org_id : ℕ
  pub api_key_id : Option ℕ
  pub user_id : Option ℕ
  pub model_name : Text
  pub request_id : Text
  pub prompt_tokens : ℕ
  pub completion_tokens : ℕ
  pub total_tokens : ℕ
  pub duration_ms : ℕ
  pub ttft_ms : Option ℕ
  pub status : String
  pub error_code : Option String
  pub created_at : ℕ

pub record Conversation : Type 0 where
  pub id : ℕ
  pub user_id : ℕ
  pub title : Text
  pub model_name : Option Text
  pub created_at : ℕ
  pub updated_at : ℕ

pub record ChatMessage : Type 0 where
  pub id : ℕ
  pub conversation_id : ℕ
  pub user_id : ℕ
  pub role : Text
  pub content : Text
  pub position : ℕ
  pub created_at : ℕ

pub record Db : Type 0 where
  pub orgs : List Org
  pub users : List User
  pub api_keys : List ApiKey
  pub otps : List Otp
  pub usage_logs : List UsageLog
  pub conversations : List Conversation
  pub messages : List ChatMessage

abbrev pub empty_db : Db
empty_db = record {
  orgs = [];
  users = [];
  api_keys = [];
  otps = [];
  usage_logs = [];
  conversations = [];
  messages = [];
}

pub role_eq_iff : (r s : Role) → (role_eq r s ≡ true) ↔ (r ≡ s)
unfolding role_eq
role_eq_iff (custom s) (custom t) = ground (arith, text_eq_iff s t)
role_eq_iff platform_admin platform_admin = ground arith
role_eq_iff _ _ = ground arith

pub purpose_eq_iff : (p q : Purpose) → (purpose_eq p q ≡ true) ↔ (p ≡ q)
unfolding purpose_eq
purpose_eq_iff signup signup = ground arith
purpose_eq_iff forgot_password forgot_password = ground arith
purpose_eq_iff _ _ = ground arith
