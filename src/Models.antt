-- ===== src/Models.antt =====
-- control_plane/delegates/models.py: the rows of the control plane's tables. The columns
-- `created_at` and `updated_at`, which Django fills and no operation reads, are left out.
pub mod Tables
use delegate_implementation.Base.{ℕ, ℤ, Text, List, Option, String, Error, Bool, true, false}

-- A part of an f-string: a literal, `{x}`, and what `repr` or a list's `str` prints.
pub data Piece : Type 0 where
  lit : String → Piece
  val repr : Text → Piece
  num : ℕ → Piece
  bool : Bool → Piece
  exception : Error → Piece
  texts : List Text → Piece
  options : List (Option Text) → Piece

abbrev pub Detail : Type 0
Detail = List Piece

pub record RegistrationToken : Type 0 where
  pub token : Text
  pub tenant_id : Text
  pub expires_at : ℕ
  pub used_at : Option ℕ

pub data DelegateStatus : Type 0 where
  active revoked : DelegateStatus

pub record Delegate : Type 0 where
  pub id : Text
  pub tenant_id : Text
  pub name : Text
  pub queue : Text
  pub concurrency : ℤ
  pub cert_serial : Text
  pub cert_pem : Text
  pub cert_expires_at : ℕ
  pub status : DelegateStatus

pub data ExecutionStatus : Type 0 where
  queued transferring transfer_failed running succeeded failed : ExecutionStatus

-- `status in TERMINAL_STATUSES`
unfoldable pub is_terminal : ExecutionStatus → Bool
is_terminal queued = false
is_terminal transferring = false
is_terminal transfer_failed = true
is_terminal running = false
is_terminal succeeded = true
is_terminal failed = true

pub record Execution : Type 0 where
  pub execution_id : Text
  pub tenant_id : Text
  -- the foreign key; `none` after its delegate is deleted
  pub delegate_id : Option Text
  pub workspace_fixture : Text
  pub status : ExecutionStatus
  pub transfer_id : Text
  pub transfer_attempts : ℕ
  pub output_path : Text
  pub output_checksum : Text

pub record ExecutionLog : Type 0 where
  pub execution_id : Text
  pub seq : ℕ
  pub line : Text

pub record AuditEvent : Type 0 where
  pub event_type : String
  pub tenant_id : Text
  pub delegate_id : Text
  pub execution_id : Text
  pub detail : Detail

-- The tables, each in the order of insertion.
pub record Db : Type 0 where
  pub tokens : List RegistrationToken
  pub delegates : List Delegate
  pub executions : List Execution
  pub logs : List ExecutionLog
  pub audits : List AuditEvent
