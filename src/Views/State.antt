-- ===== src/Views/State.antt =====
-- What the views act on and what they answer.
use delegate_implementation.Base.{
  codes, ℕ, Text, List, [], ◌∷◌, Option, none, some, Bool, String, lookup, is_empty, Error,
  if◌then◌else◌,
}
use delegate_implementation.Platform.{Fields}
use delegate_implementation.Models.{Db, Detail, AuditEvent, Execution}
use delegate_implementation.Models.Tables.{add_audit}

-- The tables, and the users of the Redis server.
pub record ControlPlane (S : Type 0) : Type 0 where
  pub db : Db
  pub acl : S

pub data Response : Type 0 where
  -- an error with its HTTP status
  refused : ℕ → Detail → Response
  token_issued : Text → ℕ → Response
  -- id, certificate, CA certificate, expiry
  registered : Text → Text → Text → ℕ → Response
  -- whether the Redis user is gone, whether the gateway has closed a connection
  revocation : Bool → Bool → Response
  created : Text → Execution → Response
  execution_state : Execution → List Text → Response
  audit_events : List AuditEvent → Response
  -- an exception that no handler catches: HTTP 500
  crashed : Error → Response

abbrev pub audited : {S : Type 0} → AuditEvent → ControlPlane S → ControlPlane S
audited event cp = record cp { db = add_audit event cp.db }

-- `body.get(key)`, where a value that is false (the empty text) counts as missing
abbrev pub required : String → Fields → Option Text
required key body = elim (lookup key body) [
  | none ↦ none
  | some t ↦ if is_empty t then none else some t
]

-- The names of the required fields that are missing, in order.
unfoldable pub missing_fields : List String → Fields → List Text
missing_fields [] body = []
missing_fields (key ∷ keys) body =
    let rest = missing_fields keys body in
    elim (required key body) [ none ↦ codes key ∷ rest | some _ ↦ rest ]
