-- ===== src/Views/Registration.antt =====
-- control_plane/delegates/views.py: `issue_registration_token` and `register_delegate`.
pub mod Tokens
pub mod Race
use delegate_implementation.Base.{
  ℕ, ◌+◌, ℤ, pos, Text, codes, text_eq, lookup, List, [], ◌∷◌, ◌++◌, Option, none, some, Bool, true,
  false, not, String, ltb, if◌then◌else◌, value_error, connection_error, Result, ok, raise,
}
use delegate_implementation.Platform.{Platform, Fields}
use delegate_implementation.Streams.{delegate_prefix}
use delegate_implementation.Models.{
  lit, val, texts, exception, Detail, Db, RegistrationToken, Delegate, active, AuditEvent,
}
use delegate_implementation.Models.Tables.{find_token, update_tokens}
use delegate_implementation.Acl.{AclServer, provision_delegate}
use delegate_implementation.Ca.{Crypto, sign_csr}
use delegate_implementation.Dispatcher.Requests.{event_of, field_or}
use delegate_implementation.Views.State.{
  ControlPlane, Response, refused, token_issued, registered, crashed, audited, required,
  missing_fields,
}

unfoldable pub issue_registration_token :
    {S : Type 0} → Option Fields → ℕ → ℕ → Text → ControlPlane S → Response × ControlPlane S
issue_registration_token none now ttl fresh cp =
    (refused 400 (lit "tenant_id is required" ∷ []), cp)
issue_registration_token (some body) now ttl fresh cp = elim (required "tenant_id" body) [
  | none ↦ (refused 400 (lit "tenant_id is required" ∷ []), cp)
  | some tenant_id ↦
      let row : RegistrationToken = record {
        token = fresh;
        tenant_id = tenant_id;
        expires_at = now + ttl;
        used_at = none;
      } in
      let db' = record cp.db { tokens = cp.db.tokens ++ row ∷ [] } in
      (
        token_issued fresh (now + ttl),
        audited
            (event_of "REGISTRATION_TOKEN_ISSUED" tenant_id [] [] (lit "token=" ∷ val fresh ∷ []))
            (record cp { db = db' }),
      )
]

-- The tests on the token's row, in order: what is audited and what is answered.
unfoldable pub token_problem : RegistrationToken → Text → ℕ → Option (String × String)
token_problem row tenant_id now = elim row.used_at [
  | some t ↦ some ("token already used", "registration token already used")
  | none ↦
      if ltb row.expires_at now
      then some ("token expired", "registration token expired")
      else if not (text_eq row.tenant_id tenant_id)
      then some ("tenant mismatch", "tenant_id does not match token")
      else none
]

-- The row that `Delegate.objects.create(...)` adds.
unfoldable pub new_delegate : Fields → Text → Text → Text → Text → ℕ → Text → ℤ → Delegate
new_delegate body tenant_id name cert_pem serial expires id concurrency = record {
  id = id;
  tenant_id = tenant_id;
  name = name;
  queue = field_or "queue" body (codes "default");
  concurrency = concurrency;
  cert_serial = serial;
  cert_pem = cert_pem;
  cert_expires_at = expires;
  status = active;
}

-- What a request draws and meets: the clock, the delegate's id, the certificate's serial number,
-- the ACL password, and whether Redis answers.
pub record Draws : Type 0 where
  pub now : ℕ
  pub delegate_id : Text
  pub serial : ℕ
  pub password : Text
  pub redis_up : Bool

module _ (p : Platform) (server : AclServer) (crypto : Crypto) (validity_days : ℕ) where
  abbrev pub Cp : Type 0
  Cp = ControlPlane server.State

  abbrev pub reject : Text → Detail → ℕ → Detail → Cp → Response × Cp
  reject tenant_id why code answer cp =
      (refused code answer, audited (event_of "REGISTRATION_REJECTED" tenant_id [] [] why) cp)

  -- `int(body.get("concurrency", 1))`
  unfoldable pub concurrency_of : Fields → Option ℤ
  concurrency_of body = elim (lookup "concurrency" body) [
    | none ↦ some (pos 1)
    | some t ↦ p.int_str t
  ]

  -- From `Delegate.objects.create` on, with the ACL user in place.
  unfoldable pub create_delegate :
      Fields → RegistrationToken → Text → Text → Text → Text → ℕ → Draws → Cp → Response × Cp
  unfolding concurrency_of
  create_delegate body row tenant_id name cert_pem serial expires draws cp =
      elim (concurrency_of body) [
        | none ↦ (crashed value_error, cp)
        | some concurrency ↦
            let id = draws.delegate_id in
            let delegate =
              new_delegate body tenant_id name cert_pem serial expires id concurrency in
            let db' = record cp.db {
              delegates = cp.db.delegates ++ delegate ∷ [];
              tokens =
                  update_tokens row.token (λ t. record t { used_at = some draws.now }) cp.db.tokens;
            } in
            (
              registered id cert_pem crypto.ca_pem expires,
              audited
                  (event_of "REDIS_ACL_PROVISIONED" tenant_id id []
                    (lit "scope=delegate:" ∷ val id ∷ lit ":*" ∷ []))
                  (audited
                    (event_of "DELEGATE_REGISTERED" tenant_id id []
                      (lit "name=" ∷ val name ∷ lit " serial=" ∷ val serial ∷ []))
                    (record cp { db = db' })),
            )
      ]

  -- From the signature on, with a token that is good for the tenant.
  unfoldable pub register_with_token :
      Fields → RegistrationToken → Text → Text → Text → Draws → Cp → Response × Cp
  register_with_token body row tenant_id name csr_pem draws cp =
      elim (sign_csr crypto csr_pem draws.delegate_id validity_days draws.now draws.serial) [
        | raise e ↦ reject tenant_id (exception e ∷ []) 400 (exception e ∷ []) cp
        | ok (cert_pem, serial, expires) ↦
            if draws.redis_up
            then create_delegate body row tenant_id name cert_pem serial expires draws (record cp {
              acl = provision_delegate server draws.password draws.delegate_id cp.acl;
            })
            else reject tenant_id
                (lit "redis ACL provisioning failed: " ∷ exception connection_error ∷ []) 503
                (lit "could not provision Redis access" ∷ []) cp
      ]

  -- From the query of the token on, with the four required fields.
  unfoldable pub register_fields : Fields → Text → Text → Text → Text → Draws → Cp → Response × Cp
  register_fields body token tenant_id name csr_pem draws cp =
      elim (find_token token cp.db.tokens) [
        | none ↦
            reject tenant_id (lit "unknown token" ∷ []) 403 (lit "invalid registration token" ∷ [])
              cp
        | some row ↦ elim (token_problem row tenant_id draws.now) [
          | some (why, answer) ↦ reject tenant_id (lit why ∷ []) 403 (lit answer ∷ []) cp
          | none ↦ register_with_token body row tenant_id name csr_pem draws cp
        ]
      ]

  unfoldable pub register_delegate : Option Fields → Draws → Cp → Response × Cp
  register_delegate none draws cp = (refused 400 (lit "invalid JSON" ∷ []), cp)
  register_delegate (some body) draws cp =
      let missing : Response × Cp = (
        refused 400 (
            lit "missing fields: "
            ∷ texts (missing_fields ("token" ∷ "tenant_id" ∷ "name" ∷ "csr_pem" ∷ []) body)
            ∷ []),
        cp,
      ) in
      elim (required "token" body) [
        | none ↦ missing
        | some token ↦ elim (required "tenant_id" body) [
          | none ↦ missing
          | some tenant_id ↦ elim (required "name" body) [
            | none ↦ missing
            | some name ↦ elim (required "csr_pem" body) [
              | none ↦ missing
              | some csr_pem ↦ register_fields body token tenant_id name csr_pem draws cp
            ]
          ]
        ]
      ]
