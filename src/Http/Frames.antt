-- ===== src/Http/Frames.antt =====
-- What each view leaves as it was.
use delegate_implementation.Base.{
  ℕ, Text, text_eq, Option, none, some, Option-cases, Bool, true, false, Bool-cases, Result-cases,
  not, ◌≡◌, inl, inr, refl,
}
use delegate_implementation.Platform.{Platform, Fields}
use delegate_implementation.Workspace.{Os}
use delegate_implementation.Acl
use delegate_implementation.Acl.{AclServer}
use delegate_implementation.Ca.{Crypto, sign_csr}
use delegate_implementation.Models.{RegistrationToken, Delegate}
use delegate_implementation.Models.Tables.{find_token, find_delegate, add_audit}
use delegate_implementation.Dispatcher.Requests.{is_active}
use delegate_implementation.Views.State.{ControlPlane, required}
use delegate_implementation.Views.Registration.{
  Draws, issue_registration_token, token_problem, concurrency_of, create_delegate,
  register_with_token, register_fields, register_delegate,
}
use delegate_implementation.Views.Revocation.{revoke_acl, disconnect_gateway, revoke_delegate}
use delegate_implementation.Views.Executions.{Api, create_for, create_fields, create_execution}

pub issue-keeps :
    {S : Type 0} (body : Option Fields) (now ttl : ℕ) (fresh : Text) (cp : ControlPlane S)
    → let cp' = (issue_registration_token body now ttl fresh cp).1 in
      (cp'.acl ≡ cp.acl)
      × (cp'.db.delegates ≡ cp.db.delegates)
      × (cp'.db.executions ≡ cp.db.executions)
unfolding issue_registration_token add_audit
issue-keeps none now ttl fresh cp = (refl, refl, refl)
issue-keeps (some body) now ttl fresh cp = elim (Option-cases (required "tenant_id" body)) [
  | inl e ↦ rw (issue_registration_token, e) (refl, refl, refl)
  | inr (t, e) ↦ rw (issue_registration_token, e) (refl, refl, refl)
]

module _ (p : Platform) (server : AclServer) (crypto : Crypto) (validity_days : ℕ) where
  abbrev pub Cp : Type 0
  Cp = ControlPlane server.State

  create-keeps :
      (body : Fields) (row : RegistrationToken) (tenant_id name cert serial : Text) (expires : ℕ)
      (draws : Draws) (cp : Cp)
      → (create_delegate p server crypto validity_days body row tenant_id name cert serial expires
          draws cp).1.db.executions
        ≡ cp.db.executions
  unfolding create_delegate add_audit
  create-keeps body row tenant_id name cert serial expires draws cp =
      elim (Option-cases (concurrency_of p server crypto validity_days body)) [
        | inl e ↦ rw (create_delegate, e) refl
        | inr (n, e) ↦ rw (create_delegate, e) refl
      ]

  token-keeps :
      (body : Fields) (row : RegistrationToken) (tenant_id name csr : Text) (draws : Draws)
      (cp : Cp)
      → (register_with_token p server crypto validity_days body row tenant_id name csr draws
          cp).1.db.executions
        ≡ cp.db.executions
  unfolding register_with_token add_audit
  token-keeps body row tenant_id name csr draws cp =
      elim (Result-cases
        (sign_csr crypto csr draws.delegate_id validity_days draws.now draws.serial)) [
          | inl (x, e) ↦ rw (register_with_token, e) refl
          | inr ((cert, serial, expires), e) ↦ elim (Bool-cases draws.redis_up) [
            | inl up ↦
                rw (register_with_token, e, up)
                  (create-keeps body row tenant_id name cert serial expires
                    (record draws { redis_up = true })
                    (record cp {
                      acl = Acl.provision_delegate server draws.password draws.delegate_id cp.acl;
                    }))
            | inr down ↦ rw (register_with_token, e, down) refl
          ]
        ]

  fields-keeps :
      (body : Fields) (token tenant_id name csr : Text) (draws : Draws) (cp : Cp)
      → (register_fields p server crypto validity_days body token tenant_id name csr draws
          cp).1.db.executions
        ≡ cp.db.executions
  unfolding register_fields add_audit
  fields-keeps body token tenant_id name csr draws cp =
      elim (Option-cases (find_token token cp.db.tokens)) [
        | inl e ↦ rw (register_fields, e) refl
        | inr (row, e) ↦ elim (Option-cases (token_problem row tenant_id draws.now)) [
          | inl good ↦
              rw (register_fields, e, good) (token-keeps body row tenant_id name csr draws cp)
          | inr (why, bad) ↦ rw (register_fields, e, bad) refl
        ]
      ]

  pub register-keeps :
      (body : Option Fields) (draws : Draws) (cp : Cp)
      → (register_delegate p server crypto validity_days body draws cp).1.db.executions
        ≡ cp.db.executions
  unfolding register_delegate
  register-keeps none draws cp = refl
  register-keeps (some body) draws cp = elim (Option-cases (required "token" body)) [
    | inl e ↦ rw (register_delegate, e) refl
    | inr (token, t) ↦ elim (Option-cases (required "tenant_id" body)) [
      | inl e ↦ rw (register_delegate, t, e) refl
      | inr (tenant_id, i) ↦ elim (Option-cases (required "name" body)) [
        | inl e ↦ rw (register_delegate, t, i, e) refl
        | inr (name, n) ↦ elim (Option-cases (required "csr_pem" body)) [
          | inl e ↦ rw (register_delegate, t, i, n, e) refl
          | inr (csr, c) ↦
              rw (register_delegate, t, i, n, c)
                (fields-keeps body token tenant_id name csr draws cp)
        ]
      ]
    ]
  ]

  pub revoke-keeps :
      (id : Text) (redis_up : Bool) (gateway : Option Bool) (cp : Cp)
      → let cp' = (revoke_delegate server id redis_up gateway cp).1 in
        (cp'.db.tokens ≡ cp.db.tokens) × (cp'.db.executions ≡ cp.db.executions)
  unfolding revoke_delegate revoke_acl disconnect_gateway add_audit
  revoke-keeps id true none cp = elim (Option-cases (find_delegate id cp.db.delegates)) [
    | inl e ↦ rw (revoke_delegate, e) (refl, refl)
    | inr (d, e) ↦ rw (revoke_delegate, e) (refl, refl)
  ]
  revoke-keeps id true (some b) cp = elim (Option-cases (find_delegate id cp.db.delegates)) [
    | inl e ↦ rw (revoke_delegate, e) (refl, refl)
    | inr (d, e) ↦ rw (revoke_delegate, e) (refl, refl)
  ]
  revoke-keeps id false none cp = elim (Option-cases (find_delegate id cp.db.delegates)) [
    | inl e ↦ rw (revoke_delegate, e) (refl, refl)
    | inr (d, e) ↦ rw (revoke_delegate, e) (refl, refl)
  ]
  revoke-keeps id false (some b) cp = elim (Option-cases (find_delegate id cp.db.delegates)) [
    | inl e ↦ rw (revoke_delegate, e) (refl, refl)
    | inr (d, e) ↦ rw (revoke_delegate, e) (refl, refl)
  ]

module _ (p : Platform) (os : Os) (fixtures_dir : Text) where
  abbrev pub Keeps : Api → Api → Type 0
  Keeps api api' = (api'.db.tokens ≡ api.db.tokens) × (api'.db.delegates ≡ api.db.delegates)

  for-keeps :
      (body : Fields) (tenant_id fixture : Text) (d : Delegate) (fresh : Text) (api : Api)
      → Keeps api (create_for p os fixtures_dir body tenant_id fixture d fresh api).1
  unfolding create_for add_audit
  for-keeps body tenant_id fixture d fresh api =
      elim (Bool-cases (not (text_eq d.tenant_id tenant_id))) [
        | inl e ↦ rw (create_for, e) (refl, refl)
        | inr e ↦ elim (Bool-cases (not (is_active d.status))) [
          | inl a ↦ rw (create_for, e, a) (refl, refl)
          | inr a ↦ elim (Bool-cases (not (os.isdir (os.join fixtures_dir fixture)))) [
            | inl f ↦ rw (create_for, e, a, f) (refl, refl)
            | inr f ↦ rw (create_for, e, a, f) (refl, refl)
          ]
        ]
      ]

  id-keeps :
      (body : Fields) (tenant_id id fixture fresh : Text) (api : Api)
      → Keeps api (create_fields p os fixtures_dir body tenant_id id fixture fresh api).1
  unfolding create_fields
  id-keeps body tenant_id id fixture fresh api = elim (Option-cases (p.to_uuid id)) [
    | inl e ↦ rw (create_fields, e) (refl, refl)
    | inr (uuid, e) ↦ elim (Option-cases (find_delegate uuid api.db.delegates)) [
      | inl f ↦ rw (create_fields, e, f) (refl, refl)
      | inr (d, f) ↦ rw (create_fields, e, f) (for-keeps body tenant_id fixture d fresh api)
    ]
  ]

  pub execution-keeps :
      (body : Option Fields) (fresh : Text) (api : Api)
      → Keeps api (create_execution p os fixtures_dir body fresh api).1
  unfolding create_execution
  execution-keeps none fresh api = (refl, refl)
  execution-keeps (some body) fresh api = elim (Option-cases (required "tenant_id" body)) [
    | inl e ↦ rw (create_execution, e) (refl, refl)
    | inr (tenant_id, i) ↦ elim (Option-cases (required "delegate_id" body)) [
      | inl e ↦ rw (create_execution, i, e) (refl, refl)
      | inr (id, d) ↦ elim (Option-cases (required "workspace_fixture" body)) [
        | inl e ↦ rw (create_execution, i, d, e) (refl, refl)
        | inr (fixture, f) ↦
            rw (create_execution, i, d, f) (id-keeps body tenant_id id fixture fresh api)
      ]
    ]
  ]
