-- ===== src/Views/Registration/Tokens.antt =====
-- What a registration token is good for: one delegate, of its tenant, before it expires.
use delegate_implementation.Base.{
  ℕ, ◌≤◌, Text, text_eq, text_eq_iff, List, [], ◌∷◌, ◌++◌, Option, none, some, Option-cases,
  Result-cases, if◌then◌else◌, ◌≡◌, ◌≢◌, inl, inr, refl, sym, ◌∙◌, arith,
}
use delegate_implementation.Platform.{Platform, Fields}
use delegate_implementation.Models.{Detail, RegistrationToken, Delegate, active}
use delegate_implementation.Models.Tables.{find_token, update_tokens, add_audit}
use delegate_implementation.Acl.{AclServer, provision_delegate}
use delegate_implementation.Ca.{Crypto, sign_csr}
use delegate_implementation.Dispatcher.Requests.{field_or}
use delegate_implementation.Views.State.{Response, refused, registered, required}
use delegate_implementation.Views.Registration.{
  Draws, Cp, token_problem, concurrency_of, new_delegate, create_delegate, register_with_token,
  register_fields, register_delegate,
}

find_token-update_tokens :
    (key t : Text) (f : RegistrationToken → RegistrationToken) (rows : List RegistrationToken)
    → ((row : RegistrationToken) → (f row).token ≡ row.token)
    → find_token t (update_tokens key f rows) ≡ elim (find_token t rows) [
      | none ↦ none
      | some row ↦ some (if text_eq t key then f row else row)
    ]
unfolding find_token update_tokens
find_token-update_tokens key t f [] keeps = refl
find_token-update_tokens key t f (row ∷ rows) keeps = ground (
  arith,
  keeps row,
  text_eq_iff row.token key,
  text_eq_iff row.token t,
  text_eq_iff t key,
  find_token-update_tokens key t f rows keeps,
)

find_token-token :
    (t : Text) (rows : List RegistrationToken) (row : RegistrationToken)
    → find_token t rows ≡ some row
    → row.token ≡ t
unfolding find_token
find_token-token t [] row h = absurd (ground arith)
find_token-token t (r ∷ rows) row h =
    ground (arith, text_eq_iff r.token t, find_token-token t rows row)

-- A row that is marked as used is not found unused.
used-not_unused :
    (t : Text) (rows : List RegistrationToken) (row row' : RegistrationToken) (now : ℕ)
    → row.token ≡ t
    → find_token t rows ≡ some row
    → find_token t (update_tokens row.token (λ r. record r { used_at = some now }) rows) ≡ some row'
    → row'.used_at ≢ none
used-not_unused t rows row row' now key found after unused = ground (
  arith,
  text_eq_iff t row.token,
  find_token-update_tokens row.token t (λ r. record r { used_at = some now }) rows (λ r. refl),
)

module _ (p : Platform) (server : AclServer) (crypto : Crypto) (validity_days : ℕ) where
  -- What a registration that has succeeded rests on, and what it has changed.
  pub record Registration (body : Fields) (draws : Draws)
      (cp cp' : Cp p server crypto validity_days) (id : Text) : Type 0 where
    pub row : RegistrationToken
    pub found : find_token (field_or "token" body []) cp.db.tokens ≡ some row
    pub unused : row.used_at ≡ none
    pub in_time : draws.now ≤ row.expires_at
    pub of_tenant : row.tenant_id ≡ field_or "tenant_id" body []
    pub minted : id ≡ draws.delegate_id
    pub used :
        cp'.db.tokens
        ≡ update_tokens row.token (λ t. record t { used_at = some draws.now }) cp.db.tokens
    pub acl : cp'.acl ≡ provision_delegate server draws.password id cp.acl
    pub delegate : Delegate
    pub delegates : cp'.db.delegates ≡ cp.db.delegates ++ delegate ∷ []
    pub has_id : delegate.id ≡ id
    pub is_active : delegate.status ≡ active
    pub has_tenant : delegate.tenant_id ≡ row.tenant_id

  -- The row that a registration adds.
  record Creation (draws : Draws) (tenant_id : Text) (row : RegistrationToken)
      (cp cp' : Cp p server crypto validity_days) (id : Text) : Type 0 where
    minted : id ≡ draws.delegate_id
    used :
        cp'.db.tokens
        ≡ update_tokens row.token (λ t. record t { used_at = some draws.now }) cp.db.tokens
    acl : cp'.acl ≡ provision_delegate server draws.password draws.delegate_id cp.acl
    delegate : Delegate
    delegates : cp'.db.delegates ≡ cp.db.delegates ++ delegate ∷ []
    has_id : delegate.id ≡ id
    is_active : delegate.status ≡ active
    has_tenant : delegate.tenant_id ≡ tenant_id

  module _ (body : Fields) (draws : Draws) (cp cp' : Cp p server crypto validity_days)
      (id cert ca : Text) (expires : ℕ) where
    abbrev Succeeds : Response × Cp p server crypto validity_days → Type 0
    Succeeds r = r ≡ (registered id cert ca expires, cp')

    register_with_token-Creation :
        (row : RegistrationToken) (tenant_id name csr_pem : Text)
        → Succeeds (
            register_with_token p server crypto validity_days body row tenant_id name csr_pem draws
              cp)
        → Creation draws tenant_id row cp cp' id
    unfolding register_with_token create_delegate add_audit
    register_with_token-Creation row tenant_id name csr_pem h =
        elim (Result-cases
          (sign_csr crypto csr_pem draws.delegate_id validity_days draws.now draws.serial)) [
            | inl (e, failed) ↦ absurd (ground arith)
            | inr (signed, good) ↦
                elim (Option-cases (concurrency_of p server crypto validity_days body)) [
                  | inl bad ↦ absurd (ground arith)
                  | inr (concurrency, read) ↦ record {
                    minted = ground arith;
                    used = ground arith;
                    acl = ground arith;
                    delegate =
                        new_delegate body tenant_id name signed.0 signed.1 signed.2
                          draws.delegate_id concurrency;
                    delegates = ground arith;
                    has_id = unfold new_delegate in ground arith;
                    is_active = unfold new_delegate in refl;
                    has_tenant = unfold new_delegate in refl;
                  }
                ]
          ]

    register_fields-found :
        (token tenant_id name csr_pem : Text)
        → Succeeds (
            register_fields p server crypto validity_days body token tenant_id name csr_pem draws
              cp)
        → (row : RegistrationToken) × (find_token token cp.db.tokens ≡ some row)
          × (token_problem row tenant_id draws.now ≡ none)
          × Succeeds (
              register_with_token p server crypto validity_days body row tenant_id name csr_pem
                draws cp)
    unfolding register_fields
    register_fields-found token tenant_id name csr_pem h =
        elim (Option-cases (find_token token cp.db.tokens)) [
          | inl unknown ↦ absurd (ground arith)
          | inr (row, found) ↦ (row, found, ground arith, ground arith)
        ]

    register_delegate-fields :
        Succeeds (register_delegate p server crypto validity_days (some body) draws cp)
        → (name : Text) × (csr_pem : Text) × Succeeds (
            register_fields p server crypto validity_days body
              (field_or "token" body [])
              (field_or "tenant_id" body [])
              name
              csr_pem
              draws
              cp)
    unfolding register_delegate
    register_delegate-fields h = elim (Option-cases (required "name" body)) [
      | inl missing ↦ absurd (ground arith)
      | inr (name, named) ↦ elim (Option-cases (required "csr_pem" body)) [
        | inl missing ↦ absurd (ground arith)
        | inr (csr_pem, asked) ↦ (name, csr_pem, ground arith)
      ]
    ]

    -- A registration succeeds only with a token that is stored, unused, not expired and of the
    -- tenant that is named; it marks the token as used, gives the new id a Redis user, and adds an
    -- active delegate of that tenant.
    pub register_delegate-registered :
        Succeeds (register_delegate p server crypto validity_days (some body) draws cp)
        → Registration body draws cp cp' id
    unfolding token_problem
    register_delegate-registered h =
        let (name, csr_pem, h₁) = register_delegate-fields h in
        let tenant_id = field_or "tenant_id" body [] in
        let (row, found, sound, h₂) =
          register_fields-found (field_or "token" body []) tenant_id name csr_pem h₁ in
        let c = register_with_token-Creation row tenant_id name csr_pem h₂ in
        let same : row.tenant_id ≡ tenant_id =
          ground (arith, text_eq_iff row.tenant_id tenant_id) in
        record {
          row = row;
          found = found;
          unused = ground arith;
          in_time = ground arith;
          of_tenant = same;
          minted = c.minted;
          used = c.used;
          acl = rw c.minted c.acl;
          delegate = c.delegate;
          delegates = c.delegates;
          has_id = c.has_id;
          is_active = c.is_active;
          has_tenant = c.has_tenant ∙ sym same;
        }

  -- A token is good for one registration: after a registration with it, no request that names it
  -- succeeds on the tables that the first has left, whatever else it says.
  pub register_delegate-single_use :
      (body again : Fields) (draws later : Draws) (cp cp' cp'' : Cp p server crypto validity_days)
      (id cert ca id' cert' ca' : Text) (expires expires' : ℕ)
      → register_delegate p server crypto validity_days (some body) draws cp
        ≡ (registered id cert ca expires, cp')
      → field_or "token" again [] ≡ field_or "token" body []
      → register_delegate p server crypto validity_days (some again) later cp'
        ≢ (registered id' cert' ca' expires', cp'')
  register_delegate-single_use body again draws later cp cp' cp'' id cert ca id' cert' ca' expires
        expires' h same h' =
      let first = register_delegate-registered body draws cp cp' id cert ca expires h in
      let second = register_delegate-registered again later cp' cp'' id' cert' ca' expires' h' in
      let key = find_token-token (field_or "token" body []) cp.db.tokens first.row first.found in
      used-not_unused (field_or "token" body []) cp.db.tokens first.row second.row draws.now key
        first.found (rw (← first.used, ← same) second.found) second.unused

  -- A request that is refused, at whatever test, leaves the Redis users and all tables but the
  -- audit events as they were.
  pub register_delegate-refused :
      (body : Option Fields) (draws : Draws) (cp cp' : Cp p server crypto validity_days) (code : ℕ)
      (answer : Detail)
      → register_delegate p server crypto validity_days body draws cp ≡ (refused code answer, cp')
      → (cp'.acl ≡ cp.acl)
        × (cp'.db.tokens ≡ cp.db.tokens)
        × (cp'.db.delegates ≡ cp.db.delegates)
        × (cp'.db.executions ≡ cp.db.executions)
        × (cp'.db.logs ≡ cp.db.logs)
  unfolding register_delegate register_fields register_with_token create_delegate add_audit
  register_delegate-refused none draws cp cp' code answer h = ground arith
  register_delegate-refused (some body) draws cp cp' code answer h = ground arith
