-- ===== src/System/Orphan.antt =====
-- control_plane/delegates/views.py: `register_delegate`, where the concurrency of the request is no
-- number: `int(...)` raises after the Redis user was provisioned.
use delegate_implementation.Base.{
  ℕ, Text, text_eq_refl, text_eq_iff, [], none, some, Option-cases, Result-cases, Bool-cases, true,
  false, ◌≡◌, ◌≢◌, refl, inl, inr, arith, Error, value_error,
}
use delegate_implementation.Platform.{Platform, Fields}
use delegate_implementation.Models.{RegistrationToken}
use delegate_implementation.Models.Tables.{find_token}
use delegate_implementation.Acl.{
  AclServer, is_delegate_user, contains, rules, after_reset, provision_delegate,
}
use delegate_implementation.Ca.{Crypto, sign_csr}
use delegate_implementation.Dispatcher.Requests.{field_or}
use delegate_implementation.Dispatcher.Main.{active_ids}
use delegate_implementation.Views.State.{Response, crashed, required}
use delegate_implementation.Views.Registration.{
  Draws, Cp, token_problem, concurrency_of, create_delegate, register_with_token, register_fields,
  register_delegate,
}
use delegate_implementation.System.Access.{IsSynced}

module _ (p : Platform) (server : AclServer) (crypto : Crypto) (validity_days : ℕ) where
  -- What a registration that has crashed rests on, and what it leaves behind.
  pub record Orphan (body : Fields) (draws : Draws) (cp cp' : Cp p server crypto validity_days)
      (e : Error) : Type 0 where
    pub error : e ≡ value_error
    pub no_number : concurrency_of p server crypto validity_days body ≡ none
    pub is_up : draws.redis_up ≡ true
    pub row : RegistrationToken
    pub found : find_token (field_or "token" body []) cp'.db.tokens ≡ some row
    pub good : token_problem row (field_or "tenant_id" body []) draws.now ≡ none
    pub tables : cp'.db ≡ cp.db
    pub user :
        server.rules_of cp'.acl draws.delegate_id ≡ some (rules draws.password draws.delegate_id)
    pub others :
        (v : Text) → v ≢ draws.delegate_id → server.rules_of cp'.acl v ≡ server.rules_of cp.acl v

  module _ (body : Fields) (draws : Draws) (cp cp' : Cp p server crypto validity_days)
      (e : Error) where
    abbrev Crashes : Response × Cp p server crypto validity_days → Type 0
    Crashes r = r ≡ (crashed e, cp')

    -- What the crash shows, behind the query of the token.
    record Crash : Type 0 where
      error : e ≡ value_error
      no_number : concurrency_of p server crypto validity_days body ≡ none
      is_up : draws.redis_up ≡ true
      tables : cp'.db ≡ cp.db
      acl : cp'.acl ≡ provision_delegate server draws.password draws.delegate_id cp.acl

    register_with_token-Crash :
        (row : RegistrationToken) (tenant_id name csr_pem : Text)
        → Crashes (
            register_with_token p server crypto validity_days body row tenant_id name csr_pem draws
              cp)
        → Crash
    unfolding register_with_token create_delegate
    register_with_token-Crash row tenant_id name csr_pem h =
        elim (Result-cases
          (sign_csr crypto csr_pem draws.delegate_id validity_days draws.now draws.serial)) [
            | inl (e', failed) ↦ absurd (ground arith)
            | inr (signed, good) ↦ elim (Bool-cases draws.redis_up) [
              | inr down ↦ absurd (ground arith)
              | inl up ↦ elim (Option-cases (concurrency_of p server crypto validity_days body)) [
                | inr (concurrency, read) ↦ absurd (ground arith)
                | inl bad ↦ record {
                  error = ground arith;
                  no_number = bad;
                  is_up = up;
                  tables = ground arith;
                  acl = ground arith;
                }
              ]
            ]
          ]

    register_fields-Crash :
        (token tenant_id name csr_pem : Text)
        → Crashes (
            register_fields p server crypto validity_days body token tenant_id name csr_pem draws
              cp)
        → (row : RegistrationToken) × (find_token token cp.db.tokens ≡ some row)
          × (token_problem row tenant_id draws.now ≡ none)
          × Crash
    unfolding register_fields
    register_fields-Crash token tenant_id name csr_pem h =
        elim (Option-cases (find_token token cp.db.tokens)) [
          | inl unknown ↦ absurd (ground arith)
          | inr (row, found) ↦ elim (Option-cases (token_problem row tenant_id draws.now)) [
            | inr (problem, told) ↦ absurd (ground arith)
            | inl sound ↦ (
              row,
              found,
              sound,
              register_with_token-Crash row tenant_id name csr_pem (ground arith),
            )
          ]
        ]

    register_delegate-Crash :
        Crashes (register_delegate p server crypto validity_days (some body) draws cp)
        → (row : RegistrationToken) × (find_token (field_or "token" body []) cp.db.tokens
            ≡ some row)
          × (token_problem row (field_or "tenant_id" body []) draws.now ≡ none)
          × Crash
    unfolding register_delegate
    register_delegate-Crash h = elim (Option-cases (required "name" body)) [
      | inl missing ↦ absurd (ground arith)
      | inr (name, named) ↦ elim (Option-cases (required "csr_pem" body)) [
        | inl missing ↦ absurd (ground arith)
        | inr (csr_pem, asked) ↦
            register_fields-Crash (field_or "token" body []) (field_or "tenant_id" body []) name
              csr_pem (ground arith)
      ]
    ]

    register_delegate-Orphan :
        Crashes (register_delegate p server crypto validity_days (some body) draws cp)
        → Orphan body draws cp cp' e
    unfolding provision_delegate rules
    register_delegate-Orphan h =
        let (row, found, sound, c) = register_delegate-Crash h in
        let id = draws.delegate_id in
        let user =
          λ (v : Text). server.rules_of-setuser id v (after_reset draws.password id) cp.acl in
        record {
          error = c.error;
          no_number = c.no_number;
          is_up = c.is_up;
          row = row;
          found = rw c.tables found;
          good = sound;
          tables = c.tables;
          user = rw (c.acl, user id, text_eq_refl id) refl;
          others = λ v other. rw c.acl (ground (arith, user v, text_eq_iff id v));
        }

  -- A registration that draws an id of the form of a delegate's id, which no active delegate has,
  -- crashes only where its token is stored and passes every test, Redis is reachable and its
  -- concurrency is no number, and then with ValueError. It leaves the tables as they were, the token
  -- still good among them, but the id has a Redis user with the rules of a delegate, and the other
  -- users are as they were: the users afterwards do not agree with the table of delegates.
  pub register_delegate-crashes :
      (body : Fields) (draws : Draws) (cp cp' : Cp p server crypto validity_days) (e : Error)
      → register_delegate p server crypto validity_days (some body) draws cp ≡ (crashed e, cp')
      → is_delegate_user draws.delegate_id ≡ true
      → contains draws.delegate_id (active_ids cp.db.delegates) ≡ false
      → Orphan body draws cp cp' e × ¬ IsSynced server cp'
  register_delegate-crashes body draws cp cp' e h named fresh =
      let orphan = register_delegate-Orphan body draws cp cp' e h in
      (
        orphan,
        λ s.
            let none_listed : contains draws.delegate_id (active_ids cp'.db.delegates) ≡ false =
              rw orphan.tables fresh in
            let user = orphan.user in
            let gone = s.gone draws.delegate_id none_listed named in absurd (ground arith),
      )
