-- ===== src/Enrolment/Served.antt =====
-- A worker that registers with the control plane of this program.
use delegate_implementation.Base.{
  ℕ, ◌+◌, ◌*◌, ◌≤◌, ◌<◌, Text, codes, text_eq, text_eq_iff, is_empty, lookup, List, [], ◌∷◌, ◌++◌,
  Option, none, some, true, false, ◌≡◌, ◌∙◌, ap, refl, arith, pos,
}
use delegate_implementation.Platform.{Platform, Fields}
use delegate_implementation.Files.{Directory, exists}
use delegate_implementation.Models.{RegistrationToken, Delegate, active}
use delegate_implementation.Models.Tables.{find_token, add_audit}
use delegate_implementation.Acl.{AclServer, provision_delegate}
use delegate_implementation.Ca.{Csr, Crypto, sign_csr, leaf_certificate, day}
use delegate_implementation.Views.State.{ControlPlane, Response, token_issued, missing_fields}
use delegate_implementation.Views.State
use delegate_implementation.Views.Registration.{
  Draws, issue_registration_token, token_problem, concurrency_of, new_delegate, create_delegate,
  register_with_token, register_fields, register_delegate,
}
use delegate_implementation.Enrolment.{
  Identity, Registered, Api, Encoding, Probe, wait_until, wait_for_control_plane, registered,
  identity_path, key_path, cert_path, Settings, register_body, identity_of, store, register_fresh,
  register,
}

-- What `requests` makes of the answers: the JSON of a success, or an exception.
unfoldable pub token_of : Response → Option Text
token_of (token_issued token expires_at) = some token
token_of _ = none

unfoldable pub registered_of : Response → Option Registered
registered_of (State.registered id cert_pem ca_cert_pem expires) = some (record {
  delegate_id = id;
  cert_pem = cert_pem;
  ca_cert_pem = ca_cert_pem;
  cert_expires_at = expires;
})
registered_of _ = none

find_token-append :
    (t : Text) (rows : List RegistrationToken) (row : RegistrationToken)
    → find_token t rows ≡ none
    → row.token ≡ t
    → find_token t (rows ++ row ∷ []) ≡ some row
unfolding find_token
find_token-append t [] row h e = ground (arith, text_eq_iff row.token t)
find_token-append t (r ∷ rows) row h e = ground (arith, find_token-append t rows row)

module _ (p : Platform) (server : AclServer) (crypto : Crypto) (validity_days ttl now : ℕ)
    (fresh : Text) (draws : Draws) where
  -- The API of the control plane, for one token that is issued at `now` and one registration.
  abbrev pub served : Api
  served = record {
    State = ControlPlane server.State;
    post_token = λ tenant_id cp.
        let (r, cp') =
          issue_registration_token (some (("tenant_id", tenant_id) ∷ [])) now ttl fresh cp in
        (token_of r, cp');
    post_register = λ body cp.
        let (r, cp') = register_delegate p server crypto validity_days (some body) draws cp in
        (registered_of r, cp');
  }

  module _ (encoding : Encoding) (s : Settings) (cp : ControlPlane server.State) where
    abbrev csr_pem : Text
    csr_pem = encoding.csr_pem s.key (s.tenant_id ++ (codes ":" ++ s.name))

    -- The configuration is filled in, the token is new and is used in time, Redis answers, and the
    -- CSR is one that can be signed.
    pub record IsReady : Type 0 where
      pub tenant : is_empty s.tenant_id ≡ false
      pub name : is_empty s.name ≡ false
      pub token : is_empty fresh ≡ false
      pub new : find_token fresh cp.db.tokens ≡ none
      pub in_time : draws.now ≤ now + ttl
      pub redis : draws.redis_up ≡ true
      pub csr_text : is_empty csr_pem ≡ false
      pub csr : Csr
      pub parsed : crypto.load_csr csr_pem ≡ some csr
      pub signed : csr.is_signature_valid ≡ true

    -- What the worker and the control plane then hold.
    pub record IsEnrolled (identity : Identity) (dir : Directory) (cp' : ControlPlane server.State)
        : Type 0 where
      pub delegate : Delegate
      pub added : cp'.db.delegates ≡ cp.db.delegates ++ delegate ∷ []
      pub id : delegate.id ≡ draws.delegate_id
      pub same_id : identity.delegate_id ≡ draws.delegate_id
      pub same_queue : identity.queue ≡ s.queue
      pub is_active : delegate.status ≡ active
      pub tenant : delegate.tenant_id ≡ s.tenant_id
      pub queue : delegate.queue ≡ s.queue
      pub concurrency : delegate.concurrency ≡ pos s.concurrency
      pub stored : dir identity_path ≡ some (encoding.dump identity)
      pub key : dir key_path ≡ some (encoding.key_pem s.key)
      pub cert : dir cert_path ≡ some delegate.cert_pem
      pub acl : cp'.acl ≡ provision_delegate server draws.password draws.delegate_id cp.acl

    row : RegistrationToken
    row = record { token = fresh; tenant_id = s.tenant_id; expires_at = now + ttl; used_at = none }

    issued : Response × ControlPlane server.State
    issued = issue_registration_token (some (("tenant_id", s.tenant_id) ∷ [])) now ttl fresh cp

    issued_lem :
        IsReady
        → (issued.0 ≡ token_issued fresh (now + ttl))
          × (issued.1.db.tokens ≡ cp.db.tokens ++ row ∷ [])
          × (issued.1.db.delegates ≡ cp.db.delegates)
          × (issued.1.acl ≡ cp.acl)
    unfolding issued row issue_registration_token add_audit lookup
    issued_lem r = ground arith

    leaf_pem : Csr → Text
    leaf_pem csr = crypto.signed_pem (
        leaf_certificate crypto.ca_subject csr draws.delegate_id validity_days draws.now
          draws.serial)

    abbrev ends : ℕ
    ends = draws.now + validity_days * day

    abbrev body : Fields
    body = register_body p encoding served s fresh

    added_delegate : Csr → Delegate
    added_delegate csr =
        new_delegate body s.tenant_id s.name (leaf_pem csr) (crypto.hex draws.serial) ends
          draws.delegate_id (pos s.concurrency)

    answered : ControlPlane server.State → Response × ControlPlane server.State
    answered cp₁ = register_delegate p server crypto validity_days (some body) draws cp₁

    answered_lem :
        (cp₁ : ControlPlane server.State) (r : IsReady)
        → find_token fresh cp₁.db.tokens ≡ some row
        → ((answered cp₁).0
            ≡ State.registered draws.delegate_id (leaf_pem r.csr) crypto.ca_pem ends)
          × ((answered cp₁).1.db.delegates ≡ cp₁.db.delegates ++ added_delegate r.csr ∷ [])
          × ((answered cp₁).1.acl
              ≡ provision_delegate server draws.password draws.delegate_id cp₁.acl)
    unfolding answered added_delegate leaf_pem row register_body register_delegate register_fields
        token_problem register_with_token create_delegate concurrency_of sign_csr add_audit lookup
    answered_lem cp₁ r found =
        let t = r.tenant in
        let n = r.name in
        let k = r.token in
        let c = r.csr_text in
        let q = r.parsed in
        let v = r.signed in
        let u = r.redis in
        let w = r.in_time in
        ground (arith, text_eq_iff s.tenant_id s.tenant_id, p.int_str-str_int s.concurrency)

    abbrev reply_of : Csr → Registered
    reply_of csr = record {
      delegate_id = draws.delegate_id;
      cert_pem = leaf_pem csr;
      ca_cert_pem = crypto.ca_pem;
      cert_expires_at = ends;
    }

    register_fresh-served :
        (dir : Directory) (r : IsReady)
        → register_fresh p encoding served s dir cp ≡ (
          registered (identity_of p encoding served s (reply_of r.csr)),
          store p encoding served s (reply_of r.csr) dir,
          (answered issued.1).1,
        )
    unfolding register_fresh token_of registered_of issued answered
    register_fresh-served dir r =
        let (given, tokens, _, _) = issued_lem r in
        let found : find_token fresh issued.1.db.tokens ≡ some row =
          rw tokens (find_token-append fresh cp.db.tokens row r.new (unfold row in refl)) in
        let (accepted, _, _) = answered_lem issued.1 r found in ground arith

    register-served :
        (start : ℕ) (probe : Probe) (probes : List Probe) (dir : Directory) (r : IsReady)
        → exists identity_path dir ≡ false
        → probe.now < start + 60
        → probe.answers ≡ true
        → register p encoding served s start (probe ∷ probes) dir cp
          ≡ register_fresh p encoding served s dir cp
    unfolding register wait_for_control_plane wait_until
    register-served start probe probes dir r new early answers = ground arith

    -- A worker without an identity whose first probe, made in time, is answered registers with the
    -- control plane if the configuration is filled in, the token is new and used in time, Redis
    -- answers and the CSR can be signed: the control plane has one delegate more, active, of the
    -- worker's tenant, queue and concurrency, with its Redis user, and the worker has stored its
    -- identity with the same id, its key, and the certificate of that delegate.
    pub register-IsEnrolled :
        (start : ℕ) (probe : Probe) (probes : List Probe) (dir : Directory)
        → IsReady
        → exists identity_path dir ≡ false
        → probe.now < start + 60
        → probe.answers ≡ true
        → (identity : Identity) × (dir' : Directory) × (cp' : ControlPlane server.State) × (register
              p encoding served s start
              (probe ∷ probes)
              dir
              cp
            ≡ (registered identity, dir', cp'))
          × IsEnrolled identity dir' cp'
    unfolding store added_delegate new_delegate text_eq lookup register_body
    register-IsEnrolled start probe probes dir r new early answers =
        let (given, tokens, others, acl) = issued_lem r in
        let found : find_token fresh issued.1.db.tokens ≡ some row =
          rw tokens (find_token-append fresh cp.db.tokens row r.new (unfold row in refl)) in
        let (_, added, acl') = answered_lem issued.1 r found in
        (
          identity_of p encoding served s (reply_of r.csr),
          store p encoding served s (reply_of r.csr) dir,
          (answered issued.1).1,
          register-served start probe probes dir r new early answers ∙ register_fresh-served dir r,
          record {
            delegate = added_delegate r.csr;
            added = added ∙ ap (λ (ds : List Delegate). ds ++ added_delegate r.csr ∷ []) others;
            id = refl;
            same_id = refl;
            same_queue = refl;
            is_active = refl;
            tenant = refl;
            queue = refl;
            concurrency = refl;
            stored = refl;
            key = refl;
            cert = refl;
            acl = acl' ∙ ap (provision_delegate server draws.password draws.delegate_id) acl;
          },
        )
