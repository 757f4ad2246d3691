-- ===== src/Ca/Signing.antt =====
-- What a certificate that `sign_csr` returns says.
use delegate_implementation.Base.{
  ℕ, ◌+◌, ◌*◌, Text, some, true, false, ok, Option-cases, Bool-cases, Result-cases, ◌≡◌, refl, inl,
  inr, arith,
}
use delegate_implementation.Files.{Directory}
use delegate_implementation.Ca
use delegate_implementation.Ca.{Name, Certificate, Csr, Usage, client_auth, day, leaf_certificate}
use delegate_implementation.Ca.Issue.{Pki, Draw, ensure_root_ca, load_ca, sign_csr, authority}

module _ (pki : Pki) where
  -- The PEM reads as a certificate of the request's key for the name, from the root that is stored.
  pub record Certifies (csr_pem common_name : Text) (validity_days now : ℕ) (pem : Text)
      (expires : ℕ) (dir : Directory) : Type 0 where
    pub csr : Csr
    pub root_key : Text
    pub root : Certificate
    pub cert : Certificate
    pub request : pki.load_csr csr_pem ≡ some csr
    pub is_signature_valid : csr.is_signature_valid ≡ true
    pub loaded : load_ca pki dir ≡ ok (root_key, root)
    pub reads : pki.load_certificate pem ≡ some cert
    pub signed : pki.verifies (pki.public_key root_key) pem ≡ true
    pub subject : cert.subject.common_name ≡ common_name
    pub issuer : cert.issuer ≡ root.subject
    pub of_key : cert.public_key ≡ csr.public_key
    pub is_leaf : cert.is_ca ≡ false
    pub for_clients : cert.extended_key_usage ≡ some client_auth
    pub ends : cert.not_valid_after ≡ expires
    pub in_days : expires ≡ now + validity_days * day

  module _ (root_draw : Draw) (csr_pem common_name : Text) (validity_days now serial : ℕ)
      (dir dir' : Directory) (pem hex : Text) (expires : ℕ) where
    -- A certificate that `sign_csr` returns is signed with the key of the root that is stored then;
    -- it is a client certificate, not a CA, for the name that was given and the key of a request
    -- whose signature is valid, and it ends the given number of days from now.
    pub sign_csr-Certifies :
        sign_csr pki root_draw csr_pem common_name validity_days now serial dir
          ≡ (ok (pem, hex, expires), dir')
        → Certifies csr_pem common_name validity_days now pem expires dir'
    unfolding sign_csr authority Ca.sign_csr leaf_certificate
    sign_csr-Certifies h = elim (Result-cases (load_ca pki (ensure_root_ca pki root_draw dir))) [
      | inl (e, failed) ↦ absurd (ground arith)
      | inr (loaded, there) ↦ elim (Option-cases (pki.load_csr csr_pem)) [
        | inl unread ↦ absurd (ground arith)
        | inr (csr, read) ↦ elim (Bool-cases csr.is_signature_valid) [
          | inr invalid ↦ absurd (ground arith)
          | inl valid ↦
              let leaf =
                leaf_certificate loaded.1.subject csr common_name validity_days now serial in
              let e : pem ≡ pki.signed_pem leaf loaded.0 = ground arith in
              record {
                csr = csr;
                root_key = loaded.0;
                root = loaded.1;
                cert = leaf;
                request = read;
                is_signature_valid = valid;
                loaded = ground arith;
                reads = rw e (pki.load_certificate-signed_pem leaf loaded.0);
                signed = rw e (pki.verifies-signed_pem leaf loaded.0);
                subject = refl;
                issuer = refl;
                of_key = refl;
                is_leaf = refl;
                for_clients = refl;
                ends = ground arith;
                in_days = ground arith;
              }
        ]
      ]
    ]
