-- ===== src/Ca.antt =====
-- control_plane/delegates/ca.py: the certificates, and `sign_csr` from the loaded root CA on. Keys,
-- parsing and encoding are a parameter; times are in seconds.
pub mod Issue
pub mod Once
pub mod Chain
pub mod Signing
mod Tests
use delegate_implementation.Base.{
  ℕ, ◌+◌, ◌-◌, ◌*◌, Text, List, [], Option, none, some, Bool, true, false, if◌then◌else◌, Result,
  ok, raise, value_error,
}

pub record Csr : Type 0 where
  pub is_signature_valid : Bool
  pub public_key : Text

-- An `x509.Name` with its common name and organization.
pub record Name : Type 0 where
  pub common_name : Text
  pub organization : Option Text

abbrev pub named : Text → Name
named common_name = record { common_name = common_name; organization = none }

pub data SanEntry : Type 0 where
  ip_address dns_name : Text → SanEntry

-- The bits of `x509.KeyUsage` that some certificate sets; the others are false everywhere.
pub record KeyUsage : Type 0 where
  pub digital_signature : Bool
  pub key_encipherment : Bool
  pub key_cert_sign : Bool
  pub crl_sign : Bool

pub data Usage : Type 0 where
  client_auth server_auth : Usage

-- An extension that is not there is `none`, or an empty list.
pub record Certificate : Type 0 where
  pub subject : Name
  pub issuer : Name
  pub public_key : Text
  pub serial_number : ℕ
  pub not_valid_before : ℕ
  pub not_valid_after : ℕ
  pub is_ca : Bool
  pub key_usage : Option KeyUsage
  pub extended_key_usage : Option Usage
  pub san : List SanEntry

-- What `sign_csr` has at hand when the root CA is loaded.
pub record Crypto : Type 0 where
  -- `x509.load_pem_x509_csr`; `none` where it raises `ValueError`
  pub load_csr : Text → Option Csr
  -- signed with the root's key, in PEM
  pub signed_pem : Certificate → Text
  pub hex : ℕ → Text
  pub ca_subject : Name
  pub ca_pem : Text

abbrev pub minute : ℕ
minute = 60

abbrev pub day : ℕ
day = 24 * 60 * minute

-- The certificate that `sign_csr` builds; `serial` is the random serial number.
unfoldable pub leaf_certificate : Name → Csr → Text → ℕ → ℕ → ℕ → Certificate
leaf_certificate ca_subject csr common_name validity_days now serial = record {
  subject = named common_name;
  issuer = ca_subject;
  public_key = csr.public_key;
  serial_number = serial;
  not_valid_before = now - 5 * minute;
  not_valid_after = now + validity_days * day;
  is_ca = false;
  key_usage = some (record {
    digital_signature = true;
    key_encipherment = true;
    key_cert_sign = false;
    crl_sign = false;
  });
  extended_key_usage = some client_auth;
  san = [];
}

unfoldable pub sign_csr : Crypto → Text → Text → ℕ → ℕ → ℕ → Result (Text × Text × ℕ)
unfolding leaf_certificate
sign_csr crypto csr_pem common_name validity_days now serial = elim (crypto.load_csr csr_pem) [
  | none ↦ raise value_error
  | some csr ↦
      let cert = leaf_certificate crypto.ca_subject csr common_name validity_days now serial in
      if csr.is_signature_valid
      then ok (crypto.signed_pem cert, crypto.hex serial, cert.not_valid_after)
      else raise value_error
]
