-- ===== src/Ca/Issue.antt =====
-- control_plane/delegates/ca.py and management/commands/init_ca.py: the root CA and the
-- certificates that are issued once, in the directory CA_DIR.
use delegate_implementation.Base.{
  ℕ, ◌+◌, ◌-◌, ◌*◌, Text, codes, List, [], ◌∷◌, map, Option, none, some, Bool, true, false, ◌&&◌,
  if◌then◌else◌, Result, ok, raise, value_error, ◌≡◌,
}
use delegate_implementation.Files.{Directory, exists, write, read, Io, ◌>>◌, modify}
use delegate_implementation.Ca
use delegate_implementation.Ca.{
  Csr, Name, named, SanEntry, ip_address, dns_name, KeyUsage, Usage, client_auth, server_auth,
  Certificate, Crypto, minute, day,
}

-- The library `cryptography`, and `ipaddress.ip_address`. A key is named by a text. The laws are
-- that a key and a certificate are read back from their PEM, and that a signature verifies.
pub record Pki : Type 0 where
  pub load_csr : Text → Option Csr
  pub key_pem : Text → Text
  pub load_key : Text → Option Text
  pub public_key : Text → Text
  -- a certificate signed with a key, in PEM
  pub signed_pem : Certificate → Text → Text
  pub load_certificate : Text → Option Certificate
  -- whether the signature of a PEM verifies with a public key
  pub verifies : Text → Text → Bool
  pub hex : ℕ → Text
  pub parse_ip : Text → Option Text
  pub load_key-key_pem : (key : Text) → load_key (key_pem key) ≡ some key
  pub load_certificate-signed_pem :
      (cert : Certificate) (key : Text) → load_certificate (signed_pem cert key) ≡ some cert
  pub verifies-signed_pem :
      (cert : Certificate) (key : Text) → verifies (public_key key) (signed_pem cert key) ≡ true

-- What the generation of one certificate draws: its key, its serial number and the clock.
pub record Draw : Type 0 where
  pub key : Text
  pub serial : ℕ
  pub now : ℕ

abbrev pub ca_key : Text
ca_key = codes "ca.key"

abbrev pub ca_cert : Text
ca_cert = codes "ca.crt"

abbrev pub server_key : Text
server_key = codes "control_plane_server.key"

abbrev pub server_cert : Text
server_cert = codes "control_plane_server.crt"

abbrev pub redis_server_key : Text
redis_server_key = codes "redis_server.key"

abbrev pub redis_server_cert : Text
redis_server_cert = codes "redis_server.crt"

abbrev pub redis_admin_key : Text
redis_admin_key = codes "redis_admin.key"

abbrev pub redis_admin_cert : Text
redis_admin_cert = codes "redis_admin.crt"

abbrev pub redis_admin_user : Text
redis_admin_user = codes "cp-admin"

-- The certificate of the root, signed by itself.
unfoldable pub root_certificate : Pki → Draw → Certificate
root_certificate pki draw =
    let name : Name = record {
      common_name = codes "BuildPiper Delegate POC Root CA";
      organization = some (codes "BuildPiper POC");
    } in
    record {
      subject = name;
      issuer = name;
      public_key = pki.public_key draw.key;
      serial_number = draw.serial;
      not_valid_before = draw.now - 5 * minute;
      not_valid_after = draw.now + 3650 * day;
      is_ca = true;
      key_usage = some (record {
        digital_signature = true;
        key_encipherment = false;
        key_cert_sign = true;
        crl_sign = true;
      });
      extended_key_usage = none;
      san = [];
    }

-- A certificate of the program's own servers and clients.
unfoldable pub infrastructure_certificate :
    Pki → Certificate → Draw → Text → Usage → List SanEntry → Certificate
infrastructure_certificate pki root draw common_name usage san = record {
  subject = named common_name;
  issuer = root.subject;
  public_key = pki.public_key draw.key;
  serial_number = draw.serial;
  not_valid_before = draw.now - 5 * minute;
  not_valid_after = draw.now + 3650 * day;
  is_ca = false;
  key_usage = none;
  extended_key_usage = some usage;
  san = san;
}

-- `_san_entry`
unfoldable pub san_entry : Pki → Text → SanEntry
san_entry pki name = elim (pki.parse_ip name) [ none ↦ dns_name name | some ip ↦ ip_address ip ]

-- `CONTROL_PLANE_SERVER_NAMES` and `REDIS_SERVER_NAMES`, with the names of the settings.
abbrev pub control_plane_server_names : List Text → List Text
control_plane_server_names extra =
    codes "restart_gateway" ∷ codes "control_plane" ∷ codes "localhost" ∷ extra

abbrev pub redis_server_names : List Text → List Text
redis_server_names extra = codes "redis" ∷ codes "localhost" ∷ extra

module _ (pki : Pki) where
  -- `_write_private_key` and `_write_cert`
  unfoldable pub write_pair : Text → Text → Text → Text → Directory → Directory
  write_pair key_path cert_path key pem dir =
      write cert_path pem (write key_path (pki.key_pem key) dir)

  unfoldable pub ensure_root_ca : Draw → Directory → Directory
  unfolding write_pair
  ensure_root_ca draw dir =
      if exists ca_key dir && exists ca_cert dir
      then dir
      else write_pair ca_key ca_cert draw.key (pki.signed_pem (root_certificate pki draw) draw.key)
          dir

  -- `_load_ca`
  unfoldable pub load_ca : Directory → Result (Text × Certificate)
  load_ca dir = elim (read ca_key dir) [
    | raise e ↦ raise e
    | ok key_text ↦ elim (pki.load_key key_text) [
      | none ↦ raise value_error
      | some key ↦ elim (read ca_cert dir) [
        | raise e ↦ raise e
        | ok cert_text ↦ elim (pki.load_certificate cert_text) [
          | none ↦ raise value_error
          | some cert ↦ ok (key, cert)
        ]
      ]
    ]
  ]

  -- From the test on, with the root CA in place: issued by the root that is loaded.
  unfoldable pub issue : Text → Text → Text → Usage → List SanEntry → Draw → Io Directory (Unit {0})
  unfolding write_pair
  issue key_path cert_path common_name usage san draw dir =
      if exists key_path dir && exists cert_path dir then (ok tt, dir) else elim (load_ca dir) [
        | raise e ↦ (raise e, dir)
        | ok (root_key, root) ↦ (
          ok tt,
          write_pair key_path cert_path draw.key
              (pki.signed_pem (infrastructure_certificate pki root draw common_name usage san)
                root_key)
              dir,
        )
      ]

  unfoldable pub ensure_control_plane_server_cert :
      List Text → Draw → Draw → Io Directory (Unit {0})
  ensure_control_plane_server_cert extra root_draw draw = do
    modify (ensure_root_ca root_draw)
    issue server_key server_cert (codes "control_plane") server_auth
        (map (san_entry pki) (control_plane_server_names extra)) draw

  -- `_issue_leaf_cert`
  unfoldable pub issue_leaf_cert :
      Text → Text → Text → Usage → List Text → Draw → Draw → Io Directory (Unit {0})
  issue_leaf_cert key_path cert_path common_name usage san_names root_draw draw = do
    modify (ensure_root_ca root_draw)
    issue key_path cert_path common_name usage (map (san_entry pki) san_names) draw

  unfoldable pub ensure_redis_server_cert : List Text → Draw → Draw → Io Directory (Unit {0})
  unfolding issue_leaf_cert
  ensure_redis_server_cert extra =
      issue_leaf_cert redis_server_key redis_server_cert (codes "redis") server_auth
        (redis_server_names extra)

  unfoldable pub ensure_redis_admin_client_cert : Draw → Draw → Io Directory (Unit {0})
  unfolding issue_leaf_cert
  ensure_redis_admin_client_cert =
      issue_leaf_cert redis_admin_key redis_admin_cert redis_admin_user client_auth []

  -- The command `init_ca`; `draw` numbers what its seven generations would draw.
  unfoldable pub init_ca : List Text → List Text → (ℕ → Draw) → Io Directory (Unit {0})
  init_ca server_extra redis_extra draw = do
    modify (ensure_root_ca (draw 0))
    ensure_control_plane_server_cert server_extra (draw 1) (draw 2)
    ensure_redis_server_cert redis_extra (draw 3) (draw 4)
    ensure_redis_admin_client_cert (draw 5) (draw 6)

  -- The loaded root, as `sign_csr` uses it.
  unfoldable pub authority : Text → Certificate → Text → Crypto
  authority root_key root pem = record {
    load_csr = pki.load_csr;
    signed_pem = λ cert. pki.signed_pem cert root_key;
    hex = pki.hex;
    ca_subject = root.subject;
    ca_pem = pem;
  }

  -- `ca_cert_pem`
  unfoldable pub ca_cert_pem : Directory → Result Text
  ca_cert_pem dir = read ca_cert dir

  -- `sign_csr` with its first two lines.
  unfoldable pub sign_csr : Draw → Text → Text → ℕ → ℕ → ℕ → Io Directory (Text × Text × ℕ)
  unfolding authority
  sign_csr root_draw csr_pem common_name validity_days now serial dir =
      let dir' = ensure_root_ca root_draw dir in
      elim (load_ca dir') [
        | raise e ↦ (raise e, dir')
        | ok (root_key, root) ↦ (
          Ca.sign_csr (authority root_key root []) csr_pem common_name validity_days now serial,
          dir',
        )
      ]
