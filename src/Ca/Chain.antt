-- ===== src/Ca/Chain.antt =====
-- What the certificates of the directory rest on.
use delegate_implementation.Base.{
  ℕ, codes, text_eq, Text, List, [], map, none, some, true, false, ok, ◌≡◌, ◌∙◌, refl, arith,
}
use delegate_implementation.Files.{Directory, ◌>>◌, >>=_ok}
use delegate_implementation.Ca.{Certificate, SanEntry, Usage, client_auth, server_auth}
use delegate_implementation.Ca.Issue.{
  Pki, Draw, ca_key, ca_cert, server_key, server_cert, redis_server_key, redis_server_cert,
  redis_admin_key, redis_admin_cert, redis_admin_user, san_entry, control_plane_server_names,
  redis_server_names, root_certificate, infrastructure_certificate, write_pair, ensure_root_ca,
  load_ca, issue, issue_leaf_cert, ensure_control_plane_server_cert, ensure_redis_server_cert,
  ensure_redis_admin_client_cert, init_ca,
}

module _ (pki : Pki) where
  -- A pair of files of the directory: a key, and the certificate of that key, signed by the root.
  pub record IsIssued (root_key : Text) (root : Certificate) (key_path cert_path common_name : Text)
      (usage : Usage) (dir : Directory) : Type 0 where
    pub key : Text
    pub cert : Certificate
    pub stored_key : dir key_path ≡ some (pki.key_pem key)
    pub stored_cert : dir cert_path ≡ some (pki.signed_pem cert root_key)
    pub of_key : cert.public_key ≡ pki.public_key key
    pub subject : cert.subject.common_name ≡ common_name
    pub issuer : cert.issuer ≡ root.subject
    pub is_leaf : cert.is_ca ≡ false
    pub for_usage : cert.extended_key_usage ≡ some usage
    pub verified : pki.verifies root.public_key (pki.signed_pem cert root_key) ≡ true

  -- The directory holds a root CA, and the three certificates that it has issued.
  pub record IsChain (dir : Directory) : Type 0 where
    pub root_key : Text
    pub root : Certificate
    pub loaded : load_ca pki dir ≡ ok (root_key, root)
    pub is_root : root.is_ca ≡ true
    pub server :
        IsIssued root_key root server_key server_cert (codes "control_plane") server_auth dir
    pub redis :
        IsIssued root_key root redis_server_key redis_server_cert (codes "redis") server_auth dir
    pub admin :
        IsIssued root_key root redis_admin_key redis_admin_cert redis_admin_user client_auth dir

  -- None of the four keys is there.
  pub record IsFresh (dir : Directory) : Type 0 where
    pub no_root : dir ca_key ≡ none
    pub no_server : dir server_key ≡ none
    pub no_redis : dir redis_server_key ≡ none
    pub no_admin : dir redis_admin_key ≡ none

  load_ca-pair :
      (key : Text) (cert : Certificate) (dir : Directory)
      → dir ca_key ≡ some (pki.key_pem key)
      → dir ca_cert ≡ some (pki.signed_pem cert key)
      → load_ca pki dir ≡ ok (key, cert)
  unfolding load_ca
  load_ca-pair key cert dir k c =
      ground (arith, pki.load_key-key_pem key, pki.load_certificate-signed_pem cert key)

  issue-new :
      (key_path cert_path common_name : Text) (usage : Usage) (san : List SanEntry) (draw : Draw)
      (root_key : Text) (root : Certificate) (dir : Directory)
      → dir key_path ≡ none
      → load_ca pki dir ≡ ok (root_key, root)
      → issue pki key_path cert_path common_name usage san draw dir ≡ (
        ok tt,
        write_pair pki key_path cert_path draw.key
            (pki.signed_pem
              (infrastructure_certificate pki root draw common_name usage san)
              root_key)
            dir,
      )
  unfolding issue
  issue-new key_path cert_path common_name usage san draw root_key root dir free loaded =
      rw (free, loaded)

  -- The directory after `init_ca` on a fresh one.
  module _ (server_extra redis_extra : List Text) (draw : ℕ → Draw) (dir : Directory) where
    abbrev pub root : Certificate
    root = root_certificate pki (draw 0)

    abbrev pub root_key : Text
    root_key = (draw 0).key

    abbrev pub dir₀ : Directory
    dir₀ = write_pair pki ca_key ca_cert root_key (pki.signed_pem root root_key) dir

    abbrev pub server_leaf : Certificate
    server_leaf =
        infrastructure_certificate pki root (draw 2) (codes "control_plane") server_auth
          (map (san_entry pki) (control_plane_server_names server_extra))

    abbrev pub dir₁ : Directory
    dir₁ =
        write_pair pki server_key server_cert (draw 2).key (pki.signed_pem server_leaf root_key)
          dir₀

    abbrev pub redis_leaf : Certificate
    redis_leaf =
        infrastructure_certificate pki root (draw 4) (codes "redis") server_auth
          (map (san_entry pki) (redis_server_names redis_extra))

    abbrev pub dir₂ : Directory
    dir₂ =
        write_pair pki redis_server_key redis_server_cert (draw 4).key
          (pki.signed_pem redis_leaf root_key) dir₁

    abbrev pub admin_leaf : Certificate
    admin_leaf = infrastructure_certificate pki root (draw 6) redis_admin_user client_auth []

    abbrev pub dir₃ : Directory
    dir₃ =
        write_pair pki redis_admin_key redis_admin_cert (draw 6).key
          (pki.signed_pem admin_leaf root_key) dir₂

    pub init_ca_fresh : IsFresh dir → init_ca pki server_extra redis_extra draw dir ≡ (ok tt, dir₃)
    unfolding init_ca ensure_root_ca write_pair ensure_control_plane_server_cert
        ensure_redis_server_cert ensure_redis_admin_client_cert issue_leaf_cert text_eq
    init_ca_fresh f =
        let no = f.no_root in
        let h₀ : ensure_root_ca pki (draw 0) dir ≡ dir₀ = rw no in
        let l₀ : load_ca pki dir₀ ≡ ok (root_key, root) =
          load_ca-pair root_key root dir₀ refl refl in
        let l₁ : load_ca pki dir₁ ≡ ok (root_key, root) =
          load_ca-pair root_key root dir₁ refl refl in
        let l₂ : load_ca pki dir₂ ≡ ok (root_key, root) =
          load_ca-pair root_key root dir₂ refl refl in
        let h₁ : ensure_control_plane_server_cert pki server_extra (draw 1) (draw 2) dir₀
            ≡ (ok tt, dir₁) =
          issue-new server_key server_cert (codes "control_plane") server_auth
            (map (san_entry pki) (control_plane_server_names server_extra)) (draw 2) root_key root
            dir₀ f.no_server l₀ in
        let h₂ : ensure_redis_server_cert pki redis_extra (draw 3) (draw 4) dir₁ ≡ (ok tt, dir₂) =
          issue-new redis_server_key redis_server_cert (codes "redis") server_auth
            (map (san_entry pki) (redis_server_names redis_extra)) (draw 4) root_key root dir₁
            f.no_redis l₁ in
        let h₃ : ensure_redis_admin_client_cert pki (draw 5) (draw 6) dir₂ ≡ (ok tt, dir₃) =
          issue-new redis_admin_key redis_admin_cert redis_admin_user client_auth [] (draw 6)
            root_key root dir₂ f.no_admin l₂ in
        rw h₀ (
          >>=_ok (ensure_control_plane_server_cert pki server_extra (draw 1) (draw 2))
            (λ _.
              ensure_redis_server_cert pki redis_extra (draw 3) (draw 4)
              >> ensure_redis_admin_client_cert pki (draw 5) (draw 6))
            dir₀ dir₁ tt h₁
          ∙ (>>=_ok (ensure_redis_server_cert pki redis_extra (draw 3) (draw 4))
                (λ _. ensure_redis_admin_client_cert pki (draw 5) (draw 6)) dir₁ dir₂ tt h₂
              ∙ h₃))

    dir₃-IsChain : IsChain dir₃
    unfolding write_pair text_eq root_certificate infrastructure_certificate
    dir₃-IsChain = record {
      root_key = root_key;
      root = root;
      loaded = load_ca-pair root_key root dir₃ refl refl;
      is_root = refl;
      server = record {
        key = (draw 2).key;
        cert = server_leaf;
        stored_key = refl;
        stored_cert = refl;
        of_key = refl;
        subject = refl;
        issuer = refl;
        is_leaf = refl;
        for_usage = refl;
        verified = pki.verifies-signed_pem server_leaf root_key;
      };
      redis = record {
        key = (draw 4).key;
        cert = redis_leaf;
        stored_key = refl;
        stored_cert = refl;
        of_key = refl;
        subject = refl;
        issuer = refl;
        is_leaf = refl;
        for_usage = refl;
        verified = pki.verifies-signed_pem redis_leaf root_key;
      };
      admin = record {
        key = (draw 6).key;
        cert = admin_leaf;
        stored_key = refl;
        stored_cert = refl;
        of_key = refl;
        subject = refl;
        issuer = refl;
        is_leaf = refl;
        for_usage = refl;
        verified = pki.verifies-signed_pem admin_leaf root_key;
      };
    }

  -- On a directory that holds none of the four keys, `init_ca` returns, and leaves a root CA and
  -- the certificates of the control plane, of Redis and of the Redis user `cp-admin`, each with its
  -- key, named and usable as intended, and signed by that root.
  pub init_ca-IsChain :
      (server_extra redis_extra : List Text) (draw : ℕ → Draw) (dir : Directory)
      → IsFresh dir
      → (dir' : Directory) × (init_ca pki server_extra redis_extra draw dir ≡ (ok tt, dir'))
        × IsChain dir'
  init_ca-IsChain server_extra redis_extra draw dir f = (
    dir₃ server_extra redis_extra draw dir,
    init_ca_fresh server_extra redis_extra draw dir f,
    dir₃-IsChain server_extra redis_extra draw dir,
  )
