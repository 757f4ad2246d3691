-- ===== src/Ca/Once.antt =====
-- A certificate that is there is never issued again.
use delegate_implementation.Base.{
  ℕ, codes, ◌||◌, text_eq, text_eq_iff, Text, List, [], map, true, ok, ◌≡◌, ◌∙◌, arith,
}
use delegate_implementation.Files.{Directory, exists, Io, ◌>>◌, >>=-eq-ok, >>=_ok}
use delegate_implementation.Ca.{SanEntry, Usage, client_auth, server_auth}
use delegate_implementation.Ca.Issue.{
  Pki, Draw, ca_key, ca_cert, server_key, server_cert, redis_server_key, redis_server_cert,
  redis_admin_key, redis_admin_cert, redis_admin_user, san_entry, control_plane_server_names,
  redis_server_names, write_pair, ensure_root_ca, issue, issue_leaf_cert,
  ensure_control_plane_server_cert, ensure_redis_server_cert, ensure_redis_admin_client_cert,
  init_ca,
}

abbrev HasPair : Text → Text → Directory → Type 0
HasPair key_path cert_path dir = (exists key_path dir ≡ true) × (exists cert_path dir ≡ true)

module _ (pki : Pki) where
  exists-write_pair :
      (other key_path cert_path key pem : Text) (dir : Directory)
      → exists other (write_pair pki key_path cert_path key pem dir)
        ≡ (text_eq cert_path other || (text_eq key_path other || exists other dir))
  unfolding write_pair
  exists-write_pair other key_path cert_path key pem dir = ground arith

  exists-ensure_root_ca :
      (other : Text) (draw : Draw) (dir : Directory)
      → exists other dir ≡ true
      → exists other (ensure_root_ca pki draw dir) ≡ true
  unfolding ensure_root_ca
  exists-ensure_root_ca other draw dir h = ground arith

  ensure_root_ca-HasPair :
      (draw : Draw) (dir : Directory) → HasPair ca_key ca_cert (ensure_root_ca pki draw dir)
  unfolding ensure_root_ca text_eq
  ensure_root_ca-HasPair draw dir = ground arith

  ensure_root_ca-again :
      (draw : Draw) (dir : Directory)
      → HasPair ca_key ca_cert dir
      → ensure_root_ca pki draw dir ≡ dir
  unfolding ensure_root_ca
  ensure_root_ca-again draw dir (k, c) = rw (k, c)

  module _ (key_path cert_path common_name : Text) (usage : Usage) (san : List SanEntry)
      (draw : Draw) where
    -- A call that returns leaves its pair, and all files that were there.
    issue-HasPair :
        (other : Text) (dir dir' : Directory)
        → issue pki key_path cert_path common_name usage san draw dir ≡ (ok tt, dir')
        → HasPair key_path cert_path dir' × (exists other dir ≡ true → exists other dir' ≡ true)
    unfolding issue
    issue-HasPair other dir dir' h =
        ground (arith, text_eq_iff key_path key_path, text_eq_iff cert_path cert_path)

    issue-again :
        (dir : Directory)
        → HasPair key_path cert_path dir
        → issue pki key_path cert_path common_name usage san draw dir ≡ (ok tt, dir)
    unfolding issue
    issue-again dir (k, c) = rw (k, c)

  -- The four pairs of files that `init_ca` makes.
  abbrev Complete : Directory → Type 0
  Complete dir =
      HasPair ca_key ca_cert dir
      × HasPair server_key server_cert dir
      × HasPair redis_server_key redis_server_cert dir
      × HasPair redis_admin_key redis_admin_cert dir

  -- `issue_leaf_cert` on files of any name.
  module _ (key_path cert_path common_name : Text) (usage : Usage) (san : List SanEntry)
      (root_draw draw : Draw) where
    abbrev leaf : Io Directory (Unit {0})
    leaf dir =
        issue pki key_path cert_path common_name usage san draw (ensure_root_ca pki root_draw dir)

    leaf-HasPair :
        (dir dir' : Directory)
        → leaf dir ≡ (ok tt, dir')
        → HasPair key_path cert_path dir'
          × ((other : Text) → exists other dir ≡ true → exists other dir' ≡ true)
    leaf-HasPair dir dir' h =
        let mid = ensure_root_ca pki root_draw dir in
        (
          (issue-HasPair key_path cert_path common_name usage san draw key_path mid dir' h).0,
          λ other there.
              (issue-HasPair key_path cert_path common_name usage san draw other mid dir' h).1
                (exists-ensure_root_ca other root_draw dir there),
        )

    leaf-again :
        (dir : Directory)
        → HasPair ca_key ca_cert dir
        → HasPair key_path cert_path dir
        → leaf dir ≡ (ok tt, dir)
    leaf-again dir root pair =
        rw (ensure_root_ca-again root_draw dir root)
          (issue-again key_path cert_path common_name usage san draw dir pair)

  -- The parts of `init_ca`, from the state after the root.
  module _ (server_extra redis_extra : List Text) (draw : ℕ → Draw) where
    abbrev server : Io Directory (Unit {0})
    server = ensure_control_plane_server_cert pki server_extra (draw 1) (draw 2)

    abbrev redis : Io Directory (Unit {0})
    redis = ensure_redis_server_cert pki redis_extra (draw 3) (draw 4)

    abbrev admin : Io Directory (Unit {0})
    admin = ensure_redis_admin_client_cert pki (draw 5) (draw 6)

    server-HasPair :
        (dir dir' : Directory)
        → server dir ≡ (ok tt, dir')
        → HasPair server_key server_cert dir'
          × ((other : Text) → exists other dir ≡ true → exists other dir' ≡ true)
    unfolding ensure_control_plane_server_cert
    server-HasPair =
        leaf-HasPair server_key server_cert (codes "control_plane") server_auth
          (map (san_entry pki) (control_plane_server_names server_extra)) (draw 1) (draw 2)

    redis-HasPair :
        (dir dir' : Directory)
        → redis dir ≡ (ok tt, dir')
        → HasPair redis_server_key redis_server_cert dir'
          × ((other : Text) → exists other dir ≡ true → exists other dir' ≡ true)
    unfolding ensure_redis_server_cert issue_leaf_cert
    redis-HasPair =
        leaf-HasPair redis_server_key redis_server_cert (codes "redis") server_auth
          (map (san_entry pki) (redis_server_names redis_extra)) (draw 3) (draw 4)

    admin-HasPair :
        (dir dir' : Directory)
        → admin dir ≡ (ok tt, dir')
        → HasPair redis_admin_key redis_admin_cert dir'
          × ((other : Text) → exists other dir ≡ true → exists other dir' ≡ true)
    unfolding ensure_redis_admin_client_cert issue_leaf_cert
    admin-HasPair =
        leaf-HasPair redis_admin_key redis_admin_cert redis_admin_user client_auth [] (draw 5)
          (draw 6)

    init_ca-Complete :
        (dir dir' : Directory)
        → init_ca pki server_extra redis_extra draw dir ≡ (ok tt, dir')
        → Complete dir'
    unfolding init_ca
    init_ca-Complete dir dir' h =
        let d₀ = ensure_root_ca pki (draw 0) dir in
        let root = ensure_root_ca-HasPair (draw 0) dir in
        let (_, d₁, h₁, k₁) = >>=-eq-ok server (λ _. redis >> admin) d₀ dir' tt h in
        let (_, d₂, h₂, h₃) = >>=-eq-ok redis (λ _. admin) d₁ dir' tt k₁ in
        let (own₁, keep₁) = server-HasPair d₀ d₁ h₁ in
        let (own₂, keep₂) = redis-HasPair d₁ d₂ h₂ in
        let (own₃, keep₃) = admin-HasPair d₂ dir' h₃ in
        let keep = λ (t : Text) (there : exists t d₁ ≡ true). keep₃ t (keep₂ t there) in
        (
          (keep ca_key (keep₁ ca_key root.0), keep ca_cert (keep₁ ca_cert root.1)),
          (keep server_key own₁.0, keep server_cert own₁.1),
          (keep₃ redis_server_key own₂.0, keep₃ redis_server_cert own₂.1),
          own₃,
        )

    init_ca-Complete_again :
        (dir : Directory)
        → Complete dir
        → init_ca pki server_extra redis_extra draw dir ≡ (ok tt, dir)
    unfolding init_ca ensure_control_plane_server_cert ensure_redis_server_cert
        ensure_redis_admin_client_cert issue_leaf_cert
    init_ca-Complete_again dir (root, own₁, own₂, own₃) =
        let h₁ : server dir ≡ (ok tt, dir) =
          leaf-again server_key server_cert (codes "control_plane") server_auth
            (map (san_entry pki) (control_plane_server_names server_extra)) (draw 1) (draw 2) dir
            root own₁ in
        let h₂ : redis dir ≡ (ok tt, dir) =
          leaf-again redis_server_key redis_server_cert (codes "redis") server_auth
            (map (san_entry pki) (redis_server_names redis_extra)) (draw 3) (draw 4) dir root
            own₂ in
        let h₃ : admin dir ≡ (ok tt, dir) =
          leaf-again redis_admin_key redis_admin_cert redis_admin_user client_auth [] (draw 5)
            (draw 6) dir root own₃ in
        rw (ensure_root_ca-again (draw 0) dir root) (
          >>=_ok server (λ _. redis >> admin) dir dir tt h₁
          ∙ (>>=_ok redis (λ _. admin) dir dir tt h₂ ∙ h₃))

  -- `init_ca` on a directory that a run of `init_ca` has left changes nothing, whatever keys, serial
  -- numbers, times and names the second run would use.
  pub init_ca-again :
      (server_extra redis_extra server_extra' redis_extra' : List Text) (draw draw' : ℕ → Draw)
      (dir dir' : Directory)
      → init_ca pki server_extra redis_extra draw dir ≡ (ok tt, dir')
      → init_ca pki server_extra' redis_extra' draw' dir' ≡ (ok tt, dir')
  init_ca-again server_extra redis_extra server_extra' redis_extra' draw draw' dir dir' h =
      init_ca-Complete_again server_extra' redis_extra' draw' dir'
        (init_ca-Complete server_extra redis_extra draw dir dir' h)
