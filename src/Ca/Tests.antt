-- ===== src/Ca/Tests.antt =====
-- The certificate authority run on an empty directory, and its theorems there.
use delegate_implementation.Base.{ℕ, Text, codes, text_eq, [], ◌∷◌, none, true, ok, ◌≡◌, refl}
use delegate_implementation.Files.{Directory}
use delegate_implementation.Ca
use delegate_implementation.Ca.{leaf_certificate}
use delegate_implementation.Ca.Issue.{
  Draw, root_certificate, infrastructure_certificate, san_entry, write_pair, ensure_root_ca,
  load_ca, issue, issue_leaf_cert, ensure_control_plane_server_cert, ensure_redis_server_cert,
  ensure_redis_admin_client_cert, init_ca, authority, sign_csr,
}
use delegate_implementation.Ca.Chain.{IsFresh, IsChain, init_ca-IsChain, dir₃}
use delegate_implementation.Samples.Pem.{pki, head_of, tail_of, put_entries, get_entries}

abbrev empty : Directory
empty = λ name. none

abbrev draw : ℕ → Draw
draw n = record { key = 7 ∷ n ∷ []; serial = n; now = 1000 }

is_fresh : IsFresh pki empty
is_fresh = record { no_root = refl; no_server = refl; no_redis = refl; no_admin = refl }

init_ca-IsChain_example :
    (dir' : Directory) × (init_ca pki [] [] draw empty ≡ (ok tt, dir')) × IsChain pki dir'
init_ca-IsChain_example = init_ca-IsChain pki [] [] draw empty is_fresh

abbrev made : Directory
made = dir₃ pki [] [] draw empty

program : Unit {0}
unfolding text_eq root_certificate infrastructure_certificate san_entry write_pair ensure_root_ca
    load_ca issue issue_leaf_cert ensure_control_plane_server_cert ensure_redis_server_cert
    ensure_redis_admin_client_cert init_ca authority sign_csr Ca.sign_csr leaf_certificate head_of
    tail_of put_entries get_entries
program = tt

abbrev pem : Text
unfolding program
pem =
    pki.signed_pem
      (leaf_certificate (root_certificate pki (draw 0)).subject
        (record { is_signature_valid = true; public_key = codes "k" }) (codes "d") 1 1000 5)
      (7 ∷ 0 ∷ [])

signs :
    sign_csr pki (draw 1) (codes "k") (codes "d") 1 1000 5 made ≡ (ok (pem, 5 ∷ [], 87400), made)
unfolding program pem
signs = refl
