-- ===== src/Acl/Tests.antt =====
-- The rules and the reconciliation on a table with a delegate's user, a stale one and `cp-admin`.
use delegate_implementation.Base.{Text, codes, text_eq, List, [], ◌∷◌, ◌≡◌, refl, true, false}
use delegate_implementation.Acl.{
  is_delegate_user, matches, rules, delete_all, set_all, stale_users, reconcile,
}
use delegate_implementation.Samples.Server.{acl_server, rules_in, without}

program : Unit {0}
unfolding is_delegate_user matches delete_all set_all stale_users reconcile rules_in without text_eq
program = tt

abbrev stale : Text
stale = codes "01234567-89ab-cdef-0123-456789abcdef"

abbrev fresh : Text
fresh = codes "f1234567-89ab-cdef-0123-456789abcdef"

abbrev users_before : List (Text × List Text)
users_before = (codes "cp-admin", codes "on" ∷ []) ∷ (stale, codes "on" ∷ []) ∷ []

stale-is_delegate_user : is_delegate_user stale ≡ true
unfolding program
stale-is_delegate_user = refl

admin-is_no_delegate_user : is_delegate_user (codes "cp-admin") ≡ false
unfolding program
admin-is_no_delegate_user = refl

stale_is_deleted :
    reconcile acl_server (λ u. codes "p") (fresh ∷ []) users_before
    ≡ (fresh, rules (codes "p") fresh) ∷ (codes "cp-admin", codes "on" ∷ []) ∷ []
unfolding program
stale_is_deleted = refl
