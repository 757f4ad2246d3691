-- ===== src/Acl/Reconcile.antt =====
-- What Redis holds after a reconciliation with the control plane's table of delegates.
use delegate_implementation.Base.{
  Text, text_eq_iff, List, [], ◌∷◌, none, some, Bool, not, ◌&&◌, ◌≡◌, refl, ap, ◌∙◌, if◌then◌else◌,
  keep, arith,
}
use delegate_implementation.Acl.{
  AclServer, is_delegate_user, after_reset, rules, contains, delete_all, set_all, stale_users,
  reconcile,
}

contains-keep :
    (u : Text) (p : Text → Bool) (xs : List Text) → contains u (keep p xs) ≡ (p u && contains u xs)
contains-keep u p [] = ground arith
contains-keep u p (x ∷ xs) = ground (arith, text_eq_iff x u, contains-keep u p xs)

module _ (server : AclServer) where
  open server use {
    State, users, rules_of, setuser, deluser, users-rules_of, rules_of-setuser, rules_of-deluser,
  }

  rules_of-delete_all :
      (us : List Text) (s : State) (v : Text)
      → rules_of (delete_all server us s) v ≡ (if contains v us then none else rules_of s v)
  unfolding delete_all
  rules_of-delete_all [] s v = refl
  rules_of-delete_all (u ∷ us) s v =
      ground (arith, rules_of-delete_all us (deluser u s) v, rules_of-deluser u v s)

  rules_of-set_all :
      (password : Text → Text) (us : List Text) (s : State) (v : Text)
      → rules_of (set_all server password us s) v
        ≡ (if contains v us then some (rules (password v) v) else rules_of s v)
  unfolding set_all rules
  rules_of-set_all password [] s v = refl
  rules_of-set_all password (u ∷ us) s v = ground (
    arith,
    text_eq_iff u v,
    rules_of-set_all password us (setuser u (rules (password u) u) s) v,
    rules_of-setuser u v (after_reset (password u) u) s,
  )

  contains-stale_users :
      (active : List Text) (s : State) (v : Text)
      → contains v (stale_users server active s)
        ≡ (not (contains v active) && (is_delegate_user v && contains v (users s)))
  unfolding stale_users
  contains-stale_users active s v =
      contains-keep v (λ u. not (contains u active)) (keep is_delegate_user (users s))
      ∙ ap (λ b. not (contains v active) && b) (contains-keep v is_delegate_user (users s))

  -- After a reconciliation every active delegate has a user with exactly its rules, every other
  -- user whose name has the form of a delegate's id is gone, and all other users (such as
  -- `cp-admin` and `default`) are as before.
  pub rules_of-reconcile :
      (password : Text → Text) (active : List Text) (s : State) (v : Text)
      → rules_of (reconcile server password active s) v ≡ (
          if contains v active
          then some (rules (password v) v)
          else if is_delegate_user v
          then none
          else rules_of s v)
  unfolding reconcile
  rules_of-reconcile password active s v = ground (
    arith,
    rules_of-set_all password active (delete_all server (stale_users server active s) s) v,
    rules_of-delete_all (stale_users server active s) s v,
    contains-stale_users active s v,
    users-rules_of s v,
  )
