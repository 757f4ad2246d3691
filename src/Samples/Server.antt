-- ===== src/Samples/Server.antt =====
-- A table of Redis users and a certificate authority on which the definitions run.
use delegate_implementation.Base.{
  Text, codes, text_eq, text_eq_iff, List, [], ◌∷◌, map, any, Option, none, some, true, false, ◌≡◌,
  refl, arith, if◌then◌else◌,
}
use delegate_implementation.Acl.{AclServer}
use delegate_implementation.Ca.{Crypto, named}

abbrev pub Users : Type 0
Users = List (Text × List Text)

abbrev pub names : Users → List Text
names = map (λ e. e.0)

unfoldable pub rules_in : Users → Text → Option (List Text)
rules_in [] v = none
rules_in ((u, rules) ∷ s) v = if text_eq u v then some rules else rules_in s v

unfoldable pub without : Text → Users → Users
without u [] = []
without u ((v, rules) ∷ s) = if text_eq u v then without u s else (v, rules) ∷ without u s

pub names-rules_in :
    (s : Users) (u : Text)
    → any (λ v. text_eq v u) (names s) ≡ elim (rules_in s u) [ none ↦ false | some _ ↦ true ]
unfolding rules_in
names-rules_in [] u = refl
names-rules_in ((v, rules) ∷ s) u = ground (arith, names-rules_in s u)

pub rules_in-cons :
    (u v : Text) (rules : List Text) (s : Users)
    → rules_in ((u, rules) ∷ s) v ≡ (if text_eq u v then some rules else rules_in s v)
unfolding rules_in
rules_in-cons u v rules s = refl

pub rules_in-without :
    (u v : Text) (s : Users)
    → rules_in (without u s) v ≡ (if text_eq u v then none else rules_in s v)
unfolding rules_in without
rules_in-without u v [] = ground arith
rules_in-without u v ((w, rules) ∷ s) =
    ground (arith, text_eq_iff u w, text_eq_iff w v, text_eq_iff u v, rules_in-without u v s)

abbrev pub acl_server : AclServer
acl_server = record {
  State = Users;
  users = names;
  rules_of = rules_in;
  setuser = λ u rules s. (u, rules) ∷ s;
  deluser = without;
  users-rules_of = names-rules_in;
  rules_of-setuser = λ u v rules s. rules_in-cons u v (codes "reset" ∷ rules) s;
  rules_of-deluser = rules_in-without;
}

-- Every request is readable and holds its own text as its key.
abbrev pub crypto : Crypto
crypto = record {
  load_csr = λ pem. some (record { is_signature_valid = true; public_key = pem });
  signed_pem = λ cert. cert.public_key;
  hex = λ n. n ∷ [];
  ca_subject = named (codes "root");
  ca_pem = codes "ca";
}
