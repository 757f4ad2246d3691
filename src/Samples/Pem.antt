-- ===== src/Samples/Pem.antt =====
-- A toy encoding of keys and certificates, which is read back, and a Pki over it.
use delegate_implementation.Base.{
  ℕ, zero, suc, Text, text_eq, List, [], ◌∷◌, ◌++◌, length, take, drop, Option, none, some, Bool,
  true, false, ◌==◌, if◌then◌else◌, ◌≡◌, ◌∙◌, refl, ap, text_eq_refl,
}
use delegate_implementation.Ca.{
  Name, SanEntry, ip_address, dns_name, KeyUsage, Usage, client_auth, server_auth, Certificate,
}
use delegate_implementation.Ca.Issue.{Pki}

-- Two texts as one: the length of the first comes before them.
abbrev pub joined : Text → Text → Text
joined a b = length a ∷ (a ++ b)

unfoldable pub head_of : Text → Text
head_of [] = []
head_of (n ∷ t) = take n t

unfoldable pub tail_of : Text → Text
tail_of [] = []
tail_of (n ∷ t) = drop n t

take-append : (a b : Text) → take (length a) (a ++ b) ≡ a
take-append [] b = refl
take-append (x ∷ a) b = ap (◌∷◌ x) (take-append a b)

drop-append : (a b : Text) → drop (length a) (a ++ b) ≡ b
drop-append [] b = refl
drop-append (x ∷ a) b = drop-append a b

pub head_of-joined : (a b : Text) → head_of (joined a b) ≡ a
unfolding head_of
head_of-joined a b = take-append a b

pub tail_of-joined : (a b : Text) → tail_of (joined a b) ≡ b
unfolding tail_of
tail_of-joined a b = drop-append a b

pub ruleset parts = (head_of-joined, tail_of-joined)

abbrev put_bool : Bool → Text
put_bool b = if b then 1 ∷ [] else []

abbrev get_bool : Text → Bool
get_bool [] = false
get_bool (x ∷ t) = true

get_bool-put_bool : (b : Bool) → get_bool (put_bool b) ≡ b
get_bool-put_bool true = refl
get_bool-put_bool false = refl

abbrev put_name : Name → Text
put_name n = joined n.common_name (elim n.organization [ none ↦ [] | some t ↦ 0 ∷ t ])

abbrev get_option : Text → Option Text
get_option [] = none
get_option (x ∷ t) = some t

get_option-put : (o : Option Text) → get_option (elim o [ none ↦ [] | some t ↦ 0 ∷ t ]) ≡ o
get_option-put none = refl
get_option-put (some t) = refl

abbrev get_name : Text → Name
get_name t = record { common_name = head_of t; organization = get_option (tail_of t) }

get_name-put_name : (n : Name) → get_name (put_name n) ≡ n
get_name-put_name n = simp (parts, get_option-put)

abbrev put_key_usage : Option KeyUsage → Text
put_key_usage none = []
put_key_usage (some u) =
    0
    ∷ joined (put_bool u.digital_signature) (
        joined (put_bool u.key_encipherment)
          (joined (put_bool u.key_cert_sign) (put_bool u.crl_sign)))

abbrev get_key_usage : Text → Option KeyUsage
get_key_usage [] = none
get_key_usage (x ∷ t) = some (record {
  digital_signature = get_bool (head_of t);
  key_encipherment = get_bool (head_of (tail_of t));
  key_cert_sign = get_bool (head_of (tail_of (tail_of t)));
  crl_sign = get_bool (tail_of (tail_of (tail_of t)));
})

get_key_usage-put_key_usage : (u : Option KeyUsage) → get_key_usage (put_key_usage u) ≡ u
get_key_usage-put_key_usage none = refl
get_key_usage-put_key_usage (some u) = simp (parts, get_bool-put_bool)

abbrev put_usage : Option Usage → Text
put_usage none = []
put_usage (some client_auth) = 1 ∷ []
put_usage (some server_auth) = 2 ∷ 2 ∷ []

abbrev get_usage : Text → Option Usage
get_usage [] = none
get_usage (x ∷ []) = some client_auth
get_usage (x ∷ y ∷ t) = some server_auth

get_usage-put_usage : (u : Option Usage) → get_usage (put_usage u) ≡ u
get_usage-put_usage none = refl
get_usage-put_usage (some client_auth) = refl
get_usage-put_usage (some server_auth) = refl

abbrev put_entry : SanEntry → Text
put_entry (ip_address t) = joined [] t
put_entry (dns_name t) = joined (1 ∷ []) t

abbrev get_entry : Text → SanEntry
get_entry t = if get_bool (head_of t) then dns_name (tail_of t) else ip_address (tail_of t)

get_entry-put_entry : (e : SanEntry) → get_entry (put_entry e) ≡ e
get_entry-put_entry (ip_address t) = simp parts
get_entry-put_entry (dns_name t) = simp parts

unfoldable pub put_entries : List SanEntry → Text
put_entries [] = []
put_entries (e ∷ es) = joined (put_entry e) (put_entries es)

unfoldable pub get_entries : ℕ → Text → List SanEntry
get_entries zero t = []
get_entries (suc n) t = get_entry (head_of t) ∷ get_entries n (tail_of t)

get_entries-put_entries : (es : List SanEntry) → get_entries (length es) (put_entries es) ≡ es
unfolding get_entries put_entries
get_entries-put_entries [] = refl
get_entries-put_entries (e ∷ es) = simp (parts, get_entry-put_entry, get_entries-put_entries es)

abbrev put_certificate : Certificate → Text
put_certificate c = joined (put_name c.subject) (
    joined (put_name c.issuer) (
      joined c.public_key (
        joined (put_key_usage c.key_usage) (
          joined (put_usage c.extended_key_usage) (
            c.serial_number
            ∷ c.not_valid_before
            ∷ c.not_valid_after
            ∷ (if c.is_ca then 1 else 0)
            ∷ length c.san
            ∷ put_entries c.san)))))

abbrev get_numbers : Name → Name → Text → Option KeyUsage → Option Usage → Text → Option Certificate
get_numbers subject issuer key usage eku (serial ∷ before ∷ after ∷ ca ∷ n ∷ t) = some (record {
  subject = subject;
  issuer = issuer;
  public_key = key;
  serial_number = serial;
  not_valid_before = before;
  not_valid_after = after;
  is_ca = ca == 1;
  key_usage = usage;
  extended_key_usage = eku;
  san = get_entries n t;
})
get_numbers subject issuer key usage eku _ = none

abbrev get_certificate : Text → Option Certificate
get_certificate t =
    get_numbers (get_name (head_of t)) (get_name (head_of (tail_of t)))
      (head_of (tail_of (tail_of t))) (get_key_usage (head_of (tail_of (tail_of (tail_of t)))))
      (get_usage (head_of (tail_of (tail_of (tail_of (tail_of t))))))
      (tail_of (tail_of (tail_of (tail_of (tail_of t)))))

flag_lem : (b : Bool) → ((if b then 1 else 0) == 1) ≡ b
flag_lem true = refl
flag_lem false = refl

get_certificate-put_certificate : (c : Certificate) → get_certificate (put_certificate c) ≡ some c
get_certificate-put_certificate c = simp (
  parts, get_option-put, get_key_usage-put_key_usage, get_usage-put_usage, get_entries-put_entries,
  flag_lem,
)

-- A PEM is the key that has signed it, before what it says.
pub load_signed :
    (c : Certificate) (key : Text)
    → get_certificate (tail_of (joined key (put_certificate c))) ≡ some c
load_signed c key =
    ap get_certificate (tail_of-joined key (put_certificate c)) ∙ get_certificate-put_certificate c

pub verified :
    (c : Certificate) (key : Text) → text_eq (head_of (joined key (put_certificate c))) key ≡ true
verified c key = rw (head_of-joined key (put_certificate c)) (text_eq_refl key)

abbrev pub pki : Pki
pki = record {
  load_csr = λ pem. some (record { is_signature_valid = true; public_key = pem });
  key_pem = λ key. key;
  load_key = some;
  public_key = λ key. key;
  signed_pem = λ cert key. joined key (put_certificate cert);
  load_certificate = λ pem. get_certificate (tail_of pem);
  verifies = λ key pem. text_eq (head_of pem) key;
  hex = λ n. n ∷ [];
  parse_ip = λ t. none;
  load_key-key_pem = λ key. refl;
  load_certificate-signed_pem = load_signed;
  verifies-signed_pem = verified;
}
