-- ===== src/Samples/Json.antt =====
-- A toy encoding of the worker's identity, which is read back.
use delegate_implementation.Base.{ℕ, Text, [], ◌∷◌, ◌++◌, some, ◌≡◌}
use delegate_implementation.Enrolment.{Identity, Encoding}
use delegate_implementation.Samples.Pem.{joined, head_of, tail_of, parts}

abbrev put_identity : Identity → Text
put_identity i =
    joined i.delegate_id
      (joined i.tenant_id (joined i.name (joined i.queue (i.cert_expires_at ∷ []))))

abbrev first_number : Text → ℕ
first_number [] = 0
first_number (n ∷ t) = n

abbrev get_identity : Text → Identity
get_identity t = record {
  delegate_id = head_of t;
  tenant_id = head_of (tail_of t);
  name = head_of (tail_of (tail_of t));
  queue = head_of (tail_of (tail_of (tail_of t)));
  cert_expires_at = first_number (tail_of (tail_of (tail_of (tail_of t))));
}

pub get_identity-put_identity : (i : Identity) → some (get_identity (put_identity i)) ≡ some i
get_identity-put_identity i = simp parts

abbrev pub encoding : Encoding
encoding = record {
  dump = put_identity;
  load = λ t. some (get_identity t);
  key_pem = λ key. key;
  csr_pem = λ key name. key ++ name;
  load-dump = get_identity-put_identity;
}
