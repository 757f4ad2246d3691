-- ===== src/Enrolment.antt =====
-- worker/worker_app/registration.py: `register`, which a worker calls when it starts. The files are
-- those of CERT_DIR, and the control plane's API is an interface.
pub mod Once
pub mod Served
mod Tests
use delegate_implementation.Base.{
  ℕ, ◌+◌, Text, codes, List, [], ◌∷◌, ◌++◌, Option, none, some, Bool, true, false, ◌&&◌, leb,
  if◌then◌else◌, ◌≡◌, Error, value_error, connection_error, os_error, runtime_error,
}
use delegate_implementation.Platform.{Platform, Fields}
use delegate_implementation.Files.{Directory, exists, write}

-- identity.json
pub record Identity : Type 0 where
  pub delegate_id : Text
  pub tenant_id : Text
  pub name : Text
  pub queue : Text
  pub cert_expires_at : ℕ

-- The answer of `/api/register/`.
pub record Registered : Type 0 where
  pub delegate_id : Text
  pub cert_pem : Text
  pub ca_cert_pem : Text
  pub cert_expires_at : ℕ

-- The POST requests of the worker; `none` where the request or `raise_for_status` raises.
pub record Api : Type 1 where
  pub State : Type 0
  pub post_token : Text → State → Option Text × State
  pub post_register : Fields → State → Option Registered × State

-- `json` on identity.json, and the PEM of a key and of a CSR, which a key and a common name make.
pub record Encoding : Type 0 where
  pub dump : Identity → Text
  -- `none` where it raises `ValueError`
  pub load : Text → Option Identity
  pub key_pem : Text → Text
  pub csr_pem : Text → Text → Text
  pub load-dump : (identity : Identity) → load (dump identity) ≡ some identity

-- One round of the wait: the clock, and whether the control plane answers.
pub record Probe : Type 0 where
  pub now : ℕ
  pub answers : Bool

-- How the wait ends; `waiting` where the input does.
pub data Wait : Type 0 where
  reachable gave_up waiting : Wait

pub data Outcome : Type 0 where
  registered : Identity → Outcome
  failed : Error → Outcome
  pending : Outcome

abbrev pub identity_path : Text
identity_path = codes "identity.json"

abbrev pub key_path : Text
key_path = codes "delegate.key"

abbrev pub cert_path : Text
cert_path = codes "delegate.crt"

abbrev pub ca_path : Text
ca_path = codes "ca.crt"

-- The loop of `_wait_for_control_plane`.
unfoldable pub wait_until : ℕ → List Probe → Wait
wait_until deadline [] = waiting
wait_until deadline (probe ∷ probes) =
    let rest = wait_until deadline probes in
    if leb deadline probe.now then gave_up else if probe.answers then reachable else rest

unfoldable pub wait_for_control_plane : ℕ → ℕ → List Probe → Wait
unfolding wait_until
wait_for_control_plane timeout start probes = wait_until (start + timeout) probes

-- What the worker is configured with, and the key that it would draw.
pub record Settings : Type 0 where
  pub tenant_id : Text
  pub name : Text
  pub queue : Text
  pub concurrency : ℕ
  pub key : Text

module _ (p : Platform) (encoding : Encoding) (api : Api) where
  -- The body of the request to register.
  unfoldable pub register_body : Settings → Text → Fields
  register_body s token =
      ("token", token)
      ∷ ("tenant_id", s.tenant_id)
      ∷ ("name", s.name)
      ∷ ("queue", s.queue)
      ∷ ("concurrency", p.str_int s.concurrency)
      ∷ ("csr_pem", encoding.csr_pem s.key (s.tenant_id ++ (codes ":" ++ s.name)))
      ∷ []

  abbrev pub identity_of : Settings → Registered → Identity
  identity_of s reply = record {
    delegate_id = reply.delegate_id;
    tenant_id = s.tenant_id;
    name = s.name;
    queue = s.queue;
    cert_expires_at = reply.cert_expires_at;
  }

  -- The four files, in the order in which they are written.
  unfoldable pub store : Settings → Registered → Directory → Directory
  store s reply dir = write identity_path (encoding.dump (identity_of s reply)) (
      write ca_path reply.ca_cert_pem
        (write cert_path reply.cert_pem (write key_path (encoding.key_pem s.key) dir)))

  -- The two requests, and what is stored.
  unfoldable pub register_fresh : Settings → Directory → api.State → Outcome × Directory × api.State
  unfolding register_body store
  register_fresh s dir remote =
      let (token?, remote') = api.post_token s.tenant_id remote in
      elim token? [
        | none ↦ (failed connection_error, dir, remote')
        | some token ↦
            let (reply?, remote'') = api.post_register (register_body s token) remote' in
            elim reply? [
              | none ↦ (failed connection_error, dir, remote'')
              | some reply ↦ (registered (identity_of s reply), store s reply dir, remote'')
            ]
      ]

  -- The identity that is there; both files are.
  unfoldable pub reuse : Directory → api.State → Outcome × Directory × api.State
  reuse dir remote = elim (dir identity_path) [
    | none ↦ (failed os_error, dir, remote)
    | some text ↦ elim (encoding.load text) [
      | none ↦ (failed value_error, dir, remote)
      | some identity ↦ (registered identity, dir, remote)
    ]
  ]

  unfoldable pub register :
      Settings → ℕ → List Probe → Directory → api.State → Outcome × Directory × api.State
  unfolding reuse
  register s start probes dir remote =
      if exists identity_path dir && exists cert_path dir
      then reuse dir remote
      else elim (wait_for_control_plane 60 start probes) [
        | waiting ↦ (pending, dir, remote)
        | gave_up ↦ (failed runtime_error, dir, remote)
        | reachable ↦ register_fresh s dir remote
      ]
