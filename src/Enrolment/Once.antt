-- ===== src/Enrolment/Once.antt =====
-- A worker that has registered keeps its identity.
use delegate_implementation.Base.{
  ℕ, Text, text_eq, List, some, Option-cases, true, ◌&&◌, Bool-cases, ◌≡◌, ◌⊎◌, refl, inl, inr,
  arith,
}
use delegate_implementation.Platform.{Platform}
use delegate_implementation.Files.{Directory, exists}
use delegate_implementation.Enrolment.{
  Identity, Api, Encoding, Probe, Wait, reachable, gave_up, waiting, registered, identity_path,
  cert_path, Settings, wait_for_control_plane, register_body, identity_of, store, register_fresh,
  register,
}

Wait-cases : (w : Wait) → (w ≡ reachable) ⊎ (w ≡ gave_up) ⊎ (w ≡ waiting)
Wait-cases reachable = inl refl
Wait-cases gave_up = inr (inl refl)
Wait-cases waiting = inr (inr refl)

module _ (p : Platform) (encoding : Encoding) (api : Api) where
  -- The files hold the identity, and `register` will find it.
  record Holds (identity : Identity) (dir : Directory) : Type 0 where
    text : Text
    stored : dir identity_path ≡ some text
    reads : encoding.load text ≡ some identity
    certified : exists cert_path dir ≡ true

  register_fresh-Holds :
      (s : Settings) (dir dir' : Directory) (remote remote' : api.State) (identity : Identity)
      → register_fresh p encoding api s dir remote ≡ (registered identity, dir', remote')
      → Holds identity dir'
  unfolding register_fresh store text_eq
  register_fresh-Holds s dir dir' remote remote' identity h =
      elim (Option-cases (api.post_token s.tenant_id remote).0) [
        | inl refused ↦ absurd (ground arith)
        | inr (token, given) ↦
            elim (Option-cases
              (api.post_register (register_body p encoding api s token)
                (api.post_token s.tenant_id remote).1).0) [
                  | inl refused ↦ absurd (ground arith)
                  | inr (reply, given') ↦
                      let same : identity ≡ identity_of p encoding api s reply = ground arith in
                      let made : dir' ≡ store p encoding api s reply dir = ground arith in
                      record {
                        text = encoding.dump (identity_of p encoding api s reply);
                        stored = rw made refl;
                        reads = rw same (encoding.load-dump (identity_of p encoding api s reply));
                        certified = rw made refl;
                      }
                ]
      ]

  register-Holds :
      (s : Settings) (start : ℕ) (probes : List Probe) (dir dir' : Directory)
      (remote remote' : api.State) (identity : Identity)
      → register p encoding api s start probes dir remote ≡ (registered identity, dir', remote')
      → Holds identity dir'
  unfolding register
  register-Holds s start probes dir dir' remote remote' identity h =
      elim (Bool-cases (exists identity_path dir && exists cert_path dir)) [
        | inl there ↦ elim (Option-cases (dir identity_path)) [
          | inl missing ↦ absurd (ground arith)
          | inr (text, stored) ↦ elim (Option-cases (encoding.load text)) [
            | inl unread ↦ absurd (ground arith)
            | inr (found, read) ↦
                let same : dir' ≡ dir = ground arith in
                record {
                  text = text;
                  stored = rw same stored;
                  reads = ground arith;
                  certified = rw same (ground arith);
                }
          ]
        ]
        | inr missing ↦ elim (Wait-cases (wait_for_control_plane 60 start probes)) [
          | inl answered ↦ register_fresh-Holds s dir dir' remote remote' identity (ground arith)
          | inr (inl late) ↦ absurd (ground arith)
          | inr (inr open_end) ↦ absurd (ground arith)
        ]
      ]

  Holds-register :
      (s : Settings) (start : ℕ) (probes : List Probe) (dir : Directory) (remote : api.State)
      (identity : Identity)
      → Holds identity dir
      → register p encoding api s start probes dir remote ≡ (registered identity, dir, remote)
  unfolding register
  Holds-register s start probes dir remote identity k =
      ground (arith, k.stored, k.reads, k.certified)

  -- After a `register` that has returned, every later one returns the same identity, and neither
  -- sends a request nor writes a file, whatever it is configured with.
  pub register-again :
      (s later : Settings) (start start' : ℕ) (probes probes' : List Probe) (dir dir' : Directory)
      (remote remote' remote'' : api.State) (identity : Identity)
      → register p encoding api s start probes dir remote ≡ (registered identity, dir', remote')
      → register p encoding api later start' probes' dir' remote''
        ≡ (registered identity, dir', remote'')
  register-again s later start start' probes probes' dir dir' remote remote' remote'' identity h =
      Holds-register later start' probes' dir' remote'' identity
        (register-Holds s start probes dir dir' remote remote' identity h)
