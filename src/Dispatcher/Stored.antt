-- ===== src/Dispatcher/Stored.antt =====
-- What every run of the machine of Lifecycle.antt, and so every watcher, leaves true.
use delegate_implementation.Base.{
  ℕ, ◌+◌, ◌≤◌, Text, text_eq, text_eq_iff, text_eq_refl, List, [], ◌∷◌, ◌++◌, Option, none, some,
  Option-cases, if◌then◌else◌, ◌≡◌, ◌≢◌, inl, inr, refl, ◌∙◌, ap, sym, arith,
}
use delegate_implementation.Platform.{Platform, Bytes}
use delegate_implementation.Streams.{StreamKeys}
use delegate_implementation.Workspace.{Os}
use delegate_implementation.Transfer.Sender.{sha256_bytes}
use delegate_implementation.Models.{Execution, transferring, succeeded}
use delegate_implementation.Models.Tables.{
  find_execution, update_executions, find_execution-update_executions,
}
use delegate_implementation.Dispatcher.World.{World}
use delegate_implementation.Dispatcher.Output.{output_path}
use delegate_implementation.Dispatcher.Watch.{Round, watch_execution}
use delegate_implementation.Dispatcher.Lifecycle.{
  Ledger, ledger, Move, stay, send, report, store, Moves, done, more,
}
use delegate_implementation.Dispatcher.Lifecycle.Loop.{watch_execution-Moves}

-- The content of a file after writes in order: that of the last one to its path.
unfoldable pub content_at : Text → List (Text × Bytes) → Option Bytes
content_at path [] = none
content_at path ((at, content) ∷ rest) =
    let later = content_at path rest in
    elim later [ some newer ↦ some newer | none ↦ if text_eq at path then some content else none ]

-- An execution that has succeeded has its output stored at its path, with its checksum.
abbrev pub IsStored : Platform → Text → Ledger → Type 0
IsStored p uuid l =
    (e : Execution)
    → find_execution uuid l.rows ≡ some e
    → e.status ≡ succeeded
    → (content : Bytes) × (content_at e.output_path l.files ≡ some content)
      × (e.output_checksum ≡ sha256_bytes p content)

content_at-last :
    (path : Text) (content : Bytes) (files : List (Text × Bytes))
    → content_at path (files ++ (path, content) ∷ []) ≡ some content
unfolding content_at
content_at-last path content [] = rw (text_eq_refl path) refl
content_at-last path content ((at, old) ∷ files) = rw (content_at-last path content files) refl

-- The row that is found after an update, from the one before.
found_before :
    (uuid : Text) (f : Execution → Execution) (rows : List Execution) (e' : Execution)
    → ((e : Execution) → (f e).execution_id ≡ e.execution_id)
    → find_execution uuid (update_executions uuid f rows) ≡ some e'
    → (e : Execution) × (find_execution uuid rows ≡ some e) × (e' ≡ f e)
found_before uuid f rows e' keeps h = elim (Option-cases (find_execution uuid rows)) [
  | inl missing ↦ absurd (ground (arith, find_execution-update_executions uuid uuid f rows keeps))
  | inr (e, there) ↦ (
    e,
    there,
    ground (arith, text_eq_refl uuid, find_execution-update_executions uuid uuid f rows keeps),
  )
]

found_after :
    (uuid : Text) (f : Execution → Execution) (rows : List Execution) (e : Execution)
    → ((e : Execution) → (f e).execution_id ≡ e.execution_id)
    → find_execution uuid rows ≡ some e
    → find_execution uuid (update_executions uuid f rows) ≡ some (f e)
found_after uuid f rows e keeps there =
    ground (arith, text_eq_refl uuid, find_execution-update_executions uuid uuid f rows keeps)

found_elsewhere :
    (uuid j : Text) (f : Execution → Execution) (rows : List Execution)
    → ((e : Execution) → (f e).execution_id ≡ e.execution_id)
    → j ≢ uuid
    → find_execution j (update_executions uuid f rows) ≡ find_execution j rows
found_elsewhere uuid j f rows keeps other = elim (Option-cases (find_execution j rows)) [
  | inl missing ↦ ground (arith, find_execution-update_executions uuid j f rows keeps)
  | inr (e, there) ↦
      ground (arith, text_eq_iff j uuid, find_execution-update_executions uuid j f rows keeps)
]

-- What a later row of an execution has from an earlier one.
pub record IsLater (e e' : Execution) : Type 0 where
  pub tenant_id : e'.tenant_id ≡ e.tenant_id
  pub delegate_id : e'.delegate_id ≡ e.delegate_id
  pub workspace_fixture : e'.workspace_fixture ≡ e.workspace_fixture
  pub transfer_attempts : e.transfer_attempts ≤ e'.transfer_attempts

-- The rows of other executions are as before, and the own one is a later one.
pub record Keeps (uuid : Text) (l l' : Ledger) : Type 0 where
  pub others : (j : Text) → j ≢ uuid → find_execution j l'.rows ≡ find_execution j l.rows
  pub own :
      (e : Execution)
      → find_execution uuid l.rows ≡ some e
      → (e' : Execution) × (find_execution uuid l'.rows ≡ some e') × IsLater e e'

module _ (p : Platform) (path uuid : Text) where
  -- A step that does not make the execution SUCCEEDED and leaves the path and checksum.
  update-IsStored :
      (l l' : Ledger) (f : Execution → Execution)
      → ((e : Execution) → (f e).execution_id ≡ e.execution_id)
      → ((e : Execution) → (f e).status ≢ succeeded)
      → l'.rows ≡ update_executions uuid f l.rows
      → IsStored p uuid l'
  update-IsStored l l' f keeps never rows e found won =
      let (old, _, same) =
        found_before uuid f l.rows e keeps (ap (find_execution uuid) (sym rows) ∙ found) in
      absurd (never old (ap (λ (r : Execution). r.status) (sym same) ∙ won))

  Move-IsStored : (l l' : Ledger) → Move p path uuid l l' → IsStored p uuid l → IsStored p uuid l'
  Move-IsStored l l' (stay rows files) before e found won =
      rw files (before e (ap (find_execution uuid) (sym rows) ∙ found) won)
  Move-IsStored l l' (send row t there rows files) before e found won =
      update-IsStored l l'
        (λ e. record e {
          status = transferring;
          transfer_id = t;
          transfer_attempts = row.transfer_attempts + 1;
        })
        (λ e. refl) (λ e h. absurd (ground arith)) rows e found won
  Move-IsStored l l' (report status q s rows files) before e found won =
      update-IsStored l l' (λ e. record e { status = status }) (λ e. refl) (λ e. s) rows e found won
  Move-IsStored l l' (store content rows files) before e found won =
      let f : Execution → Execution = λ e. record e {
        status = succeeded;
        output_path = path;
        output_checksum = sha256_bytes p content;
      } in
      let (old, _, same) =
        found_before uuid f l.rows e (λ e. refl) (ap (find_execution uuid) (sym rows) ∙ found) in
      (
        content,
        rw (files, ap (λ (r : Execution). r.output_path) same)
            (content_at-last path content l.files),
        ap (λ (r : Execution). r.output_checksum) same,
      )

  update-Keeps :
      (l l' : Ledger) (f : Execution → Execution)
      → ((e : Execution) → (f e).execution_id ≡ e.execution_id)
      → ((e : Execution) → find_execution uuid l.rows ≡ some e → IsLater e (f e))
      → l'.rows ≡ update_executions uuid f l.rows
      → Keeps uuid l l'
  update-Keeps l l' f keeps later rows = record {
    others = λ j other. ap (find_execution j) rows ∙ found_elsewhere uuid j f l.rows keeps other;
    own = λ e there. (
      f e,
      ap (find_execution uuid) rows ∙ found_after uuid f l.rows e keeps there,
      later e there,
    );
  }

  same-IsLater : (e : Execution) → IsLater e e
  same-IsLater e = record {
    tenant_id = refl;
    delegate_id = refl;
    workspace_fixture = refl;
    transfer_attempts = omega arith;
  }

  Move-Keeps : (l l' : Ledger) → Move p path uuid l l' → Keeps uuid l l'
  Move-Keeps l l' (stay rows files) = record {
    others = λ j other. ap (find_execution j) rows;
    own = λ e there. (e, ap (find_execution uuid) rows ∙ there, same-IsLater e);
  }
  Move-Keeps l l' (send row t there rows files) =
      update-Keeps l l'
        (λ e. record e {
          status = transferring;
          transfer_id = t;
          transfer_attempts = row.transfer_attempts + 1;
        })
        (λ e. refl)
        (λ e found. record {
          tenant_id = refl;
          delegate_id = refl;
          workspace_fixture = refl;
          transfer_attempts = ground arith;
        })
        rows
  Move-Keeps l l' (report status q s rows files) =
      update-Keeps l l' (λ e. record e { status = status }) (λ e. refl)
        (λ e there. record {
          tenant_id = refl;
          delegate_id = refl;
          workspace_fixture = refl;
          transfer_attempts = omega arith;
        })
        rows
  Move-Keeps l l' (store content rows files) =
      update-Keeps l l'
        (λ e. record e {
          status = succeeded;
          output_path = path;
          output_checksum = sha256_bytes p content;
        })
        (λ e. refl)
        (λ e there. record {
          tenant_id = refl;
          delegate_id = refl;
          workspace_fixture = refl;
          transfer_attempts = omega arith;
        })
        rows

  trans-Keeps : {l m n : Ledger} → Keeps uuid l m → Keeps uuid m n → Keeps uuid l n
  trans-Keeps {l} {m} {n} a b = record {
    others = λ j other. b.others j other ∙ a.others j other;
    own = λ e there.
        let (e', there', k) = a.own e there in
        let (e'', there'', k') = b.own e' there' in
        (
          e'',
          there'',
          record {
            tenant_id = k'.tenant_id ∙ k.tenant_id;
            delegate_id = k'.delegate_id ∙ k.delegate_id;
            workspace_fixture = k'.workspace_fixture ∙ k.workspace_fixture;
            transfer_attempts = omega (arith, k.transfer_attempts, k'.transfer_attempts);
          },
        );
  }

  Moves-IsStored : {l n : Ledger} → Moves p path uuid l n → IsStored p uuid l → IsStored p uuid n
  Moves-IsStored (done l) before = before
  Moves-IsStored (more l m n step run) before = Moves-IsStored run (Move-IsStored l m step before)

  Moves-Keeps : {l n : Ledger} → Moves p path uuid l n → Keeps uuid l n
  Moves-Keeps (done l) = record {
    others = λ j other. refl;
    own = λ e there. (e, there, same-IsLater e);
  }
  Moves-Keeps (more l m n step run) = trans-Keeps (Move-Keeps l m step) (Moves-Keeps run)

module _ (p : Platform) (os : Os) (fixtures_dir media_root execution_id : Text) (keys : StreamKeys)
    (seconds start : ℕ) (rounds : List Round) (w : World) {uuid : Text}
    (known : p.to_uuid execution_id ≡ some uuid) where
  abbrev after : World
  after = (watch_execution p os fixtures_dir media_root execution_id keys seconds start rounds w).1

  -- While and after a watcher runs, its execution is SUCCEEDED only with its output stored: if that
  -- holds before, the last content written to the row's output path has the row's checksum.
  pub watch_execution-IsStored : IsStored p uuid (ledger w) → IsStored p uuid (ledger after)
  watch_execution-IsStored before =
      Moves-IsStored p (output_path p os media_root execution_id) uuid
        (watch_execution-Moves p os fixtures_dir media_root execution_id uuid known keys seconds
          start rounds w)
        before

  -- A watcher changes the row of no other execution, whatever it reads; the row of its own stays,
  -- with its tenant, delegate and fixture, and with no fewer transfer attempts.
  pub watch_execution-Keeps : Keeps uuid (ledger w) (ledger after)
  watch_execution-Keeps = Moves-Keeps p (output_path p os media_root execution_id) uuid (
      watch_execution-Moves p os fixtures_dir media_root execution_id uuid known keys seconds start
        rounds w)
