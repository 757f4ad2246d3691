-- ===== src/Dispatcher/Discovery.antt =====
-- What an announcement, whose content is not trusted, can make the dispatcher do.
use delegate_implementation.Base.{
  Text, codes, is_empty, lookup, [], ◌∷◌, ◌++◌, some, Bool, ◌≡◌, ◌⊎◌, refl, ap, arith, ok,
  Bool-cases, Option-cases, inl, inr,
}
use delegate_implementation.Platform.{Platform, Fields}
use delegate_implementation.Streams.{stream_keys}
use delegate_implementation.Transfer.Receiver.{is_type}
use delegate_implementation.Models.{Execution}
use delegate_implementation.Models.Tables.{add_audit}
use delegate_implementation.Dispatcher.World.{World}
use delegate_implementation.Dispatcher.Authorization.{execution_at, OnlyAudits}
use delegate_implementation.Dispatcher.Announcements.{
  Thread, MainLoop, is_watched, attach, attach_found, announce, handle_announcement,
}

-- The thread was started on the streams of the delegate to which the row assigns the execution.
pub record IsAssigned (p : Platform) (w : World) (t : Thread) : Type 0 where
  pub execution : Execution
  pub delegate_id : Text
  pub found : execution_at p t.execution_id w ≡ some execution
  pub assigned : execution.delegate_id ≡ some delegate_id
  pub named : t.keys ≡ stream_keys t.execution_id delegate_id

-- What one announcement does: nothing is started, or one thread on the assigned streams.
abbrev pub StartsAssigned : Platform → World → MainLoop → MainLoop → Type 0
StartsAssigned p w s s' =
    (s'.started ≡ s.started)
    ⊎ ((t : Thread) × (s'.started ≡ s.started ++ t ∷ []) × IsAssigned p w t)

module _ (p : Platform) (alive : Thread → Bool) (fields : Fields) where
  announce-StartsAssigned :
      (execution_id : Text) (s s' : MainLoop) (w w' : World)
      → announce p alive execution_id fields s w ≡ (ok s', w')
      → StartsAssigned p w s s'
  unfolding announce attach_found attach
  announce-StartsAssigned execution_id s s' w w' h =
      elim (Bool-cases (is_watched alive execution_id s.watched)) [
        | inl old ↦ inl (ground arith)
        | inr new ↦ elim (Option-cases (execution_at p execution_id w)) [
          | inl missing ↦ inl (ground arith)
          | inr (execution, found) ↦ elim (Option-cases execution.delegate_id) [
            | inl orphan ↦ inl (ground arith)
            | inr (delegate_id, assigned) ↦ inr (
              record { execution_id = execution_id; keys = stream_keys execution_id delegate_id },
              ground arith,
              record {
                execution = execution;
                delegate_id = delegate_id;
                found = found;
                assigned = assigned;
                named = refl;
              },
            )
          ]
        ]
      ]

  announce-OnlyAudits :
      (execution_id : Text) (s : MainLoop) (w : World)
      → OnlyAudits w (announce p alive execution_id fields s w).1
  unfolding announce attach_found attach add_audit
  announce-OnlyAudits execution_id s w = ground arith

  -- Whatever an announcement says, it starts no watcher, or one watcher on the streams that belong
  -- to the delegate to which the row of the execution assigns it; and it changes no stream, file
  -- or row but the audit events.
  pub handle_announcement-StartsAssigned :
      (msg_id : Text) (s s' : MainLoop) (w w' : World)
      → handle_announcement p alive msg_id fields s w ≡ (ok s', w')
      → StartsAssigned p w s s' × OnlyAudits w w'
  unfolding handle_announcement
  handle_announcement-StartsAssigned msg_id s s' w w' h =
      elim (Bool-cases (is_type fields (codes "EXECUTION_STARTED"))) [
        | inr other ↦ (inl (ground arith), ground arith)
        | inl started ↦ elim (Option-cases (lookup "execution_id" fields)) [
          | inl none_given ↦ (inl (ground arith), ground arith)
          | inr (id, given) ↦ elim (Bool-cases (is_empty id)) [
            | inl empty ↦ (inl (ground arith), ground arith)
            | inr filled ↦
                let s₁ = record s { last_id = msg_id } in
                let h' : announce p alive id fields s₁ w ≡ (ok s', w') = ground arith in
                (
                  announce-StartsAssigned id s₁ s' w w' h',
                  rw (ap (λ x. x.1) h') at (announce-OnlyAudits id s₁ w),
                )
          ]
        ]
      ]
