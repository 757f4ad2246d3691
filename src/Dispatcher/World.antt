-- ===== src/Dispatcher/World.antt =====
-- What the dispatcher's code acts on: the tables, the Redis commands that it has issued, and the
-- files that it has written. A handler may raise, and what it did before stays done.
use delegate_implementation.Base.{
  Text, List, [], ◌∷◌, ◌++◌, Option, none, some, Error, validation_error, Result, ok, raise,
}
use delegate_implementation.Platform.{Platform, Bytes}
use delegate_implementation.Transfer.Sender.{Xadd}
use delegate_implementation.Models.{Db, AuditEvent, Delegate, Execution}
use delegate_implementation.Models.Tables.{
  find_delegate, find_execution, update_executions, add_audit, on_executions,
}

pub record World : Type 0 where
  pub db : Db
  -- the XADD calls, in order
  pub sent : List Xadd
  -- the keys of each DEL call
  pub deleted : List (List Text)
  -- path and content of each file written
  pub files : List (Text × Bytes)

abbrev pub M : Type 0 → Type 0
M A = World → Result A × World

infixl 5 ◌>>=◌ ◌>>◌
abbrev pub ◌>>=◌ : {A B : Type 0} → M A → (A → M B) → M B
◌>>=◌ m f w = let (r, w') = m w in elim r [ ok a ↦ f a w' | raise e ↦ (raise e, w') ]

abbrev pub ◌>>◌ : {A B : Type 0} → M A → M B → M B
m >> k = m >>= λ _. k

abbrev pub pure : {A : Type 0} → A → M A
pure a w = (ok a, w)

abbrev pub throw : {A : Type 0} → Error → M A
throw e w = (raise e, w)

abbrev pub lift : {A : Type 0} → Result A → M A
lift r w = (r, w)

abbrev pub modify_db : (Db → Db) → M (Unit {0})
modify_db f w = (ok tt, record w { db = f w.db })

-- `AuditEvent.objects.create(...)`
abbrev pub audit : AuditEvent → M (Unit {0})
audit event = modify_db (add_audit event)

abbrev pub publish : List Xadd → M (Unit {0})
publish commands w = (ok tt, record w { sent = w.sent ++ commands })

abbrev pub write_file : Text → Bytes → M (Unit {0})
write_file path content w = (ok tt, record w { files = w.files ++ (path, content) ∷ [] })

module _ (p : Platform) where
  -- A query by a UUID column. A text that is no UUID raises before the table is read.
  abbrev pub query : {A : Type 0} → (Text → Db → Option A) → Text → M (Option A)
  query find id w = elim (p.to_uuid id) [
    | none ↦ (raise validation_error, w)
    | some uuid ↦ (ok (find uuid w.db), w)
  ]

  abbrev pub get_execution : Text → M (Option Execution)
  get_execution = query (λ uuid db. find_execution uuid db.executions)

  abbrev pub get_delegate : Text → M (Option Delegate)
  get_delegate = query (λ uuid db. find_delegate uuid db.delegates)

  -- `Execution.objects.filter(execution_id=...).update(...)`
  abbrev pub update_execution : Text → (Execution → Execution) → M (Unit {0})
  update_execution id f w = elim (p.to_uuid id) [
    | none ↦ (raise validation_error, w)
    | some uuid ↦ (ok tt, record w { db = on_executions (update_executions uuid f) w.db })
  ]
