-- ===== src/Models/Tables.antt =====
-- The calls of Django's object manager that the program makes, on the tables of Models.antt: `get`
-- and `filter(...).first()` by primary key, `create`, `save(update_fields)` and `update`.
use delegate_implementation.Base.{
  Text, text_eq, text_eq_iff, List, [], ◌∷◌, ◌++◌, Option, none, some, first, if◌then◌else◌, ◌≡◌,
  refl, arith,
}
use delegate_implementation.Models.{
  Db, RegistrationToken, Delegate, Execution, ExecutionLog, AuditEvent,
}

unfoldable pub find_token : Text → List RegistrationToken → Option RegistrationToken
find_token token = first (λ t. text_eq t.token token)

unfoldable pub find_delegate : Text → List Delegate → Option Delegate
find_delegate id = first (λ d. text_eq d.id id)

unfoldable pub find_execution : Text → List Execution → Option Execution
find_execution id = first (λ e. text_eq e.execution_id id)

-- An UPDATE of the rows with a key.
unfoldable pub update_tokens :
    Text → (RegistrationToken → RegistrationToken) → List RegistrationToken → List RegistrationToken
update_tokens token f [] = []
update_tokens token f (t ∷ ts) =
    (if text_eq t.token token then f t else t) ∷ update_tokens token f ts

unfoldable pub update_delegates : Text → (Delegate → Delegate) → List Delegate → List Delegate
update_delegates id f [] = []
update_delegates id f (d ∷ ds) = (if text_eq d.id id then f d else d) ∷ update_delegates id f ds

unfoldable pub update_executions : Text → (Execution → Execution) → List Execution → List Execution
update_executions id f [] = []
update_executions id f (e ∷ es) =
    (if text_eq e.execution_id id then f e else e) ∷ update_executions id f es

unfoldable pub add_audit : AuditEvent → Db → Db
add_audit event db = record db { audits = db.audits ++ event ∷ [] }

unfoldable pub add_log : ExecutionLog → Db → Db
add_log line db = record db { logs = db.logs ++ line ∷ [] }

unfoldable pub on_executions : (List Execution → List Execution) → Db → Db
on_executions f db = record db { executions = f db.executions }

-- An update that keeps the key changes what is found under it, and nothing else.
pub find_execution-update_executions :
    (id j : Text) (f : Execution → Execution) (es : List Execution)
    → ((e : Execution) → (f e).execution_id ≡ e.execution_id)
    → find_execution j (update_executions id f es)
      ≡ elim (find_execution j es) [ none ↦ none | some e ↦ some (if text_eq j id then f e else e) ]
unfolding find_execution update_executions
find_execution-update_executions id j f [] keeps = refl
find_execution-update_executions id j f (e ∷ es) keeps = ground (
  arith,
  keeps e,
  text_eq_iff e.execution_id id,
  text_eq_iff e.execution_id j,
  text_eq_iff j id,
  text_eq_iff (f e).execution_id j,
  find_execution-update_executions id j f es keeps,
)
