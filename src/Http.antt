-- ===== src/Http.antt =====
-- control_plane/control_plane/urls.py and control_plane/delegates/urls.py: which view answers a
-- request, with the decorators of control_plane/delegates/views.py. The path converter `uuid` of
-- Django, the JSON decoder and the admin site are parameters.
pub mod Frames
pub mod Safety
pub mod Routes
mod Tests
use delegate_implementation.Base.{
  ℕ, Text, codes, text_eq, is_empty, split_on, List, [], ◌∷◌, Option, none, some, Bool, true, false,
  ◌&&◌, if◌then◌else◌,
}
use delegate_implementation.Platform.{Platform, Bytes, Fields}
use delegate_implementation.Workspace.{Os}
use delegate_implementation.Acl.{AclServer}
use delegate_implementation.Ca.{Crypto}
use delegate_implementation.Models.{Db}
use delegate_implementation.Views.State.{ControlPlane, Response, refused}
use delegate_implementation.Views.Registration.{Draws, issue_registration_token, register_delegate}
use delegate_implementation.Views.Revocation.{revoke_delegate}
use delegate_implementation.Views.Executions.{
  Api, Task, create_execution, execution_status, list_audit_events,
}

-- The views, with what the path gives them; `admin` is everything below `admin/`.
pub data Route : Type 0 where
  issue_token register create audits admin not_found : Route
  revoke status : Text → Route

module _ (is_uuid : Text → Bool) where
  -- `urlpatterns` of the app, on the parts of what follows `api/`.
  unfoldable pub api_route : List Text → Route
  api_route [] = not_found
  api_route (a ∷ []) = not_found
  api_route (a ∷ b ∷ []) =
      if is_empty b && text_eq a (codes "registration-token")
      then issue_token
      else if is_empty b && text_eq a (codes "register")
      then register
      else if is_empty b && text_eq a (codes "executions")
      then create
      else if is_empty b && text_eq a (codes "audit-events")
      then audits
      else not_found
  api_route (a ∷ b ∷ c ∷ []) =
      if is_empty c && (text_eq a (codes "executions") && is_uuid b) then status b else not_found
  api_route (a ∷ b ∷ c ∷ d ∷ []) =
      if is_empty d && (text_eq c (codes "revoke") && (text_eq a (codes "delegates") && is_uuid b))
      then revoke b
      else not_found
  api_route (a ∷ b ∷ c ∷ d ∷ e ∷ rest) = not_found

  -- `urlpatterns` of the project, on the parts of the path.
  unfoldable pub project_route : List Text → Route
  unfolding api_route
  project_route [] = not_found
  project_route (a ∷ []) = not_found
  project_route (a ∷ b ∷ rest) =
      if text_eq a (codes "admin")
      then admin
      else if text_eq a (codes "api")
      then api_route (b ∷ rest)
      else not_found

  -- The path is without its first slash.
  unfoldable pub route : Text → Route
  unfolding project_route
  route path = project_route (split_on 47 path)

-- The argument of `require_http_methods`
unfoldable pub method_of : Route → Text
method_of issue_token = codes "POST"
method_of register = codes "POST"
method_of create = codes "POST"
method_of (revoke id) = codes "POST"
method_of (status id) = codes "GET"
method_of audits = codes "GET"
method_of admin = []
method_of not_found = []

-- `_json_body`; the body of a request is an object, or `none` where `json.loads` raises.
unfoldable pub json_body : (Bytes → Option Fields) → Bytes → Option Fields
json_body loads [] = loads (codes "{}")
json_body loads (b ∷ body) = loads (b ∷ body)

pub record HttpRequest : Type 0 where
  pub method : Text
  pub path : Text
  pub body : Bytes

-- The tables, the Redis users and the tasks that were sent.
pub record Site (S : Type 0) : Type 0 where
  pub control : ControlPlane S
  pub tasks : List Task

-- What a request meets besides: the draws of a registration, the id of a new row, and what the
-- gateway answers.
pub record Meets : Type 0 where
  pub draws : Draws
  pub fresh : Text
  pub gateway : Option Bool

module _ (p : Platform) (os : Os) (server : AclServer) (crypto : Crypto)
    (loads : Bytes → Option Fields) (validity_days ttl : ℕ) (fixtures_dir : Text) where
  abbrev pub HttpState : Type 0
  HttpState = Site server.State

  abbrev pub on_control : Response × ControlPlane server.State → HttpState → Response × HttpState
  on_control (r, control) site = (r, record site { control = control })

  abbrev pub on_api : Response × Api → HttpState → Response × HttpState
  on_api (r, api) site =
      (r, record { control = record site.control { db = api.db }; tasks = api.tasks })

  -- The view behind the decorator.
  unfoldable pub view : Route → Bytes → Meets → HttpState → Response × HttpState
  view issue_token body meets site =
      on_control
        (issue_registration_token (json_body loads body) meets.draws.now ttl meets.fresh
          site.control)
        site
  view register body meets site =
      on_control
        (register_delegate p server crypto validity_days (json_body loads body) meets.draws
          site.control)
        site
  view (revoke id) body meets site =
      on_control (revoke_delegate server id meets.draws.redis_up meets.gateway site.control) site
  view create body meets site =
      on_api
        (create_execution p os fixtures_dir (json_body loads body) meets.fresh
          (record { db = site.control.db; tasks = site.tasks }))
        site
  view (status id) body meets site = (execution_status id site.control.db, site)
  view audits body meets site = (list_audit_events site.control.db, site)
  view admin body meets site = (refused 404 [], site)
  view not_found body meets site = (refused 404 [], site)

  -- `HttpResponseNotAllowed`, or the view
  unfoldable pub allowed : Route → HttpRequest → Meets → HttpState → Response × HttpState
  unfolding view method_of
  allowed r request meets site =
      if text_eq (method_of r) request.method
      then view r request.body meets site
      else (refused 405 [], site)

  -- The admin site is not modelled.
  unfoldable pub answer_to : Route → HttpRequest → Meets → HttpState → Option (Response × HttpState)
  unfolding allowed
  answer_to admin request meets site = none
  answer_to not_found request meets site = some (refused 404 [], site)
  answer_to issue_token request meets site = some (allowed issue_token request meets site)
  answer_to register request meets site = some (allowed register request meets site)
  answer_to create request meets site = some (allowed create request meets site)
  answer_to audits request meets site = some (allowed audits request meets site)
  answer_to (revoke id) request meets site = some (allowed (revoke id) request meets site)
  answer_to (status id) request meets site = some (allowed (status id) request meets site)

  unfoldable pub serve :
      (Text → Bool) → HttpRequest → Meets → HttpState → Option (Response × HttpState)
  unfolding route
  serve is_uuid request meets site = answer_to (route is_uuid request.path) request meets site
