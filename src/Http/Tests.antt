-- ===== src/Http/Tests.antt =====
-- A request that issues a token.
use delegate_implementation.Base.{
  ◌≡◌, ◌⊎◌, ◌↔◌, refl, Text, codes, text_eq, text_eq_iff, has, split_on, [], ◌∷◌, Option, none,
  some, Bool, true, false,
}
use delegate_implementation.Platform.{Bytes, Fields}
use delegate_implementation.Views.State.{Response}
use delegate_implementation.Http.{
  issue_token, revoke, not_found, api_route, project_route, route, method_of, HttpRequest, Site,
  Meets, view, allowed, answer_to, serve,
}
use delegate_implementation.Http.Routes.{IsView, path_of, route-path_of}
use delegate_implementation.Http.Safety.{Touches, serve-Touches}
use delegate_implementation.Samples.Server.{Users, acl_server, crypto}
use delegate_implementation.Samples.{platform, os, db}

program : Unit {0}
unfolding text_eq split_on api_route project_route route method_of allowed answer_to serve
program = tt

abbrev is_uuid : Text → Bool
is_uuid id = text_eq id (codes "d")

no_slash : (id : Text) → is_uuid id ≡ true → has 47 id ≡ false
no_slash id h = rw ((text_eq_iff id (codes "d")).0 h) refl

-- The app takes no path without its last slash.
wants_last_slash : route is_uuid (codes "api/register") ≡ not_found
unfolding program
wants_last_slash = refl

route-path_of_example : (route is_uuid (codes "api/delegates/d/revoke/") ≡ revoke (codes "d")) ↔ (
    IsView is_uuid (revoke (codes "d"))
    × (codes "api/delegates/d/revoke/" ≡ path_of (revoke (codes "d"))))
route-path_of_example =
    route-path_of is_uuid no_slash (codes "api/delegates/d/revoke/") (revoke (codes "d")) tt

abbrev loads : Bytes → Option Fields
loads body = some (("tenant_id", codes "t") ∷ [])

abbrev site : Site Users
site = record { control = record { db = db; acl = [] }; tasks = [] }

abbrev meets : Meets
meets = record {
  draws = record {
    now = 5;
    delegate_id = codes "e";
    serial = 1;
    password = codes "w";
    redis_up = true;
  };
  fresh = codes "token";
  gateway = none;
}

abbrev request : HttpRequest
request = record { method = codes "POST"; path = codes "api/registration-token/"; body = [] }

abbrev issued : Response × Site Users
issued = view platform os acl_server crypto loads 1 300 (codes "/f") issue_token [] meets site

serve-Touches_example :
    (issued.1 ≡ site)
    ⊎ ((codes "POST" ≡ codes "POST")
        × Touches (route is_uuid (codes "api/registration-token/")) site issued.1)
unfolding program
serve-Touches_example =
    serve-Touches platform os acl_server crypto loads 1 300 (codes "/f") is_uuid request meets site
      issued.1 issued.0 refl
