-- ===== src/Http/Safety.antt =====
-- What a request may change.
use delegate_implementation.Base.{
  ℕ, Text, codes, text_eq, text_eq_iff, Option, some, Bool, true, Bool-cases, ◌≡◌, ◌⊎◌, inl, inr,
  sym, refl, arith,
}
use delegate_implementation.Platform.{Platform, Bytes, Fields}
use delegate_implementation.Workspace.{Os}
use delegate_implementation.Acl.{AclServer}
use delegate_implementation.Ca.{Crypto}
use delegate_implementation.Views.State.{Response}
use delegate_implementation.Http.{
  Route, issue_token, register, create, audits, admin, not_found, revoke, status, route, method_of,
  json_body, HttpRequest, Site, Meets, view, allowed, answer_to, serve,
}
use delegate_implementation.Http.Frames.{issue-keeps, register-keeps, revoke-keeps, execution-keeps}

module _ {S : Type 0} where
  -- What a view may change.
  abbrev pub Touches : Route → Site S → Site S → Type 0
  Touches issue_token s s' =
      (s'.control.acl ≡ s.control.acl)
      × (s'.control.db.delegates ≡ s.control.db.delegates)
      × (s'.control.db.executions ≡ s.control.db.executions)
      × (s'.tasks ≡ s.tasks)
  Touches register s s' =
      (s'.control.db.executions ≡ s.control.db.executions) × (s'.tasks ≡ s.tasks)
  Touches (revoke id) s s' =
      (s'.control.db.tokens ≡ s.control.db.tokens)
      × (s'.control.db.executions ≡ s.control.db.executions)
      × (s'.tasks ≡ s.tasks)
  Touches create s s' =
      (s'.control.acl ≡ s.control.acl)
      × (s'.control.db.tokens ≡ s.control.db.tokens)
      × (s'.control.db.delegates ≡ s.control.db.delegates)
  Touches (status id) s s' = ⊥
  Touches audits s s' = ⊥
  Touches admin s s' = ⊥
  Touches not_found s s' = ⊥

module _ (p : Platform) (os : Os) (server : AclServer) (crypto : Crypto)
    (loads : Bytes → Option Fields) (validity_days ttl : ℕ) (fixtures_dir : Text) where
  abbrev Safe : Route → HttpRequest → Site server.State → Site server.State → Type 0
  Safe r request s s' = (s' ≡ s) ⊎ ((request.method ≡ codes "POST") × Touches r s s')

  is_post : (m : Text) → text_eq (codes "POST") m ≡ true → m ≡ codes "POST"
  is_post m h = ground (arith, text_eq_iff (codes "POST") m)

  allowed-safe :
      (r : Route) (request : HttpRequest) (meets : Meets) (site : Site server.State)
      → Safe r request site
          (allowed p os server crypto loads validity_days ttl fixtures_dir r request meets site).1
  unfolding allowed method_of view
  allowed-safe r request meets site = elim (Bool-cases (text_eq (method_of r) request.method)) [
    | inl same ↦ rw same (safe_view r same)
    | inr other ↦ rw other (inl refl)
  ]
    where
      safe_view :
          (r : Route)
          → text_eq (method_of r) request.method ≡ true
          → Safe r request site
              (view p os server crypto loads validity_days ttl fixtures_dir r request.body meets
                site).1
      safe_view issue_token h =
          let (a, d, e) =
            issue-keeps (json_body loads request.body) meets.draws.now ttl meets.fresh
              site.control in
          inr (is_post request.method h, (a, d, e, refl))
      safe_view register h = inr (
        is_post request.method h,
        (
          register-keeps p server crypto validity_days (json_body loads request.body) meets.draws
              site.control,
          refl,
        ),
      )
      safe_view (revoke id) h =
          let (t, e) =
            revoke-keeps p server crypto validity_days id meets.draws.redis_up meets.gateway
              site.control in
          inr (is_post request.method h, (t, e, refl))
      safe_view create h =
          let (t, d) =
            execution-keeps p os fixtures_dir (json_body loads request.body) meets.fresh
              (record { db = site.control.db; tasks = site.tasks }) in
          inr (is_post request.method h, (refl, t, d))
      safe_view (status id) h = inl refl
      safe_view audits h = inl refl
      safe_view admin h = inl refl
      safe_view not_found h = inl refl

  moved :
      (r : Route) (request : HttpRequest) (s s' : Site server.State) (answer : Response)
      (x : Response × Site server.State)
      → some x ≡ some (answer, s')
      → Safe r request s x.1
      → Safe r request s s'
  moved r request s s' answer x e safe = let there : x.1 ≡ s' = ground arith in rw (sym there) safe

  answered-safe :
      (r : Route) (request : HttpRequest) (meets : Meets) (s s' : Site server.State)
      (answer : Response)
      → answer_to p os server crypto loads validity_days ttl fixtures_dir r request meets s
        ≡ some (answer, s')
      → Safe r request s s'
  unfolding answer_to
  answered-safe admin request meets s s' a e = absurd (ground arith)
  answered-safe not_found request meets s s' a e = moved not_found request s s' a _ e (inl refl)
  answered-safe issue_token request meets s s' a e =
      moved issue_token request s s' a _ e (allowed-safe issue_token request meets s)
  answered-safe register request meets s s' a e =
      moved register request s s' a _ e (allowed-safe register request meets s)
  answered-safe create request meets s s' a e =
      moved create request s s' a _ e (allowed-safe create request meets s)
  answered-safe audits request meets s s' a e =
      moved audits request s s' a _ e (allowed-safe audits request meets s)
  answered-safe (revoke id) request meets s s' a e =
      moved (revoke id) request s s' a _ e (allowed-safe (revoke id) request meets s)
  answered-safe (status id) request meets s s' a e =
      moved (status id) request s s' a _ e (allowed-safe (status id) request meets s)

  -- A request that is not for the admin site changes something only if it is a POST to one of four
  -- views: the view of registration tokens touches neither Redis users, delegates, executions nor
  -- tasks; that of registrations no execution and no task; that of revocations no token, no
  -- execution and no task; that of executions no Redis user, no token and no delegate.
  pub serve-Touches :
      (is_uuid : Text → Bool) (request : HttpRequest) (meets : Meets)
      (site site' : Site server.State) (answer : Response)
      → serve p os server crypto loads validity_days ttl fixtures_dir is_uuid request meets site
        ≡ some (answer, site')
      → (site' ≡ site)
        ⊎ ((request.method ≡ codes "POST") × Touches (route is_uuid request.path) site site')
  unfolding serve
  serve-Touches is_uuid request meets site site' answer h =
      answered-safe (route is_uuid request.path) request meets site site' answer h
