-- ===== src/Http/Routes.antt =====
-- Which paths reach a view.
use delegate_implementation.Base.{
  Text, codes, text_eq, text_eq_iff, is_empty, split_on, join_by, has, split_on-join_by,
  join_by-split_on, List, [], ◌∷◌, ◌++◌, All, Bool, true, false, Bool-cases, ◌&&◌, if◌then◌else◌,
  ◌≡◌, ◌↔◌, inl, inr, ◌∙◌, sym, ap, refl, arith,
}
use delegate_implementation.Http.{
  Route, issue_token, register, create, audits, admin, not_found, revoke, status, api_route,
  project_route, route,
}

-- The path of a view, and the test on what it is given; the others have none.
unfoldable pub path_of : Route → Text
path_of issue_token = codes "api/registration-token/"
path_of register = codes "api/register/"
path_of create = codes "api/executions/"
path_of audits = codes "api/audit-events/"
path_of (revoke id) = codes "api/delegates/" ++ (id ++ codes "/revoke/")
path_of (status id) = codes "api/executions/" ++ (id ++ codes "/")
path_of admin = []
path_of not_found = []

module _ (is_uuid : Text → Bool) where
  abbrev pub IsView : Route → Type 0
  IsView (revoke id) = is_uuid id ≡ true
  IsView (status id) = is_uuid id ≡ true
  IsView admin = ⊥
  IsView not_found = ⊥
  IsView issue_token = Unit
  IsView register = Unit
  IsView create = Unit
  IsView audits = Unit

  abbrev pub IsPage : Route → Type 0
  IsPage admin = ⊥
  IsPage not_found = ⊥
  IsPage issue_token = Unit
  IsPage register = Unit
  IsPage create = Unit
  IsPage audits = Unit
  IsPage (revoke id) = Unit
  IsPage (status id) = Unit

  abbrev parts_of : Route → List Text
  parts_of issue_token = codes "registration-token" ∷ [] ∷ []
  parts_of register = codes "register" ∷ [] ∷ []
  parts_of create = codes "executions" ∷ [] ∷ []
  parts_of audits = codes "audit-events" ∷ [] ∷ []
  parts_of (revoke id) = codes "delegates" ∷ id ∷ codes "revoke" ∷ [] ∷ []
  parts_of (status id) = codes "executions" ∷ id ∷ [] ∷ []
  parts_of admin = []
  parts_of not_found = []

  abbrev Fits : List Text → Route → Type 0
  Fits ps r = IsPage r → IsView r × (ps ≡ parts_of r)

  one_of_two :
      (ps : List Text) (t : Bool) (r s : Route)
      → (t ≡ true → Fits ps r)
      → Fits ps s
      → Fits ps (if t then r else s)
  one_of_two ps true r s h k = h refl
  one_of_two ps false r s h k = k

  folder : (a b s : Text) → (is_empty b && text_eq a s) ≡ true → a ∷ b ∷ [] ≡ s ∷ [] ∷ []
  folder a [] s h = ground (arith, text_eq_iff a s)
  folder a (c ∷ b) s h = absurd (ground arith)

  folder_of_id :
      (a b c s : Text)
      → (is_empty c && (text_eq a s && is_uuid b)) ≡ true
      → (is_uuid b ≡ true) × (a ∷ b ∷ c ∷ [] ≡ s ∷ b ∷ [] ∷ [])
  folder_of_id a b [] s h = (ground arith, ground (arith, text_eq_iff a s))
  folder_of_id a b (d ∷ c) s h = absurd (ground arith)

  folder_below_id :
      (a b c d s t : Text)
      → (is_empty d && (text_eq c t && (text_eq a s && is_uuid b))) ≡ true
      → (is_uuid b ≡ true) × (a ∷ b ∷ c ∷ d ∷ [] ≡ s ∷ b ∷ t ∷ [] ∷ [])
  folder_below_id a b c [] s t h = (ground arith, ground (arith, text_eq_iff a s, text_eq_iff c t))
  folder_below_id a b c (e ∷ d) s t h = absurd (ground arith)

  api_route-Fits : (ps : List Text) → Fits ps (api_route is_uuid ps)
  unfolding api_route
  api_route-Fits [] = λ v. absurd v
  api_route-Fits (a ∷ []) = λ v. absurd v
  api_route-Fits (a ∷ b ∷ []) =
      one_of_two _ _ _ _ (λ h v. (tt, folder a b (codes "registration-token") h))
        (one_of_two _ _ _ _ (λ h v. (tt, folder a b (codes "register") h))
          (one_of_two _ _ _ _ (λ h v. (tt, folder a b (codes "executions") h))
            (one_of_two _ _ _ _ (λ h v. (tt, folder a b (codes "audit-events") h))
              (λ v. absurd v))))
  api_route-Fits (a ∷ b ∷ c ∷ []) =
      one_of_two _ _ _ _ (λ h v. folder_of_id a b c (codes "executions") h) (λ v. absurd v)
  api_route-Fits (a ∷ b ∷ c ∷ d ∷ []) =
      one_of_two _ _ _ _ (λ h v. folder_below_id a b c d (codes "delegates") (codes "revoke") h)
        (λ v. absurd v)
  api_route-Fits (a ∷ b ∷ c ∷ d ∷ e ∷ rest) = λ v. absurd v

  abbrev FitsProject : List Text → Route → Type 0
  FitsProject ps r = IsPage r → IsView r × (ps ≡ codes "api" ∷ parts_of r)

  below_api :
      (a : Text) (ps : List Text) (r : Route)
      → text_eq a (codes "api") ≡ true
      → Fits ps r
      → FitsProject (a ∷ ps) r
  below_api a ps r h fits v =
      let (w, same) = fits v in (w, ground (arith, text_eq_iff a (codes "api")))

  project_route-Fits : (ps : List Text) → FitsProject ps (project_route is_uuid ps)
  unfolding project_route
  project_route-Fits [] = λ v. absurd v
  project_route-Fits (a ∷ []) = λ v. absurd v
  project_route-Fits (a ∷ b ∷ rest) = elim (Bool-cases (text_eq a (codes "admin"))) [
    | inl e ↦ rw e (λ v. absurd v)
    | inr e ↦ elim (Bool-cases (text_eq a (codes "api"))) [
      | inl f ↦
          rw (e, f)
            (below_api a (b ∷ rest) (api_route is_uuid (b ∷ rest)) f (api_route-Fits (b ∷ rest)))
      | inr f ↦ rw (e, f) (λ v. absurd v)
    ]
  ]

  fits_at : (ps : List Text) (r : Route) → project_route is_uuid ps ≡ r → FitsProject ps r
  fits_at ps r h = rw (sym h) (project_route-Fits ps)

  path_of-join_by : (r : Route) → IsPage r → join_by 47 (codes "api" ∷ parts_of r) ≡ path_of r
  unfolding join_by path_of
  path_of-join_by issue_token v = refl
  path_of-join_by register v = refl
  path_of-join_by create v = refl
  path_of-join_by audits v = refl
  path_of-join_by (revoke id) v = refl
  path_of-join_by (status id) v = refl
  path_of-join_by admin v = absurd v
  path_of-join_by not_found v = absurd v

  module _ (no_slash : (id : Text) → is_uuid id ≡ true → has 47 id ≡ false) where
    without_slashes :
        (r : Route) → IsPage r → IsView r → All (λ q. has 47 q ≡ false) (codes "api" ∷ parts_of r)
    without_slashes issue_token v w = (refl, (refl, (refl, tt)))
    without_slashes register v w = (refl, (refl, (refl, tt)))
    without_slashes create v w = (refl, (refl, (refl, tt)))
    without_slashes audits v w = (refl, (refl, (refl, tt)))
    without_slashes (revoke id) v w = (refl, (refl, (no_slash id w, (refl, (refl, tt)))))
    without_slashes (status id) v w = (refl, (refl, (no_slash id w, (refl, tt))))
    without_slashes admin v w = absurd v
    without_slashes not_found v w = absurd v

    project_route-parts :
        (r : Route) → IsPage r → IsView r → project_route is_uuid (codes "api" ∷ parts_of r) ≡ r
    unfolding project_route api_route text_eq
    project_route-parts issue_token v w = refl
    project_route-parts register v w = refl
    project_route-parts create v w = refl
    project_route-parts audits v w = refl
    project_route-parts (revoke id) v w = rw w refl
    project_route-parts (status id) v w = rw w refl
    project_route-parts admin v w = absurd v
    project_route-parts not_found v w = absurd v

    -- A path reaches a view exactly when it is the path of that view, spelled to the last slash,
    -- and what it gives the view is a UUID. No UUID has a slash.
    pub route-path_of :
        (path : Text) (r : Route)
        → IsPage r
        → (route is_uuid path ≡ r) ↔ (IsView r × (path ≡ path_of r))
    unfolding route
    route-path_of path r v = (
      λ h.
          let (w, same) = fits_at (split_on 47 path) r h v in
          (w, sym (join_by-split_on 47 path) ∙ (ap (join_by 47) same ∙ path_of-join_by r v)),
      λ h.
          ap (λ (q : Text). project_route is_uuid (split_on 47 q)) (h.1 ∙ sym (path_of-join_by r v))
          ∙ (ap (project_route is_uuid)
                (split_on-join_by 47 (codes "api") (parts_of r) (without_slashes r v h.0))
              ∙ project_route-parts r v h.0),
    )
