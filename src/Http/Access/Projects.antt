-- ===== src/Http/Access/Projects.antt =====
-- Listing projects against access to each of them.
use mlops.Base.{
  ◌≡◌, String, Bool, true, false, List, [], ◌∷◌, ◌==◌, ◌||◌, ◌&&◌, refl, filter, any, map, eq_iff,
  arith, ◌∙◌,
}
use mlops.Base.Text.{contains}
use mlops.Base.Member.{contains-append}
use mlops.Api.Project.{Project}
use mlops.Api.Access.{ApiToken}
use mlops.Auth.{Principal}
use mlops.Auth.Middleware.{token_principal}
use mlops.Store.{State}
use mlops.Http.Access.{
  privileged, exempt, owned_by, allowed_project_ids, project_allowed, filter_projects,
}

abbrev pub has_project_id : String → Project → Bool
has_project_id k item = item.id == k

listed_lem :
    (value : Principal) (items : List Project) (k : String)
    → any
        (has_project_id k)
        (filter (λ item. contains value.project_ids item.id || owned_by value item) items)
      ≡ any (λ item. item.id == k && (contains value.project_ids k || owned_by value item)) items
listed_lem value [] k = refl
listed_lem value (item ∷ items) k = ground (arith, eq_iff item.id k, listed_lem value items k)

-- A project is listed to a personal API key exactly where it exists, and the scope of the key has it
-- or the user of the key owns it; but the key gives access to it only where its scope has it.
pub filter_projects-exceeds_scope :
    (s : State) (token : ApiToken) (k : String)
    → let value = token_principal token in
      (any (has_project_id k) (filter_projects s.projects value)
        ≡ any
            (λ item.
              item.id == k && (contains token.project_ids k || item.owner_subject == token.subject))
            s.projects)
      × (project_allowed s value k ≡ contains token.project_ids k)
unfolding filter_projects project_allowed allowed_project_ids exempt privileged token_principal
    contains
filter_projects-exceeds_scope s token k = (listed_lem (token_principal token) s.projects k, refl)

listed_is_allowed :
    (s : State) (value : Principal) (items : List Project) (k : String)
    → any
        (has_project_id k)
        (filter (λ item. contains value.project_ids item.id || owned_by value item) items)
      ≡ true
    → (contains value.project_ids k
        || contains (map (λ (p : Project). p.id) (filter (owned_by value) items)) k)
      ≡ true
unfolding contains
listed_is_allowed s value [] k h = cc
listed_is_allowed s value (item ∷ items) k h =
    ground (arith, eq_iff item.id k, listed_is_allowed s value items k)

-- To a caller with the role user, and no privileged one, in an interactive session, every project
-- that is listed is one that it may access.
filter_projects-allowed :
    (s : State) (value : Principal) (k : String)
    → privileged value ≡ false
    → contains value.roles "user" ≡ true
    → (value.credential == "api_token") ≡ false
    → any (has_project_id k) (filter_projects s.projects value) ≡ true
    → project_allowed s value k ≡ true
unfolding filter_projects project_allowed allowed_project_ids exempt
filter_projects-allowed s value k plain user session h =
    rw (plain, user, session)
      (contains-append value.project_ids
          (map (λ (p : Project). p.id) (filter (owned_by value) s.projects)) k
        ∙ listed_is_allowed s value s.projects k (rw user at h))
