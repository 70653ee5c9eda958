-- ===== src/Tests/Projects.antt =====
-- Projects that are created and given a repository, one of them with a name in no Latin script.
use mlops.Base.{
  ◌≡◌, refl, sym, ◌∙◌, ◌+◌, ◌==◌, arith, String, List, [], ◌∷◌, true, false, none, some, eq_iff,
  map, ltb,
}
use mlops.Base.Decimal.{decimal}
use mlops.Base.Slug.{slug, is_plain}
use mlops.Base.Text.{trim_space, has_prefix, has_part, any_code, byte_length}
use mlops.Api.Project.{CreateProjectRequest, SetProjectRepositoryRequest}
use mlops.Store.{zero_state, Clock, id, record_event, returned}
use mlops.Store.Projects.{
  Library, url_error, provider_of, validate_git_repository, initial_repository, new_project,
  create_project, set_repository, set_project_repository,
}
use mlops.Store.Projects.Names.{
  Call, create, connect, perform, perform_all, NamesHold, perform_all-NamesHold,
}

abbrev clock : Clock
clock n = 70 + n

-- Texts are lower case already, and all URLs are those of one host.
abbrev lib : Library
lib = record {
  to_lower = λ s. s;
  equal_fold = ◌==◌;
  parse_url = λ s. some (record { scheme = "https"; host = "github.com"; has_user = false });
}

abbrev request : String → CreateProjectRequest
request name = record {
  name = name;
  description = "";
  template = "";
  repository_url = "";
  default_branch = "";
  owner_subject = "ann";
}

abbrev remote : SetProjectRepositoryRequest
remote = record { url = "https://github.com/a/b"; default_branch = ""; last_commit = "" }

abbrev calls : List Call
calls =
    create clock (request "fraud -- model ") ("ann" ∷ [])
    ∷ create clock (request "fraud -- model") ("eve" ∷ [])
    ∷ connect clock "prj-70" remote "ann"
    ∷ []

project_code : Unit {0}
unfolding perform_all perform create_project new_project initial_repository set_project_repository
    set_repository validate_git_repository url_error provider_of record_event id decimal slug
    trim_space has_prefix has_part byte_length
project_code = tt

calls_kept :
    (map (λ p. p.namespace) (perform_all lib calls zero_state).projects ≡ "fraud-model" ∷ [])
unfolding project_code
calls_kept = refl

equal_sym : (a b : String) → (a == b) ≡ true → (b == a) ≡ true
equal_sym a b e = (eq_iff b a).1 (sym ((eq_iff a b).0 e))

equal_trans : (a b c : String) → (a == b) ≡ true → (b == c) ≡ true → (a == c) ≡ true
equal_trans a b c e f = (eq_iff a c).1 ((eq_iff a b).0 e ∙ (eq_iff b c).0 f)

zero-NamesHold : NamesHold lib zero_state
zero-NamesHold = ((λ k. omega arith), tt)

perform_all-NamesHold_example : NamesHold lib (perform_all lib calls zero_state)
perform_all-NamesHold_example =
    perform_all-NamesHold lib equal_sym equal_trans calls zero_state zero-NamesHold

long : ltb (byte_length (trim_space (request "日本").name)) 3 ≡ false
unfolding project_code
long = refl

exotic : any_code is_plain (lib.to_lower (trim_space (request "日本").name)) ≡ false
unfolding project_code
exotic = refl

bare : initial_repository lib (request "日本") ≡ returned none
unfolding project_code
bare = refl
