-- ===== src/Tests/Integrations.antt =====
-- The workspaces of two users whose subjects differ in a dot and a dash.
use mlops.Base.{
  ◌≡◌, refl, String, List, [], ◌∷◌, Option, some, none, ◌==◌, ◌&&◌, inl, if◌then◌else◌,
}
use mlops.Base.Int.{pos}
use mlops.Base.Slug.{trim_dashes}
use mlops.Base.Text.{byte_length}
use mlops.Api.Value.{end}
use mlops.Integrations.Dispatcher.{
  LifecycleCommand, Functions, Object, Client, Got, absent, present, gone, plan_command,
  workspace_of, object_of, dns_name, dash_runs, name_of, as_text, value_of,
}
use mlops.Integrations.Dispatcher.Delivered.{Obeys, dispatch_all, dispatch_all-shares}

-- A cluster is the function from names to objects.
abbrev Cluster : Type 0
Cluster = String → String → Option Object

abbrev put_object : Cluster → String → String → Option Object → Cluster
put_object c plural name o p n = if p == plural && n == name then o else c p n

abbrev found : Option Object → Got
found none = absent
found (some _) = present "1"

abbrev client : Client Cluster
client = record {
  get = λ c plural name. found (c plural name);
  create = λ c o. (put_object c o.plural o.name (some o), none);
  update = λ c version o. (put_object c o.plural o.name (some o), none);
  delete = λ c plural name. (put_object c plural name none, gone);
}

get_present :
    (c : Cluster) (plural name : String) {o : Object}
    → c plural name ≡ some o
    → (version : String) × (found (c plural name) ≡ present version)
get_present c plural name h = ("1", rw h refl)

laws : Obeys client (λ c. c)
laws = record {
  get_absent = λ c plural name h. rw h refl;
  get_present = get_present;
  created = λ c made h. (refl, λ p n. refl);
  updated = λ c made version h. (refl, λ p n. refl);
  deleted = λ c made. (inl refl, λ p n. refl);
}

abbrev go : Functions
go = record { to_lower = λ s. s; digest8 = λ s. "01234567"; truncate = λ bits. pos 0 }

abbrev access : String → String → LifecycleCommand
access subject action = record {
  id = subject;
  kind = "user_access";
  action = action;
  resource = end;
  tenant = "t";
}

abbrev nothing : Cluster
nothing _ _ = none

integration_code : Unit {0}
unfolding plan_command workspace_of object_of dns_name dash_runs trim_dashes byte_length name_of
    as_text value_of
integration_code = tt

shared_name : (workspace_of go (access "a.b" "access.created")).name ≡ "workspace-a-b"
unfolding integration_code
shared_name = refl

dispatch_all-shares_example :
    let two = access "a-b" "access.created" in
    let granted = two ∷ access "a.b" "access.created" ∷ [] in
    (dispatch_all client go granted nothing "nexusworkspaces" (workspace_of go two).name
      ≡ some (workspace_of go two))
    × (dispatch_all client go
          (access "a.b" "access.deleted" ∷ granted)
          nothing
          "nexusworkspaces"
          (workspace_of go two).name
        ≡ none)
unfolding integration_code
dispatch_all-shares_example =
    dispatch_all-shares client go (λ c. c) laws (access "a.b" "access.created")
      (access "a-b" "access.created") (access "a.b" "access.deleted") [] nothing refl refl refl refl
      refl

abbrev commands : List LifecycleCommand
commands = access "eve" "access.updated" ∷ access "eve" "access.updated" ∷ []
