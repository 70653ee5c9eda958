-- ===== src/Integrations/Dispatcher/Delivered.antt =====
-- What the cluster holds after commands.
use mlops.Base.{
  ◌≡◌, refl, ap, ◌∙◌, String, Bool, List, [], ◌∷◌, Option, none, some, ◌==◌, ◌&&◌, inl, inr,
  Option-cases, ◌⊎◌, eq_refl, if◌then◌else◌,
}
use mlops.Integrations.Dispatcher.{
  LifecycleCommand, Functions, Object, Planned, ignored, unsupported, applied, removed,
  plan_command, absent, present, gone, missing, Client, apply_object, remove_object,
  dispatch_command, object_of, workspace_of,
}

-- The cluster's word for the object of a name.
abbrev pub Held : Type 0 → Type 0
Held C = C → String → String → Option Object

abbrev pub is_key : Object → String → String → Bool
is_key made plural name = plural == made.plural && name == made.name

-- What a healthy cluster does, by what it holds: it finds what it holds, creates what it does not
-- hold, updates what it holds, and deletes, without a change of other objects.
pub record Obeys {C : Type 0} (client : Client C) (held : Held C) : Type 0 where
  pub get_absent :
      (c : C) (plural name : String) → held c plural name ≡ none → client.get c plural name ≡ absent
  pub get_present :
      (c : C) (plural name : String) {o : Object}
      → held c plural name ≡ some o
      → (version : String) × (client.get c plural name ≡ present version)
  pub created :
      (c : C) (made : Object)
      → held c made.plural made.name ≡ none
      → ((client.create c made).1 ≡ none)
        × ((p n : String)
            → held (client.create c made).0 p n
              ≡ (if is_key made p n then some made else held c p n))
  pub updated :
      (c : C) (made : Object) (version : String)
      → client.get c made.plural made.name ≡ present version
      → ((client.update c version made).1 ≡ none)
        × ((p n : String)
            → held (client.update c version made).0 p n
              ≡ (if is_key made p n then some made else held c p n))
  pub deleted :
      (c : C) (made : Object)
      → (((client.delete c made.plural made.name).1 ≡ gone)
          ⊎ ((client.delete c made.plural made.name).1 ≡ missing))
        × ((p n : String)
            → held (client.delete c made.plural made.name).0 p n
              ≡ (if is_key made p n then none else held c p n))

-- What a command, by what the switch makes of it, says of the object of a name, which was `before`.
abbrev pub effect : Planned → String → String → Option Object → Option Object
effect ignored plural name before = before
effect unsupported plural name before = before
effect (applied made) plural name before = if is_key made plural name then some made else before
effect (removed made) plural name before = if is_key made plural name then none else before

-- The commands one after another, with the last in front.
abbrev pub effects :
    Functions → List LifecycleCommand → String → String → Option Object → Option Object
effects go [] plural name before = before
effects go (command ∷ earlier) plural name before =
    effect (plan_command go command) plural name (effects go earlier plural name before)

module _ {C : Type 0} (client : Client C) (go : Functions) where
  -- The cluster after the commands, with the last in front.
  unfoldable pub dispatch_all : List LifecycleCommand → C → C
  dispatch_all [] c = c
  dispatch_all (command ∷ earlier) c =
      (dispatch_command client go command (dispatch_all earlier c)).0

Planned-cases :
    (p : Planned)
    → ((p ≡ ignored) ⊎ (p ≡ unsupported))
      ⊎ (((made : Object) × (p ≡ applied made)) ⊎ ((made : Object) × (p ≡ removed made)))
Planned-cases ignored = inl (inl refl)
Planned-cases unsupported = inl (inr refl)
Planned-cases (applied made) = inr (inl (made, refl))
Planned-cases (removed made) = inr (inr (made, refl))

module _ {C : Type 0} (client : Client C) (go : Functions) (held : Held C)
    (laws : Obeys client held) where
  apply_object-held :
      (made : Object) (c : C) (p n : String)
      → held (apply_object client go made c).0 p n
        ≡ (if is_key made p n then some made else held c p n)
  unfolding apply_object
  apply_object-held made c p n = elim (Option-cases (held c made.plural made.name)) [
    | inl e ↦
        rw (laws.get_absent c made.plural made.name e, apply_object) ((laws.created c made e).1 p n)
    | inr (o, e) ↦
        let (version, there) = laws.get_present c made.plural made.name e in
        rw (there, apply_object) ((laws.updated c made version there).1 p n)
  ]

  dispatch_command-held :
      (command : LifecycleCommand) (c : C) (p n : String)
      → held (dispatch_command client go command c).0 p n
        ≡ effect (plan_command go command) p n (held c p n)
  unfolding dispatch_command remove_object
  dispatch_command-held command c p n = elim (Planned-cases (plan_command go command)) [
    | inl (inl e) ↦ rw (e, dispatch_command) refl
    | inl (inr e) ↦ rw (e, dispatch_command) refl
    | inr (inl (made, e)) ↦ rw (e, dispatch_command) (apply_object-held made c p n)
    | inr (inr (made, e)) ↦ rw (e, dispatch_command) ((laws.deleted c made).1 p n)
  ]

  pub dispatch_all-effects :
      (commands : List LifecycleCommand) (c : C) (plural name : String)
      → held (dispatch_all client go commands c) plural name
        ≡ effects go commands plural name (held c plural name)
  unfolding dispatch_all
  dispatch_all-effects [] c p n = refl
  dispatch_all-effects (command ∷ earlier) c p n =
      dispatch_command-held command (dispatch_all client go earlier c) p n
      ∙ ap (effect (plan_command go command) p n) (dispatch_all-effects earlier c p n)

  -- Two users whose subjects give the same name of a workspace, as "a.b" and "a-b" do, share one: where
  -- the last commands are the grants of both and the end of the first one's access, the cluster holds
  -- no workspace under the name, although the second user's access still stands.
  pub dispatch_all-shares :
      (one two over : LifecycleCommand) (earlier : List LifecycleCommand) (c : C)
      → plan_command go one ≡ applied (workspace_of go one)
      → plan_command go two ≡ applied (workspace_of go two)
      → plan_command go over ≡ removed (workspace_of go over)
      → (workspace_of go one).name ≡ (workspace_of go over).name
      → (workspace_of go two).name ≡ (workspace_of go over).name
      → (held
            (dispatch_all client go (two ∷ one ∷ earlier) c)
            "nexusworkspaces"
            (workspace_of go two).name
          ≡ some (workspace_of go two))
        × (held
              (dispatch_all client go (over ∷ two ∷ one ∷ earlier) c)
              "nexusworkspaces"
              (workspace_of go two).name
            ≡ none)
  unfolding workspace_of object_of
  dispatch_all-shares one two over earlier c a b d same same' = (
    dispatch_all-effects (two ∷ one ∷ earlier) c "nexusworkspaces" (workspace_of go two).name
        ∙ rw (b, eq_refl (workspace_of go two).name) refl,
    dispatch_all-effects (over ∷ two ∷ one ∷ earlier) c "nexusworkspaces" (workspace_of go two).name
        ∙ rw (d, same', eq_refl (workspace_of go over).name) refl,
  )
