-- ===== src/Store/Catalog/Names.antt =====
-- The names of tools and connections under sequences of calls.
use mlops.Base.{
  ◌≤◌, ◌≡◌, refl, String, Bool, true, false, List, [], ◌∷◌, ◌||◌, inl, inr, Bool-cases,
  Option-cases, eq_iff, count, any, is_nil, arith,
}
use mlops.Base.First.{find_first, count-update_first-le}
use mlops.Base.Text.{is_empty}
use mlops.Api.Model.{Tool, RegisterToolRequest}
use mlops.Api.Project.{Connection, CreateConnectionRequest}
use mlops.Store.{State, Clock, record_event}
use mlops.Store.Catalog.{
  is_tool, new_tool, register_tool, new_connection, create_connection, is_connection, checked,
  update_connection_status,
}

-- A call of a method that changes the tools or the connections.
pub data Call : Type 0 where
  register : Clock → RegisterToolRequest → String → Call
  connect : Clock → CreateConnectionRequest → String → Call
  report_check : Clock → String → String → String → String → Call

module _ (equal_fold : String → String → Bool) where
  unfoldable pub perform : Call → State → State
  perform (register clock req actor) s = (register_tool clock req actor s).0
  perform (connect clock req actor) s = (create_connection equal_fold clock req actor s).0
  perform (report_check clock connection_id status said actor) s =
      (update_connection_status clock connection_id status said actor s).0

  unfoldable pub perform_all : List Call → State → State
  perform_all [] s = s
  perform_all (c ∷ cs) s = perform_all cs (perform c s)

  abbrev pub is_called : String → Connection → Bool
  is_called k v = equal_fold v.name k

  -- No two tools share name and version, and no two connections a name, whatever its case.
  abbrev pub NamesDiffer : State → Type 0
  NamesDiffer s =
      ((name version : String) → count (is_tool name version) s.tools ≤ 1)
      × ((k : String) → count (is_called k) s.connections ≤ 1)

  no_tool :
      (a b : String) (xs : List Tool) → any (is_tool a b) xs ≡ false → count (is_tool a b) xs ≡ 0
  no_tool a b [] h = refl
  no_tool a b (x ∷ xs) h = ground (arith, no_tool a b xs)

  register-NamesDiffer :
      (clock : Clock) (req : RegisterToolRequest) (actor : String) (s : State)
      → NamesDiffer s
      → NamesDiffer (register_tool clock req actor s).0
  unfolding register_tool record_event
  register-NamesDiffer clock req actor s h =
      elim (Bool-cases (is_empty req.name || is_empty req.version || is_nil req.input_schema)) [
        | inl e ↦ rw (e, register_tool) h
        | inr e ↦ elim (Bool-cases (any (is_tool req.name req.version) s.tools)) [
          | inl d ↦ rw (e, register_tool, d) h
          | inr d ↦
              rw (e, register_tool, d)
                (
                  (λ name version.
                      unfold new_tool in
                      ground (
                        arith,
                        h.0 name version,
                        eq_iff req.name name,
                        eq_iff req.version version,
                        no_tool req.name req.version s.tools d,
                      )),
                  h.1,
                )
        ]
      ]

  check-NamesDiffer :
      (clock : Clock) (connection_id status said actor : String) (s : State)
      → NamesDiffer s
      → NamesDiffer (update_connection_status clock connection_id status said actor s).0
  unfolding update_connection_status record_event
  check-NamesDiffer clock connection_id status said actor s h =
      elim (Option-cases (find_first (is_connection connection_id) s.connections)) [
        | inl p ↦ rw (p, update_connection_status) h
        | inr (found, p) ↦
            rw (p, update_connection_status)
              (
                h.0,
                (λ k. omega (
                  arith,
                  h.1 k,
                  count-update_first-le (is_connection connection_id) (is_called k)
                      (checked (clock 0) status said) (unfold checked in λ x a b. b) s.connections,
                )),
              )
      ]

  module _ (fold_sym : (a b : String) → equal_fold a b ≡ true → equal_fold b a ≡ true)
      (fold_trans : (a b c : String)
        → equal_fold a b ≡ true
        → equal_fold b c ≡ true
        → equal_fold a c ≡ true) where
    no_connection :
        (a k : String) (xs : List Connection)
        → equal_fold a k ≡ true
        → any (is_called a) xs ≡ false
        → count (is_called k) xs ≡ 0
    no_connection a k [] same h = refl
    no_connection a k (x ∷ xs) same h =
        ground (arith, no_connection a k xs, fold_sym a k same, fold_trans x.name k a)

    connect-NamesDiffer :
        (clock : Clock) (req : CreateConnectionRequest) (actor : String) (s : State)
        → NamesDiffer s
        → NamesDiffer (create_connection equal_fold clock req actor s).0
    unfolding create_connection record_event
    connect-NamesDiffer clock req actor s h =
        elim (Bool-cases (is_empty req.name || is_empty req.type || is_empty req.secret_ref)) [
          | inl e ↦ rw (e, create_connection) h
          | inr e ↦ elim (Bool-cases (any (is_called req.name) s.connections)) [
            | inl d ↦ rw (e, create_connection, d) h
            | inr d ↦
                rw (e, create_connection, d)
                  (
                    h.0,
                    (λ k.
                        unfold new_connection in
                        ground (arith, h.1 k, no_connection req.name k s.connections)),
                  )
          ]
        ]

    -- Where `strings.EqualFold` is symmetric and transitive: whatever calls are made on a store in
    -- which no two tools share name and version and no two connections a name up to case, this
    -- stays so.
    pub perform_all-NamesDiffer :
        (cs : List Call) (s : State) → NamesDiffer s → NamesDiffer (perform_all cs s)
    unfolding perform_all perform
    perform_all-NamesDiffer [] s h = h
    perform_all-NamesDiffer (register clock req actor ∷ cs) s h =
        perform_all-NamesDiffer cs _ (register-NamesDiffer clock req actor s h)
    perform_all-NamesDiffer (connect clock req actor ∷ cs) s h =
        perform_all-NamesDiffer cs _ (connect-NamesDiffer clock req actor s h)
    perform_all-NamesDiffer (report_check clock connection_id status said actor ∷ cs) s h =
        perform_all-NamesDiffer cs _ (check-NamesDiffer clock connection_id status said actor s h)
