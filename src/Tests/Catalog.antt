-- ===== src/Tests/Catalog.antt =====
-- Tools and connections that are registered twice.
use mlops.Base.{◌≡◌, refl, sym, ◌∙◌, ◌+◌, ◌==◌, arith, String, List, [], ◌∷◌, true, eq_iff, map}
use mlops.Base.Decimal.{decimal}
use mlops.Api.Value.{text}
use mlops.Api.Model.{RegisterToolRequest}
use mlops.Api.Project.{CreateConnectionRequest}
use mlops.Store.{zero_state, Clock, id, record_event}
use mlops.Store.Catalog.{
  new_tool, register_tool, new_connection, create_connection, checked, update_connection_status,
}
use mlops.Store.Catalog.Names.{
  Call, register, connect, report_check, perform, perform_all, NamesDiffer, perform_all-NamesDiffer,
}

abbrev clock : Clock
clock n = 50 + n

abbrev tool : String → RegisterToolRequest
tool version = record {
  name = "search";
  version = version;
  description = "";
  tags = [];
  input_schema = ("type", text "object") ∷ [];
}

abbrev warehouse : CreateConnectionRequest
warehouse = record { name = "warehouse"; type = "postgres"; endpoint = ""; secret_ref = "pg" }

abbrev calls : List Call
calls =
    register clock (tool "1") "ann"
    ∷ register clock (tool "1") "eve"
    ∷ register clock (tool "2") "ann"
    ∷ connect clock warehouse "ann"
    ∷ report_check clock "conn-50" "ready" "reached" "ann"
    ∷ connect clock warehouse "eve"
    ∷ []

calls_kept :
    (map (λ t. t.version) (perform_all ◌==◌ calls zero_state).tools ≡ "2" ∷ "1" ∷ [])
    × (map (λ c. c.status) (perform_all ◌==◌ calls zero_state).connections ≡ "ready" ∷ [])
unfolding perform_all perform register_tool new_tool create_connection new_connection checked
    update_connection_status record_event id decimal
calls_kept = (refl, refl)

equal_sym : (a b : String) → (a == b) ≡ true → (b == a) ≡ true
equal_sym a b e = (eq_iff b a).1 (sym ((eq_iff a b).0 e))

equal_trans : (a b c : String) → (a == b) ≡ true → (b == c) ≡ true → (a == c) ≡ true
equal_trans a b c e f = (eq_iff a c).1 ((eq_iff a b).0 e ∙ (eq_iff b c).0 f)

zero_differ : NamesDiffer ◌==◌ zero_state
zero_differ = ((λ name version. omega arith), (λ k. omega arith))

perform_all-NamesDiffer_example : NamesDiffer ◌==◌ (perform_all ◌==◌ calls zero_state)
perform_all-NamesDiffer_example =
    perform_all-NamesDiffer ◌==◌ equal_sym equal_trans calls zero_state zero_differ
