-- ===== src/Controller/Graph/Tests.antt =====
-- The walk on two products, and what its theorems say there.
use data_product_controller.Prelude.{◌<◌, ◌≡◌, Option, none, some, refl, arith, lookup}
use mathlib.Core.List.Memᴰ
use data_product_controller.Kube.{key_eq}
use data_product_controller.Api.{DataProduct, object_key}
use data_product_controller.Controller.Compatibility.{
  find_output, input_compatibility, producer_ready,
}
use data_product_controller.Controller.Version.{compatible_version, stable_version}
use data_product_controller.Controller.Version.Sample.{lex_le, sample_semver}
use data_product_controller.Kube.Sample.{sample_conditions, find}
use data_product_controller.Controller.Samples.{world, get, reports, orders_key, orders_input}
use data_product_controller.Controller.Graph.{
  Graph, Observation, no_problem, visit, start, guarded, entered, entry, enter, leave, scan, round,
  locate, known_or_read, fetched, followed, checked, note_readiness,
}
use data_product_controller.Controller.Graph.Fuel.{visit_returns}
use data_product_controller.Controller.Graph.Verified.{
  Reaches, Verified, here, step, walk_acyclic, walk_depth, walk_inputs,
}
use data_product_controller.Controller.Graph.Bounds.{IsBounded, walk-IsBounded}

abbrev unwrap : Option (Observation × Graph) → Observation × Graph
unwrap none = (no_problem, start reports)
unwrap (some r) = r

abbrev result : Observation × Graph
result = unwrap (visit world 65 reports 0 (start reports))

walk_ran : visit world 65 reports 0 (start reports) ≡ some (result.0, result.1)
unfolding world get visit guarded entered entry enter leave scan round locate known_or_read fetched
    followed checked note_readiness input_compatibility producer_ready find_output sample_semver
    sample_conditions lex_le find compatible_version stable_version
walk_ran = refl

walk_fine : result.0.reason ≡ ""
unfolding world get visit guarded entered entry enter leave scan round locate known_or_read fetched
    followed checked note_readiness input_compatibility producer_ready find_output sample_semver
    sample_conditions lex_le find compatible_version stable_version
walk_fine = refl

-- the chain from the consumer to its producer
reached : Reaches result.1 (object_key reports) orders_key 1
unfolding world get visit guarded entered entry enter leave scan round locate known_or_read fetched
    followed checked note_readiness input_compatibility producer_ready find_output sample_semver
    sample_conditions lex_le find compatible_version stable_version
reached = step reports orders_input refl (Memᴰ.head refl) (here refl)

known : lookup (object_key reports) result.1.products ≡ some reports
unfolding world get visit guarded entered entry enter leave scan round locate known_or_read fetched
    followed checked note_readiness input_compatibility producer_ready find_output sample_semver
    sample_conditions lex_le find compatible_version stable_version
known = refl

visit_returns_example :
    (r : Observation × Graph) × (visit world 65 reports 0 (start reports) ≡ some r)
visit_returns_example = visit_returns world 65 reports 0 (start reports) (omega arith) (omega arith)

walk_acyclic_example : ¬ Reaches result.1 orders_key orders_key 1
walk_acyclic_example =
    walk_acyclic world 65 reports result.0 result.1 walk_ran walk_fine orders_key 1 0 reached

walk_depth_example : (1 < 64) × ((q : DataProduct) × (lookup orders_key result.1.products ≡ some q))
walk_depth_example =
    walk_depth world 65 reports result.0 result.1 walk_ran walk_fine orders_key 1 reached

walk_inputs_example : Verified world result.1 reports orders_input
walk_inputs_example =
    walk_inputs world 65 reports result.0 result.1 walk_ran walk_fine (object_key reports) 0 reports
      orders_input (here refl) known (Memᴰ.head refl)

walk-IsBounded_example : IsBounded world reports result.1
walk-IsBounded_example = walk-IsBounded world reports 65 result.0 result.1 walk_ran
