-- ===== src/Controller/Composition/Tests.antt =====
-- An observation of a product with one good input, and what the theorems say there.
use data_product_controller.Prelude.{
  ◌+◌, ◌≤◌, ◌≡◌, true, Option, none, some, List, [], map, refl, arith, sort_slice,
}
use data_product_controller.Kube.{Failure, Condition, condition_true}
use data_product_controller.Kube.Sample.{sample_conditions, find, set}
use data_product_controller.Api.{DataProduct, InputStatus, condition_composition_ready}
use data_product_controller.Controller.Compatibility.{
  find_output, input_compatibility, producer_ready,
}
use data_product_controller.Controller.Version.{compatible_version, stable_version}
use data_product_controller.Controller.Version.Sample.{lex_le, sample_semver}
use data_product_controller.Controller.Samples.{world, get, reports, ready_condition}
use data_product_controller.Controller.Graph.{
  start, visit, guarded, entered, entry, enter, leave, scan, round, locate, known_or_read, fetched,
  followed, checked, note_readiness,
}
use data_product_controller.Controller.Composition.{
  Lineage, recorded, dropped, lineage, input_status, observe_composition, walked, conclude,
  with_inputs, recorded_lineage, set_composition_condition, with_conditions, max_lineage_bytes,
}
use data_product_controller.Controller.Composition.Statuses.{lineage-recorded, encoded_total}
use data_product_controller.Controller.Composition.Keeps.{Kept, observe_composition-Kept}
use data_product_controller.Controller.Composition.Verdict.{Verified, composition_verdict}

abbrev unwrap : Option (DataProduct × Option Failure) → DataProduct × Option Failure
unwrap none = (reports, none)
unwrap (some r) = r

abbrev observed : DataProduct × Option Failure
observed = unwrap (observe_composition world (some true) reports)

abbrev the_condition : Option Condition → Condition
the_condition none = ready_condition
the_condition (some c) = c

abbrev verdict : Condition
verdict =
    the_condition (world.conditions.find observed.0.status.conditions condition_composition_ready)

observation_ran : observe_composition world (some true) reports ≡ some (observed.0, observed.1)
unfolding sort_slice world get observe_composition walked conclude with_inputs with_conditions
    recorded_lineage visit guarded entered entry enter leave scan round locate known_or_read fetched
    followed checked note_readiness input_compatibility producer_ready find_output sample_semver
    sample_conditions lex_le find set compatible_version stable_version lineage input_status
    set_composition_condition
observation_ran = refl

verdict_stored :
    world.conditions.find observed.0.status.conditions condition_composition_ready ≡ some verdict
unfolding sort_slice world get observe_composition walked conclude with_inputs with_conditions
    recorded_lineage visit guarded entered entry enter leave scan round locate known_or_read fetched
    followed checked note_readiness input_compatibility producer_ready find_output sample_semver
    sample_conditions lex_le find set compatible_version stable_version lineage input_status
    set_composition_condition
verdict_stored = refl

verdict_true : verdict.status ≡ condition_true
unfolding sort_slice world get observe_composition walked conclude with_inputs with_conditions
    recorded_lineage visit guarded entered entry enter leave scan round locate known_or_read fetched
    followed checked note_readiness input_compatibility producer_ready find_output sample_semver
    sample_conditions lex_le find set compatible_version stable_version lineage input_status
    set_composition_condition
verdict_true = refl

composition_verdict_example :
    (verdict.observed_generation ≡ reports.generation)
    × (verdict.status ≡ condition_true
        → Verified world (some true) (with_inputs reports []) observed.0)
composition_verdict_example =
    composition_verdict world (some true) reports observed.0 observed.1 verdict observation_ran
      verdict_stored

abbrev statuses : Lineage → List InputStatus
statuses (recorded ss) = ss
statuses (dropped o) = []

abbrev recorded_statuses : List InputStatus
recorded_statuses = statuses (lineage world reports (start reports) 2 reports.spec.inputs)

lineage_ran :
    lineage world reports (start reports) 2 reports.spec.inputs ≡ recorded recorded_statuses
unfolding lineage input_status world
lineage_ran = refl

lineage-recorded_example :
    (recorded_statuses ≡ map (input_status world reports (start reports)) reports.spec.inputs)
    × (2 + encoded_total world recorded_statuses ≤ max_lineage_bytes)
lineage-recorded_example =
    lineage-recorded world reports (start reports) 2 reports.spec.inputs recorded_statuses
      lineage_ran (omega arith)

observe_composition-Kept_example : Kept world reports observed.0
observe_composition-Kept_example =
    observe_composition-Kept world (some true) reports observed observation_ran
