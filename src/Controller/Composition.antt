-- ===== src/Controller/Composition.antt =====
-- internal/controller/composition.go, `observeComposition` and `setCompositionCondition`: the walk,
-- the lineage of the direct inputs, and the CompositionReady condition. The five-second limit of
-- the context is in `ctx_err` of the world.
pub mod Statuses
pub mod Reasons
pub mod Verdict
pub mod Keeps
mod Tests
use data_product_controller.Prelude.{
  ℕ, suc, ◌+◌, ◌*◌, String, ℤ, pos, Bool, true, false, not, ◌&&◌, Option, none, some, List, [], ◌∷◌,
  if◌then◌else◌, leb, ltb, length, any, is_some, is_empty, ◌==◌, string_eq, lookup, sort_slice,
  str_lt,
}
use data_product_controller.Kube.{
  ObjectKey, key_eq, Message, text, format, Failure, unencodable, ConditionStatus, condition_true,
  condition_false, Condition,
}
use data_product_controller.Api.{
  InputPort, InputStatus, DataProduct, object_key, condition_composition_ready, DataProductStatus,
}
use data_product_controller.Controller.World.{World}
use data_product_controller.Controller.Compatibility.{
  resolved_reference, producer_key, find_output, input_compatibility, producer_ready,
}
use data_product_controller.Controller.Graph.{
  Graph, Observation, no_problem, composition_limit, key_string, visit, start, ◌>>=◌,
  max_composition_edges,
}

abbrev pub max_lineage_bytes : ℕ
max_lineage_bytes = 65536  -- 64 << 10

abbrev pub fuel : ℕ
fuel = 65

-- a nil gate is off
abbrev pub enabled : Option Bool → Bool
enabled none = false
enabled (some b) = b

abbrev pub feature_disabled : Observation
feature_disabled = record {
  reason = "CompositionFeatureDisabled";
  message = text "Enable composition to evaluate required input contracts.";
  err = none;
}

abbrev pub dependency_not_ready : ObjectKey → Observation
dependency_not_ready k = record {
  reason = "DependencyNotReady";
  message =
      format "DataProduct %s is not ready; wait for its current source and dependency observations."
        (key_string k ∷ []);
  err = none;
}

abbrev pub lineage_unencodable : Observation
lineage_unencodable = record {
  reason = "DependencyUnavailable";
  message = text "Input lineage could not be encoded.";
  err = some unencodable;
}

abbrev pub lineage_limit : Observation
lineage_limit = record {
  reason = "CompositionLimitExceeded";
  message = text "Observed lineage exceeds 64 KiB; shorten producer metadata or split the inputs.";
  err = none;
}

abbrev pub input_not_ready : InputStatus → Observation
input_not_ready s = record {
  reason = s.reason;
  message =
      format "Input %q requires a ready producer with a compatible named output." (s.name ∷ []);
  err = none;
}

-- the lineage of all inputs, or the observation that replaces it
pub data Lineage : Type 0 where
  recorded : List InputStatus → Lineage
  dropped : Observation → Lineage

pub prepend : InputStatus → Lineage → Lineage
prepend s (recorded ss) = recorded (s ∷ ss)
prepend s (dropped o) = dropped o

pub by_name : InputStatus → InputStatus → Bool
by_name a b = str_lt a.name b.name

pub first_unready : List InputStatus → Option InputStatus
first_unready [] = none
first_unready (s ∷ rest) = if s.ready then first_unready rest else some s

unfoldable pub with_inputs : DataProduct → List InputStatus → DataProduct
with_inputs p inputs = record p { status = record p.status { inputs = inputs } }

unfoldable pub with_conditions : DataProduct → List Condition → DataProduct
with_conditions p cs = record p { status = record p.status { conditions = cs } }

-- the first producer on the graph that is not ready
pub blame : Option ObjectKey → Observation → Observation
blame none o = o
blame (some k) o = if o.reason == "" then dependency_not_ready k else o

-- the first input, by name, that is not ready
pub blame_input : Option InputStatus → Observation → Observation
blame_input none o = o
blame_input (some s) o = if o.reason == "" then input_not_ready s else o

pub unobserved : DataProduct → InputPort → String → InputStatus
unobserved p input reason = record {
  name = input.name;
  product_ref = resolved_reference p input.product_ref;
  product_id = "";
  observed_generation = pos 0;
  version = "";
  owner = none;
  output = none;
  ready = false;
  reason = reason;
}

-- one round of the loop that records the lineage; `bytes` is `lineageBytes`
pub sized : ℕ → InputStatus → Option ℕ → (ℕ → Lineage) → Lineage
sized bytes status none rest = dropped lineage_unencodable
sized bytes status (some n) rest =
    if ltb max_lineage_bytes (bytes + (n + 1))
    then dropped lineage_limit
    else prepend status (rest (bytes + (n + 1)))

-- the lineage that is stored, and the observation behind it
pub settle : DataProduct → Observation → Lineage → DataProduct × Observation
unfolding with_inputs by_name
settle p o (dropped r) = (with_inputs p [], r)
settle p o (recorded ss) = (with_inputs p (sort_slice by_name ss), o)

pub requires_contract : List InputPort → Bool
requires_contract = any (λ i. is_some i.contract)

-- the condition that an observation gives
abbrev pub composition_condition : DataProduct → Observation → Condition
composition_condition p o =
    let fine = o.reason == "" in
    record {
      kind = condition_composition_ready;
      status = if fine then condition_true else condition_false;
      observed_generation = p.generation;
      last_transition_time = none;
      reason = if fine then "CompositionVerified" else o.reason;
      message =
          if fine
          then text
              "The dependency graph is acyclic and all inputs satisfy their declared contracts."
          else o.message;
    }

module _ (w : World) where
  pub producer_reason : InputPort → DataProduct → String
  producer_reason input producer =
      let reason = input_compatibility w.semver input producer in
      if reason == "" && not (producer_ready w.conditions producer)
      then "DependencyNotReady"
      else reason

  pub observed_status : DataProduct → InputPort → DataProduct → InputStatus
  unfolding producer_reason
  observed_status p input producer =
      let reason = producer_reason input producer in
      record {
        name = input.name;
        product_ref = resolved_reference p input.product_ref;
        product_id = producer.spec.id;
        observed_generation = producer.generation;
        version = producer.spec.version;
        owner = some producer.spec.owner;
        output = find_output producer (resolved_reference p input.product_ref).output;
        ready = reason == "";
        reason = if reason == "" then "InputReady" else reason;
      }

  pub known_status : DataProduct → InputPort → Graph → Option DataProduct → InputStatus
  unfolding unobserved observed_status
  known_status p input g (some producer) = observed_status p input producer
  known_status p input g none =
      if g.missing (producer_key p input)
      then unobserved p input "DependencyNotFound"
      else unobserved p input "DependencyUnobserved"

  unfoldable pub input_status : DataProduct → Graph → InputPort → InputStatus
  unfolding known_status
  input_status p g input =
      if not ((producer_key p input).namespace == p.namespace)
      then unobserved p input "CrossNamespaceDependencyDenied"
      else known_status p input g (lookup (producer_key p input) g.products)

  -- the loop that records the lineage
  unfoldable pub lineage : DataProduct → Graph → ℕ → List InputPort → Lineage
  unfolding sized prepend
  lineage p g bytes [] = recorded []
  lineage p g bytes (input ∷ rest) =
      let status = input_status p g input in
      sized bytes status (w.encoded_length status) (λ total. lineage p g total rest)

  unfoldable pub set_composition_condition : DataProduct → Observation → DataProduct
  unfolding with_conditions
  set_composition_condition p o =
      with_conditions p (w.conditions.set p.status.conditions (composition_condition p o))

  unfoldable pub recorded_lineage : DataProduct → Graph → Observation → DataProduct × Observation
  unfolding settle
  recorded_lineage p g o =
      if leb (length p.spec.inputs) max_composition_edges
      then settle p o (lineage p g 2 p.spec.inputs)
      else (p, o)

  -- from the result of the walk to the condition
  unfoldable pub conclude : DataProduct → Observation × Graph → DataProduct × Option Failure
  unfolding blame recorded_lineage blame_input first_unready
  conclude p (o, g) =
      let (p', o') = recorded_lineage p g (blame g.not_ready o) in
      let final = blame_input (first_unready p'.status.inputs) o' in
      (set_composition_condition p' final, final.err)

  pub without_condition : DataProduct → DataProduct
  unfolding with_conditions
  without_condition p =
      with_conditions p (w.conditions.remove p.status.conditions condition_composition_ready)

  -- the gate is off: only a required contract is reported
  pub gate_off : DataProduct → DataProduct × Option Failure
  unfolding requires_contract without_condition
  gate_off p =
      if requires_contract p.spec.inputs
      then (set_composition_condition p feature_disabled, none)
      else (without_condition p, none)

  unfoldable pub walked : DataProduct → Option (DataProduct × Option Failure)
  unfolding conclude
  walked p = do r ← visit w fuel p 0 (start p); some (conclude p r)

  unfoldable pub observe_composition :
      Option Bool → DataProduct → Option (DataProduct × Option Failure)
  unfolding with_inputs gate_off without_condition walked
  observe_composition gate product =
      let p = with_inputs product [] in
      if is_empty p.spec.inputs
      then some (without_condition p, none)
      else if not (enabled gate)
      then some (gate_off p)
      else walked p
