-- ===== src/Controller/Graph.antt =====
-- internal/controller/composition.go, `compositionGraph` and its `visit`: the bounded depth-first
-- walk over the producers of a product. The maps are functions with Go's zero value, but
-- `products`, whose size is read, is an association list. `clock` counts the calls that leave the
-- code (ctx.Err and Get). The recursion is on fuel; `none` means that it ran out.
pub mod Fuel
pub mod Cases
pub mod Sound
pub mod Steps
pub mod Marks
pub mod Leave
pub mod Pass
pub mod Scan
pub mod Walk
pub mod Verified
pub mod Keeps
pub mod Bounds
mod Tests
use Prim.Native.String
use data_product_controller.Prelude.{
  ℕ, zero, suc, ◌+◌, max, String, Bool, true, false, not, ◌&&◌, Option, none, some, List, [], ◌∷◌,
  if◌then◌else◌, leb, ltb, length, ◌==◌, string_eq, update, lookup,
}
use data_product_controller.Kube.{
  ObjectKey, key_eq, Message, text, format, Failure, not_found, found, failed, Fetch,
}
use data_product_controller.Api.{InputPort, DataProduct, object_key}
use data_product_controller.Controller.World.{World}
use data_product_controller.Controller.Compatibility.{
  resolved_reference, producer_key, input_compatibility, producer_ready,
}

abbrev pub max_composition_products : ℕ
max_composition_products = 256

abbrev pub max_composition_edges : ℕ
max_composition_edges = 1024

abbrev pub max_composition_depth : ℕ
max_composition_depth = 64

-- compositionObservation; the empty reason means that nothing is wrong
pub record Observation : Type 0 where
  pub reason : String
  pub message : Message
  pub err : Option Failure

abbrev pub no_problem : Observation
no_problem = record { reason = ""; message = text ""; err = none }

pub record Graph : Type 0 where
  pub not_ready : Option ObjectKey
  pub products : List (ObjectKey × DataProduct)
  pub visiting : ObjectKey → Bool
  pub visited : ObjectKey → Bool
  pub heights : ObjectKey → ℕ
  pub missing : ObjectKey → Bool
  pub edges : ℕ
  pub clock : ℕ

abbrev pub tick : Graph → Graph
tick g = record g { clock = g.clock + 1 }

-- how %s prints a key
abbrev pub key_string : ObjectKey → String
key_string k = String.◌++◌ k.namespace (String.◌++◌ "/" k.name)

abbrev pub composition_limit : Observation
composition_limit = record {
  reason = "CompositionLimitExceeded";
  message =
      text
        "Composition exceeds 256 products, 1024 inputs, or 64 levels; split the dependency graph.";
  err = none;
}

abbrev pub timed_out : Failure → Observation
timed_out e = record {
  reason = "DependencyUnavailable";
  message = text "Composition observation timed out; it will be retried.";
  err = some e;
}

abbrev pub dependency_cycle : ObjectKey → Observation
dependency_cycle key = record {
  reason = "DependencyCycle";
  message =
      format "A dependency cycle includes DataProduct %s; remove a circular input reference."
        (key_string key ∷ []);
  err = none;
}

abbrev pub cross_namespace : Observation
cross_namespace = record {
  reason = "CrossNamespaceDependencyDenied";
  message =
      text
        "Composition requires producers in the same namespace; cross-namespace producer authorization is not supported.";
  err = none;
}

-- the two outcomes of a failed read
abbrev pub read_failure : InputPort → ObjectKey → ObjectKey → Failure → Observation
read_failure input key wanted not_found = record {
  reason = "DependencyNotFound";
  message =
      format "Input %q on DataProduct %s references missing DataProduct %s."
        (input.name ∷ key_string key ∷ key_string wanted ∷ []);
  err = none;
}
read_failure input key wanted e = record {
  reason = "DependencyUnavailable";
  message =
      text
        "A dependency could not be observed; check Kubernetes API availability and controller access.";
  err = some e;
}

abbrev pub mismatch : InputPort → ObjectKey → ObjectKey → String → Observation
mismatch input key wanted reason = record {
  reason = reason;
  message =
      format
        "Input %q on DataProduct %s does not match output %q on %s; check its protocol and stable contract version."
        (input.name ∷ key_string key ∷ input.product_ref.output ∷ key_string wanted ∷ []);
  err = none;
}

-- the producer of one input: already observed, or read now
pub data Located : Type 0 where
  absent : Observation → Graph → Located
  present : DataProduct → Graph → Located

infixl 5 ◌>>=◌
abbrev pub ◌>>=◌ {ℓ κ} : {A : Type ℓ} {B : Type κ} → Option A → (A → Option B) → Option B
none >>= k = none
some a >>= k = k a

abbrev pub Visit : Type 0
Visit = DataProduct → ℕ → Graph → Option (Observation × Graph)

-- one round of the loop over the inputs: a return from `visit`, or the next round
pub data Round : Type 0 where
  stop : Observation → Graph → Round
  go_on : Graph → Round

abbrev pub resume : Round → (Graph → Option (Observation × Graph)) → Option (Observation × Graph)
resume (stop o g) k = some (o, g)
resume (go_on g) k = k g

-- `if !producerReady(producer) && g.notReady == nil { g.notReady = &producerKey }`
abbrev pub keep_first : Option ObjectKey → ObjectKey → Option ObjectKey
keep_first none k = some k
keep_first (some j) k = some j

-- the guards of `visit` after ctx.Err, in order: an observation is returned at once
unfoldable pub entry : DataProduct → ℕ → Graph → Option Observation
entry product depth g =
    let key = object_key product in
    if g.visiting key
    then some (dependency_cycle key)
    else if g.visited key
    then some (
        if leb max_composition_depth (depth + g.heights key) then composition_limit else no_problem)
    else if leb max_composition_depth depth
    then some composition_limit
    else if ltb max_composition_edges (length product.spec.inputs + g.edges)
    then some composition_limit
    else none

-- `g.visited[key] = true` after the loop, and the deferred `delete(g.visiting, key)`
unfoldable pub leave : ObjectKey → Observation × Graph → Observation × Graph
leave key (o, g) = (
  o,
  record g {
    visited = if o.reason == "" then update g.visited key true else g.visited;
    visiting = update g.visiting key false;
  },
)

unfoldable pub enter : ObjectKey → DataProduct → Graph → Graph
enter key product g = record g {
  edges = g.edges + length product.spec.inputs;
  visiting = update g.visiting key true;
}

unfoldable pub mark_missing : ObjectKey → Failure → Graph → Graph
mark_missing key not_found g = record g { missing = update g.missing key true }
mark_missing key _ g = g

abbrev pub raise_height : ObjectKey → ObjectKey → Graph → Graph
raise_height key wanted g = record g {
  heights = update g.heights key (max (g.heights key) (1 + g.heights wanted));
}

module _ (w : World) where
  unfoldable pub fetched : InputPort → ObjectKey → ObjectKey → Graph → Fetch DataProduct → Located
  unfolding mark_missing
  fetched input key wanted g (failed e) =
      absent (read_failure input key wanted e) (mark_missing wanted e (tick g))
  fetched input key wanted g (found producer) =
      present producer (record (tick g) { products = (wanted, producer) ∷ g.products })

  unfoldable pub known_or_read :
      InputPort → ObjectKey → ObjectKey → Graph → Option DataProduct → Located
  unfolding fetched
  known_or_read input key wanted g (some producer) = present producer g
  known_or_read input key wanted g none =
      if leb max_composition_products (length g.products)
      then absent composition_limit g
      else fetched input key wanted g (w.get g.clock wanted)

  unfoldable pub locate : InputPort → ObjectKey → ObjectKey → Graph → Located
  unfolding known_or_read
  locate input key wanted g = known_or_read input key wanted g (lookup wanted g.products)

  unfoldable pub note_readiness : DataProduct → ObjectKey → Graph → Graph
  note_readiness producer key g =
      if producer_ready w.conditions producer
      then g
      else record g { not_ready = keep_first g.not_ready key }

  -- after the visit of the producer
  unfoldable pub checked : DataProduct → InputPort → DataProduct → Observation → Graph → Round
  unfolding note_readiness
  checked product input producer o g =
      let key = object_key product in
      let wanted = producer_key product input in
      let raised = raise_height key wanted g in
      let reason = input_compatibility w.semver input producer in
      if not (o.reason == "")
      then stop o g
      else if not (reason == "")
      then stop (mismatch input key wanted reason) raised
      else go_on (note_readiness producer wanted raised)

  unfoldable pub followed : Visit → DataProduct → ℕ → InputPort → Located → Option Round
  followed visit' product depth input (absent o g) = some (stop o g)
  followed visit' product depth input (present producer g) = do
    (o, g') ← visit' producer (depth + 1) g
    some (checked product input producer o g')

  -- the body of the loop over the inputs, with the visit of a producer as an argument
  unfoldable pub round : Visit → DataProduct → ℕ → InputPort → Graph → Option Round
  round visit' product depth input g =
      let wanted = producer_key product input in
      if not (wanted.namespace == product.namespace)
      then some (stop cross_namespace g)
      else followed visit' product depth input (locate input (object_key product) wanted g)

  unfoldable pub scan :
      Visit → DataProduct → ℕ → List InputPort → Graph → Option (Observation × Graph)
  scan visit' product depth [] g = some (no_problem, g)
  scan visit' product depth (input ∷ rest) g = do
    r ← round visit' product depth input g
    resume r (λ g'. scan visit' product depth rest g')

  -- the body of `visit` behind its guards
  unfoldable pub entered : Visit → DataProduct → ℕ → Graph → Option (Observation × Graph)
  unfolding leave enter
  entered visit' product depth g = do
    r ← scan visit' product depth product.spec.inputs (enter (object_key product) product g)
    some (leave (object_key product) r)

  unfoldable pub guarded : Visit → DataProduct → ℕ → Graph → Option (Observation × Graph)
  guarded visit' product depth g = elim (entry product depth g) [
    | some o ↦ some (o, g)
    | none ↦ entered visit' product depth g
  ]

  unfoldable pub visit : ℕ → Visit
  visit zero product depth g = none
  visit (suc fuel) product depth g =
      let rest = guarded (visit fuel) product depth (tick g) in
      elim (w.ctx_err g.clock) [ some e ↦ some (timed_out e, tick g) | none ↦ rest ]

-- the graph of `observeComposition`, which knows the product itself
abbrev pub start : DataProduct → Graph
start product = record {
  not_ready = none;
  products = (object_key product, product) ∷ [];
  visiting = λ _. false;
  visited = λ _. false;
  heights = λ _. 0;
  missing = λ _. false;
  edges = 0;
  clock = 0;
}
