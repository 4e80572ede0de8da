-- ===== src/Lib.antt =====
-- The controller of data products: a model of its reconciliation and of the engine providers that
-- observe a product's source, with what makes a product ready; the contract probe, and the check of
-- JSON escapes.
--
-- A DataProduct declares inputs (outputs of other products), outputs, and optionally a provisioned
-- source, a connector and contract checks. The controller (internal/controller) reads a product,
-- asks one observer for each capability, writes one condition for each, walks the graph of
-- producers, and stores a Ready condition that sums them up.
--
-- Api: api/v1alpha1/dataproduct_types.go, the resource as records.
-- Kube: what is taken from Kubernetes' Go modules: keys, read results, conditions with the laws of
--   their helpers (Kube/Sample has an implementation that meets them).
-- Connector: internal/connector/v1/observer.go. `observe_target` is the method `observe`, `observe`
--   is `Observe`, `observe_contract` is `ObserveContract`, `matches_contract_probe` is
--   `matchesContractProbe`. Laws and Probe are about them.
-- Provisioner: internal/provisioner/v1/observer.go. `observe_provisioned` is `Observe`, split at its
--   reads; `all_noted` is the loop of `crossplaneReady`.
-- Provider: internal/provider/v1. An observation is a chain of checks (`Check`) that goes on or stops
--   with a public reason; `read_or_stop` is `readFailure`. Names has the regular expressions.
-- Provider/Cnpg: cnpg.go; `settled_with` is the loop of `cnpgReady`, `noted_ready` its body.
-- Provider/Hybrid: cnpg_hybrid.go; `has_profile` is `hybridSourceProfile`, `is_publication`
--   `hybridPublication`.
-- Provider/Percona: percona.go; `one_match` is the loop of `perconaApplicationPassword`, `tallied`
--   its body, `is_read_only_user` is `perconaReadOnlyUser`.
-- Provider/Arango: arango.go and arango_checksum.go. Status is `arangoReadiness`, Observe is
--   `Observe` and `arangoOperatorSecret`, Publication is `arangoPublication`, Checksum is
--   `arangoSpecChecksum`. strings.Split and the replacements of package bytes are written out.
-- Provider/Registry: provider.go; `select` is the switch of `Observe`. The reconciler takes it as its
--   source provider (Controller/Reconcile/Sourced).
-- Controller/Version, Controller/Compatibility: `compatibleVersion`, `inputCompatibility` and
--   `producerReady` of internal/controller/composition.go.
-- Controller/Graph: `compositionGraph` and `visit` of the same file. `visit` is split at its loop:
--   `entry` is the guards, `enter` and `leave` are the marks of the stack, `scan` is the loop,
--   `round` its body, `locate` the read of a producer, `checked` what follows its visit.
-- Controller/Composition: `observeComposition` and `setCompositionCondition`: `lineage` is the loop
--   that records the inputs, `conclude` is everything behind the walk.
-- Controller/Contracts: `observeContracts` and `checkContracts` of internal/controller/contracts.go.
-- Controller/Reports: the observations, and the condition that one gives.
-- Controller/Reconcile: `Reconcile`, `observeSource`, `observeConnector`, `updateStatusIfChanged`,
--   `hasOutput` and `setReadiness` of internal/controller/dataproduct_controller.go. `prepare` is
--   the three observers, `blocked` the tests of the run in their order.
-- Controller/Requests: `requestsForDependency` of the same file: `edges` fills the map of consumers,
--   `search` is the breadth-first loop, `offer` the body of its inner loop.
-- ContractProbe: internal/contractprobe/service.go, the separate service behind a contract check.
--   `fetch` and `serve` are functions. ContractProbe/Service is `readiness` and `Gather`: `Move` is one
--   call of one request that others can see, `Reach` any interleaving of them.
-- JsonInput: internal/jsoninput/unicode.go. `scan` is the loop of `ValidUnicodeEscapes`, `round` its body.
-- Controller/World: the surroundings of a run. Prelude: shared names, lists, integers, sorting.
--
-- State is passed explicitly: a Graph through the walk, a DataProduct through the observers. Calls
-- that leave the program (reads, ctx.Err) are functions of a count of the calls before, so the
-- cluster may change between two of them. Go maps are functions with the zero value, or association
-- lists where their size is read. int32 and int64 values are integers without a bound: the program
-- compares them and does no arithmetic on them that could wrap. fmt.Sprintf is kept as a format with
-- its arguments.
--
-- `visit` recurses on fuel. A visit at depth 64 returns before its loop, so 65 levels are enough;
-- `observe_composition` starts with 65, and `none` is never its result.
--
-- `search` starts with two levels of fuel more than there are inputs: each round takes one product
-- from the queue, and a product is added to it once.
--
-- An unstructured object is the nested reads that the code makes of it, each of which is malformed,
-- absent or present. A provider's deadline is no clock: whether the context has ended when the
-- observation returns is an argument. kube-arangodb, the JSON encoder and SHA-256 are parameters.
--
-- Not modelled: the construction of clients (NewEngineReader, MetadataOnlyConfig), and the parts
-- beside the controller: registry, catalog, dataspace export, preflight, HTTP source,
-- configuration, commands, user interface and deployment. The semantic version parser,
-- DeepEqual, the status update and the name validation are libraries and stay parameters.
mod Prelude
pub mod Kube
pub mod Api
pub mod Connector
pub mod Provisioner
pub mod Provider
pub mod Controller
pub mod ContractProbe
pub mod JsonInput
