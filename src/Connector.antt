-- ===== src/Connector.antt =====
-- internal/connector/v1/observer.go: one bounded read of a Deployment, and what makes it ready. The
-- reader, the end of its context and apimachinery's name validation are parameters. int32 counts
-- are integers; a Deployment has the fields that the code reads.
pub mod Laws
pub mod Probe
pub mod Sample
mod Tests
use Prim.Native.String
use Prim.Native.String.{len, slice, count}
use text.Mathlib.Text.{find?}
use data_product_controller.Prelude.{
  ℕ, zero, suc, ◌+◌, ◌-◌, String, ℤ, pos, Bool, true, false, not, ◌&&◌, ◌||◌, Option, none, some,
  List, [], ◌∷◌, if◌then◌else◌, leb, leb_ℤ, is_some, is_empty, ◌==◌, string_eq, int_eq, nat_eq,
}
use data_product_controller.Kube.{
  ObjectKey, Failure, not_found, forbidden, unauthorized, Fetch, found, failed,
}
use data_product_controller.Api.{Connector, ConnectorResourceReference}

pub record Observation : Type 0 where
  pub ready : Bool
  pub reason : String
  pub message : String

-- appsv1.Deployment and what it holds
pub record IntOrString : Type 0 where
  pub int_val : ℤ
  pub str_val : String

pub record HttpGetAction : Type 0 where
  pub path : String
  pub host : String
  pub headers : List (String × String)
  pub scheme : String
  pub port : IntOrString

pub record ReadinessProbe : Type 0 where
  pub http_get : Option HttpGetAction

pub record ContainerPort : Type 0 where
  pub name : String
  pub container_port : ℤ

-- `from_source` is `ValueFrom != nil`
pub record EnvVar : Type 0 where
  pub name : String
  pub value : String
  pub from_source : Bool

pub record Container : Type 0 where
  pub name : String
  pub command : List String
  pub args : List String
  pub readiness_probe : Option ReadinessProbe
  pub ports : List ContainerPort
  pub env : List EnvVar

pub record Workload : Type 0 where
  pub generation : ℤ
  pub deleting : Bool
  pub spec_replicas : Option ℤ
  pub containers : List Container
  pub observed_generation : ℤ
  pub replicas : ℤ
  pub updated_replicas : ℤ
  pub ready_replicas : ℤ
  pub available_replicas : ℤ
  pub unavailable_replicas : ℤ

-- the Deployment observer's surroundings: a nil reader is `none`, and `expired` is what
-- readContext.Err() says after the read
pub record Cluster : Type 0 where
  pub reader : Option (ObjectKey → Fetch Workload)
  pub expired : Bool
  pub is_dns_label : String → Bool
  pub is_dns_subdomain : String → Bool

pub unavailable : String → String → Observation
unavailable reason message = record { ready = false; reason = reason; message = message }

-- `urlCount++` and `flagCount++`
pub another_url : Option (ℕ × ℕ) → Option (ℕ × ℕ)
another_url none = none
another_url (some (u, f)) = some (u + 1, f)

pub another_flag : Option (ℕ × ℕ) → Option (ℕ × ℕ)
another_flag none = none
another_flag (some (u, f)) = some (u, f + 1)

-- the environment of the container: `none` is `return false`, else the two counts
pub count_env : String → List EnvVar → Option (ℕ × ℕ)
unfolding another_url another_flag
count_env target [] = some (0, 0)
count_env target (e ∷ rest) =
    let later = count_env target rest in
    if e.name == "CONTRACT_PROBE_URL"
    then if e.from_source || not (e.value == target) then none else another_url later
    else if e.name == "CONTRACT_READINESS_ENABLED"
    then if e.from_source || not (e.value == "true") then none else another_flag later
    else later

-- the loop over the container's ports
pub named_port : IntOrString → List ContainerPort → Bool
named_port port [] = false
named_port port (c ∷ rest) =
    (c.name == port.str_val && c.container_port == pos 8081 && not (c.name == ""))
    || named_port port rest

pub probe_port : IntOrString → List ContainerPort → Bool
unfolding named_port
probe_port port ports = (port.int_val == pos 8081 && port.str_val == "") || named_port port ports

pub once_each : Option (ℕ × ℕ) → Bool
once_each none = false
once_each (some (urls, flags)) = urls == 1 && flags == 1

unfoldable pub matches_http : String → Container → Option HttpGetAction → Bool
unfolding probe_port once_each count_env
matches_http target c none = false
matches_http target c (some probe) =
    if not (probe.path == "/readyz")
      || (not (probe.host == "")
          || (not (is_empty probe.headers)
              || (not (probe.scheme == "") && not (probe.scheme == "HTTP"))))
    then false
    else probe_port probe.port c.ports && once_each (count_env target c.env)

pub is_probe_command : List String → Bool
is_probe_command (command ∷ []) = command == "/contract-probe"
is_probe_command _ = false

pub matches_probe : String → Container → Option ReadinessProbe → Bool
matches_probe target c none = false
matches_probe target c (some probe) = matches_http target c probe.http_get

unfoldable pub matches_container : String → Container → Bool
unfolding is_probe_command matches_probe
matches_container target c =
    if not (is_probe_command c.command) || not (is_empty c.args)
    then false
    else matches_probe target c c.readiness_probe

-- the loop of `matchesContractProbe`: the first container of the name decides
pub matches_containers : String → List Container → Bool
matches_containers target [] = false
matches_containers target (c ∷ rest) =
    if not (c.name == "contract-probe")
    then matches_containers target rest
    else matches_container target c

unfoldable pub matches_contract_probe : Workload → String → Bool
unfolding matches_containers
matches_contract_probe workload target = matches_containers target workload.containers

abbrev pub desired_replicas : Workload → ℤ
desired_replicas w = elim w.spec_replicas [ none ↦ pos 1 | some n ↦ n ]

pub is_settled : Workload → ℤ → Bool
is_settled w desired =
    w.replicas == desired
    && (w.updated_replicas == desired
        && (w.ready_replicas == desired
            && (w.available_replicas == desired && w.unavailable_replicas == pos 0)))

-- what follows the read
pub assess : String → Workload → Observation
unfolding unavailable is_settled
assess target w =
    if w.deleting
    then unavailable "ConnectorDeleting"
        "The connector Deployment is being deleted; restore or replace the reference."
    else if not (target == "") && not (matches_contract_probe w target)
    then unavailable "ContractProbeConfigurationMismatch"
        "Configure the contract-probe container with this output's literal URL, enable it, and use its /readyz HTTP probe on port 8081."
    else if leb_ℤ (desired_replicas w) (pos 0)
    then unavailable "ConnectorScaledToZero"
        "Scale the connector Deployment to at least one replica."
    else if leb_ℤ w.generation (pos 0) || not (w.observed_generation == w.generation)
    then unavailable "ConnectorStatusStale"
        "Wait for the Deployment controller to observe the current workload generation."
    else if not (is_settled w (desired_replicas w))
    then unavailable "ConnectorNotReady"
        "Wait for all desired connector replicas to be updated, ready, and available; inspect the Deployment and its probes."
    else record {
      ready = true;
      reason = "ConnectorReady";
      message = "All desired connector replicas are current, ready, and available.";
    }

pub read_failed : Failure → Observation
unfolding unavailable
read_failed not_found =
    unavailable "ConnectorNotFound"
      "Create the referenced connector Deployment in this product's namespace."
read_failed forbidden =
    unavailable "ConnectorAccessDenied"
      "Grant the controller get access to this named Deployment in the product namespace."
read_failed unauthorized =
    unavailable "ConnectorAccessDenied"
      "Grant the controller get access to this named Deployment in the product namespace."
read_failed _ =
    unavailable "ConnectorUnavailable"
      "The Deployment could not be observed; check API availability and controller access."

pub after_read : Bool → String → Fetch Workload → Observation
unfolding read_failed assess
after_read expired target (failed e) = read_failed e
after_read expired target (found w) =
    if expired
    then unavailable "ConnectorUnavailable"
        "The Deployment could not be observed; check API availability and controller access."
    else assess target w

pub read_with :
    Cluster → String → Connector → String → Option (ObjectKey → Fetch Workload) → Observation
unfolding after_read
read_with k namespace c target none =
    unavailable "ConnectorUnavailable" "Configure the controller's uncached connector reader."
read_with k namespace c target (some read) =
    after_read k.expired target
      (read (record { namespace = namespace; name = c.resource_ref.name }))

pub is_valid_reference : Cluster → String → Connector → Bool
is_valid_reference k namespace c =
    c.adapter == "deployment/v1"
    && (c.resource_ref.api_version == "apps/v1"
        && (c.resource_ref.kind == "Deployment"
            && (c.resource_ref.namespace == ""
                && (k.is_dns_label namespace && k.is_dns_subdomain c.resource_ref.name))))

-- `observe`, shared by the two methods
pub observe_target : Cluster → String → Connector → String → Observation
unfolding is_valid_reference read_with
observe_target k namespace c target =
    if not (is_valid_reference k namespace c)
    then unavailable "ConnectorInvalid"
        "Use deployment/v1 with an apps/v1 Deployment name; omit namespace to select this product's namespace."
    else read_with k namespace c target k.reader

-- Observe
unfoldable pub observe : Cluster → String → Connector → Observation
observe k namespace c = observe_target k namespace c ""

-- strings.Contains, strings.Replace(s, old, new, 1) and strings.ReplaceAll for a non-empty `old`
contains : String → String → Bool
contains s sub = is_some (find? s sub)

replace_at : String → String → String → Option ℕ → String
replace_at s old new none = s
replace_at s old new (some i) =
    String.◌++◌ (slice s 0 i) (String.◌++◌ new (slice s (i + len old) (len s)))

replace_first : String → String → String → String
unfolding replace_at
replace_first s old new = replace_at s old new (find? s old)

replace_up_to : ℕ → String → String → String → String
replace_up_to zero s old new = s
replace_up_to (suc n) s old new = elim (find? s old) [
  | none ↦ s
  | some i ↦
      String.◌++◌ (slice s 0 i)
        (String.◌++◌ new (replace_up_to n (slice s (i + len old) (len s)) old new))
]

replace_all : String → String → String → String
unfolding replace_up_to
replace_all s old new = replace_up_to (count s) s old new

-- a target that a probe cannot hold literally
pub is_unusable_target : String → Bool
unfolding contains
is_unusable_target target = target == "" || (contains target "$(" || contains target "$$")

-- ObserveContract
unfoldable pub observe_contract :
    Cluster → String → ConnectorResourceReference → String → Observation
unfolding is_unusable_target replace_first replace_all observe_target
observe_contract k namespace ref target =
    if is_unusable_target target
    then unavailable "ContractProbeConfigurationMismatch" "Select an output with a contract URL."
    else let o =
        observe_target k namespace (record { adapter = "deployment/v1"; resource_ref = ref })
          target in
      record {
        ready = o.ready;
        reason = replace_first o.reason "Connector" "ContractProbe";
        message = replace_all o.message "connector" "contract probe";
      }
