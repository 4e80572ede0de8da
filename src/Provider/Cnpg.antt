-- ===== src/Provider/Cnpg.antt =====
-- internal/provider/v1/cnpg.go: the observation of a CloudNativePG Cluster and its generated
-- application Secret. schema.ParseGroupVersion is a parameter.
pub mod Ready
pub mod Published
mod Tests
use Prim.Native.String
use data_product_controller.Prelude.{
  String, ℤ, pos, Bool, true, false, not, ◌&&◌, ◌||◌, Option, none, some, List, [], ◌∷◌,
  if◌then◌else◌, any, is_empty, ◌==◌, string_eq, int_eq, leb_ℤ,
}
use data_product_controller.Kube.{ObjectKey}
use data_product_controller.Api.{ProvisionedSource}
use data_product_controller.Connector.{Observation}
use data_product_controller.Provisioner.{
  Nested, malformed, absent, present, Owner, GroupVersion, is_current, string_of, holds,
}
use data_product_controller.Provider.{
  Resource, Node, Secret, Kind, Reader, Check, go, stop, ◌>>=◌, ◌>>◌, require, conclude_checks,
  read_or_stop, reader_or_stop, selects, counts, int_of, is_omitted,
}

abbrev pub cluster_kind : Kind
cluster_kind = record { api_version = "postgresql.cnpg.io/v1"; kind = "Cluster" }

-- one round of the loop over the conditions behind the read of the type: `none` is `return false`
unfoldable pub noted_ready : ℤ → Bool → Node → Option String → Option Bool
noted_ready generation ready c none = none
noted_ready generation ready c (some kind) =
    if not (kind == "Ready")
    then some ready
    else if not (holds (c.fields.string_at ("status" ∷ [])) "True") || ready
    then none
    else if not (is_current generation (c.fields.int_at ("observedGeneration" ∷ [])))
    then none
    else some true

-- the loop over the conditions, with what follows it
unfoldable pub settled_with : ℤ → (Bool → Bool) → Option Bool → List (Option Node) → Bool
unfolding noted_ready
settled_with generation rest none items = false
settled_with generation rest (some ready) [] = rest ready
settled_with generation rest (some ready) (none ∷ items) = false
settled_with generation rest (some ready) (some c ∷ items) =
    settled_with generation rest
      (noted_ready generation ready c (string_of (c.fields.string_at ("type" ∷ [])))) items

-- currentPrimary and targetPrimary
unfoldable pub same_primary : Nested String → Nested String → Bool
same_primary current target = is_same (string_of current) (string_of target)
  where
    is_same : Option String → Option String → Bool
    is_same none _ = false
    is_same (some _) none = false
    is_same (some c) (some t) = not (c == "") && c == t

-- the number of instances
unfoldable pub replicas_settled : Resource → Option ℤ → Bool
replicas_settled r none = false
replicas_settled r (some desired) =
    if leb_ℤ desired (pos 0)
    then false
    else counts (r.fields.int_at ("status" ∷ "instances" ∷ [])) desired
      && counts (r.fields.int_at ("status" ∷ "readyInstances" ∷ [])) desired

-- what follows the loop over the conditions
unfoldable pub facts_settled : Resource → Bool → Bool
unfolding same_primary replicas_settled
facts_settled r ready =
    replicas_settled r (int_of (r.fields.int_at ("spec" ∷ "instances" ∷ [])))
    && (ready
        && same_primary (r.fields.string_at ("status" ∷ "currentPrimary" ∷ []))
            (r.fields.string_at ("status" ∷ "targetPrimary" ∷ [])))

unfoldable pub conditions_settled : Resource → Nested (List (Option Node)) → Bool
unfolding settled_with facts_settled
conditions_settled r malformed = false
conditions_settled r absent = false
conditions_settled r (present items) =
    settled_with r.generation (facts_settled r) (some false) items

-- cnpgReady
unfoldable pub cnpg_ready : Resource → Bool
unfolding conditions_settled
cnpg_ready r =
    is_current r.generation (r.fields.int_at ("status" ∷ "observedGeneration" ∷ []))
    && conditions_settled r (r.slice_at ("status" ∷ "conditions" ∷ []))

-- no bootstrap method has a Secret of its own
unfoldable pub generated_secret : Resource → Bool
generated_secret r =
    is_omitted (r.fields.field_at ("spec" ∷ "bootstrap" ∷ "initdb" ∷ "secret" ∷ []))
    && (is_omitted (r.fields.field_at ("spec" ∷ "bootstrap" ∷ "recovery" ∷ "secret" ∷ []))
        && is_omitted (r.fields.field_at ("spec" ∷ "bootstrap" ∷ "pg_basebackup" ∷ "secret" ∷ [])))

-- one round of the loop over the owners
unfoldable pub is_owner : Resource → Owner → Option GroupVersion → Bool
is_owner r owner none = false
is_owner r owner (some v) =
    v.group == "postgresql.cnpg.io"
    && (not (v.version == "")
        && (owner.kind == "Cluster"
            && (owner.name == r.name && (not (r.uid == "") && owner.uid == r.uid))))

unfoldable pub owned_by : (String → Option GroupVersion) → Resource → List Owner → Bool
unfolding is_owner
owned_by parse r owners = any (λ owner. is_owner r owner (parse owner.api_version)) owners

-- the guard on the source
unfoldable pub is_cnpg_source : String → ProvisionedSource → Bool
is_cnpg_source namespace s =
    not (namespace == "")
    && (not (s.resource_ref.name == "")
        && (s.resource_ref.api_version == "postgresql.cnpg.io/v1"
            && (s.resource_ref.kind == "Cluster"
                && (s.adapter == "cnpg/v1"
                    && (selects s.engine "sql" "native"
                        && s.connection_secret_ref.name
                          == String.◌++◌ s.resource_ref.name "-app")))))

unfoldable pub cnpg_checks :
    (String → Option GroupVersion) → Option Reader → String → ProvisionedSource → Check String
cnpg_checks parse reader namespace s = do
  require (is_cnpg_source namespace s) "SourceInvalid"
      "Use sql/native with cnpg/v1 and a same-namespace Cluster's generated application Secret."
  k ← reader_or_stop reader
  cluster ←
      read_or_stop
        (k.get_source cluster_kind (record { namespace = namespace; name = s.resource_ref.name }))
        "SourceNotFound" "Create the referenced CloudNativePG Cluster in this product's namespace."
  require (not cluster.deleting) "SourceDeleting"
      "The source is being deleted; restore or replace its reference."
  require (generated_secret cluster) "ConnectionPublicationUnsupported"
      "Use the operator-generated application Secret; custom bootstrap credentials require a separate adapter."
  require (cnpg_ready cluster) "SourceNotReady"
      "The Cluster must report Ready=True, all requested instances ready and a settled primary; inspect its status."
  secret ←
      read_or_stop
        (k.get_secret (record { namespace = namespace; name = s.connection_secret_ref.name }))
        "ConnectionNotPublished"
        "Wait for the operator to publish the generated application Secret."
  require (not secret.deleting) "ConnectionNotPublished"
      "The connection Secret is being deleted; wait for its publisher."
  require (owned_by parse cluster secret.owners) "ConnectionOwnerMismatch"
      "The application Secret must belong to the current Cluster; wait for its publisher to reconcile."
  go "The SQL provider is ready and its generated application Secret is published."

-- Observe of CloudNativePG
unfoldable pub observe_cnpg :
    (String → Option GroupVersion) → Option Reader → String → ProvisionedSource → Observation
unfolding cnpg_checks
observe_cnpg parse reader namespace s = conclude_checks (cnpg_checks parse reader namespace s)
