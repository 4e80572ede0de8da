-- ===== src/Provider/Arango/Sample.antt =====
-- A running ArangoDeployment with a published graph, and parameters that fit it.
use data_product_controller.Prelude.{
  ℕ, String, pos, true, false, none, some, List, [], ◌∷◌, any, ◌&&◌, ◌==◌, string_eq, nat_eq,
  if◌then◌else◌, length,
}
use data_product_controller.Api.{ProvisionedSource}
use data_product_controller.Provisioner.{absent}
use data_product_controller.Controller.Version.{codes}
use data_product_controller.Provider.{Secret, Reader, Resource}
use data_product_controller.Provider.Sample.{fields_of, reader_of, owner, source}
use data_product_controller.Provider.Arango.{
  VolumeClaim, DeploymentSpec, ImageInfo, DeploymentCondition, Member, Deployment, OperatorMetadata,
  Codec, ArangoApi, KnownCondition, is_ready, spec_accepted, up_to_date, bootstrap_completed,
  bootstrap_succeeded, update_failed, upgrade_failed, secrets_changed, update_in_progress,
  upgrade_in_progress, pending_update, updating, restart, pending_restart, terminating, terminated,
  pvc_resize_pending, arango_image,
}

abbrev pub type_name : KnownCondition → String
type_name is_ready = "Ready"
type_name spec_accepted = "SpecAccepted"
type_name up_to_date = "UpToDate"
type_name bootstrap_completed = "BootstrapCompleted"
type_name bootstrap_succeeded = "BootstrapSucceded"
type_name update_failed = "UpdateFailed"
type_name upgrade_failed = "UpgradeFailed"
type_name secrets_changed = "SecretsChanged"
type_name update_in_progress = "UpdateInProgress"
type_name upgrade_in_progress = "UpgradeInProgress"
type_name pending_update = "PendingUpdate"
type_name updating = "Updating"
type_name restart = "Restart"
type_name pending_restart = "PendingRestart"
type_name terminating = "Terminating"
type_name terminated = "Terminated"
type_name pvc_resize_pending = "PVCResizePending"

abbrev pub metadata : OperatorMetadata Unit Unit
metadata = record {
  name = "data";
  generate_name = "";
  namespace = "";
  self_link = "";
  uid = "";
  resource_version = "";
  generation = pos 0;
  creation_timestamp = tt;
  deletion_timestamp = none;
  deletion_grace_period_seconds = none;
  labels = [];
  annotations = [];
  owner_references = [];
  finalizers = [];
  managed_fields = [];
}

-- a codec of one metadata, with the number of bytes as the digest
abbrev pub codec : Codec Unit Unit
codec = record {
  decode_metadata = λ _. some metadata;
  encode_metadata = λ _. some (codes "{\"name\":\"data\"}");
  digest = λ bytes. size (length bytes);
}
  where
    size : ℕ → String
    size n = if n == 36 then "thirty-six" else "other"

abbrev pub claim : VolumeClaim
claim = record {
  encoded = some (codes "{\"metadata\":{\"name\":\"data\"}}");
  encoded_metadata = some (codes "{\"name\":\"data\"}");
}

abbrev pub spec : DeploymentSpec
spec = record {
  image = some arango_image;
  mode = some "Single";
  single_count = some (pos 1);
  is_authenticated = true;
  jwt_secret = "orders-jwt";
  ca_secret = "orders-ca";
  metrics_secret = "orders-exporter-jwt-token";
  license_secret = "";
  encryption_key_secret = "";
  restore_encryption_secret = none;
  keyfiles = [];
  image_pull_secrets = [];
  passwords = ("root", "orders-root") ∷ [];
  encoded = some (codes "{\"pvc\":{\"metadata\":{\"name\":\"data\"}}}");
  claims = none ∷ some claim ∷ [];
}

abbrev pub on : String → DeploymentCondition
on kind = record { kind = kind; status = "True" }

abbrev pub image : ImageInfo
image = record {
  image = arango_image;
  image_id = "sha256:1";
  version = "3.12.12";
  enterprise = false;
}

abbrev pub member : Member
member = record {
  id = "SNGL-1";
  phase = "Created";
  pod = some (record { name = "orders-sngl-1"; uid = "p1" });
  image = some image;
  image_id = "sha256:1";
  version = "3.12.12";
  conditions = on "Ready" ∷ [];
  name_in = λ deployment. deployment;
}

abbrev pub conditions : List DeploymentCondition
conditions =
    on "Ready"
    ∷ on "SpecAccepted"
    ∷ on "UpToDate"
    ∷ on "BootstrapCompleted"
    ∷ on "BootstrapSucceded"
    ∷ []

abbrev pub deployment : Deployment
deployment = record {
  name = "orders";
  spec = spec;
  accepted = some spec;
  accepted_version = some "thirty-six";
  applied_version = "thirty-six";
  phase = "Running";
  conditions = conditions;
  current_image = some image;
  singles = member ∷ [];
}

abbrev pub api : ArangoApi
api = record {
  decode = λ _. some deployment;
  mode_single = "Single";
  phase_failed = "Failed";
  phase_running = "Running";
  member_created = "Created";
  type_of = type_name;
  is_true =
      λ items kind. any (λ (c : DeploymentCondition). c.kind == kind && c.status == "True") items;
}

abbrev pub annotated : List (String × String) → String → String
annotated [] field = ""
annotated ((key, text) ∷ rest) field =
    let later = annotated rest field in if key == field then text else later

abbrev pub published : Secret
published = record {
  deleting = false;
  owners = owner "database.arangodb.com/v1" "ArangoDeployment" ∷ [];
  annotations = annotated (
      ("data.devantler.tech/arango-publication", "v1")
      ∷ ("data.devantler.tech/arango-access", "read-only")
      ∷ ("data.devantler.tech/arango-user", "reader")
      ∷ ("data.devantler.tech/arango-database", "orders")
      ∷ ("data.devantler.tech/arango-graph", "sales")
      ∷ ("data.devantler.tech/arango-collections", "orders,items")
      ∷ []);
}

abbrev pub resource : Resource
resource = record {
  name = "orders";
  uid = "u1";
  generation = pos 3;
  deleting = false;
  fields = fields_of [] [];
  slice_at = λ _. absent;
}

abbrev pub graph : ProvisionedSource
graph =
    source "arangodb/v1" "graph" "native" "database.arangodb.com/v1" "ArangoDeployment"
      "orders-reader"

abbrev pub reader : Reader
reader = reader_of resource published
