-- ===== src/Provider/Sample.antt =====
-- Sources with concrete fields: nested reads from tables of paths, and readers that hold one source
-- and one Secret.
use data_product_controller.Prelude.{
  String, ℤ, pos, Bool, true, false, ◌&&◌, Option, some, List, [], ◌∷◌, if◌then◌else◌, ◌==◌,
  string_eq,
}
use data_product_controller.Kube.{found}
use data_product_controller.Api.{ProvisionedSource}
use data_product_controller.Provisioner.{Nested, absent, present, Owner, GroupVersion}
use data_product_controller.Provider.{Fields, Node, Resource, Secret, Reader}

abbrev path_beq : List String → List String → Bool
path_beq [] [] = true
path_beq [] (_ ∷ _) = false
path_beq (_ ∷ _) [] = false
path_beq (a ∷ ks) (b ∷ bs) = a == b && path_beq ks bs

-- a nested read of a table of paths
abbrev pub at : {A : Type 0} → List (List String × A) → List String → Nested A
at [] path = absent
at ((key, a) ∷ table) path =
    let later = at table path in if path_beq key path then present a else later

abbrev pub fields_of : List (List String × String) → List (List String × ℤ) → Fields
fields_of texts numbers = record {
  string_at = at texts;
  int_at = at numbers;
  bool_at = λ _. absent;
  strings_at = λ _. absent;
  field_at = λ _. absent;
}

abbrev pub node : List (List String × String) → List (List String × ℤ) → Node
node texts numbers = record { fields = fields_of texts numbers; slice_at = λ _. absent }

-- a condition that is true for generation 3
abbrev pub condition : String → Node
condition kind =
    node ((("type" ∷ []), kind) ∷ (("status" ∷ []), "True") ∷ [])
      ((("observedGeneration" ∷ []), pos 3) ∷ [])

-- a reader of one source and one Secret
abbrev pub reader_of : Resource → Secret → Reader
reader_of r secret = record { get_source = λ _ _. found r; get_secret = λ _. found secret }

abbrev pub parse_version : String → Option GroupVersion
parse_version _ = some (record { group = "postgresql.cnpg.io"; version = "v1" })

abbrev pub owner : String → String → Owner
owner api_version kind = record {
  api_version = api_version;
  kind = kind;
  name = "orders";
  uid = "u1";
}

abbrev pub source : String → String → String → String → String → String → ProvisionedSource
source adapter engine provider api_version kind secret = record {
  adapter = adapter;
  engine = some (record { api_version = "engine-provider/v1"; kind = engine; provider = provider });
  resource_ref = record { api_version = api_version; kind = kind; name = "orders" };
  connection_secret_ref = record { name = secret };
}

-- a settled Cluster of the image with AGE
abbrev pub cluster : String → Resource
cluster image = record {
  name = "orders";
  uid = "u1";
  generation = pos 3;
  deleting = false;
  fields =
      fields_of
        ((("status" ∷ "currentPrimary" ∷ []), "orders-1")
          ∷ (("status" ∷ "targetPrimary" ∷ []), "orders-1")
          ∷ (("spec" ∷ "imageName" ∷ []), image)
          ∷ (("status" ∷ "image" ∷ []), image)
          ∷ [])
        ((("status" ∷ "observedGeneration" ∷ []), pos 3)
          ∷ (("spec" ∷ "instances" ∷ []), pos 2)
          ∷ (("status" ∷ "instances" ∷ []), pos 2)
          ∷ (("status" ∷ "readyInstances" ∷ []), pos 2)
          ∷ []);
  slice_at = at (
      (
        ("status" ∷ "conditions" ∷ []),
        (some (condition "Archiving") ∷ some (condition "Ready") ∷ []),
      )
      ∷ []);
}

-- the generated application Secret, and the source that refers to it
abbrev pub app_secret : Secret
app_secret = record {
  deleting = false;
  owners = owner "postgresql.cnpg.io/v1" "Cluster" ∷ [];
  annotations = λ _. "";
}

abbrev pub sql_source : ProvisionedSource
sql_source = source "cnpg/v1" "sql" "native" "postgresql.cnpg.io/v1" "Cluster" "orders-app"
