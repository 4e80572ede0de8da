-- ===== src/Provider/Arango.antt =====
-- internal/provider/v1/arango.go and arango_checksum.go: the observation of an ArangoDeployment.
-- kube-arangodb's API types are records of what the code reads of them, where the result of a getter
-- (`GetJWTSecretName`), of `ArangoMemberName` or of json.Marshal is a field; its constants, its
-- condition lookup, the decoding of the resource and the digest are parameters (`ArangoApi`).
pub mod Checksum
pub mod Publication
pub mod Status
pub mod Observe
pub mod Sample
mod Tests
use Prim.Native.String
use data_product_controller.Prelude.{
  ℕ, String, ℤ, pos, Bool, true, false, not, ◌&&◌, ◌||◌, Option, none, some, List, [], ◌∷◌, any,
  is_some, ◌==◌, string_eq, int_eq, ◌++◌,
}
use data_product_controller.Kube.{ObjectKey}
use data_product_controller.Api.{ProvisionedSource, ProvisionedResourceReference}
use data_product_controller.Connector.{Observation}
use data_product_controller.Provisioner.{Owner}
use data_product_controller.Provider.{
  Resource, Secret, Kind, Reader, Check, go, stop, ◌>>=◌, ◌>>◌, require, conclude_checks,
  read_or_stop, reader_or_stop, selects,
}

-- json.Marshal of a PersistentVolumeClaim template and of its metadata
pub record VolumeClaim : Type 0 where
  pub encoded : Option (List ℕ)
  pub encoded_metadata : Option (List ℕ)

-- DeploymentSpec: `passwords` are the users of the bootstrap with their Secrets, `claims` the
-- volume claim templates of arangov1.AllServerGroups
pub record DeploymentSpec : Type 0 where
  pub image : Option String
  pub mode : Option String
  pub single_count : Option ℤ
  pub is_authenticated : Bool
  pub jwt_secret : String
  pub ca_secret : String
  pub metrics_secret : String
  pub license_secret : String
  pub encryption_key_secret : String
  pub restore_encryption_secret : Option String
  pub keyfiles : List String
  pub image_pull_secrets : List String
  pub passwords : List (String × String)
  pub encoded : Option (List ℕ)
  pub claims : List (Option VolumeClaim)

pub record ImageInfo : Type 0 where
  pub image : String
  pub image_id : String
  pub version : String
  pub enterprise : Bool

pub record DeploymentCondition : Type 0 where
  pub kind : String
  pub status : String

pub record Pod : Type 0 where
  pub name : String
  pub uid : String

-- MemberStatus; `name_in` is ArangoMemberName in the group of single servers
pub record Member : Type 0 where
  pub id : String
  pub phase : String
  pub pod : Option Pod
  pub image : Option ImageInfo
  pub image_id : String
  pub version : String
  pub conditions : List DeploymentCondition
  pub name_in : String → String

pub record Deployment : Type 0 where
  pub name : String
  pub spec : DeploymentSpec
  pub accepted : Option DeploymentSpec
  pub accepted_version : Option String
  pub applied_version : String
  pub phase : String
  pub conditions : List DeploymentCondition
  pub current_image : Option ImageInfo
  pub singles : List Member

-- arangoOperatorMetadata, over the times and the entries of managed fields
pub record OperatorMetadata (Time Entry : Type 0) : Type 0 where
  pub name : String
  pub generate_name : String
  pub namespace : String
  pub self_link : String
  pub uid : String
  pub resource_version : String
  pub generation : ℤ
  pub creation_timestamp : Time
  pub deletion_timestamp : Option Time
  pub deletion_grace_period_seconds : Option ℤ
  pub labels : List (String × String)
  pub annotations : List (String × String)
  pub owner_references : List Owner
  pub finalizers : List String
  pub managed_fields : List Entry

-- the decoder and the encoder of the operator's metadata, and the hexadecimal SHA-256
pub record Codec (Time Entry : Type 0) : Type 0 where
  pub decode_metadata : List ℕ → Option (OperatorMetadata Time Entry)
  pub encode_metadata : OperatorMetadata Time Entry → Option (List ℕ)
  pub digest : List ℕ → String

-- arangov1.ConditionType's constants
pub data KnownCondition : Type 0 where
  is_ready spec_accepted up_to_date bootstrap_completed bootstrap_succeeded : KnownCondition
  update_failed upgrade_failed secrets_changed update_in_progress upgrade_in_progress :
      KnownCondition
  pending_update updating restart pending_restart terminating terminated : KnownCondition
  pvc_resize_pending : KnownCondition

pub record ArangoApi : Type 0 where
  pub decode : Resource → Option Deployment
  pub mode_single : String
  pub phase_failed : String
  pub phase_running : String
  pub member_created : String
  pub type_of : KnownCondition → String
  pub is_true : List DeploymentCondition → String → Bool

abbrev pub arango_image : String
arango_image = "arangodb:3.12.12"

abbrev pub arango_digest : String
arango_digest = "sha256:4bc086d5050ca7ea11c6d00a36d8b910c838bb54ad553f8c1b715769d3499bcf"

abbrev pub supported_images : List String
supported_images =
    arango_image
    ∷ String.◌++◌ arango_image (String.◌++◌ "@" arango_digest)
    ∷ String.◌++◌ "arangodb@" arango_digest
    ∷ String.◌++◌ "docker.io/library/" (String.◌++◌ arango_image (String.◌++◌ "@" arango_digest))
    ∷ String.◌++◌ "docker.io/library/arangodb@" arango_digest
    ∷ []

-- arangoSupportedImage
unfoldable pub is_supported_image : String → Bool
is_supported_image image = any (λ supported. image == supported) supported_images
