-- ===== src/Api.antt =====
-- api/v1alpha1/dataproduct_types.go: the DataProduct resource, with the fields of its metadata that
-- the program reads. The string types of the API (`OutputProtocol`, `UICapability`, ...) are texts,
-- a pointer is an `Option`, and int64 generations are integers.
use data_product_controller.Prelude.{String, ℤ, Bool, Option, List}
use data_product_controller.Kube.{ObjectKey, Condition}

abbrev pub condition_ready : String
condition_ready = "Ready"

abbrev pub condition_connector_ready : String
condition_connector_ready = "ConnectorReady"

abbrev pub condition_contracts_ready : String
condition_contracts_ready = "ContractsReady"

abbrev pub condition_composition_ready : String
condition_composition_ready = "CompositionReady"

abbrev pub condition_source_ready : String
condition_source_ready = "SourceReady"

pub record ProductOwner : Type 0 where
  pub name : String
  pub url : String

pub record ProductReference : Type 0 where
  pub name : String
  pub namespace : String
  pub output : String

pub record InputContract : Type 0 where
  pub minimum_version : String
  pub protocol : String

pub record InputPort : Type 0 where
  pub name : String
  pub product_ref : ProductReference
  pub contract : Option InputContract

pub record OutputPort : Type 0 where
  pub name : String
  pub protocol : String
  pub url : String
  pub contract_url : String
  pub media_type : String

pub record UiContract : Type 0 where
  pub api_version : String
  pub host_origins : List String
  pub capabilities : List String

pub record ProductUi : Type 0 where
  pub url : String
  pub title : String
  pub contract : Option UiContract

pub record ProvisionedResourceReference : Type 0 where
  pub api_version : String
  pub kind : String
  pub name : String

pub record ConnectionSecretReference : Type 0 where
  pub name : String

pub record EngineSelection : Type 0 where
  pub api_version : String
  pub kind : String  -- `Type`
  pub provider : String

pub record ProvisionedSource : Type 0 where
  pub adapter : String
  pub engine : Option EngineSelection
  pub resource_ref : ProvisionedResourceReference
  pub connection_secret_ref : ConnectionSecretReference

pub record ConnectorResourceReference : Type 0 where
  pub api_version : String
  pub kind : String
  pub name : String
  pub namespace : String

pub record Connector : Type 0 where
  pub adapter : String
  pub resource_ref : ConnectorResourceReference

pub record ContractCheck : Type 0 where
  pub output : String
  pub resource_ref : ConnectorResourceReference

pub record DataProductSpec : Type 0 where
  pub id : String
  pub name : String
  pub description : String
  pub version : String
  pub owner : ProductOwner
  pub documentation_url : String
  pub inputs : List InputPort
  pub outputs : List OutputPort
  pub ui : Option ProductUi
  pub source : Option ProvisionedSource
  pub connector : Option Connector
  pub contract_checks : List ContractCheck

pub record InputStatus : Type 0 where
  pub name : String
  pub product_ref : ProductReference
  pub product_id : String
  pub observed_generation : ℤ
  pub version : String
  pub owner : Option ProductOwner
  pub output : Option OutputPort
  pub ready : Bool
  pub reason : String

pub record DataProductStatus : Type 0 where
  pub observed_generation : ℤ
  pub conditions : List Condition
  pub inputs : List InputStatus

-- `deleting` is `!DeletionTimestamp.IsZero()`
pub record DataProduct : Type 0 where
  pub namespace : String
  pub name : String
  pub generation : ℤ
  pub deleting : Bool
  pub spec : DataProductSpec
  pub status : DataProductStatus

-- client.ObjectKeyFromObject
abbrev pub object_key : DataProduct → ObjectKey
object_key p = record { namespace = p.namespace; name = p.name }
