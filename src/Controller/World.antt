-- ===== src/Controller/World.antt =====
-- What a reconciliation meets outside the repository's code: the cluster, the clock and the
-- libraries. A moment counts the calls made so far, so that two reads may answer differently.
use data_product_controller.Prelude.{ℕ, ◌≡◌, Option}
use data_product_controller.Kube.{ObjectKey, Failure, Fetch, found, ConditionApi}
use data_product_controller.Api.{InputStatus, DataProduct, object_key}
use data_product_controller.Controller.Version.{Semver}

pub record World : Type 1 where
  pub semver : Semver
  pub conditions : ConditionApi
  -- ctx.Err() at a moment
  pub ctx_err : ℕ → Option Failure
  -- client.Reader.Get at a moment, and that it answers with the object that was asked for
  pub get : ℕ → ObjectKey → Fetch DataProduct
  pub get_key : (n : ℕ) (k : ObjectKey) (p : DataProduct) → get n k ≡ found p → object_key p ≡ k
  -- the length of the JSON encoding, `none` on an error
  pub encoded_length : InputStatus → Option ℕ
