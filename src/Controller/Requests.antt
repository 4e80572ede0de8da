-- ===== src/Controller/Requests.antt =====
-- internal/controller/dataproduct_controller.go, `requestsForDependency`: which products are
-- reconciled when a product changes. A request is its key. The search is on fuel; the map of
-- consumers is the list of its edges in the order of their insertion.
pub mod Reached
pub mod Exact
pub mod Products
mod Tests
use Prim.Native.String
use data_product_controller.Prelude.{
  ℕ, zero, suc, ◌+◌, String, Bool, true, false, Option, none, some, List, [], ◌∷◌, ◌++◌, map,
  if◌then◌else◌, length, ◌==◌, update, sort_slice, str_lt,
}
use data_product_controller.Kube.{ObjectKey, key_eq, Fetch, found, failed}
use data_product_controller.Api.{InputPort, DataProduct, object_key}
use data_product_controller.Controller.Compatibility.{producer_key}
use data_product_controller.Controller.Composition.{enabled}
use data_product_controller.Controller.Graph.{key_string, ◌>>=◌}

-- an input: its producer and its consumer
pub record Edge : Type 0 where
  pub producer : ObjectKey
  pub consumer : ObjectKey

abbrev pub edge : DataProduct → InputPort → Edge
edge p i = record { producer = producer_key p i; consumer = object_key p }

-- the loops that fill `consumers`
abbrev pub edges : List DataProduct → List Edge
edges [] = []
edges (p ∷ rest) = map (edge p) p.spec.inputs ++ edges rest

-- consumers[key]
abbrev pub consumers_of : ObjectKey → List Edge → List ObjectKey
consumers_of key [] = []
consumers_of key (e ∷ rest) =
    let later = consumers_of key rest in if e.producer == key then e.consumer ∷ later else later

pub record Search : Type 0 where
  pub seen : ObjectKey → Bool
  pub requests : List ObjectKey
  pub queue : List ObjectKey

-- the body of the inner loop
pub offer : Bool → ObjectKey → Search → Search
offer transitive c s = if s.seen c then s else record {
  seen = update s.seen c true;
  requests = s.requests ++ (c ∷ []);
  queue = if transitive then s.queue ++ (c ∷ []) else s.queue;
}

-- the inner loop
pub offers : Bool → List ObjectKey → Search → Search
unfolding offer
offers transitive [] s = s
offers transitive (c ∷ rest) s = offers transitive rest (offer transitive c s)

-- the outer loop
pub search : Bool → List Edge → ℕ → Search → Option (List ObjectKey)
search transitive es zero s = none
search transitive es (suc fuel) s = elim s.queue [
  | [] ↦ some s.requests
  | key ∷ rest ↦
      search transitive es fuel
        (offers transitive (consumers_of key es) (record s { queue = rest }))
]

abbrev pub start_search : ObjectKey → Search
start_search root = record { seen = λ _. false; requests = []; queue = root ∷ [] }

abbrev pub by_string : ObjectKey → ObjectKey → Bool
by_string a b = str_lt (key_string a) (key_string b)

pub requests_among : Bool → ObjectKey → List Edge → Option (List ObjectKey)
unfolding search
requests_among transitive root es = do
  requests ← search transitive es (length es + 2) (start_search root)
  some (sort_slice by_string requests)

-- `requestsForDependency`: the event's object, if it is a DataProduct, and the listed products
pub requests_for_dependency :
    Option Bool → Option DataProduct → Fetch (List DataProduct) → Option (List ObjectKey)
unfolding requests_among
requests_for_dependency gate none listed = some []
requests_for_dependency gate (some producer) (failed e) = some []
requests_for_dependency gate (some producer) (found products) =
    requests_among (enabled gate) (object_key producer) (edges products)
