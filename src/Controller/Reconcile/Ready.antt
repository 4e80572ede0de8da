-- ===== src/Controller/Reconcile/Ready.antt =====
-- internal/controller/dataproduct_controller.go, `Reconcile`: the end of a run, and the inputs that
-- do not block it.
use data_product_controller.Prelude.{
  ℕ, ◌+◌, String, ◌≡◌, ◌≢◌, true, Option, none, some, List, [], ◌∷◌, arith, eq_iff, ◌==◌, string_eq,
  Bool-cases, inl, inr, refl, sym, ◌∙◌, ap, some_inj, All,
}
use data_product_controller.Kube.{
  ObjectKey, Failure, not_found, Fetch, found, failed, Condition, ConditionStatus, Message,
  condition_true, condition_false,
}
use data_product_controller.Kube.Laws.{find-set}
use data_product_controller.Api.{InputPort, DataProduct, DataProductStatus, condition_ready}
use data_product_controller.Controller.Compatibility.{producer_key}
use data_product_controller.Controller.Compatibility.Laws.{IsReady, producer_ready_iff}
use data_product_controller.Controller.Reports.{Report}
use data_product_controller.Controller.Reconcile.{
  Reconciler, Blocked, Outcome, panicked, returned, after_composition, composition_failed,
  concluded, ready, unready, blocked, set_readiness, blocked_inputs, blocked_input, judged_input,
  has_output,
}
use data_product_controller.Controller.Reconcile.Observers.{or_else-none}

-- an input whose producer was read, is of the same namespace, ready, and has the output
pub record IsServed (r : Reconciler) (p : DataProduct) (i : InputPort) : Type 0 where
  pub same_namespace : (producer_key p i).namespace ≡ p.namespace
  pub moment : ℕ
  pub producer : DataProduct
  pub read : r.read moment (producer_key p i) ≡ found producer
  pub ready : IsReady r.world.conditions producer
  pub output : has_output producer i.product_ref.output ≡ true

-- the product that a run leaves
abbrev pub product_of : Outcome → Option DataProduct
product_of panicked = none
product_of (returned o) = o.product

module _ (r : Reconciler) where
  judged_input-none :
      (i : InputPort) (key : ObjectKey) (f : Fetch DataProduct)
      → judged_input r i key f ≡ none
      → (d : DataProduct) × (f ≡ found d)
        × IsReady r.world.conditions d
        × (has_output d i.product_ref.output ≡ true)
  unfolding judged_input
  judged_input-none i key (failed not_found) h = cc
  judged_input-none i key (failed _) h = cc
  judged_input-none i key (found d) h =
      (d, refl, (producer_ready_iff r.world.conditions d).0 (ground arith), ground arith)

  blocked_input-none :
      (p : DataProduct) (n : ℕ) (i : InputPort) → blocked_input r p n i ≡ none → IsServed r p i
  unfolding blocked_input
  blocked_input-none p n i h = elim (Bool-cases ((producer_key p i).namespace == p.namespace)) [
    | inr away ↦ absurd (clash (rw away at h))
    | inl home ↦
        let (d, answer, up, output) =
          judged_input-none i (producer_key p i) (r.read n (producer_key p i)) (rw home at h) in
        record {
          same_namespace = ground (arith, eq_iff (producer_key p i).namespace p.namespace);
          moment = n;
          producer = d;
          read = answer;
          ready = up;
          output = output;
        }
  ]
    where
      clash : {b : Blocked} → ◌≢◌ {A = Option Blocked} (some b) none
      clash x = cc

  pub blocked_inputs-none :
      (p : DataProduct) (n : ℕ) (inputs : List InputPort)
      → blocked_inputs r p n inputs ≡ none
      → All (IsServed r p) inputs
  unfolding blocked_inputs
  blocked_inputs-none p n [] h = tt
  blocked_inputs-none p n (i ∷ rest) h =
      let (first, others) = or_else-none _ (blocked_inputs r p (n + 1) rest) h in
      (blocked_input-none p n i first, blocked_inputs-none p (n + 1) rest others)

  set_readiness-status :
      (p p' : DataProduct) (status : ConditionStatus) (reason : String) (message : Message)
      (c : Condition)
      → ◌≡◌ {A = Option DataProduct} (some (set_readiness r p status reason message)) (some p')
      → r.world.conditions.find p'.status.conditions condition_ready ≡ some c
      → (c.status ≡ status) × (c.observed_generation ≡ p.generation)
  unfolding set_readiness
  set_readiness-status p p' status reason message c same stored =
      let m = find-set r.world.conditions p.status.conditions _ c (
        ap (λ (x : DataProduct). r.world.conditions.find x.status.conditions condition_ready)
          (some_inj same)
        ∙ stored) in
      (m.status, m.observed_generation)

  -- a run that ends with a reason does not leave the product ready
  unready-not :
      (p p' : DataProduct) (previous : DataProductStatus) (b : Blocked) (c : Condition)
      → product_of (unready r p previous b) ≡ some p'
      → r.world.conditions.find p'.status.conditions condition_ready ≡ some c
      → c.status ≢ condition_true
  unfolding unready
  unready-not p p' previous b c same stored up =
      clash
        (sym (set_readiness-status p p' condition_false b.reason b.message c same stored).0 ∙ up)
    where
      clash : ◌≢◌ {A = ConditionStatus} condition_false condition_true
      clash x = cc

  composition_failed-not :
      (p p' : DataProduct) (previous : DataProductStatus) (e : Failure) (d : Option Condition)
      (c : Condition)
      → product_of (composition_failed r p previous e d) ≡ some p'
      → r.world.conditions.find p'.status.conditions condition_ready ≡ some c
      → c.status ≢ condition_true
  unfolding composition_failed
  composition_failed-not p p' previous e none c same stored = absurd (clash same)
    where
      clash : ◌≢◌ {A = Option DataProduct} none (some p')
      clash x = cc
  composition_failed-not p p' previous e (some d) c same stored =
      unready-not p p' previous (record { reason = d.reason; message = d.message; err = some e }) c
        same stored

  -- a run that ends ready
  pub record Concludes (p p' : DataProduct) (source : Report) (c : Condition) : Type 0 where
    pub unblocked : blocked r p source ≡ none
    pub inputs : p'.status.inputs ≡ p.status.inputs
    pub generation : c.observed_generation ≡ p.generation

  concluded-Concludes :
      (p p' : DataProduct) (previous : DataProductStatus) (source : Report) (b : Option Blocked)
      (c : Condition)
      → blocked r p source ≡ b
      → product_of (concluded r p previous b) ≡ some p'
      → r.world.conditions.find p'.status.conditions condition_ready ≡ some c
      → c.status ≡ condition_true
      → Concludes p p' source c
  unfolding concluded ready set_readiness
  concluded-Concludes p p' previous source (some b) c e same stored up =
      absurd (unready-not p p' previous b c same stored up)
  concluded-Concludes p p' previous source none c e same stored up = record {
    unblocked = e;
    inputs = ap (λ (x : DataProduct). x.status.inputs) (sym (some_inj same));
    generation = (set_readiness-status p p' condition_true _ _ c same stored).1;
  }

  pub after_composition-Concludes :
      (p p' : DataProduct) (err : Option Failure) (previous : DataProductStatus) (source : Report)
      (c : Condition)
      → product_of (after_composition r previous source (p, err)) ≡ some p'
      → r.world.conditions.find p'.status.conditions condition_ready ≡ some c
      → c.status ≡ condition_true
      → (err ≡ none) × Concludes p p' source c
  unfolding after_composition
  after_composition-Concludes p p' (some e) previous source c same stored up =
      absurd (composition_failed-not p p' previous e _ c same stored up)
  after_composition-Concludes p p' none previous source c same stored up =
      (refl, concluded-Concludes p p' previous source (blocked r p source) c refl same stored up)
