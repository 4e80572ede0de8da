-- ===== src/Controller/Composition/Reasons.antt =====
-- The reasons behind the CompositionReady condition: when each stage reports none.
use data_product_controller.Prelude.{
  ◌≡◌, ◌≢◌, ◌⊎◌, String, lookup, Option, none, some, List, [], ◌∷◌, map, arith, ap, refl,
  Bool-cases, true, false, inl, inr, ◌∙◌, All, sym, eq_iff, ◌==◌, string_eq, Bool, is_empty,
}
use data_product_controller.Kube.{ObjectKey, key_eq, Failure, Condition, condition_true}
use data_product_controller.Kube.Laws.{find-set}
use data_product_controller.Api.{InputPort, InputStatus, DataProduct, condition_composition_ready}
use data_product_controller.Controller.World.{World}
use data_product_controller.Controller.Compatibility.{producer_key}
use data_product_controller.Controller.Graph.{Graph, Observation, start}
use data_product_controller.Controller.Graph.Fuel.{visit_returns}
use data_product_controller.Controller.Composition.{
  fuel, enabled, input_status, blame, blame_input, first_unready, conclude,
  set_composition_condition, with_inputs, walked, composition_condition, observed_status,
  known_status, producer_reason, observe_composition,
}

pub walked_returns :
    (w : World) (p : DataProduct) → (r : DataProduct × Option Failure) × (walked w p ≡ some r)
unfolding walked
walked_returns w p =
    let (r, e) = visit_returns w fuel p 0 (start p) (omega arith) (omega arith) in
    (conclude w p r, rw e)

-- The observation of composition always returns: the fuel is enough.
pub observe_composition_returns :
    (w : World) (gate : Option Bool) (p : DataProduct)
    → (r : DataProduct × Option Failure) × (observe_composition w gate p ≡ some r)
unfolding observe_composition
observe_composition_returns w gate p = elim (Bool-cases (is_empty p.spec.inputs)) [
  | inl nothing ↦ rw nothing (_, refl)
  | inr inputs ↦ elim (Bool-cases (enabled gate)) [
    | inr off ↦ rw (inputs, off) (_, refl)
    | inl on ↦ rw (inputs, on) (walked_returns w (with_inputs p []))
  ]
]

pub blame-fine :
    (n : Option ObjectKey) (o : Observation)
    → (blame n o).reason ≡ ""
    → (o.reason ≡ "") × (n ≡ none)
unfolding blame
blame-fine none o h = (h, refl)
blame-fine (some k) o h = ground (arith, eq_iff o.reason "", eq_iff "DependencyNotReady" "")

abbrev pub AllReady : List InputStatus → Type 0
AllReady ss = All (λ (s : InputStatus). s.ready ≡ true) ss

pub first_unready-none : (ss : List InputStatus) → first_unready ss ≡ none → AllReady ss
unfolding first_unready
first_unready-none [] h = tt
first_unready-none (s ∷ ss) h = ground (arith, first_unready-none ss)

-- an input that is not ready says why
abbrev pub Explained : InputStatus → Type 0
Explained s = s.ready ≡ false → s.reason ≢ ""

pub first_unready-some :
    (ss : List InputStatus) (s : InputStatus)
    → All Explained ss
    → first_unready ss ≡ some s
    → s.reason ≢ ""
unfolding first_unready
first_unready-some [] s h e = cc
first_unready-some (t ∷ ss) s (x, h) e = elim (Bool-cases t.ready) [
  | inl up ↦ first_unready-some ss s h (rw up at e)
  | inr down ↦
      let same : t ≡ s = ground arith in λ r. x down (ap (λ (y : InputStatus). y.reason) same ∙ r)
]

pub blame_input-fine :
    (r : Option InputStatus) (o : Observation)
    → (blame_input r o).reason ≡ ""
    → ((s : InputStatus) → r ≡ some s → s.reason ≢ "")
    → (o.reason ≡ "") × (r ≡ none)
unfolding blame_input
blame_input-fine none o h x = (h, refl)
blame_input-fine (some s) o h x = absurd (elim (Bool-cases (o.reason == "")) [
  | inl fine ↦ x s refl (rw fine at h)
  | inr bad ↦ differ bad (rw bad at h)
])
  where
    differ : (o.reason == "") ≡ false → o.reason ≡ "" → ⊥
    differ bad e = clash bad ((eq_iff o.reason "").1 e)
      where
        clash : (o.reason == "") ≡ false → (o.reason == "") ≡ true → ⊥
        clash x y = cc

observed_status-Explained :
    (w : World) (p : DataProduct) (i : InputPort) (q : DataProduct)
    → Explained (observed_status w p i q)
unfolding observed_status
observed_status-Explained w p i q down why = split (Bool-cases (producer_reason w i q == ""))
  where
    split : ((producer_reason w i q == "") ≡ true) ⊎ ((producer_reason w i q == "") ≡ false) → ⊥
    split (inl fine) = clash (rw fine at down)
      where
        clash : true ≡ false → ⊥
        clash x = cc
    split (inr bad) = other bad ((eq_iff (producer_reason w i q) "").1 (rw bad at why))
      where
        other : (producer_reason w i q == "") ≡ false → (producer_reason w i q == "") ≡ true → ⊥
        other x y = cc

known_status-Explained :
    (w : World) (p : DataProduct) (i : InputPort) (g : Graph) (r : Option DataProduct)
    → Explained (known_status w p i g r)
unfolding known_status
known_status-Explained w p i g (some q) = observed_status-Explained w p i q
known_status-Explained w p i g none =
    ground (arith, eq_iff "DependencyNotFound" "", eq_iff "DependencyUnobserved" "")

input_status-Explained :
    (w : World) (p : DataProduct) (g : Graph) (i : InputPort) → Explained (input_status w p g i)
unfolding input_status
input_status-Explained w p g i down why =
    split (Bool-cases ((producer_key p i).namespace == p.namespace))
  where
    key : ObjectKey
    key = producer_key p i

    split : ((key.namespace == p.namespace) ≡ true) ⊎ ((key.namespace == p.namespace) ≡ false) → ⊥
    split (inl same) =
        known_status-Explained w p i g (lookup key g.products) (rw same at down) (rw same at why)
    split (inr other) = clash (rw other at why)
      where
        clash : ◌≢◌ {A = String} "CrossNamespaceDependencyDenied" ""
        clash x = cc

pub statuses-Explained :
    (w : World) (p : DataProduct) (g : Graph) (inputs : List InputPort)
    → All Explained (map (input_status w p g) inputs)
statuses-Explained w p g [] = tt
statuses-Explained w p g (i ∷ rest) =
    (input_status-Explained w p g i, statuses-Explained w p g rest)

pub condition_values :
    (w : World) (p : DataProduct) (o : Observation) (c : Condition)
    → w.conditions.find
        (set_composition_condition w p o).status.conditions
        condition_composition_ready
      ≡ some c
    → (c.observed_generation ≡ p.generation) × (c.status ≡ condition_true → o.reason ≡ "")
unfolding set_composition_condition
condition_values w p o c stored =
    let same = find-set w.conditions p.status.conditions (composition_condition p o) c stored in
    (same.observed_generation, λ h. ground (arith, eq_iff o.reason "", sym same.status ∙ h))
