-- ===== src/Controller/Composition/Keeps.antt =====
-- internal/controller/composition.go, `observeComposition`: what it leaves alone, and its errors.
use data_product_controller.Prelude.{
  String, Bool, [], ◌≡◌, ◌≢◌, Option, none, some, arith, Bool-cases, inl, inr, refl, ◌∙◌, ap,
  some_inj, subst, leb, length, is_empty,
}
use data_product_controller.Kube.{Failure, Condition}
use data_product_controller.Api.{DataProduct, condition_composition_ready}
use data_product_controller.Controller.World.{World}
use data_product_controller.Controller.Graph.{
  Graph, Observation, visit, start, max_composition_edges,
}
use data_product_controller.Controller.Graph.Cases.{>>=-eq-some}
use data_product_controller.Controller.Composition.{
  Lineage, recorded, dropped, fuel, lineage, settle, with_inputs, recorded_lineage, conclude,
  set_composition_condition, without_condition, gate_off, walked, composition_condition,
  requires_contract, enabled, observe_composition, blame, feature_disabled,
}

-- the same product, but for the recorded inputs and the composition condition
pub record Kept (w : World) (p p' : DataProduct) : Type 0 where
  pub name : p'.name ≡ p.name
  pub namespace : p'.namespace ≡ p.namespace
  pub generation : p'.generation ≡ p.generation
  pub deleting : p'.deleting ≡ p.deleting
  pub spec : p'.spec ≡ p.spec
  pub other :
      (kind : String)
      → kind ≢ condition_composition_ready
      → w.conditions.find p'.status.conditions kind ≡ w.conditions.find p.status.conditions kind

Kept-trans : {w : World} {p q r : DataProduct} → Kept w p q → Kept w q r → Kept w p r
Kept-trans h k = record {
  name = k.name ∙ h.name;
  namespace = k.namespace ∙ h.namespace;
  deleting = k.deleting ∙ h.deleting;
  generation = k.generation ∙ h.generation;
  spec = k.spec ∙ h.spec;
  other = λ kind n. k.other kind n ∙ h.other kind n;
}

with_inputs-Kept : (w : World) (p : DataProduct) → Kept w p (with_inputs p [])
unfolding with_inputs
with_inputs-Kept w p = record {
  name = refl;
  namespace = refl;
  deleting = refl;
  generation = refl;
  spec = refl;
  other = λ kind n. refl;
}

set-Kept :
    (w : World) (p : DataProduct) (o : Observation) → Kept w p (set_composition_condition w p o)
unfolding set_composition_condition
set-Kept w p o = record {
  name = refl;
  namespace = refl;
  deleting = refl;
  generation = refl;
  spec = refl;
  other = λ kind n. w.conditions.find-set_ne p.status.conditions _ kind n;
}

without-Kept : (w : World) (p : DataProduct) → Kept w p (without_condition w p)
unfolding without_condition
without-Kept w p = record {
  name = refl;
  namespace = refl;
  deleting = refl;
  generation = refl;
  spec = refl;
  other =
      λ kind n. w.conditions.find-remove_ne p.status.conditions condition_composition_ready kind n;
}

settle-Kept :
    (w : World) (p : DataProduct) (o : Observation) (l : Lineage) → Kept w p (settle p o l).0
unfolding settle
settle-Kept w p o (dropped r) = record {
  name = refl;
  namespace = refl;
  deleting = refl;
  generation = refl;
  spec = refl;
  other = λ kind n. refl;
}
settle-Kept w p o (recorded ss) = record {
  name = refl;
  namespace = refl;
  deleting = refl;
  generation = refl;
  spec = refl;
  other = λ kind n. refl;
}

recorded-Kept :
    (w : World) (p : DataProduct) (g : Graph) (o : Observation)
    → Kept w p (recorded_lineage w p g o).0
unfolding recorded_lineage
recorded-Kept w p g o = elim (Bool-cases (leb (length p.spec.inputs) max_composition_edges)) [
  | inl few ↦ rw few (settle-Kept w p o (lineage w p g 2 p.spec.inputs))
  | inr many ↦ rw many (record {
    name = refl;
    namespace = refl;
    deleting = refl;
    generation = refl;
    spec = refl;
    other = λ kind n. refl;
  })
]

conclude-Kept :
    (w : World) (p : DataProduct) (r : Observation × Graph) → Kept w p (conclude w p r).0
unfolding conclude
conclude-Kept w p (o, g) =
    Kept-trans (recorded-Kept w p g (blame g.not_ready o))
      (set-Kept w (recorded_lineage w p g (blame g.not_ready o)).0 _)

gate_off-Kept : (w : World) (p : DataProduct) → Kept w p (gate_off w p).0
unfolding gate_off
gate_off-Kept w p = elim (Bool-cases (requires_contract p.spec.inputs)) [
  | inl needed ↦ rw needed (set-Kept w p feature_disabled)
  | inr unneeded ↦ rw unneeded (without-Kept w p)
]

-- a result that is known
at_result :
    {w : World} {p : DataProduct} (x y : DataProduct × Option Failure)
    → ◌≡◌ {A = Option (DataProduct × Option Failure)} (some x) (some y)
    → Kept w p x.0
    → Kept w p y.0
at_result {w} {p} x y h k =
    subst (λ (z : DataProduct × Option Failure). Kept w p z.0) (some_inj h) k

walked-Kept :
    (w : World) (p : DataProduct) (r : DataProduct × Option Failure)
    → walked w p ≡ some r
    → Kept w p r.0
unfolding walked
walked-Kept w p r h =
    let (result, ran, ended) = >>=-eq-some (visit w fuel p 0 (start p)) _ h in
    at_result (conclude w p result) r ended (conclude-Kept w p result)

-- An observation of the composition changes neither the product's metadata and spec nor any
-- condition but its own.
pub observe_composition-Kept :
    (w : World) (gate : Option Bool) (p : DataProduct) (r : DataProduct × Option Failure)
    → observe_composition w gate p ≡ some r
    → Kept w p r.0
unfolding observe_composition
observe_composition-Kept w gate p r h = elim (Bool-cases (is_empty p.spec.inputs)) [
  | inl nothing ↦ Kept-trans (with_inputs-Kept w p) (
      at_result (without_condition w (with_inputs p []), none) r (rw nothing at h)
        (without-Kept w (with_inputs p [])))
  | inr inputs ↦ elim (Bool-cases (enabled gate)) [
    | inr off ↦ Kept-trans (with_inputs-Kept w p) (
        at_result (gate_off w (with_inputs p [])) r (rw (inputs, off) at h)
          (gate_off-Kept w (with_inputs p [])))
    | inl on ↦
        Kept-trans (with_inputs-Kept w p)
          (walked-Kept w (with_inputs p []) r (rw (inputs, on) at h))
  ]
]

set-stored :
    (w : World) (p : DataProduct) (o : Observation)
    → (c : Condition) × (w.conditions.find
          (set_composition_condition w p o).status.conditions
          condition_composition_ready
        ≡ some c)
unfolding set_composition_condition
set-stored w p o =
    let (t, e) = w.conditions.find-set_self p.status.conditions (composition_condition p o) in
    (_, e)

gate_off-err : (w : World) (p : DataProduct) → (gate_off w p).1 ≡ none
unfolding gate_off
gate_off-err w p = ground arith

-- no failure where none is reported
unreported :
    {A : Type 0}
    → (x : DataProduct × Option Failure) (p' : DataProduct) (e : Failure) → x.1 ≡ none
    → ◌≡◌ {A = Option (DataProduct × Option Failure)} (some x) (some (p', some e))
    → A
unreported x p' e fine h =
    absurd (clash (ap (λ (r : DataProduct × Option Failure). r.1) (some_inj h)))
  where
    clash : x.1 ≢ some e
    clash k = cc

-- A composition that fails leaves its condition on the product.
pub observe_composition-failed :
    (w : World) (gate : Option Bool) (p p' : DataProduct) (e : Failure)
    → observe_composition w gate p ≡ some (p', some e)
    → (c : Condition) × (w.conditions.find p'.status.conditions condition_composition_ready
        ≡ some c)
unfolding observe_composition walked conclude
observe_composition-failed w gate p p' e h = elim (Bool-cases (is_empty p.spec.inputs)) [
  | inl nothing ↦
      unreported (without_condition w (with_inputs p []), none) p' e refl (rw nothing at h)
  | inr inputs ↦ elim (Bool-cases (enabled gate)) [
    | inr off ↦
        unreported (gate_off w (with_inputs p [])) p' e (gate_off-err w (with_inputs p []))
          (rw (inputs, off) at h)
    | inl on ↦
        let ((o, g), ran, ended) =
          >>=-eq-some (visit w fuel (with_inputs p []) 0 (start (with_inputs p []))) _
            (rw (inputs, on) at h) in
        let (c, stored) =
          set-stored w (recorded_lineage w (with_inputs p []) g (blame g.not_ready o)).0 _ in
        (
          c,
          subst
              (λ (x : DataProduct × Option Failure).
                w.conditions.find x.0.status.conditions condition_composition_ready ≡ some c)
              (some_inj ended) stored,
        )
  ]
]
