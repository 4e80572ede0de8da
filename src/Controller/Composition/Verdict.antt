-- ===== src/Controller/Composition/Verdict.antt =====
-- internal/controller/composition.go, `observeComposition`: what stands behind the condition, and
-- the lineage that is stored.
use data_product_controller.Prelude.{
  lookup, ℕ, suc, ◌+◌, ◌≤◌, ◌≡◌, ◌≢◌, ◌⊎◌, Option, none, some, List, [], ◌∷◌, map, arith, ap, refl,
  Bool-cases, true, inl, inr, ◌∙◌, subst, All, sort_slice, length, leb, ltb, some_inj, eq_iff,
  string_eq, Memᴰ, Bool, is_empty, sort_slice-All, sort_slice-perm, String,
}
use mathlib.Core.List.{Perm}
use data_product_controller.Kube.{ObjectKey, key_eq, Failure, Condition, condition_true}
use data_product_controller.Kube.Laws.{find-remove}
use data_product_controller.Api.{
  InputPort, InputStatus, DataProduct, object_key, condition_composition_ready,
}
use data_product_controller.Controller.World.{World}
use data_product_controller.Controller.Compatibility.{producer_key}
use data_product_controller.Controller.Compatibility.Laws.{Supplies, IsReady}
use data_product_controller.Controller.Graph.{
  Graph, Observation, visit, start, max_composition_edges,
}
use data_product_controller.Controller.Graph.Cases.{>>=-eq-some}
use data_product_controller.Controller.Graph.Verified.{Reaches, walk_acyclic, walk_inputs}
use data_product_controller.Controller.Composition.{
  Lineage, recorded, dropped, fuel, enabled, lineage, input_status, blame, blame_input,
  first_unready, settle, recorded_lineage, sized, prepend, conclude, set_composition_condition,
  with_inputs, by_name, without_condition, gate_off, walked, requires_contract, observe_composition,
  feature_disabled, lineage_limit, max_lineage_bytes,
}
use data_product_controller.Controller.Composition.Statuses.{lineage-recorded, encoded_total}
use data_product_controller.Controller.Composition.Reasons.{
  AllReady, Explained, blame-fine, blame_input-fine, first_unready-none, first_unready-some,
  condition_values, statuses-Explained,
}

prepend-dropped :
    (s : InputStatus) (l : Lineage) (r : Observation) → prepend s l ≡ dropped r → l ≡ dropped r
unfolding prepend
prepend-dropped s (recorded ss) r h = cc
prepend-dropped s (dropped o) r h = h

sized-dropped :
    (bytes : ℕ) (s : InputStatus) (n : Option ℕ) (k : ℕ → Lineage) (r : Observation)
    → ((total : ℕ) → k total ≡ dropped r → r.reason ≢ "")
    → sized bytes s n k ≡ dropped r
    → r.reason ≢ ""
unfolding sized
sized-dropped bytes s none k r rec h e = ground (arith, eq_iff "DependencyUnavailable" "")
sized-dropped bytes s (some n) k r rec h e =
    elim (Bool-cases (ltb max_lineage_bytes (bytes + (n + 1)))) [
      | inl over ↦ limit_case (rw over at h)
      | inr within ↦ rec (bytes + (n + 1)) (prepend-dropped s _ r (rw within at h)) e
    ]
  where
    limit_case : dropped lineage_limit ≡ dropped r → ⊥
    limit_case x = ground (arith, eq_iff "CompositionLimitExceeded" "")

-- a lineage that is dropped has a reason
lineage-dropped :
    (w : World) (p : DataProduct) (g : Graph) (bytes : ℕ) (inputs : List InputPort)
    (r : Observation)
    → lineage w p g bytes inputs ≡ dropped r
    → r.reason ≢ ""
unfolding lineage
lineage-dropped w p g bytes [] r h = cc
lineage-dropped w p g bytes (i ∷ rest) r h =
    sized-dropped bytes (input_status w p g i) _ _ r
      (λ total e. lineage-dropped w p g total rest r e) h

-- the lineage as it is stored
pub record Stored (w : World) (p : DataProduct) (g : Graph) (o : Observation)
    (r : DataProduct × Observation) : Type 0 where
  pub generation : r.0.generation ≡ p.generation
  pub explained : All Explained r.0.status.inputs
  pub fine : r.1.reason ≡ "" → o.reason ≡ ""
  pub complete :
      (r.0.status.inputs ≡ [])
      ⊎ (Perm r.0.status.inputs (map (input_status w p g) p.spec.inputs)
          × (2 + encoded_total w (map (input_status w p g) p.spec.inputs) ≤ max_lineage_bytes))

settle-Stored :
    (w : World) (p : DataProduct) (g : Graph) (o : Observation) (l : Lineage)
    → lineage w p g 2 p.spec.inputs ≡ l
    → Stored w p g o (settle p o l)
unfolding settle
settle-Stored w p g o (dropped r) e = record {
  generation = refl;
  explained = tt;
  fine = λ h. absurd (lineage-dropped w p g 2 p.spec.inputs r e h);
  complete = inl refl;
}
settle-Stored w p g o (recorded ss) e =
    let (same, within) = lineage-recorded w p g 2 p.spec.inputs ss e (omega arith) in
    record {
      generation = refl;
      explained =
          sort_slice-All by_name Explained ss (rw same (statuses-Explained w p g p.spec.inputs));
      fine = λ h. h;
      complete = inr (
        subst (λ x. Perm (sort_slice by_name ss) x) same (sort_slice-perm by_name ss),
        subst (λ x. 2 + encoded_total w x ≤ max_lineage_bytes) same within,
      );
    }

recorded-Stored :
    (w : World) (p : DataProduct) (g : Graph) (o : Observation)
    → p.status.inputs ≡ []
    → Stored w p g o (recorded_lineage w p g o)
unfolding recorded_lineage
recorded-Stored w p g o blank =
    elim (Bool-cases (leb (length p.spec.inputs) max_composition_edges)) [
      | inl few ↦ rw few (settle-Stored w p g o _ refl)
      | inr many ↦ rw many (record {
        generation = refl;
        explained = rw blank tt;
        fine = λ h. h;
        complete = inl blank;
      })
    ]

-- what stands behind a true condition
record Concluded (w : World) (p : DataProduct) (o : Observation) (g : Graph) (p' : DataProduct)
    (c : Condition) : Type 0 where
  current : c.observed_generation ≡ p.generation
  fine : c.status ≡ condition_true → o.reason ≡ ""
  noted : c.status ≡ condition_true → g.not_ready ≡ none
  inputs : c.status ≡ condition_true → AllReady p'.status.inputs

conclude-Concluded :
    (w : World) (p : DataProduct) (o : Observation) (g : Graph) (c : Condition)
    → p.status.inputs ≡ []
    → w.conditions.find (conclude w p (o, g)).0.status.conditions condition_composition_ready
      ≡ some c
    → Concluded w p o g (conclude w p (o, g)).0 c
unfolding conclude set_composition_condition
conclude-Concluded w p o g c blank stored =
    let kept = recorded-Stored w p g (blame g.not_ready o) blank in
    let r = recorded_lineage w p g (blame g.not_ready o) in
    let (current, verdict) =
      condition_values w r.0 (blame_input (first_unready r.0.status.inputs) r.1) c stored in
    let fine = λ (h : c.status ≡ condition_true).
      blame_input-fine (first_unready r.0.status.inputs) r.1 (verdict h)
        (λ s e. first_unready-some r.0.status.inputs s kept.explained e) in
    record {
      current = current ∙ kept.generation;
      fine = λ h. (blame-fine g.not_ready o (kept.fine (fine h).0)).0;
      noted = λ h. (blame-fine g.not_ready o (kept.fine (fine h).0)).1;
      inputs = λ h. first_unready-none r.0.status.inputs (fine h).1;
    }

-- What a true CompositionReady condition proves of a product: the graph that was observed below it.
pub record Composed (w : World) (p p' : DataProduct) (g : Graph) : Type 0 where
  pub acyclic : (m : ObjectKey) (n j : ℕ) → Reaches g (object_key p) m n → ¬ Reaches g m m (suc j)
  pub inputs :
      (m : ObjectKey) (n : ℕ) (q : DataProduct) (i : InputPort)
      → Reaches g (object_key p) m n
      → lookup m g.products ≡ some q
      → Memᴰ i q.spec.inputs
      → (producer : DataProduct) × (lookup (producer_key q i) g.products ≡ some producer)
        × ((producer_key q i).namespace ≡ q.namespace)
        × Supplies w.semver i producer
        × IsReady w.conditions producer
  pub direct : AllReady p'.status.inputs

-- That the composition was observed: the feature was on, and the walk of everything below the
-- product ended in the graph, without a failure, a cycle, a mismatch, an exceeded limit or a
-- producer noted as not ready.
pub record Walked (w : World) (gate : Option Bool) (p : DataProduct) (g : Graph) : Type 0 where
  pub on : enabled gate ≡ true
  pub observation : Observation
  pub ran : visit w fuel p 0 (start p) ≡ some (observation, g)
  pub fine : observation.reason ≡ ""
  pub noted : g.not_ready ≡ none

-- the product, its inputs and those of its producers, as the walk's own graph verifies them
abbrev pub Verified : World → Option Bool → DataProduct → DataProduct → Type 0
Verified w gate p p' = (g : Graph) × Walked w gate p g × Composed w p p' g

walked-Composed :
    (w : World) (gate : Option Bool) (p p' : DataProduct) (err : Option Failure) (c : Condition)
    → enabled gate ≡ true
    → p.status.inputs ≡ []
    → walked w p ≡ some (p', err)
    → w.conditions.find p'.status.conditions condition_composition_ready ≡ some c
    → (c.observed_generation ≡ p.generation) × (c.status ≡ condition_true → Verified w gate p p')
unfolding walked
walked-Composed w gate p p' err c on blank h stored =
    let ((o, g), ran, ended) = >>=-eq-some (visit w fuel p 0 (start p)) _ h in
    let result = ap (λ (x : DataProduct × Option Failure). x.0) (some_inj ended) in
    let k = conclude-Concluded w p o g c blank (
      ap (λ (x : DataProduct). w.conditions.find x.status.conditions condition_composition_ready)
        result
      ∙ stored) in
    (
      k.current,
      λ up. (
        g,
        record { on = on; observation = o; ran = ran; fine = k.fine up; noted = k.noted up },
        record {
          acyclic = walk_acyclic w fuel p o g ran (k.fine up);
          inputs = λ m n q i to at_m member.
              let v = walk_inputs w fuel p o g ran (k.fine up) m n q i to at_m member in
              (v.producer, v.observed, v.same_namespace, v.supplies, v.ready (k.noted up));
          direct = subst (λ (x : DataProduct). AllReady x.status.inputs) result (k.inputs up);
        },
      ),
    )

removed-none :
    (w : World) (p p' : DataProduct) (err : Option Failure) (c : Condition)
    → ◌≡◌ {A = Option (DataProduct × Option Failure)}
        (some (without_condition w p, none))
        (some (p', err))
    → ¬ (w.conditions.find p'.status.conditions condition_composition_ready ≡ some c)
unfolding without_condition
removed-none w p p' err c h stored =
    find-remove w.conditions p.status.conditions condition_composition_ready c (
      ap
        (λ (x : DataProduct × Option Failure).
          w.conditions.find x.0.status.conditions condition_composition_ready)
        (some_inj h)
      ∙ stored)

gate_off-verdict :
    (w : World) (gate : Option Bool) (p p' : DataProduct) (err : Option Failure) (c : Condition)
    → some (gate_off w p) ≡ some (p', err)
    → w.conditions.find p'.status.conditions condition_composition_ready ≡ some c
    → (c.observed_generation ≡ p.generation) × (c.status ≡ condition_true → Verified w gate p p')
unfolding gate_off
gate_off-verdict w gate p p' err c h stored = elim (Bool-cases (requires_contract p.spec.inputs)) [
  | inl needed ↦
      let result : ◌≡◌ {A = DataProduct × Option Failure}
          (set_composition_condition w p feature_disabled, none) (p', err) =
        some_inj (rw needed at h) in
      let (current, verdict) = condition_values w p feature_disabled c (
        ap
          (λ (x : DataProduct × Option Failure).
            w.conditions.find x.0.status.conditions condition_composition_ready)
          result
        ∙ stored) in
      (current, λ up. absurd (disabled (verdict up)))
  | inr unneeded ↦ absurd (removed-none w p p' err c (rw unneeded at h) stored)
]
  where
    disabled : ◌≢◌ {A = String} "CompositionFeatureDisabled" ""
    disabled e = cc

-- If an observation leaves the product with a CompositionReady condition, the condition is for the
-- product's generation. If the condition is true, the feature was on, and the walk of everything
-- below the product ended without a reason and noted no producer as not ready. In the graph that
-- walk returned, no chain of inputs is a cycle, every input on it names an observed producer of
-- its own namespace that supplies the output under the declared contract and is ready, and every
-- direct input recorded in the status is ready.
pub composition_verdict :
    (w : World) (gate : Option Bool) (p p' : DataProduct) (err : Option Failure) (c : Condition)
    → observe_composition w gate p ≡ some (p', err)
    → w.conditions.find p'.status.conditions condition_composition_ready ≡ some c
    → (c.observed_generation ≡ p.generation)
      × (c.status ≡ condition_true → Verified w gate (with_inputs p []) p')
unfolding observe_composition
composition_verdict w gate p p' err c h stored = elim (Bool-cases (is_empty p.spec.inputs)) [
  | inl nothing ↦ absurd (removed-none w (with_inputs p []) p' err c (rw nothing at h) stored)
  | inr inputs ↦ elim (Bool-cases (enabled gate)) [
    | inr off ↦ gate_off-verdict w gate (with_inputs p []) p' err c (rw (inputs, off) at h) stored
    | inl on ↦
        walked-Composed w gate (with_inputs p []) p' err c on refl (rw (inputs, on) at h) stored
  ]
]
