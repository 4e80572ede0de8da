-- ===== src/Controller/Graph/Fuel.antt =====
-- internal/controller/composition.go, `visit`: the fuel of the recursion.
use data_product_controller.Prelude.{
  ℕ, zero, suc, ◌+◌, ◌≤◌, ◌<◌, ◌≡◌, inl, inr, Option, none, some, List, [], ◌∷◌, arith, refl,
  Bool-cases, Option-cases, ◌==◌, string_eq,
}
use data_product_controller.Api.{InputPort, DataProduct, object_key}
use data_product_controller.Controller.World.{World}
use data_product_controller.Controller.Compatibility.{producer_key}
use data_product_controller.Controller.Graph.{
  Graph, Observation, Visit, Located, absent, present, scan, guarded, visit, enter, timed_out,
  resume, entry, entered, leave, max_composition_depth, tick, followed, checked, round, Round, stop,
  go_on,
}

resume-Returns :
    (r : Round) (k : Graph → Option (Observation × Graph))
    → ((g : Graph) → (x : Observation × Graph) × (k g ≡ some x))
    → (x : Observation × Graph) × (resume r k ≡ some x)
resume-Returns (stop o g) k h = ((o, g), refl)
resume-Returns (go_on g) k h = h g

module _ (w : World) where
  abbrev Returns : Visit → ℕ → Type 0
  Returns v d = (p : DataProduct) (g : Graph) → (r : Observation × Graph) × (v p d g ≡ some r)

  followed-Returns :
      (v : Visit) (p : DataProduct) (d : ℕ) (i : InputPort) (l : Located)
      → Returns v (d + 1)
      → (r : Round) × (followed w v p d i l ≡ some r)
  unfolding followed
  followed-Returns v p d i (absent o g) t = (_, refl)
  followed-Returns v p d i (present q g) t =
      let ((o, g'), e) = t q g in (checked w p i q o g', rw e)

  round-Returns :
      (v : Visit) (p : DataProduct) (d : ℕ) (i : InputPort) (g : Graph)
      → Returns v (d + 1)
      → (r : Round) × (round w v p d i g ≡ some r)
  unfolding round
  round-Returns v p d i g t = elim (Bool-cases ((producer_key p i).namespace == p.namespace)) [
    | inl same ↦ rw same (followed-Returns v p d i _ t)
    | inr other ↦ rw other (_, refl)
  ]

  scan-Returns :
      (v : Visit) (p : DataProduct) (d : ℕ) (inputs : List InputPort) (g : Graph)
      → Returns v (d + 1)
      → (r : Observation × Graph) × (scan w v p d inputs g ≡ some r)
  unfolding scan
  scan-Returns v p d [] g t = (_, refl)
  scan-Returns v p d (i ∷ rest) g t =
      let (r, e) = round-Returns v p d i g t in
      let (x, e') = resume-Returns r _ (λ g'. scan-Returns v p d rest g' t) in (x, rw e e')

  -- what the guards leave
  entry-none :
      (p : DataProduct) (d : ℕ) (g : Graph) → entry p d g ≡ none → d < max_composition_depth
  unfolding entry
  entry-none p d g h = ground arith

  visit_step-Returns :
      (v : Visit) (p : DataProduct) (d : ℕ) (g : Graph)
      → (d < max_composition_depth → Returns v (d + 1))
      → (r : Observation × Graph) × (guarded w v p d g ≡ some r)
  unfolding guarded entered
  visit_step-Returns v p d g t = elim (Option-cases (entry p d g)) [
    | inl open_to ↦
        let (r, e) =
          scan-Returns v p d p.spec.inputs (enter (object_key p) p g)
            (t (entry-none p d g open_to)) in
        (leave (object_key p) r, rw (open_to, guarded) (rw e))
    | inr (o, refused) ↦ ((o, g), rw (refused, guarded))
  ]

  -- With 65 levels of fuel above its depth a visit returns, whatever the cluster answers.
  pub visit_returns :
      (fuel : ℕ) (p : DataProduct) (d : ℕ) (g : Graph)
      → 65 ≤ fuel + d
      → 0 < fuel
      → (r : Observation × Graph) × (visit w fuel p d g ≡ some r)
  unfolding visit
  visit_returns zero p d g h k = absurd (omega arith)
  visit_returns (suc fuel) p d g h k = elim (Option-cases (w.ctx_err g.clock)) [
    | inl live ↦
        let (r, e) =
          visit_step-Returns (visit w fuel) p d (tick g)
            (λ small q g'. visit_returns fuel q (d + 1) g' (omega arith) (omega arith)) in
        (r, rw (live, visit) e)
    | inr (e, over) ↦ ((timed_out e, tick g), rw (over, visit))
  ]
