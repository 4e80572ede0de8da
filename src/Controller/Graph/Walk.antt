-- ===== src/Controller/Graph/Walk.antt =====
-- internal/controller/composition.go, `visit`: the induction over a visit that reports nothing.
use data_product_controller.Prelude.{
  ℕ, zero, suc, ◌+◌, ◌<◌, ◌≡◌, ◌≢◌, inl, inr, Option, some, none, arith, true, false, lookup,
  Bool-cases, Option-cases, refl, lookup_self, String, ◌==◌, update_self, eq_iff, ◌∙◌, sym, ap,
  subst, [], some_inj,
}
use data_product_controller.Kube.{ObjectKey, key_eq, key_beq_iff, Failure}
use data_product_controller.Api.{DataProduct, object_key}
use data_product_controller.Controller.World.{World}
use data_product_controller.Controller.Graph.{
  Graph, Observation, start, timed_out, Visit, tick, entry, entered, enter, scan, guarded, visit,
  max_composition_depth,
}
use data_product_controller.Controller.Graph.Cases.{>>=-eq-some}
use data_product_controller.Controller.Graph.Sound.{IsSound, Extends-trans}
use data_product_controller.Controller.Graph.Steps.{tick-Extends, tick-IsSound}
use data_product_controller.Controller.Graph.Marks.{enter-IsSound, enter-on}
use data_product_controller.Controller.Graph.Leave.{
  left, leave-fine, leave_observation, left-IsSound, left-Extends,
}
use data_product_controller.Controller.Graph.Scan.{Done, Succeeds, scan-Scanned}

-- the guards that a product passes when the walk goes on into it
record Entered (p : DataProduct) (d : ℕ) (g : Graph) : Type 0 where
  unseen : g.visited (object_key p) ≡ false
  off : g.visiting (object_key p) ≡ false
  room : d < max_composition_depth

entry-none : (p : DataProduct) (d : ℕ) (g : Graph) → entry p d g ≡ none → Entered p d g
unfolding entry
entry-none p d g h = record { unseen = ground arith; off = ground arith; room = ground arith }

-- the only empty observation that a guard returns is that of a product visited before
entry-fine :
    (p : DataProduct) (d : ℕ) (g : Graph) (o : Observation)
    → entry p d g ≡ some o
    → o.reason ≡ ""
    → (g.visited (object_key p) ≡ true) × (d + g.heights (object_key p) < max_composition_depth)
unfolding entry
entry-fine p d g o h fine =
    ground (arith, eq_iff "DependencyCycle" "", eq_iff "CompositionLimitExceeded" "")

module _ {w : World} (v : Visit) {d : ℕ} (rec : Succeeds w v (d + 1)) (p : DataProduct) where
  entered-Done :
      (g : Graph) (o : Observation) (g' : Graph)
      → entered w v p d g ≡ some (o, g')
      → o.reason ≡ ""
      → Entered p d g
      → IsSound w g
      → lookup (object_key p) g.products ≡ some p
      → Done w p d g g'
  unfolding entered
  entered-Done g o g' h fine e s stored =
      let (r, scanned, k) = >>=-eq-some (scan w v p d _ (enter (object_key p) p g)) _ h in
      let ended = some_inj k in
      let fine' =
        ap (λ (x : Observation). x.reason)
          (sym (leave_observation (object_key p) r) ∙ ap (λ (x : Observation × Graph). x.0) ended)
        ∙ fine in
      let inside =
        scan-Scanned v rec p p.spec.inputs (enter (object_key p) p g) r.0 r.1 scanned fine'
          (enter-IsSound p s e.unseen e.off) (enter-on p s e.unseen e.off) (at_start g e s) in
      subst (Done w p d g)
        (ap (λ (x : Observation × Graph). x.1)
          (sym (leave-fine (object_key p) r.0 r.1 fine') ∙ ended))
        (record {
          sound =
              left-IsSound (object_key p) inside.sound
                (inside.grows.visiting _ ∙ enter-on p s e.unseen e.off) p refl
                (inside.grows.products _ _ (enter_keeps g stored)) inside.good;
          extends = left-Extends p s e.unseen e.off inside.grows;
          visited = left_visited r.1;
          shallow = inside.shallow;
        })
    where
      at_start :
          (g : Graph)
          → Entered p d g
          → IsSound w g
          → d + (enter (object_key p) p g).heights (object_key p) < max_composition_depth
      at_start g e s = omega (arith, s.blank (object_key p) e.unseen e.off, e.room)

      enter_keeps :
          (g : Graph)
          → lookup (object_key p) g.products ≡ some p
          → lookup (object_key p) (enter (object_key p) p g).products ≡ some p
      enter_keeps g h = h

      left_visited : (g1 : Graph) → (left (object_key p) g1).visited (object_key p) ≡ true
      left_visited g1 = update_self g1.visited (object_key p) true

module _ {w : World} (v : Visit) {d : ℕ} (rec : Succeeds w v (d + 1)) (p : DataProduct) where
  guarded-Done :
      (g : Graph) (o : Observation) (g' : Graph)
      → guarded w v p d (tick g) ≡ some (o, g')
      → o.reason ≡ ""
      → IsSound w g
      → lookup (object_key p) g.products ≡ some p
      → Done w p d g g'
  unfolding guarded
  guarded-Done g o g' h fine s stored = elim (Option-cases (entry p d (tick g))) [
    | inl free ↦
        let inside =
          entered-Done v rec p (tick g) o g' (rw (free, guarded) at h) fine
            (entry-none p d (tick g) free) (tick-IsSound s) stored in
        record {
          sound = inside.sound;
          extends = Extends-trans (tick-Extends g) inside.extends;
          visited = inside.visited;
          shallow = inside.shallow;
        }
    | inr (r, at_once) ↦
        let ended : ◌≡◌ {A = Observation × Graph} (r, tick g) (o, g') =
          some_inj (rw (at_once, guarded) at h) in
        let same = ap (λ (x : Observation × Graph). x.0) ended in
        let (seen, shallow) =
          entry-fine p d (tick g) r at_once (ap (λ (x : Observation). x.reason) same ∙ fine) in
        subst (Done w p d g) (ap (λ (x : Observation × Graph). x.1) ended) (record {
          sound = tick-IsSound s;
          extends = tick-Extends g;
          visited = seen;
          shallow = shallow;
        })
  ]

timed_out-fine :
    (e : Failure) (o : Observation) (g g' : Graph)
    → ◌≡◌ {A = Option (Observation × Graph)} (some (timed_out e, g)) (some (o, g'))
    → o.reason ≢ ""
timed_out-fine e o g g' h fine =
    clash (ap (λ (x : Observation × Graph). x.0.reason) (some_inj h) ∙ fine)
  where
    clash : ◌≢◌ {A = String} "DependencyUnavailable" ""
    clash x = cc

-- A visit with an empty observation, from a sound state that holds its product, ends in a sound
-- state in which the product is visited, the stack and the heights of what was settled are as they
-- were, and no chain of inputs below the product passes the depth limit.
pub visit-Succeeds : (w : World) (fuel d : ℕ) → Succeeds w (visit w fuel) d
unfolding visit
visit-Succeeds w zero d p g o g' h fine s stored = cc
visit-Succeeds w (suc fuel) d p g o g' h fine s stored = elim (Option-cases (w.ctx_err g.clock)) [
  | inl live ↦
      guarded-Done (visit w fuel) (visit-Succeeds w fuel (d + 1)) p g o g' (rw (live, visit) at h)
        fine s stored
  | inr (e, over) ↦ absurd (timed_out-fine e o (tick g) g' (rw (over, visit) at h) fine)
]

start-IsSound : (w : World) (p : DataProduct) → IsSound w (start p)
start-IsSound w p = record {
  nodes = λ k h. cc;
  fresh = λ k h. cc;
  keyed = λ k q h. start-keyed k q h;
  blank = λ k h e. refl;
}
  where
    start-keyed :
        (k : ObjectKey) (q : DataProduct) → lookup k (start p).products ≡ some q → object_key q ≡ k
    start-keyed k q h = elim (Bool-cases (object_key p == k)) [
      | inl same ↦
          let taken : some p ≡ some q = rw same at h in
          ap object_key (sym (some_inj taken)) ∙ (key_beq_iff (object_key p) k).0 same
      | inr other ↦ absurd (nothing (rw other at h))
    ]
      where
        nothing : none ≡ some q → ⊥
        nothing e = cc

-- The walk of a reconciliation.
pub walk-Done :
    (w : World) (fuel : ℕ) (p : DataProduct) (o : Observation) (g' : Graph)
    → visit w fuel p 0 (start p) ≡ some (o, g')
    → o.reason ≡ ""
    → Done w p 0 (start p) g'
walk-Done w fuel p o g' h fine =
    visit-Succeeds w fuel 0 p (start p) o g' h fine (start-IsSound w p)
      (lookup_self (object_key p) p [])
