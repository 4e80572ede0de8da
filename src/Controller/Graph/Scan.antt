-- ===== src/Controller/Graph/Scan.antt =====
-- The loop over the inputs of a product, if each visit of a producer succeeds as stated here.
use data_product_controller.Prelude.{
  ℕ, ◌+◌, ◌<◌, ◌≡◌, inr, some, arith, true, lookup, refl, ◌∙◌, sym, ap, subst, List, [], ◌∷◌, All,
  some_inj,
}
use data_product_controller.Kube.{key_eq}
use data_product_controller.Api.{InputPort, DataProduct, object_key}
use data_product_controller.Controller.World.{World}
use data_product_controller.Controller.Compatibility.{producer_key}
use data_product_controller.Controller.Graph.{
  Graph, Observation, Visit, scan, max_composition_depth,
}
use data_product_controller.Controller.Graph.Cases.{Passed, scan-cons}
use data_product_controller.Controller.Graph.Sound.{
  Good, IsSound, Grows, Extends, Grows-Extends, Grows-trans, Extends-trans, Good-mono, visited-ne,
}
use data_product_controller.Controller.Graph.Steps.{Extends-refl, Observed, Found-Observed}
use data_product_controller.Controller.Graph.Pass.{
  note_readiness-passed, own_height, passed-Grows, passed-IsSound, passed-Good,
}

-- what a visit that succeeds leaves behind
pub record Done (w : World) (p : DataProduct) (d : ℕ) (g g' : Graph) : Type 0 where
  pub sound : IsSound w g'
  pub extends : Extends g g'
  pub visited : g'.visited (object_key p) ≡ true
  pub shallow : d + g'.heights (object_key p) < max_composition_depth

abbrev pub Succeeds : World → Visit → ℕ → Type 0
Succeeds w v d =
    (q : DataProduct) (g : Graph) (o : Observation) (g' : Graph)
    → v q d g ≡ some (o, g')
    → o.reason ≡ ""
    → IsSound w g
    → lookup (object_key q) g.products ≡ some q
    → Done w q d g g'

-- what the loop leaves behind, while its product stays on the stack
pub record Scanned (w : World) (p : DataProduct) (d : ℕ) (inputs : List InputPort) (g g' : Graph)
    : Type 0 where
  pub sound : IsSound w g'
  pub grows : Grows (object_key p) g g'
  pub good : All (Good w g' p) inputs
  pub shallow : d + g'.heights (object_key p) < max_composition_depth

module _ {w : World} (v : Visit) {d : ℕ} (rec : Succeeds w v (d + 1)) (p : DataProduct) where
  round-Scanned :
      (i : InputPort) (g g' : Graph)
      → Passed w v p d i g g'
      → IsSound w g
      → g.visiting (object_key p) ≡ true
      → d + g.heights (object_key p) < max_composition_depth
      → Scanned w p d (i ∷ []) g g'
  round-Scanned i g g' t s on room =
      let (n, same, first, ready) =
        note_readiness-passed w t.producer (object_key p) (producer_key p i) t.after in
      subst (Scanned w p d (i ∷ []) g) (sym (t.result ∙ same)) (record {
        sound = passed-IsSound (object_key p) (producer_key p i) n done.sound on' seen first;
        grows =
            Grows-trans
              (Grows-Extends (object_key p) on (Extends-trans seen_now.extends done.extends))
              (passed-Grows (object_key p) (producer_key p i) n done.sound on' seen first);
        good = (
          passed-Good (object_key p) (producer_key p i) n done.sound on' seen first p i t.producer
              refl refl t.same_namespace (done.extends.products _ _ seen_now.stored) t.compatible
              ready,
          tt,
        );
        shallow = omega (
          arith,
          own_height (object_key p) (producer_key p i) n done.sound on' seen first,
          deeper,
          kept,
        );
      })
    where
      seen_now : Observed w (producer_key p i) g t.producer t.before
      seen_now = Found-Observed (producer_key p i) t.producer s t.located

      done : Done w t.producer (d + 1) t.before t.after
      done =
          rec t.producer t.before t.observation t.after t.visited t.fine seen_now.sound
            (ap (λ k. lookup k t.before.products) seen_now.key ∙ seen_now.stored)

      seen : t.after.visited (producer_key p i) ≡ true
      seen = ap t.after.visited (sym seen_now.key) ∙ done.visited

      on' : t.after.visiting (object_key p) ≡ true
      on' = done.extends.visiting _ ∙ seen_now.extends.visiting _ ∙ on

      kept : t.after.heights (object_key p) ≡ g.heights (object_key p)
      kept = (Extends-trans seen_now.extends done.extends).heights _ (inr on)

      deeper : d + 1 + t.after.heights (producer_key p i) < max_composition_depth
      deeper = rw (ap t.after.heights seen_now.key) at done.shallow

  pub scan-Scanned :
      (inputs : List InputPort) (g : Graph) (o : Observation) (g' : Graph)
      → scan w v p d inputs g ≡ some (o, g')
      → o.reason ≡ ""
      → IsSound w g
      → g.visiting (object_key p) ≡ true
      → d + g.heights (object_key p) < max_composition_depth
      → Scanned w p d inputs g g'
  unfolding scan
  scan-Scanned [] g o g' h fine s on room =
      subst (Scanned w p d [] g) (ap (λ (x : Observation × Graph). x.1) (some_inj h)) (record {
        sound = s;
        grows = Grows-Extends _ on (Extends-refl g);
        good = tt;
        shallow = room;
      })
  scan-Scanned (i ∷ rest) g o g' h fine s on room =
      let (g1, t, later) = scan-cons w v p d i rest g o g' h fine in
      let first = round-Scanned i g g1 t s on room in
      let others =
        scan-Scanned rest g1 o g' later fine first.sound (first.grows.visiting _ ∙ on)
          first.shallow in
      record {
        sound = others.sound;
        grows = Grows-trans first.grows others.grows;
        good = (
          Good-mono p i others.grows
              (visited-ne _ first.sound (first.grows.visiting _ ∙ on) first.good.0.visited)
              others.grows.raised first.good.0,
          others.good,
        );
        shallow = others.shallow;
      }
