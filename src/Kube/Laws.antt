-- ===== src/Kube/Laws.antt =====
-- The condition that is stored is the condition that was set, but for its transition time.
use data_product_controller.Prelude.{◌≡◌, none, some, List, some_inj, ap, ◌∙◌, sym, String}
use data_product_controller.Kube.{Condition, ConditionApi}

-- the same condition, but for the time
pub record Matches (c d : Condition) : Type 0 where
  pub status : d.status ≡ c.status
  pub observed_generation : d.observed_generation ≡ c.observed_generation
  pub reason : d.reason ≡ c.reason
  pub message : d.message ≡ c.message

module _ (api : ConditionApi) (cs : List Condition) where
  pub find-set : (c d : Condition) → api.find (api.set cs c) c.kind ≡ some d → Matches c d
  find-set c d h =
      let (t, stored) = api.find-set_self cs c in
      let same = some_inj (sym h ∙ stored) in
      record {
        status = ap (λ (x : Condition). x.status) same;
        observed_generation = ap (λ (x : Condition). x.observed_generation) same;
        reason = ap (λ (x : Condition). x.reason) same;
        message = ap (λ (x : Condition). x.message) same;
      }

  pub find-remove : (k : String) (d : Condition) → ¬ (api.find (api.remove cs k) k ≡ some d)
  find-remove k d h = clash (api.find-remove_self cs k) h
    where
      clash : api.find (api.remove cs k) k ≡ none → api.find (api.remove cs k) k ≡ some d → ⊥
      clash a b = cc
