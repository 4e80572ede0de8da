-- ===== src/Controller/Graph/Keeps.antt =====
-- What every step of the walk keeps, it keeps: an induction over a visit that covers every outcome,
-- refusals and failed reads included.
use data_product_controller.Prelude.{
  ℕ, zero, suc, ◌+◌, ◌<◌, ◌≡◌, Option, none, some, List, [], ◌∷◌, arith, refl, Bool-cases,
  Option-cases, ◌==◌, string_eq, lookup, length, some_inj, inl, inr, leb, subst,
}
use data_product_controller.Kube.{ObjectKey, key_eq, found, failed, Failure, Fetch}
use data_product_controller.Api.{InputPort, DataProduct, object_key}
use data_product_controller.Controller.World.{World}
use data_product_controller.Controller.Compatibility.{producer_key, input_compatibility}
use data_product_controller.Controller.Graph.{
  Graph, Observation, Visit, Located, absent, present, Round, stop, go_on, resume, tick, entry,
  entered, enter, leave, mark_missing, fetched, known_or_read, locate, note_readiness, raise_height,
  checked, followed, round, scan, guarded, visit, max_composition_products,
}
use data_product_controller.Controller.Graph.Cases.{>>=-eq-some}

-- the steps
pub record Stable {ℓ} (w : World) (P : Graph → Type ℓ) : Type ℓ where
  pub ticked : (g : Graph) → P g → P (tick g)
  pub stored :
      (g : Graph) (k : ObjectKey) (q : DataProduct)
      → lookup k g.products ≡ none
      → length g.products < max_composition_products
      → w.get g.clock k ≡ found q
      → P g
      → P (record (tick g) { products = (k, q) ∷ g.products })
  pub missed : (g : Graph) (k : ObjectKey) (e : Failure) → P g → P (mark_missing k e g)
  pub raised : (g : Graph) (k j : ObjectKey) → P g → P (raise_height k j g)
  pub noted : (g : Graph) (q : DataProduct) (k : ObjectKey) → P g → P (note_readiness w q k g)
  pub entering :
      (g : Graph) (p : DataProduct) (d : ℕ)
      → entry p d g ≡ none
      → P g
      → P (enter (object_key p) p g)
  pub leaving : (k : ObjectKey) (r : Observation × Graph) → P r.1 → P (leave k r).1

module _ {ℓ} {w : World} {P : Graph → Type ℓ} (st : Stable w P) where
  abbrev LocatedKeeps : Located → Type ℓ
  LocatedKeeps (absent o g) = P g
  LocatedKeeps (present q g) = P g

  abbrev RoundKeeps : Round → Type ℓ
  RoundKeeps (stop o g) = P g
  RoundKeeps (go_on g) = P g

  abbrev Keeps : Visit → Type ℓ
  Keeps v =
      (p : DataProduct) (d : ℕ) (g : Graph) (r : Observation × Graph)
      → v p d g ≡ some r
      → P g
      → P r.1

  fetched-keeps :
      (i : InputPort) (key k : ObjectKey) (g : Graph) (r : Fetch DataProduct)
      → lookup k g.products ≡ none
      → length g.products < max_composition_products
      → w.get g.clock k ≡ r
      → P g
      → LocatedKeeps (fetched w i key k g r)
  unfolding fetched
  fetched-keeps i key k g (failed e) fresh room answer h = st.missed (tick g) k e (st.ticked g h)
  fetched-keeps i key k g (found q) fresh room answer h = st.stored g k q fresh room answer h

  known_or_read-keeps :
      (i : InputPort) (key k : ObjectKey) (g : Graph) (r : Option DataProduct)
      → lookup k g.products ≡ r
      → P g
      → LocatedKeeps (known_or_read w i key k g r)
  unfolding known_or_read
  known_or_read-keeps i key k g (some q) e h = h
  known_or_read-keeps i key k g none e h =
      elim (Bool-cases (leb max_composition_products (length g.products))) [
        | inl full ↦ rw full h
        | inr room ↦ rw room (fetched-keeps i key k g (w.get g.clock k) e (ground arith) refl h)
      ]

  checked-keeps :
      (p : DataProduct) (i : InputPort) (q : DataProduct) (o : Observation) (g : Graph)
      → P g
      → RoundKeeps (checked w p i q o g)
  unfolding checked
  checked-keeps p i q o g h = elim (Bool-cases (o.reason == "")) [
    | inr bad ↦ rw bad h
    | inl fine ↦ elim (Bool-cases (input_compatibility w.semver i q == "")) [
      | inr bad ↦ rw (fine, bad) (st.raised g _ _ h)
      | inl good ↦ rw (fine, good) (st.noted _ q _ (st.raised g _ _ h))
    ]
  ]

  followed-Keeps :
      (v : Visit) (p : DataProduct) (d : ℕ) (i : InputPort) (l : Located) (r : Round)
      → Keeps v
      → LocatedKeeps l
      → followed w v p d i l ≡ some r
      → RoundKeeps r
  unfolding followed
  followed-Keeps v p d i (absent o g) r k h e = subst RoundKeeps (some_inj e) h
  followed-Keeps v p d i (present q g) r k h e =
      let ((o, g'), visited, done) = >>=-eq-some (v q (d + 1) g) _ e in
      subst RoundKeeps (some_inj done) (checked-keeps p i q o g' (k q (d + 1) g (o, g') visited h))

  round-Keeps :
      (v : Visit) (p : DataProduct) (d : ℕ) (i : InputPort) (g : Graph) (r : Round)
      → Keeps v
      → round w v p d i g ≡ some r
      → P g
      → RoundKeeps r
  unfolding round locate
  round-Keeps v p d i g r k e h = elim (Bool-cases ((producer_key p i).namespace == p.namespace)) [
    | inl same ↦
        followed-Keeps v p d i _ r k
          (known_or_read-keeps i (object_key p) (producer_key p i) g _ refl h) (rw same at e)
    | inr other ↦ subst RoundKeeps (some_inj (rw other at e)) h
  ]

  resume-keeps :
      (a : Round) (f : Graph → Option (Observation × Graph)) (r : Observation × Graph)
      → ((g : Graph) → f g ≡ some r → P g → P r.1)
      → resume a f ≡ some r
      → RoundKeeps a
      → P r.1
  resume-keeps (stop o g) f r k e h = subst (λ (x : Observation × Graph). P x.1) (some_inj e) h
  resume-keeps (go_on g) f r k e h = k g e h

  scan-keeps :
      (v : Visit) (p : DataProduct) (d : ℕ) (inputs : List InputPort) (g : Graph)
      (r : Observation × Graph)
      → Keeps v
      → scan w v p d inputs g ≡ some r
      → P g
      → P r.1
  unfolding scan
  scan-keeps v p d [] g r k e h = subst (λ (x : Observation × Graph). P x.1) (some_inj e) h
  scan-keeps v p d (i ∷ rest) g r k e h =
      let (a, ran, later) = >>=-eq-some (round w v p d i g) _ e in
      resume-keeps a _ r (λ g' e' h'. scan-keeps v p d rest g' r k e' h') later
        (round-Keeps v p d i g a k ran h)

  guarded-keeps :
      (v : Visit) (p : DataProduct) (d : ℕ) (g : Graph) (r : Observation × Graph)
      → Keeps v
      → guarded w v p d g ≡ some r
      → P g
      → P r.1
  unfolding guarded entered
  guarded-keeps v p d g r k e h = elim (Option-cases (entry p d g)) [
    | inl free ↦
        let (x, ran, done) =
          >>=-eq-some (scan w v p d p.spec.inputs (enter (object_key p) p g)) _
            (rw (free, guarded) at e) in
        subst (λ (y : Observation × Graph). P y.1) (some_inj done)
          (st.leaving (object_key p) x
            (scan-keeps v p d p.spec.inputs _ x k ran (st.entering g p d free h)))
    | inr (o, refused) ↦
        subst (λ (y : Observation × Graph). P y.1) (some_inj (rw (refused, guarded) at e)) h
  ]

  pub visit-keeps :
      (fuel : ℕ) (p : DataProduct) (d : ℕ) (g : Graph) (r : Observation × Graph)
      → visit w fuel p d g ≡ some r
      → P g
      → P r.1
  unfolding visit
  visit-keeps zero p d g r e h = cc
  visit-keeps (suc fuel) p d g r e h = elim (Option-cases (w.ctx_err g.clock)) [
    | inl live ↦
        guarded-keeps (visit w fuel) p d (tick g) r (visit-keeps fuel) (rw (live, visit) at e)
          (st.ticked g h)
    | inr (x, over) ↦
        subst (λ (y : Observation × Graph). P y.1) (some_inj (rw (over, visit) at e))
          (st.ticked g h)
  ]
