-- ===== src/Connector/Laws.antt =====
-- internal/connector/v1/observer.go, `observe`: when a Deployment is reported ready.
use data_product_controller.Prelude.{
  String, ℤ, pos, ◌≤ℤ◌, ◌≡◌, ◌≢◌, ◌↔◌, Bool, true, false, Option, none, some, arith, eq_iff,
  int_beq_iff, refl, sym, ◌∙◌, Bool-cases, inl, inr, string_eq, int_eq, ap, subst, some_inj,
}
use data_product_controller.Kube.{
  ObjectKey, Fetch, found, failed, Failure, not_found, forbidden, unauthorized,
}
use data_product_controller.Api.{Connector}
use data_product_controller.Connector.{
  Workload, Cluster, matches_contract_probe, desired_replicas, is_settled, assess, read_failed,
  after_read, read_with, is_valid_reference, observe_target,
}

-- all replicas are updated, ready and available, and none is unavailable
pub record IsSettled (w : Workload) (desired : ℤ) : Type 0 where
  pub replicas : w.replicas ≡ desired
  pub updated : w.updated_replicas ≡ desired
  pub ready : w.ready_replicas ≡ desired
  pub available : w.available_replicas ≡ desired
  pub unavailable : w.unavailable_replicas ≡ pos 0

pub is_settled_iff :
    (w : Workload) (desired : ℤ) → (is_settled w desired ≡ true) ↔ IsSettled w desired
unfolding is_settled
is_settled_iff w desired = (
  λ h. record {
    replicas = ground (arith, int_beq_iff w.replicas desired);
    updated = ground (arith, int_beq_iff w.updated_replicas desired);
    ready = ground (arith, int_beq_iff w.ready_replicas desired);
    available = ground (arith, int_beq_iff w.available_replicas desired);
    unavailable = ground (arith, int_beq_iff w.unavailable_replicas (pos 0));
  },
  λ s. ground (
    arith,
    (int_beq_iff w.replicas desired).1 s.replicas,
    (int_beq_iff w.updated_replicas desired).1 s.updated,
    (int_beq_iff w.ready_replicas desired).1 s.ready,
    (int_beq_iff w.available_replicas desired).1 s.available,
    (int_beq_iff w.unavailable_replicas (pos 0)).1 s.unavailable,
  ),
)

-- a workload that is observed as ready
pub record IsAvailable (target : String) (w : Workload) : Type 0 where
  pub kept : w.deleting ≡ false
  pub probe : target ≢ "" → matches_contract_probe w target ≡ true
  pub scaled : pos 1 ≤ℤ desired_replicas w
  pub positive : pos 1 ≤ℤ w.generation
  pub current : w.observed_generation ≡ w.generation
  pub settled : IsSettled w (desired_replicas w)

assess_sound :
    (target : String) (w : Workload) → (assess target w).ready ≡ true → IsAvailable target w
unfolding assess
assess_sound target w h = record {
  kept = ground arith;
  probe = λ n. ground (arith, eq_iff target "");
  scaled = ground arith;
  positive = ground arith;
  current = ground (arith, int_beq_iff w.observed_generation w.generation);
  settled = (is_settled_iff w (desired_replicas w)).0 (ground arith);
}

assess_complete :
    (target : String) (w : Workload) → IsAvailable target w → (assess target w).ready ≡ true
unfolding assess
assess_complete target w a = ground (
  arith,
  a.kept,
  a.probe,
  eq_iff target "",
  a.scaled,
  a.positive,
  (int_beq_iff w.observed_generation w.generation).1 a.current,
  (is_settled_iff w (desired_replicas w)).1 a.settled,
)

-- the read that a ready observation rests on
pub record IsObserved (k : Cluster) (namespace : String) (c : Connector) (target : String)
    : Type 0 where
  pub valid : is_valid_reference k namespace c ≡ true
  pub read : ObjectKey → Fetch Workload
  pub reader : k.reader ≡ some read
  pub workload : Workload
  pub answered :
      read (record { namespace = namespace; name = c.resource_ref.name }) ≡ found workload
  pub in_time : k.expired ≡ false
  pub available : IsAvailable target workload

read_failed-unready : (e : Failure) → (read_failed e).ready ≡ false
unfolding read_failed
read_failed-unready not_found = refl
read_failed-unready forbidden = refl
read_failed-unready unauthorized = refl
read_failed-unready _ = refl

after_read_iff :
    (expired : Bool) (target : String) (r : Fetch Workload)
    → ((after_read expired target r).ready ≡ true)
      ↔ ((w : Workload) × (r ≡ found w) × (expired ≡ false) × IsAvailable target w)
unfolding after_read
after_read_iff expired target (failed e) =
    (λ h. absurd (clash (sym h ∙ read_failed-unready e)), λ a. absurd (lost a.0 a.1))
  where
    clash : ◌≢◌ {A = Bool} true false
    clash x = cc

    lost : (w : Workload) → ◌≢◌ {A = Fetch Workload} (failed e) (found w)
    lost w x = cc
after_read_iff true target (found w) = (λ h. absurd (clash h), λ a. absurd (clash (sym a.2)))
  where
    clash : ◌≢◌ {A = Bool} false true
    clash x = cc
after_read_iff false target (found w) = (
  λ h. (w, refl, refl, assess_sound target w h),
  λ a. assess_complete target w (subst (IsAvailable target) (same a.0 a.1) a.3),
)
  where
    same : (v : Workload) → ◌≡◌ {A = Fetch Workload} (found w) (found v) → v ≡ w
    same v x = cc

read_with_iff :
    (k : Cluster) (namespace : String) (c : Connector) (target : String)
    (r : Option (ObjectKey → Fetch Workload))
    → k.reader ≡ r
    → is_valid_reference k namespace c ≡ true
    → ((read_with k namespace c target r).ready ≡ true) ↔ IsObserved k namespace c target
unfolding read_with
read_with_iff k namespace c target none e valid =
    (λ h. ground arith, λ o. absurd (missing o.read o.reader))
  where
    missing : (f : ObjectKey → Fetch Workload) → k.reader ≢ some f
    missing f x = cc
read_with_iff k namespace c target (some read) e valid = (
  λ h.
      let (w, answered, in_time, available) = (after_read_iff k.expired target _).0 h in
      record {
        valid = valid;
        read = read;
        reader = e;
        workload = w;
        answered = answered;
        in_time = in_time;
        available = available;
      },
  λ o.
      (after_read_iff k.expired target _).1
        (o.workload, same o.read o.reader ∙ o.answered, o.in_time, o.available),
)
  where
    key : ObjectKey
    key = record { namespace = namespace; name = c.resource_ref.name }

    same : (f : ObjectKey → Fetch Workload) → k.reader ≡ some f → read key ≡ f key
    same f x = ap (λ (g : ObjectKey → Fetch Workload). g key) (some_inj (sym e ∙ x))

-- A connector is reported ready exactly when its reference is valid, the read of the named
-- Deployment answered in time, and that Deployment is kept, configured for the target, scaled, up
-- to date, and has all its replicas updated, ready and available.
pub observe_target_iff :
    (k : Cluster) (namespace : String) (c : Connector) (target : String)
    → ((observe_target k namespace c target).ready ≡ true) ↔ IsObserved k namespace c target
unfolding observe_target
observe_target_iff k namespace c target = elim (Bool-cases (is_valid_reference k namespace c)) [
  | inl valid ↦ rw valid (read_with_iff k namespace c target k.reader refl valid)
  | inr bad ↦ rw bad (λ h. ground arith, λ o. absurd (clash bad o.valid))
]
  where
    clash : is_valid_reference k namespace c ≡ false → is_valid_reference k namespace c ≡ true → ⊥
    clash x y = cc
