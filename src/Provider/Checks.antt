-- ===== src/Provider/Checks.antt =====
-- internal/provider/v1: a chain of checks that goes on to its end has passed each of them.
use data_product_controller.Prelude.{
  String, ◌≡◌, Bool, true, false, Option, none, some, refl, sym, subst, not, ◌||◌, ◌&&◌, ◌==◌,
  string_eq, arith, eq_iff, ap, some_inj, ◌≢◌, any, List, [], ◌∷◌, Memᴰ, map, inl, inr, Bool-cases,
}
use mathlib.Core.List.Memᴰ
use data_product_controller.Kube.{Fetch, found, failed, not_found, forbidden, unauthorized}
use data_product_controller.Api.{EngineSelection}
use data_product_controller.Provisioner.{Nested, malformed, absent, present, holds, string_of}
use data_product_controller.Provider.{is_omitted}
use data_product_controller.Provider.Hybrid.{refers}
use data_product_controller.Provider.{
  Check, go, stop, ◌>>=◌, require, conclude_checks, read_or_stop, reader_or_stop, Reader, selects,
}

pub >>=-eq-go {ℓ κ} :
    {A : Type ℓ} {B : Type κ} (m : Check A) (f : A → Check B) {b : B}
    → (m >>= f) ≡ go b
    → (a : A) × (m ≡ go a) × (f a ≡ go b)
>>=-eq-go (go a) f h = (a, refl, h)
>>=-eq-go (stop r m) f h = cc

-- a test in front of the rest of a chain
pub require-eq-go {κ} :
    {B : Type κ} (t : Bool) (reason message : String) (k : Check B) {b : B}
    → (require t reason message >>= λ _. k) ≡ go b
    → (t ≡ true) × (k ≡ go b)
unfolding require
require-eq-go true reason message k h = (refl, h)
require-eq-go false reason message k h = cc

pub read_or_stop-eq-go {ℓ} :
    {A : Type ℓ} (f : Fetch A) (reason message : String) {a : A}
    → read_or_stop f reason message ≡ go a
    → f ≡ found a
unfolding read_or_stop
read_or_stop-eq-go (found a) reason message h = cc
read_or_stop-eq-go (failed not_found) reason message h = cc
read_or_stop-eq-go (failed forbidden) reason message h = cc
read_or_stop-eq-go (failed unauthorized) reason message h = cc
read_or_stop-eq-go (failed _) reason message h = cc

pub reader_or_stop-eq-go : (r : Option Reader) {a : Reader} → reader_or_stop r ≡ go a → r ≡ some a
unfolding reader_or_stop
reader_or_stop-eq-go (some r) h = cc
reader_or_stop-eq-go none h = cc

-- a ready observation ends a chain that went on
pub conclude_checks-ready :
    (m : Check String) → (conclude_checks m).ready ≡ true → (s : String) × (m ≡ go s)
unfolding conclude_checks
conclude_checks-ready (go s) h = (s, refl)
conclude_checks-ready (stop r m) h = cc

-- the selected engine
pub record IsSelected (e : Option EngineSelection) (kind provider : String) : Type 0 where
  pub engine : EngineSelection
  pub declared : e ≡ some engine
  pub version : engine.api_version ≡ "engine-provider/v1"
  pub kind_is : engine.kind ≡ kind
  pub provider_is : engine.provider ≡ provider

pub selects-IsSelected :
    (e : Option EngineSelection) (kind provider : String)
    → selects e kind provider ≡ true
    → IsSelected e kind provider
unfolding selects
selects-IsSelected none kind provider h = cc
selects-IsSelected (some e) kind provider h = record {
  engine = e;
  declared = refl;
  version = ground (arith, eq_iff e.api_version "engine-provider/v1");
  kind_is = ground (arith, eq_iff e.kind kind);
  provider_is = ground (arith, eq_iff e.provider provider);
}

-- a text that has the wanted value
pub holds-string_of : (n : Nested String) (s : String) → holds n s ≡ true → string_of n ≡ some s
unfolding holds string_of
holds-string_of malformed s h = cc
holds-string_of absent s h = ap some ((eq_iff "" s).0 h)
holds-string_of (present x) s h = ap some ((eq_iff x s).0 h)

-- a text that has no value
pub holds-string_of_ne : (n : Nested String) (s : String) → holds n s ≡ false → string_of n ≢ some s
unfolding holds string_of
holds-string_of_ne malformed s h e = cc
holds-string_of_ne absent s h e = ground (arith, eq_iff "" s, some_inj e)
holds-string_of_ne (present x) s h e = ground (arith, eq_iff x s, some_inj e)

-- what has to be left out
pub is_omitted-absent : {A : Type 0} (n : Nested A) → is_omitted n ≡ true → n ≡ absent
unfolding is_omitted
is_omitted-absent malformed h = cc
is_omitted-absent absent h = refl
is_omitted-absent (present a) h = cc

-- where no element passes a test, none of them does
pub any-false {ℓ} :
    {A : Type ℓ} (p : A → Bool) (xs : List A) {x : A} → any p xs ≡ false → Memᴰ x xs → p x ≡ false
any-false p [] h m = absurd (Memᴰ.not-nil m)
any-false p (y ∷ ys) {x} h m = elim (Memᴰ.cases_cons m) [
  | inl e ↦ subst (λ z. p z ≡ false) (sym e) (ground arith)
  | inr later ↦ any-false p ys (ground arith) later
]

-- where some element passes a test, it can be named
pub any-true {ℓ} :
    {A : Type ℓ} (p : A → Bool) (xs : List A) → any p xs ≡ true → (x : A) × Memᴰ x xs × (p x ≡ true)
any-true p [] h = cc
any-true p (y ∷ ys) h = elim (Bool-cases (p y)) [
  | inl e ↦ (y, Memᴰ.head refl, e)
  | inr e ↦ let (x, m, q) = any-true p ys (rw e at h) in (x, Memᴰ.tail m, q)
]

pub not-true : (b : Bool) → not b ≡ true → b ≡ false
not-true b h = ground arith

pub or-false : (a b : Bool) → (a || b) ≡ false → (a ≡ false) × (b ≡ false)
or-false true b h = cc
or-false false b h = (refl, h)

-- a reference that is neither malformed nor the Secret's name
pub refers-false :
    (secret : String) (n : Nested String)
    → refers secret n ≡ false
    → (n ≢ malformed) × (string_of n ≢ some secret)
unfolding refers string_of
refers-false secret malformed h = cc
refers-false secret absent h = ((λ e. cc), λ e. ground (arith, eq_iff "" secret, some_inj e))
refers-false secret (present name) h =
    ((λ e. cc), λ e. ground (arith, eq_iff name secret, some_inj e))

pub map-Memᴰ {ℓ κ} :
    {A : Type ℓ} {B : Type κ} (f : A → B) (xs : List A) {x : A} → Memᴰ x xs → Memᴰ (f x) (map f xs)
map-Memᴰ f [] m = absurd (Memᴰ.not-nil m)
map-Memᴰ f (y ∷ ys) m = elim (Memᴰ.cases_cons m) [
  | inl e ↦ Memᴰ.head (ap f e)
  | inr later ↦ Memᴰ.tail (map-Memᴰ f ys later)
]

pub and-true : (a b : Bool) → (a && b) ≡ true → (a ≡ true) × (b ≡ true)
and-true true b h = (refl, h)
and-true false b h = cc

pub differs : (a b : String) → (a == b) ≡ false → a ≢ b
differs a b h e = ground (arith, eq_iff a b)
