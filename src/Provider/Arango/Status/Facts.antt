-- ===== src/Provider/Arango/Status/Facts.antt =====
-- internal/provider/v1/arango.go, `arangoReadiness`: what each of its checks shows.
use data_product_controller.Prelude.{
  String, ℤ, pos, ◌≡◌, ◌≢◌, Bool, true, false, not, Option, none, some, List, [], ◌∷◌, any,
  string_eq, int_eq, int_beq_iff, arith, eq_iff, refl, ap, Memᴰ, sym, subst, ◌==◌,
}
use Prim.Native.String
use data_product_controller.Controller.Version.{codes}
use data_product_controller.Provider.Names.{is_suffix}
use data_product_controller.Provider.{Check, go, ◌>>=◌, require}
use data_product_controller.Provider.Checks.{
  require-eq-go, any-false, any-true, and-true, not-true, differs,
}
use data_product_controller.Provider.Arango.{
  DeploymentSpec, ImageInfo, Pod, Member, Deployment, KnownCondition, update_failed, upgrade_failed,
  secrets_changed, is_supported_image, supported_images, arango_digest,
}
use data_product_controller.Provider.Arango.Status.{
  require_arango, require_current, is_text, is_one, runs_supported_image, only_root,
  is_current_image, id_of, one_member, checksum_or_stop, has_pod, agrees, specs_of,
}

pub require_arango-eq-go {κ} :
    {B : Type κ} (t : Bool) (k : Check B) {b : B}
    → (require_arango t >>= λ _. k) ≡ go b
    → (t ≡ true) × (k ≡ go b)
unfolding require_arango
require_arango-eq-go t k h = require-eq-go t _ _ k h

pub require_current-eq-go {κ} :
    {B : Type κ} (t : Bool) (k : Check B) {b : B}
    → (require_current t >>= λ _. k) ≡ go b
    → (t ≡ true) × (k ≡ go b)
unfolding require_current
require_current-eq-go t k h = require-eq-go t _ _ k h

pub require_current-passed : (t : Bool) (u : Unit {0}) → require_current t ≡ go u → t ≡ true
unfolding require_current require
require_current-passed true u h = refl
require_current-passed false u h = cc

pub one_member-eq-go :
    (members : List Member) (m : Member) → one_member members ≡ go m → members ≡ m ∷ []
unfolding one_member
one_member-eq-go [] m h = cc
one_member-eq-go (x ∷ []) m h = cc
one_member-eq-go (x ∷ y ∷ rest) m h = cc

pub checksum_or_stop-eq-go :
    (o : Option String) (c : String) → checksum_or_stop o ≡ go c → o ≡ some c
unfolding checksum_or_stop
checksum_or_stop-eq-go none c h = cc
checksum_or_stop-eq-go (some x) c h = cc

pub is_text-some : (o : Option String) (s : String) → is_text o s ≡ true → o ≡ some s
unfolding is_text
is_text-some none s h = cc
is_text-some (some t) s h = ap some ((eq_iff t s).0 h)

pub is_one-some : (o : Option ℤ) → is_one o ≡ true → o ≡ some (pos 1)
unfolding is_one
is_one-some none h = cc
is_one-some (some n) h = ap some ((int_beq_iff n (pos 1)).0 h)

-- an image that is the expected one, by its name, ID, version and edition
pub record IsCurrent (o : Option ImageInfo) (expected : String) : Type 0 where
  pub info : ImageInfo
  pub reported : o ≡ some info
  pub image : info.image ≡ expected
  pub identified : info.image_id ≢ ""
  pub version : info.version ≡ "3.12.12"
  pub edition : info.enterprise ≡ is_suffix (codes (String.◌++◌ "@" arango_digest)) (codes expected)

is_current_image-IsCurrent :
    (o : Option ImageInfo) (expected : String)
    → is_current_image o expected ≡ true
    → IsCurrent o expected
unfolding is_current_image
is_current_image-IsCurrent none expected h = cc
is_current_image-IsCurrent (some i) expected h =
    let (image, h1) = and-true _ _ h in
    let (identified, h2) = and-true _ _ h1 in
    let (version, edition) = and-true _ _ h2 in
    record {
      info = i;
      reported = refl;
      image = (eq_iff i.image expected).0 image;
      identified = differs i.image_id "" (not-true _ identified);
      version = (eq_iff i.version "3.12.12").0 version;
      edition = agreed i.enterprise _ edition;
    }
  where
    agreed : (a b : Bool) → agrees a b ≡ true → a ≡ b
    agreed true b e = sym e
    agreed false b e = sym (not-true b e)

-- the same, for a text that is the expected name
pub IsCurrent-at :
    (o : Option ImageInfo) (text expected : String)
    → text ≡ expected
    → is_current_image o text ≡ true
    → IsCurrent o expected
IsCurrent-at o text expected e h =
    is_current_image-IsCurrent o expected (subst (λ x. is_current_image o x ≡ true) e h)

pub IsCurrent-id :
    {o : Option ImageInfo} {expected : String} (c : IsCurrent o expected)
    → id_of o ≡ c.info.image_id
IsCurrent-id c = rw c.reported refl

pub only_root-root :
    (d : Deployment) (spec : DeploymentSpec) (password : String × String)
    → only_root d ≡ true
    → Memᴰ spec (specs_of d)
    → Memᴰ password spec.passwords
    → password.0 ≡ "root"
unfolding only_root
only_root-root d spec password h m k =
    let other : any (λ (p : String × String). not (p.0 == "root")) spec.passwords ≡ false =
      any-false
        (λ (x : DeploymentSpec). any (λ (p : String × String). not (p.0 == "root")) x.passwords)
        (specs_of d) (not-true _ h) m in
    (eq_iff password.0 "root").0 (
      not-false _ (any-false (λ (p : String × String). not (p.0 == "root")) spec.passwords other k))
  where
    not-false : (b : Bool) → not b ≡ false → b ≡ true
    not-false b e = ground arith

pub runs_supported_image-declared :
    (o : Option String)
    → runs_supported_image o ≡ true
    → (image : String) × (o ≡ some image) × Memᴰ image supported_images
unfolding runs_supported_image is_supported_image
runs_supported_image-declared none h = cc
runs_supported_image-declared (some image) h =
    let (supported, member, same) = any-true (λ x. image == x) supported_images h in
    (
      image,
      refl,
      subst (λ x. Memᴰ x supported_images) (sym ((eq_iff image supported).0 same)) member,
    )

pub has_pod-some :
    (o : Option Pod)
    → has_pod o ≡ true
    → (pod : Pod) × (o ≡ some pod) × (pod.name ≢ "") × (pod.uid ≢ "")
unfolding has_pod
has_pod-some none h = cc
has_pod-some (some pod) h =
    let (named, identified) = and-true _ _ h in
    (pod, refl, differs pod.name "" (not-true _ named), differs pod.uid "" (not-true _ identified))

-- the conditions of a deployment that failed
abbrev pub failures : List KnownCondition
failures = update_failed ∷ upgrade_failed ∷ secrets_changed ∷ []
