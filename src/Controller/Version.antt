-- ===== src/Controller/Version.antt =====
-- internal/controller/composition.go, `stableContractVersion` and `compatibleVersion`. The regular
-- expression is matched by a walk over the code points, which also reads off the three numbers.
-- apimachinery's `version` package, which the code calls, is the parameter `Semver`.
pub mod Laws
pub mod Sample
mod Tests
use Prim.Native.Nat.{◌^◌}
use Prim.Native.Char.{code}
use Prim.Native.String
use data_product_controller.Prelude.{
  ℕ, ◌+◌, ◌-◌, ◌*◌, ◌≤◌, ◌<◌, String, ◌≡◌, ◌↔◌, ◌⊎◌, Bool, true, false, ◌&&◌, ◌||◌, not, Option,
  none, some, List, [], ◌∷◌, if◌then◌else◌, leb, ltb, nat_beq, is_some, ◌==◌, string_eq, nat_eq,
}

pub record Triple : Type 0 where
  pub major : ℕ
  pub minor : ℕ
  pub patch : ℕ

-- the code points of a text
abbrev pub codes : String → List ℕ
codes String.[] = []
codes (String.◌∷◌ c s) = code c ∷ codes s

is_digit : ℕ → Bool
is_digit c = leb b'0' c && leb c b'9'

-- the digits that follow, read as decimals behind `acc`
digits : ℕ → List ℕ → ℕ × List ℕ
digits acc [] = (acc, [])
digits acc (c ∷ rest) =
    let longer = digits (acc * 10 + (c - b'0')) rest in
    if is_digit c then longer else (acc, c ∷ rest)

-- `(0|[1-9][0-9]*)`
numeral : List ℕ → Option (ℕ × List ℕ)
numeral [] = none
numeral (c ∷ rest) =
    if c == b'0' then some (0, rest) else if is_digit c then some (digits (c - b'0') rest) else none

-- `\.`
dot : List ℕ → Option (List ℕ)
dot [] = none
dot (c ∷ rest) = if c == b'.' then some rest else none

at_end : Triple → List ℕ → Option Triple
at_end t [] = some t
at_end t (_ ∷ _) = none

-- `^v`
prefix_v : List ℕ → Option (List ℕ)
prefix_v [] = none
prefix_v (c ∷ rest) = if c == b'v' then some rest else none

infixl 5 ◌>>=◌
abbrev ◌>>=◌ {ℓ κ} : {A : Type ℓ} {B : Type κ} → Option A → (A → Option B) → Option B
none >>= k = none
some a >>= k = k a

-- stableContractVersion, with the numbers of the three groups
unfoldable pub stable_version : String → Option Triple
unfolding is_digit digits numeral dot at_end prefix_v
stable_version s = do
  after_v ← prefix_v (codes s)
  (major, rest1) ← numeral after_v
  minor_text ← dot rest1
  (minor, rest2) ← numeral minor_text
  patch_text ← dot rest2
  (patch, rest3) ← numeral patch_text
  at_end (record { major = major; minor = minor; patch = patch }) rest3

-- lexicographic order
abbrev pub LexLe : Triple → Triple → Type 0
LexLe a b =
    (a.major < b.major)
    ⊎ ((a.major ≡ b.major) × ((a.minor < b.minor) ⊎ ((a.minor ≡ b.minor) × (a.patch ≤ b.patch))))

-- the components that the parser holds in 64 bits
abbrev pub Fits : Triple → Type 0
Fits t = (t.major < 2 ^ 64) × (t.minor < 2 ^ 64) × (t.patch < 2 ^ 64)

-- k8s.io/apimachinery/pkg/util/version on stable texts: `ParseSemantic` reads the three numbers,
-- if they fit, and `AtLeast` compares them in order.
pub record Semver : Type 1 where
  pub Version : Type 0
  pub parse_semantic : String → Option Version
  pub components : Version → Triple
  pub major : Version → ℕ
  pub at_least : Version → Version → Bool
  pub major-components : (v : Version) → major v ≡ (components v).major
  pub parse_fits :
      (s : String) (t : Triple)
      → stable_version s ≡ some t
      → Fits t
      → (v : Version) × (parse_semantic s ≡ some v)
  pub parse_components :
      (s : String) (t : Triple) (v : Version)
      → stable_version s ≡ some t
      → parse_semantic s ≡ some v
      → components v ≡ t
  pub at_least_stable :
      (s r : String) (t u : Triple) (v w : Version)
      → stable_version s ≡ some t
      → stable_version r ≡ some u
      → parse_semantic s ≡ some v
      → parse_semantic r ≡ some w
      → (at_least v w ≡ true) ↔ LexLe (components w) (components v)

module _ (semver : Semver) where
  open semver use {Version, parse_semantic, major, at_least}

  -- the comparison of two parsed versions
  accepts : String → String → Version → Version → Bool
  accepts actual minimum a m =
      if not (major a == major m)
      then false
      else if major a == 0
      then actual == minimum
      else at_least a m

  compare_parsed : String → String → Option Version → Option Version → Bool
  compare_parsed actual minimum none _ = false
  compare_parsed actual minimum (some a) none = false
  compare_parsed actual minimum (some a) (some m) = accepts actual minimum a m

  unfoldable pub compatible_version : String → String → Bool
  unfolding accepts compare_parsed
  compatible_version actual minimum =
      if not (is_some (stable_version actual)) || not (is_some (stable_version minimum))
      then false
      else compare_parsed actual minimum (parse_semantic actual) (parse_semantic minimum)
