-- ===== src/Controller/Version/Laws.antt =====
-- internal/controller/composition.go, `compatibleVersion`: accepted pairs of versions.
use data_product_controller.Prelude.{String, ◌≡◌, ◌≢◌, ◌↔◌, true, some, arith, eq_iff}
use data_product_controller.Controller.Version.{
  Triple, LexLe, Fits, Semver, stable_version, accepts, compatible_version,
}

module _ (semver : Semver) where
  open semver use {Version, parse_semantic, components, major, at_least}

  -- what an accepted pair of texts shows
  pub record IsCompatible (actual minimum : String) (t u : Triple) : Type 0 where
    pub same_major : t.major ≡ u.major
    pub exact_zero : t.major ≡ 0 → actual ≡ minimum
    pub newer : t.major ≢ 0 → LexLe u t

  -- the comparison of two parsed versions, in terms of the numbers that they hold
  accepts_iff :
      (actual minimum : String) (t u : Triple) (v w : Version)
      → major v ≡ t.major
      → major w ≡ u.major
      → (at_least v w ≡ true) ↔ LexLe u t
      → (accepts semver actual minimum v w ≡ true) ↔ IsCompatible actual minimum t u
  unfolding accepts
  accepts_iff actual minimum t u v w mv mw order = (
    λ h. record {
      same_major = ground arith;
      exact_zero = λ z. ground (arith, eq_iff actual minimum);
      newer = λ z. order.0 (ground arith);
    },
    λ c. ground (arith, eq_iff actual minimum, c.same_major, c.exact_zero, c.newer),
  )

  -- the same, of two texts that are stable and parsed
  parsed_iff :
      (actual minimum : String) (t u : Triple) (v w : Version)
      → stable_version actual ≡ some t
      → stable_version minimum ≡ some u
      → parse_semantic actual ≡ some v
      → parse_semantic minimum ≡ some w
      → (compatible_version semver actual minimum ≡ true) ↔ IsCompatible actual minimum t u
  unfolding compatible_version
  parsed_iff actual minimum t u v w ha hm pv pw =
      let cv = semver.parse_components actual t v ha pv in
      let cw = semver.parse_components minimum u w hm pw in
      let order = semver.at_least_stable actual minimum t u v w ha hm pv pw in
      rw (ha, hm, pv, pw)
        (accepts_iff actual minimum t u v w (rw cv at (semver.major-components v))
          (rw cw at (semver.major-components w)) (rw (cv, cw) at order))

  -- Both texts stable and in range: accepted exactly when the majors are equal and the text is the
  -- same at major zero, or at least as new in lexicographic order above it.
  pub compatible_version_iff :
      (actual minimum : String) (t u : Triple)
      → stable_version actual ≡ some t
      → stable_version minimum ≡ some u
      → Fits t
      → Fits u
      → (compatible_version semver actual minimum ≡ true) ↔ IsCompatible actual minimum t u
  compatible_version_iff actual minimum t u ha hm ft fu =
      let (v, pv) = semver.parse_fits actual t ha ft in
      let (w, pw) = semver.parse_fits minimum u hm fu in
      parsed_iff actual minimum t u v w ha hm pv pw

  stable_of_compatible :
      (actual minimum : String)
      → compatible_version semver actual minimum ≡ true
      → ((t : Triple) × (stable_version actual ≡ some t))
        × ((u : Triple) × (stable_version minimum ≡ some u))
  unfolding compatible_version
  stable_of_compatible actual minimum h = (ground arith, ground arith)

  parsed_of_compatible :
      (actual minimum : String)
      → compatible_version semver actual minimum ≡ true
      → ((v : Version) × (parse_semantic actual ≡ some v))
        × ((w : Version) × (parse_semantic minimum ≡ some w))
  unfolding compatible_version
  parsed_of_compatible actual minimum h = (ground arith, ground arith)
