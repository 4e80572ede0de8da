-- ===== src/Provider/Arango/Status.antt =====
-- internal/provider/v1/arango.go, `arangoReadiness`: the status of an ArangoDeployment. The checks
-- are in the order of the code; a stop carries the observation that the code returns.
pub mod Conditions
pub mod Facts
pub mod Running
use Prim.Native.String
use data_product_controller.Prelude.{
  ℕ, String, ℤ, pos, Bool, true, false, not, ◌&&◌, ◌||◌, Option, none, some, List, [], ◌∷◌, any,
  ◌==◌, string_eq, int_eq, update, is_empty, if◌then◌else◌,
}
use data_product_controller.Provider.{Check, go, stop, ◌>>=◌, ◌>>◌, require}
use data_product_controller.Provider.Arango.{
  DeploymentSpec, ImageInfo, DeploymentCondition, Pod, Member, Deployment, Codec, KnownCondition,
  is_ready, spec_accepted, up_to_date, bootstrap_completed, bootstrap_succeeded, update_failed,
  upgrade_failed, secrets_changed, update_in_progress, upgrade_in_progress, pending_update,
  updating, restart, pending_restart, terminating, terminated, pvc_resize_pending, ArangoApi,
  is_supported_image, arango_digest,
}
use data_product_controller.Provider.Arango.Checksum.{arango_checksum}
use data_product_controller.Provider.Names.{codes_beq, is_suffix}
use data_product_controller.Controller.Version.{codes}

-- arangoInvalid
unfoldable pub require_arango : Bool → Check (Unit {0})
require_arango test =
    require test "SourceInvalid"
      "Use graph/native with arangodb/v1, an authenticated single-server ArangoDeployment and a dedicated application password Secret."

-- arangoNotReady
unfoldable pub require_current : Bool → Check (Unit {0})
require_current test =
    require test "SourceNotReady"
      "The current specification must be accepted and applied with successful bootstrap and one ready Graph member; inspect source status."

-- `p != nil && *p == wanted`
unfoldable pub is_text : Option String → String → Bool
is_text none wanted = false
is_text (some text) wanted = text == wanted

unfoldable pub is_one : Option ℤ → Bool
is_one none = false
is_one (some n) = n == pos 1

unfoldable pub runs_supported_image : Option String → Bool
unfolding is_supported_image
runs_supported_image none = false
runs_supported_image (some image) = is_supported_image image

-- the specification, and the accepted one where it is there
abbrev pub specs_of : Deployment → List DeploymentSpec
specs_of d = d.spec ∷ accepted d.accepted
  where
    accepted : Option DeploymentSpec → List DeploymentSpec
    accepted none = []
    accepted (some spec) = spec ∷ []

-- the loop over the users of the bootstrap
unfoldable pub only_root : Deployment → Bool
only_root d = not (
    any (λ (spec : DeploymentSpec). any (λ password. not (password.0 == "root")) spec.passwords)
      (specs_of d))

-- the rest of the loop, unless the type was seen
abbrev pub unless_seen : Option Bool → Option (String → Option Bool) → Option (String → Option Bool)
unless_seen none rest = rest
unless_seen (some _) rest = none

-- arangoConditions: the loop with the map of what was seen, where `none` is `return false`
pub seen_conditions :
    (String → Option Bool) → List DeploymentCondition → Option (String → Option Bool)
seen_conditions seen [] = some seen
seen_conditions seen (c ∷ conditions) =
    let rest = seen_conditions (update seen c.kind (some (c.status == "True"))) conditions in
    if c.kind == "" || not (c.status == "True" || c.status == "False")
    then none
    else unless_seen (seen c.kind) rest

pub was_true : Option Bool → Bool
was_true none = false
was_true (some b) = b

-- the loop over the required types
pub all_seen : Option (String → Option Bool) → List String → Bool
unfolding was_true
all_seen none required = false
all_seen (some seen) required = not (any (λ kind. not (was_true (seen kind))) required)

-- arangoConditions
unfoldable pub has_conditions : List DeploymentCondition → List String → Bool
unfolding seen_conditions all_seen
has_conditions conditions required = all_seen (seen_conditions (λ _. none) conditions) required

-- equality of Booleans
abbrev pub agrees : Bool → Bool → Bool
agrees true b = b
agrees false b = not b

-- arangoCurrentImage
unfoldable pub is_current_image : Option ImageInfo → String → Bool
is_current_image none expected = false
is_current_image (some image) expected =
    image.image == expected
    && (not (image.image_id == "")
        && (image.version == "3.12.12"
            && agrees image.enterprise
                (is_suffix (codes (String.◌++◌ "@" arango_digest)) (codes expected))))

-- the declared image, behind its check
abbrev pub text_of : Option String → String
text_of none = ""
text_of (some text) = text

-- the image ID of an image, behind its check
abbrev pub id_of : Option ImageInfo → String
id_of none = ""
id_of (some image) = image.image_id

unfoldable pub has_pod : Option Pod → Bool
has_pod none = false
has_pod (some pod) = not (pod.name == "") && not (pod.uid == "")

unfoldable pub one_member : List Member → Check Member
one_member (member ∷ []) = go member
one_member _ =
    stop "SourceNotReady"
      "The current specification must be accepted and applied with successful bootstrap and one ready Graph member; inspect source status."

unfoldable pub checksum_or_stop : Option String → Check String
checksum_or_stop (some checksum) = go checksum
checksum_or_stop none =
    stop "SourceNotReady"
      "The current specification must be accepted and applied with successful bootstrap and one ready Graph member; inspect source status."

abbrev pub disruptions : List KnownCondition
disruptions =
    update_failed ∷ upgrade_failed ∷ pending_update ∷ updating ∷ restart ∷ pending_restart
    ∷ terminating ∷ terminated ∷ pvc_resize_pending ∷ []

module _ (api : ArangoApi) where
  pub has_failed : Deployment → Bool
  has_failed d =
      d.phase == api.phase_failed
      || any (λ kind. api.is_true d.conditions (api.type_of kind))
          (update_failed ∷ upgrade_failed ∷ secrets_changed ∷ [])

  -- the accepted specification against the declared image
  unfoldable pub is_accepted : String → Option DeploymentSpec → Bool
  is_accepted image none = false
  is_accepted image (some spec) =
      is_text spec.mode api.mode_single
      && (is_one spec.single_count
          && (is_text spec.image image && (not (spec.jwt_secret == "") && spec.is_authenticated)))

  abbrev pub required_types : List String
  required_types =
      api.type_of is_ready
      ∷ api.type_of spec_accepted
      ∷ api.type_of up_to_date
      ∷ api.type_of bootstrap_completed
      ∷ api.type_of bootstrap_succeeded
      ∷ []

  -- the status of the specification with a checksum
  unfoldable pub is_applied : Deployment → String → Bool
  is_applied d checksum =
      d.applied_version == checksum
      && (d.phase == api.phase_running
          && (is_accepted (text_of d.spec.image) d.accepted
              && (not (api.is_true d.conditions (api.type_of update_in_progress))
                  && (not (api.is_true d.conditions (api.type_of upgrade_in_progress))
                      && has_conditions d.conditions required_types))))

  unfoldable pub is_current_member : Deployment → Member → Bool
  is_current_member d m =
      not (m.id == "")
      && (m.phase == api.member_created
          && (has_pod m.pod
              && (is_current_image m.image (text_of d.spec.image)
                  && (id_of m.image == id_of d.current_image
                      && (m.image_id == id_of d.current_image
                          && (m.version == "3.12.12"
                              && (has_conditions m.conditions (api.type_of is_ready ∷ [])
                                  && not (
                                      any (λ kind. api.is_true m.conditions (api.type_of kind))
                                        disruptions))))))))

-- arangoReadiness
unfoldable pub arango_readiness :
    {Time Entry : Type 0} → Codec Time Entry → ArangoApi → Deployment → Check (Unit {0})
unfolding has_failed
arango_readiness codec api d = do
  require (runs_supported_image d.spec.image) "SourceVersionUnsupported"
      "Use the supported official ArangoDB 3.12.12 image and operator 1.4.5 API profile."
  require_arango (
      is_text d.spec.mode api.mode_single
      && (is_one d.spec.single_count && d.spec.is_authenticated))
  require_arango (only_root d)
  require (not (has_failed api d)) "SourceFailed"
      "The operator reports a source failure; inspect the independently operated source."
  checksum ← checksum_or_stop (arango_checksum codec d.spec)
  require_current (is_text d.accepted_version checksum)
  require_current (is_applied api d checksum)
  require_current (is_current_image d.current_image (text_of d.spec.image))
  member ← one_member d.singles
  require_current (is_current_member api d member)
