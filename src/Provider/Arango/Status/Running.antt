-- ===== src/Provider/Arango/Status/Running.antt =====
-- internal/provider/v1/arango.go, `arangoReadiness`: the facts behind a running ArangoDeployment.
use data_product_controller.Prelude.{
  String, pos, ◌≡◌, ◌≢◌, true, false, not, ◌&&◌, Option, none, some, [], ◌∷◌, any, string_eq,
  int_eq, arith, eq_iff, refl, ap, Memᴰ, ◌∙◌, sym,
}
use data_product_controller.Provider.{go}
use data_product_controller.Provider.Checks.{
  >>=-eq-go, require-eq-go, any-false, and-true, or-false, not-true, differs,
}
use data_product_controller.Provider.Arango.{
  DeploymentSpec, Pod, Member, Deployment, Codec, ArangoApi, is_ready, KnownCondition,
  update_in_progress, upgrade_in_progress, supported_images,
}
use data_product_controller.Provider.Arango.Checksum.{arango_checksum}
use data_product_controller.Provider.Arango.Status.Conditions.{
  IsTrueOnly, has_conditions-IsTrueOnly,
}
use data_product_controller.Provider.Arango.Status.{
  is_text, is_one, has_conditions, is_current_image, text_of, id_of, one_member, checksum_or_stop,
  is_accepted, required_types, is_applied, has_pod, specs_of, disruptions, is_current_member,
  arango_readiness, has_failed,
}
use data_product_controller.Provider.Arango.Status.Facts.{
  require_arango-eq-go, require_current-eq-go, require_current-passed, one_member-eq-go,
  checksum_or_stop-eq-go, is_text-some, is_one-some, IsCurrent, IsCurrent-at, IsCurrent-id,
  only_root-root, runs_supported_image-declared, has_pod-some, failures,
}

module _ {Time Entry : Type 0} (codec : Codec Time Entry) (api : ArangoApi) where
  -- a deployment whose declared specification runs
  pub record IsRunning (d : Deployment) : Type 0 where
    pub image : String
    pub declared_image : d.spec.image ≡ some image
    pub supported : Memᴰ image supported_images
    pub single : d.spec.mode ≡ some api.mode_single
    pub one : d.spec.single_count ≡ some (pos 1)
    pub authenticated : d.spec.is_authenticated ≡ true
    pub root_only :
        (spec : DeploymentSpec) (password : String × String)
        → Memᴰ spec (specs_of d)
        → Memᴰ password spec.passwords
        → password.0 ≡ "root"
    pub not_failed : d.phase ≢ api.phase_failed
    pub no_failure :
        (kind : KnownCondition)
        → Memᴰ kind failures
        → api.is_true d.conditions (api.type_of kind) ≡ false
    pub not_updating : api.is_true d.conditions (api.type_of update_in_progress) ≡ false
    pub not_upgrading : api.is_true d.conditions (api.type_of upgrade_in_progress) ≡ false
    pub checksum : String
    pub computed : arango_checksum codec d.spec ≡ some checksum
    pub accepted : d.accepted_version ≡ some checksum
    pub applied : d.applied_version ≡ checksum
    pub running : d.phase ≡ api.phase_running
    pub accepted_spec : DeploymentSpec
    pub recorded : d.accepted ≡ some accepted_spec
    pub accepted_single : accepted_spec.mode ≡ some api.mode_single
    pub accepted_one : accepted_spec.single_count ≡ some (pos 1)
    pub accepted_image : accepted_spec.image ≡ some image
    pub accepted_jwt : accepted_spec.jwt_secret ≢ ""
    pub accepted_authenticated : accepted_spec.is_authenticated ≡ true
    pub conditions : (kind : String) → Memᴰ kind (required_types api) → IsTrueOnly d.conditions kind
    pub current_image : IsCurrent d.current_image image
    pub member : Member
    pub members : d.singles ≡ member ∷ []
    pub member_id : member.id ≢ ""
    pub member_phase : member.phase ≡ api.member_created
    pub member_pod : Pod
    pub scheduled : member.pod ≡ some member_pod
    pub pod_named : member_pod.name ≢ ""
    pub pod_identified : member_pod.uid ≢ ""
    pub member_current : IsCurrent member.image image
    pub same_image : member_current.info.image_id ≡ current_image.info.image_id
    pub member_image : member.image_id ≡ current_image.info.image_id
    pub member_version : member.version ≡ "3.12.12"
    pub member_ready : IsTrueOnly member.conditions (api.type_of is_ready)
    pub undisturbed :
        (kind : KnownCondition)
        → Memᴰ kind disruptions
        → api.is_true member.conditions (api.type_of kind) ≡ false

  has_failed-not :
      (d : Deployment)
      → not (has_failed api d) ≡ true
      → (d.phase ≢ api.phase_failed)
        × (any (λ kind. api.is_true d.conditions (api.type_of kind)) failures ≡ false)
  unfolding has_failed
  has_failed-not d h =
      let (phase, conditions) = or-false _ _ (not-true _ h) in
      (differs d.phase api.phase_failed phase, conditions)

  -- what `is_accepted` shows
  record Accepted (image : String) (o : Option DeploymentSpec) : Type 0 where
    spec : DeploymentSpec
    recorded : o ≡ some spec
    single : spec.mode ≡ some api.mode_single
    one : spec.single_count ≡ some (pos 1)
    same : spec.image ≡ some image
    jwt : spec.jwt_secret ≢ ""
    authenticated : spec.is_authenticated ≡ true

  is_accepted-Accepted :
      (image : String) (o : Option DeploymentSpec)
      → is_accepted api image o ≡ true
      → Accepted image o
  unfolding is_accepted
  is_accepted-Accepted image none h = cc
  is_accepted-Accepted image (some spec) h =
      let (mode, h1) = and-true _ _ h in
      let (count, h2) = and-true _ _ h1 in
      let (same, h3) = and-true _ _ h2 in
      let (jwt, authenticated) = and-true _ _ h3 in
      record {
        spec = spec;
        recorded = refl;
        single = is_text-some spec.mode api.mode_single mode;
        one = is_one-some spec.single_count count;
        same = is_text-some spec.image image same;
        jwt = differs spec.jwt_secret "" (not-true _ jwt);
        authenticated = authenticated;
      }

  -- what `is_applied` shows
  record Applied (d : Deployment) (checksum : String) : Type 0 where
    version : d.applied_version ≡ checksum
    running : d.phase ≡ api.phase_running
    spec : Accepted (text_of d.spec.image) d.accepted
    not_updating : api.is_true d.conditions (api.type_of update_in_progress) ≡ false
    not_upgrading : api.is_true d.conditions (api.type_of upgrade_in_progress) ≡ false
    conditions : has_conditions d.conditions (required_types api) ≡ true

  is_applied-Applied :
      (d : Deployment) (checksum : String) → is_applied api d checksum ≡ true → Applied d checksum
  unfolding is_applied
  is_applied-Applied d checksum h =
      let (version, h1) = and-true _ _ h in
      let (running, h2) = and-true _ _ h1 in
      let (spec, h3) = and-true _ _ h2 in
      let (not_updating, h4) = and-true _ _ h3 in
      let (not_upgrading, conditions) = and-true _ _ h4 in
      record {
        version = (eq_iff d.applied_version checksum).0 version;
        running = (eq_iff d.phase api.phase_running).0 running;
        spec = is_accepted-Accepted (text_of d.spec.image) d.accepted spec;
        not_updating = not-true _ not_updating;
        not_upgrading = not-true _ not_upgrading;
        conditions = conditions;
      }

  record Current (d : Deployment) (m : Member) : Type 0 where
    id : m.id ≢ ""
    phase : m.phase ≡ api.member_created
    pod : has_pod m.pod ≡ true
    info : is_current_image m.image (text_of d.spec.image) ≡ true
    same : id_of m.image ≡ id_of d.current_image
    image : m.image_id ≡ id_of d.current_image
    version : m.version ≡ "3.12.12"
    ready : has_conditions m.conditions (api.type_of is_ready ∷ []) ≡ true
    undisturbed : any (λ kind. api.is_true m.conditions (api.type_of kind)) disruptions ≡ false

  is_current_member-Current :
      (d : Deployment) (m : Member) → is_current_member api d m ≡ true → Current d m
  unfolding is_current_member
  is_current_member-Current d m h =
      let (id, h1) = and-true _ _ h in
      let (phase, h2) = and-true _ _ h1 in
      let (pod, h3) = and-true _ _ h2 in
      let (info, h4) = and-true _ _ h3 in
      let (same, h5) = and-true _ _ h4 in
      let (image, h6) = and-true _ _ h5 in
      let (version, h7) = and-true _ _ h6 in
      let (ready, undisturbed) = and-true _ _ h7 in
      record {
        id = differs m.id "" (not-true _ id);
        phase = (eq_iff m.phase api.member_created).0 phase;
        pod = pod;
        info = info;
        same = (eq_iff (id_of m.image) (id_of d.current_image)).0 same;
        image = (eq_iff m.image_id (id_of d.current_image)).0 image;
        version = (eq_iff m.version "3.12.12").0 version;
        ready = ready;
        undisturbed = not-true _ undisturbed;
      }

  -- what the guard on the declared specification shows
  single_server :
      (d : Deployment)
      → (is_text d.spec.mode api.mode_single
          && (is_one d.spec.single_count && d.spec.is_authenticated))
        ≡ true
      → (is_text d.spec.mode api.mode_single ≡ true)
        × (is_one d.spec.single_count ≡ true)
        × (d.spec.is_authenticated ≡ true)
  single_server d h = (ground arith, ground arith, ground arith)

  -- An ArangoDeployment counts as running only if it declares one authenticated single server of a
  -- supported image, with no bootstrap user but root in the declared and the accepted specification;
  -- if it is in the running phase and no failure, update or upgrade is reported; if the checksum of
  -- the declared specification is the accepted and the applied version, and the accepted specification
  -- is an authenticated single server of the same image with a JWT secret; if every required condition
  -- is there and true without ambiguity; if the current image is the declared one with an ID, the
  -- version and the edition; and if the one member is created with a named and identified pod, runs
  -- that image by its ID and version, is ready and in no disruption.
  pub arango_readiness-IsRunning :
      (d : Deployment) (u : Unit {0}) → arango_readiness codec api d ≡ go u → IsRunning d
  unfolding arango_readiness
  arango_readiness-IsRunning d u h =
      let (supported, h1) = require-eq-go _ _ _ _ h in
      let (declared, h2) = require_arango-eq-go _ _ h1 in
      let (root_only, h3) = require_arango-eq-go _ _ h2 in
      let (unfailed, h4) = require-eq-go _ _ _ _ h3 in
      let (checksum, computed, h5) = >>=-eq-go (checksum_or_stop _) _ h4 in
      let (accepted, h6) = require_current-eq-go _ _ h5 in
      let (applied, h7) = require_current-eq-go _ _ h6 in
      let (current_image, h8) = require_current-eq-go _ _ h7 in
      let (member, one, h9) = >>=-eq-go (one_member d.singles) _ h8 in
      let current = is_current_member-Current d member (require_current-passed _ u h9) in
      let a = is_applied-Applied d checksum applied in
      let (mode, count, authenticated) = single_server d declared in
      let (image, declared_image, official) =
        runs_supported_image-declared d.spec.image supported in
      let text : text_of d.spec.image ≡ image = ap text_of declared_image in
      let (phase, no_failure) = has_failed-not d unfailed in
      let (pod, scheduled, pod_named, pod_identified) = has_pod-some member.pod current.pod in
      let up = IsCurrent-at d.current_image _ image text current_image in
      let info = IsCurrent-at member.image _ image text current.info in
      record {
        image = image;
        declared_image = declared_image;
        supported = official;
        single = is_text-some d.spec.mode api.mode_single mode;
        one = is_one-some d.spec.single_count count;
        authenticated = authenticated;
        root_only = λ spec password m k. only_root-root d spec password root_only m k;
        not_failed = phase;
        no_failure = λ kind m.
            any-false (λ k. api.is_true d.conditions (api.type_of k)) failures no_failure m;
        not_updating = a.not_updating;
        not_upgrading = a.not_upgrading;
        checksum = checksum;
        computed = checksum_or_stop-eq-go _ checksum computed;
        accepted = is_text-some d.accepted_version checksum accepted;
        applied = a.version;
        running = a.running;
        accepted_spec = a.spec.spec;
        recorded = a.spec.recorded;
        accepted_single = a.spec.single;
        accepted_one = a.spec.one;
        accepted_image = a.spec.same ∙ ap some text;
        accepted_jwt = a.spec.jwt;
        accepted_authenticated = a.spec.authenticated;
        conditions = λ kind m. has_conditions-IsTrueOnly d.conditions _ kind a.conditions m;
        current_image = up;
        member = member;
        members = one_member-eq-go d.singles member one;
        member_id = current.id;
        member_phase = current.phase;
        member_pod = pod;
        scheduled = scheduled;
        pod_named = pod_named;
        pod_identified = pod_identified;
        member_current = info;
        same_image = sym (IsCurrent-id info) ∙ (current.same ∙ IsCurrent-id up);
        member_image = current.image ∙ IsCurrent-id up;
        member_version = current.version;
        member_ready =
            has_conditions-IsTrueOnly member.conditions _ _ current.ready (Memᴰ.head refl);
        undisturbed = λ kind m.
            any-false (λ k. api.is_true member.conditions (api.type_of k)) disruptions
              current.undisturbed m;
      }
