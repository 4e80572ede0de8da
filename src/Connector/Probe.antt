-- ===== src/Connector/Probe.antt =====
-- internal/connector/v1/observer.go, `matchesContractProbe` and `ObserveContract`: the container
-- that a contract probe is bound to.
use data_product_controller.Prelude.{
  ℕ, suc, ◌+◌, String, ◌≡◌, ◌≢◌, ◌⊎◌, Bool, true, false, not, ◌||◌, Option, none, some, arith,
  eq_iff, refl, sym, Bool-cases, inl, inr, ◌==◌, string_eq, int_eq, nat_eq, ap, subst, List, [],
  ◌∷◌, All, Memᴰ, is_empty, if◌then◌else◌,
}
use data_product_controller.Api.{ConnectorResourceReference}
use data_product_controller.Connector.{
  EnvVar, Container, HttpGetAction, ReadinessProbe, Workload, Cluster, another_url, another_flag,
  count_env, probe_port, once_each, matches_http, matches_probe, is_probe_command,
  matches_container, matches_containers, matches_contract_probe, observe_contract,
  is_unusable_target,
}
use data_product_controller.Connector.Laws.{IsObserved, observe_target_iff}

abbrev pub occurrences : String → List EnvVar → ℕ
occurrences name [] = 0
occurrences name (e ∷ rest) =
    if e.name == name then suc (occurrences name rest) else occurrences name rest

-- the variable, where it has the name, holds the value literally
abbrev pub Literal : String → String → EnvVar → Type 0
Literal name value e = e.name ≡ name → (e.from_source ≡ false) × (e.value ≡ value)

another_url-some :
    (r : Option (ℕ × ℕ)) (urls flags : ℕ)
    → another_url r ≡ some (urls, flags)
    → (u : ℕ) × (r ≡ some (u, flags)) × (urls ≡ u + 1)
unfolding another_url
another_url-some none urls flags h = cc
another_url-some (some (u, f)) urls flags h = (u, ground arith, ground arith)

another_flag-some :
    (r : Option (ℕ × ℕ)) (urls flags : ℕ)
    → another_flag r ≡ some (urls, flags)
    → (f : ℕ) × (r ≡ some (urls, f)) × (flags ≡ f + 1)
unfolding another_flag
another_flag-some none urls flags h = cc
another_flag-some (some (u, f)) urls flags h = (f, ground arith, ground arith)

abbrev Counted : String → List EnvVar → ℕ → ℕ → Type 0
Counted target env urls flags =
    (urls ≡ occurrences "CONTRACT_PROBE_URL" env)
    × (flags ≡ occurrences "CONTRACT_READINESS_ENABLED" env)
    × All (Literal "CONTRACT_PROBE_URL" target) env
    × All (Literal "CONTRACT_READINESS_ENABLED" "true") env

-- a variable whose value is literal and right
good_value :
    (e : EnvVar) (value : String)
    → (e.from_source || not (e.value == value)) ≡ false
    → (e.from_source ≡ false) × (e.value ≡ value)
good_value e value h = ground (arith, eq_iff e.value value)

names_differ : (e : EnvVar) → e.name ≡ "CONTRACT_PROBE_URL" → e.name ≢ "CONTRACT_READINESS_ENABLED"
names_differ e a b = cc

named : (e : EnvVar) (name : String) → (e.name == name) ≡ true → e.name ≡ name
named e name h = ground (arith, eq_iff e.name name)

not_named : (e : EnvVar) (name : String) → (e.name == name) ≡ false → e.name ≢ name
not_named e name h k = ground (arith, eq_iff e.name name)

-- the counts with the environment, and those of the rest behind one variable
Counted-url :
    (target : String) (e : EnvVar) (rest : List EnvVar) (urls flags : ℕ)
    → e.name ≡ "CONTRACT_PROBE_URL"
    → e.from_source ≡ false
    → e.value ≡ target
    → Counted target rest urls flags
    → Counted target (e ∷ rest) (urls + 1) flags
Counted-url target e rest urls flags name source value (a, b, c, d) =
    let url : (e.name == "CONTRACT_PROBE_URL") ≡ true =
      ground (arith, eq_iff e.name "CONTRACT_PROBE_URL") in
    let not_flag : (e.name == "CONTRACT_READINESS_ENABLED") ≡ false =
      ground (arith, eq_iff e.name "CONTRACT_READINESS_ENABLED", names_differ e name) in
    (
      rw url (omega (arith, a)),
      rw not_flag b,
      ((λ n. (source, value)), c),
      ((λ n. absurd (names_differ e name n)), d),
    )

Counted-flag :
    (target : String) (e : EnvVar) (rest : List EnvVar) (urls flags : ℕ)
    → (e.name == "CONTRACT_PROBE_URL") ≡ false
    → e.name ≡ "CONTRACT_READINESS_ENABLED"
    → e.from_source ≡ false
    → e.value ≡ "true"
    → Counted target rest urls flags
    → Counted target (e ∷ rest) urls (flags + 1)
Counted-flag target e rest urls flags other name source value (a, b, c, d) =
    let flag : (e.name == "CONTRACT_READINESS_ENABLED") ≡ true =
      ground (arith, eq_iff e.name "CONTRACT_READINESS_ENABLED") in
    (
      rw other a,
      rw flag (omega (arith, b)),
      ((λ n. absurd (not_named e _ other n)), c),
      ((λ n. (source, value)), d),
    )

unset-some : {A : Type 0} → (a : A) → ¬ (◌≡◌ {A = Option A} none (some a))
unset-some a h = cc

count_env_sound :
    (target : String) (env : List EnvVar) (urls flags : ℕ)
    → count_env target env ≡ some (urls, flags)
    → Counted target env urls flags
unfolding count_env
count_env_sound target [] urls flags h = (ground arith, ground arith, tt, tt)
count_env_sound target (e ∷ rest) urls flags h =
    elim (Bool-cases (e.name == "CONTRACT_PROBE_URL")) [
      | inl url ↦ elim (Bool-cases (e.from_source || not (e.value == target))) [
        | inl bad ↦ absurd (unset-some _ (rw (url, bad) at h))
        | inr good ↦
            let (source, value) = good_value e target good in
            let (u, later, count) =
              another_url-some (count_env target rest) urls flags (rw (url, good) at h) in
            subst (λ n. Counted target (e ∷ rest) n flags) (sym count)
              (Counted-url target e rest u flags (named e _ url) source value
                (count_env_sound target rest u flags later))
      ]
      | inr other ↦ elim (Bool-cases (e.name == "CONTRACT_READINESS_ENABLED")) [
        | inl flag ↦ elim (Bool-cases (e.from_source || not (e.value == "true"))) [
          | inl bad ↦ absurd (unset-some _ (rw (other, flag, bad) at h))
          | inr good ↦
              let (source, value) = good_value e "true" good in
              let (f, later, count) =
                another_flag-some (count_env target rest) urls flags
                  (rw (other, flag, good) at h) in
              subst (λ n. Counted target (e ∷ rest) urls n) (sym count)
                (Counted-flag target e rest urls f other (named e _ flag) source value
                  (count_env_sound target rest urls f later))
        ]
        | inr neither ↦
            let (a, b, c, d) = count_env_sound target rest urls flags (rw (other, neither) at h) in
            (
              rw other a,
              rw neither b,
              ((λ n. absurd (not_named e _ other n)), c),
              ((λ n. absurd (not_named e _ neither n)), d),
            )
      ]
    ]

-- a container that is bound to the target
pub record IsBound (target : String) (c : Container) : Type 0 where
  pub named : c.name ≡ "contract-probe"
  pub command : c.command ≡ "/contract-probe" ∷ []
  pub args : c.args ≡ []
  pub probe : ReadinessProbe
  pub readiness : c.readiness_probe ≡ some probe
  pub http : HttpGetAction
  pub get : probe.http_get ≡ some http
  pub path : http.path ≡ "/readyz"
  pub host : http.host ≡ ""
  pub headers : http.headers ≡ []
  pub scheme : (http.scheme ≡ "") ⊎ (http.scheme ≡ "HTTP")
  pub port : probe_port http.port c.ports ≡ true
  pub url_once : occurrences "CONTRACT_PROBE_URL" c.env ≡ 1
  pub flag_once : occurrences "CONTRACT_READINESS_ENABLED" c.env ≡ 1
  pub url : All (Literal "CONTRACT_PROBE_URL" target) c.env
  pub flag : All (Literal "CONTRACT_READINESS_ENABLED" "true") c.env

once_each-true : (r : Option (ℕ × ℕ)) → once_each r ≡ true → r ≡ some (1, 1)
unfolding once_each
once_each-true none h = cc
once_each-true (some (u, f)) h = ground arith

-- what the guard on the HTTP probe leaves
record Plain (probe : HttpGetAction) : Type 0 where
  path : probe.path ≡ "/readyz"
  host : probe.host ≡ ""
  headers : probe.headers ≡ []
  scheme : (probe.scheme ≡ "") ⊎ (probe.scheme ≡ "HTTP")

is_empty-nil : {A : Type 0} → (xs : List A) → is_empty xs ≡ true → xs ≡ []
is_empty-nil [] h = refl
is_empty-nil (x ∷ xs) h = cc

matches_http-true :
    (target : String) (c : Container) (http : HttpGetAction)
    → matches_http target c (some http) ≡ true
    → Plain http
      × (probe_port http.port c.ports ≡ true)
      × (once_each (count_env target c.env) ≡ true)
unfolding matches_http
matches_http-true target c http h = (
  record {
    path = ground (arith, eq_iff http.path "/readyz");
    host = ground (arith, eq_iff http.host "");
    headers = is_empty-nil http.headers (ground arith);
    scheme = ground (arith, eq_iff http.scheme "", eq_iff http.scheme "HTTP");
  },
  ground arith,
  ground arith,
)

is_probe_command-true :
    (command : List String) → is_probe_command command ≡ true → command ≡ "/contract-probe" ∷ []
unfolding is_probe_command
is_probe_command-true [] h = cc
is_probe_command-true (a ∷ []) h = ap (λ x. x ∷ []) (ground (arith, eq_iff a "/contract-probe"))
is_probe_command-true (a ∷ b ∷ rest) h = cc

-- a container with an HTTP probe
IsBound-http :
    (target : String) (c : Container) (probe : ReadinessProbe) (r : Option HttpGetAction)
    → c.name ≡ "contract-probe"
    → is_probe_command c.command ≡ true
    → is_empty c.args ≡ true
    → c.readiness_probe ≡ some probe
    → probe.http_get ≡ r
    → matches_http target c r ≡ true
    → IsBound target c
unfolding matches_http
IsBound-http target c probe none name command args readiness get h = cc
IsBound-http target c probe (some http) name command args readiness get h =
    let (plain, port, once) = matches_http-true target c http h in
    let (a, b, url, flag) =
      count_env_sound target c.env 1 1 (once_each-true (count_env target c.env) once) in
    record {
      named = name;
      command = is_probe_command-true c.command command;
      args = is_empty-nil c.args args;
      probe = probe;
      readiness = readiness;
      http = http;
      get = get;
      path = plain.path;
      host = plain.host;
      headers = plain.headers;
      scheme = plain.scheme;
      port = port;
      url_once = sym a;
      flag_once = sym b;
      url = url;
      flag = flag;
    }

IsBound-probe :
    (target : String) (c : Container) (r : Option ReadinessProbe)
    → c.name ≡ "contract-probe"
    → is_probe_command c.command ≡ true
    → is_empty c.args ≡ true
    → c.readiness_probe ≡ r
    → matches_probe target c r ≡ true
    → IsBound target c
unfolding matches_probe
IsBound-probe target c none name command args readiness h = cc
IsBound-probe target c (some probe) name command args readiness h =
    IsBound-http target c probe probe.http_get name command args readiness refl h

-- the guard on the command and the arguments
IsBound-container :
    (target : String) (c : Container)
    → c.name ≡ "contract-probe"
    → matches_container target c ≡ true
    → IsBound target c
unfolding matches_container
IsBound-container target c name h =
    IsBound-probe target c c.readiness_probe name (ground arith) (ground arith) refl (ground arith)

-- a container of the workload that is bound to the target
IsBound-member :
    (target : String) (cs : List Container)
    → matches_containers target cs ≡ true
    → (c : Container) × Memᴰ c cs × IsBound target c
unfolding matches_containers
IsBound-member target [] h = cc
IsBound-member target (c ∷ rest) h = elim (Bool-cases (c.name == "contract-probe")) [
  | inl name ↦ (
    c,
    Memᴰ.head refl,
    IsBound-container target c (ground (arith, eq_iff c.name "contract-probe")) (rw name at h),
  )
  | inr other ↦
      let (d, member, bound) = IsBound-member target rest (rw other at h) in
      (d, Memᴰ.tail member, bound)
]

-- A workload that matches has a container named contract-probe which runs the probe's command
-- without arguments, whose readiness probe is GET /readyz without host or headers over HTTP, on
-- port 8081 or on a port of a name, and whose environment sets the URL exactly once to the target
-- and the switch exactly once to "true", both literally.
pub matches_contract_probe-IsBound :
    (w : Workload) (target : String)
    → matches_contract_probe w target ≡ true
    → (c : Container) × Memᴰ c w.containers × IsBound target c
unfolding matches_contract_probe
matches_contract_probe-IsBound w target h = IsBound-member target w.containers h

-- what a ready contract probe shows
pub record IsContractObserved (k : Cluster) (namespace : String) (ref : ConnectorResourceReference)
    (target : String) : Type 0 where
  pub usable : is_unusable_target target ≡ false
  pub observed :
      IsObserved k namespace (record { adapter = "deployment/v1"; resource_ref = ref }) target
  pub container : Container
  pub member : Memᴰ container observed.workload.containers
  pub bound : IsBound target container

usable-nonempty : (target : String) → is_unusable_target target ≡ false → target ≢ ""
unfolding is_unusable_target
usable-nonempty target h = ground (arith, eq_iff target "")

-- A contract probe is observed ready only if the target can be held literally, the named
-- Deployment was read in time and is fully available, and one of its containers is bound to the
-- target.
pub observe_contract-ready :
    (k : Cluster) (namespace : String) (ref : ConnectorResourceReference) (target : String)
    → (observe_contract k namespace ref target).ready ≡ true
    → IsContractObserved k namespace ref target
unfolding observe_contract
observe_contract-ready k namespace ref target h = elim (Bool-cases (is_unusable_target target)) [
  | inl bad ↦ absurd (clash (rw bad at h))
  | inr usable ↦
      let o =
        (observe_target_iff k namespace (record { adapter = "deployment/v1"; resource_ref = ref })
            target).0
          (rw usable at h) in
      let (c, member, bound) =
        matches_contract_probe-IsBound o.workload target
          (o.available.probe (usable-nonempty target usable)) in
      record { usable = usable; observed = o; container = c; member = member; bound = bound }
]
  where
    clash : ◌≢◌ {A = Bool} false true
    clash x = cc
