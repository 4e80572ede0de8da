-- ===== src/Provider/Percona/Users.antt =====
-- internal/provider/v1/percona.go, `perconaApplicationPassword`: the user behind a password Secret.
use Prim.Native.String
use data_product_controller.Prelude.{
  ℕ, suc, ◌+◌, ◌<◌, String, ◌≡◌, ◌≢◌, ◌⊎◌, Bool, true, false, not, ◌&&◌, ◌||◌, Option, none, some,
  List, [], ◌∷◌, if◌then◌else◌, ◌==◌, string_eq, nat_eq, arith, eq_iff, nat_beq_iff, refl, sym, ap,
  subst, inl, inr, Bool-cases, Option-cases, Memᴰ, some_inj,
}
use data_product_controller.Provisioner.{Nested, malformed, absent, present, string_of}
use data_product_controller.Provider.{Node, Resource}
use data_product_controller.Provider.Checks.{
  any-false, refers-false, map-Memᴰ, and-true, not-true, differs,
}
use data_product_controller.Provider.Hybrid.{refers}
use data_product_controller.Provider.Percona.Roles.{IsReadOnly, is_read_only_user-IsReadOnly}
use data_product_controller.Provider.Percona.{
  Tally, system_publication, is_read_only_user, tallied, one_match, users_match, operator_secrets,
  reserved_names, is_application_password,
}

abbrev pub name_of : Node → Option String
name_of user = string_of (user.fields.string_at ("name" ∷ []))

abbrev pub password_of : Node → Option String
password_of user = string_of (user.fields.string_at ("passwordSecretRef" ∷ "name" ∷ []))

abbrev names_secret : String → Option String → Bool
names_secret secret none = false
names_secret secret (some password) = password == secret

-- the number of users with the password Secret
abbrev pub match_count : String → List (Option Node) → ℕ
match_count secret [] = 0
match_count secret (none ∷ users) = match_count secret users
match_count secret (some u ∷ users) =
    let later = match_count secret users in
    if names_secret secret (password_of u) then suc later else later

-- a user with the password Secret that only reads application databases
pub record IsReader (secret : String) (users : List (Option Node)) : Type 0 where
  pub user : Node
  pub member : Memᴰ (some user) users
  pub password : password_of user ≡ some secret
  pub read_only : IsReadOnly user

IsReader-tail :
    {secret : String} {users : List (Option Node)} (u : Option Node)
    → IsReader secret users
    → IsReader secret (u ∷ users)
IsReader-tail u r = record {
  user = r.user;
  member = Memᴰ.tail r.member;
  password = r.password;
  read_only = r.read_only;
}

-- a round that goes on
record Round (secret : String) (t later : Tally) (user : Node) (name password : Option String)
    : Type 0 where
  added :
      ((names_secret secret password ≡ false) × (later.matches ≡ t.matches))
      ⊎ ((password ≡ some secret)
          × (later.matches ≡ t.matches + 1)
          × (is_read_only_user user ≡ true))

tallied-Round :
    (secret : String) (t later : Tally) (user : Node) (name password : Option String)
    → tallied secret t user name password ≡ some later
    → Round secret t later user name password
unfolding tallied
tallied-Round secret t later user none password h = cc
tallied-Round secret t later user (some name) none h = cc
tallied-Round secret t later user (some name) (some password) h =
    elim (Bool-cases (name == "" || t.names name)) [
      | inl bad ↦ absurd (clash (rw bad at h))
      | inr fresh ↦
          elim (Bool-cases (not (password == "") && secret == String.◌++◌ password "-conn-str")) [
            | inl reused ↦ absurd (clash (rw (fresh, reused) at h))
            | inr own ↦ elim (Bool-cases (password == secret)) [
              | inr other ↦ record {
                added = inl (
                  other,
                  ap (λ (x : Tally). x.matches) (sym (some_inj (rw (fresh, own, other) at h))),
                );
              }
              | inl same ↦ elim (Bool-cases (is_read_only_user user)) [
                | inr writes ↦ absurd (clash (rw (fresh, own, same, writes) at h))
                | inl reads ↦ record {
                  added = inr (
                    ap some ((eq_iff password secret).0 same),
                    ap (λ (x : Tally). x.matches)
                        (sym (some_inj (rw (fresh, own, same, reads) at h))),
                    reads,
                  );
                }
              ]
            ]
          ]
    ]
  where
    clash : ◌≢◌ {A = Option Tally} none (some later)
    clash x = cc

-- what the loop shows from a state on
record Matched (secret : String) (matches : ℕ) (users : List (Option Node)) : Type 0 where
  counted : matches + match_count secret users ≡ 1
  reader : (0 < matches) ⊎ IsReader secret users

one_match-Matched :
    (secret : String) (t : Tally) (users : List (Option Node))
    → one_match secret (some t) users ≡ true
    → Matched secret t.matches users
unfolding one_match
one_match-Matched secret t [] h =
    let one = (nat_beq_iff t.matches 1).0 h in
    record { counted = omega (arith, one); reader = inl (omega (arith, one)) }
one_match-Matched secret t (none ∷ users) h = cc
one_match-Matched secret t (some u ∷ users) h =
    elim (Option-cases (tallied secret t u (name_of u) (password_of u))) [
      | inl stopped ↦ absurd (clash (subst (λ x. one_match secret x users ≡ true) stopped h))
      | inr (later, went_on) ↦
          let m =
            one_match-Matched secret later users
              (subst (λ x. one_match secret x users ≡ true) went_on h) in
          elim (tallied-Round secret t later u (name_of u) (password_of u) went_on).added [
            | inl (other, same) ↦ record {
              counted = rw other (omega (arith, m.counted, same));
              reader = elim m.reader [
                | inl before ↦ inl (omega (arith, before, same))
                | inr r ↦ inr (IsReader-tail (some u) r)
              ];
            }
            | inr (named, more, reads) ↦ record {
              counted = rw (hit named) (omega (arith, m.counted, more));
              reader = inr (record {
                user = u;
                member = Memᴰ.head refl;
                password = named;
                read_only = is_read_only_user-IsReadOnly u reads;
              });
            }
          ]
    ]
  where
    clash : one_match secret none users ≢ true
    clash x = cc

    hit : password_of u ≡ some secret → names_secret secret (password_of u) ≡ true
    hit e = rw e ((eq_iff secret secret).1 refl)

-- where a resource refers to the operator's own Secrets
abbrev pub operator_paths : List (List String)
operator_paths =
    ("spec" ∷ "secrets" ∷ "users" ∷ [])
    ∷ ("spec" ∷ "secrets" ∷ "keyFile" ∷ [])
    ∷ ("spec" ∷ "secrets" ∷ "sse" ∷ [])
    ∷ ("spec" ∷ "secrets" ∷ "ssl" ∷ [])
    ∷ ("spec" ∷ "secrets" ∷ "sslInternal" ∷ [])
    ∷ ("spec" ∷ "secrets" ∷ "encryptionKey" ∷ [])
    ∷ ("spec" ∷ "secrets" ∷ "vault" ∷ [])
    ∷ ("spec" ∷ "secrets" ∷ "ldapSecret" ∷ [])
    ∷ ("spec" ∷ "vault" ∷ "tlsSecret" ∷ [])
    ∷ ("spec" ∷ "vault" ∷ "syncUsers" ∷ "tokenSecret" ∷ [])
    ∷ []

-- what the operator appends to the name of a resource
abbrev pub derived_suffixes : List String
derived_suffixes =
    "-databaseadmin-conn-str" ∷ "-custom-user-secret" ∷ "-custom-user-secret-conn-str"
    ∷ "-mongodb-keyfile" ∷ "-mongodb-encryption-key" ∷ "-ssl" ∷ "-ssl-internal" ∷ []

-- the declarations behind a dedicated application password
pub record IsDedicated (r : Resource) (secret : String) : Type 0 where
  pub users : List (Option Node)
  pub declared : r.slice_at ("spec" ∷ "users" ∷ []) ≡ present users
  pub one : match_count secret users ≡ 1
  pub reader : IsReader secret users
  pub not_operator :
      (path : List String)
      → Memᴰ path operator_paths
      → (r.fields.string_at path ≢ malformed) × (string_of (r.fields.string_at path) ≢ some secret)
  pub not_system : secret ≢ "percona-server-mongodb-users"
  pub not_internal : secret ≢ String.◌++◌ "internal-" (String.◌++◌ r.name "-users")
  pub not_derived :
      (suffix : String) → Memᴰ suffix derived_suffixes → secret ≢ String.◌++◌ r.name suffix

users_match-Matched :
    (secret : String) (n : Nested (List (Option Node)))
    → users_match secret n ≡ true
    → (users : List (Option Node)) × (n ≡ present users)
      × (match_count secret users ≡ 1)
      × IsReader secret users
unfolding users_match
users_match-Matched secret malformed h = cc
users_match-Matched secret absent h = cc
users_match-Matched secret (present users) h =
    let m = one_match-Matched secret (record { matches = 0; names = λ _. false }) users h in
    (
      users,
      refl,
      omega (arith, m.counted),
      elim m.reader [ inl before ↦ absurd (omega (arith, before)) | inr r ↦ r ],
    )

pub is_application_password-IsDedicated :
    (r : Resource) (secret : String)
    → is_application_password r secret ≡ true
    → IsDedicated r secret
unfolding is_application_password reserved_names
is_application_password-IsDedicated r secret h =
    let (h0, h1) = and-true _ _ h in
    let (h2, h3) = and-true _ _ h1 in
    let (h4, matched) = and-true _ _ h3 in
    let free = not-true _ h2 in
    let unreserved = not-true _ h4 in
    let unreserved_name : (name : String) → Memᴰ name (reserved_names r.name) → secret ≢ name =
      λ name m same.
        clash (any-false (λ x. secret == x) (reserved_names r.name) unreserved m)
          ((eq_iff secret name).1 same) in
    let (users, declared, one, reader) = users_match-Matched secret _ matched in
    record {
      users = users;
      declared = declared;
      one = one;
      reader = reader;
      not_operator = λ path m.
          refers-false secret (r.fields.string_at path)
            (any-false (λ x. refers secret (r.fields.string_at x)) operator_secrets free m);
      not_system = differs secret system_publication (not-true _ h0);
      not_internal = unreserved_name _ (Memᴰ.head refl);
      not_derived = λ suffix m.
          unreserved_name _ (Memᴰ.tail (map-Memᴰ (String.◌++◌ r.name) derived_suffixes m));
    }
  where
    clash : {b : Bool} → b ≡ false → b ≡ true → ⊥
    clash x y = cc
