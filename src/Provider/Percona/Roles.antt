-- ===== src/Provider/Percona/Roles.antt =====
-- internal/provider/v1/percona.go, `perconaReadOnlyUser`: what a user that only reads is.
use mathlib.Core.List.Memᴰ
use data_product_controller.Prelude.{
  String, ◌≡◌, ◌≢◌, Bool, true, false, not, Option, none, some, List, [], ◌∷◌, ◌==◌, ◌||◌, ◌&&◌,
  string_eq, arith, eq_iff, inl, inr, Option-cases, Memᴰ, refl, sym, subst,
}
use data_product_controller.Provisioner.{Nested, malformed, absent, present, string_of, holds}
use data_product_controller.Provider.{Fields, Node}
use data_product_controller.Provider.Checks.{any-false, holds-string_of, not-true, and-true}
use data_product_controller.Provider.Percona.{
  is_read_role, every_role, are_read_roles, is_application_name, is_auth_database,
  is_read_only_user,
}

-- a role that reads one application database
pub record IsReadRole (role : Option Fields) : Type 0 where
  pub fields : Fields
  pub object : role ≡ some fields
  pub reads : string_of (fields.string_at ("name" ∷ [])) ≡ some "read"
  pub database : String
  pub on : string_of (fields.string_at ("db" ∷ [])) ≡ some database
  pub named : database ≢ ""
  pub not_admin : database ≢ "admin"
  pub not_local : database ≢ "local"
  pub not_config : database ≢ "config"
  pub not_external : database ≢ "$external"

-- the names that no application user has
abbrev pub reserved_users : List String
reserved_users =
    "" ∷ "clusterAdmin" ∷ "clusterMonitor" ∷ "databaseAdmin" ∷ "userAdmin" ∷ "backup" ∷ "operator"
    ∷ "internal" ∷ []

-- a user that only has explicit read roles, on application databases
pub record IsReadOnly (user : Node) : Type 0 where
  pub name : String
  pub named : string_of (user.fields.string_at ("name" ∷ [])) ≡ some name
  pub application : (reserved : String) → Memᴰ reserved reserved_users → name ≢ reserved
  pub database : String
  pub authenticated : string_of (user.fields.string_at ("db" ∷ [])) ≡ some database
  pub database_named : database ≢ ""
  pub not_external : database ≢ "$external"
  pub roles : List (Option Fields)
  pub declared : user.slice_at ("roles" ∷ []) ≡ present roles
  pub some_role : roles ≢ []
  pub reads : (role : Option Fields) → Memᴰ role roles → IsReadRole role

is_read_role-IsReadRole : (role : Option Fields) → is_read_role role ≡ true → IsReadRole role
unfolding is_read_role
is_read_role-IsReadRole none h = cc
is_read_role-IsReadRole (some role) h =
    elim (Option-cases (string_of (role.string_at ("db" ∷ [])))) [
      | inl missing ↦ absurd (clash (role.string_at ("name" ∷ [])) (rw missing at h))
      | inr (db, at_db) ↦ on_database db at_db (rw at_db at h)
    ]
  where
    clash : (n : Nested String) → (holds n "read" && false) ≢ true
    clash n e = ground (arith, e)

    on_database :
        (db : String)
        → string_of (role.string_at ("db" ∷ [])) ≡ some db
        → (holds (role.string_at ("name" ∷ [])) "read"
            && not (
                db == ""
                || (db == "admin" || (db == "local" || (db == "config" || db == "$external")))))
          ≡ true
        → IsReadRole (some role)
    on_database db at_db k = record {
      fields = role;
      object = refl;
      reads = holds-string_of (role.string_at ("name" ∷ [])) "read" (ground arith);
      database = db;
      on = at_db;
      named = λ e. ground (arith, eq_iff db "");
      not_admin = λ e. ground (arith, eq_iff db "admin");
      not_local = λ e. ground (arith, eq_iff db "local");
      not_config = λ e. ground (arith, eq_iff db "config");
      not_external = λ e. ground (arith, eq_iff db "$external");
    }

every_role-IsReadRole :
    (roles : List (Option Fields)) (role : Option Fields)
    → every_role roles ≡ true
    → Memᴰ role roles
    → IsReadRole role
unfolding every_role
every_role-IsReadRole [] role h m = absurd (Memᴰ.not-nil m)
every_role-IsReadRole (r ∷ roles) role h m = elim (Memᴰ.cases_cons m) [
  | inl e ↦ subst IsReadRole (sym e) (is_read_role-IsReadRole r (ground arith))
  | inr later ↦ every_role-IsReadRole roles role (ground arith) later
]

are_read_roles-IsReadRole :
    (n : Nested (List (Option Fields)))
    → are_read_roles n ≡ true
    → (roles : List (Option Fields)) × (n ≡ present roles)
      × (roles ≢ [])
      × ((role : Option Fields) → Memᴰ role roles → IsReadRole role)
unfolding are_read_roles
are_read_roles-IsReadRole malformed h = cc
are_read_roles-IsReadRole absent h = cc
are_read_roles-IsReadRole (present []) h = absurd (clash h)
  where
    clash : are_read_roles (present []) ≢ true
    clash e = cc
are_read_roles-IsReadRole (present (r ∷ roles)) h =
    (r ∷ roles, refl, (λ e. cc), λ role m. every_role-IsReadRole (r ∷ roles) role (ground arith) m)

is_application_name-free :
    (o : Option String)
    → is_application_name o ≡ true
    → (name : String) × (o ≡ some name)
      × ((reserved : String) → Memᴰ reserved reserved_users → name ≢ reserved)
unfolding is_application_name
is_application_name-free none h = cc
is_application_name-free (some name) h = (
  name,
  refl,
  λ reserved m same.
      clash (any-false (λ r. name == r) reserved_users (not-true _ h) m)
        ((eq_iff name reserved).1 same),
)
  where
    clash : {b : Bool} → b ≡ false → b ≡ true → ⊥
    clash x y = cc

is_auth_database-named :
    (o : Option String)
    → is_auth_database o ≡ true
    → (db : String) × (o ≡ some db) × (db ≢ "") × (db ≢ "$external")
unfolding is_auth_database
is_auth_database-named none h = cc
is_auth_database-named (some db) h =
    (db, refl, (λ e. ground (arith, eq_iff db "")), (λ e. ground (arith, eq_iff db "$external")))

pub is_read_only_user-IsReadOnly : (user : Node) → is_read_only_user user ≡ true → IsReadOnly user
unfolding is_read_only_user
is_read_only_user-IsReadOnly user h =
    let (h1, others) = and-true _ _ h in
    let (h2, h3) = and-true _ _ others in
    let (name, named, application) = is_application_name-free _ h1 in
    let (db, authenticated, database_named, not_external) = is_auth_database-named _ h2 in
    let (roles, declared, some_role, reads) = are_read_roles-IsReadRole _ h3 in
    record {
      name = name;
      named = named;
      application = application;
      database = db;
      authenticated = authenticated;
      database_named = database_named;
      not_external = not_external;
      roles = roles;
      declared = declared;
      some_role = some_role;
      reads = reads;
    }
