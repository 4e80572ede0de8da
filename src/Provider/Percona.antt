-- ===== src/Provider/Percona.antt =====
-- internal/provider/v1/percona.go: the observation of a PerconaServerMongoDB, and the declarations of
-- the application user whose password Secret is published.
pub mod Roles
pub mod Users
pub mod Published
mod Tests
use Prim.Native.String
use data_product_controller.Prelude.{
  ℕ, suc, ◌+◌, String, ℤ, pos, Bool, true, false, not, ◌&&◌, ◌||◌, Option, none, some, List, [],
  ◌∷◌, if◌then◌else◌, any, is_empty, ◌==◌, string_eq, int_eq, nat_eq, leb_ℤ, update,
}
use data_product_controller.Kube.{ObjectKey}
use data_product_controller.Api.{ProvisionedSource}
use data_product_controller.Connector.{Observation}
use data_product_controller.Provisioner.{
  Nested, malformed, absent, present, Owner, is_current, string_of, holds,
}
use data_product_controller.Provider.{
  Fields, Node, Resource, Secret, Kind, Reader, Check, go, stop, ◌>>=◌, ◌>>◌, require,
  conclude_checks, read_or_stop, reader_or_stop, selects, counts, int_of,
}
use data_product_controller.Provider.Hybrid.{refers}

abbrev pub percona_kind : Kind
percona_kind = record { api_version = "psmdb.percona.com/v1"; kind = "PerconaServerMongoDB" }

abbrev pub system_publication : String
system_publication = "percona-server-mongodb-users"

-- perconaFalse
pub is_false : Nested Bool → Bool
is_false malformed = false
is_false absent = true
is_false (present b) = not b

-- perconaInvalid
unfoldable pub invalid {ℓ} : {A : Type ℓ} → Check A
invalid =
    stop "SourceInvalid"
      "Use one managed, unsharded replica set with positive size and no arbiter, non-voting, hidden or external members."

unfoldable pub require_valid : Bool → Check (Unit {0})
unfolding invalid
require_valid true = go tt
require_valid false = invalid

-- perconaNotReady
unfoldable pub require_ready : Bool → Check (Unit {0})
unfolding require
require_ready test =
    require test "SourceNotReady"
      "The source must report ready with every requested replica ready; inspect its status."

unfoldable pub not_paused : Nested Bool → Check (Unit {0})
unfolding invalid
not_paused malformed = invalid
not_paused absent = go tt
not_paused (present false) = go tt
not_paused (present true) =
    stop "SourcePaused" "Resume the externally operated source before using this product."

-- the one replica set
unfoldable pub one_replica : Nested (List (Option Node)) → Check Node
unfolding invalid
one_replica (present (some replica ∷ [])) = go replica
one_replica _ = invalid

pub is_none_listed : {A : Type 0} → Nested (List A) → Bool
is_none_listed malformed = false
is_none_listed absent = true
is_none_listed (present items) = is_empty items

-- a nested string that is there and not empty
pub is_named : Nested String → Bool
is_named n = not (holds n "") && has_value n
  where
    has_value : Nested String → Bool
    has_value malformed = false
    has_value absent = true
    has_value (present s) = true

-- a replica set without special members
pub is_plain_replica : Node → Bool
unfolding is_false is_none_listed is_named
is_plain_replica replica =
    is_false (replica.fields.bool_at ("arbiter" ∷ "enabled" ∷ []))
    && (is_false (replica.fields.bool_at ("nonvoting" ∷ "enabled" ∷ []))
        && (is_false (replica.fields.bool_at ("hidden" ∷ "enabled" ∷ []))
            && (is_none_listed (replica.slice_at ("externalNodes" ∷ []))
                && is_named (replica.fields.string_at ("name" ∷ [])))))

-- the declared size, which is positive
unfoldable pub positive_size : Option ℤ → Check ℤ
unfolding invalid
positive_size none = invalid
positive_size (some n) = if leb_ℤ n (pos 0) then invalid else go n

-- perconaReadiness
unfoldable pub percona_readiness : Resource → Check (Unit {0})
percona_readiness r = do
  require (holds (r.fields.string_at ("spec" ∷ "crVersion" ∷ [])) "1.23.0")
      "SourceVersionUnsupported"
      "Use the supported Percona 1.23.0 resource profile and operator installation."
  not_paused (r.fields.bool_at ("spec" ∷ "pause" ∷ []))
  require_valid (
      not (r.uid == "")
      && (is_false (r.fields.bool_at ("spec" ∷ "unmanaged" ∷ []))
          && is_false (r.fields.bool_at ("spec" ∷ "sharding" ∷ "enabled" ∷ []))))
  replica ← one_replica (r.slice_at ("spec" ∷ "replsets" ∷ []))
  require_valid (is_plain_replica replica)
  desired ← positive_size (int_of (replica.fields.int_at ("size" ∷ [])))
  require (not (holds (r.fields.string_at ("status" ∷ "state" ∷ [])) "error")) "SourceFailed"
      "The operator reports a source error; inspect the independently operated source."
  require_ready (
      holds (r.fields.string_at ("status" ∷ "state" ∷ [])) "ready"
      && (is_current r.generation (r.fields.int_at ("status" ∷ "observedGeneration" ∷ []))
          && (counts (r.fields.int_at ("status" ∷ "size" ∷ [])) desired
              && counts (r.fields.int_at ("status" ∷ "ready" ∷ [])) desired)))

-- a role that only reads an application database
pub is_read_role : Option Fields → Bool
is_read_role none = false
is_read_role (some role) =
    holds (role.string_at ("name" ∷ [])) "read"
    && is_application_database (string_of (role.string_at ("db" ∷ [])))
  where
    is_application_database : Option String → Bool
    is_application_database none = false
    is_application_database (some db) =
        not
          (db == "" || (db == "admin" || (db == "local" || (db == "config" || db == "$external"))))

pub every_role : List (Option Fields) → Bool
unfolding is_read_role
every_role [] = true
every_role (role ∷ roles) = is_read_role role && every_role roles

pub are_read_roles : Nested (List (Option Fields)) → Bool
unfolding every_role
are_read_roles malformed = false
are_read_roles absent = false
are_read_roles (present roles) = not (is_empty roles) && every_role roles

pub is_application_name : Option String → Bool
is_application_name none = false
is_application_name (some name) = not (
    any (λ reserved. name == reserved)
      ("" ∷ "clusterAdmin" ∷ "clusterMonitor" ∷ "databaseAdmin" ∷ "userAdmin" ∷ "backup"
        ∷ "operator" ∷ "internal" ∷ []))

pub is_auth_database : Option String → Bool
is_auth_database none = false
is_auth_database (some db) = not (db == "" || db == "$external")

-- perconaReadOnlyUser
pub is_read_only_user : Node → Bool
unfolding is_application_name is_auth_database are_read_roles
is_read_only_user user =
    is_application_name (string_of (user.fields.string_at ("name" ∷ [])))
    && (is_auth_database (string_of (user.fields.string_at ("db" ∷ [])))
        && are_read_roles (user.slice_at ("roles" ∷ [])))

-- the state of the loop over the users: the matches, and the names so far
pub record Tally : Type 0 where
  pub matches : ℕ
  pub names : String → Bool

-- one round of the loop behind the reads of the name and of the password: `none` is `return false`
pub tallied : String → Tally → Node → Option String → Option String → Option Tally
unfolding is_read_only_user
tallied secret t user none password = none
tallied secret t user (some name) none = none
tallied secret t user (some name) (some password) =
    if name == "" || t.names name
    then none
    else if not (password == "") && secret == String.◌++◌ password "-conn-str"
    then none
    else if not (password == secret)
    then some (record { matches = t.matches; names = update t.names name true })
    else if not (is_read_only_user user)
    then none
    else some (record { matches = t.matches + 1; names = update t.names name true })

-- the loop, and `matches == 1`
pub one_match : String → Option Tally → List (Option Node) → Bool
unfolding tallied
one_match secret none users = false
one_match secret (some t) [] = t.matches == 1
one_match secret (some t) (none ∷ users) = false
one_match secret (some t) (some user ∷ users) =
    one_match secret
      (tallied secret t user (string_of (user.fields.string_at ("name" ∷ [])))
        (string_of (user.fields.string_at ("passwordSecretRef" ∷ "name" ∷ []))))
      users

pub users_match : String → Nested (List (Option Node)) → Bool
unfolding one_match
users_match secret malformed = false
users_match secret absent = false
users_match secret (present users) =
    one_match secret (some (record { matches = 0; names = λ _. false })) users

abbrev pub operator_secrets : List (List String)
operator_secrets =
    ("spec" ∷ "secrets" ∷ "users" ∷ [])
    ∷ ("spec" ∷ "secrets" ∷ "keyFile" ∷ [])
    ∷ ("spec" ∷ "secrets" ∷ "sse" ∷ [])
    ∷ ("spec" ∷ "secrets" ∷ "ssl" ∷ [])
    ∷ ("spec" ∷ "secrets" ∷ "sslInternal" ∷ [])
    ∷ ("spec" ∷ "secrets" ∷ "encryptionKey" ∷ [])
    ∷ ("spec" ∷ "secrets" ∷ "vault" ∷ [])
    ∷ ("spec" ∷ "secrets" ∷ "ldapSecret" ∷ [])
    ∷ ("spec" ∷ "vault" ∷ "tlsSecret" ∷ [])
    ∷ ("spec" ∷ "vault" ∷ "syncUsers" ∷ "tokenSecret" ∷ [])
    ∷ []

-- the names that the operator derives from the Cluster's
pub reserved_names : String → List String
reserved_names name =
    String.◌++◌ "internal-" (String.◌++◌ name "-users")
    ∷ String.◌++◌ name "-databaseadmin-conn-str"
    ∷ String.◌++◌ name "-custom-user-secret"
    ∷ String.◌++◌ name "-custom-user-secret-conn-str"
    ∷ String.◌++◌ name "-mongodb-keyfile"
    ∷ String.◌++◌ name "-mongodb-encryption-key"
    ∷ String.◌++◌ name "-ssl"
    ∷ String.◌++◌ name "-ssl-internal"
    ∷ []

-- perconaApplicationPassword
pub is_application_password : Resource → String → Bool
unfolding users_match
is_application_password r secret =
    not (secret == system_publication)
    && (not (any (λ path. refers secret (r.fields.string_at path)) operator_secrets)
        && (not (any (λ reserved. secret == reserved) (reserved_names r.name))
            && users_match secret (r.slice_at ("spec" ∷ "users" ∷ []))))

pub is_percona_owner : Resource → Owner → Bool
is_percona_owner r o =
    o.api_version == "psmdb.percona.com/v1"
    && (o.kind == "PerconaServerMongoDB" && (o.name == r.name && o.uid == r.uid))

-- the guard on the source
pub is_percona_source : String → ProvisionedSource → Bool
is_percona_source namespace s =
    not (namespace == "")
    && (not (s.resource_ref.name == "")
        && (s.resource_ref.api_version == "psmdb.percona.com/v1"
            && (s.resource_ref.kind == "PerconaServerMongoDB"
                && (s.adapter == "percona-mongodb/v1"
                    && (selects s.engine "document" "native"
                        && not (
                            s.connection_secret_ref.name == ""
                            || s.connection_secret_ref.name == system_publication))))))

unfoldable pub percona_checks : Option Reader → String → ProvisionedSource → Check String
unfolding is_percona_owner
percona_checks reader namespace s = do
  require (is_percona_source namespace s) "SourceInvalid"
      "Use document/native with percona-mongodb/v1, a same-namespace PerconaServerMongoDB and a dedicated application password Secret."
  k ← reader_or_stop reader
  cluster ←
      read_or_stop
        (k.get_source percona_kind (record { namespace = namespace; name = s.resource_ref.name }))
        "SourceNotFound"
        "Install the supported Percona operator and create the referenced PerconaServerMongoDB in this product's namespace."
  require (not cluster.deleting) "SourceDeleting"
      "The source is being deleted; restore or replace its reference."
  percona_readiness cluster
  require (is_application_password cluster s.connection_secret_ref.name)
      "ConnectionPublicationUnsupported"
      "Bind a dedicated password Secret to exactly one custom application user with only read roles on application databases."
  secret ←
      read_or_stop
        (k.get_secret (record { namespace = namespace; name = s.connection_secret_ref.name }))
        "ConnectionNotPublished"
        "Publish the referenced application password Secret with an owner reference to the current source."
  require (not secret.deleting) "ConnectionNotPublished"
      "The connection Secret is being deleted; wait for its publisher."
  require (any (is_percona_owner cluster) secret.owners) "ConnectionOwnerMismatch"
      "The application password Secret must reference the current PerconaServerMongoDB; wait for its publisher to reconcile."
  go "The Document provider is ready and its declared application password Secret is published."

-- Observe of PerconaMongoDB
unfoldable pub observe_percona : Option Reader → String → ProvisionedSource → Observation
unfolding percona_checks
observe_percona reader namespace s = conclude_checks (percona_checks reader namespace s)
