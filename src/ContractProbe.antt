-- ===== src/ContractProbe.antt =====
-- internal/contractprobe/service.go: the contract probe. url.Parse, http.NewRequestWithContext and
-- the HTTP client are parameters (`Network`); a body is its length, and whether and how its read
-- fails.
pub mod Fetch
pub mod Service
pub mod Views
pub mod Moves
pub mod Snapshot
pub mod Release
mod Tests
use text.Mathlib.Text.{find?}
use data_product_controller.Prelude.{
  ℕ, suc, ◌+◌, String, ℤ, pos, Bool, true, false, not, ◌&&◌, ◌||◌, Option, none, some, List, [],
  ◌∷◌, if◌then◌else◌, any, is_some, ltb, nat_beq, ◌==◌, string_eq, int_eq, leb_ℤ, is_empty,
}
use data_product_controller.Controller.Version.{codes}

-- url.URL
pub record Url : Type 0 where
  pub scheme : String
  pub hostname : String
  pub has_user : Bool
  pub raw_query : String
  pub force_query : Bool
  pub fragment : String
  pub opaque : String

-- a response body: `fails` where its read ends in an error, which may come with the last bytes
pub record Body : Type 0 where
  pub length : ℕ
  pub fails : Bool
  pub fails_with_last : Bool

pub record Response : Type 0 where
  pub status_code : ℕ
  pub encodings : List String
  pub content_length : ℤ
  pub body : Body

pub record Network : Type 0 where
  pub parse : String → Option Url
  pub is_requestable : String → Bool
  pub do_request : String → Option Response

abbrev pub limit : ℕ
limit = 1048576

-- io.Copy to io.Discard through an io.LimitReader: the bytes, and whether it fails
abbrev pub copied : ℕ → Body → ℕ × Bool
copied bound body =
    if ltb body.length bound
    then (body.length, body.fails)
    else (bound, nat_beq body.length bound && (body.fails && body.fails_with_last))

-- the checks of the target
unfoldable pub is_valid_target : String → Url → Bool
is_valid_target target u =
    u.scheme == "https"
    && (not (u.hostname == "")
        && (not u.has_user
            && (not (is_some (find? target "$("))
                && (not (any (λ c. nat_beq c b'#' || nat_beq c 92) (codes target))
                    && (u.raw_query == ""
                        && (not u.force_query && (u.fragment == "" && u.opaque == "")))))))

-- no Content-Encoding, or one that is the identity
unfoldable pub is_identity : List String → Bool
is_identity [] = true
is_identity (encoding ∷ []) = encoding == "identity"
is_identity (_ ∷ _ ∷ _) = false

-- what follows the copy
unfoldable pub sized_result : ℕ × Bool → String
sized_result (size, true) = "ContractUnavailable"
sized_result (size, false) =
    if nat_beq size 0 || ltb limit size then "ContractInvalidResponse" else "ContractReachable"

-- what follows the request
unfoldable pub response_result : Option Response → String
response_result none = "ContractUnavailable"
response_result (some r) =
    if not (nat_beq r.status_code 200)
    then "ContractUnavailable"
    else if not (leb_ℤ r.content_length (pos limit)) || not (is_identity r.encodings)
    then "ContractInvalidResponse"
    else sized_result (copied (limit + 1) r.body)

unfoldable pub target_result : Network → String → Option Url → String
target_result k target none = "ContractConfigurationInvalid"
target_result k target (some u) =
    if not (is_valid_target target u) || not (k.is_requestable target)
    then "ContractConfigurationInvalid"
    else response_result (k.do_request target)

-- fetch
unfoldable pub fetch : Network → String → String
fetch k target = target_result k target (k.parse target)

-- the reason that `readiness` starts from; a feature gate that is nil is off
unfoldable pub judged_reason : Option Bool → Network → String → String
judged_reason (some true) k target = fetch k target
judged_reason _ k target = "FeatureDisabled"

-- http.Request
pub record Request : Type 0 where
  pub method : String
  pub raw_query : String
  pub force_query : Bool
  pub content_length : ℤ
  pub transfer_encoding : List String
  pub path : String

-- what a request ends in: an error with its status, or one of the endpoints
pub data Handled : Type 0 where
  rejected : ℕ → String → Handled
  healthy metrics readiness missing : Handled

pub endpoint : String → Handled
endpoint path =
    if path == "/healthz"
    then healthy
    else if path == "/metrics"
    then metrics
    else if path == "/readyz"
    then readiness
    else missing

-- ServeHTTP
unfoldable pub serve : Request → Handled
unfolding endpoint
serve r =
    if not (r.method == "GET")
    then rejected 405 "ReadOnly"
    else if not (r.raw_query == "")
        || (r.force_query
            || (not (r.content_length == pos 0) || not (is_empty r.transfer_encoding)))
    then rejected 400 "QueryParametersAndBodiesNotSupported"
    else endpoint r.path
