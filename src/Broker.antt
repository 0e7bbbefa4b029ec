-- ===== src/Broker.antt =====
-- internal/broker/broker.go: Service.Credential, which answers a pod's projected service account
-- token with the GitHub token of the sandbox's owner. The reviewer, the cluster's objects and the
-- credential provider are calls that carry the state `W` of the world.
pub mod Usernames
pub mod Checks
pub mod Bound
mod Examples
use aksagent_sandbox.Base.{
  ℕ, ◌≡◌, Bool, true, false, not, ◌&&◌, ◌||◌, Option, none, some, String, List, [], ◌∷◌, ltb,
  if◌then◌else◌, Result, ok, err,
}
use aksagent_sandbox.Base.Bytes.{Bytes, codes, bytes_eq, split, strip_prefix, trim_space}
use aksagent_sandbox.Base.Map.{find}

pub record TokenReviewResult : Type 0 where
  pub authenticated : Bool
  pub audiences : List Bytes
  pub username : Bytes
  pub service_account_uid : Bytes
  pub extra : List (String × List Bytes)

pub record ServiceAccountBinding : Type 0 where
  pub uid : Bytes
  pub labels : List (String × Bytes)

pub record PodBinding : Type 0 where
  pub uid : Bytes
  pub service_account_name : Bytes
  pub labels : List (String × Bytes)

pub record SandboxBinding : Type 0 where
  pub uid : Bytes
  pub owner_user_id : Bytes

pub record RequestIdentity : Type 0 where
  pub namespace : Bytes
  pub service_account_name : Bytes
  pub service_account_uid : Bytes
  pub pod_name : Bytes
  pub pod_uid : Bytes
  pub sandbox_name : Bytes
  pub sandbox_uid : Bytes
  pub owner_user_id : Bytes

pub data BrokerError : Type 0 where
  not_configured unauthenticated binding_mismatch unusable_token : BrokerError
  review_failed account_failed pod_failed sandbox_failed credential_failed : ℕ → BrokerError

-- The service: which interfaces are set, the audience, and the calls.
pub record Service (W : Type 0) : Type 0 where
  pub has_reviewer : Bool
  pub has_bindings : Bool
  pub has_credentials : Bool
  pub audience : Bytes
  pub review : Bytes → Bytes → W → Result ℕ TokenReviewResult × W
  pub get_service_account : Bytes → Bytes → W → Result ℕ ServiceAccountBinding × W
  pub get_pod : Bytes → Bytes → W → Result ℕ PodBinding × W
  pub get_dev_sandbox : Bytes → Bytes → W → Result ℕ SandboxBinding × W
  pub access_token : Bytes → W → Result ℕ (Bytes × ℕ) × W
  pub now : W → ℕ

unfoldable pub is_empty : Bytes → Bool
is_empty [] = true
is_empty (_ ∷ _) = false

abbrev pub colon : ℕ
colon = 58

abbrev pub account_prefix : Bytes
account_prefix = codes "system:serviceaccount:"

pub two_parts : List Bytes → Option (Bytes × Bytes)
unfolding is_empty
two_parts (a ∷ b ∷ []) = if is_empty a || is_empty b then none else some (a, b)
two_parts _ = none

pub after_prefix : Option Bytes → Option (Bytes × Bytes)
unfolding two_parts split
after_prefix none = none
after_prefix (some rest) = two_parts (split colon rest)

-- parseServiceAccountUsername
pub parse_service_account_username : Bytes → Option (Bytes × Bytes)
unfolding after_prefix strip_prefix
parse_service_account_username username = after_prefix (strip_prefix account_prefix username)

-- `values` of a missing key is an empty slice.
abbrev pub values_of : Option (List Bytes) → List Bytes
values_of none = []
values_of (some vs) = vs

abbrev pub text_of : Option Bytes → Bytes
text_of none = []
text_of (some v) = v

pub nonempty : Bytes → Option Bytes
nonempty [] = none
nonempty (c ∷ v) = some (c ∷ v)

-- exactlyOne
pub exactly_one : List Bytes → Option Bytes
unfolding nonempty trim_space
exactly_one (v ∷ []) = nonempty (trim_space v)
exactly_one _ = none

pub extra_of : String → TokenReviewResult → List Bytes
unfolding find
extra_of key r = values_of (find key r.extra)

pub label : String → List (String × Bytes) → Bytes
unfolding find
label key labels = text_of (find key labels)

abbrev pub name_label : String
name_label = "devsandbox.io/sandbox"

abbrev pub uid_label : String
uid_label = "devsandbox.io/sandbox-uid"

pub only_audience : Bytes → List Bytes → Bool
unfolding bytes_eq
only_audience audience (a ∷ []) = bytes_eq a audience
only_audience audience _ = false

abbrev no_identity : RequestIdentity
no_identity = record {
  namespace = [];
  service_account_name = [];
  service_account_uid = [];
  pod_name = [];
  pod_uid = [];
  sandbox_name = [];
  sandbox_uid = [];
  owner_user_id = [];
}

abbrev pub reviewed_identity : Bytes → Bytes → Bytes → Bytes → Bytes → RequestIdentity
reviewed_identity ns name uid pod_name pod_uid = record {
  namespace = ns;
  service_account_name = name;
  service_account_uid = uid;
  pod_name = pod_name;
  pod_uid = pod_uid;
  sandbox_name = [];
  sandbox_uid = [];
  owner_user_id = [];
}

abbrev pub bound_identity : RequestIdentity → Bytes → Bytes → Bytes → RequestIdentity
bound_identity id name uid owner = record {
  namespace = id.namespace;
  service_account_name = id.service_account_name;
  service_account_uid = id.service_account_uid;
  pod_name = id.pod_name;
  pod_uid = id.pod_uid;
  sandbox_name = name;
  sandbox_uid = uid;
  owner_user_id = owner;
}

-- The token with its expiry or the error, and the identity as far as it was found.
abbrev pub Answer : Type 0 → Type 0
Answer W = Result BrokerError (Bytes × ℕ) × RequestIdentity × W

pub account_matches : RequestIdentity → ServiceAccountBinding → Bool
unfolding is_empty bytes_eq
account_matches id a = not (is_empty a.uid) && bytes_eq a.uid id.service_account_uid

pub pod_matches : RequestIdentity → PodBinding → Bool
unfolding is_empty bytes_eq
pod_matches id p =
    not (is_empty p.uid)
    && (bytes_eq p.uid id.pod_uid && bytes_eq p.service_account_name id.service_account_name)

pub labels_match : ServiceAccountBinding → Bytes → Bytes → Bool
unfolding is_empty bytes_eq label
labels_match a name uid =
    not (is_empty name)
    && (not (is_empty uid)
        && (bytes_eq (label name_label a.labels) name && bytes_eq (label uid_label a.labels) uid))

pub sandbox_matches : Bytes → SandboxBinding → Bool
unfolding is_empty bytes_eq
sandbox_matches uid s =
    not (is_empty s.uid) && (bytes_eq s.uid uid && not (is_empty s.owner_user_id))

module _ {W : Type 0} (s : Service W) where
  unfoldable pub audience_of : Bytes
  unfolding is_empty
  audience_of = if is_empty s.audience then codes "devsandbox-credential-broker" else s.audience

  pub granted : RequestIdentity → Result ℕ (Bytes × ℕ) × W → Answer W
  unfolding is_empty
  granted id (err e, w) = (err (credential_failed e), id, w)
  granted id (ok (token, expires), w) =
      if is_empty token || not (ltb (s.now w) expires)
      then (err unusable_token, id, w)
      else (ok (token, expires), id, w)

  pub with_sandbox : RequestIdentity → Bytes → Bytes → Result ℕ SandboxBinding × W → Answer W
  unfolding granted sandbox_matches
  with_sandbox id name uid (err e, w) = (err (sandbox_failed e), id, w)
  with_sandbox id name uid (ok b, w) =
      if sandbox_matches uid b
      then granted (bound_identity id name uid b.owner_user_id) (s.access_token b.owner_user_id w)
      else (err binding_mismatch, id, w)

  pub with_labels : RequestIdentity → ServiceAccountBinding → Bytes → Bytes → W → Answer W
  unfolding with_sandbox labels_match
  with_labels id a name uid w =
      if labels_match a name uid
      then with_sandbox id name uid (s.get_dev_sandbox id.namespace name w)
      else (err binding_mismatch, id, w)

  pub with_pod : RequestIdentity → ServiceAccountBinding → Result ℕ PodBinding × W → Answer W
  unfolding with_labels pod_matches label
  with_pod id a (err e, w) = (err (pod_failed e), id, w)
  with_pod id a (ok p, w) =
      if pod_matches id p
      then with_labels id a (label name_label p.labels) (label uid_label p.labels) w
      else (err binding_mismatch, id, w)

  pub with_account : RequestIdentity → Result ℕ ServiceAccountBinding × W → Answer W
  unfolding with_pod account_matches
  with_account id (err e, w) = (err (account_failed e), id, w)
  with_account id (ok a, w) =
      if account_matches id a
      then with_pod id a (s.get_pod id.namespace id.pod_name w)
      else (err binding_mismatch, id, w)

  pub with_pod_claims : Bytes → Bytes → Bytes → Option Bytes → Option Bytes → W → Answer W
  unfolding with_account
  with_pod_claims ns name uid (some pod_name) (some pod_uid) w =
      with_account (reviewed_identity ns name uid pod_name pod_uid)
        (s.get_service_account ns name w)
  with_pod_claims ns name uid _ _ w = (err binding_mismatch, no_identity, w)

  pub with_username : TokenReviewResult → Option (Bytes × Bytes) → W → Answer W
  unfolding with_pod_claims is_empty exactly_one extra_of
  with_username r none w = (err unauthenticated, no_identity, w)
  with_username r (some (ns, name)) w =
      if is_empty r.service_account_uid
      then (err unauthenticated, no_identity, w)
      else with_pod_claims ns name r.service_account_uid
          (exactly_one (extra_of "authentication.kubernetes.io/pod-name" r))
          (exactly_one (extra_of "authentication.kubernetes.io/pod-uid" r)) w

  pub with_review : Result ℕ TokenReviewResult × W → Answer W
  unfolding with_username only_audience parse_service_account_username audience_of
  with_review (err e, w) = (err (review_failed e), no_identity, w)
  with_review (ok r, w) =
      if r.authenticated && only_audience audience_of r.audiences
      then with_username r (parse_service_account_username r.username) w
      else (err unauthenticated, no_identity, w)

  -- Service.Credential
  pub credential : Bytes → W → Answer W
  unfolding with_review is_empty audience_of
  credential token w =
      if not s.has_reviewer || not s.has_bindings || not s.has_credentials
      then (err not_configured, no_identity, w)
      else if is_empty token
      then (err unauthenticated, no_identity, w)
      else with_review (s.review token audience_of w)
