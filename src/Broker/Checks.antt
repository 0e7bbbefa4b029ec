-- ===== src/Broker/Checks.antt =====
-- internal/broker/broker.go: what each check of the broker establishes.
use aksagent_sandbox.Base.{ℕ, ◌<◌, ◌≡◌, ap, ◌++◌, true, false, ◌&&◌, some, List, [], ◌∷◌, arith, ok}
use aksagent_sandbox.Base.Bytes.{Bytes, bytes_eq→eq}
use aksagent_sandbox.Broker.{
  TokenReviewResult, ServiceAccountBinding, PodBinding, SandboxBinding, RequestIdentity, Service,
  is_empty, exactly_one, extra_of, label, name_label, uid_label, only_audience, account_matches,
  pod_matches, labels_match, sandbox_matches, audience_of, account_prefix, colon,
}

module _ {W : Type 0} (s : Service W) where
  open s use {review, get_service_account, get_pod, get_dev_sandbox, access_token, now}

  -- The review of the token names the service account and the pod, for this audience only.
  pub record IsReviewed (token ns name uid pod_name pod_uid : Bytes) (w w' : W) : Type 0 where
    pub result : TokenReviewResult
    pub is_review : review token (audience_of s) w ≡ (ok result, w')
    pub is_authenticated : result.authenticated ≡ true
    pub is_audience : result.audiences ≡ audience_of s ∷ []
    pub is_username : result.username ≡ account_prefix ++ (ns ++ colon ∷ name)
    pub is_uid : result.service_account_uid ≡ uid
    pub is_pod_name :
        exactly_one (extra_of "authentication.kubernetes.io/pod-name" result) ≡ some pod_name
    pub is_pod_uid :
        exactly_one (extra_of "authentication.kubernetes.io/pod-uid" result) ≡ some pod_uid

  -- The stored service account is the one reviewed.
  pub record IsAccount (ns name uid : Bytes) (account : ServiceAccountBinding) (w w' : W)
      : Type 0 where
    pub is_read : get_service_account ns name w ≡ (ok account, w')
    pub is_uid : account.uid ≡ uid

  -- The stored pod is the one reviewed, and it runs as that service account.
  pub record IsPod (ns account_name name uid : Bytes) (pod : PodBinding) (w w' : W) : Type 0 where
    pub is_read : get_pod ns name w ≡ (ok pod, w')
    pub is_uid : pod.uid ≡ uid
    pub is_account : pod.service_account_name ≡ account_name

  -- The pod and the account carry the labels of one sandbox, which is stored with that UID and has
  -- the owner.
  pub record IsSandbox (ns name uid owner : Bytes) (account : ServiceAccountBinding)
      (pod : PodBinding) (w w' : W) : Type 0 where
    pub sandbox : SandboxBinding
    pub is_read : get_dev_sandbox ns name w ≡ (ok sandbox, w')
    pub is_uid : sandbox.uid ≡ uid
    pub is_owner : sandbox.owner_user_id ≡ owner
    pub pod_name : label name_label pod.labels ≡ name
    pub pod_uid : label uid_label pod.labels ≡ uid
    pub account_name : label name_label account.labels ≡ name
    pub account_uid : label uid_label account.labels ≡ uid

  pub record IsGranted (request : Bytes) (w : W) (token : Bytes) (expires : ℕ)
      (id : RequestIdentity) (w' : W) : Type 0 where
    pub account : ServiceAccountBinding
    pub pod : PodBinding
    pub w1 : W
    pub w2 : W
    pub w3 : W
    pub w4 : W
    pub reviewed :
        IsReviewed request id.namespace id.service_account_name id.service_account_uid id.pod_name
          id.pod_uid w w1
    pub is_account :
        IsAccount id.namespace id.service_account_name id.service_account_uid account w1 w2
    pub is_pod : IsPod id.namespace id.service_account_name id.pod_name id.pod_uid pod w2 w3
    pub is_sandbox :
        IsSandbox id.namespace id.sandbox_name id.sandbox_uid id.owner_user_id account pod w3 w4
    pub has_owner : is_empty id.owner_user_id ≡ false
    pub issued : access_token id.owner_user_id w4 ≡ (ok (token, expires), w')
    pub nonempty : is_empty token ≡ false
    pub unexpired : now w' < expires

  pub account_uid_of :
      (id : RequestIdentity) (a : ServiceAccountBinding)
      → account_matches id a ≡ true
      → a.uid ≡ id.service_account_uid
  unfolding account_matches
  account_uid_of id a h = ground (arith, bytes_eq→eq a.uid id.service_account_uid)

  pub pod_of :
      (id : RequestIdentity) (p : PodBinding)
      → pod_matches id p ≡ true
      → (p.uid ≡ id.pod_uid) × (p.service_account_name ≡ id.service_account_name)
  unfolding pod_matches
  pod_of id p h = ground (
    arith,
    bytes_eq→eq p.uid id.pod_uid,
    bytes_eq→eq p.service_account_name id.service_account_name,
  )

  pub labels_of :
      (a : ServiceAccountBinding) (name uid : Bytes)
      → labels_match a name uid ≡ true
      → (label name_label a.labels ≡ name) × (label uid_label a.labels ≡ uid)
  unfolding labels_match
  labels_of a name uid h = ground (
    arith,
    bytes_eq→eq (label name_label a.labels) name,
    bytes_eq→eq (label uid_label a.labels) uid,
  )

  pub sandbox_of :
      (uid : Bytes) (b : SandboxBinding)
      → sandbox_matches uid b ≡ true
      → (b.uid ≡ uid) × (is_empty b.owner_user_id ≡ false)
  unfolding sandbox_matches
  sandbox_of uid b h = ground (arith, bytes_eq→eq b.uid uid)

  pub audience_is :
      (audience : Bytes) (rest : List Bytes)
      → only_audience audience rest ≡ true
      → rest ≡ audience ∷ []
  unfolding only_audience
  audience_is audience [] h = cc
  audience_is audience (a ∷ []) h = ap (λ x. x ∷ []) (bytes_eq→eq a audience h)
  audience_is audience (a ∷ b ∷ rest) h = cc

  pub review_of :
      (r : TokenReviewResult)
      → r.authenticated && only_audience (audience_of s) r.audiences ≡ true
      → (r.authenticated ≡ true) × (r.audiences ≡ audience_of s ∷ [])
  review_of r h = ground (arith, audience_is (audience_of s) r.audiences)
