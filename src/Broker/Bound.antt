-- ===== src/Broker/Bound.antt =====
-- internal/broker/broker.go: what the broker has checked when it gives out a token.
use mathlib.Core.Path.{subst}
use aksagent_sandbox.Base.{
  ℕ, ◌≡◌, refl, true, false, ◌&&◌, Option, none, some, [], ◌∷◌, Bool-cases, inl, inr, arith, ltb,
  ltb→lt, Result, ok, err,
}
use aksagent_sandbox.Base.Bytes.{Bytes}
use aksagent_sandbox.Broker.{
  TokenReviewResult, ServiceAccountBinding, PodBinding, SandboxBinding, RequestIdentity, Service,
  Answer, is_empty, exactly_one, extra_of, label, name_label, uid_label, only_audience,
  account_matches, pod_matches, labels_match, sandbox_matches, audience_of, granted, with_sandbox,
  with_labels, with_pod, with_account, with_pod_claims, with_username, with_review, credential,
  bound_identity, reviewed_identity, parse_service_account_username,
}
use aksagent_sandbox.Broker.Usernames.{parse_iff}
use aksagent_sandbox.Broker.Checks.{
  IsReviewed, IsAccount, IsPod, IsSandbox, IsGranted, account_uid_of, pod_of, labels_of, sandbox_of,
  review_of,
}

module _ {W : Type 0} (s : Service W) where
  open s use {review, get_service_account, get_pod, get_dev_sandbox, access_token, now}

  module _ (request : Bytes) (w : W) where
    abbrev Granted : Answer W → Type 0
    Granted (err e, id, w') = Unit {0}
    Granted (ok (token, expires), id, w') = IsGranted s request w token expires id w'

    granted-Granted :
        (id : RequestIdentity) (account : ServiceAccountBinding) (pod : PodBinding)
        (w1 w2 w3 w4 : W) (p : Result ℕ (Bytes × ℕ) × W)
        → access_token id.owner_user_id w4 ≡ p
        → is_empty id.owner_user_id ≡ false
        → IsReviewed s request id.namespace id.service_account_name id.service_account_uid
            id.pod_name id.pod_uid w w1
        → IsAccount s id.namespace id.service_account_name id.service_account_uid account w1 w2
        → IsPod s id.namespace id.service_account_name id.pod_name id.pod_uid pod w2 w3
        → IsSandbox s id.namespace id.sandbox_name id.sandbox_uid id.owner_user_id account pod w3 w4
        → Granted (granted s id p)
    unfolding granted
    granted-Granted id account pod w1 w2 w3 w4 (err e, w') h o r a q b = tt
    granted-Granted id account pod w1 w2 w3 w4 (ok (token, expires), w') h o r a q b =
        elim (Bool-cases (is_empty token)) [
          | inl e ↦ rw (e) tt
          | inr e ↦ elim (Bool-cases (ltb (now w') expires)) [
            | inl l ↦
                rw (e, l)
                  (record {
                    account = account;
                    pod = pod;
                    w1 = w1;
                    w2 = w2;
                    w3 = w3;
                    w4 = w4;
                    reviewed = r;
                    is_account = a;
                    is_pod = q;
                    is_sandbox = b;
                    has_owner = o;
                    issued = h;
                    nonempty = e;
                    unexpired = ltb→lt (now w') expires l;
                  })
            | inr l ↦ rw (e, l) tt
          ]
        ]

    module _ (id : RequestIdentity) (account : ServiceAccountBinding) (w1 w2 : W)
        (r : IsReviewed s request id.namespace id.service_account_name id.service_account_uid
          id.pod_name id.pod_uid w w1)
        (a : IsAccount s id.namespace id.service_account_name id.service_account_uid account w1
          w2) where
      with_sandbox-Granted :
          (pod : PodBinding) (w3 : W) (name uid : Bytes) (p : Result ℕ SandboxBinding × W)
          → get_dev_sandbox id.namespace name w3 ≡ p
          → label name_label pod.labels ≡ name
          → label uid_label pod.labels ≡ uid
          → labels_match account name uid ≡ true
          → IsPod s id.namespace id.service_account_name id.pod_name id.pod_uid pod w2 w3
          → Granted (with_sandbox s id name uid p)
      unfolding with_sandbox
      with_sandbox-Granted pod w3 name uid (err e, w4) h pn pu m q = tt
      with_sandbox-Granted pod w3 name uid (ok b, w4) h pn pu m q =
          elim (Bool-cases (sandbox_matches uid b)) [
            | inl e ↦ rw (e) (
                granted-Granted (bound_identity id name uid b.owner_user_id) account pod w1 w2 w3 w4
                  (access_token b.owner_user_id w4) refl (sandbox_of s uid b e).1
                  (record {
                    result = r.result;
                    is_review = r.is_review;
                    is_authenticated = r.is_authenticated;
                    is_audience = r.is_audience;
                    is_username = r.is_username;
                    is_uid = r.is_uid;
                    is_pod_name = r.is_pod_name;
                    is_pod_uid = r.is_pod_uid;
                  })
                  (record { is_read = a.is_read; is_uid = a.is_uid })
                  (record { is_read = q.is_read; is_uid = q.is_uid; is_account = q.is_account })
                  (record {
                    sandbox = b;
                    is_read = h;
                    is_uid = (sandbox_of s uid b e).0;
                    is_owner = refl;
                    pod_name = pn;
                    pod_uid = pu;
                    account_name = (labels_of s account name uid m).0;
                    account_uid = (labels_of s account name uid m).1;
                  }))
            | inr e ↦ rw (e) tt
          ]

      with_labels-Granted :
          (pod : PodBinding) (w3 : W) (name uid : Bytes)
          → label name_label pod.labels ≡ name
          → label uid_label pod.labels ≡ uid
          → IsPod s id.namespace id.service_account_name id.pod_name id.pod_uid pod w2 w3
          → Granted (with_labels s id account name uid w3)
      unfolding with_labels
      with_labels-Granted pod w3 name uid pn pu q =
          elim (Bool-cases (labels_match account name uid)) [
            | inl m ↦ rw (m) (
                with_sandbox-Granted pod w3 name uid (get_dev_sandbox id.namespace name w3) refl pn
                  pu m q)
            | inr m ↦ rw (m) tt
          ]

      with_pod-Granted :
          (p : Result ℕ PodBinding × W)
          → get_pod id.namespace id.pod_name w2 ≡ p
          → Granted (with_pod s id account p)
      unfolding with_pod
      with_pod-Granted (err e, w3) h = tt
      with_pod-Granted (ok pod, w3) h = elim (Bool-cases (pod_matches id pod)) [
        | inl m ↦ rw (m) (
            with_labels-Granted pod w3 (label name_label pod.labels) (label uid_label pod.labels)
              refl refl
              (record {
                is_read = h;
                is_uid = (pod_of s id pod m).0;
                is_account = (pod_of s id pod m).1;
              }))
        | inr m ↦ rw (m) tt
      ]

    with_account-Granted :
        (id : RequestIdentity) (w1 : W) (p : Result ℕ ServiceAccountBinding × W)
        → get_service_account id.namespace id.service_account_name w1 ≡ p
        → IsReviewed s request id.namespace id.service_account_name id.service_account_uid
            id.pod_name id.pod_uid w w1
        → Granted (with_account s id p)
    unfolding with_account
    with_account-Granted id w1 (err e, w2) h r = tt
    with_account-Granted id w1 (ok account, w2) h r =
        elim (Bool-cases (account_matches id account)) [
          | inl m ↦ rw (m) (
              with_pod-Granted id account w1 w2 r
                (record { is_read = h; is_uid = account_uid_of s id account m })
                (get_pod id.namespace id.pod_name w2) refl)
          | inr m ↦ rw (m) tt
        ]

    with_pod_claims-Granted :
        (ns name uid : Bytes) (w1 : W) (pod_name pod_uid : Option Bytes)
        → ((n u : Bytes)
            → pod_name ≡ some n
            → pod_uid ≡ some u
            → IsReviewed s request ns name uid n u w w1)
        → Granted (with_pod_claims s ns name uid pod_name pod_uid w1)
    unfolding with_pod_claims
    with_pod_claims-Granted ns name uid w1 none none r = tt
    with_pod_claims-Granted ns name uid w1 none (some u) r = tt
    with_pod_claims-Granted ns name uid w1 (some n) none r = tt
    with_pod_claims-Granted ns name uid w1 (some n) (some u) r =
        with_account-Granted (reviewed_identity ns name uid n u) w1 (get_service_account ns name w1)
          refl (r n u refl refl)

    with_username-Granted :
        (result : TokenReviewResult) (w1 : W) (p : Option (Bytes × Bytes))
        → review request (audience_of s) w ≡ (ok result, w1)
        → (result.authenticated ≡ true) × (result.audiences ≡ audience_of s ∷ [])
        → parse_service_account_username result.username ≡ p
        → Granted (with_username s result p w1)
    unfolding with_username
    with_username-Granted result w1 none h c e = tt
    with_username-Granted result w1 (some (ns, name)) h c e =
        let next =
          with_pod_claims-Granted ns name result.service_account_uid w1
            (exactly_one (extra_of "authentication.kubernetes.io/pod-name" result))
            (exactly_one (extra_of "authentication.kubernetes.io/pod-uid" result))
            (λ n u hn hu. record {
              result = result;
              is_review = h;
              is_authenticated = c.0;
              is_audience = c.1;
              is_username = ((parse_iff result.username ns name).0 e).2;
              is_uid = refl;
              is_pod_name = hn;
              is_pod_uid = hu;
            }) in
        elim (Bool-cases (is_empty result.service_account_uid)) [
          | inl z ↦ rw (z) tt
          | inr z ↦ rw (z) next
        ]

    with_review-Granted :
        (p : Result ℕ TokenReviewResult × W)
        → review request (audience_of s) w ≡ p
        → Granted (with_review s p)
    unfolding with_review
    with_review-Granted (err e, w1) h = tt
    with_review-Granted (ok result, w1) h =
        elim (Bool-cases (result.authenticated && only_audience (audience_of s) result.audiences)) [
          | inl c ↦ rw (c) (
              with_username-Granted result w1 (parse_service_account_username result.username) h
                (review_of s result c) refl)
          | inr c ↦ rw (c) tt
        ]

    credential-Granted : Granted (credential s request w)
    unfolding credential
    credential-Granted = ground (arith, with_review-Granted (review request (audience_of s) w) refl)

  -- A token that the broker gives out was issued for the owner of the stored sandbox that the labels
  -- of both the stored pod and the stored service account name, and the reviewed request names that
  -- pod and that account, by name and by UID, for the broker's audience alone; the token is not
  -- empty and not expired.
  pub credential-IsGranted :
      (request token : Bytes) (expires : ℕ) (id : RequestIdentity) (w w' : W)
      → credential s request w ≡ (ok (token, expires), id, w')
      → IsGranted s request w token expires id w'
  credential-IsGranted request token expires id w w' h =
      subst (Granted request w) h (credential-Granted request w)
