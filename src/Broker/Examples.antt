-- ===== src/Broker/Examples.antt =====
-- A pod of the sandbox `sbx` asks for its token, in a cluster that does not change.
use aksagent_sandbox.Base.{ℕ, ◌≡◌, refl, ◌++◌, true, some, List, [], ◌∷◌, String, ok, ◌↔◌}
use aksagent_sandbox.Base.Bytes.{Bytes, codes}
use aksagent_sandbox.Broker.{
  TokenReviewResult, RequestIdentity, Service, credential, name_label, uid_label,
  parse_service_account_username, colon, account_prefix,
}
use aksagent_sandbox.Broker.Usernames.{IsPart, parse_iff}
use aksagent_sandbox.Broker.Checks.{IsGranted}
use aksagent_sandbox.Broker.Bound.{credential-IsGranted}

abbrev result : TokenReviewResult
result = record {
  authenticated = true;
  audiences = codes "devsandbox-credential-broker" ∷ [];
  username = codes "system:serviceaccount:ns:sa";
  service_account_uid = codes "a1";
  extra =
      ("authentication.kubernetes.io/pod-name", codes "pod" ∷ [])
      ∷ ("authentication.kubernetes.io/pod-uid", codes " p1" ∷ [])
      ∷ [];
}

abbrev labels : List (String × Bytes)
labels = (name_label, codes "sbx") ∷ (uid_label, codes "s1") ∷ []

abbrev service : Service ℕ
service = record {
  has_reviewer = true;
  has_bindings = true;
  has_credentials = true;
  audience = [];
  review = λ token audience w. (ok result, w);
  get_service_account = λ ns name w. (ok (record { uid = codes "a1"; labels = labels }), w);
  get_pod = λ ns name w.
      (ok (record { uid = codes "p1"; service_account_name = codes "sa"; labels = labels }), w);
  get_dev_sandbox = λ ns name w. (ok (record { uid = codes "s1"; owner_user_id = codes "42" }), w);
  access_token = λ user w. (ok (codes "gho", 100), w);
  now = λ w. w;
}

abbrev identity : RequestIdentity
identity = record {
  namespace = codes "ns";
  service_account_name = codes "sa";
  service_account_uid = codes "a1";
  pod_name = codes "pod";
  pod_uid = codes "p1";
  sandbox_name = codes "sbx";
  sandbox_uid = codes "s1";
  owner_user_id = codes "42";
}

credential-IsGranted_example : IsGranted service (codes "jwt") 7 (codes "gho") 100 identity 7
unfolding credential
credential-IsGranted_example =
    credential-IsGranted service (codes "jwt") (codes "gho") 100 identity 7 7 refl

parse_iff_example :
    (parse_service_account_username (codes "system:serviceaccount:ns:sa")
      ≡ some (codes "ns", codes "sa"))
    ↔ (IsPart (codes "ns")
        × IsPart (codes "sa")
        × (codes "system:serviceaccount:ns:sa"
            ≡ account_prefix ++ (codes "ns" ++ colon ∷ codes "sa")))
parse_iff_example = parse_iff (codes "system:serviceaccount:ns:sa") (codes "ns") (codes "sa")
