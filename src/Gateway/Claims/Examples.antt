-- ===== src/Gateway/Claims/Examples.antt =====
-- A claim for port 8080 of a sandbox, under a signer that accepts everything.
use aksagent_sandbox.Base.{◌*◌, ◌≡◌, ◌≢◌, refl, none, some, [], ◌∷◌, ◌++◌, ok}
use aksagent_sandbox.Base.Int.{pos}
use aksagent_sandbox.Base.Bytes.{Bytes, codes, bytes_eq}
use aksagent_sandbox.Auth.Signer.{Signer}
use aksagent_sandbox.Auth.Session.{Codec, dot, second, SessionClaims, SessionManager, verify}
use aksagent_sandbox.Gateway.Claims.{RouteClaim, ClaimManager, verify_claim, verify_sandbox}
use aksagent_sandbox.Gateway.Claims.Routed.{IsRouted, verify_sandbox-IsRouted, not_session}

abbrev claim : RouteClaim
claim = record {
  owner_id = "42";
  sandbox_name = "sbx";
  sandbox_uid = "s1";
  router_id = "r1";
  namespace = "ns";
  port = pos 8080;
  issued_at = pos 1000;
  expires_at = pos 1300;
}

abbrev session : SessionClaims
session = record {
  subject = "42";
  login = "octo";
  org = "acme";
  audience = "devsandbox";
  issued_at = pos 1000;
  expires_at = pos 1900;
}

abbrev codec : {A : Type 0} → A → Codec A
codec a = record {
  marshal = λ _. 7 ∷ [];
  unmarshal = λ _. some a;
  encode = λ b. b;
  decode = λ b. some b;
}

abbrev signer : Signer
signer = record { sign = λ message. ok (9 ∷ []); verify = λ message signature. none }

abbrev manager : ClaimManager
manager = record { signer = some signer; lifetime = 0 }

abbrev sessions : SessionManager
sessions = record { signer = some signer; audience = "devsandbox"; lifetime = 0 }

abbrev token : Bytes
token = codes "route1" ++ dot ∷ 7 ∷ dot ∷ 9 ∷ []

verify_sandbox-IsRouted_example :
    (claim.sandbox_name ≡ "sbx")
    × (claim.sandbox_uid ≡ "s1")
    × IsRouted (codec claim) manager token (1100 * second) (1100 * second) claim
unfolding verify_sandbox bytes_eq
verify_sandbox-IsRouted_example =
    verify_sandbox-IsRouted (codec claim) manager (1100 * second) (1100 * second) claim token "sbx"
      "s1" refl

abbrev session_token : Bytes
session_token = codes "ds1" ++ dot ∷ 7 ∷ dot ∷ 9 ∷ []

not_session_example :
    verify_claim (codec claim) manager session_token (1100 * second) (1100 * second) ≢ ok claim
unfolding verify bytes_eq
not_session_example =
    not_session (codec claim) manager (1100 * second) (1100 * second) claim (codec session) sessions
      session_token (1100 * second) session refl
