-- ===== src/Gateway/Claims.antt =====
-- internal/gateway/claims.go: route claims, `route1.<claim>.<signature>`, under the signers and the
-- codec of the sessions. `Verify` reads the clock twice.
pub mod Routed
mod Examples
use aksagent_sandbox.Base.{
  ℕ, ◌+◌, ◌*◌, ◌/◌, ◌≡◌, refl, String, Bool, true, false, not, ◌||◌, Option, none, some, List, [],
  ◌∷◌, ◌++◌, ◌==◌, if◌then◌else◌, eqb, Result, ok, err,
}
use aksagent_sandbox.Base.Int.{ℤ, pos, leb_ℤ, ltb_ℤ}
use aksagent_sandbox.Base.Bytes.{Bytes, codes, split, bytes_eq}
use aksagent_sandbox.Auth.Signer.{Signer, SignError}
use aksagent_sandbox.Auth.Session.{Codec, dot, second, unix}

pub record RouteClaim : Type 0 where
  pub owner_id : String
  pub sandbox_name : String
  pub sandbox_uid : String
  pub router_id : String
  pub namespace : String
  pub port : ℤ
  pub issued_at : ℤ  -- int64
  pub expires_at : ℤ  -- int64

pub data ClaimError : Type 0 where
  invalid_route_claim expired_route_claim sign_failed : ClaimError

-- A lifetime that is not positive is given as 0.
pub record ClaimManager : Type 0 where
  pub signer : Option Signer
  pub lifetime : ℕ

pub is_incomplete : RouteClaim → Bool
is_incomplete k =
    k.owner_id == ""
    || k.sandbox_name == ""
    || k.sandbox_uid == ""
    || k.router_id == ""
    || k.namespace == ""
    || ltb_ℤ k.port (pos 1)
    || ltb_ℤ (pos 65535) k.port

claim_lifetime : ClaimManager → ℕ
claim_lifetime m = if eqb m.lifetime 0 then 5 * 60 * second else m.lifetime

stamped : ClaimManager → RouteClaim → ℕ → RouteClaim
unfolding claim_lifetime
stamped m k now = record k { issued_at = unix now; expires_at = unix (now + claim_lifetime m) }

module _ (c : Codec RouteClaim) where
  pub route_message : RouteClaim → Bytes
  route_message k = codes "route1" ++ dot ∷ c.encode (c.marshal k)

  with_signature : Bytes → Result SignError Bytes → Result ClaimError Bytes
  with_signature message (err _) = err sign_failed
  with_signature message (ok signature) = ok (message ++ dot ∷ c.encode signature)

  issue_signed : Option Signer → ClaimManager → RouteClaim → ℕ → Result ClaimError Bytes
  unfolding with_signature route_message is_incomplete stamped
  issue_signed none m k now = err invalid_route_claim
  issue_signed (some s) m k now =
      let message = route_message (stamped m k now) in
      if is_incomplete k then err invalid_route_claim else with_signature message (s.sign message)

  -- ClaimManager.Issue at the time `now`.
  pub issue_claim : ClaimManager → RouteClaim → ℕ → Result ClaimError Bytes
  unfolding issue_signed
  issue_claim m k now = issue_signed m.signer m k now

  pub check_claim : ℕ → ℕ → RouteClaim → Result ClaimError RouteClaim
  unfolding is_incomplete
  check_claim now later k =
      if is_incomplete k
        || leb_ℤ k.issued_at (pos 0)
        || leb_ℤ k.expires_at k.issued_at
        || ltb_ℤ (pos (now / second + 60)) k.issued_at
      then err invalid_route_claim
      else if leb_ℤ k.expires_at (unix later)
      then err expired_route_claim
      else ok k

  pub claim_read : ℕ → ℕ → Option RouteClaim → Result ClaimError RouteClaim
  unfolding check_claim
  claim_read now later none = err invalid_route_claim
  claim_read now later (some k) = check_claim now later k

  pub payload_read : ℕ → ℕ → Option Bytes → Result ClaimError RouteClaim
  unfolding claim_read
  payload_read now later none = err invalid_route_claim
  payload_read now later (some payload) = claim_read now later (c.unmarshal payload)

  pub signature_checked : ℕ → ℕ → Bytes → Option SignError → Result ClaimError RouteClaim
  unfolding payload_read
  signature_checked now later body (some _) = err invalid_route_claim
  signature_checked now later body none = payload_read now later (c.decode body)

  pub signature_read : Signer → ℕ → ℕ → Bytes → Bytes → Option Bytes → Result ClaimError RouteClaim
  unfolding signature_checked
  signature_read s now later version body none = err invalid_route_claim
  signature_read s now later version body (some signature) =
      signature_checked now later body (s.verify (version ++ dot ∷ body) signature)

  pub parts_read : Option Signer → ℕ → ℕ → List Bytes → Result ClaimError RouteClaim
  unfolding signature_read
  parts_read (some s) now later (version ∷ body ∷ signature ∷ []) =
      if bytes_eq version (codes "route1")
      then signature_read s now later version body (c.decode signature)
      else err invalid_route_claim
  parts_read _ now later _ = err invalid_route_claim

  -- ClaimManager.Verify, whose two readings of the clock are `now` and `later`.
  pub verify_claim : ClaimManager → Bytes → ℕ → ℕ → Result ClaimError RouteClaim
  unfolding parts_read split
  verify_claim m token now later = parts_read m.signer now later (split dot token)

  pub for_sandbox : String → String → Result ClaimError RouteClaim → Result ClaimError RouteClaim
  for_sandbox name uid (err e) = err e
  for_sandbox name uid (ok k) =
      if not (k.sandbox_name == name) || not (k.sandbox_uid == uid)
      then err invalid_route_claim
      else ok k

  -- ClaimManager.VerifySandbox
  pub verify_sandbox : ClaimManager → Bytes → String → String → ℕ → ℕ → Result ClaimError RouteClaim
  unfolding verify_claim for_sandbox
  verify_sandbox m token name uid now later = for_sandbox name uid (verify_claim m token now later)
