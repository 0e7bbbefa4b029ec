-- ===== src/Gateway/Claims/Routed.antt =====
-- internal/gateway/claims.go: what a route claim that was accepted has behind it.
use mathlib.Core.Path.{subst}
use aksagent_sandbox.Base.{
  ℕ, ◌+◌, ◌/◌, ◌≡◌, ◌≢◌, refl, ap, ◌∙◌, inl, inr, String, false, Option, none, some, List, [], ◌∷◌,
  ◌++◌, arith, eq_iff, Result, ok, err, Bool-cases,
}
use aksagent_sandbox.Base.Int.{pos, ◌≤ℤ◌, ◌<ℤ◌}
use aksagent_sandbox.Base.Bytes.{Bytes, codes, split, bytes_eq, bytes_eq→eq}
use aksagent_sandbox.Auth.Signer.{Signer, SignError}
use aksagent_sandbox.Auth.Session.{Codec, dot, second, unix, SessionClaims, SessionManager, verify}
use aksagent_sandbox.Auth.Session.Accepted.{verify-IsAccepted}
use aksagent_sandbox.Gateway.Claims.{
  RouteClaim, ClaimError, ClaimManager, is_incomplete, check_claim, claim_read, payload_read,
  signature_checked, signature_read, parts_read, verify_claim, for_sandbox, verify_sandbox,
}

pub record IsRouted (c : Codec RouteClaim) (m : ClaimManager) (token : Bytes) (now later : ℕ)
    (k : RouteClaim) : Type 0 where
  pub signer : Signer
  pub body : Bytes
  pub signature_text : Bytes
  pub signature : Bytes
  pub payload : Bytes
  pub is_signer : m.signer ≡ some signer
  pub is_split : split dot token ≡ codes "route1" ∷ body ∷ signature_text ∷ []
  pub is_signature : c.decode signature_text ≡ some signature
  pub is_verified : signer.verify (codes "route1" ++ dot ∷ body) signature ≡ none
  pub is_payload : c.decode body ≡ some payload
  pub is_claim : c.unmarshal payload ≡ some k
  pub is_complete : is_incomplete k ≡ false
  pub is_current : unix later <ℤ k.expires_at
  pub is_issued : (pos 0 <ℤ k.issued_at) × (k.issued_at ≤ℤ pos (now / second + 60))

versions_apart :
    {ps rest rest' : List Bytes} → ps ≡ codes "ds1" ∷ rest → ps ≡ codes "route1" ∷ rest' → ⊥
versions_apart e f = cc

module _ (c : Codec RouteClaim) (m : ClaimManager) (now later : ℕ) (k : RouteClaim) where
  check_claim-ok :
      (j : RouteClaim)
      → check_claim c now later j ≡ ok k
      → (j ≡ k)
        × (is_incomplete k ≡ false)
        × (unix later <ℤ k.expires_at)
        × ((pos 0 <ℤ k.issued_at) × (k.issued_at ≤ℤ pos (now / second + 60)))
  unfolding check_claim
  check_claim-ok j h = elim (Bool-cases (is_incomplete j)) [
    | inl b ↦ cc (rw b at h)
    | inr b ↦ ground (arith, b, h)
  ]

  claim_read-ok :
      (o : Option RouteClaim)
      → claim_read c now later o ≡ ok k
      → (j : RouteClaim) × (o ≡ some j) × (check_claim c now later j ≡ ok k)
  unfolding claim_read
  claim_read-ok none h = cc
  claim_read-ok (some j) h = (j, refl, h)

  payload_read-ok :
      (o : Option Bytes)
      → payload_read c now later o ≡ ok k
      → (payload : Bytes) × (o ≡ some payload)
        × (claim_read c now later (c.unmarshal payload) ≡ ok k)
  unfolding payload_read
  payload_read-ok none h = cc
  payload_read-ok (some payload) h = (payload, refl, h)

  signature_checked-ok :
      (body : Bytes) (e : Option SignError)
      → signature_checked c now later body e ≡ ok k
      → (e ≡ none) × (payload_read c now later (c.decode body) ≡ ok k)
  unfolding signature_checked
  signature_checked-ok body none h = (refl, h)
  signature_checked-ok body (some e) h = cc

  signature_read-ok :
      (s : Signer) (version body : Bytes) (o : Option Bytes)
      → signature_read c s now later version body o ≡ ok k
      → (signature : Bytes) × (o ≡ some signature)
        × (signature_checked c now later body (s.verify (version ++ dot ∷ body) signature) ≡ ok k)
  unfolding signature_read
  signature_read-ok s version body none h = cc
  signature_read-ok s version body (some signature) h = (signature, refl, h)

  parts_read-ok :
      (o : Option Signer) (ps : List Bytes)
      → parts_read c o now later ps ≡ ok k
      → (s : Signer) × (body : Bytes) × (text : Bytes) × (o ≡ some s)
        × (ps ≡ codes "route1" ∷ body ∷ text ∷ [])
        × (signature_read c s now later (codes "route1") body (c.decode text) ≡ ok k)
  unfolding parts_read
  parts_read-ok (some s) (version ∷ body ∷ text ∷ []) h =
      elim (Bool-cases (bytes_eq version (codes "route1"))) [
        | inl same ↦
            let e = bytes_eq→eq version (codes "route1") same in
            (
              s,
              body,
              text,
              refl,
              ap (λ v. v ∷ body ∷ text ∷ []) e,
              subst (λ v. signature_read c s now later v body (c.decode text) ≡ ok k) e
                  (rw same at h),
            )
        | inr other ↦ cc (rw other at h)
      ]
  parts_read-ok none ps h = cc
  parts_read-ok (some s) _ h = cc

  verify_claim-IsRouted :
      (token : Bytes) → verify_claim c m token now later ≡ ok k → IsRouted c m token now later k
  unfolding verify_claim
  verify_claim-IsRouted token h =
      let (s, body, text, is_signer, is_split, h1) = parts_read-ok m.signer (split dot token) h in
      let (signature, is_signature, h2) =
        signature_read-ok s (codes "route1") body (c.decode text) h1 in
      let (is_verified, h3) =
        signature_checked-ok body (s.verify (codes "route1" ++ dot ∷ body) signature) h2 in
      let (payload, is_payload, h4) = payload_read-ok (c.decode body) h3 in
      let (j, is_claim, h5) = claim_read-ok (c.unmarshal payload) h4 in
      let (same, complete, current, issued) = check_claim-ok j h5 in
      record {
        signer = s;
        body = body;
        signature_text = text;
        signature = signature;
        payload = payload;
        is_signer = is_signer;
        is_split = is_split;
        is_signature = is_signature;
        is_verified = is_verified;
        is_payload = is_payload;
        is_claim = is_claim ∙ ap some same;
        is_complete = complete;
        is_current = current;
        is_issued = issued;
      }

  for_sandbox-ok :
      (name uid : String) (r : Result ClaimError RouteClaim)
      → for_sandbox c name uid r ≡ ok k
      → (r ≡ ok k) × (k.sandbox_name ≡ name) × (k.sandbox_uid ≡ uid)
  unfolding for_sandbox
  for_sandbox-ok name uid (err e) h = cc
  for_sandbox-ok name uid (ok j) h =
      ground (arith, eq_iff j.sandbox_name name, eq_iff j.sandbox_uid uid)

  -- A claim that `VerifySandbox` accepts names the given sandbox by name and UID; its token carries a
  -- signature that the signer accepts over its first two parts, and the claim is complete, was issued
  -- at most a minute ahead of the clock and is not expired.
  pub verify_sandbox-IsRouted :
      (token : Bytes) (name uid : String)
      → verify_sandbox c m token name uid now later ≡ ok k
      → (k.sandbox_name ≡ name) × (k.sandbox_uid ≡ uid) × IsRouted c m token now later k
  unfolding verify_sandbox
  verify_sandbox-IsRouted token name uid h =
      let (e, n, u) = for_sandbox-ok name uid (verify_claim c m token now later) h in
      (n, u, verify_claim-IsRouted token e)

  -- No token is both a session and a route claim, whatever signers and codecs the two sides use.
  pub not_session :
      (sessions : Codec SessionClaims) (manager : SessionManager) (token : Bytes) (time : ℕ)
      (session : SessionClaims)
      → verify sessions manager token time ≡ ok session
      → verify_claim c m token now later ≢ ok k
  not_session sessions manager token time session v h =
      let a = verify-IsAccepted sessions manager time session token v in
      let b = verify_claim-IsRouted token h in versions_apart a.is_split b.is_split
