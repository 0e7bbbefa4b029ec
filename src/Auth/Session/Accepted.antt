-- ===== src/Auth/Session/Accepted.antt =====
-- internal/auth/session.go: what a session that was accepted has behind it.
use mathlib.Core.Path.{subst}
use aksagent_sandbox.Base.{
  ℕ, ◌+◌, ◌/◌, ◌≡◌, refl, ap, ◌∙◌, ◌≢◌, inl, inr, Option, none, some, List, [], ◌∷◌, ◌++◌, arith,
  eq_iff, ok, Bool-cases,
}
use aksagent_sandbox.Base.Int.{pos, ◌≤ℤ◌, ◌<ℤ◌}
use aksagent_sandbox.Base.Bytes.{Bytes, codes, split, bytes_eq, bytes_eq→eq}
use aksagent_sandbox.Auth.Signer.{Signer, SignError}
use aksagent_sandbox.Auth.Session.{
  SessionClaims, Codec, SessionManager, dot, unix, second, check_claims, decoded, read_claims,
  accepted, check_signature, verify_parts, verify,
}

-- What stands behind a session that was accepted.
pub record IsAccepted (c : Codec SessionClaims) (m : SessionManager) (token : Bytes) (now : ℕ)
    (k : SessionClaims) : Type 0 where
  pub signer : Signer
  pub body : Bytes
  pub signature_text : Bytes
  pub signature : Bytes
  pub payload : Bytes
  pub is_signer : m.signer ≡ some signer
  pub is_split : split dot token ≡ codes "ds1" ∷ body ∷ signature_text ∷ []
  pub is_signature : c.decode signature_text ≡ some signature
  pub is_verified : signer.verify (codes "ds1" ++ dot ∷ body) signature ≡ none
  pub is_payload : c.decode body ≡ some payload
  pub is_claims : c.unmarshal payload ≡ some k
  pub is_audience : k.audience ≡ m.audience
  pub is_named : (k.subject ≢ "") × (k.org ≢ "")
  pub is_current : unix now <ℤ k.expires_at
  pub is_issued : (pos 0 <ℤ k.issued_at) × (k.issued_at ≤ℤ pos (now / second + 60))

module _ (c : Codec SessionClaims) (m : SessionManager) (now : ℕ) (k : SessionClaims) where
  -- The claims that pass the checks.
  checked_claims :
      (j : SessionClaims)
      → check_claims c m now j ≡ ok k
      → (j ≡ k)
        × (k.audience ≡ m.audience)
        × ((k.subject ≢ "") × (k.org ≢ ""))
        × (unix now <ℤ k.expires_at)
        × ((pos 0 <ℤ k.issued_at) × (k.issued_at ≤ℤ pos (now / second + 60)))
  unfolding check_claims
  checked_claims j h =
      ground (arith, eq_iff j.subject "", eq_iff j.org "", eq_iff j.audience m.audience)

  decoded-ok :
      (o : Option SessionClaims)
      → decoded c m now o ≡ ok k
      → (j : SessionClaims) × (o ≡ some j) × (check_claims c m now j ≡ ok k)
  unfolding decoded
  decoded-ok none h = cc
  decoded-ok (some j) h = (j, refl, h)

  read_claims-ok :
      (o : Option Bytes)
      → read_claims c m now o ≡ ok k
      → (payload : Bytes) × (o ≡ some payload) × (decoded c m now (c.unmarshal payload) ≡ ok k)
  unfolding read_claims
  read_claims-ok none h = cc
  read_claims-ok (some payload) h = (payload, refl, h)

  accepted-ok :
      (body : Bytes) (e : Option SignError)
      → accepted c m now body e ≡ ok k
      → (e ≡ none) × (read_claims c m now (c.decode body) ≡ ok k)
  unfolding accepted
  accepted-ok body none h = (refl, h)
  accepted-ok body (some e) h = cc

  check_signature-ok :
      (s : Signer) (version body : Bytes) (o : Option Bytes)
      → check_signature c s m now version body o ≡ ok k
      → (signature : Bytes) × (o ≡ some signature)
        × (accepted c m now body (s.verify (version ++ dot ∷ body) signature) ≡ ok k)
  unfolding check_signature
  check_signature-ok s version body none h = cc
  check_signature-ok s version body (some signature) h = (signature, refl, h)

  -- Only three parts, the first of them `ds1`, under a signer.
  verify_parts-ok :
      (o : Option Signer) (ps : List Bytes)
      → verify_parts c o m now ps ≡ ok k
      → (s : Signer) × (body : Bytes) × (text : Bytes) × (o ≡ some s)
        × (ps ≡ codes "ds1" ∷ body ∷ text ∷ [])
        × (check_signature c s m now (codes "ds1") body (c.decode text) ≡ ok k)
  unfolding verify_parts
  verify_parts-ok (some s) (version ∷ body ∷ text ∷ []) h =
      elim (Bool-cases (bytes_eq version (codes "ds1"))) [
        | inl same ↦
            let e = bytes_eq→eq version (codes "ds1") same in
            (
              s,
              body,
              text,
              refl,
              rw e refl,
              subst (λ v. check_signature c s m now v body (c.decode text) ≡ ok k) e (rw same at h),
            )
        | inr other ↦ cc (rw other at h)
      ]
  verify_parts-ok none ps h = cc
  verify_parts-ok (some s) _ h = cc

  -- An accepted session carries a signature that the signer accepts over its own first two parts,
  -- and its claims are for this audience, name a user and an organisation, were issued at most a
  -- minute ahead of the clock and are not expired.
  pub verify-IsAccepted : (token : Bytes) → verify c m token now ≡ ok k → IsAccepted c m token now k
  unfolding verify
  verify-IsAccepted token h =
      let (s, body, text, is_signer, is_split, h1) = verify_parts-ok m.signer (split dot token) h in
      let (signature, is_signature, h2) =
        check_signature-ok s (codes "ds1") body (c.decode text) h1 in
      let (is_verified, h3) =
        accepted-ok body (s.verify (codes "ds1" ++ dot ∷ body) signature) h2 in
      let (payload, is_payload, h4) = read_claims-ok (c.decode body) h3 in
      let (j, is_claims, h5) = decoded-ok (c.unmarshal payload) h4 in
      let (same, audience, named, current, issued) = checked_claims j h5 in
      record {
        signer = s;
        body = body;
        signature_text = text;
        signature = signature;
        payload = payload;
        is_signer = is_signer;
        is_split = is_split;
        is_signature = is_signature;
        is_verified = is_verified;
        is_payload = is_payload;
        is_claims = is_claims ∙ ap some same;
        is_audience = audience;
        is_named = named;
        is_current = current;
        is_issued = issued;
      }
