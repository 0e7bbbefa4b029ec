-- ===== src/Auth/Session/Tokens.antt =====
-- internal/auth/session.go: what issuing and verifying a session promise one another.
use aksagent_sandbox.Base.{
  leb, ℕ, ◌+◌, ◌/◌, ◌≤◌, ◌≡◌, refl, sym, ap, ◌∙◌, inl, inr, false, ◌||◌, Option, none, some, List,
  [], ◌∷◌, ◌++◌, arith, ◌==◌, eq_refl, if◌then◌else◌, Result, ok, err, Bool-cases, ok_injective,
}
use aksagent_sandbox.Base.Bytes.{Bytes, codes, split, bytes_eq_refl, split_three}
use aksagent_sandbox.Auth.Signer.{Signer, IsConsistent, SignError}
use aksagent_sandbox.Auth.Session.{
  Identity, SessionClaims, Codec, IsLawful, RoundTrips, SessionManager, expired_session, second,
  dot, lifetime_of, claims_of, message_of, finish_token, signed, issue_with, issue, check_claims,
  read_claims, accepted, decoded, check_signature, verify_parts, verify,
}

-- The parts of a result of `Issue`.
record Issued (c : Codec SessionClaims) (s : Signer) (m : SessionManager) (i : Identity) (t : ℕ)
    (token : Bytes) (expires : ℕ) : Type 0 where
  user_named : (i.user_id == "") ≡ false
  org_named : (i.org == "") ≡ false
  signature : Bytes
  is_signature : s.sign (message_of c (claims_of m i t)) ≡ ok signature
  is_token : token ≡ message_of c (claims_of m i t) ++ dot ∷ c.encode signature
  is_expiry : expires ≡ t + lifetime_of m

module _ (c : Codec SessionClaims) (lawful : IsLawful c) (s : Signer) (m : SessionManager)
    (here : m.signer ≡ some s) where
  finished-Issued :
      (i : Identity) (t : ℕ) (token : Bytes) (expires : ℕ) (r : Result SignError Bytes)
      → (i.user_id == "") ≡ false
      → (i.org == "") ≡ false
      → s.sign (message_of c (claims_of m i t)) ≡ r
      → finish_token c (message_of c (claims_of m i t)) (t + lifetime_of m) (signed c r)
        ≡ ok (token, expires)
      → Issued c s m i t token expires
  unfolding finish_token signed
  finished-Issued i t token expires (err e) u o r h = cc
  finished-Issued i t token expires (ok b) u o r h =
      let made = ok_injective h in
      record {
        user_named = u;
        org_named = o;
        signature = b;
        is_signature = r;
        is_token = sym (ap (λ x. x.0) made);
        is_expiry = sym (ap (λ x. x.1) made);
      }

  issue_with-Issued :
      (i : Identity) (t : ℕ) (token : Bytes) (expires : ℕ)
      → issue_with c (some s) m i t ≡ ok (token, expires)
      → Issued c s m i t token expires
  unfolding issue_with
  issue_with-Issued i t token expires h =
      elim (Bool-cases (i.user_id == "" || i.org == "" || m.audience == "")) [
        | inl bad ↦ cc (rw bad at h)
        | inr good ↦
            finished-Issued i t token expires (s.sign (message_of c (claims_of m i t)))
              (ground arith) (ground arith) refl (rw good at h)
      ]

  issue-Issued :
      (i : Identity) (t : ℕ) (token : Bytes) (expires : ℕ)
      → issue c m i t ≡ ok (token, expires)
      → Issued c s m i t token expires
  unfolding issue
  issue-Issued i t token expires h = issue_with-Issued i t token expires (rw (here, issue) at h)

  verify_own :
      (i : Identity) (t now : ℕ) (signature : Bytes) (o : Option Signer) (ps : List Bytes)
      → o ≡ some s
      → ps ≡ codes "ds1" ∷ c.encode (c.marshal (claims_of m i t)) ∷ c.encode signature ∷ []
      → s.verify (message_of c (claims_of m i t)) signature ≡ none
      → RoundTrips c (claims_of m i t)
      → verify_parts c o m now ps ≡ check_claims c m now (claims_of m i t)
  unfolding verify_parts message_of
  verify_own i t now signature o ps e f v json =
      let claims = claims_of m i t in
      rw (
        e,
        f,
        bytes_eq_refl (codes "ds1"),
        lawful.decode-encode signature,
        v,
        lawful.decode-encode (c.marshal claims),
        json,
        verify_parts,
        check_signature,
        accepted,
        read_claims,
        decoded,
      )

  -- A token that was issued splits into the three parts that it was made of.
  verify-Issued :
      (i : Identity) (t now : ℕ) (token : Bytes) (expires : ℕ)
      → IsConsistent s
      → RoundTrips c (claims_of m i t)
      → Issued c s m i t token expires
      → verify c m token now ≡ check_claims c m now (claims_of m i t)
  unfolding verify message_of
  verify-Issued i t now token expires consistent json h =
      let claims = claims_of m i t in
      let body = c.encode (c.marshal claims) in
      let parts =
        split_three dot (codes "ds1") body (c.encode h.signature) (refl, (refl, (refl, tt)))
          (lawful.encode-Lacks (c.marshal claims)) (lawful.encode-Lacks h.signature) in
      verify_own i t now h.signature m.signer (split dot token) here
        (ap (split dot) h.is_token ∙ parts)
        (consistent (message_of c claims) h.signature h.is_signature) json

  -- The checks on claims that this manager made.
  check_own :
      (i : Identity) (t now : ℕ)
      → (i.user_id == "") ≡ false
      → (i.org == "") ≡ false
      → second ≤ t
      → second ≤ lifetime_of m
      → t / second ≤ now / second + 60
      → check_claims c m now (claims_of m i t) ≡ (
          if leb ((t + lifetime_of m) / second) (now / second)
          then err expired_session
          else ok (claims_of m i t))
  unfolding check_claims claims_of
  check_own i t now u o after life skew = rw (u, o, eq_refl m.audience) (ground arith)

  -- A session that was issued is accepted with the claims of its identity until it expires, and
  -- is refused as expired from then on, when the codec keeps its laws, the manager's signer
  -- accepts its own signatures, JSON gives the claims back, the issue time is at least a second
  -- after the epoch and at most a minute ahead of the clock, and the lifetime is at least a
  -- second.
  pub verify-issue :
      (i : Identity) (t now : ℕ) (token : Bytes) (expires : ℕ)
      → IsConsistent s
      → RoundTrips c (claims_of m i t)
      → second ≤ t
      → second ≤ lifetime_of m
      → t / second ≤ now / second + 60
      → issue c m i t ≡ ok (token, expires)
      → verify c m token now ≡ (
          if leb (expires / second) (now / second)
          then err expired_session
          else ok (claims_of m i t))
  verify-issue i t now token expires consistent json after life skew h =
      let d = issue-Issued i t token expires h in
      rw d.is_expiry (
        verify-Issued i t now token expires consistent json d
        ∙ check_own i t now d.user_named d.org_named after life skew)
