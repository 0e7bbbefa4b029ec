-- ===== src/Auth/Session.antt =====
-- internal/auth/session.go: platform sessions, `ds1.<claims>.<signature>`. JSON and base64 are
-- parameters (`Codec`); instants are nanoseconds since the Unix epoch.
pub mod Tokens
pub mod Accepted
mod Examples
use aksagent_sandbox.Base.{
  ℕ, ◌+◌, ◌*◌, ◌/◌, ◌≡◌, refl, String, Bool, true, false, not, ◌||◌, Option, none, some, List, [],
  ◌∷◌, ◌++◌, ◌==◌, if◌then◌else◌, eqb, leb, Result, ok, err, ◌>>=◌,
}
use aksagent_sandbox.Base.Int.{ℤ, pos, leb_ℤ, ltb_ℤ, ◌+ℤ◌}
use aksagent_sandbox.Base.Bytes.{Bytes, codes, split, Lacks, bytes_eq}
use aksagent_sandbox.Auth.Signer.{Signer, SignError}

abbrev pub second : ℕ
second = 1_000_000_000

abbrev pub dot : ℕ
dot = b'.'

pub record Identity : Type 0 where
  pub user_id : String
  pub login : String
  pub org : String

pub record SessionClaims : Type 0 where
  pub subject : String
  pub login : String
  pub org : String
  pub audience : String
  pub issued_at : ℤ  -- int64
  pub expires_at : ℤ  -- int64

-- encoding/json on claims of type `A`, and base64.RawURLEncoding on bytes.
pub record Codec (A : Type 0) : Type 0 where
  pub marshal : A → Bytes
  pub unmarshal : Bytes → Option A
  pub encode : Bytes → Bytes
  pub decode : Bytes → Option Bytes

-- JSON gives back claims whose texts are valid UTF-8.
abbrev pub RoundTrips : {A : Type 0} → Codec A → A → Type 0
RoundTrips c a = c.unmarshal (c.marshal a) ≡ some a

-- Documented: base64 decodes what it encodes, and its alphabet has no dot.
pub record IsLawful {A : Type 0} (c : Codec A) : Type 0 where
  pub decode-encode : (b : Bytes) → c.decode (c.encode b) ≡ some b
  pub encode-Lacks : (b : Bytes) → Lacks dot (c.encode b)

pub data SessionError : Type 0 where
  incomplete sign_failed invalid_session expired_session : SessionError

-- `m.Signer` may be nil; a lifetime that is not positive is given as 0.
pub record SessionManager : Type 0 where
  pub signer : Option Signer
  pub audience : String
  pub lifetime : ℕ

abbrev pub default_lifetime : ℕ
default_lifetime = 15 * 60 * second

unfoldable pub lifetime_of : SessionManager → ℕ
lifetime_of m = if eqb m.lifetime 0 then default_lifetime else m.lifetime

abbrev pub unix : ℕ → ℤ
unix t = pos (t / second)

unfoldable pub claims_of : SessionManager → Identity → ℕ → SessionClaims
unfolding lifetime_of
claims_of m identity now = record {
  subject = identity.user_id;
  login = identity.login;
  org = identity.org;
  audience = m.audience;
  issued_at = unix now;
  expires_at = unix (now + lifetime_of m);
}

module _ (c : Codec SessionClaims) where
  pub message_of : SessionClaims → Bytes
  message_of claims = codes "ds1" ++ dot ∷ c.encode (c.marshal claims)

  finish_token : Bytes → ℕ → Result SessionError Bytes → Result SessionError (Bytes × ℕ)
  finish_token message expires (err e) = err e
  finish_token message expires (ok signature) = ok (message ++ dot ∷ c.encode signature, expires)

  signed : Result SignError Bytes → Result SessionError Bytes
  signed (ok signature) = ok signature
  signed (err _) = err sign_failed

  issue_with : Option Signer → SessionManager → Identity → ℕ → Result SessionError (Bytes × ℕ)
  unfolding claims_of message_of signed finish_token
  issue_with none m identity now = err incomplete
  issue_with (some s) m identity now =
      let message = message_of (claims_of m identity now) in
      if identity.user_id == "" || identity.org == "" || m.audience == ""
      then err incomplete
      else finish_token message (now + lifetime_of m) (signed (s.sign message))

  -- SessionManager.Issue at the time `now`.
  unfoldable pub issue : SessionManager → Identity → ℕ → Result SessionError (Bytes × ℕ)
  unfolding issue_with
  issue m identity now = issue_with m.signer m identity now

  check_claims : SessionManager → ℕ → SessionClaims → Result SessionError SessionClaims
  check_claims m now k =
      if k.subject == ""
        || k.org == ""
        || not (k.audience == m.audience)
        || leb_ℤ k.issued_at (pos 0)
        || leb_ℤ k.expires_at k.issued_at
        || ltb_ℤ (pos (now / second + 60)) k.issued_at
      then err invalid_session
      else if leb_ℤ k.expires_at (unix now)
      then err expired_session
      else ok k

  decoded : SessionManager → ℕ → Option SessionClaims → Result SessionError SessionClaims
  unfolding check_claims
  decoded m now none = err invalid_session
  decoded m now (some k) = check_claims m now k

  read_claims : SessionManager → ℕ → Option Bytes → Result SessionError SessionClaims
  unfolding decoded
  read_claims m now none = err invalid_session
  read_claims m now (some payload) = decoded m now (c.unmarshal payload)

  accepted : SessionManager → ℕ → Bytes → Option SignError → Result SessionError SessionClaims
  unfolding read_claims
  accepted m now body (some _) = err invalid_session
  accepted m now body none = read_claims m now (c.decode body)

  check_signature :
      Signer → SessionManager → ℕ → Bytes → Bytes → Option Bytes → Result SessionError SessionClaims
  unfolding accepted
  check_signature s m now version body none = err invalid_session
  check_signature s m now version body (some signature) =
      accepted m now body (s.verify (version ++ dot ∷ body) signature)

  verify_parts : Option Signer → SessionManager → ℕ → List Bytes → Result SessionError SessionClaims
  unfolding check_signature
  verify_parts (some s) m now (version ∷ body ∷ signature ∷ []) =
      if bytes_eq version (codes "ds1")
      then check_signature s m now version body (c.decode signature)
      else err invalid_session
  verify_parts _ m now _ = err invalid_session

  -- SessionManager.Verify at the time `now`.
  unfoldable pub verify : SessionManager → Bytes → ℕ → Result SessionError SessionClaims
  unfolding verify_parts split
  verify m token now = verify_parts m.signer m now (split dot token)
