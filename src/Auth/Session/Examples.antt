-- ===== src/Auth/Session/Examples.antt =====
-- Sessions under a toy hash and a toy encoding that keep the documented laws: the encoding shifts
-- bytes so that no dot is left, and one pair of claims is in use.
use aksagent_sandbox.Base.{◌+◌, ◌-◌, ◌*◌, ◌≡◌, refl, ap, some, [], ◌∷◌, ◌++◌, arith, ok}
use aksagent_sandbox.Base.Int.{pos}
use aksagent_sandbox.Base.Bytes.{Bytes, codes, Lacks, bytes_eq}
use aksagent_sandbox.Auth.Signer.{hmac_signer, hmac_signer-IsConsistent, hmac_sign, hmac_verify}
use aksagent_sandbox.Auth.Session.{
  Identity, SessionClaims, Codec, IsLawful, SessionManager, dot, second, issue, verify, claims_of,
}
use aksagent_sandbox.Auth.Session.Tokens.{verify-issue}
use aksagent_sandbox.Auth.Session.Accepted.{IsAccepted, verify-IsAccepted}

abbrev shift : Bytes → Bytes
shift [] = []
shift (b ∷ bs) = (b + 47) ∷ shift bs

abbrev unshift : Bytes → Bytes
unshift [] = []
unshift (b ∷ bs) = (b - 47) ∷ unshift bs

abbrev identity : Identity
identity = record { user_id = "42"; login = "octo"; org = "acme" }

abbrev claims : SessionClaims
claims = record {
  subject = "42";
  login = "octo";
  org = "acme";
  audience = "devsandbox";
  issued_at = pos 1000;
  expires_at = pos 1900;
}

abbrev codec : Codec SessionClaims
codec = record {
  marshal = λ _. 7 ∷ [];
  unmarshal = λ _. some claims;
  encode = shift;
  decode = λ b. some (unshift b);
}

unshift-shift : (b : Bytes) → unshift (shift b) ≡ b
unshift-shift [] = refl
unshift-shift (x ∷ b) = ground (arith, unshift-shift b)

shift-Lacks : (b : Bytes) → Lacks dot (shift b)
shift-Lacks [] = tt
shift-Lacks (x ∷ b) = (ground arith, shift-Lacks b)

codec-IsLawful : IsLawful codec
codec-IsLawful = record {
  decode-encode = λ b. ap some (unshift-shift b);
  encode-Lacks = shift-Lacks;
}

abbrev mac : Bytes → Bytes → Bytes
mac key message = key ++ message

abbrev key : Bytes
key = codes "0123456789abcdef0123456789abcdef"

abbrev manager : SessionManager
manager = record { signer = some (hmac_signer mac key); audience = "devsandbox"; lifetime = 0 }

abbrev token : Bytes
token = codes "ds1" ++ dot ∷ (54 ∷ dot ∷ shift (key ++ codes "ds1" ++ dot ∷ 54 ∷ []))

verify-issue_example :
    verify codec manager token (1200 * second) ≡ ok (claims_of manager identity (1000 * second))
unfolding issue hmac_sign claims_of
verify-issue_example =
    verify-issue codec codec-IsLawful (hmac_signer mac key) manager refl identity (1000 * second)
      (1200 * second) token (1900 * second) (hmac_signer-IsConsistent mac key) refl (omega arith)
      (omega arith) (omega arith) refl

verify-IsAccepted_example : IsAccepted codec manager token (1200 * second) claims
unfolding verify hmac_verify bytes_eq
verify-IsAccepted_example = verify-IsAccepted codec manager (1200 * second) claims token refl
