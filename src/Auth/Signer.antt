-- ===== src/Auth/Signer.antt =====
-- internal/auth/session.go, the signers. The keyed hash, the digest and the calls of the Key
-- Vault are parameters.
use aksagent_sandbox.Base.{
  ℕ, ◌≡◌, length, ltb, if◌then◌else◌, Result, ok, err, arith, ◌==◌, String, Option, none, some,
}
use aksagent_sandbox.Base.Bytes.{Bytes, bytes_eq, bytes_eq_refl}

pub data SignError : Type 0 where
  key_too_short not_configured signature_mismatch : SignError
  vault_failed : ℕ → SignError

-- The interface: `verify` returns nil for a signature that it accepts.
pub record Signer : Type 0 where
  pub sign : Bytes → Result SignError Bytes
  pub verify : Bytes → Bytes → Option SignError

-- What `sign` returns, `verify` accepts.
abbrev pub IsConsistent : Signer → Type 0
IsConsistent s =
    (message signature : Bytes) → s.sign message ≡ ok signature → s.verify message signature ≡ none

-- HMACSigner, over the keyed hash `mac` of crypto/hmac; `hmac.Equal` compares all bytes.
module _ (mac : Bytes → Bytes → Bytes) where
  unfoldable pub hmac_sign : Bytes → Bytes → Result SignError Bytes
  hmac_sign key message = if ltb (length key) 32 then err key_too_short else ok (mac key message)

  compared : Result SignError Bytes → Bytes → Option SignError
  compared (err e) signature = some e
  compared (ok expected) signature =
      if bytes_eq expected signature then none else some signature_mismatch

  unfoldable pub hmac_verify : Bytes → Bytes → Bytes → Option SignError
  unfolding compared hmac_sign
  hmac_verify key message signature = compared (hmac_sign key message) signature

  abbrev pub hmac_signer : Bytes → Signer
  hmac_signer key = record { sign = hmac_sign key; verify = hmac_verify key }

  compared_same : (r : Result SignError Bytes) (s : Bytes) → r ≡ ok s → compared r s ≡ none
  unfolding compared
  compared_same (err e) s h = cc
  compared_same (ok a) s h = ground (arith, bytes_eq_refl s)

  -- An HMAC signer accepts its own signatures.
  pub hmac_signer-IsConsistent : (key : Bytes) → IsConsistent (hmac_signer key)
  unfolding hmac_verify
  hmac_signer-IsConsistent key m s h = compared_same (hmac_sign key m) s h

-- KeyVaultSigner, over the vault client and the digest of crypto/sha256.
pub record KeyVaultClient : Type 0 where
  pub sign_digest : String → Bytes → Result ℕ Bytes
  pub verify_digest : String → Bytes → Bytes → Option ℕ

module _ (sha256 : Bytes → Bytes) where
  vault_result : Result ℕ Bytes → Result SignError Bytes
  vault_result (ok s) = ok s
  vault_result (err n) = err (vault_failed n)

  vault_error : Option ℕ → Option SignError
  vault_error none = none
  vault_error (some n) = some signature_mismatch

  pub sign_with : Option KeyVaultClient → String → Bytes → Result SignError Bytes
  unfolding vault_result
  sign_with none key_id message = err not_configured
  sign_with (some c) key_id message =
      if key_id == ""
      then err not_configured
      else vault_result (c.sign_digest key_id (sha256 message))

  pub verify_with : Option KeyVaultClient → String → Bytes → Bytes → Option SignError
  unfolding vault_error
  verify_with none key_id message signature = some not_configured
  verify_with (some c) key_id message signature =
      if key_id == ""
      then some not_configured
      else vault_error (c.verify_digest key_id (sha256 message) signature)

  abbrev pub key_vault_signer : Option KeyVaultClient → String → Signer
  key_vault_signer c key_id = record { sign = sign_with c key_id; verify = verify_with c key_id }
