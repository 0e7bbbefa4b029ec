-- ===== src/Operator/Cluster.antt =====
-- What internal/operator calls: the client of the API server, the quota manager of internal/lifecycle
-- and the clock. A call carries the state `W` of the world; an error is returned and not thrown.
use aksagent_sandbox.Base.{
  ℕ, ◌≡◌, refl, String, Bool, true, false, Option, none, some, List, Result, ok, err, if◌then◌else◌,
}
use aksagent_sandbox.Base.Bytes.{Bytes}
use aksagent_sandbox.Lifecycle.Quota.{UserQuota, QuotaError}
use aksagent_sandbox.Lifecycle.Quota.Retry.{QuotaStore, QuotaManager}
use aksagent_sandbox.Lifecycle.Validation.{Formats}
use aksagent_sandbox.Operator.Objects.{
  DevSandbox, DevSandboxStatus, Template, Claim, Account, ActivityLeaseObject, Job, UpstreamSpec,
  Upstream, Labels,
}

pub data ApiError : Type 0 where
  not_found already_exists conflict : ApiError
  api_fault : ℕ → ApiError

pub data OperatorError : Type 0 where
  api_error : ApiError → OperatorError
  quota_error : QuotaError → OperatorError
  quota_identity not_controlled invalid_storage : OperatorError

abbrev pub Call : Type 0 → Type 0 → Type 0
Call W A = W → Result OperatorError A × W

module _ {W : Type 0} where
  abbrev pub bind_result :
      {A B : Type 0} → (A → Call W B) → Result OperatorError A × W → Result OperatorError B × W
  bind_result f (ok a, w) = f a w
  bind_result f (err e, w) = (err e, w)

  infixl 5 ◌>>=◌ ◌>>◌
  abbrev pub ◌>>=◌ : {A B : Type 0} → Call W A → (A → Call W B) → Call W B
  ◌>>=◌ m f w = bind_result f (m w)

  abbrev pub ◌>>◌ : {A B : Type 0} → Call W A → Call W B → Call W B
  m >> k = m >>= λ _. k

  abbrev pub pure : {A : Type 0} → A → Call W A
  pure a w = (ok a, w)

  abbrev pub raise : {A : Type 0} → OperatorError → Call W A
  raise e w = (err e, w)

  abbrev pub api_result : {A : Type 0} → Result ApiError A × W → Result OperatorError A × W
  api_result (ok a, w) = (ok a, w)
  api_result (err e, w) = (err (api_error e), w)

  -- `if err != nil { return err }` after a call of the client.
  abbrev pub call : {A : Type 0} → (W → Result ApiError A × W) → Call W A
  call m w = api_result (m w)

  abbrev pub write_result : Option ApiError × W → Result OperatorError Unit × W
  write_result (none, w) = (ok tt, w)
  write_result (some e, w) = (err (api_error e), w)

  abbrev pub write : (W → Option ApiError × W) → Call W Unit
  write m w = write_result (m w)

  abbrev pub delete_result : Option ApiError × W → Result OperatorError Unit × W
  delete_result (none, w) = (ok tt, w)
  delete_result (some not_found, w) = (ok tt, w)
  delete_result (some already_exists, w) = (err (api_error already_exists), w)
  delete_result (some conflict, w) = (err (api_error conflict), w)
  delete_result (some (api_fault n), w) = (err (api_error (api_fault n)), w)

  -- `if err != nil && !apierrors.IsNotFound(err) { return err }`
  abbrev pub unless_not_found : (W → Option ApiError × W) → Call W Unit
  unless_not_found m w = delete_result (m w)

  -- A result that the caller looks at itself.
  abbrev pub attempt : {E A : Type 0} → (W → Result E A × W) → Call W (Result E A)
  attempt m w = let (r, w') = m w in (ok r, w')

  abbrev pub gets : {A : Type 0} → (W → A) → Call W A
  gets f w = (ok (f w), w)

  bind_result-ok :
      {A B : Type 0} (f : A → Call W B) (p : Result OperatorError A × W) (b : B) (w' : W)
      → bind_result f p ≡ (ok b, w')
      → (a : A) × (w1 : W) × (p ≡ (ok a, w1)) × (f a w1 ≡ (ok b, w'))
  bind_result-ok f (ok a, w1) b w' h = (a, w1, refl, h)
  bind_result-ok f (err e, w1) b w' h = cc

  -- A bind that succeeds is two calls that succeed.
  pub >>=-ok :
      {A B : Type 0} (m : Call W A) (f : A → Call W B) (w : W) (b : B) (w' : W)
      → (m >>= f) w ≡ (ok b, w')
      → (a : A) × (w1 : W) × (m w ≡ (ok a, w1)) × (f a w1 ≡ (ok b, w'))
  >>=-ok m f w b w' h = bind_result-ok f (m w) b w' h

module _ {W : Type 0} where
  api_result-ok :
      {A : Type 0} (p : Result ApiError A × W) (a : A) (w' : W)
      → api_result p ≡ (ok a, w')
      → p ≡ (ok a, w')
  api_result-ok (ok b, w1) a w' h = cc
  api_result-ok (err e, w1) a w' h = cc

  pub call-ok :
      {A : Type 0} (m : W → Result ApiError A × W) (w : W) (a : A) (w' : W)
      → call m w ≡ (ok a, w')
      → m w ≡ (ok a, w')
  call-ok m w a w' h = api_result-ok (m w) a w' h

  pub attempt-ok :
      {E A : Type 0} (m : W → Result E A × W) (w : W) (r : Result E A) (w' : W)
      → attempt m w ≡ (ok r, w')
      → m w ≡ (r, w')
  attempt-ok m w r w' h = cc

-- Every result that a call can return has the property.
unfoldable pub Yields : {W A : Type 0} → (A → Type 0) → Call W A → Type 0
Yields {W} {A} P m = (w : W) (a : A) (w' : W) → m w ≡ (ok a, w') → P a

module _ (W : Type 0) {A : Type 0} (P : A → Type 0) where
  pub pure-Yields : (a : A) → P a → Yields {W = W} P (pure a)
  unfolding Yields
  pure-Yields a p w b w' h = let e : a ≡ b = cc in (rw e at p)

  pub raise-Yields : (e : OperatorError) → Yields {W = W} P (raise e)
  unfolding Yields
  raise-Yields e w b w' h = cc

module _ {W A : Type 0} (P : A → Type 0) where
  pub if-Yields :
      (b : Bool) (m k : Call W A)
      → (b ≡ true → Yields P m)
      → (b ≡ false → Yields P k)
      → Yields P (if b then m else k)
  if-Yields true m k p q = p refl
  if-Yields false m k p q = q refl

  -- What holds after each result of the first call holds after the bind.
  pub >>=-Yields :
      {B : Type 0} (m : Call W B) (f : B → Call W A)
      → ((b : B) (w w1 : W) → m w ≡ (ok b, w1) → Yields P (f b))
      → Yields P (m >>= f)
  unfolding Yields
  >>=-Yields m f h w a w' e = let (b, w1, p, q) = >>=-ok m f w a w' e in h b w w1 p w1 a w' q

-- Every result that a call made at `w` can return has the property.
unfoldable pub YieldsAt : {W A : Type 0} → (A → Type 0) → Call W A → W → Type 0
YieldsAt {W} {A} P m w = (a : A) (w' : W) → m w ≡ (ok a, w') → P a

-- A call made at `w` returned a result, and this is what is known of it and of the world that it left.
abbrev pub After : {W A : Type 0} → Call W A → (A → W → Type 0) → W → Type 0
After {W} {A} m P w = (a : A) × (w1 : W) × (m w ≡ (ok a, w1)) × P a w1

module _ {W A : Type 0} (P : A → Type 0) where
  pub Yields-YieldsAt : (m : Call W A) → Yields P m → (w : W) → YieldsAt P m w
  unfolding Yields YieldsAt
  Yields-YieldsAt m h w a w' e = h w a w' e

  pub YieldsAt-Yields : (m : Call W A) → ((w : W) → YieldsAt P m w) → Yields P m
  unfolding Yields YieldsAt
  YieldsAt-Yields m h w a w' e = h w a w' e

  pub if-YieldsAt :
      (b : Bool) (m k : Call W A) (w : W)
      → (b ≡ true → YieldsAt P m w)
      → (b ≡ false → YieldsAt P k w)
      → YieldsAt P (if b then m else k) w
  if-YieldsAt true m k w p q = p refl
  if-YieldsAt false m k w p q = q refl

  -- A bind is what its second call is at the world that its first call left.
  pub >>=-YieldsAt :
      {B : Type 0} (m : Call W B) (f : B → Call W A) (w : W)
      → ((b : B) (w1 : W) → m w ≡ (ok b, w1) → YieldsAt P (f b) w1)
      → YieldsAt P (m >>= f) w
  unfolding YieldsAt
  >>=-YieldsAt m f w h a w' e = let (b, w1, p, q) = >>=-ok m f w a w' e in h b w1 p a w' q

-- The client of the API server, by object. Objects of a sandbox are read by namespace and name.
pub record Cluster (W : Type 0) : Type 0 where
  pub formats : Formats
  -- resource.ParseQuantity and Value, of a quantity that is not negative
  pub quantity_bytes : String → Option ℕ
  pub user_digest : String → Bytes
  -- reservationID of an object without UID
  pub joined_name : String → String → String
  pub now : W → ℕ
  -- `"Upstream" + type`
  pub upstream_type : String → String
  -- reflect.DeepEqual
  pub same_status : DevSandboxStatus → DevSandboxStatus → Bool
  pub same_labels : Labels → Labels → Bool
  pub same_upstream : UpstreamSpec → UpstreamSpec → Bool
  pub get_sandbox : W → Result ApiError DevSandbox × W
  -- the object that the server gives back replaces the one of the caller
  pub update_sandbox : DevSandbox → W → Result ApiError DevSandbox × W
  pub update_status : DevSandbox → W → Option ApiError × W
  pub delete_sandbox : DevSandbox → W → Option ApiError × W
  pub get_template : String → W → Result ApiError Template × W
  pub get_claim : String → Bytes → W → Result ApiError Claim × W
  pub create_claim : String → Bytes → Claim → W → Option ApiError × W
  pub delete_claim : String → Bytes → W → Option ApiError × W
  pub get_account : String → Bytes → W → Result ApiError Account × W
  pub create_account : String → Bytes → Account → W → Option ApiError × W
  pub update_account : String → Bytes → Account → W → Option ApiError × W
  pub delete_account : String → Bytes → W → Option ApiError × W
  pub get_lease : String → Bytes → W → Result ApiError ActivityLeaseObject × W
  pub create_lease : String → Bytes → ActivityLeaseObject → W → Option ApiError × W
  pub update_lease : String → Bytes → ActivityLeaseObject → W → Option ApiError × W
  pub delete_lease : String → Bytes → W → Option ApiError × W
  pub get_upstream : String → Bytes → W → Result ApiError Upstream × W
  pub create_upstream : String → Upstream → W → Result ApiError Upstream × W
  pub update_upstream : String → Upstream → W → Result ApiError Upstream × W
  pub delete_upstream : String → Bytes → W → Option ApiError × W
  pub list_jobs : String → W → Result ApiError (List Job) × W
  pub delete_job : Job → W → Option ApiError × W
  pub get_volume : String → W → Result ApiError Unit × W
  pub delete_volume : String → W → Option ApiError × W
  pub get_quota : String → Bytes → W → Result ApiError UserQuota × W
  pub create_quota : String → Bytes → UserQuota → W → Option ApiError × W
  -- clientQuotaStore for the quota of that namespace and name
  pub quota_store : String → Bytes → QuotaStore W

-- lifecycle.QuotaManager as the operator makes it.
abbrev pub quota_manager : {W : Type 0} → Cluster W → String → Bytes → ℕ → QuotaManager W
quota_manager c namespace name now = record {
  store = some (c.quota_store namespace name);
  max_attempts = 12;
  now = now;
}
