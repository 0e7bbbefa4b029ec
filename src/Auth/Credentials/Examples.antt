-- ===== src/Auth/Credentials/Examples.antt =====
-- A login and two token requests in a small world that counts leases, keeps one secret and rotates
-- it at every refresh.
use aksagent_sandbox.Base.{
  ℕ, suc, ◌+◌, ◌≡◌, refl, true, none, [], ◌∷◌, ok, ok_injective, ap, sym, ◌∙◌,
}
use aksagent_sandbox.Base.Map.{find, put, delete}
use aksagent_sandbox.Auth.Credentials.{
  StoredCredential, CachedAccess, Services, Cache, CredentialManager, access_token, store_refresh,
}
use aksagent_sandbox.Auth.Credentials.Lease.{LeaseCount, Balanced, access_token-Balanced}
use aksagent_sandbox.Auth.Credentials.Fresh.{Vault, IsCached, access_token-IsCached}
use aksagent_sandbox.Auth.Credentials.Replaced.{store_refresh-replaces}

record World : Type 0 where
  pub taken : ℕ
  pub given : ℕ
  pub secret : StoredCredential
  pub clock : ℕ

abbrev services : Services World
services = record {
  lock = λ user w.
      (none, record { taken = suc w.taken; given = w.given; secret = w.secret; clock = w.clock });
  unlock = λ user w.
      (none, record { taken = w.taken; given = suc w.given; secret = w.secret; clock = w.clock });
  read = λ user w. (ok w.secret, w);
  write = λ user v w. (
    ok "v2",
    record {
      taken = w.taken;
      given = w.given;
      secret = record { value = v; version = "v2" };
      clock = w.clock;
    },
  );
  refresh = λ v w. (
    ok (record { access_token = "gho"; access_expires_at = w.clock + 100; refresh_token = "r2" }),
    w,
  );
  now = λ w. w.clock;
}

abbrev manager : CredentialManager
manager = record { has_store = true; has_refresher = true; has_locker = true; skew = 10 }

abbrev start : World
start = record { taken = 0; given = 0; secret = record { value = "r1"; version = "v1" }; clock = 5 }

abbrev finished : World
finished = record {
  taken = 1;
  given = 1;
  secret = record { value = "r2"; version = "v2" };
  clock = 5;
}

abbrev entry : CachedAccess
entry = record { token = "gho"; expires_at = 105; source_version = "v2" }

abbrev empty : Cache
empty = []

count : LeaseCount services "42"
count = record {
  taken = λ w. w.taken;
  given = λ w. w.given;
  lock_taken = λ w w' h. (ap (λ p. p.1.taken) (sym h), ap (λ p. p.1.given) (sym h));
  lock_refused = λ w w' e h. cc;
  unlock_given = λ w. (refl, refl);
  read_keeps = λ w. (refl, refl);
  write_keeps = λ v w. (refl, refl);
  refresh_keeps = λ v w. (refl, refl);
}

abbrev vault : Vault services "42"
vault = record {
  newest = λ w. w.secret;
  read_newest = λ w w' c h. sym (ok_injective (ap (λ p. p.0) h)) ∙ ap (λ p. p.1.secret) h;
  write_newest = λ v version w w' h.
      sym (ap (λ p. p.1.secret) h)
      ∙ ap (λ x. record { value = v; version = x }) (ok_injective (ap (λ p. p.0) h));
  refresh_keeps = λ v w. refl;
  unlock_keeps = λ w. refl;
}

runs : access_token services manager "42" [] start ≡ (ok ("gho", 105), ("42", entry) ∷ [], finished)
unfolding access_token put
runs = refl

access_token-Balanced_example :
    Balanced services manager "42" count start (access_token services manager "42" [] start).2
access_token-Balanced_example = access_token-Balanced services manager "42" count [] start

access_token-IsCached_example : IsCached "42" (("42", entry) ∷ []) "gho" 105 "v2"
unfolding access_token put
access_token-IsCached_example =
    access_token-IsCached services manager "42" vault [] (("42", entry) ∷ []) start finished "gho"
      105 refl

store_refresh-replaces_example : (find "42" empty ≡ none) × (finished.secret.value ≡ "r2")
unfolding store_refresh delete
store_refresh-replaces_example =
    store_refresh-replaces services manager "42" vault "r2" (("42", entry) ∷ []) [] start finished
      refl
