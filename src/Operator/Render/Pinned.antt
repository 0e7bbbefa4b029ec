-- ===== src/Operator/Render/Pinned.antt =====
-- internal/operator/render.go: what a rendered Sandbox is.
use aksagent_sandbox.Base.{
  ◌≡◌, ◌≢◌, refl, sym, ap, ◌∙◌, Bool, true, false, not, ◌||◌, ◌==◌, ◌++◌, ◌∷◌, Option, none, some,
  arith, eq_iff, Bool-cases, inl, inr,
}
use aksagent_sandbox.Base.Int.{ℤ}
use aksagent_sandbox.Base.Bytes.{codes}
use aksagent_sandbox.Lifecycle.Secrets.{Fields}
use aksagent_sandbox.Operator.Objects.{DevSandbox, Template, Upstream}
use aksagent_sandbox.Operator.Names.{labels_for}
use aksagent_sandbox.Operator.Render.{
  blueprint_spec, has_claim_templates, template_service_port, rendered, with_code_server,
  after_port, after_spec, render_upstream, RenderOptions, in_seconds,
}

module _ (s : DevSandbox) (t : Template) (o : RenderOptions) where
  -- The image is the repository of the template at the digest that the sandbox is pinned to, which is
  -- the one of the template; the namespace and labels are those of this sandbox, and the names, the mode
  -- and the time, in whole seconds, those of the options.
  pub record IsPinned (u : Upstream) : Type 0 where
    pub repository : t.image_repository ≢ ""
    pub digest : t.image_digest ≡ s.spec.template.image_digest
    pub image : u.spec.image ≡ codes t.image_repository ++ 64 ∷ codes s.spec.template.image_digest
    pub named : u.name ≡ o.upstream_name
    pub placed : (u.namespace ≡ s.namespace) × (u.labels ≡ labels_for s)
    pub claim : u.spec.claim_name ≡ o.pvc_name
    pub account : u.spec.service_account ≡ o.service_account
    pub mode : u.spec.operating_mode ≡ o.operating_mode
    pub shutdown : u.spec.shutdown_time ≡ in_seconds o.shutdown_time
    pub blueprint :
        (fields : Fields) × (blueprint_spec t ≡ some fields) × (has_claim_templates fields ≡ false)
    pub served :
        t.vscode ≡ true
        → (p : ℤ) × (u.spec.code_server_port ≡ some p)
          × (template_service_port t.service_ports ≡ some p)

  after_port-rendered :
      (port : Option (Option ℤ)) (u : Upstream)
      → after_port s t o port ≡ some u
      → (p : Option ℤ) × (port ≡ some p) × (rendered s t o p ≡ u)
  unfolding after_port
  after_port-rendered none u h = cc
  after_port-rendered (some p) u h = (p, refl, cc)

  after_spec-rendered :
      (spec : Option Fields) (u : Upstream)
      → after_spec s t o spec ≡ some u
      → (fields : Fields) × (spec ≡ some fields)
        × (has_claim_templates fields ≡ false)
        × ((p : Option ℤ) × (with_code_server t.vscode (template_service_port t.service_ports)
              ≡ some p)
            × (rendered s t o p ≡ u))
  unfolding after_spec
  after_spec-rendered none u h = cc
  after_spec-rendered (some fields) u h = elim (Bool-cases (has_claim_templates fields)) [
    | inl p ↦ cc (rw p at h)
    | inr p ↦ (fields, refl, p, after_port-rendered _ u (rw p at h))
  ]

  code_server-served :
      (vscode : Bool) (port p : Option ℤ)
      → with_code_server vscode port ≡ some p
      → vscode ≡ true
      → (n : ℤ) × (p ≡ some n) × (port ≡ some n)
  unfolding with_code_server
  code_server-served false port p h v = cc
  code_server-served true none p h v = cc
  code_server-served true (some n) p h v = (n, cc, refl)

  -- A Sandbox that RenderUpstreamSandbox returns runs the image of the template at the digest that the
  -- sandbox is pinned to, which is the one of the template; its blueprint decoded and defines no claim
  -- templates; it has the namespace and labels of the sandbox, the name, claim, account and mode of the
  -- options, their shutdown time in whole seconds, and with VS Code the port of the template's code
  -- server.
  pub render_upstream-IsPinned : (u : Upstream) → render_upstream s t o ≡ some u → IsPinned u
  unfolding render_upstream rendered
  render_upstream-IsPinned u h =
      elim (Bool-cases
        (t.image_repository == "" || not (t.image_digest == s.spec.template.image_digest))) [
          | inl p ↦ cc (rw p at h)
          | inr p ↦
              let (fields, e, free, (port, f, g)) =
                after_spec-rendered (blueprint_spec t) u (rw p at h) in
              record {
                repository = ground (arith, eq_iff t.image_repository "");
                digest = ground (arith, eq_iff t.image_digest s.spec.template.image_digest);
                image = ap (λ u. u.spec.image) (sym g);
                claim = ap (λ u. u.spec.claim_name) (sym g);
                named = ap (λ u. u.name) (sym g);
                placed = (ap (λ u. u.namespace) (sym g), ap (λ u. u.labels) (sym g));
                account = ap (λ u. u.spec.service_account) (sym g);
                mode = ap (λ u. u.spec.operating_mode) (sym g);
                shutdown = ap (λ u. u.spec.shutdown_time) (sym g);
                blueprint = (fields, e, free);
                served = λ v.
                    let (n, x, y) = code_server-served t.vscode _ port f v in
                    (n, ap (λ u. u.spec.code_server_port) (sym g) ∙ x, y);
              }
        ]
