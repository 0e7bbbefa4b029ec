-- ===== src/Operator/Render.antt =====
-- internal/operator/render.go: the upstream Sandbox of a sandbox; and the times and the mode that
-- internal/operator/reconciler.go renders it with.
pub mod Pinned
pub mod Shutdown
mod Examples
use aksagent_sandbox.Base.{
  ℕ, ◌+◌, ◌*◌, ◌/◌, ◌≡◌, String, Bool, true, false, not, ◌&&◌, ◌||◌, Option, none, some, List, [],
  ◌∷◌, ◌++◌, ◌==◌, leb, if◌then◌else◌,
}
use aksagent_sandbox.Base.Int.{ℤ, pos}
use aksagent_sandbox.Base.Bytes.{Bytes, codes}
use aksagent_sandbox.ApiTypes.{
  ProfileName, small, medium, large, no_profile, other_profile, Protocol, tcp, udp, no_protocol,
  other_protocol, ServicePort, DesiredState,
}
use aksagent_sandbox.Lifecycle.Activity.{ActivityResult, connection_stale_after, second}
use aksagent_sandbox.Lifecycle.Secrets.{Json, scalar, object, array, Fields, end, field}
use aksagent_sandbox.Operator.Objects.{DevSandbox, Template, Sizing, Upstream}
use aksagent_sandbox.Operator.Names.{labels_for}
use aksagent_sandbox.Operator.Status.{
  is_phase_running, is_desire_running, is_desire_stopped, idle_timeout,
}

-- A decoded object, by key.
pub get_field : String → Fields → Option Json
get_field key end = none
get_field key (field k child rest) =
    let later = get_field key rest in if k == key then some child else later

nested : Fields → Option Json → Fields
nested decoded (some (object fields)) = fields
nested decoded (some scalar) = decoded
nested decoded (some (array items)) = decoded
nested decoded none = decoded

decoded_spec : Option Fields → Option Fields
unfolding nested get_field
decoded_spec none = none
decoded_spec (some decoded) = some (nested decoded (get_field "spec" decoded))

-- blueprintSpec
unfoldable pub blueprint_spec : Template → Option Fields
unfolding decoded_spec
blueprint_spec t = if t.blueprint_empty then some end else decoded_spec t.decoded

is_found : Option Json → Bool
is_found none = false
is_found (some j) = true

unfoldable pub has_claim_templates : Fields → Bool
unfolding is_found get_field
has_claim_templates spec = is_found (get_field "volumeClaimTemplates" spec)

-- profileSizing
pub profile_sizing : ProfileName → Sizing
profile_sizing large = record { ephemeral = "16Gi"; shm = "4Gi"; pids = "4096" }
profile_sizing medium = record { ephemeral = "8Gi"; shm = "2Gi"; pids = "2048" }
profile_sizing small = record { ephemeral = "4Gi"; shm = "1Gi"; pids = "1024" }
profile_sizing no_profile = record { ephemeral = "4Gi"; shm = "1Gi"; pids = "1024" }
profile_sizing (other_profile name) = record { ephemeral = "4Gi"; shm = "1Gi"; pids = "1024" }

is_tcp : Protocol → Bool
is_tcp tcp = true
is_tcp udp = false
is_tcp no_protocol = false
is_tcp (other_protocol p) = false

-- templateServicePort
pub template_service_port : List ServicePort → Option ℤ
unfolding is_tcp
template_service_port [] = none
template_service_port (p ∷ ps) =
    let later = template_service_port ps in
    if p.name == "code-server" && is_tcp p.protocol then some p.port else later

agent_port : ServicePort
agent_port = record { name = "agent"; port = pos 8081; protocol = tcp }

-- RenderOptions
pub record RenderOptions : Type 0 where
  pub now : ℕ
  pub operating_mode : String
  pub shutdown_time : ℕ
  pub service_account : Bytes
  pub pvc_name : Bytes
  pub upstream_name : Bytes

-- `Format(time.RFC3339)`, which writes whole seconds.
pub in_seconds : ℕ → ℕ
in_seconds t = t / second * second

rendered : DevSandbox → Template → RenderOptions → Option ℤ → Upstream
unfolding agent_port profile_sizing in_seconds
rendered s t o code_server = record {
  name = o.upstream_name;
  namespace = s.namespace;
  controller = "";
  labels = labels_for s;
  spec = record {
    image = codes t.image_repository ++ 64 ∷ codes s.spec.template.image_digest;
    operating_mode = o.operating_mode;
    shutdown_time = in_seconds o.shutdown_time;
    service_account = o.service_account;
    claim_name = o.pvc_name;
    cpu = s.spec.profile.cpu;
    memory = s.spec.profile.memory;
    sizing = profile_sizing s.spec.profile.name;
    ports = agent_port ∷ t.service_ports;
    code_server_port = code_server;
    open_code = t.open_code;
  };
  conditions = [];
}

-- A template with VS Code needs the port of its server.
with_code_server : Bool → Option ℤ → Option (Option ℤ)
with_code_server false port = some none
with_code_server true none = none
with_code_server true (some p) = some (some p)

after_port : DevSandbox → Template → RenderOptions → Option (Option ℤ) → Option Upstream
unfolding rendered
after_port s t o none = none
after_port s t o (some port) = some (rendered s t o port)

after_spec : DevSandbox → Template → RenderOptions → Option Fields → Option Upstream
unfolding has_claim_templates after_port with_code_server template_service_port
after_spec s t o none = none
after_spec s t o (some spec) =
    if has_claim_templates spec
    then none
    else after_port s t o (with_code_server t.vscode (template_service_port t.service_ports))

-- RenderUpstreamSandbox
unfoldable pub render_upstream : DevSandbox → Template → RenderOptions → Option Upstream
unfolding after_spec blueprint_spec
render_upstream s t o =
    if t.image_repository == "" || not (t.image_digest == s.spec.template.image_digest)
    then none
    else after_spec s t o (blueprint_spec t)

abbrev pub operating_mode : DesiredState → String
operating_mode e = if is_desire_stopped e then "Suspended" else "Running"

starting_shutdown : ℕ → DevSandbox → ActivityResult → DesiredState → ℕ
starting_shutdown now s a e =
    if is_desire_running e && not (is_phase_running s.status.phase)
    then now + idle_timeout s
    else a.idle_deadline

live_shutdown : ℕ → DevSandbox → ActivityResult → ℕ → ℕ
live_shutdown now s a shutdown =
    if a.has_live_lease && leb shutdown now then now + idle_timeout s else shutdown

-- When the upstream controller may stop the pod.
unfoldable pub shutdown_time : ℕ → DevSandbox → ActivityResult → DesiredState → ℕ
unfolding starting_shutdown live_shutdown
shutdown_time now s a e =
    if is_desire_stopped e
    then now
    else if a.has_running_job
    then now + (connection_stale_after + idle_timeout s)
    else live_shutdown now s a (starting_shutdown now s a e)
