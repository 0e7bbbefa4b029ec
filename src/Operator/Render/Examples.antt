-- ===== src/Operator/Render/Examples.antt =====
-- A sandbox that starts, rendered from its template.
use aksagent_sandbox.Base.{◌<◌, ◌*◌, ◌&&◌, ◌≡◌, refl, false, none, some, [], Option, arith}
use aksagent_sandbox.Base.Bytes.{codes}
use aksagent_sandbox.ApiTypes.{phase_running, desire_running}
use aksagent_sandbox.Lifecycle.Activity.{ActivityResult, ActivityLease, evaluate_activity, second}
use aksagent_sandbox.Lifecycle.Validation.{default_dev_sandbox}
use aksagent_sandbox.Lifecycle.Validation.Samples.{spec}
use aksagent_sandbox.Operator.Objects.{DevSandbox, Upstream}
use aksagent_sandbox.Operator.Status.{idle_timeout, is_phase_running}
use aksagent_sandbox.Operator.Render.{RenderOptions, rendered, render_upstream, shutdown_time}
use aksagent_sandbox.Operator.Render.Pinned.{IsPinned, render_upstream-IsPinned}
use aksagent_sandbox.Operator.Render.Shutdown.{IsAway, early, shutdown_time-later}
use aksagent_sandbox.Operator.Samples.{sandbox, template}

abbrev started : DevSandbox
started = record (sandbox phase_running) { spec = default_dev_sandbox spec }

abbrev live : Option ActivityLease
live = some (record { renew_time = some (190 * second) })

abbrev activity : ActivityResult
activity = evaluate_activity (200 * second) (100 * second) (idle_timeout started) live []

abbrev options : RenderOptions
options = record {
  now = 200 * second;
  operating_mode = "Running";
  shutdown_time = shutdown_time (200 * second) started activity desire_running;
  service_account = codes "account";
  pvc_name = codes "claim";
  upstream_name = codes "upstream";
}

abbrev shown : Upstream
shown = rendered started template options none

is_shown : render_upstream started template options ≡ some shown
unfolding render_upstream default_dev_sandbox
is_shown = refl

render_upstream-IsPinned_example : IsPinned started template options shown
render_upstream-IsPinned_example = render_upstream-IsPinned started template options shown is_shown

timeout_positive : 0 < idle_timeout started
unfolding default_dev_sandbox
timeout_positive = omega arith

not_idle : (is_phase_running started.status.phase && activity.should_idle_stop) ≡ false
unfolding evaluate_activity default_dev_sandbox
not_idle = refl

ahead : IsAway (200 * second) started activity
unfolding evaluate_activity default_dev_sandbox
ahead = early (omega arith)

shutdown_time-later_example : 200 * second < shown.spec.shutdown_time
shutdown_time-later_example =
    shutdown_time-later (200 * second) (100 * second) started started live [] template options shown
      timeout_positive not_idle ahead refl is_shown
