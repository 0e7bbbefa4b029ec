-- ===== src/Lib.antt =====
-- Verification library of the AKS agent sandbox platform, which runs developer sandboxes in
-- Kubernetes: users log in through GitHub and get a session (internal/auth); the operator and the
-- API account for each user's sandboxes in a quota and stop idle ones (internal/lifecycle); a pod
-- gets its owner's GitHub token from the credential broker (internal/broker), which asks the same
-- credential manager that a login writes to.
--
-- Files and code:
--   Base: shared names, tests, lists, machine integers, results, bytes, texts and maps.
--   ApiTypes: api/v1alpha1/types.go, the specification of a sandbox.
--   Lifecycle/Quota: internal/lifecycle/quota.go. `reserve`, `reconcile_reservation` and `release`
--     are the methods of QuotaManager of these names, over `retry_loop`, the loop of its
--     retry. The counters wrap as int32 and int64.
--   Lifecycle/Activity: internal/lifecycle/activity.go. `evaluate_activity` is EvaluateActivity.
--   Lifecycle/Secrets and Lifecycle/Validation: internal/lifecycle/validation.go.
--     `secret_like_field`, `default_dev_sandbox`, `validate_dev_sandbox` and `validate_update` are
--     SecretLikeField, DefaultDevSandbox, ValidateDevSandbox and ValidateDevSandboxUpdate.
--   Operator/Objects, Operator/Cluster: the objects that internal/operator reads and writes and the
--     client of the API server. Operator/Samples: a cluster for tests.
--   Operator/Names, Operator/Render: internal/operator/render.go. `resource_name`, `gib_of` and
--     `render_upstream` are resourceName, storageGiB and RenderUpstreamSandbox.
--   Operator/Status, Operator/Ensure, Operator/Deletion, Operator/Verdict, Operator/Resolve and
--     Operator/Reconcile: internal/operator/reconciler.go. `reconcile` is Reconcile: `decide` is
--     its body up to the tail call of updateStatus, which is a value that `settle` carries out;
--     each stage between two calls is a function. `reconcile_delete` is reconcileDelete.
--     What a start, a stop for idleness and a finished deletion have behind them is said of the
--     world at which a pass begins: the calls are chained from there (`After` in Operator/Cluster,
--     Operator/Reconcile/Idle, Operator/Resolve/Stages and Starts, Operator/Deletion/Children).
--   Operator/Phases: the lifecycle of a sandbox as a machine of phases, apart from the code.
--   Supervisor/Manager and Supervisor/Listing: internal/supervisor/manager.go. One function for each
--     stretch of code that holds the manager's mutex; Supervisor/Manager/Steps is their
--     interleaving. `list_jobs` is Jobs.
--   Auth/Signer and Auth/Session: internal/auth/session.go. `issue` and `verify` are the methods
--     of SessionManager.
--   Auth/Credentials: internal/auth/credentials.go. `access_token` and `store_refresh` are the
--     methods of CredentialManager.
--   Auth/DeviceStates and Auth/Login: internal/auth/device.go. `start` and `poll` are the methods
--     of LoginService, over the memory store of device states.
--   Auth/LeaseLocker: internal/auth/lease.go. `try_acquire`, `release` and `lock_loop` are the
--     methods tryAcquire and release and the loop of Lock of KubernetesLeaseLocker, for one user
--     and holder.
--   Gateway/Claims: internal/gateway/claims.go. `issue_claim`, `verify_claim` and `verify_sandbox`
--     are the methods of ClaimManager.
--   Broker: internal/broker/broker.go. `credential` is Service.Credential.
--
-- State and errors: a record of functions stands for each interface that the code calls (the API
-- server, GitHub, Key Vault, the reviewer, clocks, the random source); its functions take the state
-- of the world and return it with their result. What the code relies on of them is a record of laws
-- (Codec's IsLawful, LeaseCount, Vault). An error is a value; the text of a message is left out.
-- A function that goes on after a call has one clause for each result of the call.
--
-- Bounds: the retry loop recurses on its number of attempts, which the code has too, so no fuel is
-- added. The loop of Lock takes a number of tries; more tries than waits until the context is done
-- are enough. Instants are nanoseconds since the Unix epoch, or seconds for claims, and never
-- before it; the cut-off of sums of instants near the year 2262 is not modelled. The shutdown time of
-- a rendered Sandbox is cut to seconds, as its format cuts it; sizes in GiB wrap as int64. A duration that
-- is not positive, which the code replaces by a default, is given as 0.
--
-- Parameters: Kubernetes quantities, URLs, JSON, digests, reflect.DeepEqual and the order of texts
-- that are joined are functions of a record. Labels, conditions and the fields of an object are
-- lists of pairs; the code's order of conditions is not kept.
--
-- Not modelled: the other controllers of the operator, the processes and streams of the supervisor,
-- the HTTP interfaces, the gateway's routing, the device store in Kubernetes, git and GitHub
-- clients, audit events and metrics, the constant fields of a rendered pod, and the mutexes around
-- the caches (each operation is one step of its own).
pub mod Base
pub mod ApiTypes
pub mod Lifecycle
pub mod Auth
pub mod Broker
pub mod Gateway
pub mod Operator
pub mod Supervisor
