-- ===== src/Lib.antt =====
-- Verification of the cluster agent: the controllers that turn Stack and StackResource objects into
-- running workloads and report their status.
--
-- Prelude: tests on numbers, lists, text, maps and results. Times and durations are nanoseconds.
--
-- Api: the objects. Api/StackResource models api/core/v1alpha1/stack_resource_types.go, with the
-- desired state in Api/StackResource/Desired, and Api/Stack models stack_types.go. Api/Meta has
-- conditions and object metadata; the condition functions of k8s.io/apimachinery are the interface
-- ConditionOps with their documented behaviour, which Api/Meta/Listed fills.
--
-- Controller: what the reconcilers share. Controller/Verdict is internal/controller/verdict.go, with
-- the collector of a pass as state, and Controller/SubReconciler is subreconciler.go with the chain of
-- internal/controller/stackresource/stackresource_controller.go (reconcile) over any pass state.
--
-- StackResource: internal/controller/stackresource. StackResource/Conditions has the writers and
-- readers of conditions, StackResource/Summary the summary (summarize, classify) and
-- StackResource/StatusDerive the derivation of the status (deriveSummaryStatus). A sub-reconciler
-- writes domain conditions and reports verdicts; the derivation reads both and is the only writer of
-- the phase, the summary conditions and the summary. StackResource/Reconcile is a whole pass
-- (Reconcile): the chain, the build status, the derivation and the write on a change.
--
-- Stack: internal/controller/stack/aggregate.go. Stack/Children is its first stage (the statistics of
-- the desired children, read from the conditions that the derivation wrote), Stack/State the second
-- (deriveState) and Stack/Aggregate the third (conditions, phase and the record of convergence).
--
-- PortCheck: pkg/portcheck. PortCheck/Dialer has a dial and what it reports, PortCheck/Verifier the
-- worker pool: one step for each critical section, so that any number of callers and workers
-- interleave, with the cancellation of its context and the exit of a worker. The success of a TCP
-- connection is a parameter. PortCheck/Verifier/Ledger is what the verifier promises, event by event,
-- with the queue and the workers left out.
--
-- Workload: internal/controller/stackresource/workload. Workload/Readiness is readiness.go: the
-- verdict on declared ports, with the verifier as part of the pass state. The pod to dial, which lists
-- of the cluster give, is an argument. Workload/Deployment is availability.go and the status half of
-- deployment.go (evaluateDeploymentStatus): it writes the two workload conditions, runs the port
-- checks and reports the gate that the derivation reads. Workload/Gates is Reconcile of
-- reconciler.go: the gates of dependencies, volume mounts and the image build, and the dispatch.
-- Workload/Crash is the capture of crash details (failure.go and IsCrashState of
-- internal/controller/util.go) from the pods that were listed.
-- Workload/StatefulSet and Workload/Jobs are the passes over StatefulSets, Jobs and CronJobs
-- (statefulset.go, job.go, cronjob.go).
-- StackResource/Dependencies is what a workload waits for (workload_dependency_checker.go): resources
-- and volumes. Storage/VolumeSync is how the volume controller records that the data of a volume is in
-- place (internal/controller/volume/volume_source_sync_reconciler.go), which the former reads.
--
-- Registry/Reference is pkg/registry/reference.go: tags and references of images. Api/ImageBuild is
-- api/builds/v1alpha1/imagebuild_types.go and Api/Volume what is read of a Volume of
-- api/storage/v1alpha1/volume_types.go.
--
-- ImageBuild: internal/controller/imagebuild. ImageBuild/Calls has the answers of the API and what a
-- pass asks to be written, ImageBuild/Status the status of a build, ImageBuild/Inputs the volume, the
-- credentials and the build arguments, ImageBuild/Job the build job, ImageBuild/Sources the two kinds
-- of source and ImageBuild/Reconcile the whole pass. StackResource/Builds is the sub-reconciler that
-- creates, cancels and deletes the ImageBuilds of a StackResource (image_build_reconciler.go); it
-- reads the conditions and the phase that the ImageBuild controller writes.
--
-- Every loop is structural recursion; only the printing of decimal numbers runs on fuel, and its fuel
-- exceeds the number of digits. Kubernetes API calls, printing of a status for its hash, and clocks
-- are arguments. Not modelled are the construction of Kubernetes objects, the other controllers and
-- the programs' wiring.
mod Prelude
pub mod Api
pub mod Controller
pub mod StackResource
pub mod Stack
pub mod PortCheck
pub mod Workload
pub mod Registry
pub mod ImageBuild
pub mod Storage
mod Tests
