-- ===== src/Lib.antt =====
-- A model of kqos, which sells the unused part of what a Kubernetes node has promised to a tier of
-- pods that may be evicted, and of what makes it correct.
--
-- The program. An agent runs on each node. At each tick it samples the pods (pkg/agent/collector),
-- folds the sample into the advisor's windows and asks the advisor how much may be offered
-- (pkg/agent/sysadvisor), lays the node's CPUs out in pools (pkg/agent/cpupool), reports, and lets
-- the eviction manager decide on the proposals of its plugins (pkg/agent/eviction). All parts read
-- the tier of a pod off its annotations and requests (pkg/qos), and sets of CPUs are
-- pkg/cpuset's. Controllers and a webhook (pkg/controller, pkg/webhook) act on the reports.
--
-- The modules:
--   Prelude        shared names; lists by native numbers, tests, counting, and integers with the
--                  wrap of int64 and int32 (Prelude/Int)
--   Strings        what is used of Go's strings and strconv, on lists of ASCII bytes
--   Floats         float64 as a parameter, with the laws that the theorems use
--   Kubernetes     the API objects as far as they are read; resource.Quantity is a parameter
--   Api            pkg/apis/kqos/v1alpha1/qos.go: levels and names
--   CpuSet         pkg/cpuset/cpuset.go: New to TakeFrom; Format: Parse and String
--   Qos            pkg/qos/qos.go: LevelOf and the requests
--   CpuPool        pkg/agent/cpupool: pool.go's computePools (Layout) and Reconcile (Applying), and
--                  topology.go's zones (Topology)
--   Collector      pkg/agent/collector/collector.go: the samples; Sampling and Collecting: Collect, with
--                  records of pkg/agent/cgroup/cgroup.go; Totals: ByQoS
--   SysAdvisor     pkg/agent/sysadvisor: window.go (Window), advisor.go's configuration and
--                  formulas (Advisor) and its operations up to Recommend (Recommend)
--   Eviction       pkg/agent/eviction: plugin.go (Signals), plugins.go (Plugins), manager.go
--                  (Manager, and Bucket for the token bucket)
--   Agent          pkg/agent: report.go (Report), and of agent.go the policy that is applied
--                  (Configuration) and the tick, which composes the parts (Loop)
--   Usage          pkg/usage: types.go, and store.go's store (Store)
--   Profile        pkg/apis/kqos/v1alpha1/noderesourceprofile_types.go; Conditions: setCondition
--   Policy         pkg/apis/kqos/v1alpha1/qospolicy_types.go; Rollup: pkg/controller/policy
--   Overcommit     pkg/controller/overcommit: controller.go and predicate.go
--   Webhook        pkg/webhook/pod.go: Handle, with validate (Validation) and rewriteReclaimed
--                  (Rewriting)
--   WorkloadProfile  pkg/controller/profile/controller.go, with the types of
--                  pkg/apis/kqos/v1alpha1/workloadprofile_types.go
--   Samples        concrete values for the tests, which stand in the modules called Tests
-- A child module holds proofs about the module that it is below, and is named for what they are
-- about.
--
-- Conventions. Code that changes an object takes it and answers with the new one; a Go map is an
-- association list, and a set the list of its keys; an error is a result. Go's int and int64 are
-- integers of Prelude.Int; where the code can overflow, the operation's result goes through `int64`,
-- and a theorem that needs the exact value has the bound as a hypothesis. Times and durations are
-- whole numbers of nanoseconds, and the zero time is `none`. CPU ids are natural numbers.
--
-- Loops are structural recursion on the list or count that they go through. The one fuel is that of
-- the printing of a number in Strings.Numbers, which is one more than the number, and a number has
-- no more digits than that.
--
-- Parameters. float64 (FloatApi): an order on the numbers that are no NaN, and conversions that
-- respect it. resource.Quantity (QuantityApi): what its constructors make is read back. The
-- eviction API: its answer to each eviction. `sort.Slice`: an argument of the two plugins that
-- use it, as it leaves the order of equal elements open. The concrete instances of Samples, whole
-- numbers and amounts in thousandths, are used by the examples only.
--
-- The answers of the API server to reads, writes and patches, of the cgroup files to writes, the
-- pods' paths, a pod's controller and the clock are arguments of the operations that ask for them.
-- A patch that the API server takes sets what it names.
--
-- Not modelled: the parsing of cgroup files and the resolver of their paths, the detection of the
-- topology, HTTP, metrics, log lines, events and the texts of messages, what objects that are missing
-- are created with, and generated code. The lock of the usage store makes each of its operations one
-- step. Where the loop of Parse does not end, for a range whose end is the largest int, the model's
-- result is `endless`; computePools, which then does not end either, goes on in the model as after an
-- error. LevelOf of a nil pod has no caller.
pub mod Agent
pub mod Api
pub mod Collector
pub mod CpuPool
pub mod CpuSet
pub mod Eviction
pub mod Floats
pub mod Kubernetes
pub mod Overcommit
pub mod Policy
pub mod Prelude
pub mod Profile
pub mod Qos
pub mod Samples
pub mod Strings
pub mod SysAdvisor
pub mod Usage
pub mod Webhook
pub mod WorkloadProfile
