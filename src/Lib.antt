-- ===== src/Lib.antt =====
-- CNSBench, a Kubernetes operator that runs storage benchmarks: a Benchmark resource names volumes,
-- workloads, control operations and rates, and the controller moves it from new to initializing,
-- running and complete.
--
-- How the parts work together. Reconcile (controllers/benchmark_controller.go) fetches a Benchmark
-- and acts by its state: a new one gets its default outputs, its volumes and its workloads; an
-- initializing one waits for its pods and starts its rates; a running one waits for its runtime or
-- for its workloads, replaces finished instances, and writes its outputs and its final status. Every
-- rate is two goroutines: the rate itself (pkg/rates) and one that carries out its operations; both
-- wait for one message on the control channel of the benchmark, which stopRoutines sends.
--
-- Which file models which part:
--   Api                    api/v1alpha1/benchmark_types.go: the specification and the status
--   Kube                   the Kubernetes objects that the program builds and reads
--   Exec                   Go's results: a value, an error, or a fault (a panic, a send that blocks
--                          for ever), with the state beside each of them
--   Env                    the code outside of the repository as one record of functions: API
--                          server, selectors, YAML decoder, clock, name generator, HTTP
--   Utils                  pkg/utils/utils.go: Contains and Remove
--   Podutils               pkg/podutils/podutils.go, with CleanupScalePods in Podutils.ScalePods
--   Output                 pkg/output/output.go and pkg/output/post.go
--   OutputCollector        output-collector/main.go: the handler of the requests
--   Rates                  pkg/rates/rates.go: ConstTimer.Run and IncDecRate, with SingleRate in
--                          Rates.Single
--   ObjectTiming           pkg/objecttiming: ParseLogs and all it calls, by file of the source: Types
--                          (types.go), Records (helpers.go, timing.go), Criteria and Create
--                          (create.go), Scale (scale.go), Store (objinfo.go), Pods (pvcpod.go),
--                          Parse (parselogs.go), Print (output.go)
--   TimingCommand          util/analysis/objecttiming, a program that follows a log: Lines
--                          (parselogs.go, output.go), Tail (tail.go), Options (main.go), Program
--                          (ParseLogs of parselogs.go, main.go). Its other files have the text of
--                          pkg/objecttiming and are modelled there
--   Tracing                util/analysis/csi-tracing: Types (types.go), Messages and Tables (csi.go),
--                          Calls (grpc.go), Streams (http2.go), Packets (pcap.go, extractStreams of
--                          http2.go), Logs (tologs.go, timing.go)
--   Elastic                pkg/utils/es.go, and ParseInterface of pkg/utils/utils.go
--   Controllers.Completion controllers/completion.go
--   Controllers.Create     createObj and CreateVolume of controllers/actions.go, the temporary
--                          config maps of controllers/workload.go
--   Controllers.Containers the helper containers and volumes of controllers/workload.go
--   Controllers.Prepare    replaceVars, addContainers, addCNSBLabels and prepareAndRun of
--                          controllers/workload.go
--   Controllers.Actions    RunWorkload, CreateSnapshot, DeleteObj, ScaleObj and ReconcileInstances of
--                          controllers/actions.go
--   Controllers.Routines   startRates, stopRoutines, cleanup and the operations of a fired rate, of
--                          controllers/benchmark_controller.go
--   Controllers.Reconcile  Reconcile and the functions that only it calls
--   Examples               a concrete cluster, at which the theorems are applied
-- A function of the source keeps its name, in snake case (prepareAndRun is prepare_and_run); a part
-- of a long function has a name of its own.
--
-- State. The fields of BenchmarkReconciler that change are the record Env.Reconciler, with the list
-- of the requests made so far and the outside world. A control channel is the number of goroutines
-- that still receive from it. An object that Go changes in place comes back as a result. The state
-- of a rate and its timers is the record Rates.IncDecRate, and Rates.Step has one constructor for
-- each way in which one of the goroutines goes on. The model of the controller counts the goroutines of a
-- control channel as always ready to receive; the steps of Rates show when one of them is not.
--
-- The records of ParseLogs are maps that several slices may share in Go, but each record is in one
-- slice at a time, so a slice is a list of maps. Its JSON decoders and time.Parse are the parameter
-- ObjectTiming.Types.Decoders.
--
-- The program of util/analysis/objecttiming prints an action when the line that ends it is read. A
-- file is its bytes at the time of an event, the channel of the watcher is the list of its events,
-- and the reader keeps its offset, the number curReadPos and the state of its callback. Its buffer
-- is empty whenever it waits, since readLines reads to the end of the file.
--
-- PcapToLogs reads a capture: parsePackets sorts the packets by direction, extractStreams pairs the
-- two directions and framesToStreams sorts the frames of each into streams, parseRPCs finds the calls
-- in the pairs of streams, and processRPC makes a log entry of each. The packages that read
-- packets, HTTP/2 frames and header blocks, decode messages and sort are parameters (Packet and Texts
-- of Tracing.Packets, Http2 of Tracing.Streams, unmarshal and sort); log.Fatal is a fault.
--
-- Loops are structural recursion on the list or the number that the source counts over. Only the
-- loop of QueryES, which asks the server until a page is empty, has fuel: one round for each page and
-- one for the empty page is enough. Go's int is a mathematical integer (Prelude.Int): the counters
-- stay far below 2^63. A map is an association list; where the source visits a map in any order, the
-- model takes the order of the list. Times are nanoseconds since the epoch.
--
-- Not modelled: logging; the encoding of an object to YAML for the log; main.go, which starts the
-- manager from its flags, and the registration of the API group, both calls of controller-runtime;
-- generated code; a negative runtime; starting and closing the watcher of a log and the server of the collector; a file
-- that changes while it is read.
mod Prelude
pub mod Exec
pub mod Api
pub mod Kube
pub mod Env
pub mod Utils
pub mod Podutils
pub mod Output
pub mod OutputCollector
pub mod Rates
pub mod ObjectTiming
pub mod TimingCommand
pub mod Tracing
pub mod Elastic
pub mod Controllers
mod Examples
