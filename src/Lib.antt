-- ===== src/Lib.antt =====
-- Verification library of PacketYeeter, a DDoS filter whose collectors drop traffic in XDP and whose
-- analyzer decides what to block.
--
-- Parts and their files:
-- * ScrubRules models pkg/scrubrules/scrubrules.go: Parse (Parse.antt), portRanges (Ports.antt),
--   encodeSources, rulePrefix and RateWindow (Sources.antt), SplitFamilies, Flatten and CheckCapacity
--   (Flatten.antt), over the layouts of pkg/collector/ebpf/rules.go (Types.antt).
-- * RuleEngine models the ruleEngine of pkg/collector/rules.go: its state and commit (State.antt),
--   install (Install.antt), Apply and Expire (Apply.antt). The kernel maps are the parameter RuleMaps
--   (Kernel.antt), with the documented law that a trie is swapped as a whole or not at all. Every
--   operation returns the new engine, the new kernel and its error.
-- * RuleStore models pkg/analyzer/rules.go: ruleStore.replace and desired, the checks of PushRules and the
--   upserts of ruleSetCommand. Persist.antt and Restore.antt model save and load of ruleStatePersister in
--   pkg/analyzer/rules_persist.go, where save is a list of the states of the disk after each system call; Intact,
--   Restored, RoundTrip, Persistable and Loaded hold the proofs.
-- * Watch models pkg/analyzer/watch.go: watchHub with subscribe, unsubscribe and publish, the ring of a
--   watchSubscriber with push and pop, the inner loop of WatchDecisions and the fingerprint check. Queue,
--   Contract, Drain, Trace, Hub and Fingerprints hold the proofs.
-- * Ring models pkg/analyzer/aidetection/ring.go: PushBack, At, DropFront and Slice (Ring.antt), what a ring
--   holds (View.antt), and the proofs (Refines.antt, Laws.antt).
-- * RateLimit models pkg/ratelimit/limiter.go: TokenBucket (Bucket.antt) and Limiter (Limiter.antt), over a
--   parameter for float64. Its eviction is in Sampling.
-- * Evidence models the evidenceSet of pkg/analyzer/scrub_trust.go, whose eviction is also in Sampling.
-- * GrpcTls models fileSource of pkg/grpctls/reload.go (Reload.antt) and trackingServerCreds of
--   pkg/grpctls/revoke.go (Revoke.antt), with the proofs in Laws.antt; and MethodAuthorizer of
--   pkg/grpctls/authz.go (Authorize.antt, with its proofs in Authorized.antt).
-- * Enforcement models the kill switch of pkg/analyzer/enforcement.go, and checkRateLimitFor and
--   reputationVerdict of pkg/analyzer/scrub_trust.go.
-- * LogThrottle models pkg/analyzer/logthrottle/logthrottle.go.
-- * MapCleaner models pkg/utils/mapcleaner/cleaner.go: RemoveOldestEntry, RemoveEntriesOlderThan and
--   EnforceMaxSize (MapCleaner.antt), and RemoveOldestN with selectOldest, and EnforceMaxSizeBatch
--   (Select.antt). Partition, Split, Parted, Sorted, Selected and Removed hold the proofs on it.
-- * Sustained models pkg/analyzer/sustained: the hashes of a request (Hashing.antt), boundedSet
--   (Resources.antt), clientWindow (Client.antt), Config and New (Config.antt), matchThresholds and blockers
--   (Thresholds.antt), assess (Hold.antt), Tracker with ObserveRequest and ObserveBytes (Tracker.antt), Evaluate
--   (Evaluate.antt) and Snapshot (Snapshot.antt). The other files hold the proofs: Refs, Window, Observing and
--   Pruning those on one client, Order, Invariant, Observed, Round, Evaluated and Run those on the tracker, Newest and
--   Retained those on the bounded set, and Release, Shown and Explained those on the hold and the snapshot.
-- * Fingerprints models the scrub fingerprints of a collector: pkg/collector/ebpf/fingerprint.go (Types.antt), the
--   kernel's maps with scrub_fingerprint of pkg/collector/ebpf/c/protector.bpf.c (Kernel.antt), and fingerprinter
--   (Flip.antt) and selectTopFingerprints (Top.antt) of pkg/collector/fingerprint.go. Counted, Drained,
--   Conserved and Run hold the proofs on the packets, Grouped, Trimmed and Selected those on the selection.
-- * Common holds shared names, Boolean tests, lists, finite maps, sorting, results and steps that may panic.
--
-- The analyzer's RuleStore validates rules with ScrubRules before it stores and sends them; a collector's
-- RuleEngine parses them again, lays them out with ScrubRules and installs them through RuleMaps. RuleStore's
-- Accepted.antt relates the two sides. Watch carries the analyzer's decisions to controllers; its rings are
-- treated as rings of Ring at their full length.
--
-- Times are nanoseconds since Go's zero time, as natural numbers. Go's maps are association lists with
-- distinct keys; a range loop runs in the order of the list, and the theorems hold for every order.
-- Machine integers are natural numbers with their wrap-around written out where the code narrows a value.
-- An index out of range is `none` in Ring, Watch and MapCleaner.
-- Loops are structural recursions, save these on fuel: EnforceMaxSize runs one round per entry at most, since
-- each round removes an entry; the loop of WatchDecisions runs one round more than decisions are queued or
-- arrive meanwhile, since each round takes one; the loops that partition a slice run one round more than it is long, since
-- each round moves an index towards the other. The outer loop of selectOldest counts its own budget down.
--
-- The configuration of Sustained has minimum numbers of resources and sections that are not negative, and windows of
-- fewer than 2 ^ 31 seconds, so that the default holds do not wrap.
--
-- Parameters: netip.ParsePrefix (`parse_prefix`), proto.Size (`proto_size`), protojson and encoding/json (`marshal`,
-- `unmarshal`, `encode_doc`, `decode_doc`), which system calls fail (`fails`), the kernel maps (RuleMaps),
-- float64 (Floats, with the two laws of FloatLaws), the verification of crypto/x509 (`verify`),
-- strings.ToLower (`to_lower`), strings.EqualFold (`equal_fold`), and the reputation callback of the sustained tracker (`good`).
--
-- Mutexes, metrics and logging are not modelled: each operation runs under its lock, as one step. The gRPC
-- streams, timers, the kernel side and the scoring heuristics on floating-point numbers are not modelled.
pub mod Common
pub mod ScrubRules
pub mod RuleEngine
pub mod Ring
pub mod LogThrottle
pub mod MapCleaner
pub mod RuleStore
pub mod Watch
pub mod Sampling
pub mod RateLimit
pub mod Evidence
pub mod GrpcTls
pub mod Enforcement
pub mod Sustained
pub mod Fingerprints
