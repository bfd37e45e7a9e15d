-- ===== src/Lib.antt =====
-- NodeVault: the artifact index of pkg/index, the services that write it (the registration of
-- ToolFunctions, validation, certification and the two reconcilers), the build table of
-- pkg/buildstate and the cache of pkg/cachegc, modelled and proved.
--
-- NodeVault keeps every artifact that it builds, validates and certifies in one JSON file, which
-- pkg/index guards. Its Store is the only reader and writer of the file: the build, validation,
-- certification, catalog and reconcile packages call it. Several Stores, also in several processes,
-- may stand on one directory.
--
-- Which file models which part (paths from the repository's root):
--   Base                  tests on numbers and texts, loops over lists, and their lemmas; Base/Int64
--                         the arithmetic of an int64 where it wraps
--   Index/Schema          pkg/index/schema.go: the records of the file. A typed string constant is
--                         a data type whose `unset` is the empty string; a time is a count of
--                         nanoseconds from the zero time; an optional pointer is an Option
--   Index/Errors          the sentinel errors of pkg/index/store.go and the results that carry them
--   Index/Sections        the two loops that every section is written in: append a new key, and
--                         update the first record with a key
--   Index/Disk            pkg/index/store.go (load, persistLocked) and
--                         pkg/index/toolfunction_writer_fence.go: the directory, a Store, and the
--                         system calls that may fail
--   Index/Save            save, the write epochs (ensureToolFunctionWriterLocked) and `commit`, the
--                         shape of a write: validate and change in memory, then save
--   Index/Entries         the artifact entries: Append, SetLifecyclePhase, SetIntegrityHealth,
--                         CompareAndSetIntegrityHealth, RecordToolProfileReferrer, the lookups
--   Index/Requests        the ValidationRequestRecords and applyValidationCorrelationLocked
--   Index/Records         the ToolCheckRecords and ToolScanRecords, alone and correlated
--   Index/Builds          the resolved specs, build records and image records
--   Index/Certified       the certification records and the catalog entries
--   Index/Functions       RegisterToolFunctionAtomic and what it is made of
--   BuildState            pkg/buildstate/store.go: the SQLite table of builds as a list of rows, its
--                         operations, and the recovery after a restart
--   Status                the gRPC answers of a handler: a value or a code; the messages are left out
--   Resolve               pkg/resolve: EffectiveProvenance (rawspec.go) and IsSHA256Digest (digest.go);
--                         RawSpec is ParseRawSpecV1 and KindNumber jsonNumberEqualsTwo
--   Catalog               pkg/catalog/toolfunction.go: Json is the value tree of map[string]any,
--                         Messages the protobuf messages, Canonical the base tree, SetLike the
--                         w2-set-v1 canonicalizer, Validate the checks of a declaration, Derive the
--                         derivation of its identity, and Register the handler. The other children
--                         hold proofs: Ordering, Distinct, Agreement, Shuffled, Builders, Settle,
--                         Differences and Reordered lead to Identity
--   Certification         pkg/certification/service.go: the evaluations after a check and a scan, and
--                         in Retraction RetractUnprovenCertifications
--   Reconcile/Health      pkg/reconcile/reconciler.go: a pass as the writes that it makes, from the
--                         snapshot that it took, on whatever the index has become since
--   Reconcile/Enqueue     pkg/reconcile/enqueue.go: RetryDue, the recovery of stranded requests and
--                         the back-off
--   Validation            pkg/validation/service.go: SubmitToolCheckRecord, SubmitToolScanRecord and
--                         ListCertifiedTools
--   CacheGc               pkg/cachegc/gc.go: RunOnce
--   Index/Samples, and the Examples of each component: concrete records and runs
--
-- A Go method on the Store is a function on the index file with the method's name: a lookup gives a
-- Result, a write gives the changed index file, which `commit` saves. An operation holds the lock
-- of the Store, so it is one step; the histories of the theorems are lists of such steps, in any
-- order. What may fail in an operation is its argument `Env`: the clock, the lock, the reads, and
-- the step at which a write of a file stops. A loop over a section is structural recursion; the only
-- fuel is the number of doublings of the back-off, which is the loop's own bound. The build table has no clock
-- of its own: an operation takes the time, and a Boolean that says whether the database refuses its
-- statement.
--
-- Register calls the index with its files. Certification, Validation and Reconcile/Enqueue work on the
-- index in memory: a refused change changes nothing, and a failed save leaves the change in memory, as
-- in `commit`; where the code looks at the error, there is one failure argument for each save. They are
-- run by one writer at a time; only Reconcile/Health lets the index change under it. sort.Slice is an insertion sort, a Go map is
-- the list of its keys with its lookup function, and the texts of errors and logs
-- are left out.
--
-- Parameters: encoding/json and SHA-256 (`Codec`, with the reading back of the encoded value and the
-- digest telling apart the two contents at hand as hypotheses where a theorem needs them; `Marshal` and
-- `Encoding` in Catalog, of which nothing is assumed), the fingerprint of a record (`Fingerprint`),
-- json.Unmarshal of a request basis (`EnvelopeOf`), the trimming and the regular expressions of a
-- declaration (`Text`), the walks for unknown protobuf fields (`Unknown`), the answers of the registry
-- (`RegistryChecker`, `Push`) and of NodeSentinel (`Pass`, with what the jitter,
-- a product of floats, adds to a delay), the substring search of an
-- image reference (`Cuts`), the decoding of a raw spec and strconv.Atoi (`Texts`), and which paths of the cache cannot be removed.
--
-- Not modelled: NewAt with its directory sync, the ticker loops of the reconcilers and the cache, the
-- registration of tools and data, the resolution of raw specs into digests, the build pipeline, catalogrest, the
-- registry, Kubernetes and policy clients, the commands, the generated protocol code and the vendored
-- modules: they are traffic with other systems, wiring, or code of others.
pub mod Base
pub mod BuildState
pub mod CacheGc
pub mod Catalog
pub mod Certification
pub mod Index
pub mod Reconcile
pub mod Resolve
pub mod Status
pub mod Validation
