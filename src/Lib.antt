-- ===== src/Lib.antt =====
-- GoBeyond is a Go web framework: a router, a proxy policy, caches, a renderer and runtimes for
-- agents, with a build command. This library models its core in a shallow embedding, a module for
-- each part of the program, with the lemmas about it beside it.
--
-- residency/ is the bounded in-process cache of decoded build artifacts. Residency.State has the
-- struct Cache with its options and New; the fields that New fixes are the record Limits.
-- Residency.Slru models slru.go (insertLocked, touchLocked, enforceBudgetsLocked, evictOneLocked,
-- removeEntryLocked), Residency.Negative models negative.go, Residency.Semaphore models
-- semaphore.go, and Residency.Ops models what Get, finishLoad, Trim, Close and sweepIdle do while
-- they hold the lock; a run of the cache is a list of such steps, in any order. The key map, the
-- two segment lists and the list of failures are kept apart, as in the source, with the key of an
-- entry in place of the pointer to it, so that their agreement is no matter of representation.
-- The number of a flight stands for its address. Residency.Bounds has the invariant of each
-- operation, and Residency.Promises what callers rely on. The eviction loops run on the number of
-- entries as fuel, which is enough since a round takes one out.
--
-- cache/memstore/ is the in-process tier of the shared cache. Memstore.State has the options, the
-- Record of cache/store.go, the struct Store and its locked helpers (removeElement, deleteLocked,
-- evictLocked, setVersionLocked); Memstore.Ops has observeVersions, Get, Set, TagVersions,
-- BumpTag, AdoptTagVersion and AcquireLease, each at a given time, and a run of the store is a
-- list of them. The set of keys that the tag index holds for a tag is a list; the loop over it
-- runs on the keys as they stand when it begins, since an iteration takes out no key but its own.
-- evictLocked runs on the number of entries as fuel, which is enough since a round takes one out
-- (Memstore.Evict). Memstore.Consistency has the invariant, Memstore.Versions, Observe, Recorded,
-- Evict, Reads, Writes and Follows are about what each operation does to it, Memstore.Runs is
-- about runs, and Memstore.Promises and Memstore.Snapshots are about what callers rely on.
--
-- router/ matches paths against route patterns. Router.Bytes has the string and URL functions of
-- the Go library that it uses, on lists of bytes; Router.Pattern has Parse, splitPath and Match;
-- Router.Table has specificity, compareSpecificity, NewTable and Resolve. The stable sort is an
-- insertion sort, since every stable sort by a weak order gives the same list (Router.Order).
-- Router.Best compares Resolve with a description that does not sort, Router.Safe says what a
-- match can hand on, Router.Slices and Router.Print print a parsed pattern back, and
-- Router.Accept says what NewTable refuses. Recursion is structural throughout.
--
-- policy/ holds the proxy policy of redirects and rewrites. Policy.Wildcard models wildcardMatch,
-- the match of a host against a condition with stars, with the text that follows in place of a
-- position; Policy.Occurrences, Glob and Single are about what it matches. Policy.Pattern models
-- parsePattern, splitPath and Match; Policy.Agree and Policy.Read compare them with the router's.
-- Policy.Escape models escapePath, and Policy.Unescape reads back what it writes.
--
-- agents/decisioncontract/v1/ is the contract of decision graphs. Contract.Types has its data; a
-- named string type with constants is a data type, and fields that only an adapter reads are left
-- out. Contract.Failure has Go's errors and chains of calls that may fail, Contract.Fields the
-- patterns of identifiers, Contract.Checks, Scoped and Events the Validate methods of snapshots,
-- results, requests, receipts, counters and events, and Contract.Ownership is
-- ValidateOwnershipTransition, which Contract.Releases is about. The library functions that take
-- a digest or read JSON are the record Library, an argument of what calls them. A time is in
-- nanoseconds, and 0 is the zero time.
--
-- agents/decisions/reducer.go is the pure reducer of a decision session. Decisions.State has the
-- struct stateData, events and effects; Decisions.Lookup the lookups, identifiers and budgets;
-- Decisions.Guards the validate functions; Decisions.Steps, Follow and Target what the reducer
-- composes (matchEffects, enterTerminal, admitRetry, enterRoute, dispatchCandidate, routeOutcome,
-- requestDecision, followTarget); Decisions.Inputs and Receipts the cases of reduceNormalized;
-- Decisions.Reduce is Reduce with the other variants, and Decisions.Begin is Start, with the
-- review of the definition as an argument. A function that may fail returns a state and effects
-- or an error; on an error the caller keeps the state that it had. Where the source copies a
-- definition or an event through JSON, the copy is the value itself, and an encoding error is
-- left out. The calls of followTarget by itself are on fuel 2: itself, and one call by
-- requestDecision, since the reviewed edges of a route do not lead from an unavailable decision
-- to its decide phase (Decisions.Ends). Decisions.Bounds, Sound, Retries, Dispatch, Following,
-- Handlers, Moves, Variants and Whole carry an invariant through each function, Decisions.Runs is
-- about whole sessions, and Decisions.Promises about what callers rely on. Decisions.Sample is a
-- graph on which a session is run. The counters are natural numbers, as each increment is under a
-- ceiling.
--
-- Not modelled: the rest of the policy, the tiers of the cache above the in-process one, the
-- review and activation of decision definitions, the voice contract, the renderer and the pack
-- format. Network clients, the server, the build command and the packages in other languages are
-- left aside. Overflow of int64 is left out; times are nanoseconds.
pub mod Common
pub mod Residency
pub mod Memstore
pub mod Router
pub mod Policy
pub mod Contract
pub mod Decisions
