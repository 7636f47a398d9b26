-- ===== src/Lib.antt =====
-- The review of a plan in planmaxx. A session holds a plan document with its revisions, the reviewer's
-- comment threads, side answers of an agent, and one pending proposal that an agent made. The review
-- server keeps one session under a lock; each request is routed to a handler that takes the lock,
-- looks for a change of the source file, calls a method of the session and saves the review, or puts
-- a copy of the session back that it made before (cloneSession). An iteration runs beside the requests: sectioniter asks an agent for a patch of a section
-- and makes a proposal of it. Packages beside these are pure functions: patches places the hunks of an
-- agent in a plan, diff compares two plans line by line, reviewmodel makes of that what the reviewer
-- walks through, and digest sums the review up.
--
-- Parts and files:
-- Base/: what the program uses of Go and its standard library. Text: strings as byte sequences;
-- Utf8: range over a string, unicode/utf16, strings.TrimSpace; Int: int of 64 bits, whose sums wrap
-- around; Decimal: %d and strconv.Atoi; Lists, Keys: slices, and maps that serve as sets; Lines and
-- Find: lemmas on split and joined lines and on strings.Index.
-- Session/: internal/session. Types: the records and words of session.go, comment_state.go and
-- transitions.go. State: a method is an action, from a session to its result or error and the session
-- it leaves; pointers into the thread slice are writes to the first thread with an id, and
-- `for i := range s.Threads` is for_threads. Anchors, Locate: the functions on anchors, and the text
-- that an anchor selects. Feedback: comment_state.go with the methods of session.go that call it.
-- Validate, Proposals, Revisions, Restore, Context: Validate, applying and discarding proposals, new
-- revisions, RestoreCounters, and SelectContext. Reach: sequences of operations that take no comment
-- away: feedback, creating, moving to and applying a proposal, restored revisions and external edits,
-- not DeleteThread and DiscardProposal. The child modules
-- of these files hold the proofs.
-- Patches/: internal/patches/hunks.go. Hunks: the data, contextMatches, PositionAt and the search for
-- one hunk; Resolve: the set of hunks and Apply. The other modules hold the proofs.
-- Diff: internal/diff/diff.go. The comparison of go-diff is a parameter; that its parts spell both
-- token sequences (Diff.Rows.IsDiff) is the one hypothesis on it.
-- Reviewmodel/: internal/reviewmodel/change.go. Clusters: rows and clusters; Stops, Build: placements,
-- review stops and Build. Cover, Queue: the proofs.
-- Digest: internal/digest/digest.go, DraftFromState over the context selection; Silent: its proof.
-- Planformat: internal/planformat/planformat.go.
-- Sectioniter/: internal/sectioniter. Section: SectionForAnchor of sectioniter.go; Protocol:
-- ParseResponse of protocol.go; Proposal: BuildProposal and Propose of service.go, with the proofs in
-- Proposal.Built, Proposal.Shift and Proposal.Placed.
-- Review/: internal/review. Types: the structs of server.go and operations.go that hold the state.
-- Operations: operations.go; Operations.Tasks: its goroutines beside the server as a step relation;
-- Operations.Live: the proofs. ClientState: client_state.go. Paths: the parsing of paths and the
-- checks of requests in server.go. Mutate: persistLocked, syncExternalSourceLocked and
-- mutateSession, with what they leave behind in Mutate.Outcome, Mutate.Change and Mutate.Overflow.
-- Handlers.Threads and Handlers.Course: the handlers on feedback, and on creation, proposals,
-- revisions and the end of the review. Requests: the routes, with Ends: the review that an end saves. Iteration: Request and Prepare make
-- what an agent is asked, Execute stores what it answers, with proofs in Saved and Outcome; Start: the requests that start one.
-- Operations.Actions: the requests on the operation; Requests.Steps: requests as steps of that
-- relation. Handlers.Course.Offered: the capabilities that the browser is shown beside the guards
-- of the handlers. Questions: side questions, with internal/sidequestions/service.go. Compare: the
-- comparison of two revisions; the cache of comparisons, which marking feedback as addressed
-- clears, is an argument. Presence: presence.go. Migrations: migrations.go and the steps of
-- server.go that it calls. Loading: opening and reloading a bundle.
-- A handler is a function from the server and the decoded request to the reply and the server behind
-- it. What it calls and is not in this repository, or is input and output, is a field of a record that
-- it takes: World (the bundle that saves, the source file, the clock, SHA-256, and the round trip of a
-- session through encoding/json that cloneSession makes), Json and Xml (the decoders of Go), Outside
-- (the JSON of the feedback and the template of the instruction). cloneSession is that round trip with
-- RestoreCounters behind it; the round trip loses the counters that are not exported.
-- Tests modules: one review and small texts, runs of the model on them, and instances of the theorems.
--
-- Bounds: an int is an integer whose sums and differences wrap around at 64 bits; a length is a
-- natural number below that. The loops run over the rest of a list or over a number of rounds that is
-- known when they begin; the search of Resolve takes as many rounds as the base has bytes, and every
-- round moves its offset forward; the loops of buildClusters take as many rounds as there are rows,
-- and every round moves to a later row. `digits` of Decimal takes as many rounds as the number
-- itself, and every round divides it by ten. rejectPendingFeedbackMutation, which calls itself, takes a
-- number of stack frames, and the process ends where none is left. The loop of
-- revisionFeedbackBetween takes as many rounds as there are revisions, which is enough on a history.
-- Times come from the clock and are arguments. A byte slice behind the end of a text, where Go stops
-- with a panic, is cut at the end; utf16ByteOffset yields one only in a line that is not valid UTF-8.
--
-- Some error texts are shorter than the source's: that of a response for another revision does not name
-- both revisions, and that of a response that is no XML does not hold the decoder's error. The deadline
-- of an operation's context is not a step of Operations.Tasks: all it does is to make the agent fail.
--
-- Not modelled: of the server, the stores that a bundle replaces and the HTTP plumbing; files and
-- archives, the clients of agents, the prompts, the command line and the updater, which are input
-- and output. PROJECT.json lists each with its reason.
pub mod Base
pub mod Planformat
pub mod Session
pub mod Patches
pub mod Diff
pub mod Reviewmodel
pub mod Digest
pub mod Sectioniter
pub mod Review
