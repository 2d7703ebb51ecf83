-- ===== src/Lib.antt =====
-- collectif: a server that runs coding-agent command lines and shows each session as a notebook.
--
-- A notebook is an append-only log of events, folded into a document (src/nb_doc.go). A detached
-- notebook runs its own agent, whose tool calls pass a permission engine (src/policy.go): rules
-- decide, and where they say "ask" the run waits for a human's answer (src/nb_approval.go).
--
-- Common, Text: shared names, list operations over native numbers, what the program uses of Go's
-- package strings. Text is a list of code points.
-- Notebook.Cells, Notebook.Events: the types of src/nb_doc.go. Strings of a fixed vocabulary (cell
-- types, states, event types) are data types with a constructor for every other text; 64-bit
-- numbers are carried as bit patterns; an instant is its nanoseconds since the zero time, so that
-- IsZero is a test for 0 and Sub is a subtraction, cut at the largest duration. The derived fields
-- Fidelity and Provider, which the fold never sees, are left out. encoding/json is a parameter, the
-- record Codec: whether a payload is empty, and json.Unmarshal at each payload type.
-- Notebook.Fold: applyEvent is apply_event, split into decode_event (the switch and its calls of
-- decodePayload) and apply_change (the body of each case); foldEvents is fold_events; the
-- deferred count of the version is bump, which runs on the error path too. Its children: Find
-- (finding a cell by id), Frame (what an event leaves alone), Ids (distinct ids), Log (the fold as
-- a function of the log), Placement (where cells land), Runs (the record of a run), Staleness.
-- Policy.Rule: parsePolicyRule. Policy.Command: matchCommandPattern, by the pieces of the regular
-- expression that commandGlobToRegexp writes, over the UTF-8 bytes of the pattern as the source
-- walks them; isCommandSubject, shellChaining. Policy.Decide: decide, firstMatch, mergePolicy, with
-- the path matcher matchGlob of src/tools_fs.go as a parameter, which Policy.Decide.Paths fills with
-- Tools.Glob. Policy.Always: proposeAlwaysRule; Policy.File: the shipped rules, loadPolicyRules,
-- invalidRules and appendAllowRule, over what stands at the path of the rules file. encoding/json is
-- the parameter RulesCodec there. Policy.Question: one question as a
-- step relation of the handlers that answer and the run that waits, and the outcome of check.
--
-- Store.Log: the log file of src/nb_store.go as bytes; readLog is read_log, over the lines that
-- bufio.Scanner gives, with its limit on a line. A line's marshalling is the parameter LineCodec.
-- Store.NotebookStore: notebookStore as a record that has the bytes of its log file and its snapshot
-- file too. Append is append, which takes the event that Append builds (its id and time come from
-- outside), the outcome of the log's write, and whether a snapshot can be written; load is
-- load_events behind read_log; openNotebookStore, for a log that exists, is open_existing. Its
-- children: Identity (the document's id), Loading (the snapshot's check), Durable (what a store
-- keeps), Appending, Reopening. Store.Live: liveOut as an association list, whose entries are written
-- by append_live (appendLive), read by live_text and removed by clear_live.
-- Store.Runs: beginRun, endRun and finishRun of src/nb_run.go and invalidateBelow of src/nb_store.go;
-- a run is its id, and a function that appends gives its changes.
-- Session: sessionProjector of src/nb_session.go, which folds the parts of a transcript
-- (src/projection.go) into a notebook. Session.Projector has the record Projector, which carries its
-- store, and the interface Host of what is called from outside: Doc and Append of the store (and
-- whether an append went through), uuid.NewString, json.Unmarshal. Session.Ingest is Ingest, apply
-- and IngestSubagent, Session.Lifecycle the rest; Call has a constructor for each of the public
-- methods, and perform runs it. A map is an association list with the newest entry first. Times of
-- parts are left out, and the timer of an awaited prompt is the call that it makes when it fires.
-- Its other children prove what the calls keep and do.
-- Tools.PathMatch: filepath.Match of Go's standard library, by a machine over the pattern.
-- Tools.CleanPath: filepath.Clean and filepath.Dir, by a stack of elements.
-- Tools.Glob: matchGlob and globToRegexp of src/tools_fs.go; the expression is the list of the pieces
-- that the source writes.
-- Tools.EditPlan: editPlan and the preview of an edit; containedPath and os.ReadFile are the interface
-- Files, and a refusal's text is a constructor. Tools.ReadLines: the lines that the read tool takes,
-- where the sum of start and limit and its comparison are those of 64 bits with a sign, and the check
-- of a slice's bounds gives none where it panics.
-- Export.Fences: fencedBlock of src/nb_export.go. Health: detectLoop, countRecentFailures and
-- computeHealthLocked of src/harness.go, with a constructor for each reason.
-- Search.Matching: add, matching and intersectSorted of src/nb_search.go. A document is any type, and
-- the tokens of its text come from outside; sort.Slice is a parameter that permutes.
-- Diff: src/diff.go. Diff.Lines is splitDiffLines; Diff.Script is diffOps and diffMiddle, the table
-- of longest common subsequences built row by row from its end as the source does; Diff.Hunks is
-- groupHunks, newHunk, render and unifiedDiff. The operation byte of a diffOp is its constructor.
--
-- Every loop is a recursion on lists, but for the digits of a number, whose fuel is the number and
-- one, more than it has digits. Not modelled: the creation of a notebook, subscribers, slugs and the
-- registry of src/nb_store.go, locks (an operation under a lock is one step), HTTP, terminals,
-- processes, model services, and the copying of slices by clone,
-- which has no counterpart where values are not shared.
pub mod Common
pub mod Text
pub mod Notebook
pub mod Policy
pub mod Store
pub mod Diff
pub mod Session
pub mod Tools
pub mod Search
pub mod Export
pub mod Health
