-- ===== src/Lib.antt =====
-- ssh-gete: a gateway that lets AI agents run commands on SSH hosts under a human's approval.
--
-- The program listens for MCP calls of agents, classifies the command that an agent asks for,
-- queues it until a human approves it (or runs it at once under a grant), runs it over SSH and
-- records the outcome in SQLite. A web page, behind a token, lets the human do this remotely.
--
-- The parts, with the files of this development and the code that they model:
--
-- Risk: the classifier of command lines, risk.go. Risk/Words has the tests on words, Risk/Wrappers
--   the option tables of sudo, env, xargs and the like (peelWrapperOptions), Risk/Commands the lists
--   of commands that read or destroy, Risk/Segment the analysis of one simple command
--   (analyzeSegment), Risk/Command the whole line (opaqueCommand, splitSegments, analyzeCommand,
--   classifyRisk, commandUsesSudo). A string is the list of its code points. The Unicode classes
--   and letter cases of Go's tables are the argument `u`. The loop over wrappers runs on fuel, the
--   number of words that are left, since each round takes at least the wrapper's name; the proofs
--   stand in Risk/Wrapping, Risk/Rounds, Risk/Combination and Risk/Separators. Risk/Usage says
--   how the wrappers are called, from their manuals and not from the code's table: Risk/Taken,
--   Risk/Clusters and Risk/Peeling hold the code's peeling against it, and Risk/Wrapped has what follows.
--
-- Login: loginLimiter of webauth.go, in Login/Limiter: the failures and the running attempts of each
--   remote and of all, the locks, and the waits. Times are nanoseconds from an epoch at which
--   nothing was locked yet; a history is a list of timed steps (Login/Histories), and the mutex makes
--   each operation one step. Which texts are loopback addresses is the argument `is_loopback_ip`.
--   The order in which Go iterates over the map is the order of an association list (Table). The
--   hook delayFor, which only tests set, is left out. Login/Sessions has the sessions of adminAuth:
--   the policy, expiredLocked, lookup, sweep, invalidateAllLocked, and the table as handleLogin,
--   handleLogout and handleRotate change it. The loop that makes room for a session runs on fuel, the
--   number of sessions, and the proof in Login/Room says that this is enough. The two hashes, SHA-256,
--   are arguments.
--
-- Requests: the approval queue. Requests/Request has CommandRequest and Connection of app.go with
--   the deadline and the fingerprint of the target; Requests/Queue the list in memory and the table
--   command_requests, with transitionRequest, recordCommandRequest and DeleteCommandRequest of
--   approval.go, finalizeRequest of app.go, and the statements of storage.go as functions on rows.
--   That SQLite fails is an argument. Requests/Policy has the grants (needsHumanApproval,
--   agentBypassCovers, policyAllows); Requests/Approval has approve as three stages: the checks, the
--   transition, the run; Requests/Approval/Execution has finishRequest and classifyExecError.
--   What approve reads besides the queue, and what other goroutines do to the queue between its
--   stages, is the record Surroundings: `meanwhile` and `during` are any functions on the queue.
--   The result of executeSSH is a value of it, and so are the answers of context and reserveExec.
--   Joining a host and a port and comparing without case are arguments, as they are Go's.
--
-- Gate: the door of the MCP listener. Gate/Guard has guardHTTP, allowedHost, originAllowed and
--   validateListenSettings of httpguard.go; Gate/Handler has handleMCP up to dispatchMCP,
--   authenticateMCP and lookupAgentToken of app.go, and rememberMCPAgent. The answers of Go's
--   packages on URLs, addresses and media types are the record Net, the hash of a token is an
--   argument.
--
-- Session: the lines of AI sessions, ai_session_approval.go. Session/Line has validateSessionLine and
--   scanSessionLine, whose lexer takes a byte at a time and skips as the loop over `i` does;
--   Session/Names the classes of variable names and the forms that the gateway runs itself
--   (standaloneCd, standaloneEnv); Session/Scan scanSessionCommands; Session/Classify
--   classifySessionLine and sessionNeedsApproval; Session/Gate aiLineGate with all its operations.
--   Its mutex makes each operation one step; Session/Moves is the relation of the steps, in any order.
--   strings.ToUpper, the regular expression sessionFuncDef and what utf8 decodes are the arguments
--   `to_upper`, `func_def` and the optional text. The gate takes the classifier as an argument.
--   Session/Delivery, Session/Taint and Session/Raises have the theorems. Session/Settings has
--   validateAISessionSettings of ai_session.go.
--
-- Output: what a session prints, ai_session.go. Output/Ring has aiRing, with bytes as numbers and its
--   unsigned cursors modulo 2^64 written out; Output/Stream aiOutput, with the text filter as an
--   argument and the audit hook as a log; Output/Reader ReadText, ReadRaw and trimIncompleteRune, with
--   the two tests of the package utf8 as arguments. The loop over a cut character runs on fuel, the
--   number of bytes to the end, which is its condition. The theorems hold for streams of fewer than 2^64
--   bytes: Output/Refine, Output/Reads, Output/Shrink and Output/Runs relate the ring to the stream,
--   Output/Audit the text to its audit, Output/Accounts and Output/Stuck have the readers. Output/Plain
--   is the default filter aiPlainText with Go's decoding of runes as an argument, in Output/Chunks its
--   theorem, under what the package utf8 promises of a full rune (IsUtf8).
--
-- Runtime: lockKey of mcp_status.go, the locks of retries with the same key, as steps over a store of
--   shared locks (Runtime/Locks); the proofs stand in Runtime/Exclusion, over the counts of Runtime/Counts.
--
-- Text has Go's string functions that the code uses, Table its maps, Base the names of the libraries
-- and the tests on numbers.
--
-- The parts meet in the approval: approve calls the classifier of Risk on the edited command, the
-- caller that Gate authenticates is the one that Requests/Policy asks for a grant, and the switches
-- of the settings there use the classifier's answer on sudo. The classifier of session lines starts
-- from the answer of Risk and raises it, and the gate of a session classifies a line in its own state.
--
-- Not modelled: the texts of messages and the fields that only display (Reason, Duration, User); how
-- sendSessionLine and approveAISessionLine call the gate of a session, its runner, its views, the
-- filter of secrets and the manager of sessions; the contexts and goroutines behind a run, whose
-- answers are arguments; SQL, SSH, TLS, terminals, keychains, the web pages and the start-up, which are
-- I/O of other libraries. The token and password files of the web admin, the MCP tools behind
-- dispatchMCP and the configuration are not modelled.
mod Base
pub mod Text
pub mod Table
pub mod Risk
pub mod Requests
pub mod Login
pub mod Gate
pub mod Session
pub mod Output
pub mod Runtime
