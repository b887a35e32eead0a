-- ===== src/Lib.antt =====
-- A model of pmmcp, a process manager that agents drive over MCP, in the parts that decide: which
-- process is restarted, in which order a group starts, who may do what, what is remembered.
--
-- The parts and the files that model them:
--   Authz       internal/authz: authz.go (roles and capabilities: Caps, Allow, Require,
--               currentUserFrom, SameUID); Authz/Share: share.go (ShareBook)
--   Session     internal/session/session.go (Registry: Open, Get, GetByHarness, End)
--   Supervise   internal/supervise: supervise.go (RestartPolicy, RestartCounter, ShouldRestart,
--               NextBackoff); Supervise/Loop: loop.go (CrashLoop, MapStatus, MapStatusExit)
--               and relaunch.go; Supervise/Probe: the loopback guard of supervise.go
--               (validateLoopbackURL, loopbackDialControl, CheckRedirect); Supervise/Health: ProbeHTTPOpts
--   Event       internal/event/event.go (Bus in memory: NewBus, Append, Query, QuerySince)
--   Group       internal/group/group.go (startOrder); Group/Registry: Create, Get, Remove,
--               StartOrder, StopOrder
--   Watch       internal/watch/watch.go (options, New, Add, tick, dirChanged, Close)
--   Webhook     internal/webhook/webhook.go (admission and host checks); Webhook/Registry: Create,
--               Get, Delete; Webhook/Dial: the guards of deliver.go (validate, checkRedirect,
--               dialContext)
--   Declare     internal/declare: declare.go and policy.go (the document, and the checks that need
--               no host); Declare/Check: the rest of the policy pass, validateServices, Validate
--   Sandbox     internal/sandbox/policy.go (DefaultPolicy, AllowsRead, AllowsWrite, HasProjectRoot)
--   Secret      internal/secret: uri.go (ParseRef, LooksLikeRef) and the names of keyring.go;
--               Secret/Resolve: resolvePath and evalExisting of uri.go
--   Profile     internal/profile/profile.go (Store: Create, Get, Update, Delete, Use, Active,
--               RemoveSession)
--   Logcap      internal/logcap: capturer.go (New, rotateOne, rotateNow) and writer.go (openWriter,
--               Write, emit, rotate, Close)
--   Project     internal/project/project.go (Detect, walkUp, Key, hasMarker)
--   Store       internal/store/sqlite/sqlite.go (Create, Get, Update, UpdateWithCAS, Delete, List)
--               with the constraints of its tables
--   Daemon      internal/daemon: the state of the Server and errFrom (server.go); Daemon/Guard: deny,
--               require, authorizeTarget; Daemon/Resolve: resolveID; Daemon/Request, Daemon/Prepare
--               and Daemon/Start: doStart; Daemon/Control: doStop, doRemove; Daemon/Restart:
--               doRestart; Daemon/Read: doList, doStatus; Daemon/Relaunch: RelaunchEligible;
--               Daemon/Edit and Daemon/Run: doUpdate, doEnable, doShare, doRun, doWait and
--               doHealthCheck (handlers_ext.go); Daemon/Dispatch: the capability that each of
--               these requests asks for
--   Audit       internal/audit/audit.go (Log in memory: New, Append, Query, QueryFilter)
--   Path        Go's path/filepath on a host whose separator is '/', for the parts that take paths
--               apart
--   Domain      internal/domain: status.go, process.go, errors.go
--   Prelude     lists, texts, runes, 64-bit integers, times, results and occurrence counts
--
-- How the parts interact: the daemon holds one registry of each kind, and Daemon models its
-- handlers of the requests on processes and shares. They ask Authz before they act and append their
-- denials and deeds to Audit; they keep the records of Domain in the table of Store; and they ask the
-- process manager, which is an argument, to start and stop. When the daemon comes up, the test of
-- Supervise says which records are started again; its supervisor runs the loop of Supervise. Group
-- gives it the order of starts and stops, and Watch tells it of changed files. A start writes its
-- output through a writer of Logcap, takes its environment from Profile and Secret, and runs under a
-- policy of Sandbox; Project finds the root that a policy and a document of Declare are checked
-- against. In Daemon the answers of Secret, Sandbox and Project are arguments (Daemon.Host).
--
-- The daemon as a state: a handler is one step on Daemon.Server; two handlers do not interleave, and
-- the clock stands still in a handler. The calls of the process manager are kept, newest first, and its
-- answers may depend on the calls before. The payloads are decoded; a payload that cannot be decoded
-- is `none` where the handler tests for it. The audit log is that of Audit; events are kept as a list.
--
-- Conventions. Go's `int`, `int64` and `time.Duration` are signed integers with the 64-bit
-- wrap-around written out where the code adds or multiplies them (Prelude/Int). A `time.Time` is the
-- number of nanoseconds since the zero Time (Prelude/Time). `float64` is a parameter
-- (Supervise.Floats). A Go map is a function from its keys, or a list of its keys where the code
-- ranges over it; the order of a range over a map is an argument, or that of the list. A method
-- that runs under a lock is one step; where a method gives the lock up in between (Open), its two
-- locked parts are two steps. A value that the code copies on its way in and out is a value. Error
-- texts are left out, and errors are constructors. The answers of the identifier generator, the
-- clock, the random source, the file system, the resolver, the HTTP client and the callbacks are
-- arguments. A text that is only compared is a native text; one that is taken apart is a list of
-- code points (Prelude/Runes) or, in Event, of bytes.
--
-- Fuel: `Group.kahn` and `Project.walk_up` run on fuel. A round of the first moves one member to
-- the output and no member moves twice, so the number of members, which `start_order` gives it, is
-- enough. A round of the second goes to the parent directory, so one more than the number of the
-- directory's elements is enough.
--
-- Not modelled: the encoding of records in SQLite and the SQLite logs; the daemon's loops, its session
-- end, its handlers of groups, profiles, declarations, webhooks, watches and secrets, and its streams;
-- the process and sandbox drivers, the engine, and the programs around them, which are mostly input
-- and output; the failures of file operations under Logcap, and its reading side; the reading and
-- decrypting of secrets; the text of a cycle error (findCyclePath); the goroutines, tickers and
-- channels around `CrashLoop` and the watcher.
pub mod Prelude
pub mod Authz
pub mod Session
pub mod Store
pub mod Supervise
pub mod Event
pub mod Group
pub mod Watch
pub mod Daemon
pub mod Domain
pub mod Webhook
pub mod Profile
pub mod Logcap
pub mod Path
pub mod Sandbox
pub mod Secret
pub mod Declare
pub mod Project
pub mod Audit
