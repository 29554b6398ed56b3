-- ===== src/Lib.antt =====
-- CodeBridge: remote tools for coding agents. A manager serves MCP callers and forwards their calls
-- to the devices of their account; a device's client checks permissions and runs the call; the
-- daemon codebridged keeps projects, runs and their journal in SQLite and speaks to a desktop
-- application over length-prefixed frames. This library models the parts of the Go code with rules
-- of their own, as functions that pass the state along.
--
-- Parts and files:
--   Base             conditionals, texts, lists and Go maps (association lists by key).
--   Runtime          internal/runtime. Entities and Permits: the structs of entities.go, timestamps
--                    and identifiers. Store: a database as a record of tables, a transaction as a
--                    function that fails or gives a new database, `update` as UpdateContext. Rows
--                    and Tables: putX and getX of entities_ops.go and runs_ops.go, with the
--                    constraints of schema/store/v1/schema.sql. Policies: policy_ops.go. Journal:
--                    AppendEvent and the reads of events.go. Transitions: TransitionRun and
--                    SetComputerController of transitions.go, on top of Tables and Journal.
--   Agentops         internal/agentops. Permissions: the rules, parked requests and grants of
--                    permissions.go. Bash: the gate of runBash and the subagent preflight, which
--                    use them. Rings and Runs: the life of one run of run_manager.go as a step
--                    relation, and its rings of lines and events, without a store. RunStore: the
--                    database of runs and events, and its recovery at a start. Paths and
--                    Sensitive: security.go and sensitive.go, where the file system's answers are
--                    an argument. The rest is write.go: Edits and Diff, what one edit asks for and
--                    its preview; Patch, the planning of a patch; Checkpoints, the snapshot before
--                    it; Writes, the writes and the restoring after a failure; Rollback.
--   Hostipc          internal/hostipc. Frame: ReadFrame and WriteFrame of frame.go on lists of bytes.
--                    Methods and Hello: methods.go and hello.go. Session: one connection of
--                    server.go, frame by frame, with what handlers were called.
--   AuthState,       internal/authstore/store.go: the store and its file, then devices, credentials
--   Authstore        and enrollment codes.
--   Authserver       internal/authserver. The server's tables and its file; Authorize: the
--                    authorization endpoint of server.go and store.go; Tokens: the token endpoint
--                    and the registration of token.go; Requests: requests and restarts in a row.
--   Manager          internal/manager. Connections, Registry and Calls: registry.go over a heap of
--                    connections, since the registry and the pending calls share them. ToolPolicy:
--                    tool_policy.go. Accounts: accounts.go. RunEvents: the broker of
--                    run_events.go, over the types of internal/protocol/protocol.go.
--   CallStore        internal/mcpcallstore/store.go: the log of tool calls.
--
-- A mutex makes each operation one step. What the code draws from outside is an argument: the
-- time, random ids and secrets, digests, whether a file was written or a transaction committed,
-- the encoded JSON, the metadata that an OAuth client publishes, bcrypt and SHA-256. Texts
-- that the code only compares are strings; texts that it takes apart are lists of code points. The log
-- of tool calls is the list of its rows, the newest first; its times are texts, and SQLite's LIKE is an
-- argument; it takes durations not to be negative. Other times are nanoseconds, and milliseconds in a row. Sequence numbers are taken
-- to stay below 2^63. Of the loops only the broker's over its pending events has fuel, the number of
-- these; each turn takes one away. A workspace is a function from clean paths to contents; a write
-- works, does not start or is cut after a part of the content, as an argument says, and so are the
-- other answers of the file system.
--
-- Not modelled: processes, sockets, HTTP, gRPC, MCP and SQL libraries, JSON; file modes, and symbolic
-- links in Patch, Writes and Rollback (Paths has them); the table of runs in memory, and the walks and
-- searches of agentops; the daemon, keys and JWTs,
-- migrations of the store, the desktop application.
pub mod Base
pub mod Agentops
pub mod Hostipc
pub mod AuthState
pub mod Authserver
pub mod Authstore
pub mod Runtime
pub mod CallStore
pub mod Manager
