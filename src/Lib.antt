-- ===== src/Lib.antt =====
-- The DAP/1 adapters for MCP (adapters/mcp-bridge/src) and for the dsh harness
-- (adapters/dsh-plugin/src): an agent's client of a hub that relays signed frames over a WebSocket,
-- with end-to-end encrypted channels and direct messages, and the tools around it.
--
-- The parts, and how they use each other:
--   * Keepalive (adapters/mcp-bridge/src/keepalive.ts): KeepAliveWatchdog. `World` is the
--     watchdog's fields together with the clock, the live timers, the peers that have its listener
--     and what was done to peers. `start`, `stop` and `tick` are the methods; `on_pong` and
--     `expire` are the callbacks that they register. `Step` is what can happen next: calls, pongs,
--     and timers that never run early.
--   * Crypto (adapters/mcp-bridge/src/crypto.ts): canonicalJson, sigPayload, signFrame,
--     verifyFrame, seal and open, over `Primitives`, which are the functions of the crypto
--     packages, base64, UTF-8 and JSON.stringify.
--   * Config (adapters/mcp-bridge/src/config.ts): readDapConfig, persistDapConfig,
--     resolveDapSettings. The config file is its text, `none` where it cannot be read; JSON's
--     codec is a parameter.
--   * Channels (adapters/mcp-bridge/src/channels.ts): loadChannelKeys, persistChannelKeys,
--     parseChankeyInvite.
--   * Client (adapters/mcp-bridge/src/client.ts): DapClient. `Client.State` has its fields as
--     the record `Client`, with the surroundings that they work on: files, frames sent, dials,
--     draws of random values, and the jobs that are due. An async call that waits is a stack of
--     its await points (`Await`), parked in the waiter list where the code parks its `done`;
--     settling it makes a job, and `resume` is the code after an await. `Client.Wire` sends frames
--     and keeps the inbox and the error ring, `Client.Calls` and `Client.Invites` are the
--     operations up to their first await, `Client.Resume` what follows, `Client.Handlers` the
--     frames of the hub, `Client.Socket` the connection, and `Client.Steps` the events. It uses
--     Config for the secret and the invites, Channels for keys, and Crypto for frames.
--     `Client.Laws` has the theorems, those on whole runs in `Client.Laws.Runs`.
--     `Client.Identity` has loadIdentity, over a key file's text, and `Client.Launch` the
--     constructor.
--   * Server (adapters/mcp-bridge/src/server.ts): `Server.Tools` has the tools behind the
--     master-secret gate, `Server.Launch` has `main`. It uses Client for what the tools do and
--     Config for what dap_connect persists.
--   * Dsh (adapters/dsh-plugin/src): the second adapter, whose client is written anew. Dsh.State,
--     Dsh.Wire, Dsh.Calls, Dsh.Handlers, Dsh.Inbound, Dsh.Resume and Dsh.Socket are its client.ts,
--     in the shape of Client, but for the sockets: they have numbers, `ws` is the current one, and
--     a socket that was let go may still have events. Dsh.Plugin, Dsh.Invites and Dsh.Tools are
--     index.ts, Dsh.Settings has resolveDapSettings and loadIdentity, Dsh.Launch the constructor
--     and `apply`, and Dsh.Steps what can happen next: a job, an event of a socket or a timer, the
--     invite poller, or a tool call. `Dsh.Laws.Connection` is the state machine that its connection
--     is to follow. crypto.ts and keepalive.ts there are copies of the bridge's files, and its
--     channels.ts and the rest of config.ts have the same functions.
--   * Gloss (adapters/mcp-bridge/src/gloss.ts): the glossary that two agents negotiate.
--     `Gloss.Words` has genAbbrev, ngrams, and the scans that `compact` and `expand` do,
--     `Gloss.Agent` the conversations, `Gloss.Session` GlossAgent with the calls that it makes of
--     the client and of its listeners, and `Gloss.Steps` what can happen next to it.
--     `Gloss.Cut` describes a `replace` as a relation between texts, of which `Gloss.Expansion`
--     shows that both sides mean the same.
--   * Json has the values that JSON.parse gives, JsMap the maps in insertion order, JsObject the
--     writes to plain objects, whose array indices come first and which `__proto__` does not become
--     a property of, and Common the tests and lists on native numbers.
--
-- Bounds and fuel: numbers on the wire are natural numbers. The decimal digits of n have fuel n + 1.
-- The loop over parked presence waiters has as fuel the number of calls it can make: one for each
-- query, and for a warm-up one more for each attempt that it has left. The search for a free
-- abbreviation has one turn more than there are reserved ones.
--
-- Not modelled: the hub (hub), parseChannels, the texts and input checks of the tools
-- (adapters/mcp-bridge/src/server.ts), failures of the file system, what a listener does when it
-- is called, a WebSocket that its constructor refuses, how many microtasks lie between two awaits,
-- and text that JSON.parse gives for a number that is not natural. A send on a socket that closes
-- is dropped, and on one that connects it throws, as the ws package documents. `URL` is a
-- parameter, and so is, for the client of the dsh plugin, what loadIdentity gives for a path.
-- Drawing random values, base64, toLowerCase with the message of its TypeError, `Number` of a text
-- and the regular expressions of hostOf are parameters in `Host`. A conversation of the glossary
-- is listed from the first time that something is kept in it, and not from the first look at it:
-- only the order in which `serialize` writes the conversations can show that. A time limit of a
-- waiting call may run out at any moment.
pub mod Common
pub mod JsMap
pub mod JsObject
pub mod Json
pub mod Config
pub mod Crypto
pub mod Server
pub mod Gloss
pub mod Channels
pub mod Client
pub mod Dsh
pub mod Keepalive
