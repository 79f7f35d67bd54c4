-- ===== src/Lib.antt =====
-- The benis-phone worker: the service (TypeScript, under ui/) that keeps the configuration of the
-- phone menu, lets voice bridges in, and gives agents access through OAuth.
--
-- The parts and the files that model them:
--
--   Bridge -- a bridge enrolls with its key (`enroll`, `enrollmentStatus` of
--   ui/worker/handlers/bridge.ts: Bridge/Enroll), an operator decides (`decide`, `list`,
--   `revokeBridge` of ui/worker/handlers/registrations.ts: Bridge/Registrations), and from then on
--   each of its requests is signed (`authenticateBridge` of ui/worker/lib/bridge-auth.ts:
--   Bridge/Auth, over Bridge/Crypto). Bridge/Store holds the tables of
--   ui/worker/migrations/0003_bridge_enrollment.sql; Bridge/Service has all these requests as the
--   events of one service.
--   OAuth -- ui/worker/lib/oauth.ts over the tables of ui/worker/migrations/0004_mcp_oauth.sql
--   (OAuth/Store). OAuth/Clients is `registerClient`, OAuth/Authorize is `authorizationPage` and
--   `decideAuthorization`, OAuth/Tokens is `exchangeToken`, `issueTokens`, `lookupToken` and
--   `revokeToken`, OAuth/Bearer is `authenticateOAuthBearer` and the revocation of
--   `handleAgentsApi`; OAuth/Service has these requests as events.
--   Config -- the configurations. Config/Patch is `applyJSONPatch` of
--   ui/worker/lib/config-changes.ts, over Config/Pointer and the JSON values of Config/Json;
--   Config/Sip is `validateSIPDefinition` of ui/src/lib/sip-validation.ts, and Config/Document reads
--   its definition from a JSON value. Config/Store holds the tables of ui/worker/migrations with the
--   statements of ui/worker/lib/db.ts and secrets.ts; Config/Secrets is the encryption of
--   ui/worker/lib/secrets.ts. Config/Changes is `preparePatch`, `commitPrepared` and
--   `rollbackConfigChange` of ui/worker/lib/config-changes.ts; Config/Save is `putOne`, Config/Api
--   the other handlers and Config/Routes `handleApi` of ui/worker/handlers/configs.ts;
--   Config/Service has these requests and the patches of agents as the events of one service.
--   Mcp -- `handleMCP` of ui/worker/handlers/mcp.ts: the tools of an agent, which joins
--   `authenticateOAuthBearer` of OAuth/Bearer with the patches of Config/Changes.
--   Broker -- `ConfigBroker` of ui/worker/durable/configBroker.ts: the sockets of bridges and
--   editors, the status that bridges report, what the broker keeps of it (Broker/Storage) and sends,
--   its requests and snapshots (Broker/Service).
--   Graph -- the graph of menus in the editor. Graph/Layout is `runTreeLayout` of
--   ui/src/lib/fn-graph.ts: the order of the children by key and the placing of the subtrees;
--   Graph/Script is `scriptGotoTargets`, the menus that a script goes to.
--   Common -- names shared by the other modules, texts as lists of UTF-16 units, lists, and the
--   tables: `first?`, `update`, `delete` and `count` are the statements of the database on rows.
--
-- How state is modelled. A table is a list of rows and a handler is a function from the tables to a
-- response and the tables. A primary key, a unique index or a trigger is a test before an insertion,
-- which fails as the statement does; a batch changes all of its tables or none. A handler runs
-- without another in between; a run is a list of events, so the theorems on runs hold for every
-- order of whole requests. Every operation is structural recursion, except the printing of numbers
-- in `decimal`, where the fuel is the number itself plus one and each step divides it by ten
-- (Config/Sip/Decimal), and `place` of the layout, where it is one more than the nodes: each call
-- visits a node more (Graph/Layout/Placed).
--
-- Parameters. SHA-256, Ed25519, AES-GCM, `atob`, `btoa`, the text codecs, `JSON.stringify`,
-- `new URL`, `decodeURIComponent`, the generated schema and `renderToml` are the functions of a
-- record or an argument. No law of theirs is assumed, except where a theorem on encrypted secrets
-- names it as a hypothesis. The arithmetic of the coordinates in the layout is the argument
-- `Coordinates`. Random values and the clock are arguments.
--
-- A patch and a save are modelled in two steps, what they read and check and what they write, so that
-- a theorem on the writing alone holds whatever other requests did in between.
--
-- Not modelled: runs in which the other handlers interleave between statements; rows of bridges and
-- grants that foreign keys delete; headers, cookies and HTML that are only written; the JSON number
-- -0, which is not told from 0; members named like an array index, which an object lists first;
-- members that a JavaScript object inherits, such as `toString` in the `sip_secret_state` that a
-- save answers with; fractional ports; letters outside ASCII where a method or a hash changes its
-- case. The building of the nodes and edges of the graph, the rest of the worker and the user
-- interface, and the Go program that takes the calls, are left out.
pub mod Common
pub mod Bridge
pub mod Broker
pub mod OAuth
pub mod Config
pub mod Graph
pub mod Mcp
