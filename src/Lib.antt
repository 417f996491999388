-- ===== src/Lib.antt =====
-- Models and theorems for Shiny Server, a server that launches R and Python applications on demand
-- and proxies HTTP and SockJS traffic to them.
--
-- The parts, as a request meets them. The routers (lib/router) find the application for a URL:
-- the ConfigRouter scores its servers, each server tries its locations in turn, and a
-- DirectoryRouter looks along the URL's path for a directory with an app. The schedulers
-- (lib/scheduler) give the application a worker process, refuse requests beyond its capacity, and
-- reap a worker that is idle. The proxies (lib/proxy) count the connections of a worker, split a
-- connection into channels, and keep sessions alive over lost connections. The configuration
-- (lib/config) is read by a lexer and a recursive-descent parser, and checked against a schema,
-- which is a configuration itself; an application may have a configuration of its own. The
-- ConfigRouter makes its servers and the routers of their locations from a configuration that is
-- accepted, and the server (lib/server) listens on the addresses of these servers. A worker
-- (lib/worker) is launched as the user of its application and ended by signals.
--
-- Files:
--   Prelude            names passed on from the libraries, Boolean tests, lists measured by native
--                      numbers, integers, association lists with their laws; Sets has lists as sets
--                      of texts, Options chains of options, Chars the classes of characters
--   Scheduler/WorkerEntry   lib/scheduler/worker-entry.js: every method takes the entry and
--                      answers the new entry with the timers it sets and clears
--   Scheduler/Lifecycle     the life of one worker: the calls that lib/proxy/http.js,
--                      lib/proxy/sockjs.js and lib/scheduler/scheduler.js make on its entry, as a
--                      step relation; Invariant and Reaping prove what holds of it
--   Scheduler/Simple   lib/scheduler/simple-scheduler.js and lib/core/url-util.js: acquireWorker
--                      and admission; Capacity bounds the sessions
--   Scheduler/Workers  lib/scheduler/scheduler.js: the worker table; Connect is connectEndpoint_p
--   Scheduler/Registry lib/scheduler/scheduler-registry.js, on a heap of schedulers
--   Config/Lexer       lib/config/lexer.js; Consumes and Quoting hold its theorems
--   Config/Parser      lib/config/parser.js; Totality and RoundTrip hold its theorems
--   Config/Node        lib/config/config.js: the tree of nodes, with Search for its theorems; Within
--                      has the lookups from a node whose scopes are nodes as well
--   Config/Schema      lib/config/schema.js: Types has the conversions, Rules the rules made from the
--                      schema, Apply their application to the nodes of a configuration, Results
--                      the results of checks; Numbers, Binding, Created with Made, Typed, and
--                      Conforms with Whole hold the theorems
--   Core/Tail          lib/core/fsutil.js, safeTail_p
--   Core/Serialized    lib/core/qutil.js, serialized, with its callbacks one by one; Once holds the
--                      theorem
--   Proxy/ErrorCode    lib/proxy/errorcode.js
--   Proxy/Multiplex    lib/proxy/multiplex.js: the table of channels and the packets
--   Proxy/Robust       lib/proxy/robust-sockjs.js: the table of sessions; the classes of the package
--                      shiny-server-client are the record ClientLib. Calls and Laws hold lemmas,
--                      Timers and Resume the theorems
--   Router/Paths       lib/router/directory-router.js, extractUnescapedDirs
--   Router/AppDir      lib/router/directory-router.js, $findShinyDir_p
--   Router/Directory   lib/router/directory-router.js, DirectoryRouter.getAppSpec_p
--   Router/Sequence    lib/core/qutil.js, forEachPromise_p, and lib/router/router.js,
--                      getFirstAppSpec_p and CompositeRouter
--   Router/Scores      lib/router/config-router.js, ServerRouter and the ConfigRouter's
--                      getAppSpec_p, and isWildcard, isValid and equal of
--                      lib/core/iputil.js
--   Router/ConfigRouter     lib/router/config-router.js, the routers made from a configuration: Paths
--                      has deriveLocationPath, Hosting the four kinds of location and createLocation,
--                      Servers createServers, Permissions lib/core/permissions.js; Nested, Accepted
--                      and Listens hold theorems
--   Router/RunAs       lib/router/squash-run-as-router.js, and the loop over :HOME_USER: of
--                      lib/router/user-dirs-router.js
--   Router/UserDirs    lib/router/user-dirs-router.js, UserDirsRouter; Named and Served hold lemmas and
--                      the theorem
--   Router/AppSettings lib/router/config-router-util.js; Protocols, Kept and Given hold its theorems
--   Router/LocalConfig lib/config/app-config.js and lib/router/local-config-router.js: the settings
--                      are trees of fields; Override holds the theorems
--   Router/Locations   lib/router/router.js: PrefixFilterRouter, RestartRouter, SingleAppRouter and
--                      RedirectRouter; Redirects holds the theorems
--   Server             lib/server/server.js: the two tables of servers, with the calls to the servers
--                      of the runtime as effects; Hostname is the rest of lib/core/iputil.js. Tables,
--                      Effects and Requests hold lemmas, Refines, Destroy and Runs the theorems
--   Main               lib/main.js: loadConfig_p, with Reload for its theorems; Shutdown has the
--                      handlers of the signals that end the program
--   Worker             lib/worker/app-worker.ts: Async has what the handlers settle with; Launch is
--                      launchWorker_p up to the spawn, with Users for its theorems; Spawn has the
--                      specs of the processes, with Venv for Python; Bookmarks has the directories
--                      of bookmarks, with Laws; Process is kill. Python is lib/core/python.ts
--   Tests              in each part: the theorems at concrete inputs
--
-- Texts that the code walks are lists of code units; texts that are only compared are strings. An
-- exception, a rejected promise and a promise that never settles are values. A connection is a
-- number, and what is written to it, like a timer that is set, is an effect in the result.
--
-- Fuel: the token stream is given one more than the length of the text and the parser twice the
-- number of tokens and two, and both suffice; the digits of a number are written with one more than
-- the number, which suffices; the loop over :HOME_USER: is given a round more than there are users,
-- which suffices for a user of another name; the attempts to connect are given a number.
--
-- Parameters: the functions unescape, toLowerCase, toUpperCase, parseFloat, JSON.parse, url.URL and
-- the sort of the runtime, path.join and the file system, the package ip-address, and
-- shiny-server-client; the values that the schema stores, as a function of the node; the numbers of
-- groups and the entries of users; what stat, chown and spawn answer; the decoding of bytes.
--
-- Not modelled: the proxying of bytes, sockets, pipes, templates and static files, which are input
-- and output; the texts of error messages; the delays and other settings of the ConfigRouter that no
-- router reads; the sharing of settings between requests, which merge changes in place; the command
-- line and the middleware of the program; the transports.
pub mod Prelude
pub mod Scheduler
pub mod Config
pub mod Core
pub mod Main
pub mod Proxy
pub mod Router
pub mod Server
pub mod Worker
