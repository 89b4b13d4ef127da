-- ===== src/Lib.antt =====
-- zju-connect-gui: a desktop program that starts the VPN client `zju-connect`, keeps its session
-- alive, and is driven by a page that it serves on this machine.
--
-- The program's parts, and the files that model them:
--   src/backend/proxy/manager.rs          Manager and its children
--   src/backend/launch_options.rs         Launch
--   src/backend/proxy/retry.rs            Retry
--   src/backend/proxy/readiness.rs        Readiness
--   src/backend/proxy/logs.rs             Logs
--   src/backend/proxy/captcha.rs          Captcha (the wait for a complete file)
--   src/backend/proxy/proxybridge.rs      Proxybridge
--   src/backend/proxy/windivert.rs        Windivert
--   src/backend/relaunch_args.rs          Relaunch
--   src/backend/external_links.rs         Links
--   src/backend/settings_store.rs         Store/Settings
--   src/backend/pending_connect_store.rs  Store/Pending
--   src/backend/platform                  Platform (the quoting of arguments), Platform/System
--   src/web/server.rs                     Web/Server (the gate and the port), Web/Router, Web/Run
--   src/web/handlers.rs                   Web/Handlers
--   src/web/bridge.rs                     Web/Bridge (whole calls; Web/Bridge/Stream for the
--                                         page's stream), Web/Overlap (their parts)
--   src/main.rs                           Program and its children
-- Base holds the names, tests and list lemmas that these share, and Text the strings with the calls
-- of the standard library that the sources make on them.
--
-- How they interact. Program/Lock decides whether the program goes on, Web/Run starts the server, and
-- Program/Resume continues a session that waits for rights. A request of the page is matched by
-- Web/Router, passes the gate of Web/Server and runs a handler of Web/Handlers, which reads and writes
-- the settings (Store) and calls the manager's `start`, `stop` and `submit_input`. The manager
-- normalises and validates the options (Launch), starts the child with the arguments built from them,
-- reads its output in lines (Logs), asks the page for what the child wants to know, probes the HTTP
-- proxy (Readiness), and after an exit starts the child again after a delay (Retry). Its events go to
-- the page through Web/Bridge. A request for rights goes through a channel to the event loop of
-- Program/Elevation, which leaves a mark (Store/Pending) and starts a copy of the program with the
-- arguments of Relaunch; Program/Shutdown is the end.
--
-- The handlers take the manager as the record `ProxyManager` of its operations. Manager/Session states
-- what it promises of a session, as steps of a small machine, and Manager/Session/Refines that every
-- action keeps to it.
--
-- The manager's state is the record `State` of Manager/State, field by field the struct behind the
-- mutex. A section of code that holds the mutex, or a call that takes no lock, is one action of
-- Manager/Action, and `exec` of Manager/Exec runs it: `step_stop` is the locked part of `stop`,
-- `step_start_check`, `step_start_reset` and `step_start_spawn` are the three parts of `start`, and
-- so on, each named for its function. A thread or a task is the list of the actions that it still has
-- to take, and Manager/System lets any of them take the next step, with any answers of the
-- environment (the operating system, the clock, the child, the ProxyBridge library). Aborting a task
-- is recorded and takes nothing out of the system, so that what holds does not rest on when an abort
-- takes effect. Manager/Alone runs one thread to its end with the same answers throughout; its rounds
-- are a bound on the actions, and the results say that nothing is left of the thread.
--
-- Numbers are natural numbers; the generations wrap at 2^64, the attempts saturate at 2^32 - 1, a
-- duration is a number of nanoseconds with the maximum of Rust's type, and ports and process ids are
-- parsed with the maximum of their type. The inner loop of `consume_stream` runs on fuel: it takes a
-- byte a round at least, and is given as many rounds as there are bytes. The fifty looks at the driver,
-- the seventy at the child, and the looks at the lock up to its deadline are the code's own bounds.
--
-- Parameters, with what is assumed of them where a theorem needs it: `str::to_lowercase`,
-- `String::from_utf8_lossy`, serde_json, the random draw and the floating point spread of the jitter,
-- the file system's answers, and paths, which differ by platform. The broadcast channel of the bridge is
-- taken by its contract, `IsBroadcast` of Web/Bridge/Stream.
--
-- Program/Main composes the parts of `async_main` into one run, which says what is left behind.
--
-- Not modelled: the toolkits of the tray, the extraction of bodies and the replies of axum to
-- requests without a route, the single calls of the operating system in src/backend/platform (the
-- hidden console, the token query, the signals), the C interface of the ProxyBridge library, and
-- the page itself. A turn of the event loop that takes a request is one step, from the mark to the
-- answer of the system (`in_flight` is the state between): that the process is killed while the
-- system asks the user is not modelled. The manager takes the outcomes of the captcha poll and of
-- the driver as answers.
pub mod Base
pub mod Text
pub mod Launch
pub mod Links
pub mod Retry
pub mod Readiness
pub mod Proxybridge
pub mod Logs
pub mod Relaunch
pub mod Store
pub mod Platform
pub mod Windivert
pub mod Web
pub mod Captcha
pub mod Manager
pub mod Program
