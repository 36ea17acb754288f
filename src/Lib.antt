-- ===== src/Lib.antt =====
-- Verification library of the cool-tunnel-server admin plane: the API that administers the users, the
-- proxy accounts and the settings of a proxy server over one SQLite database, and the supervisor that
-- runs the proxy.
--
-- The parts of the program and how they interact. packages/shared/src/index.ts holds the roles and
-- permissions; packages/security/src/index.ts the validators, the masking of secrets and comparisons;
-- packages/config/src/index.ts the configuration. packages/db/src/store.ts keeps users, sessions,
-- passwords, bootstrap tokens, proxy accounts, settings and the audit log in the tables of
-- packages/db/src/migrations.ts. apps/api/src/app.ts answers requests: it throttles sign-ins, checks
-- origin, session, CSRF token, forced password change and permission, and calls the store;
-- apps/api/src/auth.ts wraps the auth library, whose sessions pass a hook that reads the user's status.
-- apps/api/src/core-boundary.ts renders the proxy's input from the active accounts behind each change of
-- them; singbox-core/src/subcommands/supervise.ts restarts the proxy when its configuration changes.
--
-- Which file models what.
-- Base and its children: Boolean tests, texts as lists of UTF-16 code units, SQL tables as lists of
-- rows with the statements over them, and what the program throws.
-- Shared.Roles: `hasPermission`, `canManageTarget`, `canCreateRole`, `canDeleteRole` and their tables.
-- Security.Platform: the JavaScript runtime as parameters (`toLowerCase`, `Date.parse`, `URL`, HMAC,
-- base64). Security.Texts and Security.Validate: the regular expressions of the validators, written
-- out. Security.Json and Security.Mask: `maskSensitive`.
-- Config: the record `AdminConfig`. Config.Parse and Config.Load: `loadAdminConfig` and its parsers.
-- Store.Db: the rows, and the state of the database. Store.Monad: operations as functions from a
-- database to a result and a database, where a throw keeps what was written before it unless a
-- `transaction` stands around it. Store.Users, Store.Update, Store.NewUser, Store.Accounts,
-- Store.Bootstrap, Store.Audit, Store.Settings, Store.SettingsUpdate, Store.Tokens, Store.ProxyInput
-- and Store.Proxy: the methods of `AdminStore`, under their names in snake case. Store.Sessions: the
-- hook `databaseHooks.session.create.before`. Store.History: a call of any of these, and a list of
-- calls as one history.
-- Store.Frames: the abstract description of what may happen to the tables `user` and `session`.
-- Store.Steps, Store.StepsUsers and Store.StepsProxy: what relates the database before and after each
-- statement relates it before and after each operation. Store.Guards, Store.Owner, Store.Unique,
-- Store.SessionsActive, Store.Consistent, Store.Refine, Store.RefineInsert, Store.Refinement,
-- Store.UpdateLaws, Store.Failures, Store.LockOut, Store.AuditTrail, Store.Audited, Store.KeptLog,
-- Store.AuditedCalls, Store.AuditList, Store.MaskedUrl, Store.BootstrapLaws,
-- Store.TokenLaws, Store.ProxyLaws and Store.SettingsLaws: the proofs.
-- Api.Throttle: `pruneAttempts`, `attemptsOver`, `bumpAttempts`, `checkLoginThrottle`,
-- `recordFailedLogin`, `clearLoginThrottle`. Api.Headers: the keys of a request. Api.Login: the
-- handler of POST /login. Api.Session: `getCurrentSession`, `csrfTokenForSession`. Api.Access: the
-- middleware of /api/* in its order. Api.Routes: the routes with their permissions, and the
-- operational actions. Api.Subscription: `subscriptionResponse`. Api.Inputs: `safeJson`,
-- `parseProxyInput`, `parseSettingsInput` and the other readings of a body. Api.Replies: `ok`,
-- `normalizeError`, `redactProxyAccountFor`. Api.Handlers and Api.ProxyHandlers: the handlers of
-- /api/*, one function each. Api.Requests: the middleware and the handler of a route. Api.Setup: POST
-- /setup, POST /two-factor and apps/api/src/jobs/audit-retention.ts. Api.Events: what reaches the API,
-- one event after the other. Api.Boundary, Api.Actions and Api.Caddyfile:
-- apps/api/src/core-boundary.ts. Store.Status: `statusSummary`. The other files of Api: the proofs.
-- Singbox.Argv: singbox-core/src/util/argv.ts and the parsers of arguments. Singbox.Migrate:
-- `migrateLegacyDomainStrategyConfig`. Singbox.Supervise: the supervisor's state and its steps, where a
-- callback that awaits the exit of a child is two steps. Singbox.Boot: the wait for the first
-- configuration. Singbox.MigrateLaws, Singbox.ModernLaws, Singbox.ArgvLaws, Singbox.SuperviseLaws and
-- Singbox.Overlap: the proofs.
-- Examples: concrete databases and requests on which the theorems are applied.
--
-- Conventions and bounds. Instants are natural numbers of milliseconds, counted from the earliest date
-- that JavaScript has, and a comparison of ISO texts is a comparison of instants. Each call takes what it
-- draws from the clock and the random source in a record `Env`. Numbers of the program are natural
-- numbers; where the source subtracts, the model adds on the other side. Two loops take fuel: the wait at
-- boot, with a proof that one round for each 2,000 ms of the timeout and two more are enough, and the
-- replacement of template blocks, with the length of the text, since a block is never empty. Every
-- other loop runs along a list. The limits of the code, such as the 10,000
-- keys of a throttle map, the five and ten attempts, and the ports 1024 to 65535, are as in the source.
--
-- In a history every statement that meets the constraints is carried out. What a failing statement leaves
-- of `updateUser` is the matter of Store.Failures, where each of its statements may fail. What the auth
-- library writes by its own handler of /api/auth/* is a parameter of the event.
--
-- Not modelled, and why. `redactSensitive`, a chain of regular expressions over free text, is an
-- argument of `maskSensitive`. Password hashes, the auth library and its cookies, Prisma, the commands
-- and files of the core boundary, and the zod schemas of replies are parameters. Docker and the job
-- queue are input and output, like the pages and headers of apps/api/src/app.ts. The rendering of
-- singbox-core/src/config/render.ts, the panel under apps/web, the operator commands, the Rust crate
-- and the scripts are outside the parts modelled.
pub mod Base
pub mod Shared
pub mod Security
pub mod Config
pub mod Store
pub mod Singbox
pub mod Api
pub mod Examples
