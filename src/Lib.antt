-- ===== src/Lib.antt =====
-- GoPanel is a panel for servers in Go: users sign in to a web application, register servers, look
-- at the containers that run on them, and every change leaves an audit record. This library models
-- the parts of it that keep state, over tables of rows in place of SQLite, and proves what they
-- promise.
--
-- The parts, with the files of the repository and of this library:
--
-- - Common: bytes of texts, the functions of Go's libraries that the code relies on
--   (strings.TrimSpace, Split, HasPrefix and others, strconv, base64, hex), maps as association lists,
--   integers, and a result with its error.
-- - Database and Database.Rows: the tables that internal/store/migrations/*.sql makes, with their
--   keys, checks and foreign keys, and what SELECT and DELETE do on a list of rows.
-- - Auth.RateLimit: internal/auth/rate_limit.go. AllowGlobal, AllowAccount and Reset are functions
--   on the limiter's state; the mutex makes each of them one step. Bucket has the laws of the global
--   token bucket and Accounts those of the attempts at an account.
-- - Auth.Password: internal/auth/password.go, with argon2 as a parameter.
-- - Auth.Store: internal/auth/store.go, a function from tables to tables for each statement.
-- - Auth.Service: internal/auth/service.go, which puts the limiter, the store and the passwords
--   together. Login, Sessions, Revocation and Expiry have its laws; the order of the texts of times,
--   by which the cleanup deletes, is a parameter.
-- - Audit: internal/audit/audit.go. States has what a result makes of the rows, Own what becomes of a
--   row that a call has made itself, and Calls what a sequence of calls makes of the log.
-- - Server: internal/server/model.go, validate.go, store.go and service.go. Create writes the audit
--   record before the server's row and closes it after that; Service.Audited has what each of its
--   replies says of the tables.
-- - Diagnostic.Record: internal/diagnostic/record.go, the log of at most 200 records.
-- - Diagnostic.Redact: internal/diagnostic/redact.go, for details that are JSON. The regular
--   expressions for other texts are left out.
-- - Migrations: internal/store/migrations.go. Versions, Progress and Complete have its laws.
--   SQLite's effect of a file is a parameter.
-- - Container.Status: internal/container/status.go, the cache of the servers' statuses.
-- - Container.Client and Container.Service: internal/container/client.go and service.go, over the
--   replies of the Docker engine as arguments. Lines and Logs have the laws of the logs.
-- - App.Poller: the part of internal/app/app.go in which workers check the Docker servers side by
--   side. A check is a sequence of steps on the cache and the log of diagnostics, one for each call
--   of their methods, and the steps of different checks come in any order. Isolation and Outage have
--   its laws. HandOut is how the servers are handed out to the workers, until the context ends, and Ends
--   has the laws of that.
-- - Auth.Csrf: internal/auth/csrf.go, the tokens of forms, with HMAC as a parameter. Frames has what
--   the bytes under a MAC say, Tokens and Login have the laws of the tokens.
-- - Http: what a handler reads of a request and what it answers. A page is a component of
--   internal/view with its arguments, so a response is data. Http.Reads has the answers that only
--   read.
-- - Auth.Handler: internal/auth/handler.go with errors.go and diagnostic.go, and the recorder of
--   internal/diagnostic/auth.go; Answers has the handlers. Guards is request.go and middleware.go,
--   and Guards.Admission has whom they let through. SignIn and SignOut follow a user from one request
--   to the next.
-- - Server.Handler, Container.Handler, Diagnostic.Handler and App.Handler: the handler.go of
--   internal/server, internal/container, internal/diagnostic and internal/app. Server.Pages,
--   Container.Pages and Container.Summary have what their pages show, and the texts of
--   SafeDiagnostic. The modules Reads are about the handlers that only read.
-- - App.Routes: the routes of internal/app/app.go and of the Routes methods, each with its middleware
--   and its handler, for the route that the router has found. Access has a table of who may have what
--   route, Reads the routes that change nothing.
-- - App.Lifecycle: Run, runLifecycle, runHTTPServer, shutdownHTTPServer and finish of
--   internal/app/app.go. Reports has when an error comes out.
-- - Resource: what the process begins and ends, as a list of events, and what is open behind it.
-- - Connection: internal/store/store.go, the opening of the database.
-- - Config: internal/config/config.go. Parts, Listening and Defaults describe the parts of a
--   configuration, and Modes what is accepted as a whole.
-- - Startup: cmd/gopanel/main.go, from the arguments of the process to its end; Balance has
--   what is open at the end. Startup.Docker is the lookup of servers for the Docker service, and
--   Startup.UserCommand is user_command.go, with the administrator that it creates in Created.
-- - The modules named Examples run the theorems at concrete inputs.
--
-- Whatever the surroundings decide is an argument of the operation: the clock, the random bytes,
-- whether a statement, a transaction's begin or its commit fails, whether a page renders and is
-- written, and what net, net/url, os and flag say. A time is a number of nanoseconds.
-- A length under a MAC is written in 64 bits, and a number of seconds is read in 64 bits; no
-- other machine integer could wrap in these parts. All loops are structural
-- recursion on the lists and texts that the code walks over. The one with a bound is the printing of
-- a number in Common.Decimal, which takes no more rounds than the number itself.
--
-- Not modelled: the views in internal/view are generated and print only, as do logRecord and the log
-- lines. The HTML of a page that stands in for a failed one is its reference. The matching of paths
-- is chi's, and the headers of securityHeaders are the same on every answer. Of internal/app the
-- tickers and the session cleanup around Cleanup are left out, of cmd/gopanel the context of signals
-- and the exit code. internal/diagnostic/audit.go only copies fields. The tokens of the global limit
-- are exact where the code has a float64.
pub mod App
pub mod Audit
pub mod Auth
pub mod Common
pub mod Config
pub mod Connection
pub mod Container
pub mod Database
pub mod Diagnostic
pub mod Http
pub mod Migrations
pub mod Resource
pub mod Server
pub mod Startup
