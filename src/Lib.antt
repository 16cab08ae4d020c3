-- ===== src/Lib.antt =====
-- The accounts and sessions of the API (api/internal), as functions on the tables they write.
--
-- A service reads and writes the tables of the schema `seg`, puts mails on a queue and records
-- security events. `World` holds these; a method is a function from a world to its result and the
-- next world, so what was done before an error is still there after it (Runtime, Runtime/Exec). An
-- `Env` holds what one request meets: for each call that leaves the process whether it fails, the
-- clocks, the entropy, and the functions of the libraries (Argon2id, SHA-256, HMAC, JWT signing), which
-- no property restricts beyond what it says. A transaction is the database's copy that a statement
-- writes and Commit publishes; the deferred Rollback drops it.
--
-- - Prelude: the native numbers and integers, Boolean tests, texts (strings.TrimSpace, ToLower), and
--   lists as tables (SELECT, UPDATE, DELETE with their laws); Prelude/Sort has joins, ORDER BY,
--   DISTINCT, LIMIT and OFFSET; Prelude/Ordered: rows in order;
--   Prelude/Split has strings.Split and strings.Join.
-- - Database: the rows of database/init/03-seg-tables.sql, with the columns that the code names.
-- - Audit: audit/audit.go. Recording is best effort and returns no error.
-- - Security: security/limit.go (Quota.Check) and the codes of security/password.go (GenerateCode).
--   Security/Hashing: HashPassword and VerifyPassword of the same file.
-- - Session: session/session.go and session/postgres.go (Issue). Session/Issuer is the interface that
--   signup and login use, with the law they rely on. Session/Rotate: session/refresh.go and
--   session/refresh_postgres.go (Refresh, Logout). Session/Families, Rotation, Logout and Histories
--   hold the proofs; a history is any sequence of Issue, Refresh and Logout. Session/Access: Parse of
--   session.go.
-- - Signup: signup/service.go (Request); Signup/Verify: signup/verify.go, signup/verify_postgres.go.
-- - Login: login/service.go and login/postgres.go.
-- - UserTokens: the statements that password/postgres.go and emailchange/postgres.go share;
--   UserTokens/Effects: what they leave.
-- - Password: password/service.go and password/postgres.go (RequestReset); Password/Reset and
--   Password/Change are the other two methods.
-- - EmailChange: emailchange/service.go and emailchange/postgres.go (Request); EmailChange/Verify.
--   EmailChange/Outcomes, Requests and Histories hold the proofs; a history is any sequence of
--   requests and verifications of address changes and of password resets.
-- - Identity: identity/service.go and identity/postgres.go (Me, Can, User). Identity/Admin:
--   identity/admin.go and identity/admin_postgres.go (SetRoles, UpdateUser); Identity/Pages: a page of
--   a list; Identity/Paging: Users; Identity/Events: AuditEvents; Identity/Catalogues: Roles and
--   Permissions.
--   Identity/Capabilities describes what a user may do without joins.
-- - Social: social/service.go and social/postgres.go (Authenticate). Social/Providers: the claims that
--   social/oidc.go checks in a provider's token, and its cache of verifiers.
-- - Invitation: invitation/service.go.
-- - Migrations: Run of db/migrate.go with the ledger of db/pool.go, over any type of database;
--   Migrations/Files: Load.
-- - Http: httpapi/cookies.go and the replies of httpapi/router.go; Http/Sessions: httpapi/auth.go;
--   Http/Guards: httpapi/authmw.go and the guard of the admin routes; Http/Accounts: password.go,
--   emailchange.go, social.go and me of identity.go; Http/Admin: admin.go; Http/Lists: the two
--   catalogues and the audit list; Http/Cors: cors.go; Http/Health: health.go; Http/Routes: which
--   routes New of router.go offers, and behind which guard; Http/Routes/Paths: their paths;
--   Http/Routes/Protection: the proofs. Http/Quiet and Http/Silence: what mails nothing.
-- - Config: config/config.go. Config/Load reads the variables, Config/Lists splits their lists, and
--   Config/Steps and Config/Settings hold the proofs.
-- - Connections: Connect and retry of db/pool.go, on the attempts that are left; Connections/Attempts.
-- - Queue: queue/publisher.go, over any AMQP client; Queue/Handles: which connections stay open.
-- - Mail: mailer/mailer.go, with Mail/Lines; Mail/Worker: the delivery loop of api/cmd/worker/main.go;
--   Mail/Start: how the worker connects and ends.
-- - Commands: what api/cmd/api/main.go builds from the configuration, and the names of probe/probe.go;
--   Commands/Access: the tokens of the running API; Commands/Silence: what it mails without a broker;
--   Commands/Start: its start and end;
--   Commands/Bootstrap: api/cmd/bootstrap/main.go.
-- - Tests: a small database and the properties at concrete inputs.
--
-- The loops that draw a code run on the rounds that are left, three at the start, as maxCodeTries
-- says; the source stops there too.
--
-- Times and durations are integers in nanoseconds: the overflow of int64, the saturation of Time.Sub
-- and the rounding inside Duration.Seconds are not modelled. A request is atomic: where it locks its
-- rows (FOR UPDATE) other requests wait, but login reads the failure counter without a lock, and what
-- concurrent logins do is not covered. The clock is constant within a request, but for the second
-- reading of Verify. Logging, the JSON of mails and events, and the encoding of tokens are left out.
-- Parameters are the database's collation and ILIKE, the parser of access tokens, mail.ParseAddress, the
-- verifier of a provider's tokens, the schema directory and what a batch of SQL does; strconv.Atoi,
-- time.ParseDuration, base64 and Sscanf, Argon2id, the JSON decoder of the mail queue, OIDC and JWT
-- validation, which SMTP steps, probes and attempts fail, and whether an Ack or Nack gets through; what
-- the broker delivers again is any later delivery. A page's offset wraps as int64 does, and ORDER BY
-- leaves rows with equal times in the order in which the database meets them, a parameter.
-- Not modelled: the pings and dials of the probes and the live check, which only call their libraries.
-- Listening and Shutdown are a parameter of the start. Routing, JSON and the limit on bodies are the
-- libraries'.
pub mod Prelude
pub mod Database
pub mod Runtime
pub mod Audit
pub mod Security
pub mod Session
pub mod Signup
pub mod Login
pub mod UserTokens
pub mod Password
pub mod EmailChange
pub mod Identity
pub mod Migrations
pub mod Social
pub mod Http
pub mod Config
pub mod Connections
pub mod Mail
pub mod Queue
pub mod Invitation
pub mod Commands
pub mod Tests
