-- ===== src/Lib.antt =====
-- Verification of the backend of HSgram admin (backend/internal): the parts that keep state of
-- their own and decide what users get to see.
--
-- Parts and files
--   Sql: database/sql as the stores use it. A method is a function of a `World`: the tables, the
--     list that says of each coming statement whether it fails, and what has been handed to the
--     network. A transaction is its body between two statements that may fail too; without a
--     commit the tables are those at its beginning, while what was sent stays sent. A commit that
--     fails is taken to have changed nothing.
--   AutoMessage: backend/internal/store/auto_messages.go and
--     backend/internal/automessage/service.go. Types has the structs, Tables and Queries the rows
--     and the WHERE clauses, Store, Edit and Process the methods of the store
--     (SaveAutoMessageConfig is `save_config`, ProcessDueAutoMessageConfig is `process_due_config`,
--     and so on), Validate and Service the checks and the requests of the service, Scheduler its
--     tick (ProcessDue, processOne). Invariant, Preserve and History are about the table of
--     configs, Denied about users without permission, Due and its children about what a tick sends.
--   Broadcast: backend/internal/store/broadcast.go and backend/internal/broadcast/service.go. Types
--     has the structs, Targets the recipients of a target (ResolveSelectedRecipients,
--     buildRecipientQuery), Queue the tables of broadcasts and deliveries, Service the requests,
--     Delivery the loop (processNext). Kept, Tally, Paging, Closing and Reach lead up to
--     Delivered, which is about whom a broadcast reaches; Rows, Touch and Worked to Drain, which is
--     about the queue as a whole; Identifiers and Resolve are about the identifiers of a request.
--   LoginLimiter: backend/internal/httpapi/login_limiter.go. The map from keys is a function, the
--     mutex makes every method one step, the time is an argument. Address is clientIP, Step has the
--     moves of one slot; Refine and Lockout are about the answers.
--   Apk: backend/internal/httpapi/apk_manifest.go, the reader of the binary manifest of an
--     uploaded Android package, over bytes. Bytes has slices and the error values, an index out of
--     range (`panic`) and a loop out of fuel (`stuck`) among them; Strings is decodeAXMLString,
--     Manifest the chunks. Safe, NoPanic, Pool, Attributes and Chunks are about those two values,
--     RoundTrip and Units about the two encodings of a string.
--   Releases: backend/internal/store/releases.go, backend/internal/httpapi/updates.go and
--     backend/internal/httpapi/admin_releases.go. Names has the normalisation of platform, channel,
--     architecture and update level, Types the rows, Rows and Store the methods (CreateAppRelease
--     is `create_app_release`, and so on), Manifest and Load the answer to an update request
--     (releaseManifest, loadUpdateManifest). Places, Invariant and History are about the two
--     tables, Served, Published, NoDraft and Newest about the lookups, Offered and Coherent about
--     the manifests, Words about the normalisation. Paths and Upload are prepareReleasePath and
--     handleReleaseUpload, which uses Apk, with path/filepath in FilePath; NewRow, Uploaded, Tidy,
--     Elements, FileName and Placed are about them.
--   Login: the administrators of backend/internal/store/store.go (EnsureBootstrapAdmin,
--     AuthenticateAdmin) and handleLogin of backend/internal/httpapi/handler.go, which uses
--     LoginLimiter. Sound is about what a login that succeeds proves, Bootstrap about the first
--     administrator, Steps has the two steps of a login between which others can come, Overlap a
--     server that takes them, and Guesses is about how many passwords can be tried.
--   InviteCodes: backend/internal/invitecodes/service.go. A command of the key-value store is a
--     statement in the sense of Sql. Hash, Invariant and Created are about the hash of codes.
--   Users: the users of backend/internal/store/store.go and the handlers handleBan, handleUnban and
--     handleKickSessions of backend/internal/httpapi/handler.go. Types has the rows and structs,
--     Store the methods, Sessions the helpers that call other services, each call an event that
--     they see, Moderation the handlers. Pages is about the list, Degraded, CutOff, FullyOut,
--     Restricted and Barred lead up to Banned, which is about a ban.
--   Settings: backend/internal/store/runtime_settings.go, the two settings in their table; FreshIds
--     and Live are about the ids and the users, Saved about reading the settings back.
--
-- Conventions
--   Identifiers, counts and times are natural numbers: where the code tests a signed number it
--   tests for `<= 0` or `== 0`, and 0 stands for all of these. The times of the configs are
--   seconds, those of the limiter nanoseconds, and 0 is the zero time. A run of a broadcast reads
--   the clock once. A text is the list of its code points, in Apk of its bytes. Loops over rows and
--   items are recursion on the list. The loop over the pages of recipients runs on fuel, one for
--   each page: every page but the last has a recipient, so fuel for more pages than there are
--   recipients is enough. The loop over the chunks of a manifest has fuel for each byte, and a
--   chunk takes eight bytes at least.
--   Each transaction is one step: other transactions run before or behind it, as the row locks
--   that the code takes (SELECT ... FOR UPDATE) have it for the rows of one group.
--
-- Parameters, for what is not in the repository: the constants of the chat protocol, letter case,
--   the gRPC client that sends a message, the answer of the lock in the key-value store, the SHA-1
--   sum, url.Parse, the manifest files on disk, what writing and removing a file come to, JSON, the
--   collation of text columns, whether the driver counts found or changed rows, LIKE, the services
--   that end sessions, bcrypt, and the signing of tokens.
--
-- Not modelled: the CREATE TABLE and ALTER TABLE statements, created_at and updated_at of the auto
--   messages, the JSON layer and the other HTTP handlers, the loops that call the tick, the release
--   of the lock, and the components without logic of their own (configuration, gRPC clients, web
--   pages).

pub mod Prelude
pub mod Sql
pub mod Apk
pub mod AutoMessage
pub mod Broadcast
pub mod InviteCodes
pub mod Login
pub mod LoginLimiter
pub mod Releases
pub mod Settings
pub mod Users
