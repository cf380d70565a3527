-- ===== src/Lib.antt =====
-- Strato, a file-storage service: uploads in chunks, blobs stored once for each content and
-- encrypted at rest, versions, quotas, shares, and a garbage collector. This library models it
-- from the handlers down to the rows, and proves what keeps the stored data right and who gets it.
--
-- How the parts interact. A use case (internal/usecase) reaches the world through ports
-- (internal/domain): repositories on PostgreSQL (internal/repository/postgres), the object store
-- (internal/storage), a lock on Redis (internal/repository/redis) and a clock. `Complete` of an
-- upload reads the staged chunks, encrypts them with pkg/crypto into one object, and attaches a
-- version to a file in one transaction, with the count of references of the blob and the usage of
-- the quota. The collector of internal/service/gc.go takes back what nothing uses.
--
-- Which file models what:
--   Prelude, Prelude/*      numbers, lists, and tables as lists of rows
--   Crypto/Cipher           the AEAD as an interface (`Aead`); newGCM of pkg/crypto/aesgcm.go
--   Crypto/KeyWrap          pkg/crypto/keywrap.go
--   Crypto/Password, /*     pkg/crypto/password.go, and that it reads back what it writes
--   Encoding/*              what the source uses of encoding/base64, strconv, fmt and strings
--   Crypto/Stream/*         StreamWriter, StreamReader and EncryptedSize of pkg/crypto/aesgcm.go
--   Entity/*                internal/entity, with the principal of internal/domain/service.go
--   Domain/Error            internal/domain/errors.go
--   Domain/World            the tables of migrations/, the object store, the locks, the clocks
--   Domain/Action           actions on that world; WithinTx of internal/repository/postgres/db.go
--   Domain/Ends, /Keeps     rules for what holds after an action that succeeds, and after any action
--   Pagination, /*          pkg/pagination/pagination.go, and that following its cursors lists every row
--   Postgres/*              one file for each repository of internal/repository/postgres
--   Outside                 internal/storage, internal/repository/redis/lock.go and random values
--   Storage, /Distinct      internal/storage/keys.go
--   Usecase/Access, /Names  internal/usecase/access.go, mutableFile and ownFolder of file_uc.go
--   Usecase/Audit           internal/usecase/audit.go
--   Usecase/Upload/*        internal/usecase/upload_uc.go; Usecase/Upload/Readable is about what it stores
--   Usecase/File/*          internal/usecase/file_uc.go
--   Usecase/Auth/Token      pkg/crypto/random.go, and internal/auth/jwt.go
--   Usecase/Auth/Session    the sessions of internal/usecase/auth_uc.go: mintPair, Refresh and Logout
--   Usecase/Auth/Account    its accounts: Register, Login and Profile; Usecase/Auth/Login and
--                           Usecase/Auth/Admission are about them
--   Usecase/Auth/Rotation, /Replay   that a refresh spends its token, and what a replay meets
--   Usecase/Share, /*       internal/usecase/share_uc.go
--   Service/Gc              internal/service/gc.go
--   Service/Signer, /Binding     internal/service/signer.go
--   Retry, /Attempts        pkg/retry/retry.go
--   Pool, /Delivery, /Progress   pkg/workerpool/pool.go as a step relation
--   Redis/RateLimiter, /Lock     internal/repository/redis/rate_limiter.go and lock.go
--   Middleware, /Guarded    internal/middleware/interceptors.go and internal/auth/context.go
--   Middleware/Http         internal/middleware/http.go
--   Transport/Rpc, /Files, /Accounts, /Messages, /Status   internal/transport/grpc
--   Transport/Http          the handlers of internal/transport/http
--   Transport/Paging        what a client meets that follows page tokens
--   Ledger/*                the counters of the tables, as the comments of the repositories promise
--   Examples/*              concrete runs
--
-- How state and failure are modelled. An action takes a `World` and gives a result or an error, with
-- the world after it: what was done before an error stays done, but for a transaction. `faults` in
-- the world says of every later call of the database, the object store or the lock whether it fails
-- before it has an effect, so that a theorem for every world is one for every sequence of such
-- failures. An SQL statement is a function of the tables, with the UNIQUE, CHECK and foreign-key
-- constraints of migrations/ that it can meet; a wrapped sentinel error is the sentinel. Ids,
-- digests and times are numbers, texts are lists of bytes.
--
-- Outside the repository, and so parameters: AES-GCM by what crypto/cipher documents (opening
-- inverts sealing, a ciphertext is 16 bytes longer), SHA-256, uuid.New and uuid.Parse, random bytes, HMAC (`UrlSigner`), the key-encryption key and the policy of
-- `UploadConfig` (`Env`), and the signing of golang-jwt, argon2.IDKey and the lower case of texts
-- that are not ASCII (`AuthEnv`), the texts of UUIDs, of digests and of cursors in JSON (`Wire`),
-- ILIKE of PostgreSQL, and the media types of MIME. Crypto/Toy is a cipher with those laws.
--
-- Fuel. The loop of `Write` takes a byte in each round, so that the length of the input is fuel
-- enough; a writer that ran out would return the fault `stuck`, which the results exclude. Reading
-- to the end takes one round for each byte of the source and two more. Trimming a name and skipping
-- spaces take a byte a round, and the digits of a number divide it by ten in each round.
--
-- Not modelled: a call that fails after it had its effect, and the interleaving of two requests
-- (each action runs alone on the world); the routes of internal/transport/http/router.go;
-- configuration, wiring, logging and telemetry, which are I/O and glue; the in-memory repositories
-- of internal/mocks, which serve tests.
pub mod Prelude
pub mod Encoding
pub mod Crypto
pub mod Entity
pub mod Domain
pub mod Postgres
pub mod Outside
pub mod Usecase
pub mod Service
pub mod Retry
pub mod Middleware
pub mod Transport
pub mod Pagination
pub mod Storage
pub mod Pool
pub mod Redis
pub mod Ledger
mod Examples
