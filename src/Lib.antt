-- ===== src/Lib.antt =====
-- shadraw is a server that generates images: users register and log in (internal/auth,
-- internal/user), their requests are rows of a table that is a work queue (internal/record), a pool
-- of workers takes waiting rows, calls the API of an image model (internal/upstream,
-- internal/imagegen), stores the image and settles the row (internal/worker); administrators keep
-- the credentials of the API, encrypted, and the number of workers (internal/admin,
-- internal/crypto); internal/httpx limits the rate of requests.
--
-- Base holds the shared helpers: tests on native numbers, lists, results, and `Action`, a call that
-- may write the database and fail. Table is the interface to the database: a record of the
-- statements that the repositories run on one table, with the documented behaviour of Postgres and
-- gorm as laws; every repository takes its tables as parameters, so its theorems hold for any
-- database that meets the laws. Table/Memory is a table that meets them; the Tests modules run on
-- it. A failing statement may happen anywhere and changes nothing.
--
-- Record is internal/record/models.go with the conditions and assignments of repo.go; Record/Repo has
-- a function for each method of `Repository` (`ClaimWaiting` is `claim_waiting`). Record/Consistent
-- says when a row is consistent, Record/Lifecycle that each statement keeps it, Record/Claim what a
-- claim does, Record/Access who reads and changes which rows, Record/Favorites what a favorite
-- changes, Record/Listing the lists, page by page, and
-- Record/Gallery the flags of the gallery. Record/Handler has the handlers of internal/record/handler.go,
-- from the subject of the token, the parameters and the body to the reply, and Record/Dto what a reply
-- shows; Httpx/Reply is the envelope. Record/Queue is the abstract queue: the statements of users,
-- workers and the boot as
-- steps, in any order; Record/Queue/Sound has its invariant.
-- Worker is `tickOnce` of internal/worker/pool.go, and Worker/Protocol shows that it is a run of the
-- queue; Worker/Outcomes says how a round ends. Worker/Pool is the number of workers, with the reading
-- of the count and the leaving as two steps.
-- User and Auth are the two repositories, and Auth/Service the methods of `Service`: Rotation has the
-- exchange of refresh tokens, Login registration and login, Passwords the changes of a password and
-- logging out. Auth/Handler has the handlers of the sessions and
-- Admin/Handler those of the administrators. Auth/Service/Races has two exchanges
-- that overlap. Auth/Guard is the two middlewares that let requests through. Project is
-- internal/record/project_repo.go and the handlers of the projects.
-- Imagegen is internal/imagegen/params.go. Upstream is `Generate` of internal/upstream/openai.go, the
-- kinds of its errors and its file extensions; Upstream/Requests has the fields of the requests,
-- Upstream/Calls the calls and the reading of their replies, Upstream/Stream the loop over the stream
-- of events and Upstream/Json the search of an event for an image. Httpx/RateLimit is the limiter of
-- internal/httpx/ratelimit.go, Crypto is internal/crypto/aesgcm.go, Admin is the `Store` of
-- internal/admin/store.go, Admin/Reach its updates in any order, each with the halves
-- that other requests may come between, Admin/Races two updates that overlap, and Admin/Views what it
-- shows.
-- Migrate is cmd/migrate-blobs/main.go, the copy of the images of a directory into the object store;
-- Migrate/Dotenv is its reading of variables. Blob is internal/blob/blob.go, with the errors of s3.go.
-- Config is internal/config/config.go, Config/Accepted has its checks, and Config/Loaded says which
-- environments it takes and what it has from them.
--
-- Times are natural numbers that the caller gives where the code reads a clock. Ids are natural
-- numbers. Random values, bcrypt, the JWT library, sha256, base64, AES-GCM, the network,
-- JSON and, where it is used, the store of blobs are parameters. No definition needs fuel: loops are
-- over lists.
--
-- Not modelled: gin itself, the middlewares for CORS and request ids, the statistics, the list of
-- users for administrators, the S3 client and
-- the start of the server; columns that a trigger writes; Go's fixed width of integers, since
-- no computation here leaves it.
pub mod Base
pub mod Table
pub mod Imagegen
pub mod Record
pub mod User
pub mod Auth
pub mod Httpx
pub mod Upstream
pub mod Worker
pub mod Crypto
pub mod Admin
pub mod Project
pub mod Migrate
pub mod Blob
pub mod Config
