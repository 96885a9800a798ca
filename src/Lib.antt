-- ===== src/Lib.antt =====
-- The merch store: three processes that let users sign in, send each other coins and buy goods.
--
-- The gateway (internal/gateway) is the HTTP server. It checks the Authorization header, and
-- calls the two others over gRPC with the user's token in the metadata. The auth service
-- (internal/auth) registers users, checks passwords and issues tokens. The store service
-- (internal/store) keeps balances, transfers and purchases in PostgreSQL; it accepts the auth
-- service's tokens and asks it for the ids and names of users. internal/pkg holds what they
-- share.
--
-- Base: tests on numbers, results, integers (Int), Go's conversions (Words), maps as association
--   lists. Errors: Go's error values, errors.Is and the statuses of gRPC. Api: gen/merch/v1.
-- Database: internal/pkg/database. Sessions is a session of a client with the server: the
--   committed tables, the working copy of the open transaction, and for each statement to come
--   what befalls it (done, refused, or run with its answer lost). Transaction is
--   WithinTransaction; Rules and Atomicity are the lemmas on it; Settings is PostgresSettings.
-- Jwt: internal/pkg/jwt, IssueToken and ParseToken; Jwt.Tokens has the laws of golang-jwt.
-- Store: internal/store. Domain (domain), Tables (migrations/store and the SQL text),
--   Repositories (infrastructure/postgres), Cases and UserInfo (application), Interceptors,
--   Service and AuthAdapter (grpc). A function has the name of the Go method: send_coins is
--   SendCoinsCase.SendCoins. Spec is the contract of the writes; Updates, Effects, Opening,
--   Transfers and Buying carry it through the code; Success, Sending and Purchasing are about
--   calls that succeed, Refusals and RefusedPurchases about those that are refused; Ledger adds
--   up the records; Reading, Answers, Answering and Inventory are about GetUserInfo; Admission
--   is about the interceptors. Concurrent is SendCoins and BuyItem of many requests at once:
--   Move is one statement of one request, Invariant is about all reachable states, Alone says
--   that one request's steps are the code's transaction, Deadlock is about two that wait for
--   each other, Ordered about when some request always goes on. Migrations is the tables as
--   migrations/store leave them; Fresh starts from these.
-- Auth: internal/auth. Domain, Users (migrations/auth and infrastructure/postgres),
--   Authenticator (application), Service (grpc); Accounts, Registry and Return are the proofs.
-- Gateway: internal/gateway. Domain, Adapters (grpc), Handlers and Middleware
--   (infrastructure/http), Routes (bootstrap); Bearer and Views are the proofs.
-- Apps: the mains of cmd and the wiring of internal/*/bootstrap; Admitted follows one user
--   through the three processes, Names the store's calls of the auth service; Shop is the
--   gateway in front of the store, with requests over HTTP that are made (Made) and refused
--   (Refused), Login the gateway in front of the auth service, Users a user's way through all
--   three; Life is Run, Shutdown and the goroutines of main as steps of a process, with Kept
--   (the database), Closed (the connections), Exit, Stops and Bounded (its end) and Draining
--   (the requests in progress). Tests: the theorems at concrete inputs.
--
-- A SQL statement is a function from tables to tables and an answer, or an error, with the
-- constraints of the schema written out: INTEGER columns, CHECK, UNIQUE and REFERENCES. Rows
-- keep the order of insertion. Serial columns that nothing reads are left out, and so are the
-- gaps that failed inserts leave in the sequence of user ids. Handlers are functions of one
-- request; the writes of many requests at once are steps of a relation (Store.Concurrent) in
-- which a row that is locked or updated stays locked until the end of the transaction, and a
-- commit puts the new versions of the rows in place. The goroutines of GetUserInfo only read;
-- their order is an argument. Go ranges over a map in no fixed order; here the order is that of
-- insertion. A number of type uint32 is a natural number, and conversions to uint32 and int32
-- wrap around. The metadata of gRPC is an association list of keys and values. PostgreSQL cuts
-- off trailing spaces that a VARCHAR(50) has no room for; here such a username is too long.
-- Printing an integer runs on as much fuel as the number, which has fewer digits.
--
-- Parameters: golang-jwt (Jwt.Library, with the laws IsLibrary), argon2id (Auth.Domain.Argon2id;
-- that a password fits its hash is a hypothesis where it is used), the generated gRPC clients,
-- gin's JSON decoder and status.FromError. Logs, time limits (a call that takes too long fails)
-- and what goes over the sockets are left out; a process takes any step that its goroutines
-- allow.
pub mod Base
pub mod Errors
pub mod Api
pub mod Database
pub mod Jwt
pub mod Store
pub mod Auth
pub mod Gateway
pub mod Apps
pub mod Tests
