-- ===== src/Lib.antt =====
-- The verification library of LuoluoAuth, an authentication library for NestJS.
--
-- The program. `AuthService` (src/auth/auth.service.ts) logs users in and out. It keeps its sessions
-- in a session store, makes and reads tokens by a token strategy, and may ask a rate limiter and a
-- distributed lock before a login. `AuthGuard` (src/auth/auth.guard.ts) stands before the handlers of
-- an application: it finds the token of a request, has the service validate it, asks the blacklist,
-- renews cookie and session, and checks roles, permissions and the second authentication by the
-- permission engine; the guards for microservices and for sockets do the same over their transports.
-- `SignatureGuard` checks signed requests, with a store of the nonces that it has seen. The OAuth2
-- server (src/extras/oauth2) keeps clients, codes and tokens in a client store of its own, logs users in
-- by `AuthService`, and signs ID tokens; `SsoService` answers the callback of a single sign-on.
-- `AdminController` lets an administrator list, remove and ban users, and manage clients and tokens.
--
-- Which file models what (paths from the root of the repository):
--   Common           lists, optional values and texts; Common/JsMap is JavaScript's `Map`, in its order
--   Timers           `scheduleExpiry` of src/auth/stores/memory-store.ts, and Node's timers
--   MemoryStore      src/auth/stores/memory-store.ts: `set`, `get`, `delete`, `deleteByUserId`, `renew`,
--                    the lists, the blacklist, and `fire`, which is a timer that runs
--   RedisStore       src/auth/stores/redis-store.ts; Commands states what it relies on of redis
--   RateLimit        src/auth/rate-limit/memory-rate-limiter.ts
--   NonceStore       src/auth/signature/nonce-store.ts, the store in memory
--   Permission       src/auth/permission/permission.engine.ts
--   Signature        src/auth/signature/signature.util.ts, and in Signature/Guard signature.guard.ts
--   OAuth2           src/extras/oauth2: ClientStore is client-store.ts, the store in memory,
--                    RedisClientStore is redis-client-store.ts, Pkce is pkce.util.ts,
--                    Oidc oidc.service.ts, and Controller oauth2.controller.ts, in the
--                    parts Authorize (with userinfo), Token, Grants and Device
--   Auth/Errors      src/auth/errors, and the state monad in which the service is written
--   Auth/Interfaces  src/auth/interfaces and the interfaces of limiter, lock, audit and configuration
--   Auth/Strategies  src/auth/strategies, and the in-memory store as a store of the service
--   Auth/Lock        src/auth/distributed-lock/memory-distributed-lock.ts
--   Auth/Service     src/auth/auth.service.ts: Login, Tokens (what starts from a token) and Sessions
--   Auth/Guard       src/auth/auth.guard.ts: for HTTP, in Auth/Guard/Rpc for microservices; and
--                    src/auth/utils/token.util.ts
--   Auth/Socket      src/auth/ws/ws-auth.guard.ts
--   Sso              src/extras/sso/sso.service.ts
--   Admin            src/extras/admin/admin.controller.ts, over the service and the client store in memory
--   Tests            the models on concrete inputs
--
-- How the code is read. A method takes the state it works on and answers with the new one; a
-- `Date.now()` is the argument `now`, in milliseconds, and calls of one method see one time. A promise
-- is its value: the methods of the in-memory parts do not wait, and those over redis are taken as one
-- step, whose commands no other call interrupts. Where the service does wait, between two attempts at
-- the lock, `meanwhile` of `Deps` is what other requests do. A thrown AuthException is an outcome, and
-- what was changed before the throw stays changed. A random value is drawn from `random` of `Deps`, by
-- the number of the draw, or is an argument. A number of the code is a natural number; a subtraction
-- that could be negative is written as an addition on the other side. A value that may be `undefined`
-- is an `Option`, and the empty text and 0 are falsy where the code tests them so. A `Map` that is
-- changed while it is iterated loses only the entry at hand, so that the loop runs over the entries at
-- its start. The service is written over any store, strategy, limiter, lock and redis client: records
-- of operations that the in-memory parts fill. The endpoints of OAuth2 are written over the in-memory
-- client store, which is their default; their refusals carry the message of the HTTP exception, and
-- its status is 400, 401 or 404, or that of the exception of the service. A redirect is the URL it
-- starts from and the parameters that are set in its query. A text is its list of Unicode characters;
-- upper and lower case are those of ASCII, and a number that is read from a text has all its digits,
-- where JavaScript rounds above 2^53.
--
-- Bounds. The loops run over lists, texts, or a number of rounds that is left. The only fuel is that of
-- the decimal digits of a number, where the number and one more is enough, since each round divides by
-- ten.
--
-- Parameters, because their code is not in the repository: jsonwebtoken (sign, verify, decode), redis
-- (three commands of the service, eight of the session and client stores), JSON, node:crypto (random
-- values, HMAC and SHA-256 with their base64 texts), `URLSearchParams` and `decodeURIComponent` of the
-- platform, the validator of user names and the code exchange handler of the application, and what
-- NestJS hands to the guards (request, metadata, response).
--
-- Not modelled: the limiter, nonce store and lock in redis, a redis command that fails, the
-- microservice interceptor, third-party sign-in, SAML, passport, audit output, cookie options,
-- persistence adapters, translations, the configuration and the wiring of the modules; a text that
-- `URL` or `decodeURIComponent` refuses, and a client secret that is missing from the body, for which
-- the code throws a TypeError or a URIError.
pub mod Admin
pub mod Auth
pub mod Common
pub mod MemoryStore
pub mod NonceStore
pub mod OAuth2
pub mod Permission
pub mod RateLimit
pub mod RedisStore
pub mod Signature
pub mod Sso
pub mod Tests
pub mod Timers
