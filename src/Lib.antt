-- ===== src/Lib.antt =====
-- Verification of Smart Travel Aggregator, an HTTP service that searches flights and hotels at several
-- providers, ranks the offers, watches prices for its users, and keeps their accounts.
--
-- The parts and how they interact. A request passes the checks of app/api/deps.py: the rate limiter
-- (app/core/rate_limit.py) under the address that app/core/client_ip.py finds, and the bearer token
-- (app/core/security.py, app/services/token_blocklist.py). A search asks all providers
-- (app/services/aggregation.py, app/services/hotel_aggregation.py) and returns a page with a cursor
-- (app/services/pagination.py). Providers over HTTP share a client with retries, a circuit breaker and
-- a cache (app/providers/http_client.py, app/resilience). The price monitor
-- (app/services/price_monitor.py) searches for every active alert of app/repositories/price_alerts.py.
-- Around all routes are the middleware and the exception handlers that app/main.py installs; the
-- container (app/container.py) builds what they share.
--
-- The files. Prelude: dictionaries, text, sorting and decimal numbers as Python has them. Domain:
-- app/domain, with floats as a parameter (Domain.Floats). Core: app/core, one module for each file.
-- Resilience.CircuitBreaker and Resilience.Cache: app/resilience; the protocol `Cache` is a record of
-- operations and laws that Providers.HttpClient and Services.TokenBlocklist take, and that
-- Resilience.Cache.Laws fills with `InMemoryCache`. Providers.HttpClient: app/providers/http_client.py.
-- Services: app/services; Services.Merge holds what the two searches do alike. Repositories:
-- app/repositories with the rows of app/db/models.py. Api: app/api/deps.py and the routes of
-- app/api/v1 for accounts, flights, hotels, price alerts and metrics. Schemas: app/schemas/auth.py.
-- Workers: app/workers/tasks.py. Application: app/main.py, the middleware of Core.Middleware and the
-- exception handlers around the routes. Container: app/container.py. Providers also holds the weather
-- and currency providers with their routes, and the sample providers. Tests: the theorems applied to
-- concrete inputs.
--
-- How code becomes definitions. An object is a record of its fields and a method a function to the
-- record afterwards, under the method's name without its underscore. What holds a lock is one
-- function; calls that overlap are steps of a relation (Resilience.CircuitBreaker.Concurrent). An
-- exception is a value: `none`, `inl` or a constructor. Times are natural numbers of ticks or seconds
-- that a caller passes in, as are random salts and ids. Numbers that pydantic admits from 0 on are
-- natural numbers. Text is the list of its code points, and case and classes of characters are those
-- of ASCII. The answer of a provider is a function of the query, as one search asks it once.
--
-- Bounds and fuel. The retry loop recurs on the attempts that are left, so it ends. The only fuel is
-- that of a client that follows cursors; one page for each result is shown to be enough.
--
-- Parameters. Floats, httpx, json and hashlib, argon2, jwt, uuid, smtplib, ipaddress, random,
-- datetime, `str.upper` where its length matters, the headers and the CORS middleware of starlette, the
-- commands INCR and EXPIRE of Redis, and the text of a mail. The laws that theorems take of them are the records IsMonotone, IsHash, IsJwt, IsRandom,
-- those in Headers and Redis, and the hypotheses at the theorems.
--
-- The price monitor is modelled with the console notifier, the accounts with either notifier.
--
-- Not modelled: the Redis cache, which passes each call on; the routes for health,
-- the lifespan and the redirect of app/main.py, the schedule of Celery, the configuration of logging,
-- the database engine and the migrations. They are calls of libraries, or wait for a later extension.
pub mod Prelude
pub mod Domain
pub mod Core
pub mod Resilience
pub mod Providers
pub mod Services
pub mod Repositories
pub mod Api
pub mod Schemas
pub mod Application
pub mod Container
pub mod Workers
mod Tests
