-- ===== src/Lib.antt =====
-- The broker of SmartClassroom (broker/app): students reserve lab PCs, connect to them with
-- one-time tokens, and the broker watches the hosts, where an agent (agent/smartclassroom_agent)
-- reports to it. This library models the broker's services and endpoints and the agent's loop,
-- collectors and service registration, and proves what makes them correct.
--
-- Parts, and the code that each is about:
--   Prelude      Boolean tests on native numbers, the queries that SQL makes of a table of rows
--                (select_where, select_one, update_where, count_where, exists_where), and Python's
--                texts as lists of code points (Texts).
--   Domain       Time (Python's datetime in microseconds), Range (tstzrange), Settings
--                (broker/app/core/config.py), Rows and Audit (broker/app/domain), Db: the database as
--                one record, and the monad of a service, which returns a value and a new database or
--                fails with one of the errors of broker/app/core/errors.py.
--   Reservation  broker/app/services/reservation.py: Window, Quota, Booking, Access, Available; the
--                proofs are in Booked, Placed, Policy, Overlap, Limits, Instant, InstantBooking,
--                Availability, Cancel and Listing. Calendar is build_calendar_matrix, with its proofs below
--                it. The EXCLUDE constraint of broker/alembic/versions/0001_initial.py is `clashes`,
--                tested by `insert_reservation`.
--   Tokens       broker/app/services/token_service.py (Connect), agent_token_service.py (Agent) and
--                broker/app/core/auth_session.py (Session) over one table (Store); the proofs are in
--                Issuing, Unique, Exclusive, Replay, Consuming, Rotation and Logout.
--   Hosts        broker/app/services/host_events.py (Events), host_status.py (Status) and
--                host_status_monitor.py (Monitor), broker/app/core/metrics.py (Metrics), and the
--                stream of broker/app/api/v1/host_events.py (Stream); the proofs are in Queues,
--                Evaluation, Ticks, Stream.Unread and Stream.Order, where the streams and the publishers take turns.
--   Pairing      push_pin of broker/app/services/pairing_service.py: Push is its outcome, with the
--                proof in Attempts; Relay adds the requests, log lines, sleeps and the life of the
--                client, with the proofs below it.
--   Api          the endpoints of broker/app/api/v1 and broker/app/api/deps.py, the boot guards of
--                broker/app/main.py, and broker/app/services/user_upsert.py (Login); Single and
--                Accounts have the proofs. Mock is broker/app/providers, SignIn the mock callback
--                and the session middleware (broker/app/core/middleware.py, auth_responses.py),
--                Middleware the wrappers of broker/app/core/middleware.py and the stack that create_app
--                builds of them, Errors the handlers and bodies of broker/app/core/errors.py,
--                Pages the answers of broker/app/api/v1/auth.py, Requests the bodies of
--                broker/app/api/schemas/reservation.py, Schemas those of the other schemas there, and
--                Queries the endpoints that read.
--   Agent        agent/smartclassroom_agent: Session, Gpu and System (collectors/), Logging (logging.py),
--                Config (config.py), Client (client.py), Heartbeat (heartbeat.py), Cli (cli.py, with
--                load_config) and Service (service/), with their proofs below them.
--   Boot         the process: Engine is broker/app/infra/db.py, Lifespan the start and the end in
--                broker/app/main.py, Health broker/app/api/v1/health.py, and Schema the migrations of
--                broker/alembic/versions, as statements on a record of tables, indexes and extensions.
--   System       all of it together: Invariant has the invariant and one rule for each way to build
--                a service, Services, Growing and Endpoints show that each keeps it, Reach is the
--                step relation of requests, heartbeats and monitor ticks, Storing is about commits,
--                Running what follows for a host, Keys what follows for raw tokens, Answers and
--                InstantUse are about what the endpoints of connect tokens and of instant use answer,
--                Delivery is a heartbeat from the agent's collectors to the broker's table, and
--                Monitoring the monitor's loop.
--   Samples      a small classroom for the examples, which are in the modules named Examples, in
--                Api.ClientExamples and in Api.StackExamples.
--
-- How state corresponds: a table is a list of rows, newest first, with its sequence as a counter;
-- `db.get` is a query by id; an UPDATE or a flush is `update_where`; a commit is the end of a
-- successful run, and a rollback is a failure, which has no new database. Each reading of the clock
-- is an argument of its own; a theorem that needs one reading to come before another says so. The id of
-- a request, which write_audit puts into the row, is a field of the database record. `committed` runs
-- an endpoint and then its commit, which refuses a row of the audit log that its columns do not take;
-- where a theorem speaks of an endpoint without it, it speaks of the endpoint up to its commit.
--
-- A middleware is a function of the application inside it, which may answer or raise; the contextvars
-- and the access log are the state that it threads. What a DDL statement does, and when the database
-- refuses it, is as PostgreSQL documents it.
--
-- Parameters and arguments for what is outside the repository: `digest` for hashlib.sha256, raw tokens
-- for secrets.token_urlsafe, `replies` for what Sunshine answers to each attempt, and for the agent
-- what psutil, the YAML reader and HTTP requests give it, what pydantic makes of a URL and which
-- values it takes for the type of a field, the levels of the module logging, and Python's floating-
-- point numbers; the CORS middleware and the routes under the stack; and what `str` and json.dumps
-- make of a value. Nothing is assumed of them but what a theorem names.
--
-- Bounds: the loops of the heartbeat and of the monitor take fuel, and theorems say how much is
-- enough; what happens around a round is given by functions of its number. The cursors of the
-- calendar run on the length of the window as fuel, and a theorem says that they reach its end.
-- Every other loop is structural; the retry loop of push_pin counts down the attempts that the
-- settings allow, at least one. Queues hold a hundred events.
--
-- Not modelled: requests that run at the same time. A step of System.Reach is a whole request in one
-- transaction, and two transactions never interleave; under READ COMMITTED two concurrent requests can
-- each issue a token for one reservation or host, so the theorems of System.Keys are about requests that
-- run one after another. Also not modelled: the counters of Prometheus and the format of log lines, the
-- wire format of the stream, the routers, the version route and the documentation pages, the schemas of
-- most answers, alembic/env.py and the table of sessions, which no service uses: they are declarations
-- and calls of the frameworks. The front end and the patches of Sunshine and Moonlight are other
-- programs.
-- Percentages are numbers in a fixed small step, since they are only compared.
pub mod Prelude
pub mod Samples
pub mod Domain
pub mod Reservation
pub mod Tokens
pub mod Hosts
pub mod Pairing
pub mod Api
pub mod Boot
pub mod System
pub mod Agent
