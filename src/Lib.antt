-- ===== src/Lib.antt =====
-- A verification library for the Telegram cloning runtime (telegram-runtime/). The runtime
-- watches chats with one set of accounts and sends what it sees to other chats with another.
--
-- The parts, and the flow of a message through them:
--   - an update is normalised to a source event, and the photos of an album are collected
--     (telegram-runtime/runtime/ingest: Ingest);
--   - the event is stored in an inbox that refuses duplicates
--     (telegram-runtime/runtime/storage/repos.py, EventInboxRepository: Storage/Inbox);
--   - the planner turns an event and the published rules into delivery plans, one for each route
--     (telegram-runtime/runtime/planner: Planner);
--   - the plans become delivery jobs under their idempotency keys, which an account's runner
--     claims, sends and records (telegram-runtime/runtime/storage/repos.py, DeliveryJobRepository
--     and MappingRepository: Storage/Jobs, Storage/Batches, Storage/Claiming, Storage/Closing and
--     Storage/Maps; telegram-runtime/runtime/worker/runner.py: Worker);
--   - the rules come from the platform, where an operator publishes a rule and its routes as an
--     immutable version after its accounts have entered the chats, and a worker pulls the versions in
--     force for an account (telegram-platform/backend/app/tg, publish of service/rule_service.py:
--     Platform/Rules, Platform/Chats, Platform/Publishing; pull_rules of api/v1/runtime.py:
--     Platform/Pulling), which become the planner's rules (rules_from_snapshot of
--     telegram-runtime/runtime/worker/host.py: Worker/Rules);
--   - before a side effect the policy gate is asked, and the executor makes at most one call
--     (telegram-runtime/runtime/delivery: Delivery);
--   - leases say which worker runs an account (telegram-runtime/runtime/storage/repos.py,
--     LeaseRepository: Storage/Leases), and commands drive the life of each account
--     (telegram-runtime/runtime/control: Control);
--   - a worker process hosts several accounts (telegram-runtime/runtime/worker/host.py: Host/State,
--     Host/Assigning, Host/Commands, Host/Ticking): it takes the accounts that the control plane
--     assigns under their leases, keeps each lease alive
--     (telegram-runtime/runtime/account/lease_heartbeat.py: Host/Heartbeat), tells a registry which
--     of them are live and may send (LiveRegistry of telegram-runtime/runtime/worker/live.py:
--     Host/Registry), from which the gate reads, applies the operator's commands, and lets go of what
--     is no longer assigned, halted or lost; the text of an approved candidate is checked against the
--     job's hash before it is sent (PayloadResolver.candidate_text of live.py: Host/Payload);
--   - on the platform a reviewer decides on drafted replies and an approval becomes a delivery job,
--     an operator retries or cancels jobs, and commands are issued, pulled and acknowledged
--     (telegram-platform/backend/app/tg/service, approval_service.py, delivery_service.py and
--     command_service.py: Platform/Approvals, Platform/Verdicts, Platform/Deliveries,
--     Platform/Commands, over the tables of Platform/Store).
--
-- How the code is modelled. An enumeration is a data type with the source's members and a
-- dataclass or a table row a record with its fields. A method is a function from the state to its
-- answer and the next state. Common holds the shared helpers: Python's dict as an association list
-- in insertion order (Common/Dict), the text of keys by code points (Common/Decimal), equality
-- tests (Common/Equality). A table is a dict by the columns of its unique constraint or by id; a
-- commit that breaks the constraint leaves the tables as they were, and raises where the code does
-- not catch it. The numbers of a job's attempts are such a constraint on a list. Where another
-- worker can run between a SELECT and the UPDATE that follows, the rows that were read are an
-- argument of the rest, which runs on the table of the later moment: acquire_given for leases,
-- claim_from for jobs. The jobs stand in the order of their creation. A job's status is the
-- enumeration JobStatus instead of its text, and a job's mode the enumeration CloneMode.
--
-- On the platform a request runs in a transaction: an error leaves the tables as they were before it
-- (get_db_transaction of telegram-platform/backend/database/db.py, `transaction`).
--
-- Times are microseconds, delays milliseconds and the jitter thousandths. Clock readings, new ids
-- and random draws are arguments, streams where a loop takes several. Python's hash of a text,
-- SHA-256, the Telegram transport, Telegram's answer to an account that enters chats, the
-- providers of a runner and the answers of the control plane are parameters; an exception that
-- leaves a method of the host is a Boolean beside its state. A text that the platform puts
-- together is spelled out by Common/Spelling.
--
-- Loops are structural recursion on the rows that they go through, on the rounds of a heartbeat or of
-- the host, each of which has its own clock reading and answers, and in one case on fuel: the `while`
-- of run_once (Worker/Looping) goes on until nothing is due. Each of its passes that is not throttled
-- takes one pending job away (Worker/Progress), so one more than the number of pending jobs is
-- enough (Worker/Ending); with a throttled account the source's loop need not end by itself.
--
-- Not modelled: sessions and cryptography (telegram-runtime/runtime/account but for the
-- heartbeat); the Telethon client, its updates and its probes of chats (the rest of
-- telegram-runtime/runtime/worker/live.py) and the HTTP client of the control plane, of whose
-- exceptions a poll of commands meets ControlApiError only; what the transports note in the
-- registry during a round (mark_flood_wait and mark_auth_dead are modelled, but no round calls
-- them); the editing of rules and routes, the platform's accounts, alerts and AI services and the
-- lists that its endpoints show (telegram-platform/backend/app/tg); its administration, tasks and
-- front end; and the copy of another project in telegram-runtime/telemirror. The random ids of
-- events, attempts and command results, and the creation times, are left out, since nothing that
-- is modelled reads them.
--
-- Examples applies each theorem at concrete inputs.
pub mod Common
pub mod Planner
pub mod Delivery
pub mod Ingest
pub mod Control
pub mod Storage
pub mod Host
pub mod Worker
pub mod Platform
pub mod Examples
