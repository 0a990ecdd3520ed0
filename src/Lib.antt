-- ===== src/Lib.antt =====
-- Sakura EmbyBoss, version 2 (legacy/v2, Python): its services over the bot's database.
--
-- The bot, the web API and the schedulers change users, balances, codes, partitions and tasks
-- through services of legacy/v2/bot/application. A call of a service is one unit of work
-- (repositories/unit_of_work.py): it locks the rows that it changes, writes beside them to a common
-- log (repositories/operations.py), and commits, or rolls all of it back when it raises. The
-- registration queue (func_helper/register_queue.py), with its worker coroutines, and the red
-- envelopes (modules/extra/red_envelope.py) keep their state in memory.
--
-- What stands where (the source paths are below legacy/v2/bot):
--   Exec.antt: a method as a function from the database to a result or an exception, and the
--   database after it; `transaction` is the unit of work with its rollback.
--   Database.antt, Database/Rows.antt: sql_helper/sql_emby.py, sql_accounts.py, sql_application.py,
--   sql_code.py, sql_partition.py, sql_commerce.py and sql_community.py, the rows, newest first, and
--   the session on them, application/results.py and domain/actor.py.
--   Operations.antt, Operations/Booking.antt: repositories/operations.py, the idempotency records,
--   audit rows, events, point transactions, wallets and ledger.
--   Points.antt and its folder: application/point_service.py (adjust, check_in, purchase_level).
--   TaskTypes.antt, TaskRow.antt, Tasks.antt, TaskClaim.antt and the folder of Tasks:
--   application/task_service.py (enqueue,
--   get, cancel, retry, claim, heartbeat, complete, fail, record_job_run) and the task queries.
--   Codes.antt and its folder: application/code_service.py (generate, revoke, the redemptions,
--   purchase_registration_codes) and repositories/codes.py.
--   Partitions.antt, its folder and PartitionGrants.antt: application/partition_service.py and
--   repositories/partitions.py (reserve_code, complete_redemption, release_reservation).
--   Users.antt and its folder: application/user_service.py (ensure_user, update_user,
--   complete_registration) and repositories/users.py.
--   RegisterQueue.antt and its folder: func_helper/register_queue.py, a step relation.
--   Notifications.antt and its folder: add_notification of application/community_service.py.
--   RedEnvelope.antt and its folder: modules/extra/red_envelope.py (create_reds, send_red_envelope,
--   verify_red_envelope_sender, grab_red_envelope, s_rank), with sql_get_emby and sql_update_emby of
--   sql_helper/sql_emby.py.
--   Products.antt, Orders.antt and its folder: CommerceService of application/commerce_service.py
--   (products, create_order, decide_order, cancel_order, refund_order, reconciliation_summary) and
--   repositories/commerce.py.
--   Tickets.antt, Requests.antt and their folders: TicketService and MediaRequestService of
--   application/commerce_service.py.
--   Books.antt and its folder: what the services of points, codes, users and orders together leave
--   of balances, transactions and wallets.
--   Prelude.antt and its folder: names of the libraries passed on, integers, tables and texts.
--
-- How the code is read. A locked row is not changed by another call, so a unit of work is one step;
-- a plain SELECT may read an older snapshot, which is a function of the table (`view`) in the calls
-- where it matters. Integers of Python are unbounded and so are ours; the limits that the code
-- tests are in its guards. A date is a number of microseconds, and `timedelta` past the calendar
-- raises. A clock reading, the text that strftime makes of it, a fresh identifier and a random
-- text are arguments of the call that makes them. JSON columns hold the value itself.
-- No loop needs fuel: the loops run over lists. The digits of a number are printed in as many rounds
-- as the number, which is enough. A handler that runs without a lock is split at its awaits.
--
-- Parameters: how the database compares a text with a number, random.uniform within its documented
-- range, uuid5, secrets, and the SHA-256 fingerprint of a code, of which nothing is assumed,
-- and the answers of the Emby server to the registration queue.
--
-- Not modelled: the widths of text columns, the time stamps that the database sets, messages to
-- users, other Telegram handlers, HTTP, listings, most of the older functions of sql_helper, the
-- services of login, governance and platform, the schedulers, the front end and version 3.
pub mod Prelude
pub mod Exec
pub mod Database
pub mod Operations
pub mod Points
pub mod RedEnvelope
pub mod TaskTypes
pub mod TaskRow
pub mod Tasks
pub mod TaskClaim
pub mod Codes
pub mod Partitions
pub mod PartitionGrants
pub mod Users
pub mod RegisterQueue
pub mod Notifications
pub mod Products
pub mod Orders
pub mod Tickets
pub mod Requests
pub mod Books
