-- ===== src/Lib.antt =====
-- FridgeFriend's backend (backend/app): a library over its own logic, with the theorems that
-- make it correct.
--
-- A client calls a router, which finds the user's household and calls a service; a service reads
-- and writes tables by a repository, and the inventory service logs each change and publishes it
-- to the household. The services and repositories are modelled as functions on a state, the
-- tables, that return a result or the exception raised, and the new state.
--
-- Text has `strip()` and `lower()` on texts. `lower` maps the letters A to Z.
-- Scalar has floats. The type of floats is a parameter with the operations that the code uses,
-- and the laws of IEEE 754 that a theorem needs are a record of hypotheses; a fixed-point
-- instance meets them.
-- Units is core/units.py, its two tables and four functions.
-- Expiry is modules/expiry: Rules is rules.py, Service is service.py, Urgency is urgency.py. A
-- date is its ordinal. The rows that the query of `load_db_shelf_life_rules` returns are an
-- argument.
-- In Household, Model is models/household.py, Repository is modules/households/repository.py,
-- Service is modules/households/service.py, one definition per method. Invariant and its
-- submodules carry the invariant through each method, Reach through any sequence of calls, and
-- Behaviour has who may do what, what an error leaves, and the choice of the active household.
-- In Inventory, Model is models/inventory_item.py, models/events.py and the payloads of
-- modules/inventory/schemas.py; Repository, Events and Service are repository.py,
-- event_service.py and service.py of modules/inventory. Undo and Restore are the theorems on
-- `undo_last`; Effects lists what a call may do to the tables, Refinement has that each call
-- does one of these things, and Soundness what that keeps.
-- In Planning, Scoring and Planner are planner.py, Reservation is reservation.py and Shopping is
-- shopping_list.py of modules/planning. A dict with text keys is a list of pairs in insertion
-- order. Recipes is `_normalize_recipes` of planner.py; Keys, Tables, Service and
-- ShoppingService are service.py of modules/planning with the tables that it uses, and
-- Stored is the theorem on plans and Transactions those on manual items. The text of an index
-- has as much fuel as the index, which is more than its digits. Choice, Constraints and Best have
-- the days and recipes of a plan, Stock what a recipe takes, Allocation and Refusal what a
-- reservation takes.
-- EventBus is the in-memory bus of modules/households/event_bus.py with its consumer, sse.py;
-- its child Redis is the bus on Redis and the lazy bus over both: the commands of Redis and the
-- json module are parameters, the pipeline that publishes is not.
-- Idempotency is core/idempotency.py, where the Redis client is a parameter; its Backend is the
-- interface that the endpoints use.
-- Http is what the endpoints of the routers share, Inventory.Router and Household.Router are
-- modules/inventory/router.py and modules/households/router.py: a request names the stored
-- response, an endpoint looks it up, calls the service and stores the answer. Retry has requests
-- that are sent again, Failure and Failures those that fail.
-- Recommendations is modules/recommendations: Model has its schemas and substitutions, Scorer is
-- scorer.py and Service is service.py; Bounds, Ranking and Top are the theorems on scores,
-- missing items and what is shown. A recipe source is a function whose `none` is an exception.
-- Notifications has the quiet hours and the due items of modules/notifications/tasks.py; Tasks
-- has its loop, Service is repository.py and service.py, and Tokens a theorem on device tokens.
-- Catalog is modules/catalog: Names is normalizer.py, the rest service.py.
-- Planning.Router and Notifications.Router are the routers of these modules.
--
-- Identifiers are numbers. Those that `uuid4` draws are arguments, and a theorem that needs a
-- fresh one says so. The tables of households are in the order of `created_at`, the tables of
-- items and of events have the newest row first. A membership is named by its household and
-- user. Every call runs to its end before the next one starts, and each commits what it writes.
-- The invite codes that `secrets` draws are a list, and the loop over it ends with the list; the
-- code draws for ever. A snapshot of an item is a record of its fields in place of a dict of
-- texts. A null that an update puts in a column that may not be null is refused by the database.
-- Whether pydantic's `model_dump` lists a key that the model does not declare (`confidence`, in
-- an update) is a parameter. The catalogue that finds a canonical ingredient is a parameter of
-- the inventory. The rows of other tables that refer to a household are no part of the state in
-- which it is deleted. Of the reserved ingredients of plans the inventory has the identifiers of
-- the items, which the database refuses to delete.
--
-- Not modelled: the subscription of the Redis bus and the expiry of what Redis stores; barcode
-- and photo interfaces of modules/catalog; modules/analytics; the other routers and
-- authentication; the stream of events that a household's router opens; the SQL and the session
-- of SQLAlchemy. Storage, recipe search, barcode and photo recognition, push messages, metrics
-- and telemetry are calls of outside services. The dashboard, the mobile apps and the
-- infrastructure are other programs.
pub mod Prelude
pub mod Text
pub mod Scalar
pub mod Units
pub mod Expiry
pub mod Household
pub mod Inventory
pub mod Planning
pub mod EventBus
pub mod Idempotency
pub mod Notifications
pub mod Http
pub mod Recommendations
pub mod Catalog
