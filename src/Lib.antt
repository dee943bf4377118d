-- ===== src/Lib.antt =====
-- Lantern Task Manager: a Teams bot that keeps tasks from their drafting to their verification.
--
-- The program. A user's draft waits in the draft store (src/ltm/bot/drafts.py) until it is confirmed;
-- the use cases (src/ltm/application) check the assignment policy (src/ltm/policy), turn the draft
-- into a task through the repository (src/ltm/storage/repository.py), and tell the people concerned
-- through the notification service (src/ltm/notifications). A message to the bot begins an event in
-- the interaction store, its mentions are resolved to users, and the language model answers it behind
-- a circuit breaker and rate limits (src/ltm/ai). Acknowledging, closing, verifying and
-- reopening a task are further use cases over the same repository, each in a database session of its
-- own that commits before anybody is notified. Scheduled jobs set overdue flags, send summaries and
-- retry failed deliveries.
--
-- The files.
--   Base           lists, texts, tables and sorting as Python and the database have them. Base/Sessions
--                  is code over a session: it returns or raises and leaves a state, and
--                  `session_scope` (src/ltm/storage/db.py) commits or rolls back.
--   Domain         src/ltm/domain: enumerations, models, `can_transition`.
--   Storage        src/ltm/storage: the tables (Orm) and `TaskRepository`, with Row for single rows,
--                  Lifecycle for the status changes, Create and PublicId for new tasks, Query for the
--                  listings, Sweep for the overdue flags.
--   Policy         src/ltm/policy/profiles.py and assignment.py.
--   Config, Access, Auth
--                  the settings, src/ltm/policy/access.py with src/ltm/notifications/recipients.py,
--                  and the mode selection of src/ltm/auth/tokens.py.
--   Notifications  src/ltm/notifications: Channels (activity feed, bot messages, conversation
--                  bindings), Service (one delivery), Service/Messages (the notifications), Retry,
--                  Jobs (scheduled_jobs.py).
--   Bot            src/ltm/bot: Drafts (drafts.py), Mentions (mentions.py) with Scoring
--                  (mention_scoring.py) and Resolve, CardActions (card_actions.py), Commands
--                  (commands.py), Tools (tools.py) with Create and Lists.
--   Interaction    src/ltm/interaction: the receipts of card actions (coordinator.py), and Store, the
--                  pending interactions with their revisions (store.py), and Normalization
--                  (normalization.py).
--   Llm            src/ltm/ai: Breaker (circuit_breaker.py), Governor (governor.py), Usage
--                  (src/ltm/storage/llm_usage.py), Metrics, Failures, Gateway (gateway.py), Memory
--                  (memory_trim.py).
--   Application    src/ltm/application: Results, Tasks, Drafts.
--   Tests          concrete inputs.
--
-- The correspondence. A function of the model has the name of the source's function, without a leading
-- underscore. A database is a record of tables, a table the list of its rows in the order of insertion.
-- Dates and instants are numbers on one clock, which stands still while one operation runs. The
-- enumerations stand for their texts. Loops are recursion on the list that the source iterates over, so
-- no fuel is needed but in the decimal text of a number, where one more than the number is given, and
-- in the governor's wait, which has one more turn than the longest wait has milliseconds.
--
-- Parameters. The record `World` of Config holds what lies outside the repository: the settings, the
-- JSON files of src/config, which are there and hold JSON, and the answers of Microsoft Graph, of the
-- activity feed and of the Bot Connector. The
-- ILIKE of the database, the escalation threshold and the text of a task list are arguments. The record
-- `Outside` of Llm/Gateway holds the model services, the retry library and the sleep; `Patterns` of
-- Bot/Mentions and `TextTools` of Interaction/Normalization hold what regular expressions and date
-- parsers find and, for mentions, how Python changes the case of Unicode letters. Elsewhere `lower` and
-- `upper` change ASCII letters. The breaker, the interaction store and the model's state are states of their own, and
-- each has a clock or a time as argument, in milliseconds for the model's usage and limits.
--
-- Sessions. `session_scope_with` is the scope of the source, whose commit may raise, as may the push to
-- a replica after it. The use cases run in `session_scope`, where both succeed: what is stated of a use
-- case is stated of a database that commits.
--
-- Not modelled: Adaptive Cards, HTTP routes, the Teams SDK, the calls of model services, Dynamics 365,
-- migrations and connection set-up, which are I/O and layout; the choices that wait for an answer and the
-- payload of a turn.
pub mod Base
pub mod Domain
pub mod Storage
pub mod Policy
pub mod Config
pub mod Access
pub mod Auth
pub mod Notifications
pub mod Bot
pub mod Interaction
pub mod Llm
pub mod Application
mod Tests
