-- ===== src/Lib.antt =====
-- The backend of a marketplace for students: a NestJS application over a PostgreSQL database that
-- it reaches through the Prisma client. The development models its services, as functions of the
-- tables of prisma/schema.prisma, in a monad of state and exceptions.
--
--     Prelude: shared names, Boolean tests, lists.
--     Prisma: the queries of the Prisma client as an interface with laws; Prisma.Memory meets
--     them in memory, Prisma.Laws draws consequences.
--     Schema: prisma/schema.prisma, the enumerations and the rows.
--     World: the state that all services share, the exceptions and the monad.
--     World.Rules: rules for invariants of the tables along a method's statements.
--     Text: the string functions of JavaScript that the services use; Json is JSON.stringify.
--     Config: src/config/env.validation.ts. Numbers and Words read numbers and words, Durations
--     the durations, Validation is validateEnvironment.
--     Mail: src/core/mail/mail.service.ts; Sending has the templates and the dispatch.
--     Pagination: skip, take and the meta object of every list endpoint.
--     Notifications: src/modules/notifications/notifications.service.ts.
--     Moderation: src/modules/ai. Jobs is listing-moderation-job.service.ts, Evaluation and its
--     Call are ai-moderation.service.ts, Policy is moderation-policy.service.ts, Audit is
--     moderation-audit.service.ts, Workflow is listing-moderation-workflow.service.ts, Worker is
--     listing-moderation-worker.service.ts.
--     Users: src/modules/users. Mapper is user.mapper.ts, Accounts, Profile and OwnListings are
--     services/users.service.ts.
--     Listings: src/modules/listings. Mapper is listing.mapper.ts; Input, Query, Store, Service,
--     Update and Slug are listings.service.ts, Keys is the invariant of its tables, Shown is
--     what other services include; Types has its data.
--     Auth: src/modules/auth/auth.service.ts, with its Data. Guards: src/common/guards, and
--     cookies.ts and socket-auth.ts of src/common/utils.
--     Conversations: src/modules/conversations/conversations.service.ts; Data has its data and
--     mappers, Opening findMine and create.
--     Gateways: chat.gateway.ts of src/modules/conversations and notifications.gateway.ts of
--     src/modules/notifications, with the rooms of sockets.
--     Admin: src/modules/admin/admin.service.ts and src/modules/reports/reports.service.ts.
--     Http: http-exception.filter.ts of src/common/filters and cors.ts of src/common/utils.
--     Media: src/core/media/cloudinary.service.ts and src/modules/uploads.
--     Figures: stats.service.ts, categories.service.ts and dashboard.service.ts of src/modules.
--     Tests: runs at concrete worlds, and each theorem at a concrete input.
--
-- How they interact: the guards set the user of a request, from a token that the authentication
-- signed; the listings service enqueues a moderation job for a new or a changed listing; the
-- worker claims jobs, runs the workflow and gives each job back; the workflow evaluates a listing,
-- records a run, approves the listing and has the notifications service tell the seller; a message
-- tells its recipients the same way.
--
-- Conventions. A service method is a function that takes the Prisma interface, the readings of the
-- clock and the answers of external services (the language model, the hash, the parser of URLs,
-- the check of tokens, the transport of mail, parseFloat, the tables of Unicode) as arguments.
-- Dates are milliseconds, identifiers are texts; the database names its rows by an injective
-- counter. A floating-point number from 0 to 1 is the number that its bits spell, which keeps the
-- order. What a service writes before it throws stays written, except in a transaction. The
-- revision and attempt counters are unbounded, where the database stops at 2^31 - 1. Fuel is used
-- for the five rounds of a poll of the worker, which are the code's own, and for the search for a
-- slug, which gets two rounds more than there are listings.
--
-- Not modelled: the HTTP controllers but that of the uploads, decorators, module wiring, logging,
-- the ping of the health service, the seed script and the scanner of secrets, which are input and
-- output or configuration.
pub mod Prelude
pub mod Prisma
pub mod Schema
pub mod World
pub mod Text
pub mod Notifications
pub mod Pagination
pub mod Mail
pub mod Moderation
pub mod Listings
mod Tests
pub mod Users
pub mod Auth
pub mod Gateways
pub mod Guards
pub mod Config
pub mod Conversations
pub mod Admin
pub mod Http
pub mod Media
pub mod Figures
