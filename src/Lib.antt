-- ===== src/Lib.antt =====
-- The backend of the Smart Logistics & Accessibility Intelligence Platform (backend/app, Python), as
-- far as its rules decide who may act, which roads may be used and how goods are sent.
--
-- The platform keeps a road network with a log of decisions on its edges. Field officers send
-- reports; verifiers adjudicate them, which opens incidents, updates the edges and publishes events;
-- incidents are merged and resolved, which recalculates the edges. Carriers dispatch trips with
-- vehicles, drivers and commitments; devices send where the vehicles are. A route is planned over the
-- edges that a vehicle may use, and a dispatcher decides on the plan. A worker hands the published
-- events to the evaluation of their impact on the trips under way. Every request runs as a principal,
-- which a session, a membership and grants make.
--
-- The files and the code they model:
--   Base           Python's texts, floats, instants and lists; tables as lists of rows; raised errors
--   Network        backend/app/modules/network
--     Traversability   domain/traversability.py: evaluate_traversability
--     Status           application/declare_edge_status.py and the status queries of
--                      infrastructure/repository.py: the log, the current statuses, the version
--   Identity       backend/app/modules/identity
--     Roles, Principal   domain/role_capabilities.py, principal.py, assignment_context.py
--     Authorization      application/check_capability.py
--     Store              infrastructure/repository.py
--     Resolve            application/resolve_principal.py
--     Sessions           application/session_service.py
--     Grants             application/grant_service.py
--     Memberships        application/membership_service.py
--   Logistics      backend/app/modules/logistics
--     Rules              domain/entities.py: the trip's state machine, the deadline, the masks
--     Store              infrastructure/repository.py
--     Dispatch           application/dispatch_trip.py, update_trip_status.py
--   Reporting      backend/app/modules/reporting
--     Entities, Store    domain/entities.py, infrastructure/repository.py
--     Submission         application/submit_report.py
--     Amendment          application/amend_report.py
--     Sync               application/sync_reports.py
--     Media              application/media_service.py
--     Verification       application/apply_cv_verification.py
--   Incidents      backend/app/modules/incidents
--     Recalculation      domain/recalculation.py
--     Store              infrastructure/repository.py
--     Adjudication       application/verify_report.py, triage_report.py
--     Resolution         application/resolve_incident.py
--     Merging            application/merge_incidents.py
--   Telemetry      backend/app/modules/telemetry
--     Entities           domain/enums.py, domain/entities.py
--     Store              infrastructure/repository.py
--     Ingest             application/ingest_telemetry.py
--   Impact         backend/app/modules/impact
--     Store              infrastructure/repository.py
--     Evaluation         application/evaluate_disruption_impact.py
--   Routing        backend/app/modules/routing
--     Constraints        application/evaluate_route.py, step 4
--     Store, Plans       infrastructure/repository.py
--     Geometry, Routes   application/evaluate_route.py, steps 5 to 7
--     Evaluation         application/evaluate_route.py
--     Decision           application/record_dispatch_decision.py
--   Workers.Outbox, Workers.ImpactEvaluator   backend/app/workers/outbox_dispatcher.py
-- A file below one of these holds its theorems, under the name of what they are about, and a file
-- Tests holds runs and instances. A definition keeps the name of the function or the class that it
-- models, in small letters with underscores where the code has a method.
--
-- How the code is read:
--   * A use case is a function from the tables to a result with the tables after it. A raised error
--     gives no tables: the request's transaction ends without a commit. An exception is the identity
--     module's resolution of a principal, whose tables are kept on an error as they are in the
--     session at that point.
--   * A query that fails aborts its transaction, so that a later statement raises, also where the
--     code catches the exception of the query.
--   * A table is the list of its rows in the order of insertion; a query by a unique key takes the
--     first row that fits. Foreign and unique keys are the database's, and are not modelled.
--   * Fresh identifiers, the clock, `strip` and the printing of a UUID are arguments. A UUID is its
--     number, an instant its number of microseconds; instants that are compared have one offset.
--   * A float is nan, an infinity, or a whole multiple of 2^-1074, and comparison is exact. Sums and
--     products of floats round, and are arguments.
-- There is no fuel: every loop of these parts runs over a list.
--
-- Not modelled: the HTTP routers, the settings, logging, storage and the database itself; listings
-- and read-only views; the sign-in with OIDC and the choice of an organization; the shortest path,
-- the snapping of points and distances, which PostgreSQL computes; the model inference of the ai
-- module; coordination and hazard; the frontend.
pub mod Base
pub mod Network
pub mod Identity
pub mod Logistics
pub mod Reporting
pub mod Incidents
pub mod Telemetry
pub mod Impact
pub mod Routing
pub mod Workers
