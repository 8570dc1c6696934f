-- ===== src/Lib.antt =====
-- The IVIS backend of a vehicle inspection centre: appointments become jobs, jobs are priced and paid,
-- and the result of a job is filed with the provider of the bookings through an outbox of events.
--
-- Outbox: the table of events, the loops that send and confirm them, and the retries. Row, Dao,
-- Service and Dispatcher model src/modules/database/dao/tajdeed-outbox.dao.ts and
-- src/modules/transactions/tajdeed-events/services (tajdeed-outbox.service.ts,
-- tajdeed-dispatcher.service.ts); Backoff and Provider model
-- src/common/integrations/appointments (appointment.constants.ts, appointment-api-client.service.ts).
-- A table is a list of rows; an operation takes the table, the instant of the call and the new ids that
-- it may draw, and returns the new table. The provider is a record of functions, a parameter.
-- Live, LiveUnique, LiveRetry, Delivery, Batch, Retried, Settled, Schedule,
-- Branch and Anomalies are the proofs.
--
-- Store: the rows that pricing, jobs and payments read and write (src/modules/database/entity), the
-- queries they make (src/modules/database/dao) and a service call as a function from the database to a
-- result or an exception and the database left. The services open no transaction, so what was written
-- before an exception stays. Runs takes the runs of such calls apart.
--
-- Pricing: resolvePricingForJob and setCharge of src/modules/jobs/services/job.service.ts and
-- assertAmountMatchesCharge of src/modules/transactions/payments/services/payments.service.ts. Amounts
-- are natural numbers of ten-thousandths of a rial. The payment API is a parameter.
--
-- Jobs: Service models create and validateJobReferences, Conversion models createFromAppointment of
-- src/modules/jobs/services/job.service.ts and appointmentExpiry of src/common/utils/util.ts.
-- Removal models remove. Create, Guards and Convert are the proofs, with those of Removal.
--
-- Payments: References models resolveReferences, Service models create, findOne and remove,
-- Update models update of src/modules/transactions/payments/services/payments.service.ts. Create,
-- Refused and Relink are the proofs, with the one of Update. A payment may create a job, through
-- Jobs.Service.
--
-- Exchange: Ini and Names model src/common/shared/files (ini-parser.util.ts,
-- inspection-file-name.util.ts); InFile, OutFile and Watcher model infile-generator.service.ts,
-- outfile-generator.service.ts and outfile-watcher.service.ts of src/modules/jobs/services. A folder is a
-- list of names; reading a file, joining a path and printing a date are parameters. Lines and Document
-- are about the lines of a file; RoundTrip, OutFileVerdict, NameRoundTrip, InFileReading, Steps, Rescan,
-- Frame and Pipeline are the proofs.
--
-- Submission: Readings, Clock and Mapper model
-- src/common/integrations/appointments/inspection-result.mapper.ts; Update models update and redoJob,
-- Service startJob and submitJob of src/modules/jobs/services/job.service.ts; Filing models
-- queueInspectionResult of that file and pushLaneChange of
-- src/modules/transactions/tajdeed-events/services/lane-status.service.ts. A submission works on the
-- database, the outbox and the list of what ROP was told; the serialisation of a payload is a parameter.
-- Hours, Verdicts, OneLive, Updated, Queued, Told and Generated are the proofs.
--
-- Access: Keys, Matrix and Resolve model src/common/auth/role-permissions.ts and
-- src/common/types/role-access.types.ts, the access matrix of a role and the permission keys it is
-- resolved to; Guard models src/guards/permissions.guard.ts, and Users resolveUserPermissions of
-- src/modules/auth/service/auth.service.ts. Granted, RoundTrip and UserRights are the proofs, with the
-- one of Guard.
--
-- Sync: Upsert models src/common/utils/conditional-upsert.util.ts, the statement by which rows of another
-- node are written. Kept and Replay are the proofs.
--
-- Ingest: Dao, Bookings, Parties, Promote, Reconcile and Cycle model
-- src/modules/transactions/online-appointments/services/appointment-ingest.service.ts, the mirror of the
-- provider's bookings and their promotion to appointments; Phone models
-- src/common/utils/oman-phone.util.ts. The provider's answer, the dates of the platform and the value of a
-- fee are parameters. PhoneForms, Frames, OpenPlates, OneOpen, Queue, Visits, Untouched, Followed, Reinstated,
-- Requeued, Promoted and Blocked are the proofs.
--
-- Arrival: Lanes, Unattended and Pairing model
-- src/modules/transactions/anpr-captures/services/capture-validation.service.ts, from a vehicle that a
-- camera has read to the job of a paid booking, through Jobs.Conversion. The messages of exceptions are a
-- parameter. Assigned, Eligible, Paired and Forgotten are the proofs.
--
-- Examples and Outbox.Tests apply the theorems to concrete data. Base holds what all share.
--
-- An entity that is saved with its relations loaded keeps the references that the relations give, as TypeORM
-- documents it for loaded relations. Ids are numbers: they are drawn, compared and copied only. The clock is read once per call. The loops
-- run over lists, so no fuel is needed. Each call runs alone: interleavings within one call are not
-- modelled. Not modelled either:
-- logging and audit snapshots, the HTTP layer, the walk-in intake, the enrichment of vehicles and
-- customers from ROP, the runs of the synchronisation, cameras, masters, users, and reports.
pub mod Base
pub mod Outbox
pub mod Store
pub mod Pricing
pub mod Jobs
pub mod Payments
pub mod Examples
pub mod Exchange
pub mod Submission
pub mod Access
pub mod Sync
pub mod Ingest
pub mod Arrival
