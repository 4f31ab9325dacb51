-- ===== src/Lib.antt =====
-- Sompi: a payment runtime that lets an agent spend Kaspa under an owner's policy. The part of it that is
-- modelled here is its durable core, the Purchase Journal (src/purchase/journal.ts, a SQLite database), and
-- the lifecycles that it enforces.
--
-- Base: Boolean tests, lists, tables keyed by a text, the error classes of src/journal/contracts.ts as values
-- (`Result`, where `err` is a thrown error), and the regular expressions of the Journal's checks.
--
-- Treasury: direct Treasury Operations (src/treasury/operation-journal.ts for the types), each operation of the
-- Journal under its name in the source. `Types` has the rows, `Capacity` the shared capacity window
-- (policyCapacityUsedInternal, assertDirectTreasuryCapacity), `Rows` what each handler does with the row that it
-- reads, `Tables` the transaction around that, `Intake` the admission of a new intent
-- (claimTreasuryOperationIntent), `Handlers` the other handlers, `Audit` the check of the rows when the Journal is
-- opened (verifySemanticConsistency), `Readouts` the sums that the runtime shows and `Preflight` the check ahead of
-- an intent (preflightTreasuryOperation). `Commands` puts the calls of
-- any number of drivers into a sequence. `Moves`, `Logs`, `Sound`, `Calls` and `Histories` carry the proofs from
-- rows to sequences of calls; `Safety`, `Admission`, `Fencing`, `Startup`, `Readouts` and `Preflight` have the theorems.
--
-- Driver: the loop of src/treasury/operations.ts that carries an operation through the Journal and its adapter
-- (drive, waitForDriver, driveClaimed, driveOwned, reconcile, authorize). `Process` has a driver as a process: one
-- request after the other, with the Journal's own handlers behind those that call it and the adapter, the evidence
-- store, the clock and the caller's signal as answers of the surroundings. `Loop` is the code. `Schedule` runs any number of
-- drivers in any order with each other and with other calls, and `Licences`, `Launches` and `Grants` lead to `Once`.
-- `Runs` runs one driver while others change the Journal, `Bounds` and `Ends` bound its requests, `Steps` and
-- `Recovers` follow a driver that finds a submission under way, and `Authority` compares its policy check with the
-- Journal's.
--
-- Policy: the engine of src/policy.ts, over the integers as bigint has them.
--
-- Effects: the leases of the Journal (acquireLease, renewLease, releaseLease) and the Effects that are executed
-- under them. `Leases`, `States`, `Store` and `Handlers` are the code, `LeaseHistory`, `Commands`, `Cases`,
-- `Safety` and `Histories` the sequences of calls and their theorems.
--
-- Transfer: src/transfer/state-machine.ts (`Lifecycle`) and the Transfer rows of the Journal (`Rows`), which are
-- bound to a Treasury Operation and follow it (syncTransferTreasuryOperation). `Intake` claims an intent and makes
-- the module's own transitions (src/transfer/module.ts), `Decisions` stores authorizations and receipts, `Audit`
-- is what the next start of the Journal checks of them. `Calls` puts the calls of any number of processes into a
-- sequence; `Moves`, `Writes`, `History`, `Settling`, `Deciding` and `Approval` carry the proofs to `Startup`.
-- `Mirror` joins the rows to the histories of Treasury.
--
-- Purchase: src/purchase/state-machine.ts and src/purchase/finality.ts (`Lifecycle`, `History`, `Finality`), and the
-- treasury reservations of Purchases in the Journal (`Reservation`: reservePolicy and releaseActiveReservation).
-- `Reservation.Calls` puts those calls, the UPDATE statements that other handlers make on reservations and any other
-- writes into a sequence.
--
-- Amounts: src/amount-display.ts. A text is the list of its code points; `Digits` has the lemmas on decimal
-- digits, `RoundTrip`, `Grammar` and `Views` the theorems.
--
-- Examples: the theorems at concrete inputs, and a whole payment computed from its intent to its completion.
--
-- A handler runs in one immediate SQLite transaction. It is a function of the tables, its arguments and the
-- readings of the clock (`seen_at`, `now`, `lease_at`, `claim_at`), which are arbitrary and need not grow; a
-- thrown error leaves the tables as they were. An UPDATE whose WHERE clause repeats what the handler has just
-- read in the same transaction is modelled by the test of that row. What cancelTreasuryOperation reads ahead of its
-- transaction is an argument (`earlier`), and arbitrary. Any interleaving of processes is a
-- sequence of calls, since transactions are serial. Atomic amounts are canonical decimal texts in the source
-- and natural numbers here. Times are natural numbers, and `x - 3600000 <= y` is written without
-- the subtraction.
--
-- Two definitions take fuel. `Amounts.digits_of` gets one more than its number, which is enough: what it writes
-- is read back in the round trip. `Driver.Runs.finish` counts the requests of a driver; 1,827 of them are enough
-- for every driver, which is one of the results. The waiting loop of drive counts its own tries in the source,
-- and is recursive on what is left of them.
--
-- Not modelled: the files of the evidence store and its failures while a payload is stored (a prepared payload is its
-- digest, reference and length, and the reading of it at startup is a parameter), the adapters' own work on the chain,
-- with the authorize callback of `adapter.prepare` a part of its answer, the sharing of one promise between calls
-- of one process, JSON texts and SHA-256 (the parameter `Encoding`), the check of a Transfer's log of transitions
-- at startup, the faults that tests inject, the texts of error messages, the checks on argument types that the compiler
-- makes, and the other writes of the Journal: on purchases, attempts, settlements and batch channels. The completion
-- of a batch channel's claim and refund race (completeBatchClaimRefundRace) also ends a direct operation, and is
-- left to the channels. The heartbeat of a driver's lease, and a signal that is aborted while its driver is at work,
-- are calls of others. The read of markRecoverable and its transition are one step.
pub mod Base
pub mod Policy
pub mod Amounts
pub mod Purchase
pub mod Treasury
pub mod Driver
pub mod Effects
pub mod Transfer
pub mod Examples
