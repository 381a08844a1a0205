-- ===== src/Lib.antt =====
-- DER Flex: a model of the flexibility service and the theorems on it.
--
-- The program keeps flexibility offers of distributed energy resources, publishes aggregates of them
-- under privacy rules, and sells their capacity: an aggregator reserves power, activates the
-- reservation, and the resources get an instruction each. A request enters at the HTTP boundary
-- (src/der_flex/api/app.py), which asks the offer store and the reservation service; the service
-- keeps its state in a backend and tells callbacks by webhooks.
--
--   Domain.Models, Domain.Equality    src/der_flex/domain/models.py
--   Domain.Store (Query, Snapshots)   InMemoryOfferStore, src/der_flex/domain/store.py
--   Domain.Resources                  InMemoryResourceRegistry, src/der_flex/domain/resources.py
--   Reservations.Records, .Backend    InMemoryReservationBackend, src/der_flex/reservations/backend.py
--   Reservations.Allocate             the loop over the offers in ReservationService.create
--   Reservations.Service              ReservationService: create, get and cancel,
--     Activate                          activate, get_activation and instructions_for,
--     Residual                          and the residual capacity
--                                       (src/der_flex/reservations/service.py)
--   Adapters.Dispatch                 build_pebc_instruction, src/der_flex/adapters/s2/dispatch.py
--   Adapters.Webhooks                 WebhookDispatcher, src/der_flex/adapters/webhooks.py
--   Adapters.OpenAdr                  OpenADRAdapter and its messages, src/der_flex/adapters/openadr
--   Adapters.Pebc (Energy, Segments)  the segments of normalize_pebc_offer,
--                                       src/der_flex/adapters/s2/pebc.py
--   Api.Security                      principals and bearer tokens, src/der_flex/security.py
--   Api.Privacy                       PrivacyPublicationPolicy, src/der_flex/privacy.py
--   Api.Flexibility                   get_flexibility, src/der_flex/api/app.py
--   Api.Reservations                  the handlers of one reservation or activation in the same file
--   Api.Requests                      ReservationRequest and create_reservation, in the same file
--   Outbox                            OutboxProcessor, src/der_flex/outbox.py
--   Durable.Tables, .UnitOfWork,      the tables, PostgresReservationUnitOfWork and
--     .Outbox                           PostgresReservationBackend (src/der_flex/reservations/postgres.py)
--   Durable.Activate                  _activate_durable, src/der_flex/reservations/service.py
--   Durable.Publish                   public_residual_capacity over the tables, in the same file
--   Durable.Steps, .Progress          the runs of their transactions
--   Durable.Refinement                calls and reads of the two backends side by side
--
-- The modules below these hold proofs and are named for what they prove; Examples holds test data and
-- the theorems at concrete inputs. Prelude holds what the parts share: Boolean tests, lists, Python's
-- dict, sorting, rounding, integers and results.
--
-- A method is a function of the state that returns the state beside its result, so what was written
-- before a raise stays written. Service.Steps makes the methods of the service a step relation, and
-- Reach any run of them; an invariant is proved of each primitive write and then holds of every run.
-- Locks serialise the transactions in the code, so a step sees the state that the one before it left.
--
-- The durable backend keeps its state in tables, which are lists of rows here; a statement that breaks
-- a constraint is an error, and the transaction around it leaves nothing. The steps of Durable.Steps are
-- what the transactions of the service and of the workers of the outbox write: an expiry, a saved
-- reservation, an update of one, an activation, a publication of residual capacity, a claim and a
-- resolution. The transaction of create is the first two in a row and that of cancel the first and the
-- third; the others are one step each. A run is any interleaving of the steps: a worker that stops is
-- one whose resolution is not in the run. Durable.Refinement compares the two backends over expiries,
-- saved reservations, changes of a stored one, saved activations and rounds of a publication; it does
-- not cover the outbox, which does nothing in memory, or reserved_for_offer.
--
-- Numbers. A power is a whole number of 1e-9 kW, an energy one of 1e-9 kW times microseconds, an
-- instant one of microseconds in UTC: sums and products are exact, and the tolerance 1e-9 kW of the
-- code is one unit. The rounding of binary floating point is not modelled. Python's integers have no
-- bound, and neither have the numbers here. The loops run over lists, or over a number of attempts or
-- batches that the code fixes; the digits of a duration of n seconds are written in n rounds at most,
-- which is enough since each round divides by ten.
--
-- Parameters stand for code that is not in the repository: the S2 parser, the reading of hosts, JSON,
-- SHA-256 and HMAC, the HTTP sender, the exceptions that a delivery raises, random identifiers, uuid5 and the clocks.
--
-- Not modelled: the Postgres domain store, the connections and migrations of the Postgres backends,
-- OIDC tokens, the cutting of PEBC segments into offers, observability, the simulators, the demonstration and the
-- scripts.
pub mod Prelude
pub mod Domain
pub mod Reservations
pub mod Adapters
pub mod Api
pub mod Outbox
pub mod Durable
pub mod Examples
