-- ===== src/Lib.antt =====
-- A verification of the two crates of this repository.
--
-- `ipp-async` is a client of CUPS and of IPP printers. It builds requests with the `ipp` crate,
-- sends them, and decodes the attribute groups of the answers into printers, jobs and
-- subscriptions; it caches the default printer, submits documents, controls jobs and printers, and
-- turns polling into a stream of events. `cups-pk-client` calls the D-Bus mechanism of
-- cups-pk-helper for what needs a privilege.
--
-- The files, with the code that each is about (paths from the repository's root):
--   Ipp, Host       the boundary to the `ipp` crate, the files and the environment: data, and a
--                   record of functions that every definition takes as a parameter
--   Session         the asynchronous methods as actions on a session: the state behind the
--                   transport, the history of requests, and `IppClient::default_cache`
--   Future          the same methods step by step: what a future awaits and where it takes the lock
--                   of the cache; Pool has several tasks on one client, and dropped futures
--   Attrs           ipp-async/src/attrs.rs
--   Errors          ipp-async/src/error.rs; Chain is `Display`, `source` and
--                   `is_certificate_error`
--   Model           ipp-async/src/model.rs, a child for each type; States and Decoded hold what is
--                   proved of the decoders. Written has attribute values as a server writes them,
--                   and Wire those whose integers are of 32 bits, as all are in the `ipp` crate.
--                   The children Written of Printer and Job write one as attributes, and the
--                   children Exact decode it again; Exact of Supply has lists of supplies
--   Lpoptions       ipp-async/src/lpoptions.rs; RoundTrip has one file, Files the user's and the
--                   system's
--   Subscription    ipp-async/src/subscription.rs; Written has subscriptions and notifications
--                   written as attributes, and Exact decodes them again
--   Events          ipp-async/src/events.rs: `Snapshot::diff` and the delays; Keyed has the loops
--                   over any keyed lists, Replay the consumer of events that is the specification
--   Client          ipp-async/src/client.rs: Build (`IppClientBuilder`), Opcodes, Requests (the
--                   `*_request` functions), Transfer (`send`, `check_status`, the decoding of
--                   replies), Default (`default_printer`), Queries, Jobs (`IppClient`; Moved is
--                   the moving of a job), Print, Printer (`IppPrinter`), Notify (subscriptions),
--                   OpenJob (`IppJob`), Stream (`events`). Transfer, Default and Print have a child
--                   Async, the method step by step, beside the action that it is when it runs
--                   alone. The children of Printer are the `IppPrinter` methods that are one
--                   request: Sent has what each of them sends, Answered what each makes of the
--                   answer, Granted a subscription that is read back as it was asked for, and
--                   Named the `IppClient` methods that take a queue's name. Of the children of
--                   Stream, Laws has the turns of the loop, Watch the view of a consumer, Mirror
--                   what a server reports and a snapshot shows of it, Known what a consumer then
--                   knows, and Queries, Log, Asked and Defaults the requests that the loop
--                   sends. Query and Answered, of Queries, have the queries that are one request,
--                   Requested the attributes that they ask for, Files, of Print, the printing of a
--                   file, and Accepted a file whose job the server has created
--   Pk              cups-pk-client/src: Errors (error.rs), Device (device.rs), Connect and
--                   Mechanism (client.rs, and the interface of proxy.rs; Methods has all methods
--                   of a `CupsPk` at once)
--   Prelude         what all share: tests on native numbers, lists, 32-bit integers, durations
--                   (Time), and the methods of `str` with their laws
--   Tests           a scripted service, and theorems at concrete inputs
--
-- Client, Errors and Subscription meet in a `Session`: an action gives a result and the next
-- session, and a request appears in the history when it is handed to the transport, whatever the
-- transport then answers. The stream of events calls `snapshot`, which calls `default_printer`,
-- whose cache the stream empties whenever it holds no snapshot. An action runs alone; where other
-- tasks may come between the steps of a method, or its future may be dropped, the method is a
-- `Future`, which hands each request and each question to the outside and to the cache in turn.
--
-- Integers from the wire are integers over the native numbers; where it matters that they are of
-- 32 bits, `IsWire` of Model/Wire says so. The casts `as i32` keep the low 32 bits, in two's
-- complement. The leases, the time until the next poll and the timeouts are durations of seconds
-- and nanoseconds, of which `as_secs` keeps the seconds; the times of a job, which are decoded
-- from seconds, and the delays of the poll loop, which are constants and doubled, are whole
-- seconds. No definition runs on fuel: each loop is a recursion on a list or a text. The endless
-- loop of `events` is one function for a turn, and what is said of it is said of any list of
-- outcomes of turns.
--
-- Not modelled: logging (a warning of the builder is a Boolean); the wire format, HTTP, TLS and
-- D-Bus, which are libraries; the mutex of the cache, which is given back before the next step, so
-- that a look and a store are one step each; the dropping of futures other than that of a
-- submission; the feature without TLS; how long a text may be, in what is written as attributes and
-- decoded again (the requests ask the host whether a text fits); floating point (a fraction is a
-- parameter); text that is not UTF-8. `keyword` values are strings that fit, as the host says; the
-- one conversion that the code unwraps, of the keyword `printer-name`, is taken to fit.
mod Prelude
pub mod Ipp
pub mod Errors
pub mod Attrs
pub mod Model
pub mod Subscription
pub mod Lpoptions
pub mod Events
pub mod Host
pub mod Session
pub mod Future
pub mod Client
pub mod Pk
pub mod Tests
