-- ===== src/Lib.antt =====
-- The Alpaca client library and its account bound gateway: what the gateway promises its callers
-- about each call, the orders, conversions and transfers that a call is about, and the parts that those
-- promises rest on.
--
-- A caller of one of three tiers (bot, read, write) posts an operation of the catalog. The gateway
-- admits the call, runs it on a detached task under a send gate, answers by the operation's deadline,
-- and writes audit records. A failure of an Alpaca client is mapped to an answer that says whether a
-- change may have been applied and whether it may be sent again, and the gateway's client reads the
-- answer as a failure of the library. A placement fails or succeeds by src/broker/order.rs; behind the
-- gateway its failure is mapped and read back (Order.Placement.Adoption follows it all the way).
--
-- Catalog models crates/gateway-api/src/access.rs and ops.rs: `Tier`, `Profile`, `Operation`, and
--   the matches on them (`name`, `path`, `mutates`, `allows`, ...) case by case.
-- Errors models the failures of the clients and their classes: src/core.rs (Classes and Issuer),
--   src/auth.rs (Jwt), src/broker/market_data.rs (MarketData), src/broker/mod.rs and order.rs
--   (Broker), src/wallet/client.rs (Wallet), src/tokenization/client.rs (Tokenization). What they use
--   of the HTTP crates is the interface `Http`: three tests on an error, two on a status and the
--   reading of a status, with the documented ranges as laws. Of an error only what some decision reads is kept.
-- Gateway.Failure and Gateway.Answer model crates/gateway/src/answer.rs: `Failure`, `for_mutation`,
--   `body`, and the mappers `broker`, `market_data`, `placement`, `wallet`, `tokenization`, `issuer` and
--   `issuer_call`. An answer's message is an argument of `body`.
-- Client models crates/gateway-api/src/client/adapter.rs: `answer`, `answered`, `reach_and_retry` and
--   the errors of each family (Adapter). Client.Family follows a failed call of a family
--   over the gateway: each call by the mapper that its handler answers with and the one that the client reads with.
-- RateLimit models the waits of polls in src/rate_limit.rs.
-- Order models src/broker/order.rs, precision.rs and lifecycle: the meaning of a status (Status), the
--   placement of an order with the adoption of one that Alpaca already holds, its recovery and its
--   status (Placement), and the conversion poll with its cancel at the deadline (Conversion, a step
--   function; what is returned of it in Settlement), and the texts of a direction, key and status
--   (Lifecycle, with the UUID crate as `Uuids`). The calls of the broker client are the interface
--   `Calls`, the float crate is `Floats`; the two order requests are one record, whose price is `none`
--   for a market order.
-- Tokenization models src/tokenization/client.rs: the searches of the list of requests, the errors of a
--   mint, and the two polls (Poll) as a step function. What the JSON crate reads is `Entries`.
-- Wallet models src/wallet/transfer.rs and status.rs: the search of the transfer list (Transfer) and
--   the three polls as one step function (Poll.Run) with what they differ in (Poll). The backoff crate
--   is an argument that gives the delays of a round.
-- Gateway.Budget models crates/gateway/src/budget.rs. Time is in nanoseconds, and the use count of a
--   window wraps at 32 bits, as the code's addition does.
-- Gateway.Admission, Gateway.Audit, Gateway.Run and Gateway.Relay model crates/gateway/src/state.rs:
--   `admit`, `event`, `run` and `relay`. Run and Relay have the two tasks of a call as a step function
--   on a shared state: a schedule is a list of moves, and what the work does is free.
-- Stream models src/corporate_actions/event.rs (Event) and sse.rs: lines and boundaries (Lines),
--   `decode_sse_frame` (Frame) and the decoder's `push` (Decoder). Texts are bytes, what the JSON crate
--   reads is the interface `Json`, and the limit of a frame is an argument.
--   Endpoint and Connect model endpoint.rs, replay.rs and client.rs there: the validation of the URL, the
--   position of a replay and the opening of the stream. The URL and date crates are arguments.
-- Transport models src/request_id.rs (the traffic of a scope and its send gate), one exchange of the
--   Broker API client and its lookups of src/broker/client.rs (Broker), and `parse_retry_after` of
--   src/rate_limit.rs (RetryAfter). What the HTTP client answers is the record `Exchange`, with whether
--   the request left; Order.Placement.Wire puts placements on it.
-- Market models src/broker/market_hours.rs (Hours, with the time zone and dates as `Clock` and the
--   calendar request as an argument), the quotes of src/broker/market_data.rs and session.rs (Quotes, with
--   `Money`), and src/broker/positions.rs and amount.rs (Positions, with the float crate as `Amounts`).
-- Gateway.Identity models crates/gateway/src/auth.rs: `identify` on the JWT crate as `Jwt`, and the keys
--   that requests share (Keys), a step function of which a move is one critical section.
-- Credentials models the token cache of src/auth.rs, a step function of which a move is one section of
--   `access_token`, of the request at hand or of another one; what a mint ends with is free.
-- Retry models the retry loop of src/core.rs, `retry_attempts`, with the hold on a client that its
--   clones share: a step function, with a list for the delays of the backoff.
-- Prelude has the tests, lists, texts and results that the parts share.
--
-- Fuel: the two loops of `push` have the lengths of the chunk and of the buffer; a round of the first
-- takes a byte of the chunk, one of the second at least a separator out of the buffer. Every other loop
-- runs along a list; a poll runs along its schedule, a list of moves.
--
-- Not modelled: HTTP itself, the parsing of URLs and JSON, the signing and headers of credentials, the
-- handlers' glue, the configuration, what is logged, the submission of conversions, account activities and
-- journals, withdrawals, the sending of tokenization and issuer calls, and the test servers.
pub mod Prelude
pub mod Catalog
pub mod Credentials
pub mod Errors
pub mod Gateway
pub mod Stream
pub mod Tokenization
pub mod Market
pub mod Transport
pub mod Wallet
pub mod Order
pub mod RateLimit
pub mod Retry
pub mod Client
