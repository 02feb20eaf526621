-- ===== src/Lib.antt =====
-- Verification of the wallet service of tanta (the TypeScript code in wallet/src).
--
-- A user has wallets. A wallet has a balance in one currency, ideal or overdrawn, and the version of
-- the last transaction that the balance accounts for. A credit or a debit records a transaction, whose
-- version counts on from that of the transaction it takes for the wallet's last, then hands all
-- transactions above the wallet's version to the wallet service, which replays them on the balance.
-- A transfer is a debit followed by a credit. Wallets, transactions and transfers are rows of three
-- tables of a Postgres database behind knex. A request passes a guard, which asks another service over
-- RabbitMQ whose token it carries, and a pipe, which validates its body, before it gets to a handler of
-- the controller; an exception goes to a filter.
--
-- Modules, and the code that each is about:
--   Base, Base/Lists, Slices  shared names, tests on numbers, lemmas on lists
--   Js/Int, Number, Decimal   JavaScript's numbers: integers, rounding to doubles (Doubles: what is a double),
--                             printing and reading
--   Shared/Exception          wallet/src/lib/exception.ts and the exception codes; `Result`
--   Shared/ConcurrencyControl wallet/src/lib/concurrency-control.ts
--   Shared/Pagination         wallet/src/lib/pagination.ts
--   Shared/DateTime           wallet/src/lib/date-time.ts; Comparisons: on every kind of argument
--   Money                     wallet/src/features/wallet/money.ts and currency.ts
--   Wallet, Transaction, Transferring   the entities of wallet/src/features; a method that writes to
--                             its object returns the new object
--   Notification              wallet/src/features/notification
--   Tables                    the row types of the repositories
--   Migrations                wallet/src/database/migrations; Columns: the fields that the repositories'
--                             `toRow` write against the columns, Indexes: the primary keys and indexes
--   Database                  the interface `Table` of a table behind knex, with the laws relied on;
--                             Memory is an instance in lists, Keyed what follows for a primary key
--   Config                    wallet/src/config.ts
--   DatabaseService           wallet/src/database/database.service.ts
--   World                     the tables, the clock, the ids and the notifications that a request runs
--                             in, and `Action`, the type of a method; Leaves: actions that leave
--                             something alone
--   Balance                   the loop of `updateBalance` (wallet/src/features/wallet/wallet.service.ts)
--   WalletRepository, WalletService              wallet.repository.ts and wallet.service.ts
--   TransactionRepository, TransactionService    transaction.repository.ts and transaction.service.ts
--   TransferringRepository, TransferringService  transferring.repository.ts, which nothing calls yet, and
--                             transferring.service.ts
--   WalletController          wallet/src/controllers/rest/wallet.controller.ts
--   Messaging, User           wallet/src/messaging/messaging.service.ts and
--                             wallet/src/features/user/user.service.ts
--   Rest                      wallet/src/controllers/rest: Errors and Pipe (validation.pipe.ts), Dto
--                             (wallet.dto.ts), Filter (all.exceptions.filter.ts), Guard (auth.guard.ts and
--                             auth.decorator.ts); Bodies and Access: what they let through; Routes (the
--                             decorators of wallet.controller.ts) and Nest: a whole request; Server: how it
--                             is answered (Handled: the handlers' parameters, Users, Creating and Funding:
--                             the four routes, Silence: without the other service, Served: which methods
--                             of the services it comes to); Interceptor (logging.interceptors.ts)
--   Wiring                    wallet/src/main.ts and the files *.module.ts, with the constructors that Nest
--                             calls; Resolved: in what order
--   Thread                    the requests of the three services side by side: Requests are the methods cut
--                             at their awaits, Schedule the runs, Launch the requests that clients make,
--                             Play an interleaving given by a list of turns; Runs, Alone: a request that
--                             nothing interrupts; Ensures, Keeps, Stable, Preserved, Kept, Elsewhere,
--                             Rows, Recorded: invariants; Audit: the transactions behind each wallet;
--                             Barred: two transactions of version 1; Single: one request as a run
--   Samples, Examples         a database in lists, tests and concrete inputs of the theorems
--
-- A method is a function from a `World` to what it returns or throws and the world after it. The
-- program opens no database transaction, so what was written before a throw stays. As such a
-- function a request runs alone. In Thread it is a tree of steps, one for each call of a
-- repository, the clock, the generator of ids or the console, and between two of its steps any
-- other request may take its own. The source draws ids and times and writes to the console without
-- an `await`, so the model has more interleavings than the source: a theorem on all of them is one
-- on the source's. A function name of the source is spelled with underscores: `updateBalance` is
-- `update_balance`, `TransferringService.process` is `process`.
--
-- Bounds: the value of a constructed `Money` is a non-negative integer, a natural number here; a sum
-- is rounded to a double, which changes nothing below 2^53, the bound of the theorems on amounts.
-- `Js.Decimal.to_string` runs on fuel n + 1 for a number n, of which every digit takes one round.
-- Rounding runs on fuel 972, the largest exponent that a finite double has above its 53 bits.
--
-- The digits that `to_string` prints are JavaScript's below 2^53; above, JavaScript prints the shortest
-- digits that read back as the same double, which is what the theorems use of them. The ranges of the
-- columns are those of Postgres: varchar(255), int8 and int4.
--
-- Guard, pipe, handler and filter are joined by Nest, which is not part of the repository. `Nest` is
-- a record of a function that answers requests and four laws: a guard that returns false, a rejected
-- parameter, a handler that runs, and a guard that never decides. Which of several rejected
-- parameters is reported is left open, and so is what Nest does with the line of a request, its path
-- and verb, before it has found the route. Examples/Serving is an instance. The channel of RabbitMQ
-- is a function from the commands sent to the messages delivered and the timer; JSON is a parameter,
-- and so are class-validator and class-transformer, as laws on the decorators used. That the other
-- service names whom it authorizes and that the timer fires are hypotheses where they are needed.
-- The correlation id that the guard draws is part of the request's `Line`, and not one of the ids of
-- the `World`, whose ids are those that go into the tables.
--
-- Assumed of the database, as laws of `Table`: an insert that goes through adds its row and the
-- primary key was free; an update that goes through overwrites the rows with the key; a truncation
-- leaves no row; a query gives the rows that pass its test, in the order asked for and no other. A
-- write may be refused, for whatever reason, and then has changed nothing; that a connection is
-- lost after the server has committed, which the program cannot tell from a refusal, is left out. A
-- read is taken to succeed. A timestamp reads back as written. Times are natural numbers of
-- milliseconds.
--
-- Not modelled: the connections to RabbitMQ and to Postgres, the start of the server, what knex makes
-- of the migrations, a message whose text is not JSON, lines of `console.log` other than the
-- notification's, and user-management, a separate service in Python.
pub mod Base
pub mod Js
pub mod Shared
pub mod Migrations
pub mod Money
pub mod Transaction
pub mod Wallet
pub mod Balance
pub mod Database
pub mod Notification
pub mod Transferring
pub mod Tables
pub mod World
pub mod Config
pub mod DatabaseService
pub mod WalletRepository
pub mod WalletService
pub mod TransactionRepository
pub mod TransactionService
pub mod TransferringRepository
pub mod TransferringService
pub mod WalletController
pub mod Messaging
pub mod User
pub mod Rest
pub mod Thread
pub mod Wiring
pub mod Samples
pub mod Examples
