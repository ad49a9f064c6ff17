-- ===== src/Lib.antt =====
-- A model of the d8x-etherfi service and its correctness.
--
-- The service answers what each address effectively holds in a pool of the D8X exchange: a part of
-- the pool for its share tokens, and the cash of its accounts as a trader. It reads transfers of
-- the share token and delegations from the chain, stores them in PostgreSQL, and asks nodes for
-- balances at a block. A request goes through these parts:
--   internal/etherfi/runfilter.go  runs the filterer and stores what it finds;
--   internal/filterer/filterer.go  reads events from a node in windows of blocks;
--   internal/etherfi/db.go         keeps the events, and answers holders and delegates;
--   internal/etherfi/evm.go        asks the nodes, in chunks and with retries;
--   internal/etherfi/etherfi.go    puts the balances together, in `Balances`;
--   internal/api/handlers.go       checks a request and answers it;
--   internal/contracts/erc20.go    calls the token's contract, for evm.go;
--   internal/api/routes.go, api.go pass a request on to its handler;
--   internal/utils                 limits the calls, goes round the nodes, and checks addresses;
--   internal/svc/svc.go            starts all of it, with `NewApp` of etherfi.go.
--
-- Files, with the code that each models:
--   Base, Base/*             Boolean tests, results, lists, `big.Int` as ℤ, and maps
--   Chain                    what is taken from go-ethereum, the contracts and the SDK (parameters)
--   Contracts                erc20.go: the binding and its constructors; Caller, Transactor, Raw, Session,
--                            CallerSession, TransactorSession: its methods; Events, Events/Transfer,
--                            Approval: parsing, filters and iterators; Events/Drained: who reads one;
--                            Watch: the watched events; Watch/Sent: what reaches their sink
--   Rounds/Trials, Chunks    the loops of trials and of chunks that evm.go writes out several times
--   Utils/Address            utils.go: IsValidEvmAddr; with strings.ToLower in Number
--   Utils/Payload, Config    utils.go: the payload of a request; LoadConfig
--   Utils/Conv               conv.go
--   Utils/TokenBucket        token_bucket.go; Bounds, Rate, Wait: its invariant, its limit, its wait
--   Utils/RpcHandler         rpchandler.go; Rotation: how it goes round the nodes
--   Filterer                 filterer.go; Window: ranges of blocks; Complete: the scan; Events: the
--                            calls; Create: NewFilterer
--   Etherfi/App, Call        the struct App, and a call that changes the world and may fail
--   Etherfi/Retry            etherfi.go: retryQuery
--   Etherfi/Queries          evm.go and etherfi.go: the queries; Answers: what a multicall returns;
--                            Accounts: the accounts and their cash; Providers: the share tokens;
--                            Bound: down to the calls of the binding
--   Etherfi/Traders          evm.go: QueryTraderBalances; Cash, Exact: what it gathers and returns
--   Etherfi/Delegates        etherfi.go: reassignTraderBalances; Moves: what it moves
--   Etherfi/Shares           etherfi.go: attributeLpBalances; Bounds: against the pool
--   Etherfi/Combine          etherfi.go: combineBalances; Conserved, Exact: the two kinds of report
--   Etherfi/Store            db.go: the tables, their queries and ConnectDB; Sets: SELECT DISTINCT; Keys:
--                            the primary key of the delegations, internal/db/migrations
--   Etherfi/RunFilter        runfilter.go; Table, Views: either goroutine over an abstract table, which
--                            Refines relates to the code; InStep, Changes, Synced: the tables and the chain;
--                            Life: runs, restarts and growth in between; Follows: with the filterer;
--                            Caught, Members, Lives: also with growth while a run reads; Answered: what
--                            the queries of db.go then answer; Dropped: delegations with one key;
--                            Advances: the block of LastBlockTo
--   Etherfi/Balances         etherfi.go: the goroutines of Balances and what follows; Messages, Settled:
--                            its channels; Read: the pool's balance; Paid, Whole: what a report pays
--   Etherfi/Request          etherfi.go: Balances as a whole, over nodes that agree; Sound: for all
--                            holders; Told: for given addresses; Interleaved: with its goroutines
--                            side by side; Interleaved/Views, Holders, Lines: over nodes that agree
--   Etherfi/NewApp           etherfi.go: NewApp; Pool, Ready: what it returns
--   Api                      handlers.go: the checks of onGetBalances and onBalances, onEtherfiApy;
--                            Requests: what reaches `Balances`; Apy: how often the endpoint is asked;
--                            Serve, Serve/Sound, Serve/Told: from a request to its answer; Holders:
--                            onHolderContracts
--   Api/Routes               routes.go and api.go: the routes and the server; Caches, Keeps: what
--                            requests leave as it is
--   Svc                      svc.go: loadEnv, runMigrations and Run; Order: what comes first
--   Tests/*                  runs on concrete inputs, and instances of the theorems
--
-- Conventions. A pair of a value and an error is a `Result`, an error being its message; a panic is
-- `none`. An answer of a node is a function of the state of the world, which every call changes, so
-- nodes may disagree and fail at any time; what a theorem needs of them it names as a hypothesis.
-- `float64` is an interface with the operations used. A map is an association list, and its `range`
-- an order that the theorems leave open. A block number wraps at 2^64 where the code adds to it.
--
-- Fuel. The chunk loop has n + 1 rounds for n items, and the scan now + 1 windows up to the block
-- `now`; the theorems on them show that this is enough, since "out of fuel" is not an error that
-- they allow. The wait for a token has as many tries as it is given.
--
-- Not modelled: logging and printing, sleeping between retries, the timer that calls RunFilter again,
-- and of the migrations all but the primary key of the delegations, the columns being the records of
-- Etherfi/Store. chi, net/http, go-ethereum's bound contracts, subscriptions and unpacking, viper,
-- golang-migrate, database/sql, encoding/json and big.Float are arguments of what uses them. The
-- tables are lists of rows, and a failure of the database is an argument. Of requests at the same time
-- and of the event sync beside them, what they do to the nodes and to the RPC handler is modelled, by
-- Etherfi/Request/Interleaved; that they share the app's caches without a lock is left out. The last
-- window of a scan is open, so what the chain adds during a run is read, and read again by the next
-- one: in Etherfi/RunFilter/Life the chain grows only between the runs, and in Etherfi/RunFilter/Lives
-- at any time. What a failure of the database leaves is left out of both, but for Dropped.
pub mod Base
pub mod Chain
pub mod Contracts
pub mod Rounds
pub mod Utils
pub mod Etherfi
pub mod Api
pub mod Filterer
pub mod Svc
pub mod Tests
