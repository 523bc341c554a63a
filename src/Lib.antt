-- ===== src/Lib.antt =====
-- A model of dcrstakepool, the voting service of Decred, in two programs: stakepoold, which runs beside
-- each voting wallet and votes the tickets of the pool, and the web front end, which keeps users and
-- low fee tickets in a database and drives every stakepoold over gRPC.
--
-- Parts and files, with paths from the root of the repository:
--   Stakepoold: backend/stakepoold/stakepool/stakepool.go. The record Stakepoold has the maps and
--     settings of the process. Fees is EvaluateStakePoolTicket, Lookup is getticket, NewTickets is
--     processNewTickets, SpentMissed is processSpentMissedTickets, Winning is ProcessWinningTickets
--     and vote, and Updates is UpdateTicketData and UpdateUserData with their MySQL forms. Events has
--     the critical sections of all of these as the steps of one state machine, and Refinement compares
--     it with an automaton that looks at one ticket alone.
--     Reload is walletGetTickets of backend/stakepoold/rpcclient.go, which reads the tickets from the
--     wallet at the start, and FeeAddresses is calculateFeeAddresses and deriveChildAddresses of
--     backend/stakepoold/server.go, and SaveFiles is its pruneData with the file that loadData opens.
--   Rpc: the handlers of backend/stakepoold/rpc/server/server.go that read or set that state, and
--     the messages of rpc/api.proto.
--   Wallet: the other handlers of server.go, each with the method of stakepool.go that it calls on
--     the wallet.
--   Client: stakepooldclient/stakepooldclient.go. Calls has the three ways in which the manager loops
--     over its connections, Reads and Writes have its methods, Sync has SyncAll and its parts,
--     StakeInfo has the cache of GetStakeInfo, and Status has BackendStatus. A gRPC method is a field
--     of Backend: a function of the connection on a state behind the connections, which may fail.
--   Cluster: Client over Rpc. It has one Stakepoold for each connection and a list that says which
--     calls are delivered, lose their request or lose their reply.
--   Accounts: the pages of controllers/main.go that log users in, register them, verify and change their
--     email and change their password, with CheckPasswordResetToken of system/controller.go. Queries has
--     the SQL statements of models/user.go, helpers/auth.go and system/sqlstore.go, Requests the handlers
--     as chains of steps from one call to the next, and Routes the routes of server.go to them. Rules,
--     Keys, Rows and Reliable carry facts of the tables through a chain; Welcome follows a new user.
--   AdminTickets: AdminTicketsPost of controllers/main.go, over Client and the table LowFeeTicket.
--   Addresses: AddressPost of controllers/main.go with UpdateUserByID of models/user.go, over Client and the
--     tables of Accounts.
--   Sessions: the store of sessions, system/sqlstore.go, over the tables of Accounts.
--   VoteBits: the rules of controllers/main.go for vote bits and for their reset.
--   Semver: semverCompatible of stakepooldclient/semver.go, which backend/stakepoold/semver.go
--     repeats.
--   Shared: results, maps and list functions.
--
-- How code is modelled:
--   A hash is the number that its 32 bytes write; an int64 is its bit pattern, with sums modulo
--   2^64.
--   A Go map is an association list, and a range over it goes in the order of the list, which is
--   arbitrary. IsMap says that no key is listed twice. A panic is `none` and an error is `err`, with
--   a text that leaves out interpolated values. Logging, durations and contexts are left out.
--   A handler of stakepoold that first looks tickets up and then writes under the lock is two
--   functions, since other handlers may run between the two. What the lookups return is gathered in
--   the order of the tickets, as the handler waits for all of them.
--   dcrd, dcrwallet, the transaction rules, chainhash, hex, bcrypt, hdkeychain, the mail server and the
--   database are parameters. Accounts takes a statement of SQL as a function of tables that are lists of
--   rows; the database may carry it out or fail, and the equality of texts is its own. The time, random
--   bytes and the address of the client come with a request.
--   The front end serves its requests concurrently, without transactions and without a unique index on
--   Email. A handler of Accounts is one run here, and Routes serves one request after another: what two
--   requests do whose statements alternate is not modelled. RegisterPost and EmailUpdate test an email
--   and write it in two statements, so that two of them at once can give one email to two users. A
--   row that is selected and written back has its other columns as they were selected.
--   In stakepoold the goroutines of processNewTickets and of processSpentMissedTickets read the
--   configuration of the users after the handler has released its lock, so each ticket is looked up in
--   a configuration of its own. ProcessWinningTickets is followed up to the end of its votes and in its
--   counts: the transaction id that its log takes from the text of a duplicate vote's error is left out.
--   Loops are structural recursion, but for deriveChildAddresses, which runs on fuel: one round for each
--   index and one for the test at the end are enough unless a child key is invalid.
--
-- Not modelled: the generated gRPC code, the start of the two programs and their settings, the
-- channel loops around the handlers, the reading and writing of the saved maps of stakepoold, the
-- reconnection of its clients, the ticket, voting and status pages of the front end and its API but
-- for the parts above, the rendering of pages, cookies and the middleware, the texts of emails, and
-- the text of log lines.
pub mod Shared
pub mod Stakepoold
pub mod Rpc
pub mod Client
pub mod Cluster
pub mod Wallet
pub mod Accounts
pub mod AdminTickets
pub mod Addresses
pub mod Sessions
pub mod VoteBits
pub mod Semver
