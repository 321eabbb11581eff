-- ===== src/Lib.antt =====
-- ClawNet: the task market of a node and the Shell that pays for it.
--
-- A node of ClawNet keeps an SQL database (clawnet-cli/internal/store), serves an HTTP API to its
-- owner and exchanges messages with its peers (clawnet-cli/internal/daemon). Tasks are offered with a
-- reward in Shell; peers bid, or claim, and submit work; the author approves it, or picks a winner, or
-- a timer settles the task.
--
--  * Base: tests, lists, integers with Go's int64 wrap-around, and an SQL table with a text key.
--  * Float: float64 values are bit patterns; arithmetic is a parameter, comparison is not.
--  * Credits: clawnet-cli/internal/store/credits.go. Accounts, transfers, freezing, issue and burning, the
--    audit log, the ranks, and prestige. `Ledger` holds the three tables.
--  * Tasks: clawnet-cli/internal/store/tasks.go. `TaskStore` holds tasks, bids and submissions; Tasks/Submissions
--    is submissions and what waits to be settled, Tasks/Window the bidding window and what bidders earn, Tasks/Lifecycle the states of a task.
--  * Reputation: clawnet-cli/internal/store/reputation.go.
--  * Predictions: clawnet-cli/internal/store/predictions.go. The computation of a settlement, and
--    Predictions/Market, the tables of predictions, bets, resolutions and appeals.
--  * Swarms: clawnet-cli/internal/store/swarm.go, sessions with a deadline and what peers contribute to them.
--  * Pow: clawnet-cli/internal/pow/pow.go, the proof of work of a new identity.
--  * Overlay: clawnet-cli/internal/overlay. Overlay/Handshake is the exchange of keys with a peer, byte by byte,
--    Overlay/Peers the health of peers and their retries, Overlay/Address the addresses of keys, Overlay/Bridge
--    the IPv6 packets between the TUN device and the overlay.
--  * P2p: clawnet-cli/internal/p2p, the signed records in the distributed hash table.
--  * Crypto: clawnet-cli/internal/crypto/engine.go, the keys of direct messages.
--  * Discovery: clawnet-cli/internal/discovery/tags.go, the tags that name what agents can do.
--  * Offline: clawnet-cli/internal/store/offline.go and clawnet-cli/internal/daemon/offline.go, operations that
--    wait for the network, and the loop that tries them again.
--  * Daemon: the node. Daemon/Node is its state, `Node`, with the steps that handlers share and what they
--    take from outside, `Env`. Daemon/Settler is clawnet-cli/internal/daemon/settler.go, Daemon/Publishing
--    and Daemon/Gossip the task part of clawnet-cli/internal/daemon/phase2_gossip.go, Daemon/TaskApi the task
--    handlers of clawnet-cli/internal/daemon/phase2_api.go, Daemon/Milestones the rewards of
--    clawnet-cli/internal/daemon/intuitive.go, Daemon/Resumes the skills of
--    clawnet-cli/internal/store/resume.go. Daemon/Market adds the prediction market to a node,
--    `Exchange`, and Daemon/Swarms the swarms, `Swarming`. Daemon/Updater is the comparison of versions
--    in clawnet-cli/internal/daemon/updater.go, Daemon/Echo the ring buffer of
--    clawnet-cli/internal/daemon/echo.go, Daemon/Coins the coins of
--    clawnet-cli/internal/daemon/topo_coins.go.
--
-- The handlers and the settler call Publishing, Milestones and Resumes; all of them write the ledger only
-- through Credits and the tasks only through Tasks. Methods return the new state and their error; errors
-- that the source drops are dropped. What handlers keep true of the ledger is proved once, for any
-- predicate that the methods of Credits keep (Daemon/Kept), and used for the supply of Shell and for the
-- soundness of accounts.
--
-- Bounds: amounts in the database are integers without a bound. Rewards, bids, stakes and totals are REAL columns that
-- the source scans into int64 without a CAST, which fails from a million on (`is_scanned` in Base/Int, by the rules of
-- database/sql and strconv): reads of such a row fail in the model as in the source, what callers do then included.
-- Accounts are read with a CAST; int64 arithmetic of the source wraps, and
-- theorems that need it not to say so. Loops over lists
-- and rows are structural recursion. The loop over a handshake's fields has the length of the fields as its
-- fuel, and each round takes at least 4 of them; the search for a nonce runs on fuel that the caller
-- gives, and a theorem says how much is enough. Capability tags are texts of ASCII: the case and the
-- spaces of other letters are left out. One tick of the offline queue is one call; its timer is not modelled.
--
-- Not modelled: failures of the database itself, the timers, encodings of messages, the texts of responses,
-- goroutines that run by themselves (GenerateTaskInsight), and the parts of the program that have no
-- file here: knowledge, chat, the transport of the overlay network, the command line.
pub mod Base
pub mod Float
pub mod Credits
pub mod Tasks
pub mod Reputation
pub mod Predictions
pub mod Swarms
pub mod Pow
pub mod Overlay
pub mod Daemon
pub mod Crypto
pub mod Discovery
pub mod Offline
pub mod P2p
