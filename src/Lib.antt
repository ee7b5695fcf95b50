-- ===== src/Lib.antt =====
-- Cereblix: a model of the node of the Cereblix chain, a CPU-mined account chain in Go, and proofs
-- about it.
--
-- The program. The consensus engine is core/chain.go: a chain of blocks, the account state that
-- they give, totals and an index by address, a mempool, and the operations AddBlock, TryAdoptChain,
-- AddTx and BuildTemplate. It reads blocks and transactions as core/types.go defines them, decides
-- rules that activate by votes with core/upgrade.go, takes signed checkpoints (core/checkpoint.go),
-- and stores blocks with core/bbolt_store.go. Proof of work is neuromorph/neuromorph.go. Around it
-- stand the node that syncs it with its peers (node/node.go), the daemon (cmd/cereblixd), the stratum
-- bridge (cmd/cereblix-stratum), miners and wallets.
--
-- The files. Prelude holds what the others share: lists, bytes and text, uint64 arithmetic, maps, and
-- the monads of errors and of writes with errors.
--   Types      core/types.go: parameters, transactions, blocks, genesis; Types.Emission sums the
--              subsidies.
--   Ledger     the state of core/chain.go: validateTxAgainstState, applyBlockToState, maturity;
--              Ledger.Totals has the lifetime totals, Ledger.Supply the sum of the balances.
--   Consensus  core/upgrade.go, and the targets, the median time, the epoch seed and the fee rules of
--              core/chain.go.
--   Chain      the engine: Caches (the memo fields), Validate (validateBlock), Record (the fields),
--              Pool and Admit (the mempool), Open (start-up), Choice and Adopt (AddBlock and
--              TryAdoptChain), Finality (checkpoints and the anchor), Preverify (the work done outside
--              the lock), Template (BuildTemplate), Views. Chain.History says which block lists are
--              valid, Chain.Reach which chains a node can reach.
--   Store      the keys, rows and writes of core/bbolt_store.go.
--   Neuromorph the epoch parameters and the program of neuromorph/neuromorph.go; Neuromorph.Machine
--              is the state of its VM, Neuromorph.Vm an instruction, a pass and Hash.
--   Node       node/node.go: the peers and their health, the decision on an announced tip, the search
--              for the common ancestor, and syncWithPeer with all its rounds.
--   Stratum    the share targets of cmd/cereblix-stratum/solodiff.go.
--   Boot       cmd/cereblixd/selfheal.go and update.go: decideBoot and bootGuard with the markers on
--              disk, the comparison of versions, and the installation of an update.
--   Wallet     desktop/store.go: the key store of the desktop wallet, its lock and its file.
--   Tests      concrete runs, and each theorem at a concrete input.
--
-- How the code is read. Go's uint64 is a number below 2 ^ 64, with the wrap-around written out; big
-- integers and slice lengths are plain numbers. A map is an association list, and Go's random order
-- of a range is the order of the list. A method that writes and may fail is a function from the
-- object to a result and the object, which keeps what was written before the error. Locks are held
-- over each operation, so an operation is one step. The commit of an adoption to disk comes after the
-- change in memory; its outcome is a Boolean argument. Callbacks are a list of the blocks announced. An
-- account that State.get enters when it reads an address without one is kept beside the state, in the
-- field `touched`. A panic at start-up is an error of its own.
--
-- Parameters. SHA-256, ed25519, the NeuroMorph hash, the epoch seed of epoch 0, the genesis hash that
-- signatures commit to, and float64 arithmetic are the fields of Crypto; AES is an argument of the
-- program generator, and the vault of the wallet is a record of its ciphers and of JSON. The theorems
-- assume of them what they list. The clock is an argument.
--
-- Loops. They are recursions on the lists they walk. Decimal printing has 20 rounds, enough for every
-- uint64; the search for an activation height has one round for each height that is left; the
-- template loop has as many rounds as a block has room. A pass of the VM over n instructions has
-- 257 n + 1 rounds, the search for the common ancestor hi + 2, and the batches of a sync the height of
-- the tip + 2. A peer and the system are arguments: what the peer answers to each request, and which
-- steps on files succeed.
--
-- Not modelled. The dataset and float64 inside the VM, the database and the JSON forms, the start-up
-- from the database, the paging of History, the HTTP handlers with their limits, the work templates
-- and the watchdog of the node, downloads, the stratum protocol, the command-line wallet, the miner,
-- user interfaces and process control.
pub mod Prelude
pub mod Types
pub mod Ledger
pub mod Consensus
pub mod Chain
pub mod Neuromorph
pub mod Node
pub mod Stratum
pub mod Store
pub mod Boot
pub mod Wallet
pub mod Tests
