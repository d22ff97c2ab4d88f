-- ===== src/Lib.antt =====
-- AGI-DB on chain: the Go engine of the repository, an append-only block database with Merkle roots,
-- modelled as functions, and what is proved of them.
--
-- The program. A client commits transactions, lists of operations that set or delete keys. The engine
-- (engine/internal/engine/engine.go) drops the operations that would change nothing, makes a block of
-- the others whose header carries the hash of the block before it and the Merkle roots of the state
-- after it, writes it to a write-ahead log and to a segment file, and applies it to the state that it
-- keeps in memory, with the versions of every key. Opening a database reads the blocks back, checks
-- each against its header and applies it, then replays the write-ahead log. The parts and their files:
--
--   Base, Go        what the others share: byte strings, lists over the native numbers, Boolean tests;
--                   Go's maps (an association list; `Go/IntMaps` for integer keys, in ascending order,
--                   as the program sorts them), sorting and searching of strings, hexadecimal, nil and
--                   empty slices, directories with the system calls that write a file
--                   (`Go/Directory`), and the parameters for SHA-256 and for the text of JSON
--   Model           engine/internal/model/model.go: the records, a field for each; `Model/ToJson` is
--                   the tree that the JSON tags make of an operation, a transaction and a block
--   Merkle          engine/internal/merkle/merkle.go: Root, PrefixRoot, StateRoot, StateProof,
--                   VerifyProof, one function each and one for each inner loop
--   Result          the errors, and results that are a value or an error
--   Storage         engine/internal/storage/files.go: frame and readFrame (`Storage/Framing`), the
--                   segments, their recovery, appends, reads and the write-ahead log
--                   (`Storage/Segments`), an append whose write fails (`Storage/Failures`, with what
--                   comes after it in `Storage/Losses`), the snapshots
--                   (`Storage/Snapshots`), the counts (`Storage/Counting`); `files_store` is the
--                   storage as the engine uses it
--   Engine          engine/internal/engine/engine.go: the struct, an operation's change of the
--                   state and the filter of Commit;
--                   `Engine/Committing` is Commit, `Engine/Loading` is applyLoaded, Open and Verify,
--                   `Engine/Reading` the reads, `Engine/Snapshots` Snapshot and VerifySnapshot,
--                   `Engine/Batches` CommitOperations, `Engine/Executions` CommitExecution and
--                   QueryLogs, `Engine/Puts` the methods whose names begin with Put,
--                   `Engine/Fields` ValidateFieldValue, `Engine/Status` Status; the other children
--                   hold the proofs
--   Enterprise      engine/internal/enterprise/enterprise.go over the files below a directory
--                   (`Enterprise/Files`): the policy (`Enterprise/Policies`), the test cluster
--                   (`Enterprise/Cluster`), Backup, VerifyBackup and RestoreBackup
--                   (`Enterprise/Backups`), PruneFiles (`Enterprise/Retention`), Compact
--                   (`Enterprise/Compaction`)
--   Server          engine/internal/server/server.go: `serve` is the handler that Handler returns, made
--                   of the routes, the authorisation and a function for each method; a server's life in
--                   `Server/Visits` is a database that is opened and requests that are answered
--   Cli             engine/internal/cli/cli.go and engine/cmd/agidb/main.go: the words of the command
--                   line (`Cli/Words`), the commands on a database (`Cli/Databases`, with what they do
--                   while it is open in `Cli/Bodies`), those on the files of a cluster
--                   (`Cli/Clusters`)
--   Examples        tests, and the theorems applied at concrete inputs
--
-- The engine is a function of the storage's interface, the record `Store F` over a type `F` of open
-- files: it passes files on explicitly, and each write returns the files after it with its error, so
-- that what is proved of the engine holds whichever of its writes fail. `LogStore` of
-- `Engine/Opening` adds the laws of a store that holds a log of blocks, which `Storage/LogFiles` is about
-- for the files. A method of the engine holds its mutex from its start to its end, and is one step; a
-- session is a sequence of such steps. A handler of the server makes one call of the engine, and a
-- command of the CLI opens the database, makes its calls and closes it.
--
-- Parameters, for code that is not in the repository: SHA-256 with digests of 32 bytes (`Go/Sha256`),
-- the printer of encoding/json (`Go/Json`), and in `Storage/Codec` CRC-32C below 2 ^ 32, zlib, whose
-- reader gives back what its writer compressed, and gob, which reads back the block that it wrote but
-- for empty slices, which it does not transmit. In `Enterprise/Backups` they are AES-GCM, which opens
-- what it sealed, and the zip archive, which lists the files that were written to it; in
-- `Enterprise/Policies` and `Enterprise/Cluster` the JSON of a policy and of a cluster; in `Server` the
-- JSON of a request; in `Cli` the JSON that the commands read, and the files and the clock of the
-- host; in `Storage/Snapshots` the directory of the snapshots and the files of the host outside it.
-- `Counts` of `Engine/Status` is what a storage counts. The routes are matched as net/http does from Go
-- 1.22 on, for the patterns that the server registers. Nothing assumes that digests do not
-- collide: where a theorem needs it, a collision is one of its outcomes. Clocks, random ids and random
-- bytes are arguments of what asks for them (Commit, CommitOperations, Backup, the handlers), and a time
-- is a number of nanoseconds.
--
-- Orders. Go leaves the order of an iteration over a map open; here it is the order of the map's list,
-- which a caller chooses. PruneFiles goes through a map of two directories, and takes a flag for which of
-- them comes first. filepath.Walk comes to the files of a directory in the order of their list.
-- `TrimSpace` and `ToLower` are those of ASCII.
--
-- Numbers. A `uint64` or `uint32` that the program computes has its wrap-around written out (`u64`,
-- `% 2 ^ 32`); lengths of slices and sizes of files, which are `int`, are unbounded. The
-- numbers that the command line and a simulation of a quorum take are integers, which can be negative.
--
-- Fuel. The loop over the levels of a Merkle tree takes the number of leaves as fuel; each round halves
-- the level. The loop of recovery over a segment takes the length of the file and one; each frame that
-- is read is at least sixteen bytes long. CommitOperations takes the number of operations, as each batch
-- has at least one.
--
-- Not modelled: system calls that fail where the storage or the enterprise functions make them, other
-- than the write and the sync of AppendBlock, and those of a restore that files in the way make fail,
-- though the engine meets an error of each write of its store; symbolic links; of the enterprise
-- functions, BootstrapReplica, MigrationReport, Unlock and the renames at the end of Compact; the
-- commands of the CLI that call these and those for backups; the text that the CLI prints; the HTTP
-- library, but for its routes; the client in npm/, which is TypeScript.
pub mod Base
pub mod Go
pub mod Model
pub mod Merkle
pub mod Result
pub mod Storage
pub mod Engine
pub mod Server
pub mod Enterprise
pub mod Cli
mod Examples
