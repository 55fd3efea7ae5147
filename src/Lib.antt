-- ===== src/Lib.antt =====
-- A model of rsm, a Raft implementation without threads and without a clock, and what holds of it.
--
-- A node is a state machine: `step` takes a message, `tick` the time, `propose` a command, and each
-- returns the node and the messages to send. A model of such a method is a function that returns
-- both, in a `Result` where the code may raise. Nothing in the package catches an error inside an
-- operation, so the state behind a raise is not kept. A Python list is a list, a dict an
--   association
-- list, a set a list without repetition. Names of nodes, keys and values are only compared or
--   copied,
-- so they are numbers, as are terms, indices and ticks, none of which is ever negative.
--
-- Prelude, Errors: shared names, tests, lists, dicts; rsm/errors.py and the results of code that
--   may raise.
-- Log (rsm/log.py): `Entry`, `Log` and its methods under their own names. Log/Shape is the
--   invariant of `Log.__post_init__`, Log/Access the methods that read, Log/Change those that
--   write, Log/Order the election restriction, Log/Agree `agree_up_to`, Log/Reconcile the two
--   reconciliations, whose second loop runs for a given number of rounds since it may not end.
-- Rpc (rsm/rpc.py): the six kinds of message as constructors of `Body`, and the term check.
-- Node (rsm/node.py): Node/State has the record and its timer, Node/Roles standing for election,
--   taking office, proposing and the clock, Node/Replicate what a leader sends, Node/Commit
--   committing and applying, Node/Follower the handlers that answer, Node/Leader those that take
--   answers, Node/Step the entry for messages. A method `_on_append` is `on_append` here,
--   `_conflict` is `conflict`, and so on. Node/Frame, Node/Election, Node/Entries, Node/Append,
--   Node/Committing and Node/Raises are proofs.
-- Net (rsm/net.py): `Network` with its conditions and counts. Net/Kept is its invariant,
--   Net/Ledger what becomes of each message, Net/Delivery what is handed over and when, Net/Sides
--   partitions.
-- Wire (rsm/wire.py): Wire/Fields has the writers `_put_…` and readers `_get_…`, Wire/Frames the
--   frames and streams of them; Wire/Places is about bytes at a place, Wire/FieldTrip,
--   Wire/ValueTrip, Wire/RoundTrip and Wire/Stream follow what was written through the readers.
--   Python's codec of texts is a parameter, `Text`, and `IsText` what is asked of it. A decoded
--   message is shown as its fields, since a frame may carry integers that no message of the
--   package has.
-- Machine (rsm/machine.py): commands and the machine that applies them; `int` of a text and the
--   global generator are a parameter, `Python`. Machine/Replay compares replicas.
-- Client (rsm/client.py): `Request` and `Sessions`; Client/Once follows retries.
-- History (rsm/verify/history.py): `Operation` and `History`; an operation carries the identity of its
--   object, by which `complete` and the checker know it. The identity of a new object is an argument of
--   `call`; that it is no other's is a hypothesis on the histories that clients make.
-- Linearize (rsm/verify/linearize.py): `check` with its search. The depth of `walk` is the number of
--   operations that remain, so no call of it is cut short. `repr`, of which a digest is made, is a
--   parameter. Linearize/Orders says what linearizable means; Linearize/Sound, Linearize/Complete,
--   Linearize/Rejects and Linearize/Cost follow the search, Linearize/Digests and Linearize/Alike its
--   memory, Linearize/Verdicts and Linearize/Raising the answers, Linearize/Recorded the histories that
--   clients make.
-- Snapshot (rsm/snapshot.py): `take`, `compact` and `restore`; Snapshot/Keep compares a log before
--   and after.
-- Membership (rsm/membership.py): `Configuration` and the search for majorities that are apart;
--   Membership/Majorities and Membership/Changes are about quorums during a change,
--   Membership/Search about the search. A set of votes is a list.
-- Learner (rsm/learner.py): `Roster`; Learner/Roles is about promotion.
-- Persist (rsm/persist.py): `Disk`; Persist/Crash is about a node before and after a crash.
-- Watch (rsm/watch.py): `Event`, `Watcher` and `Feed`. A feed owns its watchers here; Watch/Resume
--   hands events to one watcher, Watch/Ordered to those of a feed.
-- Expire (rsm/expire.py): `Lease` and `Store`; Expire/Replicas runs entries and clocks through
--   replicas.
-- Keyspace (rsm/keyspace.py): `Keyspace`, with the hash behind `digest` as a parameter;
--   Keyspace/Spread counts keys.
-- Rebalance (rsm/rebalance.py): `Move`; Rebalance/Phases follows one from its start to its end.
-- Repair (rsm/repair.py): `probe` and the strategies `walk`, `skip`, `bisect` and `hybrid`. A probe is
--   handled by the model of the follower, which is returned changed. An index that may be -1 is kept
--   plus one, as `left` and `top`. Repair/Probes is about one probe, Repair/Walks, Repair/Halves and
--   Repair/Skips about the searches, Repair/Trips about the reconciliations of rsm/log.py,
--   Repair/Terms about terms along a log. Node/Committing/Unchecked is about what an accepted probe
--   may commit, and so apply.
-- Quorum (rsm/quorum.py): Quorum/Overlap has the pigeonhole fact that two majorities share a
--   member, Quorum/Rules `Rule` and its arithmetic; Quorum/Search the search for quorums that are
--   apart, which Quorum/Meet and Quorum/Apart follow; the name of a rule, for printing, is left
--   out.
-- Cluster (rsm/cluster.py): the driver over the network. `advance` is `tick` up to its observers, and
--   Cluster/Ticks the whole `tick` with `elections`, `history` and the three checks of `verify`, and
--   what a caller asks: `settle`, `committed`, `agreed`. Cluster/Restart is the node that a restart
--   makes, Cluster/Simulation, Cluster/Operations and Cluster/Runs lead every run of it back to
--   System, Cluster/Verify, Cluster/Logs and Cluster/Checks are about the checks.
-- System: nodes of one cluster under every schedule. Whatever rsm/net.py loses, delays, reorders
--   or keeps apart is such a schedule, since a message that was sent may be delivered at any time,
--   more than once, or never. System/Kept and System/Safety follow the votes, System/Entries and
--   System/Matching who wrote which entry.
-- Tests: runs at concrete values.
--
-- `random.Random` is not part of the program. A node carries its generator as a function from the
-- number of draws made so far and the bounds to a value; where a theorem needs that `randint`
-- keeps to its bounds, `InRange` is a hypothesis of it. A cluster has a generator for each seed and
-- name of a node, as the seed of a node's generator has both.
--
-- A command is an object that can be hashed, and the keys of a state are texts, for which `str` gives
-- the text itself: the set of commands in `verify` is always made, and Wire writes a key as it is.
--
-- The loop of `read_all` has a round for each byte of its buffer, more than its frames can need.
--
-- A `for` over a range and a `while` that counts are recursions on the number of rounds left, so no
-- fuel is needed: `apply_rounds` makes `commit_index - last_applied` rounds, `scan_commit` goes down
-- from the last index to the one above `commit_index`, `run_start` and `find_term` down to the first
-- index of the log.
--
-- Not modelled: the measurements that end each module, which are runs of the code; printing; and the
-- modules that measure clusters from outside.
pub mod Prelude
pub mod Errors
pub mod Log
pub mod Rpc
pub mod Net
pub mod Wire
pub mod Machine
pub mod Client
pub mod Snapshot
pub mod Membership
pub mod Learner
pub mod Persist
pub mod Watch
pub mod Expire
pub mod History
pub mod Linearize
pub mod Keyspace
pub mod Rebalance
pub mod Repair
pub mod Node
pub mod Quorum
pub mod Cluster
pub mod System
mod Tests
