-- ===== src/Lib.antt =====
-- BloodTrail: an in-memory graph engine beneath BloodHound CE, kept in step with PostgreSQL.
--
-- The engine (internal/engine) holds a replica of the graph and answers shortest-path, structural
-- and Cypher reads from it, or delegates to PostgreSQL. Writes go to PostgreSQL first; each bumps a
-- counter there before it takes effect, and the engine layers the rows it touched onto the
-- replica. This library models the parts whose correctness the serving decision rests on, one
-- module for each, from the sources named at the head of each file.
--
-- - Prelude: shared names, Boolean tests, lists over native numbers, the standard library's
--   `sort.Search` and `sort.Slice`, 64-bit wrap-around, single bits of a word, maps as association
--   lists.
-- - Watermark: internal/engine/watermark.go. `Ledger` is watermarkLedger (resolve, rebase,
--   resolvedThrough, insertLocked, advanceLocked); its children prove it against the set of values
--   that a history of calls accounts for. `Trust` is the three generations of watermark failures,
--   with the convergence reading and the decision whether to trust the counter; `Steps` runs them
--   under any interleaving of writes, loads and adoptions. `Refusal` is fileRefusal, `Abandoned` is
--   ResolveAbandonedWrite.
-- - BootGap: internal/engine/bootgap.go. `Cover` is bootGapCoveredAt, `Buffer` is bootGapBuffer.
-- - Changes: internal/engine/changes.go (ChangeSet and its Record methods) and changes_scope.go
--   (WriteScope), which Watermark and BootGap use.
-- - Snapshot: internal/engine/snapshot. `Bitset` is Bitset and KindMask of bitset.go; `Store`
--   is the arrays of a Snapshot and of its PropStore, their readers, and the structural check of
--   validate.go; `EdgeKinds` is the merging of edgekindindex.go, `KindTable` is
--   kinds.go.
-- - Interpret: internal/engine/interpret/value.go. `Tri` is three-valued logic, `Like` the parsing
--   of LIKE patterns.
-- - Recovery: the decisions of internal/engine/compact.go (segmentsAfter, the threshold) and of
--   apply.go (relaunchAfterAdoption).
-- - Traverse: internal/engine/traverse. `Scratch` is the epoch-stamped distance buffer of
--   traverse.go, `Adjacency` the neighbour access of bfs.go over an abstract overlay view, `Bfs` is
--   bfsFrom. `Sink` is pathSink of pathsink.go, `Budget` is memBudget, shortestLevel and pathCap.
--   `Machine` is the explicit stack that enumerate (`Enumerate`) and pairEnumerate (`Pair`) walk
--   on; `Pair` is also pairShortest, the search from both ends. `Query` is Endpoint, Query and
--   SelfEndpointConflict, `Strategy` is strategyPairs, strategySmallSide, its merges and
--   AllShortestPaths, which call all of these. `Samples` is a view for the tests.
--
-- Integers: counters are uint64 with their wrap-around written out (`inc64`); they come from a
-- PostgreSQL bigint column, so the theorems ask for values up to `bigint_bound`. Distances are
-- int8 bit patterns, and searches are bounded by 127 hops, which AllShortestPaths enforces. The
-- epoch of a distance buffer is a uint32 that wraps. Kind ids are int16, so signed. Lengths and
-- indices are plain numbers: no slice comes near the range of an int.
--
-- Loops are recursions on the list they range over. `sort.Search` runs on as many rounds as there
-- are indices, and each round halves the range, so the rounds never run out; bfsFrom runs on
-- maxDepth rounds, its own bound, and so does pairShortest, which takes a level in each round. The
-- walk on an explicit stack has fuel: `steps` counts the rounds it takes, and `tree` bounds them by
-- the height of the walk and the degree of the view.
--
-- A mutex makes each of its methods one step, so such a method is a function from a state to the
-- next. The read of `active` before the lock of the boot gap buffer is part of that step, so a
-- write that passes it while the buffer is taken is not modelled. The buffers of a path query are
-- new ones of the length of the view, where the code takes a longer one from its pool. An index
-- out of range panics in Go: reads have a default in the model that the theorems never reach,
-- since they ask for nodes in range. A map is an association list, its nil value the empty one,
-- and a string is its bytes. A merge of two lists runs on their lengths together, since each round
-- takes an item.
--
-- Not modelled: what talks to PostgreSQL, Docker or the file system; the dawgs library and its
-- translator; logging, memory estimates and rate limits; the Cypher planner and executor and
-- the builder-query recogniser, which are the largest parts that are left.
pub mod Prelude
pub mod Watermark
pub mod BootGap
pub mod Changes
pub mod Interpret
pub mod Recovery
pub mod Snapshot
pub mod Traverse
