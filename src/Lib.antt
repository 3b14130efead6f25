-- ===== src/Lib.antt =====
-- Verification library of miniGPT: the serving engine, and the pool of fixed-size K/V blocks that
-- its requests share.
--
-- The pool (src/minigpt/paged_kv_cache.py, with the cache record of src/minigpt/layers.py). A
-- `PagedKVCachePool` owns tensors that are cut into blocks, a heap of free block identifiers, a
-- record for each block, a table for each request, and an index from prefix hashes to shared
-- blocks. A request reserves blocks, allocates them while it writes its cache, grows its
-- reservation, and lets everything go at its end. Shared blocks without references stay in the
-- prefix cache until the allocator evicts them.
--
-- The engine (src/minigpt/serving.py). A `ServingEngine` keeps the state of each submitted request,
-- a queue of waiting requests and a list of active ones. A tick applies cancellations, admits
-- requests in the order of the queue within the limits on requests and cached tokens, asks the
-- executor for prefills and decodes, writes the results to the pool where there is one, and appends
-- tokens. With chunks it selects prefill chunks and decodes within a budget of tokens, grows
-- reservations before an operation, and preempts under pressure. Every transition logs an event.
--
-- Files:
--   Prelude        Boolean tests on the native numbers, lists, sums over blocks (Tally), integers
--   Dict           a Python dict, by the list of its items in the order of insertion
--   Exec           methods that may raise; what was written before a raise stays written
--   PagedKvCache/
--     Types        the data types: configuration, block and table records, counters, the pool
--     Blocks       `_private_count`, `_shared_count`, `_protected_blocks`, heappush
--     Allocator    `_evict_one`, `_acquire_blocks`, `_return_blocks`, `_release_table_blocks`
--     Checks       `verify_invariants`, `_update_peaks`
--     Reservation  `required_blocks`, `can_reserve`, `reserve`, `can_grow_reservation`,
--                  `grow_reservation`
--     Storage      `_validate_cache`, `_write_cache`, `_write_token`, the loops of `materialize`
--     Requests     `write_prefill`, `append`, `append_delta`, `materialize`, `release`,
--                  `release_all`, `take_recent_evictions`
--     Construct    `__init__`
--     Prefix       the prefix cache: `prefix_hash_chain`, `_longest_prefix`, `reserve_with_prefix`
--     Accounts     books of the blocks: what heap, records and index owe to the references that
--                  tables, or the operation at work, hold
--     Soundness    the invariant of the whole pool, and the operations on it
--     Rebuild      `write_prefill_suffix`, `rebuild` with its rollback
--     Prefix/Promote  `promote_prompt_blocks` with its rollback
--     Tests        runs on small pools
--   Serving/
--     Types        the data types and their `__post_init__`
--     Valid        a predicate for sound scheduler configurations
--     Construct    `__init__`, `_validate_chunked_engine`
--     State        queues, `_emit`, `_update_peaks`, `submit`, `_remove_live_state`,
--                  `_finish_state`, `_fail_state`
--     Admission    `cancel`, `_apply_cancellations`, `_admit`, `_waiting_head_needs_kv`
--     Execute      the executor's interface, `_apply_result`
--     Commit       `_commit_paged_result`, `_execute`
--     Pressure     `_ensure_operation_reservation`, `_preempt_state` and what leads to it
--     Chunks       `_select_chunked_prefill`, `_select_chunked_decode`
--     Tick         `tick`, `_tick_chunked`, `_execute_recompute`, `_execute_prefill_chunks`,
--                  `run_until_idle`, `release_all_cache_resources`
--     Chunks/Length, Chunks/Selection, Chunks/Bounds   the prefill chunks that are selected
--     Chunks/Tables, Chunks/Growth, Chunks/Charges     the decodes that are selected, and their work
--     Live         the invariant of a dense engine, and the operations on it, up to the sequences
--                  of calls (Live/Reach) from a constructed engine (Live/Begin)
--     Tests        runs of a small engine
--
-- How the code is read. A pool is a record, and an operation takes it and gives a result or an
-- error beside the pool that is left. A tensor is a function from layer, block and offset to a row,
-- of a type `T` that stands for torch's slices; the pool only copies rows. The heap is kept as the
-- ascending list of its elements, so that popping takes the head. The pool is indexed by natural
-- numbers; an identifier past its end raises `IndexError`. `_tables` is keyed by the request's
-- identifier, which is therefore not repeated in the table. The engine is a record as well; a
-- request's object is the entry of `_states`, which a mutation writes back. Seconds are integers, of
-- a unit that divides every time in use, and ratios are fractions. The texts of events and failures
-- are a data type of what they say. An executor is a record of functions from the states that it is
-- given to results or an exception, with no memory of its own; ticks may each have another one.
--
-- Fuel. The loop of `_acquire_blocks` around `_evict_one`, and that of `release_all`, get one round
-- for each block of the pool and one more. Every round but the last evicts a block, and there are
-- at most as many evictable blocks as blocks, so the fuel never runs out. The loop of `_admit` gets a
-- round for each waiting request: every round but the last takes one from the queue, and admission
-- puts none in. `run_until_idle` has its own bound, `max_ticks`.
--
-- Not modelled: the texts of error reasons, the tests that reject a bool given for an int, faults of
-- torch during a write, memory addresses (`materialize` clones, so it aliases nothing),
-- `request_view`, the records of metrics, the random generators of requests, and what the executors
-- (`ReferenceExecutor`, `PagedAttentionExecutor`) compute with the torch model; the counts of work
-- of the latter are in Pressure. What json and hashlib compute is a parameter, the record `Hashing` of Prefix.
pub mod Prelude
pub mod Dict
pub mod Exec
pub mod PagedKvCache
pub mod Serving
