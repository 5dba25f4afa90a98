-- ===== src/Lib.antt =====
-- FrankenMoE-CUDA: a verification library of the runtime in runtime/core, which runs mixture-of-experts
-- language models whose expert weights do not fit in memory: they are read from the model file when a
-- layer's router asks for them, and kept in a bounded cache.
--
-- The parts and how they interact. A session (runtime/core/src/engine/session.cpp) starts from a configuration that
-- `validate` accepts. At each layer the router hook
-- (runtime/core/src/moe/router_hook.cpp) hands the routed expert ids
-- to `load_layer` of the expert source, which first integrates what the speculative lanes have read,
-- then looks every expert up in the cache, reads the missing ones through the file readers, and evicts
-- cold entries down to the budget. A deterministic workload records the routings and tokens of a run,
-- or replays them in another. With speculation on, the n-gram source or
-- the model's draft head proposes tokens, and the session confirms those that the rows of its verify batch say.
--
-- Which file models which part (with its source):
--   Prelude     lists, maps as functions, and signed integers over the native numbers.
--   Lru         runtime/core/src/moe/expert_stream_source.cpp, lru_unlink, lru_push_front and lru_push_back: the
--               doubly linked recency list in cprev_, cnext_, chead_ and ctail_. Refine relates it to
--               the list of its entries, most recent first.
--   Expert      runtime/core/src/moe/expert_stream_source.h and .cpp. Layout has the model's shape, State the cache
--               fields (cvalid_, cspec_, cstamp_, cresident_, cache_max_, cgen_ and the counters),
--               Entries the operations on an entry (commit_proj_pages, release_entry_pages, evict_tail,
--               touch_entry, retain, query_residency), Spec the speculative queue (prefetch, the two
--               critical sections of drain_spec, quiesce_spec), Load load_layer with overlap off,
--               account_demand and set_cache_budget. Invariant is well-formedness: the entries on the
--               list are those valid, and cresident_ is the sum of their sizes. Pages, Evict, Touch, Retain,
--               Settle, Staged, Batch, Loaded, Progress and Budget hold the proofs, named for what they are about.
--   Stall       runtime/core/src/moe/stall_union.h: the time during which some thread is stalled, against a
--               definition on the trace of the calls.
--   Ngram       runtime/core/src/engine/ngram_draft.cpp: the inner loop in Suffix, the scan in Best, the function in
--               Drafts.
--   Config      runtime/core/include/bmoe/config.h and runtime/core/src/config.cpp: the types, validate() as the sequence of its
--               checks in Checks, what an accepted configuration satisfies in Accepted. Float has the
--               comparisons of binary32 numbers on their bits.
--   Workload    runtime/core/src/moe/deterministic_workload.h and .cpp: every call in Workload, a run's calls in Run,
--               replays in Steps, Grows and Replay, and the file, byte by byte, in Text, Digits, Format,
--               RoundTrip and Saved.
--   Reader      runtime/core/src/io/file_reader.h and .cpp, FileReader::read(): the pread loops in Fill, the aligned
--               window in Window, the whole in Delivered and Complete.
--   RowStream   runtime/core/src/moe/row_stream.h and .cpp: lookup, fetch, eviction, gather and materialize in Ops,
--               init() and release() in TakeOver, over the state of Layout. Slabs counts the slabs of lru_,
--               Invariant is well-formedness; Fetch, Evict, Mark and Gather hold what each loop does,
--               Served, Materialize and Restore the calls as a whole.
--   Dense       runtime/core/src/moe/dense_weights.h and .cpp: byte_ranges() and subtract_range() in Ranges, with
--               Gaps and Subtract; hold_back_oversized(), take_row_gathered() and the page calls in State,
--               with Hold, Take, Carve and Pages; Prepare is the first two steps of init().
--   Session     runtime/core/src/engine/session.cpp. Session has the record of llama.cpp's calls and their laws,
--               batch_fill() and argmax(). Round is a round of generate()'s loop (draft, verify, accept, catch-up,
--               rollback, emission) and the loop; Spoken has the contexts that a session
--               can come to and what it is that a decode in one of them says a token, Tracked the invariant;
--               Greedy and Accept compare the acceptance with greedy decoding; Accepts, Drafting,
--               Verified, Emitted, Settled, Finished, Grouped, GroupEnd, Rounds and Framed the proofs, by
--               the part of a round they are about. Turn is generate() from the prompt's tokens on (prefix reuse,
--               prefill, trim, rollback_turn, the history's commit), with Reused, Reaching, Prefilled, Started, Served,
--               RolledBack and Restored; Conversation adds clear_kv and the chat template, and requests in a row.
--               Budget is hot_slots_from_budget(), Perplexity the scoring pass of perplexity().
--   Router      runtime/core/src/moe/router_hook.cpp: rank_top_k() in Rank and TopK; apply_drop() in Drop, with Kept,
--               Renorm, Policy and Dropped; in Loaded the policy over the streaming source; when a routing is loaded in
--               Chain and Once; apply_substitute() in Substitute and Substituted.
--
-- Bounds and fuel. The eviction loops run on fuel n_layer * n_expert: the list has no entry twice and
-- all are below that number, and each round takes one off. The slab loop
-- of a gather has one round for each slab of the table, past which it stops. A pread loop has one round of fuel for each byte, and each round that goes on
-- reads at least one. The generation loop has a round for each token asked for and one more, since each
-- round that goes on emits; the prefill has a chunk for each token. A number has at most as many digits as its value. The other loops recur on a list
-- or on a position. cgen_, the row stream's gen_ and the dense probe's tick wrap at 2^32 as written. The generation of the
-- speculative queue and the other 64-bit counters, file offsets and sizes are taken not to wrap. A page size and an alignment are
-- powers of two, where masking is subtraction of the remainder. The numbers of a request (n_predict, skip) are taken not
-- to be negative, and the positions of a context to fit an int.
--
-- Given from outside: whether a commit of pages and a read of a slice or a slab succeeds (Commits, Reads
-- and Os, which may depend on all calls before), what a pread returns, whether an allocation succeeds,
-- the bytes of the file, the addresses of reservations, the available memory, where a shard is mapped,
-- the arithmetic of binary32 (Arithmetic and Logs, of which nothing is assumed), and llama.cpp with the
-- model: the sampler, the draft head, the chat template, the
-- tokenizer and the parser of answers, and llama_decode, llama_memory_seq_rm and common_speculative_process
-- with whether they succeed (Target and Texts). The laws of Target say what a call leaves in the memory:
-- a decode of a batch that continues it appends its tokens and returns a row for each, a removal that
-- succeeds keeps the positions before the one given. Their success is asked for, as Works, only where a
-- theorem says so. Of the logits nothing is assumed: they are what a decode returns, and may differ with
-- the width of its batch, the phase and the state of the engine, so a speculated answer is not taken to
-- equal an unspeculated one. What is asked of
-- them is written as hypotheses: a pread returns no more than was asked for.
--
-- Not modelled: load_layer_async and the readiness flags of the overlapped load, the adoption of
-- route-ahead's reads (quiesce_spec with a layer to adopt), prefetch_sync, ExpertStreamSource::init(),
-- the lanes of the pool as interleavings (a pool batch is its reads in order, a failure seen at the
-- end), the dense probe behind its tick, clocks and counters of time. Of the router hook: route-ahead,
-- the predictors, the traces and the matching of node names. Of the dense weights: read_anonymous(),
-- the warm sweep and the residency probe. Of the session: open(), the deterministic workload of a turn,
-- the choices and the sums of a perplexity, traces, meters and summaries. The parsing of model files
-- (ggml's), metrics and the command line are left out.
pub mod Prelude
pub mod Stall
pub mod Lru
pub mod Expert
pub mod Ngram
pub mod Config
pub mod Workload
pub mod Reader
pub mod RowStream
pub mod Dense
pub mod Router
pub mod Session
