-- ===== src/Lib.antt =====
-- A verification library for the PromQL engine: the data its operators exchange, the rewriting passes
-- over logical plans, the operator that deduplicates the output of several engines, and the window of
-- samples over which a range selector evaluates its function.
--
-- The program's parts. A query is parsed, turned into a logical plan and rewritten by the optimizers of
-- logicalplan/. The plan becomes a tree of operators (execution/), each of which hands batches of step
-- vectors (execution/model/vector.go) to the operator above it. Leaves read series from the storage
-- (storage/prometheus/); a range selector keeps a ring buffer (ringbuffer/) for every series.
--
-- Files:
--   Prelude          names of the library passed on; tests, lists, outcomes, integers, membership.
--   Model/Vector     execution/model/vector.go: StepVector, Reset and the append methods.
--   Exchange/Dedup   execution/exchange/dedup.go: the state of dedupOperator is the record Dedup;
--                    loadSeries is load_series, Next is next, and its loops are cache_all and emit_all.
--                    Index, Step, Emit and LastWins prove.
--   Exchange/DuplicateLabel
--                    execution/exchange/duplicate_label.go: Next is next_checked, its shift advance and
--                    its loops check_vectors and mark_ids, init is init_check in Init; a word of
--                    occupancy is a number.
--   LogicalPlan/Nodes, Traverse
--                    logicalplan/logical_nodes.go: nodes as a tree, and TraverseBottomUp on it.
--   LogicalPlan/Matchers, MergeSelects
--                    logicalplan/merge_selects.go: MergeSelectsOptimizer is merge_selects; the heap of
--                    selectors is a map from metric names to matchers. Sound, Plan and Widening prove.
--   LogicalPlan/Propagate
--                    logicalplan/propagate_selectors.go: PropagateMatchersOptimizer is propagate_plan, mergeMatcher
--                    merge_matcher. Merge and Widened prove.
--   LogicalPlan/Codec
--                    logicalplan/codec.go with the JSON methods of logicalplan/logical_nodes.go: marshalNode is
--                    marshal, unmarshalNode is unmarshal in Decode, over encoding/json as a record of coders. The
--                    fuel of unmarshal is the number of nodes of the tree. Trees and RoundTrip prove.
--   LogicalPlan/BatchSize
--                    logicalplan/set_batch_size.go: SelectorBatchSize is optimize_batch_size.
--   LogicalPlan/HistogramStats
--                    logicalplan/histogram_stats.go: DetectHistogramStatsOptimizer.
--   LogicalPlan/Constants, Rewrites
--                    logicalplan/exprutil.go and the passes reduceConstantExpressions, trimParens and
--                    insertDuplicateLabelChecks of logicalplan/plan.go.
--   RingBuffer/Sample, Generic
--                    ringbuffer/generic.go: GenericRingBuffer with Push and Reset, and the count of
--                    samples, for which execution/telemetry/telemetry.go weighs a histogram.
--   Compute          compute/aggregators.go: Float64 holds the operations on float64 and histograms as
--                    records, Accumulator the interface and the compensated sums, Sum, Extremes, Counts,
--                    Average and Stats one record of state and one function for each method of the
--                    accumulators; convert_histogram_error is that of warnings/context.go. ExtremeLaws,
--                    SumLaws, CountLaws and Restarts prove.
--   Aggregate        execution/aggregate: Tables has the scalar and the vectorized table, Groups hashMetric and
--                    initializeScalarTables (group_series), Hash the operator, whose Next is next_aggregate
--                    with the loop read_all. Routing, Grouping and Batches prove.
--   Aggregate/Ranking
--                    execution/aggregate/khashaggregate.go: topk, bottomk, limitk and limit_ratio; a heap is a
--                    list with the root first, Next is next_k. Best, Heaps and Fuel prove.
--   Storage/MatrixScanner
--                    storage/prometheus/matrix_selector.go: matrixScanner, selectPoints (select_points)
--                    and the loop of Next over the steps of one series (select_steps).
--   Storage/MatrixSelector
--                    the same file: Next over a batch of series (next_matrix), its loop visit_all.
--   RingBuffer/OverTime
--                    ringbuffer/overtime.go: the parallel slices of OverTimeBuffer are one list of
--                    slots; Push is push_over_time, Reset reset_over_time. Stagger proves.
--   RingBuffer/Rate  ringbuffer/rate.go: RateBuffer with Push (push_rate), Reset (reset_rate) and Eval
--                    (eval_rate); stepRanges and firstSamples are one list of slots. Resets and Pushes prove.
--   Engine/Sort      engine/sort.go: newResultSort is new_result_sort, comparer the comparers of its sorts,
--                    which are ResultSort; Order proves.
--   Binary/Ops, Buckets, Vector, Join, Scalar
--                    execution/binary: binOp is bin_op; a *joinBucket of vector.go is a number and the store a
--                    function; initJoinTables is init_join_tables, the set operators exec_binary_and,
--                    exec_binary_or and exec_binary_unless, execBinaryArithmetic exec_binary_arithmetic, Next
--                    next_binary; scalar.go is Scalar. Marks, Sets, Pairs, Joins, Matching, Histograms, Zeroed,
--                    GroupRight, Outputs, Signatures, Ranks, Series and Tables prove.
--   Query/Options, SampleTracker
--                    query/options.go: TotalSteps is total_steps, NumStepsPerBatch num_steps_per_batch;
--                    query/sample_tracker.go, one function for each method.
--   StepInvariant    execution/step_invariant/step_invariant.go: Next is next_invariant, its loop
--                    repeat_cached, and cacheInputVector cache_input_vector. Repeats and Runs prove.
--   Scan/Literal     execution/scan/literal_selector.go: Next is next_literal, its loop fill; Batches and
--                    Count prove.
--   The modules named Tests run the definitions on concrete data and apply the theorems to it.
--
-- Conventions. A node that Go mutates through a pointer is replaced by a new node, since a plan is a
-- tree in which no node is shared when the passes run. int64 is an integer without bounds: the times
-- that the code adds stay far from them. float64, histograms, labels, their hash and the test of a
-- matcher come from other packages: they are types and functions that the definitions take as
-- parameters. Maps are association lists or functions. An outcome is a value, an error or a panic.
-- Every loop is structural recursion on the list it runs over, or on the number of steps it may take;
-- only limit_mixed and unmarshal have fuel, the number of samples and of nodes, proved to be enough.
--
-- Not modelled: contexts, locks and goroutines, telemetry other than the count of samples, display
-- (String, Explain), the capacity of slices and the pools of vectors. Of plan.go the construction of
-- the plan and the preprocessing of times, of the ring buffers that of extended ranges, of
-- the matrix selector loading the series and choosing the buffer, and the other operators and
-- optimizers are left out: they are separate components.
pub mod Prelude
pub mod Model
pub mod Exchange
pub mod LogicalPlan
pub mod RingBuffer
pub mod Compute
pub mod Aggregate
pub mod Storage
pub mod Query
pub mod Binary
pub mod Scan
pub mod StepInvariant
pub mod Engine
