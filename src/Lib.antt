-- ===== src/Lib.antt =====
-- SKaMPI, a benchmark for MPI and OpenSHMEM. A script is parsed into statements; inside of a
-- `begin measurement ... end measurement` block, measurement functions are called many times, their
-- buffers are carved out of one communication buffer, and loops can refine their own steps where the
-- results bend most. The files of the sources are named from the root of the repository.
--
-- - Arith: the integer arithmetic of src/misc.c (`gcd`, `lcm`, `round_int_to_multipleof`). Arith/Gcd
--   and Arith/Round hold its laws.
-- - Align: `alignment_fix` and `align_ptr` of src/mem.c, on addresses as numbers with the wrap-around
--   of a 64-bit word. Align/Least holds their law.
-- - Buffer: the communication buffer of src/mem.c. Its file variables are one record, and each
--   function is a function of the record; src/misc.c keeps the addresses of the send and the receive
--   buffer, which are fields of it too. Buffer/Alloc sets the buffer and the alignments, where `malloc` and
--   `MPI_Alloc_mem` are parameters and the calls of `free` and `MPI_Free_mem` are returned in a list.
--   Buffer/Slice gives out slices. Buffer/Placement, Buffer/Slices, Buffer/Blocks and Buffer/Overrun
--   hold the laws.
-- - SymbolTable: src/symboltable.c. An entry keeps the two variables of a name as numbers, and a new
--   variable gets the next number. What `malloc` leaves in the fields that the code does not set is a
--   parameter. SymbolTable/Scopes holds the laws, SymbolTable/Laws the lemmas on the list of entries.
-- - Autorefine: src/autorefine.c. Autorefine/Results is the chain of results as it is built,
--   Autorefine/Candidates the value of a new candidate, Autorefine/Queue the priority queue of
--   candidates, Autorefine/Start the first candidates with their weights, and Autorefine/Refine the
--   registration of the result of a candidate, both for an integer loop variable. Autorefine/Refine/Rounds is
--   the loop of a refinement, where a round takes one measurement; Refine/Counts, Counted and Paired say how
--   the list and the queue fit together. Values and weights are of
--   any totally ordered type (Prelude/Ordered), which a double that is not NaN has. Sums of integer
--   values are taken not to overflow.
-- - Measurement: src/measurement.c. Arrays are functions of the index, and a column of `all_results` holds
--   the results of all processes for one measurement. Measurement and Measurement/Batch are what is done
--   with the flags of a batch and the sizes of the batches, for results of any type, and
--   Measurement/Compact, Measurement/Flawed, Measurement/Runs and Measurement/Longest hold the laws.
--   Measurement/Statistics is the mean with its error, and Measurement/Loop the measurement loop with both, as the process sees it that
--   gathers the results; its children hold the laws. What the processes report of a batch is a parameter
--   there, a function of the state, and doubles are a record of operations of which no law is asked.
--   Measurement/Windows is one process in its windows of time, with a clock of whole units;
--   Measurement/Windows/Valid joins it with the bounds of Synchronize/Offset. Measurement/Execute is
--   `execute_measurement` on any process, on the buffer of Buffer; what `init_fp` of a measurement does is a
--   list of the calls it makes, what the others send and a call leaves are parameters, and the assertion of
--   the measurement loop can abort it.
-- - Output: src/output.c, in its MPI version. A character is a number; the buffer of `print_output` and
--   the buffers that `flush_output` receives into are lists with their sizes beside them, and the
--   messages from one process to the one that prints are a list in the order of their sending.
--   Output/Collected and Output/Transfer hold the laws; Output/Sorting is the keeping and printing of
--   lines, with `qsort` as a parameter, and Output/Sorting/Lines holds its laws.
-- - Exec: src/exec.c, the interpreter, in its MPI version. Exec/Value holds the values of variables and
--   the operations on them, where a record of operations stands for the doubles; Exec/Term evaluates terms
--   in an environment that maps variables to values; Exec/Statement and Exec/Run execute statements on a
--   state of the environment, the abort flag, the stack of loop variables and the events told to other
--   parts. The functions and iterators of the measurement library, the measurements and the refined values
--   are parameters (`World`). Exec/Typing says which terms have a type, and Exec/Typing/Sound,
--   Exec/Run/Frame and Exec/Run/Counting hold the laws. Exec/References is the sharing of MPI objects
--   and arrays by counters of references, on a store of variables and counters that leaves out all else;
--   its children hold the laws, Exec/References/Aliases two assignments that break the sharing.
-- - Accounting: src/accounting.c, with a function from the kind of work in the place of seven variables,
--   and whole numbers of units in the place of doubles. Accounting/Totals has the log of the calls as the
--   abstract view, and the law that the times are its sums.
-- - Synchronize: src/synchronize.c, the exchange of messages that bounds the difference of two clocks, on
--   the process that begins it, with the received messages as a list. Synchronize/Offset holds the law.
--   Synchronize/Protocol is the exchange on both processes, as a relation of the steps that can follow each
--   other, where time passes and messages are received; Synchronize/Protocol/Invariant and
--   Synchronize/Protocol/Live hold its laws. Synchronize/Differences puts the differences of all clocks together,
--   and Synchronize/Differences/Estimates says how good they are. A time is a whole number of units.
-- - Coll: src/measurements/coll.c, the blocks of a buffer for the processes of a collective operation, and
--   the measurement of MPI_Alltoallv up to its calls: Coll/Blocks holds the laws of the blocks, and
--   Coll/Alltoallv joins them with Measurement/Execute and Buffer. Coll/Broadcast has the tree of
--   MPI_Send and MPI_Recv on all processes at once, its calls one after the other on each of them and a
--   message as a step; Tree says what a process can have left, Invariant what every message keeps, Rank
--   how the processes are numbered, and Finish what follows. Coll/Gather has the places of the receives of a
--   gather and of an exchange by messages.
-- - Onesided: src/measurements/onesided.c, the exchange of border cells and the simulation between two of
--   them, on all processes. Ring has the ring of all rows and the numbers of the neighbours, Rows what each
--   call leaves in a buffer and the record of what an exchange has to do, Steps one round, Simulated the
--   loop, and Twosided the exchange by messages, which fills the same record.
-- - Helpers: src/measurements/helpers.c, the random communicator (Random, over the order of numbers in
--   Sorted), the graph of a topology (Topology: Neighbours, Room and Slices) and the pair of processes with
--   the longest time (Latency).
-- - Prelude holds the shared types, tests, numbers, lists and lemmas. Files named Tests run the
--   definitions and apply the theorems at concrete inputs.
--
-- An assertion that fails, and a call that fails, is the result `none`. Most loops run along lists and
-- need no fuel, and `gcd` recurses on accessibility. The loop that sends the buffer has as much fuel as
-- there are characters and two more, which is enough. The loop of `print_output` that doubles the buffer uses
-- its `args` again, which C leaves undefined: it is the result `none`.
-- Scripts need not end: `execute_statement` takes a unit of fuel for each statement and each round of a
-- loop. `measurement_loop` takes a unit for each batch, and the maximal number of repetitions is enough
-- where each batch keeps a result. The loop of a refinement takes a unit for each measurement, and one more
-- than are missing is enough. A result of the interpreter is a value or a fault: arithmetic that C
-- leaves undefined, an abort, an assertion that fails, or the use of a value that was never set.
--
-- Not modelled: the other measurement functions, which are sequences of calls of MPI, OpenSHMEM and the
-- file system between two readings of the clock, and the helpers that make one such call; the lexer, the
-- grammar and the construction of the syntax tree; the main program; printing and debugging.
pub mod Prelude
pub mod Arith
pub mod Align
pub mod Buffer
pub mod SymbolTable
pub mod Autorefine
pub mod Measurement
pub mod Output
pub mod Exec
pub mod Accounting
pub mod Synchronize
pub mod Coll
pub mod Onesided
pub mod Helpers
