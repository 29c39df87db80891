-- ===== src/Lib.antt =====
-- libcfu is a C library of containers and of programs' helpers built on them. Modelled here, each as a
-- shallow embedding, are the hash table (src/cfuhash.c), the doubly linked list (src/cfulist.c), the
-- growing string (src/cfustring.c), the type tags (src/cfu.c), the parser of configuration files
-- (src/cfuconf.c), the parser of command lines (src/cfuopt.c), the thread that serves a queue of
-- requests (src/cfuthread_queue.c) and the timer (src/cfutimer.c). The parsers split strings with the
-- code of the string, the help text of the options is made with its printf family, and joining a list
-- and bencoding a table build their text in a string; the tables and lists that the
-- parsers and the thread use are what the containers stand for, maps and sequences.
--
-- The parts
--   Common         Numbers, lists, options and outcomes that all use. An outcome is a result, a fault
--                  (a failed assertion or a bad pointer) or a loop with no end; `Returns` is total
--                  correctness. An out-parameter is an Option: `none` is a null pointer, `some` holds
--                  what it points at.
--   Hash           The hash table. A chain is a List of entries and the bucket array a List of chains,
--                  since no chain shares an entry with another; a table is passed on and returned.
--   Hash.Size      `hash_size`
--   Hash.Value     `cfuhash_one_at_a_time_hash`, `hash_key_dup_lower_case`, `hash_value`
--   Hash.Key       `strncasecmp`, `memcmp`, `hash_cmp`, and the name that a key stands for
--   Hash.Chain     the entries and the loops over one chain
--   Hash.Table     the record, its flags and thresholds, and the constructors
--   Hash.Rehash    `cfuhash_rehash` and the tests of the load that call it
--   Hash.Access    `cfuhash_get_data`, `cfuhash_exists_data`, `cfuhash_put_data`, `cfuhash_delete_data`
--                  and their short forms
--   Hash.Walk      `cfuhash_keys_data`, the cursor, `cfuhash_foreach`, `cfuhash_foreach_remove`
--   Hash.Bencode   `cfuhash_bencode_strings`, with its proof in Hash.Encoded
--   Hash.PrettyPrint
--                  `cfuhash_pretty_print`, with its proof
--   Hash.Whole     clearing, destroying, copying, merging and counting
--   Hash.View, Hash.Valid, Hash.Moves
--                  the map from names to entries that a table stands for (`entry_at`), the
--                  well-formedness `IsValid` (width, power of two, count, each entry in its own bucket
--                  and alone under its name), and what moving entries does to them
--   Hash.Home, Hash.Resize, Hash.Laws, Hash.Put, Hash.Delete, Hash.Listing, Hash.Cursor, Hash.Sweep,
--   Hash.Clear, Hash.Copied, Hash.Merged
--                  the proofs, by operation; Hash.Found is about entries found under their own names
--   List           The list, in a memory that maps addresses to entries, since its operations write
--                  through both links. A command takes the store to an outcome; a read of a null
--                  pointer or of an address that holds no entry is a fault, so a read after a free is
--                  one too. The store also holds the log of the calls of free functions.
--   List.Store     memory, the list's record, commands
--   List.Ends      push, pop, unshift, shift, first, last, with their forms for queues and strings
--   List.Inner     `_cfulist_unlink_entry`, `_cfulist_add_entry_at`, `_cfulist_find_entry`, the
--                  operations at a position, the cursor, the walks, the destructor
--   List.Whole     new lists, the count, `_cfulist_find_entry_relative`
--   List.Map, List.Join
--                  `cfulist_map`, with a store for each of the two lists, and `cfulist_join`, which
--                  builds its text in a string; each with its proof
--   List.Chain, List.Steps, List.Apart, List.Unlink
--                  `IsList`: the store's list is a given sequence of cells, linked both ways, with
--                  distinct addresses; and what single writes and the unlinking do to it
--   List.Push, List.Unshift, List.Pop, List.Shift, List.Nth, List.Relative, List.Remove, List.Walk,
--   List.Sweep     the proofs, by operation
--   Strings        The string. Its block is a List of bytes, and a write or a read out of a block is a
--                  fault.
--   Strings.Memory `strlen`, `memcpy` and single bytes
--   Strings.Buffer the record, `cfustring_append_n`, `cfustring_dup` and their relatives
--   Strings.Split  `_check_sep`, `__cfustring_split_to_raw` and the functions that call it, on the bytes
--                  ahead of the end mark
--   Strings.Whole  `cfustring_split`, with its proof
--   Strings.Format, Strings.Printf
--                  the printf family: the scan of a conversion, `_safe_sprintf` and `_safe_strncpy`, and
--                  the loop of `cfustring_vsprintf`, in which `start`, `end` and `fmt` are a suffix of the
--                  format and two offsets into it
--   Strings.Rendered, Strings.Plain
--                  formats as pieces, literal bytes and a directive each, and what is made of them
--   Strings.Convert, Strings.Scan, Strings.Printing, Strings.Directives, Strings.Sprintf,
--   Strings.PastEnd
--                  the proofs on that family: the buffers, the scan, each directive, the loop, and
--                  formats that end inside a conversion
--   Strings.Sample a `malloc` and a `vsnprintf` for runs
--   Strings.Room, Strings.Append, Strings.Piece, Strings.Fields
--                  `IsText`, the text that a string holds; the proofs on appending and splitting
--   Types          the tags of src/cfu.c
--   Conf           The parser of configuration files. A container is named by its place among all that
--                  were made, since the parser keeps pointers to containers on its stack; a hash table
--                  is an association list, under names compared without case.
--   Conf.Lexer     names, values and quoted values of a line
--   Conf.Dict      the hash tables of names
--   Conf.Parse     `_cfuconf_parse_list`, `cfuconf_parse_buffer`
--   Conf.Access    the access to directives and containers
--   Conf.Read      `cfuconf_get_line`, `_slurp_file_from_fp`, `cfuconf_parse_file`
--   Conf.Meaning   what a configuration means: functions from the number of a container and a name
--   Conf.Words, Conf.Items, Conf.Valid, Conf.Moves, Conf.Stored, Conf.Balanced, Conf.Refused,
--   Conf.Lines, Conf.Slurp
--                  the proofs: words read back, the lines of a configuration, the well-formedness of
--                  the parser's state and its moves, whole configurations, errors, files
--   ThreadQueue    The thread of a queue and the calls that make requests, a statement at a time, in
--                  any order: a relation between states, with the owners of mutexes in the state.
--   ThreadQueue.System
--                  the places in `_run_queue` and `cfuthread_queue_make_request`, and the steps
--   ThreadQueue.Holds, ThreadQueue.Invariant
--                  what each place says of mutexes and entries, and that each step keeps it
--   ThreadQueue.Safety, ThreadQueue.Progress, ThreadQueue.Rank, ThreadQueue.Liveness,
--   ThreadQueue.Order, ThreadQueue.Spurious
--                  results, absence of deadlock, the bound on steps, returns, the order of requests,
--                  and a wait that ends without a signal
--   Opt            The parser of command lines. A variable of an option is a number, and a memory maps
--                  these to values.
--   Opt.Spec       `parse_opt_str`
--   Opt.Context    the options known, `cfuopt_add_entry`
--   Opt.Args       `check_arg`
--   Opt.Parse      `_set_entry_val`, `cfuopt_parse`
--   Opt.Help       `cfuopt_get_help_str` and the functions it calls
--   Opt.Shown, Opt.Column, Opt.Longest, Opt.Summary
--                  the proofs on the help text: names, left columns, the width, the lines
--   Opt.Meaning    what a command line leaves in each variable, by its items alone, with the proof
--   Opt.Items, Opt.Line, Opt.Kept, Opt.Names
--                  the proofs: command lines made of items, the words left, the names of options
--   Timer          the timer of src/cfutimer.c, over the times and seconds of a platform
--
-- Parameters. Floating point numbers and `strlen` of data come from outside: they are the fields of
-- `Platform`, and the argument `strlen` in List.Ends. No law is asked of them. The result of `malloc`
-- is the argument `fresh` of the functions that insert into a list; the hash table does not test it
-- and the model takes it to succeed. What `malloc` finds in a new block is the argument `malloc` of
-- the string's functions; the theorems ask that the block has the size. What C strings are at a list's
-- data is the argument `string_at`, and the callback of `cfulist_map` is an argument. `vsnprintf` is
-- an argument of the printf family. Of a conversion with a width or none, a `-` ahead of it or none,
-- and an argument that the conversion reads, a C string for `%s`, the theorems ask that the text has
-- no end mark in it, and, if it is shorter than 2 ^ 30 - 1 bytes, that `vsnprintf` returns its length
-- and leaves it with its end mark in a buffer that is larger, as C documents. Of other formats and
-- arguments nothing is asked, and what is proved of formats is for these conversions. What `snprintf`
-- writes for a length is an argument of the bencoding. `atol`, with the conversion to int, and `atof`
-- are arguments of the option parser, and the function of a queue, the null pointer and the data of
-- the calls are arguments of the thread queue: no law is asked of them. Mutexes and conditions behave
-- as POSIX says: a wait releases the mutex in one step with going to sleep, a signal wakes the one
-- that waits, and what may wake without a signal is a flag of the steps.
--
-- Bounds and fuel. `hash_size` has 33 rounds: a power of two that starts at 1 reaches 2 ^ 32, which
-- wraps to 0, in 32. The walks over a list have one round more than the list counts; the theorems on
-- them show that this is enough on a well-formed list. A split has one round more than bytes, and so
-- have the loop over the values of a line and those over the lines and the buffers of a file. The loop
-- over a format has as many rounds as the format has bytes, since each moves at least one byte on.
-- `_safe_sprintf` has 32, since its size doubles and leaves the range of an int in as many. Hash
-- values and flags are 32-bit words with the wrap written out, and so are the number of pieces of a
-- split and the size of their array; the count of bytes of `cfuhash_pretty_print` is an int, and
-- faults out of range. Counts of entries and sizes of blocks do not wrap, since memory holds fewer
-- than 2 ^ 63 bytes.
--
-- Not modelled. The locks of the containers: one thread runs in them. A null key has size 0. The
-- cursor of a hash table holds the rest of the chain and not an address, so that changing the table
-- during a walk is outside of the model. An entry of a queue is kept when the call has freed it; with
-- waits of calls that end without a signal the thread may still use it, and the order of requests is
-- stated without such waits. Writes to a stream succeed. The text of a parse error is not made: the
-- model has the arguments of the call that makes it. Left out are the printing and freeing of
-- configurations and options, `cfustring_destroy`, which only frees, and the ending of the queue's
-- thread. src/snprintf.c is a copy of another project's.
pub mod Common
pub mod Hash
pub mod List
pub mod Strings
pub mod Types
pub mod Conf
pub mod ThreadQueue
pub mod Opt
pub mod Timer
