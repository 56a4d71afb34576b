-- ===== src/Lib.antt =====
-- A model of greeg, a code search tool that speaks ripgrep's flags and answers from an index.
--
-- A query is planned as a Boolean query over trigrams, evaluated on the posting lists of an index
-- segment to a set of candidate files, and only those files are opened. Files are worked on by
-- several threads, and their results are passed on in the order of the files. An agent's `rg`
-- command is rewritten into a greeg command.
--
-- The files and the code they model:
--   Gram.antt        crates/greeg-index/src/gram.rs: the key of a trigram (`key3`), case folding,
--                    the deduplicating extraction (`Dedup::extract`) and `literal_keys`. The bitset
--                    is a function from word numbers to words.
--   Plan.antt        crates/greeg-index/src/plan.rs: `Q` with `and` and `or`, the bounded sets of
--                    strings, `Info` with `simplify`, `concat` and `alternate`, `class_members`,
--                    `analyze`, `flatten`, `plan` and `word_plan`. A set of strings
--                    (`BTreeSet`) is an ascending list. Plan/Hir.antt is the `Hir` of the crate regex-syntax, with what it means
--                    for a text to match one; the parser itself is a parameter.
--   Candidates.antt  crates/greeg-index/src/index.rs: `Segment::posting`, `eval` and `eval_words`.
--                    The bitmaps (crate roaring) are an interface with laws of membership; the
--                    serialized tables of grams and words are functions of a record.
--   Integrity.antt   crates/greeg-index/src/integrity.rs: `trailer` and the verification of ranges by
--                    block (`Blocks`). The digest (crate xxhash_rust) is a parameter. The flags that
--                    opens of a file share (`Checked`, and `FAILED` in `failed`) are passed along.
--   Spill.antt       crates/greeg-index/src/external.rs: `Sink`, `collect`, `Reader`, `Merger` and
--                    `stream_batches`. A segment file is its bytes, a map is a list of slots with each
--                    vector's capacity, and the heap is the list of its readers in the order in which
--                    they pop. `next` takes the bytes left in all readers as fuel, and each round reads
--                    at least one. `push_bytes` is `push` for byte keys.
--   Words.antt       crates/greeg-index/src/words.rs: the tokenizer `for_each_word` and
--                    `is_query_word`; Words/Section.antt is `serialize`, and Words/View.antt
--                    `WordsView` with `find`, whose reads pass on what Integrity.antt's `Blocks`
--                    verified. `find` has as fuel one round more than there are words, and each round
--                    shortens the range.
--   Ordered.antt     crates/greeg-query/src/ordered.rs: `run`. The threads are a step relation:
--                    what one thread does under one lock is one step, and the steps interleave in
--                    any order. The callbacks `work` and `emit` are a parameter and a free choice.
--   Lexer.antt       crates/greeg-lang/src/lexer.rs: `lex` with the lexers of Python, of C-like
--                    languages and of those loaded at run time, and `span_at`. The crate memchr is
--                    an interface. Loops over an index are Base/Scan.antt's `scan`, and `lex_loop`,
--                    whose fuel is the length of the file; `Lang` and `ExtraLang` are those of
--                    lib.rs and extra.rs beside it.
--   Shell.antt       crates/greeg/src/rewrite.rs: `split_words`, `shell_words`, `quote` and
--                    `command_of`. A text is the list of its code points.
--   Rewrite.antt     crates/greeg/src/rewrite.rs: `Parsed::apply` with the tables of flags
--                    (Rewrite/Flags.antt), `parse` (Rewrite/Parse.antt), `greeg_words` and
--                    `rewrite_rg` (Rewrite/Emit.antt). An error is its kind with the name it quotes.
--                    Rewrite/Posix.antt is `posix_regex`, Rewrite/Bracket.antt its `bracket`: an index into the characters
--                    is the list of those left, with how many of them were read already.
--                    Rewrite/GrepFlags.antt and Rewrite/Grep.antt are `rewrite_grep`, with its
--                    `reader` in Rewrite/Reader.antt.
--                    Rewrite/Scanned.antt describes what a balanced Rust expression is.
--                    Rewrite/Cli.antt is greeg's own command line in crates/greeg/src/main.rs: the flags
--                    of `Cli` and `Common` and the subcommands of `Cmd`. The crate clap, which parses it,
--                    is an interface with laws of what it documents; Rewrite/CliReader.antt is an
--                    instance for the runs.
--   Base.antt        the shared lists, comparisons, sorting, bits, results and texts.
--
-- Bounds: the limits of the planner (`MAX_SET`, `MAX_STR`, the class size) and the chunk of 32 items
-- are the source's. Loops are recursions on their data; those over an index of a file take its
-- length as fuel, which is enough since each round moves the index on. Numbers are unbounded, but the
-- offsets of spans wrap around at 2^32 as in the code.
--
-- Not modelled: reading, writing and locking files; the other formats of the index on disk; the rest of the
-- language layer; ranking, whose scores are floating-point numbers; rendering; the rest of the rewriting of
-- commands. In `run`, a thread that waits on a condition has no step, and whether it is woken is
-- not modelled.
pub mod Base
pub mod Candidates
pub mod Gram
pub mod Integrity
pub mod Lexer
pub mod Ordered
pub mod Plan
pub mod Rewrite
pub mod Shell
pub mod Spill
pub mod Words
