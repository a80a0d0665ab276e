-- ===== src/Lib.antt =====
-- c-chess-cli runs tournaments between UCI chess engines. This library models the parts of it
-- that decide something: the chess board, the rules, the dialogue with the engines, the games,
-- the options, the schedule of a tournament, and the order of its output. All paths are below the
-- repository's root.
--
-- The program's parts, and how they interact. `main` (src/main.c) makes a job queue (src/jobs.c)
-- and starts workers, each of which pops jobs and plays the game of each job (src/game.c). A game
-- keeps a list of positions (src/position.c), generates the legal moves of the last one
-- (src/gen.c), asks an engine (src/engine.c) for a move, and plays it. Positions and moves stand
-- on sets of squares (src/bitboard.c). Results go back to the job queue, and the texts of the
-- games to a writer (src/seqwriter.c) that puts them in the order of the jobs. All texts are
-- strings of src/str.c.
--
-- Which file models which part.
-- Bitboard: src/bitboard.c. A bitboard_t is a number below 2 ^ 64. Square has the functions on
--   squares and colors, Move the 16-bit encoding of moves, Word the functions `bb_*` on sets, and
--   Attacks the tables that `bb_init` fills; a table is the function that computes its entries.
--   Print has `bb_print`.
-- Util: `prng` of src/util.c.
-- Str: src/str.c. A C string is the list of its bytes, a `str_t` its text with the allocated
--   size. Format has the functions with a format and variable arguments, which are a list.
-- Position: src/position.c. Zobrist has the random numbers of the key, State the struct Position
--   with its queries, Play `pos_move` and `finish` with one function for each branch, Fen
--   `pos_set`, Print `pos_get`, `pos_pack` and `pos_print`, and Notation the texts of moves.
--   Board is the abstract board, from square to man. Board.Rules has what a move makes of it as a
--   relation, and Board.Rules.Goes how the men go; for bishops, rooks and queens that is what the
--   attack tables of Bitboard have, which are not related to lines here, and check is left out.
-- Gen: src/gen.c, one function for each loop, with the vector of moves passed on. Plays relates
--   each loop to moves on the abstract board, and Sound has the positions that can arise.
-- Game: src/game.c. Game has the rules that end a game and the results, Clock the clocks and the
--   command `go`, Judge the adjudication with the reasons for a final state, Sampling the
--   samples, Play `game_play` with one function for each part of its loop, and Export the PGN
--   text and the sample files. Play.Chess and Play.Result take as hypothesis that no move goes
--   onto a king.
-- Engine: src/engine.c. What an engine will say is a list of lines, and what it is sent is
--   collected. Info parses info lines, Bestmove has `engine_bestmove`, Command the command line.
-- Vec: src/vec.c, the growth of a vector; elsewhere vectors are lists.
-- Workers: src/workers.c, the deadlines and logs.
-- Options: src/options.c. Parse has the parsers of the options, Line `options_parse`, Each the
--   group `-each`.
-- Sprt: src/sprt.c. Libc: what these take from C, `double` with its operations and `atoi`.
-- Main: of src/main.c the choice of engines, opening and colors, and the use of a result.
--   Tournament has the loop of `thread_start` as a step relation on what any number of workers
--   share, where a step is a section under a mutex; the games may come out in any way.
-- Jobs: src/jobs.c. The operations of the workers are the constructors of a data type
--   (Jobs.Totals), and an interleaving of the workers is a list of them.
-- Openings: src/openings.c. The file is the list of its bytes, and a line is found by its offset.
-- SeqWriter: src/seqwriter.c. The file is the list of the bytes written.
-- Common and Bits: what the others share; Bits has the laws of `&`, `|`, `^`, `<<` and `>>`.
-- Tests: concrete runs, and the theorems at concrete inputs.
--
-- Functions have the names of the code. Where a C function changes an object, the model's
-- function returns the new one. A loop over the squares of a set is a recursion on the list
-- `squares b`. Assertions (BOUNDS) are hypotheses of the theorems. Machine words wrap around as
-- written out; `int` and `size_t` counters of games, strings and vectors are taken not to
-- overflow. What C leaves undefined is a value of its own in Position.Fen and in the tokens with
-- escapes.
--
-- Fuel. `pop_all` has 64 rounds, one for each square that a set can have; `slide` and `walk`
-- have 8, since a board has 8 ranks and files; `fill` has 2 to the number of squares of its
-- mask, the number of its subsets; `do_fmt_u` has 20, the number of digits of 2 ^ 64;
-- `str_round_up` has the size that it rounds, since each turn adds to it; `line_offsets` has
-- the length of the file; `scan` has the rule50 counter, which bounds its distances; the loops
-- over tokens have the length of the text, since a turn takes a byte at least, `cat_fmt` that
-- of the format, `options_parse` the number of arguments, and the game loop the number of lines
-- that the engines have left to say, since a turn reads some.
--
-- Not modelled: processes and pipes (`engine_spawn`), the starting and joining of threads,
-- signals, sleep and the opening of files (src/main.c, src/util.c), `job_queue_print_results`, and
-- all functions that only free. The calls of the format functions of src/str.c, which Str.Format
-- models, are written out where they are used. `system_msec` is a parameter, and so are `double`,
-- `atoi`, `atoll`, `atof` and what `pos_lan_to_move` makes of a text that is no move.
pub mod Common
pub mod Bits
pub mod Bitboard
pub mod Util
pub mod Str
pub mod Vec
pub mod Libc
pub mod Workers
pub mod Engine
pub mod Sprt
pub mod Options
pub mod Position
pub mod Gen
pub mod Game
pub mod Jobs
pub mod SeqWriter
pub mod Openings
pub mod Main
pub mod Tests
