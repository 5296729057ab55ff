-- ===== src/Lib.antt =====
-- Verification of the dictionary server dictd and its libraries.
--
-- The program looks up words in dictionaries. A dictionary is an index file, whose sorted lines
-- give a headword and the place of its definition, and a data file, plain or compressed in chunks
-- (dzip). The daemon reads a command, searches the indices of its databases for the headword and
-- sends the definitions.
--
-- Files:
-- - Prelude: Boolean tests, lists over the native numbers, slices, integers, machine words, and
--   the results of code that can fail (`Result`).
-- - Data: libdictd/data.c. `dict_data_read` is dict_data_read_; the mapped file is a list of
--   bytes, the C struct dictData a record, and the static stamp and the cache are its state. The
--   zlib function inflate is a parameter, a function of its own state and the input.
-- - Index: libdictd/index.c. The mapped index file is a list of bytes and a pointer into it is a
--   position; reading outside the file is an error. `dict_index_search` and the strategies exact,
--   prefix and first return the list and the count they build. Loops run on fuel of one more than
--   the bytes they may pass, since each round passes a byte or more; the theorems on the search and
--   on the exact strategy include that it is enough. Open is the table of starting points of
--   dict_index_open, with the alphabet of the locale and toupper as parameters. In an index where
--   words differ by case, the table is wrong for words that begin with a capital.
-- - Lev: libdictd/lev.h, dict_search_lev_8bit. Candidates: its loops, which thread the buffer they
--   change and change back; Search: the macro CHECK of libdictd/index.c and the whole; Edits and
--   Complete: which words are tried; Picked and Distance: which are found.
-- - Virtual: dict_search of libdictd/index.c. A database is a tree of its members; Search has the
--   definitions, Shown, Stages and Hidden the proof. The search in one index and in one plugin are
--   parameters.
-- - Setup: dictd/dictd.c, the members of virtual and MIME databases, found by name (Members,
--   Named), and make_dictexit_invisible (Exits); Fold: libcommon/str.c, tolower_alnumspace,
--   with the functions of the C locale as parameters.
-- - Anagram: libdictd/index.c, the words read backwards for the index of suffixes; mbrlen is a
--   parameter.
-- - Net: libcommon/io.c (net_read, net_write), the encoding of texts by dictd/daemon.c
--   (daemon_crlf, daemon_write) and their reader in dict/dict.c (client_read_text). The system
--   calls read and write are a list of bytes with its ending and a parameter.
-- - Daemon: dictd/daemon.c. Databases: next_database and count_databases. Search: the search over
--   the databases, with the search of one database as an interface (`SearchOps`); Totals, Plan and
--   Planned prove what it finds. Print and Handlers: the answers, as lists of printed items, and
--   the handlers of DEFINE, MATCH and SHOW DB; Counted and Answers prove their shape. A database is
--   known by a number that stands for its address, and a position in the list of databases is the
--   rest of the list. Loops over it run on fuel of one more than its length.
-- - Access: the access lists of dictd/daemon.c. Checks: the address checks of one specification,
--   Lists: daemon_check_list and daemon_check_auth. The library calls inet_pton, strtol, regcomp
--   and regexec are fields of `Client`.
-- - Session: dictd/daemon.c. Commands: the table commandInfo and lookup_command; Info, Auth and
--   Execute: the handlers of SHOW, AUTH, HELP and the like, and the call of a handler; Loop: the loop
--   of _handleconn over the lines of a client, with net_read of Net, on fuel of one more than the
--   bytes the client sends, since a line takes one or more. Of alarm(2) it is kept how many
--   seconds it was last called with; what the handlers ask of other parts (the strategy table,
--   the search, the data files, the settings of the site, the MD5 sum) are the fields of
--   `Services` and `Security`.
-- - Strategies: libdictd/strategy.c and dict_disable_strat of dictd/dictd.c. A pointer to a strategy
--   is its index in the table; Table has the operations, Disable the parser of a list of names, on
--   a buffer of 400 bytes, Removed what it does, Disabled the array of a database.
-- - Heap: libcommon/heap.c. A pointer is an offset in the arena or the name of a block of malloc;
--   the blocks in use are a list beside the heap. The bytes of the blocks are left out, but not
--   whether a copy of them fits; the model stops at a sum that a size_t does not hold.
-- - Tests: one instance of every theorem that has hypotheses.
--
-- Bounds: an int has 32 bits and an unsigned long 64; the position and length arithmetic of the
-- index is on unbounded numbers, since a position is never greater than the length of the file.
--
-- The static stamp of dict_data_read_ is an int, and the model stops where it would overflow.
--
-- Virtual databases are trees, so a database that is its own member is outside of the model of
-- dict_search.
--
-- Not modelled: sockets, signals, the configuration grammar, and the libraries the program calls
-- (zlib, regex, the C locale functions), which are parameters where modelled code uses them.

pub mod Access
pub mod Anagram
pub mod Daemon
pub mod Data
pub mod Fold
pub mod Heap
pub mod Index
pub mod Lev
pub mod Net
pub mod Prelude
pub mod Session
pub mod Setup
pub mod Strategies
pub mod Tests
pub mod Virtual
