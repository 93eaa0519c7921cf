-- ===== src/Lib.antt =====
-- Boris MUD, a multi-user text game server in C: models and proofs of its core components.
--
-- The server keeps every user, character and room as a text file of the file database, hands out
-- their numbers from pools of ranges, sends and receives through growing buffers, and runs game
-- scripts on a stack machine. Access strings say who may use a command or a menu. Rooms are kept in the file
-- database as lists of attributes. At its start the server reads its settings from a file
-- of options, and players talk on channels.
--
-- * Freelist models src/freelist.c. A `struct freelist` is the list of its extents, in list order.
--   `new`, `pool`, `alloc` and `thwack` are freelist_new, freelist_pool, freelist_alloc and
--   freelist_thwack. Freelist/Order holds the well-formed list and the set of free numbers that it
--   stands for; Freelist/Pool, Freelist/Alloc and Freelist/Thwack are about one operation each.
-- * Fdb models src/fdb/fdbfile.c. Fdb/Text is the text of a record: unescape, fdb_parse_line and the
--   text that fdb_write_pair prints. Fdb/Read is fdb_read_begin, fdb_read_next and fdb_read_end over a
--   stream of bytes, Fdb/Write is fdb_write_begin, fdb_write_pair, fdb_write_abort and fdb_write_end
--   over a map from paths to contents, and Fdb/Directory is fdb_iterator_next, with Fdb/Directory/Names on what it lists. Fdb/Record is about a
--   record that is written and read back.
-- * StackVm models src/stackvm/stackvm.c. StackVm/Machine is `struct vm` and the commands on it,
--   StackVm/Memory the reads and writes of the heap, StackVm/Arith and StackVm/Floats what the
--   instructions compute, StackVm/Instructions and StackVm/Exec the `switch`, StackVm/Slice the loop
--   of vm_run_slice, StackVm/Call the server's calls of a script, and StackVm/Code the expansion of a code
--   segment in vm_load, with StackVm/Code/Documented against the list of src/stackvm/stackvm.txt. The modules named
--   Sound are about the machine whose arrays have the sizes that its masks say.
-- * Acs models src/acs.c: acs_init, acs_testflag and acs_check, with strtoul of the C library.
--   Acs/Meaning is what an access string says, as alternatives of terms.
-- * Buf models src/buf.c: `struct buf` as its block, its length and its limits, and each operation under
--   its name. Buf/Queue is the queue of bytes that a buffer stands for, and what is read from it;
--   Buf/Write is growth, and what is written to it.
-- * Heapqueue models the priority queue of src/common.c, heapqueue_enqueue to heapqueue_cancel. The array
--   and its length are a record, and the hole that both loops move is their result. Heapqueue/Order is
--   the heap order, Heapqueue/Contents the multiset of keys that a queue holds, Heapqueue/Move a round of
--   a loop, Heapqueue/Up and Heapqueue/Down the loops, Heapqueue/Operations and Heapqueue/Cancel the
--   operations, and Heapqueue/Sequences any sequence of calls against an abstract priority queue.
-- * Command models the tables and the dispatch of src/task/command.c. Command/Lookup is about the table of
--   commands, Command/Lines about the lines that players write.
-- * Channel models src/channel/channel.c and the say command of src/task/command.c. A channel is its
--   array and its length. Channel/Member is about joining and parting, Channel/Broadcast about who is
--   sent a message, Channel/Service about the list of public channels.
-- * Config models src/config.c and util_fnmatch of src/util/util.c: the directive on a line, the watchers
--   with their masks and callbacks, and config_load. Config/Pattern is about the masks, Config/Line about
--   a line, Config/Load about a file.
-- * MudConfig models mud_config_init to mud_config_process of src/common.c: the settings as a record and
--   the callbacks that it hands to Config. MudConfig/Options is about one option and MudConfig/Process
--   about a file of settings.
-- * Attr models the attribute lists and the parsers of values of src/common.c: attr_find, attr_add,
--   parse_attr, parse_str and parse_uint.
-- * Shvar models shvar_eval of src/common.c. Shvar/Expand is what it makes of a text with variables.
-- * Room models src/room/room.c on top of Attr and Fdb: the values of a room, room_load and room_save.
--   Room/Saved is about a room that is saved and loaded. Room/Cache is room_get on the list of loaded
--   rooms, whose links are a function of the address, with LIST_INSERT_HEAD of src/list.h.
-- * Character models src/character/character.c, with value_set and value_get of src/common.c. Its table of members
--   is a list. Character/Values is about setting and reading a value, Character/Numbers about the check of all
--   characters at the start and the numbers that it leaves, Character/New about a character that is made.
-- * User models src/user.c: the table of users and user_create, which takes a number from Freelist and writes
--   a file with Fdb. User/Table is the well-formed table, User/Create the branches of user_create.
-- * Base64 models src/crypt/base64.c. Base64/Bits is about the bits of the 32-bit words, Base64/RoundTrip
--   about a digit of either side, and Base64/Inverse about the decoder behind the encoder; Base64/Range bounds what is decoded.
-- * Sha1 models src/crypt/sha1.c. Sha1/Reference is the hash of the standard, Sha1/Schedule about the words of
--   a block, Sha1/Stream about bytes that make blocks, and Sha1/Correct about whole messages.
-- * Sha1Crypt models src/crypt/sha1crypt.c on top of Sha1 and Base64, and Passwd src/passwd/passwd.c, which has
--   its own copy of SHA-1. Sha1Crypt/Check is about the texts that are accepted, Passwd/Digest about the copy.
-- * Prelude holds shared names: Boolean tests, lists indexed by native numbers, 32-bit words, C's
--   character classes, and results of code that can end the process.
--
-- Conventions. An `unsigned` is a number below 2 ^ 32, with the wrap-around written out. Whether malloc,
-- fopen, fclose, remove, rename or fprintf succeeds is an argument, and so is what a failed call leaves
-- in a file. Assertions are off, as in the server's build (NDEBUG). What C leaves undefined is a value
-- of its own: `undefined` for the machine and for the decoder of base64, `none` for a read out of bounds in unescape. The operations
-- on `float` are those of the host and a parameter of the machine, as are the system calls; `realloc`
-- is a parameter of the buffers, and a shift by the width a parameter of the access strings. The settings
-- take strtoul and the text files that can be read as parameters, and rooms strtoul and what %u prints,
-- of which Room/Saved supposes that the one reads the other. Both suppose that no allocation fails.
-- The hash of a password is a parameter of user_create, and so are the prints of numbers.
-- What `rand` returns is an argument of the functions that make a salt.
-- The calls of `send` in a broadcast are taken to leave the channel as it is.
--
-- Fuel. fdb_read_next reads a byte at least in each round, so that a round for each byte of the line
-- and one more are enough. vm_run_slice runs on a number of instructions, since a script need not end.
-- count_instructions takes a byte at least from the segment each time and runs on its length;
-- acs_check takes a byte at least from the string each time and runs on its length. make_mask doubles
-- a `size_t` in each round, so that 64 are enough up to 2 ^ 63; beyond that it never ends. heapqueue_ll_siftup moves the hole to a smaller index and
-- heapqueue_ll_siftdown to a larger one, in each round. config_load reads a byte at least in each round, and
-- channel_close takes a member out. shvar_eval reads a byte of the text in each round and runs on its
-- length and one more. The inner loop of base64_encode has two rounds at most,
-- and the padding of a hash 64.
--
-- Not modelled: character_get and character_put, and room_put and room_shutdown, which follow the
-- links back; loading users and counting their references; the header and the data segment of a script
-- file, and the accessors of the machine; creating directories, fdb_write_format, and
-- releasing memory; printing and logging; the callbacks of the commands but say; and the server's other parts (forms, menus,
-- sessions, telnet, the script kernel, scrypt, the web server), of which nothing is said here.
pub mod Prelude
pub mod Acs
pub mod Buf
pub mod Freelist
pub mod Fdb
pub mod StackVm
pub mod Heapqueue
pub mod Channel
pub mod Config
pub mod MudConfig
pub mod Attr
pub mod Room
pub mod User
pub mod Base64
pub mod Sha1
pub mod Character
pub mod Passwd
pub mod Sha1Crypt
pub mod Command
pub mod Shvar
