-- ===== src/Lib.antt =====
-- Messasy is a milter that archives mail. The milter (messasy.c) collects a mail, decides whether
-- it is saved (filter.c), and hands it to modules (so/) that write it to archives. A thread for
-- each administrator reads commands (client_side.c), one of which loads the configuration file
-- again (msy_config.c). The libraries under lib/ read configuration files and take mails apart.
--
-- The files and the code that they are about:
-- Base and CString: numbers, lists, and the functions of the C library on strings. A string is
--   the list of its bytes; a pointer into a string is the suffix it points at.
-- Strlist: `struct strlist` of utils.c on an explicit store. A read or a free through NULL or a
--   freed node is a fault. Each loop has one round more than the nodes ever allocated, which
--   a list that is no cycle cannot exceed.
-- Serial and Format: `get_serialno`, `get_sessid`, `replace_delimiter` and `str_replace_format`
--   of utils.c. Numbers of 32 bits are taken modulo 2 ^ 32.
-- Config and Convert: `struct config` of msy_config.h, the checks of its values in msy_config.c
--   and lib/libdgconfig/libdgconfig.c, and `conv_config`. The strings that may be NULL in a
--   configuration that loads are optional; an empty value fails the check of each other string
--   here, or `set_config` fails where it is NULL.
-- Command: `cmd_strrep` and `is_usable_password` of msy_config.c.
-- ReadConfig: `read_config` of lib/libdgconfig/libdgconfig.c, from the bytes of a file to the
--   values at the offsets of the structure. The loop over the lines has a round for each byte, and
--   one more, since `fgets` takes a byte or ends the loop. `strtol` of the C library is in
--   CString/Strtol, and `fgets` here; a `long` has 64 bits, an `unsigned int` 32.
-- SetConfig: the table of the entries in msy_config.c, and `set_config`. The functions of the
--   modules, `inet_aton`, `regcomp` and the names of the facilities are parameters.
-- ConfigStore: `config_retrieve`, `config_release` and `reload_config` of msy_config.c, over all
--   configurations in memory. Each call is one step, as if under one lock. The code has a lock in
--   each configuration and one for the pointer, so that calls can interleave within a call; this
--   is not modelled.
-- Filter: filter.c, `make_savelist` and what it calls, on the store of Strlist. libldap is a
--   parameter, a record of the outcomes of its calls. A search with `cf_ldapmailfilter` NULL is a
--   fault.
-- Manager: client_side.c, from the bytes read from a socket to the replies written, and the count
--   of the connections. The unlock of a lock that is not held, where there are too many, has no
--   step. A socket is the list of the results of its reads. The loop of a connection
--   has as many rounds as there are reads, and one more, since each round reads from the socket.
-- Mail: the transfer encodings of lib/libdgmail/libdgmail.c.
-- Address: the header fields and the addresses of lib/libdgmail/libdgmail.c: `get_field`,
--   `get_addrpart` and `get_from`, and in Address/Divide `divide_address_list` and `get_to`. The
--   loop of `get_field` has a round for each byte, and one more, since each line has a byte.
--   Reads behind a string are faults in the copy of an address, and give NUL elsewhere.
-- Session: the callbacks of messasy.c, and the loops of msy_readmodule.c over the functions of the
--   modules, on a world of the configurations (ConfigStore), the lists (Strlist) and the private
--   data of one connection; Session/Trace has the order of the calls. libmilter, `time`, `regexec`,
--   LDAP and the functions of the modules are parameters. The recipients and the addresses to be
--   saved are on stores of their own; a walk over one has a round more than its nodes.
-- Lda: of so/liblda/liblda.c, the body and one header of a mail as they are written to the
--   temporary file, with `write` as a parameter. The loop over a header has a
--   round for each byte of the line, and two more; only where a write takes nothing, which the
--   code repeats for ever, it needs more.
-- Tests: examples, and data for them.
--
-- The files under the name of a module are about its definitions, except for Manager/Handler, which
-- has the loop of `request_handler`, and Address/Divide.
--
-- Memory that is asked for is always given, but for ReadConfig: the code ends the process, or
-- returns an error, where `malloc` fails. Log lines are left out. The other modules under so/, the
-- start of the program, the list of the modules and their loading, the MIME decoding of headers
-- and the conversion between character sets are not modelled.
pub mod Base
pub mod CString
pub mod Strlist
pub mod Serial
pub mod Format
pub mod Config
pub mod Convert
pub mod Command
pub mod ReadConfig
pub mod SetConfig
pub mod ConfigStore
pub mod Filter
pub mod Manager
pub mod Mail
pub mod Address
pub mod Session
pub mod Lda
pub mod Tests
