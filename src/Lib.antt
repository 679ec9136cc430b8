-- ===== src/Lib.antt =====
-- GConf over D-Bus: a model of the configuration system's own logic, and proofs about it.
--
-- A configuration is a tree of keys, paths such as /apps/foo, with a typed value at each key. The
-- client library and the daemon exchange values, and keep some in files, in a one-line encoding.
-- These are the parts, with the file that models each:
--
-- - Value.antt: `GConfValue` and `GConfSchema` (gconf/gconf-value.h, gconf/gconf-value.c,
--   gconf/gconf-schema.c). A pointer that may be NULL is an `Option` or has a constructor `null`.
--   Below it, Order.antt has `gconf_value_compare`, Entry.antt entries and `gconf_entry_equal`,
--   Validate.antt `gconf_value_validate` and `gconf_schema_validate`; Same.antt and Flip.antt have
--   what holds of the comparison.
-- - Quote.antt: `gconf_quote_string` and `gconf_unquote_string` (gconf/gconf-internals.c).
-- - Encoding.antt and the files below it: `gconf_value_encode` and `gconf_value_decode` (the same
--   file). `encode` returns `none` where the program stops, by an assertion or a NULL pointer.
--   `decode` returns a result with the cases `overrun`, where the code reads behind the terminating
--   NUL, and `exhausted`, where the fuel of the model runs out.
-- - ValueText.antt and the files below it: `gconf_value_new_from_string`,
--   `gconf_value_new_list_from_string`, `gconf_value_new_pair_from_string`, `escape_string` and
--   `gconf_value_to_string` (gconf/gconf-value.c), and in ValueText/Buffer.antt the buffer that
--   the last one grows, in `guint`s of 32 bits. The caller is taken to pass a place for the error.
-- - Keys.antt and the files below it: `gconf_valid_key`, `gconf_escape_key`, `gconf_unescape_key`
--   and `gconf_key_is_below` (gconf/gconf.c), `gconf_concat_dir_and_key`, `gconf_key_directory` and
--   `gconf_key_key` (gconf/gconf-internals.c).
-- - Sources.antt and the files below it: the stack of sources that a configuration is looked up in,
--   `gconf_sources_query_value`, `gconf_sources_set_value` and `gconf_sources_unset_value`
--   (gconf/gconf-sources.c). A backend is a table of functions over a state of its own, a parameter;
--   what a theorem asks of it is a hypothesis. Keys are checked by Keys.antt, values and schemas are
--   those of Value.antt. A query for the default of a schema recurs once.
-- - Address.antt and the files below it: the addresses of sources, and the flags of a resolved
--   source (gconf/gconf-backend.c). `g_strsplit` is a parameter.
-- - Markup.antt and the files below it: a backend, which keeps a configuration in XML files
--   (backends/markup-tree.c, backends/markup-backend.c). Entry.antt has an entry with the texts of
--   its schema by language, Entry/Local.antt the choice of the texts, Dir.antt the tree of
--   directories, which are loaded when they are entered, Backend.antt and Listing.antt the
--   functions of the backend and its table for Sources.antt, Sync.antt the writing of what has
--   changed. What the parser makes of a file, the names in a directory and the success of a write
--   are parameters. View.antt, Walk.antt, Changes.antt and Query.antt have what can be looked up
--   after an operation, Marks.antt, Marked.antt, Listed.antt and Cleared.antt the marks of what
--   has to be written. The value that is set is never the very object in the entry, and nobody
--   else changes the files of a tree that is open.
-- - ChangeSet.antt and the files below it: change sets, their commit and their reverse
--   (gconf/gconf-changeset.c). The engine that they are committed to is a record of the operations
--   that the code calls, and its laws are the hypotheses `IsStore`.
-- - Listeners.antt and the files below it: tables of listeners (gconf/gconf-listeners.c). Tree.antt
--   has the tree by paths, Table.antt the flat array, the connection numbers, `gconf_listeners_add`,
--   `gconf_listeners_remove` and the list of those whom `gconf_listeners_notify` calls. The result
--   is `none` where the program stops or writes outside the array.
-- - Client.antt and the files below it: the client library's view (gconf/gconf-client.c). Client.antt
--   has the directories that a client watches, with the notifications it asks the engine for,
--   Client/Cache.antt the cache of entries and the calls that read and write through it. The engine
--   is a record of operations; what a theorem asks of it is a hypothesis (`IsEngine`, `IsKeyed`).
--   Covered.antt, Steps.antt and Dirs.antt have the invariant of the directories, Monitored.antt,
--   Cached.antt and Fresh.antt what is cached and when the engine is asked, Flush.antt and
--   Flushed.antt the queue of notifications, for listeners that do not change the client. Hash
--   tables are lists, and `none` stands for a crash in the comparison of entries.
-- - Engine.antt and the files below it: the connections through which the daemon's notifications
--   reach the client library (gconf/gconf-dbus.c): `gconf_engine_notify_add`,
--   `gconf_engine_notify_remove`, and the calls of `handle_notify`. What the daemon answers is a
--   parameter. An identifier stands for the pointer to its connection.
-- - Locales.antt and the files below it: `explode_locale`, `compute_locale_variants` and
--   `gconf_split_locale` (gconf/gconf-locale.c), which give the locales that a query prefers.
-- - CString.antt: strings as lists of bytes before the NUL, and what the C library does on them:
--   `%d`, `strtol` in base 10 and `atoi`, for a `long` of 64 bits and an `int` of 32.
-- - Platform.antt: what the code takes from GLib and the floating point of the C library. The UTF-8
--   test and the conversions of floats are fields of a record, and the laws that a proof uses are
--   its hypotheses: an ASCII byte may be split off a text, `%g` writes ASCII, and of two doubles at
--   most one is less.
--   Platform/Ascii.antt is a platform that meets them.
-- - Prelude.antt: the names that the modules share.
--
-- Bounds and fuel. Bytes are numbers. The sizes in ValueText/Buffer.antt, the numbers of
-- connections and the counts of directories are kept modulo 2 ^ 32, the indices of listeners in 24
-- bits; other widths are hypotheses. `%d` writes with fuel above its number. `decode` takes fuel
-- for its recursion on quoted texts, of which more than the length of the string is enough; its
-- loop over a list takes the length of what is left of the string. The other loops recur on their
-- string.
--
-- Not modelled: of the client, preloading and its listeners, and a queue that the listeners
-- change; memory management (values are immutable, so a copy is the value), logging, file locks,
-- D-Bus, the conversions for CORBA, the daemon and the command line tool; of the backends, the one
-- of directories of XML trees and the one of LDAP, and in the markup backend merged trees (one
-- file for all directories), the parser and the writer of the files, and the making of
-- directories.
pub mod Prelude
pub mod CString
pub mod ChangeSet
pub mod Listeners
pub mod Locales
pub mod Platform
pub mod Quote
pub mod Sources
pub mod Value
pub mod Encoding
pub mod Keys
pub mod ValueText
pub mod Markup
pub mod Client
pub mod Engine
pub mod Address
