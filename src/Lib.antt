-- ===== src/Lib.antt =====
-- A model of the IEEE 2030.5 client of EPRI, and the theorems about it. Paths are those of the
-- repository.
--
-- The client retrieves the resources of a 2030.5 server, follows the events of its programs in a
-- schedule per device and function set, and reports how it followed them. The parts modelled here:
--
-- Schedule (schedule.c): a Schedule with its queues scheduled, active and superseded as lists of
--   block names, the blocks in a store, and the calls of other modules as effects in their order.
--   Schedule/Insert.antt has insert_block, insert_active and activate_block;
--   Schedule/Update.antt has update_schedule, schedule_event, remove_blocks, delete_blocks and
--   event_update. The system time and the events are arguments (Env), and the results of
--   randomize_start and randomize_duration, which call rand, are arguments of new_block.
--   Schedule/Disjoint.antt and Schedule/Controls.antt are about the DER controls of the active blocks, and
--   Schedule/Expiry.antt about completed and removed blocks, Schedule/Losses.antt about the active
--   blocks that insert_active loses.
-- EventQueue (event.c, queue.c): the timed and the immediate events of the client's main loop.
--   EventQueue/Order.antt has the order of events.
-- LinkedList (list.c, list_util.c): lists as the sequence of their links. LinkedList/Sort.antt is
--   about insert_sorted and quick_sort, LinkedList/Sets.antt about lists of data as sets.
-- Words: the comparison functions that return a 64-bit difference as an int.
-- Exi (exi_parse.c, exi_output.c): EXI documents. Exi.antt has the bit stream and its numbers,
--   Exi/Values.antt bit fields, signed numbers and binary data; Exi/Streams.antt relates a reader to a
--   writer, Exi/Groups.antt the rounds of the number codec, Exi/Integers.antt whole numbers.
--   Exi/Strings.antt has the strings on a parser that can be resumed, with Exi/Literals.antt and
--   Exi/Room.antt about the room for them, Exi/Driver.antt the functions of exi_parser with
--   Exi/Laws.antt about them, and Exi/Output.antt the functions of exi_output.
-- Schema (schema.c): the schema tables; Schema/Derives.antt is about the derivation of types.
-- Parser (parse.c): parse_doc as rounds of a state machine, for any ParserDriver, on a memory that
--   maps pointers to values; Parser/Stack.antt has the laws of a driver and the stack.
-- Output (output.c): output_doc in the same way, for any OutputDriver; Output/Counts.antt is about
--   the counts that parse.c sets and output.c reads.
-- Retrieve (retrieve.c, resource.c): the stubs of resources in a store, what is asked of other
--   modules as a list of calls. Retrieve/Graph.antt has the walks over the dependents and
--   Retrieve/Process.antt the answers of the server. Retrieve/Reset.antt is about dep_reset,
--   Retrieve/Progress.antt and Retrieve/Complete.antt about dep_complete, Retrieve/Errors.antt about
--   failed responses. The completion routine of a stub is a parameter (Env), a function of the store,
--   and the loop of dep_complete walks the list of dependents as it stands after each round.
-- SeObject (se_object.c): the keys of list items; SeObject/Order.antt is about their order.
-- Named (named.c): lists of named objects, with Named/Lookup.antt about lookups.
-- Hash (hash.c): the sparse hash table, with the functions of a table as parameters.
-- HttpParse (http_parse.c): the tokens of header fields, with HttpParse/Tokens.antt about them, and
--   the machine of media_range in HttpParse/MediaRange.antt.
-- StringTable (string_table.c): the string tables of an EXI document; StringTable/Lookup.antt is
--   about what they find. A table is the value of its name; that realloc moves a full table, and
--   the links are set again, is not modelled.
-- Xml (xml_token.c, xml_parse.c, xml_output.c): XML documents. Xml.antt has names, references and
--   attributes, Xml/Token.antt the tokenizer, Xml/Simple.antt the values of simple types,
--   Xml/Parse.antt the functions of xml_parser, with Xml/Laws.antt about them, and Xml/Output.antt
--   the functions of xml_output. Xml/RoundTrip.antt, Xml/Signed.antt and
--   Xml/Values.antt relate what is written to what is read, and Xml/Endless.antt is about the state that
--   the switch of parse_doc does not have.
-- Http (http.c): an HTTP connection as its buffer, its queues and what its network gives and takes.
--   A write to the network comes to the length that was written, which may be a part of the message,
--   or to a failure. Http/Receive.antt has the lines, header fields and messages of http_receive.
--   Http/Queues.antt is about the order of messages, Http/Answers.antt about the requests that
--   responses are given to, Http/Lines.antt about lines that come in parts.
-- Uri (uri.c, and hex4 of address.c): the parser of URIs, with parse_address as a parameter;
--   Uri/Path.antt is about percent-encoding, Uri/Host.antt about the name of a host.
-- Utf8 (utf8.c), Util (util.c), Query (query.c): the text functions the parsers stand on.
-- Prelude: shared names and the lemmas on lists, tests and bitwise operations.
-- Tests: runs at concrete inputs.
--
-- EventQueue and Schedule both keep their queues by LinkedList.insert_sorted; Query uses the digits
-- of Util. Parser and Output share the items of the stack and the memory, and reach a format only
-- through the record of its driver, which Exi and Xml give; Exi uses Utf8 and StringTable.
-- Retrieve keeps requirements and dependents by the sets of LinkedList.
--
-- Bounds: machine integers are natural numbers with their wrap-around or the undefined overflow
-- written out. Fuel: quick_sort has the length of the list, bit_count 32 rounds for 32 bits,
-- parse_uint 11 rounds, of which the last only refuses, and output_uint 10 rounds for 64 bits;
-- hash_find has as many rounds as the table has places, hash_put takes fuel for the resizes
-- within a resize, and media_range has two rounds for each byte. The chain of bases
-- of a type, dep_complete, dep_reset, parse_doc, output_doc and http_receive take fuel as an
-- argument; for the first three a rank that falls along the chain or the dependents bounds it. Each
-- loop of dep_complete has rounds of its own, as many as a stub has dependents.
--
-- Not modelled: sockets, TLS and other system calls; the texts of HTTP requests, addresses and
-- subscriptions; the generated schema tables and types; the generators; memory management; prints.
pub mod EventQueue
pub mod Exi
pub mod Hash
pub mod Http
pub mod HttpParse
pub mod LinkedList
pub mod Named
pub mod Output
pub mod Parser
pub mod Prelude
pub mod Query
pub mod Retrieve
pub mod Schedule
pub mod Schema
pub mod SeObject
pub mod StringTable
pub mod Tests
pub mod Uri
pub mod Utf8
pub mod Util
pub mod Words
pub mod Xml
