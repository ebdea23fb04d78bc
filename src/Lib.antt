-- ===== src/Lib.antt =====
-- Verification of the OpO C client.
--
-- The program is the C library under src/opo: messages are built by builder.c or from OjC documents
-- by opo.c, sent and answered by client.c, handed between threads by queue.c, and read by val.c.
-- Every part passes the same encoded values, whose format is stated here once, in Wire.antt, apart
-- from the code: the values, the bytes of each, and which values the format can hold.
--
-- Files and parts:
--   Prelude.antt, Prelude/   names, tests, lists and signed integers over the native numbers
--   Outcome.antt             a run ends, leaves the bytes that it was given, or runs out of fuel
--   Bytes.antt, Bytes/       read_uint16 to read_uint64 and fill_uint16 to fill_uint64
--                            (src/opo/val.c, src/opo/builder.c, src/opo/opo.c)
--   Err.antt                 src/opo/err.h, src/opo/err.c
--   Wire.antt, Wire/         the wire format, and lemmas on it
--   Val.antt                 the type tags (src/opo/internal.h) and the sizes and types of values
--   Val/Access.antt          the accessors of src/opo/val.c
--   Val/Members.antt         opo_val_members, opo_val_next, opo_val_member_count
--   Val/Path.antt, Val/Path/ val_key and opo_val_get, and the value that a path names
--   Val/Iterate.antt         val_iterate and opo_val_iterate with the caller's callbacks
--   Val/Iterate/Visit.antt   the calls that a value prescribes, each of which may stop the iteration
--   Msg.antt, Msg/           message ids and sizes (src/opo/val.c, src/opo/val.h)
--   Builder.antt             the builder of src/opo/builder.c: its block and its growth
--   Builder/Push.antt        check_key, opo_builder_pop and the calls that add an element, over the
--                            texts of Builder/Fill.antt
--   Builder/Finish.antt      opo_builder_finish, opo_builder_take, opo_builder_cleanup
--   Builder/Script.antt      the calls that add a whole value
--   Builder/Room.antt to     proofs on the builder
--     Builder/Iterate.antt
--   Ojc.antt                 the interface of the OjC library, as far as src/opo/opo.c uses it
--   Ojc/Text.antt            detect_uuid and time_parse of src/opo/opo.c
--   Ojc/Fill.antt            wire_size, wire_fill and the functions that make messages with them
--   Ojc/Reads.antt           which value of the format an OjC document stands for
--   Ojc/Detect.antt, Ojc/Time.antt, Ojc/Encode.antt, Ojc/Leaf.antt, Ojc/Message.antt
--                            proofs on them
--   Ojc/Parse.antt           push_parse_value, opo_val_to_ojc and opo_msg_to_ojc of src/opo/opo.c
--   Ojc/Calls.antt           the calls of OjC that build a value, and the values that come out right
--   Ojc/Spots.antt, Ojc/Rounds.antt, Ojc/Stack.antt, Ojc/Turned.antt, Ojc/Leaves.antt, Ojc/Turn.antt,
--     Ojc/Built.antt
--                            proofs on them
--   Queue.antt, Queue/       src/opo/queue.c
--   Client.antt              the client of src/opo/client.c: its queries, their ring, and its logs
--   Client/Send.antt         opo_client_query
--   Client/Receive.antt      pending_find and process_msg
--   Client/Process.antt      take_next_ready and opo_client_process
--   Client/Ring.antt         what the ring holds: queries with responses, then those that wait
--   Client/Enqueue.antt, Client/Submit.antt, Client/Accept.antt, Client/Drain.antt, Client/Calls.antt,
--     Client/Count.antt, Client/Unknown.antt
--                            proofs on the client
--   Client/Serial.antt       runs of calls of one thread, and the lists that they are compared with
--   Client/Stands.antt, Client/Refine.antt
--                            proofs on these runs
--   Client/Recv.antt         recv_loop, over a network that answers poll and recv
--   Client/Async.antt        opo_client_query and opo_client_process with a query_callback
--   Client/Framed.antt, Client/Cut.antt, Client/Arrives.antt, Client/Frames.antt, Client/Bounded.antt,
--     Client/Ask.antt, Client/Answers.antt, Client/Stream.antt, Client/Responses.antt
--                            proofs on them
--   Tests.antt, Tests/       runs on concrete inputs
--
-- A pointer into a message is the list of the bytes from it to the end of its buffer. A read at the
-- end of the list is a fault, and so is a pointer that is moved past it. NULL is none. A word of w
-- bits is a number below 2 ^ w; casts wrap. What a function writes through a pointer is returned
-- beside its result, the error report (opoErr) last. `switch (*val)` is the function `switch` from
-- a byte to the case that it selects, and a function by clauses on the case.
--
-- Loops take fuel where what they read decides how far they go. opo_val_member_count makes one
-- round for each member, and opo_val_iterate at most one for each byte of the value, so the length
-- of the value is enough fuel for both, and for wire_size and wire_fill, which take fuel for the depth
-- and the members of a document; the theorems say so by their hypotheses.
-- opo_val_to_ojc makes a round for each value and each key, at most one for each byte, and looks once
-- more at the end.
-- opo_val_get takes fuel for the segments of the path and for the bytes of the value. In the queue and
-- the client, fuel bounds the naps in dsleep, and a number of tries stands for a timeout. What other
-- threads do during a nap is an argument of the call. pending_find looks at each slot at most
-- twice, and process_msg passes over at most all; opo_client_process takes fuel for its rounds, one
-- for each query that is ready and one more.
--
-- A time is stated by the calendar, as seconds rounded down and the nanoseconds after them
-- (Wire/Time.antt). For which times and answers of callbacks the calls of a value are stated is in
-- Val/Iterate/Visit.antt (Steady) and Ojc/Calls.antt (FromEpoch).
--
-- Parameters: the callbacks of opo_val_iterate and their context, strtod with the type double,
-- gmtime_r with the formatting of its result, strerror, pipe, and the C heap of the builder, in
-- which malloc may fail. The digits that snprintf makes of a double are an argument of
-- opo_builder_push_double. The accessors of OjC, timegm and the text of a double are arguments of
-- the functions of opo.c, and what opo_val_to_ojc creates and links is a list of its calls of OjC, in which a
-- value has the type that it is created with;
-- strtol is one of opo_val_get, and the answers of write, errno and strerror are arguments of
-- opo_client_query.
--
-- recv_loop runs for a number of rounds, as it ends with its connection only; the bytes of one recv are
-- fuel for the messages in them. In it, poll, recv, malloc, errno and the flag active are the answers of
-- a world outside, a parameter; the theorems that need a network that works state what it does (Arrives in
-- Client/Arrives.antt).
--
-- Not modelled: of src/opo/client.c, the sockets, threads and descriptors that opo_client_connect and
-- opo_client_close make and free, and wait_for_ready, whose nap is an argument; the clock
-- (src/opo/dtime.c), the unit tests.
pub mod Prelude
pub mod Outcome
pub mod Bytes
pub mod Err
pub mod Val
pub mod Wire
pub mod Msg
pub mod Queue
pub mod Builder
pub mod Ojc
pub mod Client
mod Tests
