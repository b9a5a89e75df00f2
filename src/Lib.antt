-- ===== src/Lib.antt =====
-- Programs of a course on networks: the reliable file transfer over UDP, an HTTP client and server, and
-- two simulations of routing.
--
-- The transfer (mp2/src) sends a file from one program to another in packets of up to 1444 bytes
-- over UDP. The sender (sender_main.c) maps the file, cuts it into numbered chunks and sends those
-- that the congestion window lets out; the receiver (receiver_main.c) writes the chunk that is due,
-- keeps those that come early in a ring of 4096 slots and acks the number it waits for. Acks and the
-- retransmission timer drive the window (adt.c), which follows TCP Reno: slow start, congestion
-- avoidance and fast recovery.
--
-- The HTTP client (mp1/src/http_client.c) cuts a URL into host, port and path, prints a GET request
-- into a buffer of the size that it has computed, and sends it; the server (mp1/src/http_server.c)
-- reads it piece by piece up to the empty line, and answers with a status line, the length of the file
-- and the file, which the client stores as it arrives.
--
-- The link state program (mp3/src/linkstate.cpp) reads the edges of a network from the lines of a file,
-- finds for each node by Dijkstra's algorithm the distances to the others and the next hop towards
-- them, and prints these tables and the ways of messages, again after each change to an edge. The
-- distance vector program (mp3/src/distvec.cpp) reads the same files; its nodes tell their neighbours
-- their distances, round by round, until nothing changes.
--
-- Which file models which part:
--
-- - Base: numbers, lists, words and `Proc`, the outcome of C code that does system calls. `done` is a
--   value, `exited` is `exit` with its code, `blocked` is code whose replies of system calls are used
--   up (it waits for the next one), `fault` is an access out of bounds.
-- - Rdt/Constants: mp2/src/constants.h and the packets of mp2/src/adt.h.
-- - Rdt/Cwnd: struct CongestionWindow and its functions in mp2/src/adt.c (`initCwnd`, `ackCwnd`,
--   `confirmThreeDups`, `timeoutCwnd`); the two function pointers of the state are the types `AckFn`
--   and `DupFn`. Cwnd/Invariant, Cwnd/Growth and Cwnd/Recovery hold its theorems.
-- - Rdt/Timer: the timer of mp2/src/adt.c. Its descriptor's `read` and `timerfd_settime` are replies.
-- - Rdt/Sender: `SenderStat` and its functions in mp2/src/adt.c. Sender/Acks has `ackAll` and `merge`
--   of mp2/src/sender_main.c, Sender/Send has `prepare_packet` and `sendpkts`; the theorems are in
--   Sender/Laws, Sender/Packets, Sender/Burst and Sender/Batch.
-- - Rdt/Transfer: `recvAll` and the loop of `reliablyTransfer`; Transfer/Guard and Transfer/Reading
--   hold its theorems.
-- - Rdt/Receiver: the functions of mp2/src/receiver_main.c on one packet; Receiver/Buffer has
--   `check_and_sent_buffer` and Receiver/Receive the loop of `reliablyReceive`. The theorems are in
--   Receiver/Writing, Receiver/Slots, Receiver/Flushing, Receiver/Reassembly, Receiver/Acking,
--   Receiver/Due, Receiver/Delivery, Receiver/Arriving, Receiver/Peers and Receiver/Complete.
-- - Rdt/Tests: runs at concrete inputs.
-- - Http/CString: the functions of the C library on strings that mp1/src calls.
-- - Http/Request: struct http_request, `build_request`, `generate_request` and the loop of `main` that
--   sends in mp1/src/http_client.c; the theorems are in Request/Url and Request/Text. Http/Tests has
--   runs at concrete inputs.
-- - Http/Response: `generate_response` and `respond` of mp1/src/http_server.c, with the theorems in
--   Response/Laws.
-- - Http/Parse: `parse_response_header` of mp1/src/http_client.c. Parse/Decimal is about decimal numbers,
--   Parse/RoundTrip about the text of a server read by a client.
-- - Http/Connection: `recv_header`, `parse_request_header` and the child process in `main` of
--   mp1/src/http_server.c. Connection/Words is about the request line, Connection/Search and
--   Connection/Receiving about a header that arrives in pieces, Connection/Serving and
--   Connection/Requests about the answer.
-- - Http/Fetch: `main` of mp1/src/http_client.c from the request to the stored file.
-- - Routing/Map: the maps of C++, with the lemmas on them. Routing/Line: the lines of the input.
-- - Routing/LinkState: class Node of mp3/src/linkstate.cpp and `build_graph`; LinkState/Table has
--   `build_forwarding_table` with `get_idx_of_min_cost`, LinkState/State the class Link_State with
--   `build_nodes_forwarding_tables` and `next_hops`, LinkState/Output `print_results`,
--   `print_messages` and `main`.
-- - LinkState/Paths: walks and distances in a graph, and what makes a graph well-formed; no algorithm
--   occurs there. LinkState/Edges, LinkState/Graphs and LinkState/Topology are about the graph that the
--   lines make. LinkState/Invariant is what the search keeps, with the lemmas of its steps in Nearest,
--   Improving, Relaxing, Neighbours, Reaching, Visiting and Distances; Hops and Filling are about the table of
--   next hops, Routes about a whole `build_forwarding_table`. LinkState/Same, Keeping, Network, WayBack and
--   Printing carry this to all nodes, to the hops of a message and to what is printed.
-- - Routing/DistVec: class Node of mp3/src/distvec.cpp (`Router`, around the Node of link state routing,
--   whose members and functions this program repeats), `build_graph`, `initial_all_dist` and
--   `build_nodes_forwarding_tables`; DistVec/Output has `print_results`, `print_messages`, `next_hops`
--   and `main`.
-- - DistVec/Members is about lists of ids, DistVec/Vectors, Comparing and Updating are about one
--   node and the distances that it is told, Pushing and Sending about the first loop of a round,
--   Networks, Stepping, Budgets, Rounds and Settling about whole rounds, and Optimal about the
--   network when they have ended. Views relates the graph to that of link state routing; Fresh,
--   Starting, Initial and Beginning are about the network after a line, Settled and Learning about
--   a line and the rounds after it. Printing, Reading, Reread, Kept, Messages and Results are
--   about the output, Lines and Program about all lines.
-- - Routing/Tests: runs at a concrete network.
--
-- A pointer into a string is its offset, a string the list of its bytes up to the NUL; what is written
-- into a buffer is checked against its size.
--
-- Names are those of the source in snake case (`__toCongAvoid` is `to_cong_avoid`).
--
-- Numbers are natural numbers; a `uint32_t` or a `size_t` (64 bits) keeps its wrap-around, as in
-- `add32`. A `char` flag is a Bool where the code stores 0 or 1 only, and a number where it comes from
-- a packet. An array of the receiver's ring is a function of the slot.
--
-- Loops around system calls recurse on the list of replies. The two loops of `check_and_sent_buffer`
-- recurse on fuel, 4096 rounds to find the first empty slot and 4097 to write: within a file shorter
-- than 2 ^ 32 - 4096 chunks, a ring whose slots hold packets of the window always has an empty slot
-- among the 4096 (the one that is due was written and not stored), so the fuel is enough.
--
-- The loop of the search recurses on the number of nodes, since each round visits one more; the way back
-- from a node recurses on INT_MAX steps, since each step lowers a distance that is below INT_MAX. The
-- buffer of `recv_header` doubles at most 64 times, which passes every `size_t`; after 1023 bytes more
-- at most two doublings are needed. The rounds of distance vector routing recurse on
-- 2 ^ 64 * n * n + 1 rounds for n nodes: a round with a change lowers a distance, or the next hop at the
-- same distance, at one of the n * n pairs of nodes, and both are below 2 ^ 32; `next_hops` recurses on
-- INT_MAX hops, since each lowers the distance that is left.
--
-- An `int` of the routing programs that serves as the id of a node is a number below 2 ^ 32, shifted by
-- 2 ^ 31, so that -1 is 2147483647. The order of a C++ `unordered_map` is unspecified; the model
-- keeps the order of the keys, and the smallest of several nearest nodes is taken in any order; an
-- entry of a vector changes what is stored for its own node only. `m[k]` creates a missing entry as
-- 0; where later code could see the entry, the model keeps it.
--
-- Not modelled: the set-up of sockets and files, messages to the user, the waits (`usleep`), which
-- change no state, and the network itself; failing allocations; the loop of `accept` and `fork` of the
-- HTTP server, which keeps no state; the exercises of mp0; the
-- functions of mp3/src/distvec.cpp that are never called; the simulator of mp4 (Python).
pub mod Base
pub mod Http
pub mod Rdt
pub mod Routing
