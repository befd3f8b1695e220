-- ===== src/Lib.antt =====
-- cppdecnet: a DECnet Phase IV node in C++. A node exchanges packets with its neighbours over data
-- links, routing chooses the neighbour that a packet goes to and hands packets for this node to NSP,
-- and NSP keeps logical links between nodes, over which session control exchanges messages. This
-- library models the parts that carry the protocols' own logic:
--
--   Types     src/common/types.cc and include/decnet/common/types.h: node addresses (`Nodeid`, as its 16
--             bits), LAN addresses, versions and names, with the functions that read and write them.
--   Timers    src/common/timers.cc and include/decnet/common/timers.h: the timer wheel and the Timeout
--             items that it posts, as steps taken one at a time by either thread.
--   Modulo    include/decnet/common/modulo.h: sequence numbers and their partial order. The class
--             computes in 32 bits, and so does the model.
--   Crc       include/decnet/common/crc.h: the CRC class with its template parameters.
--   Ddcmp     src/datalink/ddcmp_packets.cc, src/datalink/ddcmp.cc and include/decnet/common/backoff.h:
--             Ddcmp/Message has the messages and their framing, Ddcmp/Protocol the engine's state and
--             parts and Ddcmp/Receive what it does with a message, an error, its timer and a payload
--             (Protocol::receive is `receive`, split by state and kind; the hooks are outputs).
--   Multinet  src/datalink/multinet.cc: the frames of a circuit over TCP, the receiver's loop (receive_loop)
--             in Multinet and the sender's buffer (send, flush, flush_posted) in Multinet/Send.
--   Nsp       src/nsp/nsp.cc, src/nsp/packets.cc and include/decnet/nsp: class Connection. Nsp/Packets
--             has the packets, Nsp/Link the state, Nsp/Transmit and Nsp/Acks the sending half (send_segments
--             and send_blocked; process_ack, process_nak, retransmit), Nsp/Receive the receiving half
--             (handle_data, handle_interrupt, handle_link_service), Nsp/Api the calls of session
--             control (accept, reject, send_data, disconnect, send_interrupt) and Nsp/States the
--             state machine. Nsp/Table is class NSP, which gives out the addresses of links and hands
--             them their packets.
--   Routing   src/routing/routing_messages.cc and src/routing/l1router.cc: Routing/Message has the two
--             formats of routing messages, Routing/Matrix the computation of routes, Routing/Router
--             the two routers, Routing/Areas what a level 2 routing message does, Routing/Forward what
--             becomes of a packet and Routing/Update class Update, which builds routing messages.
--             Routing/Ptp is a point-to-point circuit (src/routing/ptp.cc, src/routing/adjacency.cc), with its states in
--             Routing/Ptp/States, and Routing/Lan a broadcast circuit (src/routing/lan.cc), with
--             Routing/Lan/Router and Routing/Lan/Endnode the two kinds.
--
-- Prelude passes on what these share. The other files are proofs about them, named for what they
-- prove, and the Tests modules hold runs at concrete inputs.
--
-- State is passed explicitly, and what a part does to its surroundings (a packet sent, an upcall, a
-- counter of a circuit) is appended to a list of outputs in its state. Bytes, words and sequence
-- numbers are natural numbers, with the wrap of a machine integer written out where the source
-- computes in one. NSP computes with double, which the model takes as a type with operations
-- (Nsp.Link.Double), so what is shown holds for any arithmetic of round trips and windows. Session
-- control is a function from what it is told to the calls it makes on the link meanwhile; calls that
-- such a call leads to are not nested further, since the calls that the link offers tell session
-- control nothing.
--
-- Loops over a queue are recursion on it. The loop of send_segments has one more round than the
-- message has bytes, and every round but the last takes one; that of decode_segments has a round for
-- each word, and every round takes two; the loop that takes held segments has one more round than
-- segments are held, and each round takes one; forward turns a packet back once, so it has two rounds;
-- the receiver of frames has a round for each byte, and every round but the last takes four or more.
--
-- std::map is a list in the order of its keys, but for the segments that a link holds, which are only
-- looked up and have the newest first. A pointer to a link is the link's address, and the
-- outputs of a link are carried out by NSP when the link is done with an event. A circuit's timers are
-- in its state; an expiry of one that does not run is nothing. Packets other than routing messages and
-- DDCMP's are the values that their parser makes.
--
-- Behind the answers given for a socket's writes, the connection is full.
--
-- Not modelled: that parser, the counters of the node database, session control and the applications, and all that is input and output.
pub mod Prelude
pub mod Types
pub mod Modulo
pub mod Crc
pub mod Timers
pub mod Multinet
pub mod Ddcmp
pub mod Nsp
pub mod Routing
