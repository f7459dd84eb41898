-- ===== src/Lib.antt =====
-- Verification of the overlay network daemon Spines.
--
-- The daemon keeps a routing table of the overlay network (daemon/route.c), computed by
-- Floyd-Warshall from the edges that link state tells it of. Unicast packets follow the next hops
-- of the table; multicast and anycast packets go to the neighbors that the table gives for the
-- members of the group, which a cache remembers; source-routed packets carry a mask of the edges
-- that they may take, which daemon/multipath.c makes and combines. Between neighbors, links of
-- several protocols carry the packets; a reliable link (daemon/reliable_datagram.c) keeps what it
-- sent until it is acknowledged and sends it again, and a realtime link (daemon/realtime_udp.c)
-- requests what is lost once and keeps what it sent for a short time. The edges, and who is a
-- member of which group, are states that each node says of itself and floods to the others
-- (daemon/state_flood.c, with the protocol definitions of daemon/link_state.c and
-- daemon/multicast.c).
--
-- Which file models what:
--
-- Prelude: lists and counted loops over the native numbers, integers, finite maps, and the bits
--   of a word.
-- Routing/Table: the matrix of RR_Init in daemon/route.c. relax, relax_row and relax_all are the
--   bodies of its three loops and compute is the whole; Cells, Walks, Shortest and Forwarders
--   prove what it computes.
-- Routing/Regime: RR_Init around the matrix (index_nodes, fill_edge, fill_chain, fill_all,
--   rr_init), RR_Find_Route and RR_Get_Next_Hop. Links, Entered, Ways and Routes relate the table
--   to the edges themselves.
-- Routing/Address: the macros Is_mcast_addr, Is_acast_addr and Is_node_addr of
--   daemon/net_types.h.
-- Routing/Multicast: RR_Get_Mcast_Neighbors and RR_Discard_Mcast_Neighbors of daemon/route.c.
-- Routing/Dissemination: Source_Based_Disseminate of daemon/route.c.
-- Routing/Delivery: Forward_Data and Deliver_and_Forward_Data of daemon/route.c, which end with
--   the delivery to the local clients.
-- Links/Loss: Relative_Position, Check_Link_Loss and Set_Loss_SeqNo of daemon/link.c.
-- Links/Hello: the state machine of a leg, by Send_Hello, Dead_Leg and Process_hello_packet of
--   daemon/hello.c, Disconnect_Network_Leg and Network_Leg_Set_Cost of daemon/network.c and
--   Create_Link of daemon/link.c for a control link. What they call and queue is a list of
--   actions.
-- Links/Bucket: Link_Send, Leg_Try_Send_Buffered and Fill_Leg_Bucket of daemon/link.c, with what
--   a leg keeps for its rate limit (daemon/network.h). Limited is about one call and Rate about
--   runs of them.
-- Reliable: Send_Ack of daemon/reliable_datagram.c and what it reads of Reliable_Data
--   (daemon/link.h).
-- Reliable/Window: the sending half of Reliable_Data, the congestion window (stream_window) and
--   the loops that add requests to a packet. Its Outstanding is the abstract view of a link as a
--   queue of messages.
-- Reliable/Timer: the computation of timeout_val, which Reliable_Send_Msg, Send_Much,
--   Reliable_timeout and Process_Ack repeat.
-- Reliable/Sending: Reliable_Send_Msg (send_now, buffer and send_or_buffer are its parts) and
--   Send_Much (send_while_room, send_buffered, resume).
-- Reliable/Receiving: Process_Ack (keep_nacks, measure, release, grow and settle are its steps on
--   the sending window, receive is that on the receiving window), Process_ack_packet and
--   Try_to_Send.
-- Reliable/Resending: Reliable_timeout and Send_Nack_Retransm.
-- Reliable/Datagrams: Process_rel_udp_data_packet and Forward_Rel_UDP_Data of
--   daemon/reliable_udp.c.
-- Reliable/Ends: the two ends of a reliable link, as Create_Link (daemon/link.c) makes them, and
--   a network that loses, repeats and reorders packets, as a step relation.
-- LinkState: the Lamport timestamps of daemon/link_state.c (Link_State_LTS_inc,
--   Link_State_LTS_cmp).
-- Flood: the common part of edges and group states, and Add_to_changed_states with
--   Find_Changed_State (find_changed_state, set_mask, insert_changed) of daemon/state_flood.c. A
--   protocol definition Prot_Def is the record ProtDef.
-- Flood/Receive: Process_state_packet of daemon/state_flood.c, for the data of a message whose
--   length is that of its cells.
-- Flood/Send: Net_Send_State_Updates (pack, send_source, send_sources, finish,
--   net_send_state_updates) and Send_State_Updates; Flood/Send/All: Net_Send_State_All. The other
--   modules below it are about these.
-- Flood/Keep: Resend_States and State_Garbage_Collect (collect_chains, collect_chain and
--   collect_state are its loops) of daemon/state_flood.c, with Try_Remove_Node of daemon/node.c.
-- LinkState/Edges: Create_Edge, Edge_Process_state_cell and the other functions of Edge_Prot_Def
--   of daemon/link_state.c.
-- Groups: Join_Group, Leave_Group, Create_Group and the functions of Groups_Prot_Def of
--   daemon/multicast.c.
-- MultiPath/Mask: MultiPath_Neighbor_On_Path, MultiPath_Is_Superset, MultiPath_Create_Superset
--   and MultiPath_Is_Equal of daemon/multipath.c.
-- MultiPath/Stamp: MultiPath_Stamp_Bitmask of daemon/multipath.c with its cache.
-- Realtime, Realtime/Receive, Realtime/Send: Realtime_Data of daemon/link.h, and
--   Process_RT_UDP_data_packet, Forward_RT_UDP_Data, Clean_RT_history, Send_RT_Nack,
--   Send_RT_Retransm and Process_RT_nack_packet of daemon/realtime_udp.c.
--
-- State and operations. A hash table is a map or an association in the order in which the program
-- walks it; a pointer to a node is the node's identifier; an array that is written in place is a
-- list, or a function of the index where it is never walked. A call that queues an event or sends
-- a packet gives that as part of its result. Failures of memory allocation end the program and
-- are left out; where the program itself exits, the result is none. In Flood, the mask of a
-- changed state is a function of the neighbor's id; what a changed state points to is a parameter
-- of the sending; and the calls of Edge_Process_state_cell that tell the dissemination graphs of
-- a cost and clear the cache of the paths, the nodes that it creates, and the kernel routes that
-- are scheduled for a group are left out. The changed states of a source are visited in the order
-- of the whole list. A message of state packets stands with its number of bytes beside its cells.
--
-- Bounds and fuel. Each counted loop runs for the number of rounds that the code computes. The
-- loop that advances the receive tail of a realtime link raises the tail in each round and stops
-- at the head, so head minus tail rounds are enough, and so with the loop that cleans the sent
-- history. Counters of realtime packets have 64 bits and wrap; the theorems suppose numbers below
-- the last. Routing costs are integers without a bound: an edge's cost has 16 bits and there are
-- at most 50 nodes, so a sum of costs on a route fits the 32 bits of the code. Ages of packets
-- wrap at 32 bits as in the code. The loop of Check_Link_Loss over missing packets has fuel, as
-- it does not end for every number; a round for each missing packet and one more is enough where
-- it does. The sequence numbers of a reliable link have 32 bits and wrap; the theorems suppose
-- numbers below the last. The loops over its windows run for the numbers between tail and head,
-- and the loop of Send_Much for the messages that wait. Its congestion window has a floating
-- point: the type and its operations are the parameter Floats, whose laws are those of the floats
-- up to 2 ^ 24. Times in microseconds, round trip times and times in seconds, and the ages and
-- costs of states as they are kept, are numbers without a bound; an age that is sent has 16 bits.
-- Send_State_Updates queues itself again, which calls has fuel for; one call more than a sixth of
-- what is to be sent is enough. Sequence numbers of legs are taken below 2 ^ 15, where the 16
-- bits that are received and the 16 bits with a sign that are kept agree.
--
-- Not modelled: MultiPath_Compute, which is a parameter of the stamping; sockets, packet dispatch
-- and the configuration parser; the libraries stdutil and libspread-util; reliable sessions, the
-- intrusion-tolerant link protocol, sessions, and hello pings and the discovery of neighbors. The
-- floating-point steps of the loss estimate are parameters, as are the costs of a leg that follow
-- from its round trip time and loss, the bytes that are computed for a rate and a time, and the
-- results of the link protocols for Forward_Data. Link_Send's count of packets for Print_Cost is
-- left out; in the models of the link protocols a call of Link_Send is an action, which the model
-- of Link_Send does not continue.
pub mod Flood
pub mod Groups
pub mod LinkState
pub mod Links
pub mod MultiPath
pub mod Prelude
pub mod Realtime
pub mod Reliable
pub mod Routing
