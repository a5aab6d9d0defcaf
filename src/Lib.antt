-- ===== src/Lib.antt =====
-- mpitofino offloads the allreduce operation of MPI onto a programmable switch. The switch daemon
-- (projects/mpitofino/sd) keeps the collective channels, allocates the switch's resources for them
-- and programs the switch; a node daemon on each host (nd) forwards the requests of MPI processes
-- to it; the client library (client_lib) exchanges the buffers with the switch by RoCE.
--
-- Prelude and its children hold the shared names: comparisons of numbers, list lemmas, the result
-- type for C++ exceptions, and `std::map` and `std::set` as association lists in the order of their
-- keys (Prelude.OrderedMap). An exception is a value of `Exception`; `undefined_behaviour` stands
-- for what C++ leaves undefined. The machine integers are numbers with their wrap-around written
-- out.
--
-- SimpleTypes is common/simple_types.h: MAC and IPv4 addresses, and their textual forms.
--
-- StateRepository is sd/state_repository.h and .cc: the collective channels, the allocators of
-- queue pairs (`get_free_coll_qp_common`) and aggregation units (`get_free_agg_unit`) and the
-- operations that notify the subscribers. A call of a subscriber is recorded by its handle. The
-- allocator of queue pairs is a loop on fuel 200000: it makes at most two passes over the 16-bit
-- numbers. StateRepository.Config is `read_config_file`, on the contents of the two files.
--
-- Agent is sd/distributed_control_plane_agent.h and .cc: `Agent::on_client_fd` and the handlers
-- that it calls, on the state of StateRepository and the list of clients. A client is known by its
-- address. A message that was received, or the end of the stream, comes as an event; a response
-- that was sent is recorded with its client. The requests come from proto/ctrl_sd.proto.
--
-- Utils is the Internet checksum of common/utils.cc; the loop that folds the carries in needs at
-- most three rounds for a sum of 32 bits.
--
-- PacketHeaders is sd/packet_headers.h and common/packet_headers.h: each header with its bytes.
-- PacketProcessor is sd/packet_processor.cc: ARP, ICMP echo and the topology discovery protocol. A
-- packet is the list of its bytes; what goes to `sendto` is the result of a handler.
--
-- NodeDaemon is nd/node_daemon.cc: its clients, the requests it forwards to the switch, the
-- responses it hands back and the way it finds its switch. It sends the messages of Agent, and
-- NodeDaemon.Tracking follows by them what the switch knows of the node. NodeDaemon.Startup is the
-- constructor, with the choice of the interface, and NodeDaemon.ServiceSocket its loop over the
-- paths of the service socket. NodeDaemon.Runs is the event loop: a list of events, with what the
-- calls of each handler give. NodeDaemon.Lifetime puts the constructor and the events together. The
-- errors of epoll, and those of sockets that the models do not name, are left out: a write to the switch
-- succeeds on a connection that is open. The name of an
-- interface is the memory from its first byte on, since the source copies more than the name.
--
-- UnixSockets is the interface to files and unix domain sockets that the node daemon and the
-- clients share: a record of calls on a state, with what is documented of them as
-- UnixSockets.IsLawful. UnixSockets.Memory is a system in memory that meets it. A path counts by
-- the directory entry that it names, and a descriptor by the socket that it stands for. Rendezvous
-- compares how the daemon chooses its path (nd/node_daemon.cc) with how a process looks for it
-- (client_lib/mpitofino.cc).
--
-- ComUtils is common/com_utils.h: messages with their length on a stream socket, and messages as
-- datagrams (ComUtils.Datagram). The encoding by protobuf is a parameter, and each call of `read`
-- or `write` transfers as many bytes as its input says.
--
-- ClientLib is client_lib/mpitofino.cc: the conversion of the byte order (ClientLib.Endianess) and
-- the loop of `AggregationGroup::allreduce` (ClientLib.Allreduce), which takes the completions that
-- each poll of the completion queue returns as its input, none for a poll that finds nothing.
-- Posting a request to the queue pair is taken to succeed. The bytes that `pshufb` moves in the
-- vector loop are moved by the mask of the source. ClientLib.Channels is
-- `AggregationGroup::get_channel` and what it calls, with the answers of the verbs library and of
-- the node daemon as its input; the parts of an exception's clean-up that only free handles are
-- left out. ClientLib.Connection is the constructor of `Client` and ClientLib.Device its choice of
-- the device and of the address for RoCE v2, from what the files of each device hold. The printing
-- is left out.
--
-- AsicDriver is sd/asic_driver.cc: how the tables of the switch chip follow the channels
-- (`ASICDriver::on_st_repo_channels`), and its Ethernet switch. The chip's run-time library is a
-- parameter, AsicDriver.Tables.Switch, with its documented behaviour, for tables that have room, as
-- AsicDriver.Tables.IsLawful; AsicDriver.Memory is a chip in memory that meets it. AsicDriver.Plan
-- has the entries that are written for a channel, AsicDriver.Bitmaps the workers' bits,
-- AsicDriver.Sync the writing and the deletion of entries, AsicDriver.Learning the Ethernet switch.
-- AsicDriver.Served follows the entries of one channel through the writes for all of them. All
-- entries of a channel are computed before the first is written, which differs from the source only
-- in what was written before something is thrown. A loop over a table is a loop with
-- `table_iterator` of sd/bfrt_tools.h, in AsicDriver.Iterator. What it asks of the library is a
-- parameter, AsicDriver.Iterator.Cursor, and AsicDriver.Iterator.IsOrdered is what is assumed of it:
-- the entries are in an order that a deletion keeps. Whether the library finds the entry behind one
-- that was just deleted, which a comment of the source asks, is left open. AsicDriver.Driven
-- compares the driver with simple loops over the lists of the entries. AsicDriver.Memory.Cursor
-- iterates over the chip in memory, and AsicDriver.Row is a table whose iterator goes on behind a
-- deleted entry. A loop with `table_iterator` has fuel for one round for each entry. What a loop
-- collects beside its deletions comes from the entries that its table had before. The start-up of
-- the library, the look-up of tables by their names, the registration of callbacks and the locking
-- are left out.
--
-- SwitchDaemon puts Agent, StateRepository and AsicDriver together: what the agent's events leave
-- in the repository, and the driver's callback on it.
--
-- Not modelled are the templates of the table helpers (sd/bfrt_tools.h), the P4 program, and the
-- files that are copies from another project, sdfs: the event loop (common/epoll.cc), the wrappers
-- of signals, timers and descriptors, the dynamic buffers and the profiler.
pub mod Prelude
pub mod SimpleTypes
pub mod Utils
pub mod StateRepository
pub mod Agent
pub mod ComUtils
pub mod AsicDriver
pub mod PacketHeaders
pub mod PacketProcessor
pub mod NodeDaemon
pub mod ClientLib
pub mod SwitchDaemon
pub mod UnixSockets
pub mod Rendezvous
