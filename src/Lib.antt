-- ===== src/Lib.antt =====
-- UAVCAN, the transport layer of libuavcan: what a node does between the frames of a CAN bus and
-- the transfers that its publishers and services send and receive; and its distributed allocator of
-- node ids.
--
-- A sender splits a payload into frames, a frame is compiled into a CAN frame, and the frames wait
-- in a queue that is ordered by bus arbitration. On the way in a CAN frame is parsed, the listener
-- of its data type finds the receiver of the sending node, and the receiver collects the payload
-- in a buffer of pool blocks until the transfer is complete and its CRC agrees.
-- Above the transport, the distributed allocator of node ids keeps a replicated log of allocations
-- in a storage of texts; its servers elect a leader and agree on the log.
--
-- - Base: lists and tests over native numbers, laws of the bit operations, and copies into arrays.
-- - Can: frames and arbitration (libuavcan/include/uavcan/driver/can.hpp,
--   libuavcan/src/driver/uc_can.cpp); Can/TxQueue: CanTxQueue of libuavcan/src/transport/uc_can_io.cpp
--   (push, peek, remove and their loops); Can/IoManager: CanIOManager of the same file (send, receive
--   and what they call), over the driver as an interface.
-- - DataType: libuavcan/src/uc_data_type.cpp (kinds, id ranges, signature CRC).
-- - Memory: libuavcan/include/uavcan/dynamic_memory.hpp and libuavcan/src/uc_dynamic_memory.cpp
--   (allocate, deallocate, and the same with a quota). A block is what its user keeps in it.
-- - Util/Map, Util/Multiset and Util/LinkedList: libuavcan/include/uavcan/util/map.hpp, multiset.hpp
--   and linked_list.hpp (insert and remove; insertBefore stands where it is used).
-- - Transport/Crc, Transfer, TransferId: TransferCRC, the transfer types and ids.
-- - Transport/Frame: Frame of libuavcan/src/transport/uc_frame.cpp (isValid, parse, compile).
-- - Transport/TransferBuffer: libuavcan/src/transport/uc_transfer_buffer.cpp; Static is the array,
--   Entry the chain of blocks (read, write, reset, instantiate, destroy), Manager the buffers by key.
-- - Transport/Receiver: libuavcan/src/transport/uc_transfer_receiver.cpp (addFrame and what it calls).
-- - Transport/Sender: TransferSender::send of libuavcan/src/transport/uc_transfer_sender.cpp.
-- - Transport/Listener: libuavcan/src/transport/uc_transfer_listener.cpp (handleFrame, cleanup).
-- - Transport/Registry: libuavcan/src/transport/uc_outgoing_transfer_registry.cpp, and the overload
--   of TransferSender::send that takes its transfer id from there.
-- - Transport/Dispatcher: libuavcan/src/transport/uc_dispatcher.cpp: the registries of listeners, the
--   routing of a CAN frame, send, cleanup, and the spin loops over what receive gives in turn;
--   Loopback: the registry of loopback listeners.
-- - Transport/AcceptanceFilter: libuavcan/src/transport/uc_can_acceptance_filter_configurator.cpp:
--   the hardware filters of a node, and how they are merged; Util/Multiset is their container.
-- - Marshal: libuavcan/src/marshal and libuavcan/include/uavcan/marshal: BitArray
--   (uc_bit_array_copy.cpp), BitStream (uc_bit_stream.cpp, over a transfer buffer as an interface;
--   BitStream/Array is the static buffer as one) and ScalarCodec (scalar_codec.hpp and
--   uc_scalar_codec.cpp, integers on a little-endian machine).
-- - NodeIdServer: libuavcan/include/uavcan/protocol/dynamic_node_id_server, the distributed
--   allocator: Storage (storage_marshaller.hpp), Log, Persistent, Cluster and Raft (log.hpp,
--   persistent_state.hpp, cluster_manager.hpp and raft_core.hpp of distributed), Selector
--   (node_id_selector.hpp), AllocationRequests (allocation_request_manager.hpp). The handlers of
--   RaftCore stand in Raft/Timer, Raft/Requests and Raft/Responses, their runs in Raft/Events.
-- - Tests, with Receiving, Running, Allocation, Cluster, Routing, Io, Filters, Marshalling and
--   Requests: the theorems at concrete inputs, and runs of the code.
--
-- Objects are records; a method takes its object and gives the new one with its result, and the
-- pool goes along wherever blocks are taken or given back. A null pointer is `none`. Fuel: the
-- loop that appends blocks has the number of free blocks, so where it ends the pool is empty; the
-- loop of the sender has the length of the payload, of which each round but the last takes at
-- least one byte; the loop of the CRC check has one more round than the buffer has bytes; the
-- digits of a number have 20 rounds, enough for 64 bits. The loops of the CAN I/O manager wait for
-- the clock, which the driver's interface gives: they have a round of fuel for each tick of the clock
-- to the deadline, where a microsecond has a number of ticks and a reading takes one at least, and
-- give no result where it ends. All other loops follow a list or count what is left of a range.
--
-- The allocator reads its storage through an interface of get and set, and what the core sends is
-- put into a list of effects. The sizes and timeouts that the message types fix are parameters.
--
-- Not modelled: the text output, tracing and assertions; listeners that come and go while a frame
-- is routed (the dispatcher takes the send of the CAN I/O manager and what its receive gives as
-- arguments); the serialisation of floating point numbers, of arrays and of messages; the node
-- layer; the protocol layer but for the distributed allocator, of which the parts that join it to
-- clients are left out; the drivers; the generator of message types.
pub mod Base
pub mod Can
pub mod DataType
pub mod Memory
pub mod Util
pub mod Transport
pub mod Marshal
pub mod NodeIdServer
mod Tests
