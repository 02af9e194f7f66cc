-- ===== src/Lib.antt =====
-- A verification library for the exchange simulator, a C++20 server that matches limit and market
-- orders.
--
-- The parts and how they interact. Clients connect over TCP (src/exchange_server.cpp). The server
-- thread reassembles frames of a type byte, a length in network order and a payload, and pushes them to
-- an inbound ring (include/spsc_ring_buffer.hpp). The processor thread (src/order_processor.cpp) takes
-- them out, reads them by the serializer (src/binary_serializer.cpp), runs the matching engine
-- (src/matching_engine.cpp) on the order book (src/orderbook.cpp), and pushes the replies, serialized,
-- to the outbound ring, from which the server sends them.
--
-- Which file models which part:
--   Common, Common/*           helpers: tests on numbers, lists, and how a C++ call ends (Outcome)
--   Types                      the enumerations, structs and integer widths of include/
--   Order, Order/Valid         class Order of include/order.hpp: make_order is its constructor
--   Book                       class OrderBook: add_order, cancel_order, best_bid, best_ask
--   Book/Depth                 OrderBook::print_depth
--   Book/Valid                 the representation invariant; Book/Levels, Nodes, Queue, Remove, Front
--                              are the lemmas on levels, nodes and the queue that a side stands for
--   Book/Add, Book/Cancel      the theorems on add_order and cancel_order
--   Book/Restore               booking an order and cancelling it at once
--   Book/Prices                the theorems on the best prices and the printed depth
--   Engine                     MatchingEngine::match; its two branches share loops over a Direction
--   Engine/Rounds, Sweeps      what the two loops keep, and that their fuel is enough
--   Engine/Validity            match keeps the invariant
--   Engine/PriceTime           price-time priority over a queue, told apart from the code;
--                              Engine/Priority, Executed, Refine: that match implements it
--   Engine/Trades, Makers      the trades of match; Engine/Entries: its effect on the order map
--   Memory, Memory/Laws        memcpy, resize and htonl on byte lists
--   Serializer                 class BinarySerializer
--   Serializer/Frames          the wire format; Serializer/RoundTrip: what is written is read back;
--                              Serializer/Decoding: what any bytes are read as;
--                              Serializer/Interface: the abstract class, which the client takes
--   Processor                  OrderProcessor::process and run
--   Processor/Replies          what process answers
--   Processor/Clients          which client is told what
--   Processor/Soundness        what holds of a whole run
--   Ring                       class SPSCRingBuffer: try_push and try_pop, whole and by accesses
--   Ring/Slots, Calls          the queue that a ring holds, and what the calls do to it
--   Ring/Interleaved           one producer and one consumer at once
--   Socket                     recv, which is not part of the repository, as an interface
--   SafeQueue                  class ThreadSafeQueue, by accesses; SafeQueue/Counted, Fifo: one consumer
--   Network                    src/network_utils.cpp; Network/Exact, Frames: what they read
--   Server                     the write path of class ExchangeServer
--   Server/Streams             the bytes that each client is owed
--   Server/Sending, Flushed    what a client is still owed after a flush
--   Server/Reading             ExchangeServer::handle_read
--   Server/Framing             the frames of a stream, byte by byte
--   Server/Delivery            what a call of handle_read may do; Server/HeaderBlock, PayloadBlock and
--                              ReadLoop are the parts of the proof
--   Server/Delivered           messages written as frames are found; Server/Repeated: over many calls
--   Server/Rounds              ExchangeServer::accept_client and run; Server/Starting: start
--   Server/Watched             the invariant of the server; Server/Writing, Flushing, Admission, Safety
--                              and Started: that the operations keep it
--   Exchange                   the processor and the server together
--   Simulator                  class OrderSimulator; Simulator/Orders: the orders it generates
--   Client                     class ExchangeClient, and the threads of src/client_main.cpp
--   Client/Stream, Threads     the bytes that a client sends; Client/Served: what the server finds there
--   Tests, Tests/*             runs on concrete inputs, and the theorems at concrete inputs
--
-- Correspondence. A std::map from prices to lists is the list of its levels in the order of its
-- comparator; a list iterator is the address of a node; order_map_ and order_to_client_fd_ are the
-- functions of their entries. An Outcome is a return, an exception, undefined behaviour (an access out
-- of bounds) or a model's loop out of fuel. An enumeration has one more constructor for the bytes that
-- no enumerator has, since the program casts without a check. A clock is a parameter, a function from
-- the number of a reading to its value. The machine's integers have their lowest byte first, as on the
-- machines that the program's own memcpy of fields supposes.
--
-- Fuel. match gives its outer loop one round more than there are levels, and the inner loop one more
-- than there are orders in the level: each round of either removes one, or is the last. handle_read has
-- two rounds more than there are bytes to come: each round but the last receives one at least, or
-- completes a message that was held back. read_exact has one round more than the bytes it asks for. That
-- this is enough is part of the theorems on them, which say that they return.
--
-- The server. The results of send, accept, fcntl, epoll_ctl and epoll_wait are inputs of Server, and what
-- epoll watches for is part of its state; recv is the interface Socket, whose bytes are those that the
-- peer will ever send, in pieces of any size. The room that the inbound ring has in a call of handle_read
-- is an input too, since the processor empties it meanwhile. The while(true) of run is any number of
-- rounds.
--
-- The client. What the random distributions draw, what each send takes, whether connect succeeds and how
-- long a run takes are inputs. The two constants of its loops stay closed in the proofs.
--
-- The ring. It has the one capacity that the program uses. Its atomic accesses take effect one at a time,
-- in any order of the two threads. In Processor, the ring to the server is the list of the messages
-- pushed. The accesses of SafeQueue, of any number of threads, likewise take effect one at a time.
--
-- Not modelled: the two main functions, which construct the parts and start and join the threads, and
-- what the programs print; the options of sockets and the descriptors' numbers; signals; weaker orders
-- of memory between threads; allocation failure.
pub mod Common
pub mod Types
pub mod Order
pub mod Book
pub mod Engine
pub mod Ring
pub mod SafeQueue
pub mod Memory
pub mod Serializer
pub mod Processor
pub mod Socket
pub mod Exchange
pub mod Client
pub mod Network
pub mod Simulator
pub mod Server
pub mod Tests
