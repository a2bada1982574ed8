-- ===== src/Lib.antt =====
-- The uPlexa network router: its wire format, its DHT, its links, its paths and its timers.
--
-- The router keeps a table of peers under the XOR metric and answers and relays lookups of router
-- contacts (udap/dht.cpp). DHT messages are bencoded (udap/bencode.c, include/udap/bencode.hpp) into
-- byte buffers (udap/buffer.cpp) and travel in link messages. The IWP link (udap/iwp_link.cpp) cuts a
-- link message into fragments, sends them in frames, acknowledges them by a bitmask, and gives the
-- message that is put together again to the router, whose handlers decode it (udap/link_message.cpp).
-- A path builder (udap/pathbuilder.cpp) seals a frame for each router of a path, which takes its place
-- there (udap/relay_commit.cpp); what is sent on the path is relayed from hop to hop (udap/path.cpp,
-- udap/transit_hop.cpp), and its two ends speak in routing messages (udap/routing). Jobs and timers
-- run in a logic thread (udap/logic.cpp, udap/timer.cpp, udap/threadpool.cpp). Behind all this the router
-- (udap/router.cpp) keeps what it has to send until a link has a session to the other router, whose
-- contact it takes from the node database (udap/nodedb.cpp) or from the DHT.
--
-- Prelude: Boolean tests on the native numbers, and lists with lengths and indices there.
-- Text: what vsnprintf makes of %ld and %d, and atol and atoi, for 64 and 32 bits.
-- Buffer: udap_buffer_t as a record with the memory that it points into. A function that returns bool
--   is a function from a buffer to a result and the changed buffer. Memory is a function from
--   addresses to bytes, so a read past the end of a region has a value; the bounds say where there
--   is none. The children Valid, Write, Bounds and Read have the laws.
-- Bencode: the readers and writers. dict_loop and list_loop run on fuel, one more than the bytes left;
--   each round takes a byte at least, so the fuel is enough (Bencode.Progress). A callback is a
--   function on a state of the caller's. Bencode.Dict reads a dictionary entry by entry.
-- Dht.Key, Dht.Bucket: Key_t, XorMetric and Bucket. A map is a list in the map's order.
-- Dht.Message, Dht.Codec, Dht.Immediate: the messages and their encoding. The codec of router contacts
--   is an interface, RcCodec, which Contact.Ends.contact_codec fills. What an uninitialised key holds is an
--   argument.
-- Dht.Context: Context, SearchJob and the handlers HandleMessage. The clock is an argument; messages
--   for SendToOrQueue and calls of hooks are kept in order in the state. What a hook itself does
--   to the context is not modelled. Dht.Api: the C functions of include/udap/dht.h.
-- Iwp.Transit: xmit and transit_message. put_loop runs on fuel, one more than the bytes of the
--   message, which is enough for fragments of a byte at least. A call returns, throws the
--   std::out_of_range of std::bitset, or reaches what C++ leaves undefined.
-- Iwp.Reassembly, Iwp.Receive: what a sender keeps and what a receiver puts together.
-- Iwp.FrameState: frame_state with its frame handlers. The hash is that of the crypto library; what the
--   router and the session do about a whole message is an interface, Session.
-- Iwp.Crypto, Iwp.Session: the packets of the handshake and encrypted frames (udap/crypto_async.cpp), and
--   the session that sends and receives them, up to the link intro message (udap/link/encoder.hpp). A call
--   to the crypto workers and its hook are one step; the primitives are a parameter, nonces and
--   paddings are arguments, and the frames given to the workers for encryption are kept in order.
-- Contact: router contacts with their addresses and exits, their codecs and their signatures
--   (udap/router_contact.cpp, udap/address_info.cpp, udap/exit_info.cpp). What an uninitialised udap_ai
--   or the array of a stack buffer holds is an argument.
-- Table: std::map and std::unordered_map as association lists. Hex: udap/encode.cpp.
-- NodeDb: udap_nodedb over a disk, which says what each file holds and where can be written. The numbers
--   of rand are an argument of the choice of a hop; where they are used up there is no result.
-- Router: how udap_router sends and queues messages and connects to other routers (udap/router.cpp).
--   What happens is a sequence of events in any order; what the router asks of links, timers,
--   workers and the DHT is a list of actions.
-- Clock: the difference of two 64-bit times.
-- Timer: udap_timer_context with a heap of timers, whose pointers the table and the jobs hold. Timer.Logic
--   has the pool, a tick and the events that callers, the ticker and the workers make, one at a
--   time and in any order; the ticker's lock makes a tick one event, and timer::exec is one too.
--   pool_tick runs as many jobs as are queued, since no job queues another: what a callback does is
--   an event of its own. Timer.Views, Once, Fires and Phases have the laws.
-- Codel: CoDelQueue. The loop of Process runs a round for each item. The square root is a parameter.
-- Relay, Link: the relayed messages and the link's parser with all its messages. The session's router
--   contact and the handler of a message are parameters.
-- Routing: the routing messages and their parser. A message is sent from a buffer on the stack, whose
--   old bytes are an argument.
-- Path: Path, PathSet, TransitHop and PathContext; SendToOrQueue is the message that a function
--   returns. Path.Network lets messages fly between routers; a step is a router's handler.
-- Commit: EncryptedFrame, LR_CommitRecord with PoW, the hop's handling of a commit message, and the
--   builder's keys and frames. The functions of udap_crypto are parameters, as are random bytes.
-- Examples: runs on concrete inputs.
--
-- Words are as on a little-endian host with 64-bit pointers. Not modelled: the table of sessions of the
-- link's server and its queues of encrypted frames between threads, the choice of a path's routers, the router's start, its
-- configuration and key files, and socket addresses, which are other components; what unlocked
-- threads do between two accesses of a timer; cryptography, sockets, event loop, logging and the
-- copies of other libraries under vendor, which have no logic of the network.
pub mod Prelude
pub mod Text
pub mod Buffer
pub mod Bencode
pub mod Dht
pub mod Iwp
pub mod Link
pub mod Routing
pub mod Codel
pub mod Contact
pub mod Table
pub mod NodeDb
pub mod Router
pub mod Hex
pub mod Clock
pub mod Timer
pub mod Relay
pub mod Path
pub mod Commit
pub mod Examples
