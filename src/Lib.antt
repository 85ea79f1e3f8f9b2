-- ===== src/Lib.antt =====
-- Stronk, a Minecraft server in C: the protocol library `mcpr`, the connections, the sessions of the
-- clients with their packet handlers, the network loop, the server's clock and threads, the buffered
-- streams, the identifiers, the world, chat and the times.
--
-- The parts and the files that model them (paths from the repository's root):
--   Base         what all share: Boolean tests and lists over the native numbers, bit operations
--                as arithmetic, and Outcome: a value, an error return, or a fault.
--   Codec        src/mcpr/codec.c. Endian: the byte order macros of src/mcpr/util.h. Fixed:
--                mcpr_encode_bool to mcpr_encode_uuid and their decoders. Varint: varint and
--                varlong. Text: strings and chat. Position: block positions.
--   Packet       src/mcpr/packet.c and the structs of src/mcpr/packet.h. Ids: the two switches
--                between packet types and ids. Cursor and Decode: mcpr_decode_packet, a function
--                for each case. Outgoing, Json and Encode: mcpr_encode_packet, a function for each
--                case. Encode.Bounds: mcpr_encode_packet_bounds.
--   Connection   src/mcpr/connection.c: frames written and read, closing. Connection.Receive:
--                update_receiving_buffer. Connection.Write: mcpr_connection_write.
--   Stream       src/ninio/bstream.c and ninio_buffer_read of src/ninio/ninio.h.
--   Uuid         src/ninuuid/ninuuid.c.
--   World        src/world/world.c: the packing of blocks, and in World.Chunks keys, the chunk
--                packet and entity ids.
--   Timespec     the arithmetic on struct timespec in src/util.c.
--   Ninerr       src/ninerr/ninerr.c: errors with a type and a message.
--   Crypto       src/mcpr/crypto.c: the text of a SHA-1 hash; mcpr_as_chat of src/mcpr/mcpr.c.
--   Session      struct connection and struct player of src/network, and the handlers under
--                src/network/packethandlers: Handshake, Status, Login, Login.Response, Play, and
--                Ignored for the handlers that do nothing. Dispatch: the switch of packet_handler.
--                Dispatch.Facts: the phases of a client, the packets that lead from one to another,
--                and what holds of a session. Dispatch.Early, Entering, Playing, Cases and
--                Invariant keep it. Dispatch.Unfinished is about the login over the packet stream.
--   Chat         src/chat/chat.c, with server_get_players and server_get_players_lock.
--   Network      src/network/network.c: update_client and what it calls. Network.Accept: the list
--                of clients. Network.Batches: the clients shared out among the threads.
--   Mapi         src/mapi/mapi.c. Strings: identifiers with and without hyphens. Token: client
--                tokens. Joined: the session server's answer. Auth: the answer to a sign-in. Requests: the
--                requests and their errors.
--   Server       src/server.c: the internal clock, the pace of the main loop, the thread count.
--
-- How they interact: the connection reads a length with the varint codec, hands the bytes behind
-- it to the packet decoder, and keeps what follows; a packet is written by the packet encoder into
-- a buffer of the size that the bounds function gives, with its length before it. The world builds
-- the chunk packet that the packet encoder writes. The network loop reads packets from a client's
-- connection and hands each to the handler for the connection's state; the handlers write packets
-- and change the session; the result tells the loop whether the connection is closed. The server's
-- clock, which the loop compares with the times of the keep alive packets, moves by one tick.
--
-- Conventions. An integer of w bits is a number below 2 ^ w, its bit pattern; signed values are
-- patterns too, and sums wrap. Floats are patterns. What may be read from a pointer is a list of
-- bytes, a string is the list of its bytes before the NUL. The host is little-endian, as the
-- platforms of the project are. `malloc` and `realloc` succeed. What C gives no meaning to is a
-- fault: a read or write out of bounds, a shift by too much, a freed packet that is read, a stream
-- closed while it is being closed, an array that is read behind the end of its block, `abort`. A
-- left shift of a signed number wraps, as gcc and clang document. What lies outside is an
-- argument: random bytes, the cipher of OpenSSL, what a descriptor or stream delivers, and the
-- bytes of the nbt library. For the handlers it is a record `Environment`: whether the packet
-- stream takes a packet, refuses it or ends in a fault, given all it took before, as it calls
-- mcpr_connection_write_packet and the encoder; what OpenSSL and the session server answer, the
-- clock and the table of chunks. A key pair is a number there. The packets sent are recorded as
-- values; Connection and Packet.Encode are about their bytes. A client is named by the address of
-- its struct connection. What the system delivers to a loop is a list: the receiving buffer at
-- each read, the answers of `accept`. libcurl and jansson are a record `Web`; the session server's
-- answer in `Environment` is what Mapi makes of it.
--
-- Loops are structural or go by the value shifted right, on accessibility, so they need no fuel.
--
-- Not modelled: the copies of other libraries under lib/, the text of a sign-in request of the
-- Mojang API client, logging, the stack traces of errors, compression, which nothing turns on, the
-- multiplexer of streams, the start and the stop of the server, and locks and the interleaving of
-- the threads of the pool.
pub mod Base
pub mod Chat
pub mod Codec
pub mod Connection
pub mod Crypto
pub mod Mapi
pub mod Network
pub mod Ninerr
pub mod Packet
pub mod Server
pub mod Session
pub mod Stream
pub mod Timespec
pub mod Uuid
pub mod World
