-- ===== src/Lib.antt =====
-- Verification of the core of the carrier SDK (src/session, src/carrier,
-- src/filetransfer).
--
-- Parts. A stream of a session carries packets through a pipeline of handlers. The multiplex
-- handler (src/session/multiplex_handler.c) runs many channels over one stream. It takes packets
-- from the handler below through on_data, hands data to the handler above or to the callbacks of a
-- channel, and sends packets to the handler below. Every packet lies in a flex buffer
-- (src/session/flex_buffer.h), a payload inside a larger block into which headers are put without
-- copying. Friend invitations (src/carrier/ela_carrier.c) are sent in fragments over the
-- friend-to-friend network and put together again by the receiver. A file transfer
-- (src/filetransfer/filetransfer.c) carries up to five files, each over a channel of its own, and
-- writes packets of its own into the channel; src/filetransfer/easyfile.c sends or receives one file
-- over a transfer. The crypto handler (src/session/crypto_handler.c) encrypts what goes down the
-- pipeline of a stream. The application calls the channels of a stream through
-- src/session/session.c. A node is known by an id and invited by an address, which has a checksum.
--
-- Files.
--   Base         the names that all modules share, lists, memory, machine words
--   Elaerr       the error codes of src/carrier/ela_carrier.h
--   FlexBuffer   the struct and functions of flex_buffer.h; FlexBuffer/Refine sees them through
--                `contents`, the bytes of the payload
--   Mux/Protocol, Mux/PacketType, Mux/Channel, Mux/Handler
--                the header, the numbers of the wire, `struct Channel`, `struct MultiplexHandler`,
--                the tables of channels.h, multiplex_handler_send_packet and the notify functions
--   Mux/Receive  multiplex_handler_notify_packet, one function per kind of packet
--   Mux/Reassembly
--                multiplex_handler_notify_data and its loop; Mux/Filling, Mux/Stream, Mux/Delivery
--                and Mux/Feed prove it
--   Mux/Local    multiplex_handler_open_channel, close, write, pend and resume
--   Mux/Checkpoint
--                multiplex_handler_checkpoint and multiplex_handler_close_channels
--   Mux/Lifecycle
--                create, start, stop, write, on_data and on_state_changed
--   Mux/Effects, Mux/Transitions, Mux/Consistency, Mux/Opening, Mux/LocalEffects, Mux/Requests,
--   Mux/Walks, Mux/History
--                what each operation does to the table of channels and the id heap
--   Mux/Sending, Mux/Timing
--                the bytes of a packet and the intervals of the keep-alive check
--   Mux/Signals, Mux/Checked, Mux/Refusal
--                packets without payload, when the periodic check removes a channel or sends a
--                keep-alive packet, and the handler whose ids are all in use
--   Mux/Simple, Mux/Tests, Mux/LimitTests, FlexBuffer/Tests
--                a system in which the assumed laws hold, and concrete runs
--   Invite       the fragments of invitations: Invite/Data, Invite/Send, Invite/Receive
--                are ela_invite_friend, ela_reply_friend_invite, handle_invite_request and
--                handle_invite_response; Invite/Fragments, Invite/Sending, Invite/Assembly,
--                Invite/Completion and Invite/Address prove what is sent and how it is put
--                together again, and Invite/Simple and Invite/Tests are a network and runs over it
--   FileTransfer/Data, FileTransfer/Events, FileTransfer/Connection, FileTransfer/Calls,
--   FileTransfer/Files
--                the slots and the transfer, the events of its channels, its connection, and the
--                calls of the application, of filetransfer.c and filetransfer.h
--   FileTransfer/Text, FileTransfer/Decimal, FileTransfer/Cookie, FileTransfer/Packet
--                the conversions of sscanf and sprintf, the cookies and bundles, and message.h
--   FileTransfer/Slots, FileTransfer/Moves, FileTransfer/CallMoves, FileTransfer/StreamMoves,
--   FileTransfer/Run, FileTransfer/Guards, FileTransfer/Exchange, FileTransfer/Delivery
--                the state machine of a slot, the calls that are refused, and the two ends of a
--                transfer together; FileTransfer/Tests has a session that writes everything down
--   EasyFile, EasyFile/Sending, EasyFile/Receiving, EasyFile/Tests
--                easyfile.c: the callbacks, the sending loop and the received pieces, and a disk that
--                keeps its bytes
--   Crypto, Crypto/RoundTrip, Crypto/Tests
--                crypto_handler.c, what one side writes and the other passes on, and a library
--                that leaves the bytes as they are
--   Session, Session/Effects, Session/Writing, Session/Tests
--                the calls of session.c on channels: ela_stream_open_channel, close, write, pend and
--                resume, and a write from the call to the peer's multiplexer
--   Address, Address/Detection, Address/Own, Address/Tests
--                ids and addresses of ela_carrier.c: is_valid_key, address_checksum,
--                is_valid_address, ela_get_id_by_address, ela_get_address and ela_get_nodeid;
--                Base/Xor has the laws of the exclusive or
--
-- State and operations. A C function that changes `*handler` is a function from the handler to the
-- new handler, and a result code stands beside it. The crystal library (hashtable, id heap, reference
-- counts), the clock, the allocator, the handlers above and below and the callbacks of the
-- application are fields of the record `System`, and of `Env` for invitations and for transfers. What is relied on of
-- the tables and the id heap is the record `IsLawful`. A channel in the table is a value, and a
-- change through the pointer is a write back under its id. Locks and other threads are not
-- modelled, and a callback does not call back into the same handler.
--
-- Numbers. size_t, uint16_t and int values are natural numbers with the wrap-around written out.
-- `assert` is taken as compiled out.
--
-- Fuel. The loop of multiplex_handler_notify_data runs on as many rounds as there are bytes, since
-- each round takes one at least. The sending loops of invitations run on as many rounds as there
-- are bytes of data, and one more for a refusal. The sending loop of easyfile.c runs on as many
-- rounds as there are bytes left, since each round sends one at least.
--
-- Not modelled: destruction, the calls of the port forwarding worker, and the other sources: ICE,
-- pseudotcp, the DHT, the generated packet code, the table of connection requests of file
-- transfers, ela_file_send and ela_file_recv, port forwarding, the reliable handler, and the
-- sessions, requests, streams and services of session.c.
pub mod Base
pub mod Elaerr
pub mod FileTransfer
pub mod EasyFile
pub mod Crypto
pub mod Session
pub mod Address
pub mod FlexBuffer
pub mod Invite
pub mod Mux
