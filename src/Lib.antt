-- ===== src/Lib.antt =====
-- The WebRTC library of this repository: src/ and include/rtc/, a C++ library derived from
-- libdatachannel. Paths in this library's comments are given from there (impl/ is src/impl/).
--
-- Parts of the program and how they interact. A peer connection opens a chain of transports (ICE,
-- DTLS, SCTP) and hands the messages of the SCTP transport to data channels; a WebSocket does the
-- same over TCP, TLS and the WebSocket framing. Both keep messages for the application in queues.
-- Work that must stay in order goes through processors onto a thread pool. On the media side NAL
-- units are cut into fragments, packetized as RTP, and sent packets are kept for answers to NACKs.
--
-- Which module models which part:
--   Queue          src/impl/queue.hpp. A record for the class; push, pop, peek, exchange and stop
--                  are one function each. A push that waits has no result.
--   Processor      src/impl/processor.hpp and processor.cpp. The record holds the task queue and
--                  the pending flag; Dispatch adds the tasks that the thread pool was given, and
--                  Step is what the pool and the callers may do.
--   Transport      the states of src/impl/transport.hpp and the message types of
--                  include/rtc/message.hpp.
--   Ws             src/impl/wstransport.cpp and wstransport.hpp. Ws.Framing models sendFrame and
--                  readFrame on bytes; Ws models start, send, close, incoming, recvFrame and
--                  addOutstandingPing as functions on the transport's record. The lower transport is
--                  the list of the bytes it was given. The handshake is a record of functions, a
--                  parameter of `incoming`, which WsHandshake fills.
--   Http           src/impl/http.cpp: isHttpRequest, parseHttpLines and parseHttpHeaders on bytes.
--   WsHandshake    src/impl/wshandshake.cpp: the requests, responses and errors that are generated,
--                  and their parsers. SHA-1 and the random bytes of a key are parameters.
--                  WsHandshake.Opening puts the handshake together with the transports of Ws.
--   DataChannel    src/impl/datachannel.cpp with the calls of src/impl/channel.cpp that it makes.
--                  DataChannel.Open models the messages of the establishment protocol. `close`,
--                  `remote_close`, `receive`, `assign_stream`, `open_channel`, `outgoing` and
--                  `incoming` are the methods of DataChannel, with the overrides of
--                  OutgoingDataChannel and IncomingDataChannel chosen by a field.
--   Sctp           src/impl/sctptransport.cpp. Sctp models the sending side: send, flush,
--                  closeStream, close, trySendQueue, trySendMessage, updateBufferedAmount and sendReset;
--                  Sctp.Receive the receiving side: doRecv, processData, processNotification,
--                  incoming and the upcalls. usrsctp is a record of functions on a socket of any
--                  type, a parameter. The callbacks and the tasks of the processor are lists.
--   Nal            include/rtc/nalunit.hpp and src/nalunit.cpp: the header bytes, fragmentsFrom and
--                  generateFragments.
--   Rtp            the RTP header and its extension in src/rtp.cpp; Rtp.Packetizer models
--                  src/rtppacketizer.cpp. Structs are records of the raw numbers in their fields,
--                  packets are lists of bytes.
--   H264           src/h264rtppacketizer.cpp: StartSequenceMatchSucc, splitMessage and
--                  processOutgoingBinaryMessage, over Nal and Rtp.
--   Rtcp           the RTCP structs of src/rtp.cpp: report blocks, sender and receiver reports, PLI,
--                  FIR and REMB. Rtcp.Session models src/rtcpreceivingsession.cpp.
--   Nack           the parts of a NACK in src/rtp.cpp: addMissingPacket and getSequenceNumbers.
--   NackResponder  src/rtcpnackresponder.cpp: the storage, the packets stored on the way out and the
--                  answers to control messages.
--   Signaling      setLocalDescription and setRemoteDescription of src/peerconnection.cpp, with
--                  changeSignalingState of src/impl/peerconnection.cpp. The calls of the
--                  implementation and of the ICE transport are a record of functions, Machinery.
--   Utils          src/impl/utils.cpp: explode, implode, url_decode and base64_encode.
--   PeerChannels   the data channels of src/impl/peerconnection.cpp by stream: assignDataChannels,
--                  findDataChannel and forwardMessage. The methods of a data channel are a record of
--                  functions, a parameter; a weak pointer is a number and a flag.
--   Prelude        names of the libraries, lemmas on lists, and machine words: the numbers are
--                  natural numbers and a w-bit integer keeps its wrap-around written out.
--
-- Fuel. Loops over bytes take as many rounds as there are bytes left: each frame of a WebSocket
-- has two bytes at least, each RTCP packet four, each fragment of a NAL unit one byte of payload
-- under the conditions stated with it. The loop that flushes a channel takes the length of its
-- queue, the loop over a NACK's mask the sixteen bits of the mask. The send loop of SCTP takes
-- one round for each queued message and one more, since every round takes a message off the
-- queue; its receive loop runs over the answers of usrsctp. A message of NAL units is split in as
-- many rounds as it has bytes, and a bitrate of 32 bits is halved less than 32 times.
--
-- Not modelled: the peer connection but for its signaling and its data channels, session
-- descriptions and candidates, the chain of media handlers, SDES and RTX packets, tracks, the C
-- interface, the thread pool, the TCP transport with its proxy, and the states of the WebSocket
-- class; and code that is mostly calls of other libraries or of the system: ICE, DTLS, SRTP and TLS
-- transports, sockets and polling, certificates, logging.
-- Callbacks are events in a list and do not call back into the library. Locks are not modelled;
-- each method runs as a whole, but for the processor, where the order of the pool's tasks is open.
pub mod Prelude
pub mod Queue
pub mod Processor
pub mod Transport
pub mod Ws
pub mod DataChannel
pub mod Nal
pub mod Nack
pub mod NackResponder
pub mod Signaling
pub mod Sctp
pub mod Utils
pub mod Http
pub mod WsHandshake
pub mod Rtp
pub mod H264
pub mod Rtcp
pub mod PeerChannels
