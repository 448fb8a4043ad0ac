-- ===== src/Lib.antt =====
-- The media path of the Kinesis Video Streams WebRTC library in C: how frames are cut into packets,
-- how packets are written and read, and how they are kept for retransmission and for reassembly.
--
-- The parts, and how they interact. A frame that an application sends is cut by a codec's payloader
-- (createPayloadFor...) into payloads, constructRtpPackets puts an RTP header before each, and the
-- packets are written to the wire; a rolling buffer keeps the last of them. A receiver that misses
-- packets sends an RTCP NACK, whose list rtcpNackListGet reads; the sender finds the packets in the
-- rolling buffer and writes them again with constructRetransmitRtpPacketFromBytes. On the other side
-- setRtpPacketFromBytes reads a packet, the jitter buffer orders it, and depay...FromRtpPayload takes
-- the data out. Bytes between TLS and its socket pass through an IOBuffer. The connection to a TURN
-- server, which relays packets where no direct path exists, is set up and taken down by a machine; the
-- ICE agent pairs local with remote candidates, checks the pairs, and selects one to send with. The
-- signaling client, through which two peers find each other, is driven by a machine as well.
--
-- The files, by the sources they model:
--   RollingBuffer, RollingBuffer/   src/source/Rtcp/RollingBuffer.c, each function under its name in
--       snake case (rollingBufferAppendData is append_data). Invariant, Window (the slots as a queue),
--       Refine, Runs, Access, Free.
--   RtpRollingBuffer, RtpRollingBuffer/   src/source/Rtcp/RtpRollingBuffer.c: the packets of a sender by
--       their sequence numbers; Valid is about one of them, Listing about a list.
--   Rtp, Rtp/   src/source/Rtp/RtpPacket.c: Parse (setRtpPacketFromBytes), Serialize
--       (setBytesFromRtpPacket), Packets (constructRtpPackets), Retransmit; Bounds, Wire, Written and
--       RoundTrip hold proofs.
--   Rtcp, Rtcp/   src/source/Rtcp/RtcpPacket.c: Header, Nack and Remb.
--   Payload, Payload/   src/source/Rtp/Codecs/Rtp{G711,Opus,VP8,H264,H265}Payloader.c; Chunks is the cut of
--       a list into pieces that the payloaders are compared with. Of H264, Scan is about
--       getNextNaluLength, Fragments and Passes about createPayloadFromNalu, Stream is
--       createPayloadForH264, Depay is depayH264FromRtpPayload, and RoundTrip joins them; H265 has the same
--       functions and takes from H264 what is written there in the same words.
--   IoBuffer, IoBuffer/   src/source/Crypto/IOBuffer.c; Fifo and Session hold proofs.
--   JitterBuffer, JitterBuffer/   src/source/PeerConnection/JitterBuffer.c: the checks of the window,
--       Push (jitterBufferPush up to its call of the parser), Drop (jitterBufferDropBufferData and
--       jitterBufferFillFrameData), Table (what is used of the hash table), Window (proofs), Parse
--       (jitterBufferInternalParse, with proofs in Frames, Rounds and Whole), Session
--       (createJitterBuffer, jitterBufferPush and freeJitterBuffer).
--   Turn, Turn/   src/source/Ice/TurnConnectionStateMachine.c: the states and the callbacks that ask for
--       the next one, Execute (what runs in a state), Machine (stepTurnConnectionStateMachine on a
--       stepStateMachine that is a parameter), and proofs in Accepts, Rounds and Progress.
--   IceAgent, IceAgent/   src/source/Ice/IceAgent.c and IceAgentStateMachine.c: Pairs (the candidate
--       pairs), Checks (the requests that are sent for them, and what comes of one that cannot be
--       sent), Setup (what the states set up), Machine (the callbacks and stepIceAgentStateMachine); Priority, Order, Found, Nominate, Selected, Callbacks, Execution,
--       Steps, Rounds, Silence and Progress hold proofs. Candidates are objects of a heap.
--   Signaling, Signaling/   src/source/Signaling/StateMachine.c: the states of the signaling client and what
--       each is entered from, Callbacks (what asks for the next state), Execute (what runs in a state),
--       Iterator (signalingStateMachineIterator), and proofs in Refused, Trapped and Progress.
--   IceUtils, IceUtils/   src/source/Ice/IceUtils.c: the store of the transaction ids that were sent.
--   Status   the codes of src/include/com/amazonaws/kinesis/video/webrtcclient/Include.h in use.
--   Base, Base/   lists and Boolean tests on native numbers, bit masks, and memory as a list of bytes.
-- Each part has a module Tests with the theorems at concrete values.
--
-- The model. A pointer into memory is the list of the bytes from it on, and none stands for an access
-- outside of it, for undefined behaviour, and for a loop that does not end. UINT16, UINT32 and UINT64
-- arithmetic is written out modulo a power of two. A function that changes a struct takes it and gives
-- it back. Locks make each call of the rolling buffer one step. Allocation is a Boolean or a function
-- that may refuse; realloc, the callbacks, the depayloader, the hash table and stepStateMachine are
-- parameters with what their documentation says as named hypotheses. The byte order of the host is a
-- parameter where the code depends on it. A test for a NULL argument, where the code only returns STATUS_NULL_ARG, has no
-- value to stand for.
--
-- Fuel. The loop of freeRollingBuffer has the distance from the tail to the head; the walks of the
-- jitter buffer have the number of indices from the first to the last, modulo 2 ^ 16; the payloaders
-- have the length of the frame, since a round takes at least one byte (VP8 with an MTU of 1 takes none
-- and does not end); the loops over aggregates and over a stream have the length of the bytes.
-- The loop of stepTurnConnectionStateMachine has no bound of its own: its fuel is a number of rounds, of
-- which three take a working connection to the next state that waits for an answer. That of
-- stepIceAgentStateMachine ends by itself: six rounds are enough from the first state on.
-- signalingStateMachineIterator is given a number of rounds too: one and then three, in two calls, make a
-- client with a relay ready.
--
-- Not modelled: the release of memory, logging, SDP, STUN, the gathering of candidates and the handling
-- of STUN messages by the ICE agent, the messages of TURN, DTLS, SRTP, SCTP, the calls of the signaling
-- client to its service, data channels, metrics, and the QUIC server, of which some are pure glue to
-- other libraries and the others are further work.
pub mod Base
pub mod Status
pub mod RollingBuffer
pub mod RtpRollingBuffer
pub mod Rtp
pub mod Rtcp
pub mod Payload
pub mod IoBuffer
pub mod JitterBuffer
pub mod Turn
pub mod IceAgent
pub mod Signaling
pub mod IceUtils
