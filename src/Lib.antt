-- ===== src/Lib.antt =====
-- Verification of libmediasoupclient's core, as this repository has it: what a mediasoup client decides
-- about codecs, parameters, transports' data channels, producers and consumers.
--
-- The parts and how they interact. Device (src/Device.cpp) is loaded with the router's RTP capabilities:
-- it validates them and its own, computes the extended capabilities of both and from them what it can
-- send and receive, all by src/ortc.cpp. It then makes transports (src/Transport.cpp), whose handlers
-- (src/Handler.cpp) negotiate with WebRTC; a transport's producers and consumers, of media
-- (src/Producer.cpp, src/Consumer.cpp) and of data (src/DataProducer.cpp, src/DataConsumer.cpp), tell
-- it and the application of their end.
--
-- Which file models which part:
--   Base          Boolean tests on native numbers, texts by code points, wrap-around, and Result, the
--                 exceptions of include/MediaSoupClientErrors.hpp as values
--   Json          nlohmann::json's values, and find, contains, operator[], get and the loops over them
--   Ortc.Rule     the shape of the validators: a list of rules, each about one member
--   Ortc.Validate src/ortc.cpp, the validate functions, one child per group: Codec, Extension, Params,
--                 Sctp, Ice, Options; for proofs Idempotent, Typed, Kind, Stream
--   Ortc.Match    isRtxCodec, matchCodecs, matchHeaderExtensions, reduceRtcpFeedback and the readers of
--                 codec parameters
--   Ortc.Extended getExtendedRtpCapabilities
--   Ortc.Recv     getRecvRtpCapabilities
--   Ortc.Send     getSendingRtpParameters, getSendingRemoteRtpParameters, canSend
--   Ortc.Receive  canReceive, generateProbatorRtpParameters
--   Ortc.Reduce   reduceCodecs
--   Device        src/Device.cpp: Load (`load`), CanProduce, the capabilities; Create has the tests and
--                 validations of CreateSendTransport and CreateRecvTransport
--   Track         the tracks of WebRTC that producers and consumers share, by number
--   Producer, Consumer, DataChannel
--                 src/Producer.cpp, src/Consumer.cpp, src/DataProducer.cpp with src/DataConsumer.cpp: a
--                 record of the fields, a function per method, and `run` for any sequence of calls
--   Transport     src/Transport.cpp's three classes; Handlers is the interface of the handlers' operations,
--                 Create the constructors; Closed, Produced and Probator have the proofs
--   ScalabilityMode
--                 src/scalabilityMode.cpp: the regular expression as a function, and what it reads
--   SendTransport the tests of SendTransport::ProduceData of src/Transport.cpp, and the stream parameters
--                 and ids of SendHandler::SendDataChannel of src/Handler.cpp; Limits is about the limits
--                 that are allowed
--   Handler       src/Handler.cpp: Connection has what is used of WebRTC, State the fields and the
--                 constructor, Send, Senders and Recv the two classes, Channels their data channels,
--                 Encodings and Answer what Send and Receive do in JSON, Ops the operations for the
--                 transports; Steps, Connect, Connected, Once and Runs are about the application's
--                 OnConnect, Sections, Sent, Received and Stopped about the remote description, Layers about
--                 the encodings, StreamIds and DataLimits about data channels, ProduceData included
--   PeerConnection
--                 src/PeerConnection.cpp: Observers has the promises that WebRTC's callbacks settle, Returns
--                 what a caller gets that waits for one, Create the constructor, Peers the peer
--                 connection for the handlers
--   Sdp.MediaSection
--                 src/sdp/MediaSection.cpp: a record of the class and the JSON object, with Answer and
--                 Offer for the two constructors, Codecs for the lines both build, Options for the codec
--                 options
--   Sdp.RemoteSdp src/sdp/RemoteSdp.cpp: a record of the fields, a function per method; State has the
--                 constructor, Scan the loops that read, Store the containers
--   Sdp.Utils     src/sdp/Utils.cpp: extractDtlsParameters and getCname, with the children Capabilities
--                 (extractRtpCapabilities), Encodings (getRtpEncodings), Simulcast (addLegacySimulcast)
--                 and Parameters (applyCodecParameters); Streams and Lines are about the streams that
--                 addLegacySimulcast writes and getRtpEncodings reads
--   Sdp.Slots     the abstract view: a list of mids, each open or closed, and its operations
--   Sdp.Shown     sections that show slots; Sdp.Refines: the relation of a description to slots, which
--                 each method keeps
--   Tests         runs on small inputs, and each theorem applied to one
--
-- How the code is read. A function that may throw returns a Result; a method that may throw after it has
-- changed its object returns both the Result and the object. A function that changes its JSON argument
-- returns the changed value; what a function that throws has changed in its argument by then is not
-- kept. Undefined behaviour, as reading a missing key of a const object, is the error `undefined`, and
-- an exception of the JSON library is `json_error` with its number. An object keeps its members in the
-- order in which they came; std::map orders them by key, which items() follows here too and which else
-- shows only in which of several invalid codec parameters is thrown for. A floating-point number is an
-- integer over a power of two, and is compared with integers exactly. A null that operator[] inserts for
-- a missing payload type is left out where nothing reads it. Texts are compared by code points, and
-- case is folded for ASCII letters alone, as std::regex and tolower do in the C locale.
--
-- Loops over lists are structural; the digits of a number n are printed on fuel n + 1, which is enough
-- since each digit divides the rest by ten. Stream ids are uint32_t, and the id of a channel a
-- uint16_t, with the wrap-around written out.
--
-- Tracks, transceivers, senders and receivers are numbers, which stand for the references to them; the
-- state of WebRTC behind them is one type, of which nothing is known but by a theorem's hypotheses. The
-- pointer to encodings that Send is given counts as an empty vector where it is null, as every test of
-- it does.
--
-- Parameters of the model: WebRTC's H264IsSameProfile and H264GenerateProfileLevelIdForAnswer (`H264`),
-- the peer connection with its transceivers and the application's OnConnect (`Peer`, the contract of
-- include/PeerConnection.hpp), which stands on WebRTC's own peer connection (`Webrtc`) with what it ever
-- calls on each observer, sdptransform's parse, write and parseParams and how a stream writes a
-- float (`SdpTransform`, `ShowFloat`), the native RTP capabilities that Device is given, and the answers
-- of listeners (`PrivateListener`). Transports stand on the operations of any handlers (`SendOps`,
-- `RecvOps`), which Handler.Ops fills with those of src/Handler.cpp.
--
-- Not modelled: GenerateCertificate and GetFingerprint, which only call WebRTC; logging, random numbers,
-- the bindings for Java and Objective-C, and the copies of other projects' libraries under deps.
pub mod Base
pub mod Json
pub mod Ortc
pub mod Track
pub mod Transport
pub mod Producer
pub mod Consumer
pub mod DataChannel
pub mod Device
pub mod Handler
pub mod PeerConnection
pub mod ScalabilityMode
pub mod SendTransport
pub mod Tests
pub mod Sdp
