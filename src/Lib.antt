-- ===== src/Lib.antt =====
-- Verification library of the Remote Access Platform (C++). An agent (apps/agent) shares a computer, a client
-- (apps/client) connects to it over TCP. Both speak one packet format (libs/protocol), encrypt every payload
-- under a 32-byte key (libs/security) and share an engine for file transfers (libs/file_transfer). The agent
-- takes frames from a capture backend (libs/capture) and gives input events to an input backend (libs/input);
-- the mobile apps call the packet format through C functions, and all processes log (libs/common).
--
-- Memory: `memcpy` of integers to and from bytes, little-endian as on the machines that the program is built
-- for. A byte, a word and a size are native numbers. The wrap-around of unsigned integers is written out, and
-- so is what the program does with an integer that is negative after a cast. What C++ leaves undefined is not: the
-- overflow of an `int` in the dirty detector, the recording clock and the scaled position of the pointer, a frame
-- buffer whose size wraps, reading and writing outside a buffer; the theorems ask for sizes without it.
--
-- Protocol: libs/protocol/src/ProtocolCodec.cpp. `encode` and `decode` are ProtocolCodec::encode and ::decode,
-- a result is a packet or a ParseError. Protocol/Payload has the enumerators of PayloadType, Protocol/Stun the
-- client for STUN.
--
-- Security: libs/security/src/CryptoEngine.cpp. Chacha20 has quarterRound to chacha20Xor, Poly1305
-- computePoly1305Mac, Engine the class. An exception is `none`. The shift of a 64-bit one by 64 in
-- computePoly1305Mac is undefined in C++; its value is the parameter `overshift` of all that depends on it.
-- The random bytes of generateKeyPair are an argument. Engine/Interface is what the agent and the client use.
--
-- Agent: apps/agent/src/AgentPacketHandler.h (`handle_client_packet` is handleClientPacket, with a function for
-- each branch), the readyRead handler of apps/agent/src/main.cpp (`ready_read`) and its callback for captured
-- frames (Frames). A socket is a record with the properties that the agent keeps on it and the list of what
-- was done for it. Spec says, without the code, what a packet may do in which state of a client, Startup
-- is the beginning of `main`, and Observers has the list of observers of a session.
--
-- Client: apps/client/src/SessionClient.cpp. `Session` has the members of the connection; Send, Connection and
-- Receive have the slots, each a function of the session, named as in the source; Terminal, Tools, Transfers
-- and Telemetry have the other members with their slots, Start the constructor, the destructor and the file of the
-- history, Theme the colours. Slots is the relation of all slots of a session in any order; Login follows a
-- password to the agent and its answer back. Signals and calls of Qt are a list of outputs.
--
-- FileTransfer: libs/file_transfer/src/FileTransferEngine.cpp. Sha256 is computeSha256, Directory listDirectory.
-- A file is the list of its bytes, or `none` where it does not open.
--
-- Identity: the desk id of SessionClient.cpp and rap_mobile_c_api.cpp.
--
-- Capture: libs/capture. Dirty is DirtyRegionDetector.cpp, X11 LinuxX11Capture.cpp (X11/Pixels says, without the loops, which picture an image shows), Drm LinuxDrmCapture.cpp, Dxgi
-- WindowsDxgiCaptureBackend.cpp and the stub of CrossPlatformCapture.cpp, Bitrate AdaptiveBitrateController.cpp, Shield MirrorShield.cpp, X11/Windows the search for the window that it
-- covers, which nothing calls any more. A capture is a function from the object and what the system returns to a frame, or none, and the object. Threads
-- has what the three backends with a thread share.
--
-- Input: libs/input. The calls that a backend makes for an event are a list.
--
-- Logger: libs/common/logging/JsonLogger.cpp. Mobile: libs/common/src/rap_mobile_c_api.cpp.
--
-- Qt: what the program uses of QString, a parameter (`QtText`), and QByteArray made with a size that was cast; so are qCompress, qUncompress and what Qt runs inside
-- `abort` and `disconnectFromHost`. Times and the clock's text are arguments.
--
-- Loops run on fuel where they are not structural. The loops over a buffer (the agent's, the client's, the
-- tag's, the hash's, the cipher's) get as many rounds as it has bytes, and each round takes a byte at least; the
-- cutting of a file is the one loop that can run out, for a chunk size of 0, and says so by `none`.
--
-- Not modelled: screenshots, images, updates, file watching and the start of the client, which are glue to Qt;
-- locks and threads, but for which thread there is; log lines of the slots; arithmetic on floating-point numbers, whose results are
-- parameters or the two counts of a quotient.
pub mod Prelude
pub mod Memory
pub mod Qt
pub mod Protocol
pub mod Security
pub mod Agent
pub mod Client
pub mod Capture
pub mod Input
pub mod Logger
pub mod FileTransfer
pub mod Identity
pub mod Mobile
pub mod Tests
