-- ===== src/Lib.antt =====
-- A client of the SimpleX Messaging Protocol (SMP) in Go: the package smp/, and two programs over it.
--
-- A client dials a server over TLS (smp/transport.go), whose certificate it pins, and exchanges
-- blocks of 16384 bytes with it. The two hello messages (smp/handshake.go) agree on a session and a
-- version (smp/dial.go). From then on a block carries transmissions (smp/protocol.go): each has a
-- correlation id, an entity id, an authorization, and the bytes of a command or of a server's message,
-- which the codec of smp/encoding.go writes and reads.
--
-- Base: the shared names, the numbers, Go's results and errors. An operation on an object of type S is
-- a function of S to a result and the object afterwards, also on an error (`Op S A`); a method that
-- changes its receiver is such an operation, and a do block is the code's chain of `if err != nil`.
-- An error is one of the package's error variables, or has none; the context that %w adds is kept,
-- and the numbers that the text of an error prints are not.
-- A byte is a number below 256 and a []byte is a list of them; nil is the empty list except where the
-- code tells it apart, where it is an Option. A theorem that reads a buffer from outside says that it
-- is of bytes.
--
-- Wire: smp/encoding.go. Wire/Encoder is the type Encoder (Word16 … Raw), Wire/Decoder the type
-- Decoder (need, Word16 … Tail). Its other files are the logic of parsers that the later parts use:
-- Reads (an operation reads exactly some bytes), Consumes (what a success says of the bytes read),
-- Exhausts (the same to the end of the buffer), Bounds (the position), Fields (sequences of fields).
-- Transmission: EncodeTransmission, decodeTransmission, encodeCorrID and decodeCorrID of
-- smp/protocol.go. Block: EncodeBlock and DecodeBlock. Command: the types that implement Command, and
-- EncodeCommand. Broker: the types that implement BrokerMsg, DecodeBrokerMsg and the parsers it calls.
-- Handshake: smp/handshake.go, the hello messages and NegotiateVersion.
-- Transport: smp/transport.go, WriteBlock, ReadBlock, earliestDeadline and the VerifyConnection callback
-- of DialTLS; Transport/Opening is DialTLS itself and Close. TCP and TLS are parameters that may do
-- anything with their own state; Transport/Opening.Verifies is what a theorem assumes of crypto/tls, that
-- a handshake succeeds only after the callback has returned nil.
-- Dial: smp/dial.go, and Dial of smp/client.go from an open connection on; Dial/Whole is the whole of
-- Dial, over Transport. The curve and the random numbers are parameters.
-- Channel: Go channels and the maps of channels of smp/client.go; to send on a full channel, to send on
-- a closed one and to close one twice are outcomes of their own.
-- Text: what smp/queue_uri.go uses of strings, strconv, encoding/base64 and net/url, over the bytes of a
-- string: Text/Strings (Index, LastIndex, the Trim functions), Text/Numbers (ParseUint at 16 bits and %d),
-- Text/Base64 (RawURLEncoding), Text/Query (ParseQuery, Get, Encode), and Text/Plain, the characters that
-- an encoded value stands in. A failing call is `none`.
-- Address: smp/queue_uri.go, ParseSMPQueueURI with parseHostPort, parsePortSuffix and
-- parseVersionRange, and String; all its errors are behind ErrBadQueueURI, and their texts are left out.
-- Client: smp/client.go. A definition is one critical section of the client's mutex (dispatch, Close,
-- handleReadError, the parts of send and of Subscribe), or one channel operation outside of it;
-- Client/Steps is the relation of the steps that goroutines take, in any order. Client/Requests is the
-- block that send writes; Client/Send is send from its start to its end, where the write of the block and
-- the select are parameters that may let the other goroutines take steps; Client/Closing is the whole of
-- Close, with the blocks that the reader still reads; Client/Calls is what the public methods make of
-- the result of send, and Client/Send/Calls is Ping, Send, Ack and NewQueue as a whole. Client/Subscription
-- is the whole of Subscribe, with what the other goroutines do to the client before send, in it and
-- before its last sections; Client/Subscription/Traces.IsForeign says which steps those may be. The order in which Go ranges over a map is the order of a list of which the theorems
-- assume nothing.
-- Auth: smp/auth.go, smp/auth_cb.go and smp/dh.go, over the primitives of crypto/ecdh, crypto/ed25519,
-- crypto/sha512 and nacl/secretbox as parameters; Auth/Deniable.Laws is what the theorems assume of
-- them: the sizes of a digest and of a box, and that a box opens to what was sealed and nothing else
-- opens.
-- Kozi: the program kozi-cli: its saved state (cmd/kozi-cli/state.go) and its commands
-- (cmd/kozi-cli/commands.go). Kozi/Watch is cmd/kozi-cli/proximity.go, the round of the watch and the
-- loop, which stops when the context is done and here has the number of times that the ticker fires
-- before; Kozi/Main is cmd/kozi-cli/main.go. The file system, encoding/json, strings.ToUpper,
-- crypto/sha256 and the notifier are parameters; Kozi/Main/Changes.Laws is what the theorems assume of
-- them: a file that was written reads back, JSON keeps a state of ASCII texts, ToUpper maps ASCII, and a
-- digest is of bytes. Text/Hex is hex.EncodeToString.
-- Tests: runs on small inputs.
--
-- Bounds: no fuel is needed. The loops of the code run over a list or a counter that was read. The
-- conversions to byte, uint16 and uint32 are written out as `%`. The int arithmetic of the decoder
-- stays far from its bounds: a length is at most 65535 and a position at most the length of a slice.
--
-- Not modelled: the settings of tls.Config other than the callback, which belong to crypto/tls; of the
-- programs under cmd/ what is printed, the notifications and the signals, and cmd/simplex-cli, which
-- prints one line; of smp/client.go the serialization of the writes of a block, which is the transport's.
pub mod Base
pub mod Wire
pub mod Transmission
pub mod Block
pub mod Command
pub mod Broker
pub mod Handshake
pub mod Transport
pub mod Dial
pub mod Auth
pub mod Channel
pub mod Client
pub mod Kozi
pub mod Text
pub mod Address
mod Tests
