-- ===== src/Lib.antt =====
-- A model of go-vncdriver, a VNC client in Go for environments that look at remote screens, and
-- theorems about it. Paths are from the repository's root.
--
-- The parts. Package vncclient speaks the RFB protocol: `Client` shakes hands with a server, the
-- methods of `ClientConn` write the client's messages, and `mainLoop` reads the server's, whose
-- rectangles are decoded by an encoding. Package gymvnc keeps a session with two screens on top of
-- it: `maintainFrameBuffer` draws updates on the back screen, and `Flip` swaps the screens and hands
-- out the updates that the new front screen shows. Package flexzlib inflates a zlib stream that comes
-- in pieces, for the ZRLE encoding.
--
-- The files.
-- Common: bytes and their order in words (Bytes, Bits), lists and the copying of slices (Lists,
-- Slices), and the monad of the model (Exec): state passing with the results ok, an error that the
-- code returns, a panic of the Go runtime, and `stuck` where a loop has run out of fuel;
-- Ensures and Total are its logic of what a returned value satisfies, and of calls that end.
-- Vncclient/Color, QuickBuf, Wire: vncclient/color.go and quickbuf.go, and what the package uses
-- of io.ReadFull, binary.Read and bytes.Buffer. A reader is the list of the bytes to come, behind which
-- the connection ends.
-- Vncclient/PixelFormat: vncclient/pixel_format.go.
-- Vncclient/Encoding, RawEncoding, Fill, Zrle: vncclient/encoding.go, that is the numbers of the
-- encodings, `RawEncoding.Read`, `fillColor` and `fillColor2`, and the ZRLE decoder: Zrle/Tile is
-- `parseTile`, Zrle/Parse `parse` and `Read`, and Zrle/Format the format of RFC 6143.
-- Vncclient/Tight: `TightEncoding` of encoding.go: Tight/Streams has its state and the zlib streams, and
-- Tight/Read the rectangles and filters. Flexzlib: flexzlib/reader.go and inflator.go.
-- Vncclient/Decoders: a connection with these decoders, put into the reading of messages.
-- Vncclient/Client, Client/Rfc: `ClientConn` and its methods of vncclient/client.go, and the
-- messages as RFC 6143 lets a server read them.
-- Vncclient/ClientAuth, Handshake: vncclient/client_auth.go, and the handshake of client.go.
-- Vncclient/ServerMessages: vncclient/server_messages.go, and a round of `mainLoop` of client.go.
-- Gymvnc/Config: the configuration of a session as `NewVNCSession` of gymvnc/gymvnc.go corrects it.
-- Gymvnc/Screen, Session: gymvnc/screen.go and gymvnc.go. A step is what runs under the session's
-- lock, Session/Asking has the requests for updates, and Session/Reach has every interleaving of the steps in which the updates are drawn without an
-- error.
-- Gymvnc/Events, Connect, Lifecycle, Batch: gymvnc/action.go, the attempts to connect, the session from
-- `NewVNCSession` to `Close` (Lifecycle/Life has everything that can happen to it, and Lifecycle/Pixels
-- the raw pixels in its format), and `VNCBatch`. A `Step` is one step or several, since it
-- holds the lock only in parts; the end of `mainLoop` is a step too. Files named Ending, Termination,
-- Rounds or Total are about calls that always end.
-- Tests: runs on concrete inputs.
--
-- State and numbers. The state of a connection is a record with the bytes to come, the bytes written,
-- and the fields of `ClientConn`; that of a session has the fields of `VNCSession`, the error that was
-- reported, and the number of goroutines that wait for the lock. Bytes and words are natural numbers;
-- a type's wrap-around is written out (u8, u16, u32), an int32 is its bit pattern, and an int is 64
-- bits wide, which the sizes here do not reach.
--
-- Fuel. The loop over a run's length takes a byte for every round, so it has one more round than the
-- buffer has bytes. The loop over the attempts to connect gets a round for every nanosecond of the start timeout
-- and one more, since each round but the last sleeps. `ReadAll` gets a number of rounds, and the theorems
-- say how many are enough. The loops over runs get the tile's pixels and one round more, since a run has a
-- pixel at least. The loops over tiles get a round for every 64 columns or rows, and two more.
--
-- Parameters. The decompressor of package flexflate, with the room that ioutil.ReadAll offers (`Flate` and
-- `room` of Flexzlib), the zlib of the standard library (`Zlib` of Tight/Streams) and the JPEG decoder
-- (`decode`) of the Tight encoding, the DES cipher (`des`, a key and a block of eight bytes), the capacity
-- of a bytes.Buffer (`capacity`, of which `IsCapacity` says that it holds what was written and is 16 at
-- least), and the error of a renderer's `Init` (`init`). The decoders of the server's messages take
-- `inflate` and `tight_read`, and Vncclient/Decoders fills them in.
--
-- Not modelled: flexflate, a copy of compress/flate; the checksum of flexzlib, which is never looked at;
-- `Flip` of a batch, the Python bindings, OpenGL, the commands, and vendored code. Time other than the
-- sleeps of `connect`, logs and the texts of errors are left out, and so is a server that is silent for
-- ever and does not end the connection, on which a read without a deadline waits. The list of the sessions
-- that have left a batch is the model's own. An error that a session's goroutine
-- reports is stored at once, and a closed connection is one whose writes fail.
pub mod Common
pub mod Flexzlib
pub mod Vncclient
pub mod Gymvnc
pub mod Tests
