-- ===== src/Lib.antt =====
-- streamserver-cvn: a server for MPEG transport streams, with tools to dump and split them.
--
-- The program reads transport stream packets of 188 bytes (with a prefix of 4 bytes, where it is so
-- configured), takes their fields apart, and serves them over HTTP. These files model:
--
--   Bits             numbers as strings of bits, the vocabulary of the specifications
--   BitStream        libmedia/tsprimitive.h, the class BitStream: taking and putting bits and byte
--                    arrays. BitStream/Reading and BitStream/Arrays describe reading by the bits
--                    that are still to come, BitStream/Writing and BitStream/Putting writing by
--                    the bits that have been put.
--   BitFields        libmedia/tsprimitive.h, the operators of bslbf, uimsbf and tcimsbf
--   PacketV2         libmedia/tspacketv2.h. PacketV2/Parser and PacketV2/Generator are the two
--                    implementations in libmedia/tspacketv2.cpp, PacketV2/Layout the bits of a packet
--                    by the standard.
--   TsPacket         libmedia/tspacket.{h,cpp}, the packet of the first API version. Its Parser is the
--                    adaptation field, its Packet the whole packet.
--   Ranges           libinfra/numericrange.h
--   Duration         libinfra/humanreadable.cpp, timeDuration
--   Writer           libmedia/tswriter.cpp, the queue of bytes
--   Reader           libmedia/tsreader.cpp: finding packets in a buffer (checkIsReady). Reader/Device
--                    is readData and drainBuffer over it.
--   Splitter         ts-split/splitter.cpp: requests, results and templates. Splitter/Handlers are the
--                    handlers of the reader's signals, which write through a Writer for each file.
--                    Splitter/Whole puts reader and splitter together.
--   StreamClient     streamserver-cvn-cli/streamclient.cpp, over Http/Connection
--   StreamServer     streamserver-cvn-cli/streamserver.cpp: finding packets in the input.
--                    StreamServer/Input is processInput, which sends on to the stream clients.
--                    StreamServer/Received, Sent and Judging describe what is read and sent by the
--                    bytes of the input.
--   Http/WhiteSpace  streamserver-cvn-cli/http/httputil.cpp, simplifiedLinearWhiteSpace
--   Http/Header      streamserver-cvn-cli/http/httpheader_netside.cpp
--   Http/Request     streamserver-cvn-cli/http/httprequest_netside.cpp, which fills in a Header
--   Http/Response    streamserver-cvn-cli/http/httpresponse.cpp
--   Http/Server      streamserver-cvn-cli/http/httpserver.cpp, Server::processRequest. Http/Server/Ports
--                    describes the port of a host by its text.
--   Http/Connection  streamserver-cvn-cli/http/httpserver.cpp, a client and its context
--
-- A packet parser takes a bit stream and fills in a record that the caller passes; a request takes
-- chunks of bytes. Code that throws returns an Outcome, which keeps the state at the throw. The
-- reader emits signals, a list of events, and the splitter handles them one by one. The HTTP client
-- feeds a request with what its socket reads, has the server judge it, and sends the response, whose
-- body the stream client makes of the packets in its queue. The stream server reads packets from its
-- input and puts each into the queue of every client.
--
-- Integers are native numbers, with the wrap-around written out where the source's type can wrap. A
-- field of a packet is the unsigned number that its bits spell. The loop of processChunk runs on
-- fuel, one more than the bytes in the buffer, and each round that goes on consumes bytes. The loop
-- that reads a field runs on its width. Packets of a buffer are counted on fuel, its length, since a
-- packet has a byte at least. The loop of checkIsReady need not end, so its fuel is an argument and a
-- result says when it has run out; for a stream of whole packets of a set size three rounds are
-- enough. The loop that fills a send buffer up to 1024 bytes has fuel for one round more than it can
-- make, since each round but the last adds a byte. The passes of a re-sync are counted down from the
-- source's limit of 208.
--
-- Not modelled: sockets, timers, files and signals, which are Qt's; debug output and logging; the
-- conversion store, and the overloads of the parser and the generator over its nodes; the reader,
-- the writer, the stream server and its clients with packets of the second API version; how long the
-- stream server sleeps to keep pace, and its shutdown; what is torn down behind a disconnect; and the command lines. A device that is read
-- or written is the list of its answers, and the text of a number is a function that the definitions
-- take. Clock values in seconds, which are floating point, are of a type that the reader and the
-- stream server take with its order.
pub mod Prelude
pub mod Bits
pub mod BitStream
pub mod BitFields
pub mod PacketV2
pub mod TsPacket
pub mod Ranges
pub mod Duration
pub mod Reader
pub mod Writer
pub mod Splitter
pub mod StreamClient
pub mod StreamServer
pub mod Http
pub mod Tests
