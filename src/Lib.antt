-- ===== src/Lib.antt =====
-- Verification of Cutelyst, a web framework on Qt: the parts of it that turn bytes of a peer into
-- requests, headers and messages, and back.
--
-- The program. Cutelyst/Server accepts connections and reads HTTP/1, HTTP/2, FastCGI and WebSocket
-- from them; each protocol fills an EngineRequest and hands it to the engine, the dispatcher and the
-- application's controllers in Cutelyst/, which answer through Response and Headers. HTTP/2 compresses
-- its headers with HPACK; a WebSocket is an HTTP/1 connection after its upgrade.
--
-- What is modelled, and where.
--   Common           byte strings (QByteArray) as lists of numbers, tests and lists over them.
--   EngineRequest    Cutelyst/enginerequest.cpp: EngineRequest::setPath. The buffer that the loop
--                    overwrites is the list of bytes written, `out`, in front of what is left of
--                    the request.
--   Hpack.Integer    Cutelyst/Server/hpack.cpp: decodeUInt16 and encodeUInt16. A block from `it` to
--                    `itEnd` is a list of bytes, a null pointer is `failed`, and a read behind the
--                    end or a shift without a meaning is `undefined`.
--   Hpack.Strings    the same file: hpackDecodeString, parse_string, parse_string_key.
--   Hpack.Table      the same file: the dynamic table of class HPack.
--   Hpack.Tables     Cutelyst/Server/hpack_p.cpp: the two tables of static headers.
--   Hpack.Decoder    Cutelyst/Server/hpack.cpp: HPack::decode, a function from a block, a table and
--                    a stream to a return code with the two objects as they are then. Its loop is
--                    one function per kind of field; Steps and Runs give the same loop as a step
--                    relation, for the invariants.
--   Hpack.Encoder    the same file: HPack::encodeHeaders.
--   WebSocket        Cutelyst/Server/protocolwebsocket.cpp: the frames written (Frames), the parse
--                    and send functions of each phase (Receive), and the read loop (Parse). A signal,
--                    a write, a flush and a close is an event in the order in which it happens.
--   Headers          Cutelyst/headers.cpp: lookup, setHeader, pushHeader, removeHeader and keys; the
--                    comparisons of entity tags (Etags); basic and bearer authorization.
--   Utils            Cutelyst/utils.cpp: decodePercentEncoding for a value and for a query, whose result
--                    is the list of the calls of ParamsMultiMap::insert.
--   Pagination       Cutelyst/Plugins/Utils/Pagination/pagination.cpp: the window of pages, with
--                    no result where an `int` of 32 bits overflows.
--   Durations        Cutelyst/utils.cpp: durationFromString; a sum of microseconds beyond an int64 is
--                    a result of its own (the sums are in Sums, the split into parts in Laws).
--   Http             Cutelyst/Server/protocolhttp.cpp: the line ends (Lines), parseMethod and parseHeader
--                    (Requests), and ProtocolHttp::parse with processRequest and processingFinished
--                    (Parse). A connection is the read buffer, the bytes that the socket still has,
--                    and the events seen outside. Responses has writeHeaders and http11StatusMessage.
--   FastCgi          Cutelyst/Server/protocolfastcgi.cpp: addHeader and parseHeaders (Params),
--                    processPacket, writeBody and readBody (Packets), parse and processingFinished
--                    (Parse), doWrite, writeHeaders and the end of a request (Records). The buffer is
--                    its first `buf_size` bytes and the memory behind them, which memcmp may read.
--   Http2            Cutelyst/Server/protocolhttp2.cpp: the frames that are written (Frames), the
--                    streams (Streams), parseHeaders (Blocks), the handlers of the other types of frame
--                    (Handlers) and parse (Parse). The streams of a connection are a list;
--                    an EngineRequest of a stream is the H2Stream of Hpack.Decoder. The memory behind
--                    the buffer is kept, since a handler may read it.
--   Multipart        Cutelyst/multipartformdataparser.cpp: `execute` with its loop over a window of the
--                    body, and the boundary of a content type (Boundary). The body is a device whose
--                    reads are given by position and size; a copy from in front of the buffer is
--                    a result of its own. Runs gives the loop as a relation without fuel.
--   Dispatch         Cutelyst/action.cpp and Cutelyst/dispatchtype.cpp (Actions);
--                    Cutelyst/dispatchtypepath.cpp (Paths); Cutelyst/dispatchtypechained.cpp: the
--                    search recurseMatch (Chained), registerAction and match (Chains), uriForAction and
--                    expandAction (Uris);
--                    Cutelyst/dispatcher.cpp: prepareAction (Prepare). A hash is an association list;
--                    its order stands for the order in which the hash is read.
-- Http2.Blocks calls Hpack.Decoder with one table for each connection.
-- Http.Requests uses EngineRequest for the path and Headers for the fields, and so does FastCgi.Params;
-- Multipart keeps the fields of a part in Headers; Dispatch.Prepare takes any
-- dispatch types, of which Dispatch.Paths is one; Dispatch.Chains decodes the arguments by Utils.
-- Hpack.Decoder uses EngineRequest for the `:path` field, Hpack.Table for its state and Hpack.Strings
-- for literals; Hpack.Decoder and Hpack.Encoder share the static tables.
--
-- What is a parameter: the Huffman automaton, whose table is data of nghttp2; QString::fromUtf8,
-- QString::toUtf8, QString::fromLatin1 and QString::toLatin1; QStringDecoder; QByteArray::toLongLong
-- and QString::toULongLong; QString::toInt; base64; the server's settings; for HTTP/1 the engine,
-- which answers a request, the upgrade to HTTP/2 and whether a body can be made and read; for FastCGI
-- what the body and the socket take of a write; for HTTP/2 what the socket takes and whether a body
-- can be made; for a multipart body the reads of its device.
--
-- Fuel. HPack::decode gets the length of the block, since a round takes a byte at least; the loop of
-- ProtocolWebSocket::parse gets one more than the bytes available, for the same reason. encodeUInt16
-- gets the number itself, which shrinks in each round. Eviction gets the number of entries, one of
-- which goes in each round. A number's decimal digits get 5, enough for a quint16.
--
-- ProtocolHttp::parse gets one more than the bytes in the buffer, and for a body one more than those
-- of the socket, recurseMatch one more than the parts of the path, and prepareAction one more than
-- the length of the path. The multipart loop over a window gets one more than its length, the read
-- loop any number that a theorem names; parseHeaders one more than the length of the record,
-- processPacket one more than the bytes in the buffer, doWrite one more than the bytes to write. The
-- loops of ProtocolHttp2::parse get a number that a theorem names, since one of them need not end.
--
-- Not modelled: QString beyond Latin-1 and ASCII comparison, the sizes at which an `int` of Qt would
-- overflow (but for Pagination), allocation, logging, the sockets, and the parts of Cutelyst that
-- have no file here: the writing of HTTP/2 responses under flow control and the upgrade to HTTP/2,
-- the WebSocket handshake, the set-up of the dispatcher and the execution of actions, plugins and
-- validators.
pub mod Common
pub mod EngineRequest
pub mod Hpack
pub mod WebSocket
pub mod FastCgi
pub mod Headers
pub mod Utils
pub mod Multipart
pub mod Pagination
pub mod Durations
pub mod Http
pub mod Http2
pub mod Dispatch
