-- ===== src/Lib.antt =====
-- anyhttp: a library for HTTP/1, HTTP/2 and HTTP/3 servers and clients, and for plain QUIC streams.
--
-- Parts and how they interact. A server that has an HTTP/3 endpoint advertises it in "Alt-Svc"
-- (src/server_impl.cpp); a client parses the field (src/alt_svc.cpp) and remembers the alternative
-- (src/client_impl.cpp). A QUIC connection has streams (src/quic/stream.cpp), each with a reader and a
-- writer (include/anyhttp/quic/stream.hpp); the session feeds them what arrives and asks them what to
-- send, for plain streams through StreamApplication (src/quic/streams.cpp), which queues the streams
-- that the peer opens for accept_stream() and lets the streams that have something to send take turns.
-- An HTTP/2 connection has a session (src/h2/session.cpp, or src/h2v2/session.cpp on the second
-- version of nghttp2's interface) that keeps its streams by their ids and hands them what nghttp2
-- reports; nghttp2 pulls the body out of a stream. An HTTP/3 stream is a QUIC stream whose body passes
-- through nghttp3 (src/h3/stream.cpp). Beside these, static files are served from a cache of mapped
-- files (src/file_handler.cpp), and every response carries a date (src/common.cpp).
--
-- Files.
--   Prelude       Boolean tests on numbers, lists measured by numbers, words of 64 bits.
--   Completion    the error codes, the calls that leave a stream, and what a completion's code does next, as
--                 values.
--   Queue         a list of views with the one in front apart, as the streams store what is unread.
--   Contract      the Writer contract of include/anyhttp/writer_impl.hpp and docs/end-of-body.rst: an
--                 interface, the documented ladder that decides on a write, and the one case in which
--                 the code departs from it. Quic.Stream.Ladder, H2.Stream.Ladder and H2v2.Ladder hold
--                 the writers against it.
--   AltSvc        Chars, Encoding, Authority, Cursor, Service, Value and Field are src/alt_svc.cpp, a
--                 function per function; a parser takes the rest of the field value and gives a result
--                 and what is left, `failed` with what is left, or `spent` out of fuel. Render is an
--                 independent printer of RFC 7838. Progress, RoundTrip and Malformed hold the proofs, with
--                 ReadBack and ReadValue for their steps. Store is on_alt_svc and alt_svc of
--                 src/client_impl.cpp, Advertise the constructor of src/server_impl.cpp.
--   Quic.Stream   src/quic/stream.cpp. State is QuicStream's members, the two directions apart. Output is
--                 start_write, the cancellation of a write, pending_data, on_offered, on_sent, on_acked and
--                 abort_writing; Input on_data_chunk, on_eof, call_read_handler, abort_reading and the
--                 QuicReader adapter; Lifecycle fail, delete_reader, delete_writer, detach_all and
--                 maybe_close; Detached a QuicWriter whose stream is gone. Integrity, Delivery and Trace
--                 follow the incoming body, Positions, Bytes, Sends, Body, Changes, Outbound, Preserves,
--                 Offering, Exhausting and Reachable the outgoing one, Handlers and Progress its completions.
--   Quic.Streams  src/quic/streams.cpp. State is StreamApplication and the session's map of streams, Accept
--                 opening and accepting, Schedule the write queue, Receive what ngtcp2 reports. Moves and
--                 Order, Turns and RoundRobin hold the proofs.
--   H2            HTTP/2 over nghttp2. State is NGHttp2Stream's members, the two directions and the response
--                 apart. H2.Stream is src/h2/stream.cpp: Reading is call_read_handler, on_data, on_eof,
--                 the NGHttp2Reader adapter and the deferred close; Writing async_write, resume and
--                 producer_callback; Response get_response and its delivery. Integrity, Delivery, Waiting,
--                 Reports, Resting, Life and Endings follow the incoming body, Counting, Sending, SentBody,
--                 SentStep and Frames the outgoing one, Apart and Responses the rest. H2.Session is
--                 src/h2/session.cpp: Streams is the map of streams, closing and submitting; Closing what
--                 becomes of one stream; Receive the frames; Header the header callback. Resuming, Fates,
--                 Others, Submits and HeaderLimit hold the proofs.
--   H2v2          the outgoing body of src/h2v2/stream.cpp, which nghttp2 takes by reference. Writing is
--                 async_write, its cancellation, data_reader and on_write_offset; Body is what
--                 the writes make up; Lending, Offers and Slices hold the proofs.
--   H3            the outgoing body of src/h3/stream.cpp, between nghttp3 and the QUIC stream below. Body is
--                 data_reader, on_write_acked and on_write_offered, Handed the proofs.
--   FileCache     src/file_handler.cpp: Cache is FileCache and status_for; Keys, Coherence, Eviction,
--                 Recency and Serving hold the proofs.
--   HttpDate      format_http_date of src/common.cpp. Calendar is what it uses of std::chrono, Format the
--                 function; Days shows that its date is that of the day, Reader is an independent reader
--                 of RFC 9110 that RoundTrip reads the text back with.
--   Tests         the theorems at concrete values, and runs.
--
-- Conventions. An operation is a function from a state to the new state and the list of calls that it
-- makes, in their order; handlers are numbers, buffers the bytes that they view. A handler that is
-- invoked on the spot may call back: what the code that a read's completion resumes does to the stream
-- is an argument of the loop that completes it (`Reaction`), one for each completion; and what the
-- code that the close of an HTTP/2 stream resumes with a failed write does to that stream is an argument
-- of the close (`Doing`). A position is a number below 2^64 and additions to it wrap around.
--
-- Bounds and fuel. The parser's loops run on fuel, the length of the field value and one; every round
-- takes at least one byte, so that this is enough. The printer of numbers has 20 digits, enough
-- below 2^64. The loop of next_stream_data runs over the entries that the queue has at its start,
-- since each round without an answer takes one off. The eviction of the file cache runs on the
-- number of entries, one of which goes in each round. The search for the year of a day has one round
-- for every 365 days of it, and no year is shorter.
--
-- Not code under this repository, and so arguments: which ids the peer opens and what opening a stream
-- answers (ngtcp2), the steady clock, what `stat` and loading a file answer, what nghttp2
-- answers when a request is submitted (`Peer`), how Boost.URL takes a component of a URL, where
-- Boost.Beast inserts a field among those that a message has, and whether it throws. nghttp2 is
-- taken to ask a stream for nothing while it is deferred and nothing behind its end, and to frame no
-- more than it was handed. An acknowledgement is taken to be of bytes that were sent, an id
-- of a stream not to come twice; a caller starts one write at a time, as the class comment asks.
--
-- Not modelled: the loops that drive ngtcp2, nghttp2, nghttp3, Beast, Asio and OpenSSL; HTTP/1; the
-- headers and requests of HTTP/3; the session and the incoming side of src/h2v2, which are written like
-- those of src/h2; the lists of fields that a request or a response is sent with; the resolution of
-- paths, logging and the applications.
pub mod Prelude
pub mod AltSvc
pub mod Completion
pub mod Queue
pub mod Contract
pub mod Quic
pub mod H2
pub mod H2v2
pub mod H3
pub mod FileCache
pub mod HttpDate
pub mod Tests
