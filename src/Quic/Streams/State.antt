-- ===== src/Quic/Streams/State.antt =====
-- The state of a `StreamApplication` and of its session's streams, include/anyhttp/quic/streams.hpp.
use anyhttp.Prelude.{ℕ, Bool, true, false, Option, none, some, List, [], ◌∷◌, ◌==◌, if◌then◌else◌}
use anyhttp.Completion.{Code, When, Event}
use anyhttp.Quic.Stream.State.{QuicStream, zero_copy, staged, Incoming}
use anyhttp.Quic.Stream.Outbound.{opened}

-- `listed` says whether the session's map has the stream: a handle or the accept queue may keep one
-- that was erased.
pub record PlainStream : Type 0 where
  pub id : ℕ
  pub body : QuicStream
  pub scheduled : Bool
  pub blocked : Bool
  pub listed : Bool

-- `closed` is `closed_ec_`, which is only ever connection_aborted.
pub record StreamApplication : Type 0 where
  pub zero_copy : Bool
  pub streams : List PlainStream
  pub accept_queue : List ℕ
  pub accept_handler : Option ℕ
  pub closed : Bool
  pub write_queue : List ℕ
  pub session_closed : Bool
  pub application_ready : Bool

-- What leaves the application: the completion of an accept_stream(), `session_.wake_write()`, the
-- credit that ngtcp2 is told to extend, and what a stream reports.
pub data Notice : Type 0 where
  accepted : When → ℕ → Code → Option ℕ → Notice
  wake_write : Notice
  extend_max_offset : ℕ → Notice
  extend_max_streams_bidi : ℕ → Notice
  reported : ℕ → Event → Notice

abbrev pub Turn : Type 0
Turn = StreamApplication × List Notice

unfoldable pub lookup : ℕ → List PlainStream → Option PlainStream
lookup id [] = none
lookup id (p ∷ ps) = let rest = lookup id ps in if p.id == id then some p else rest

-- In place, or behind the others.
unfoldable pub put : PlainStream → List PlainStream → List PlainStream
put q [] = q ∷ []
put q (p ∷ ps) = let rest = put q ps in if p.id == q.id then q ∷ ps else p ∷ rest

abbrev pub if_listed : Option PlainStream → Option PlainStream
if_listed none = none
if_listed (some p) = if p.listed then some p else none

-- `session_.find_stream(id)`
unfoldable pub find_stream : StreamApplication → ℕ → Option PlainStream
unfolding lookup
find_stream a id = if_listed (lookup id a.streams)

abbrev pub store : StreamApplication → PlainStream → StreamApplication
store a p = record a { streams = put p a.streams }

-- `session_.create_stream(id)` with `make_stream(id)`, for an id that the session does not know.
abbrev pub fresh_input : Incoming
fresh_input = record {
  pending_read = [];
  read_head = [];
  incoming = [];
  eof_received = false;
  read_handler = none;
  call_read_handler_active = false;
  read_aborted = false;
}

unfoldable pub make_stream : StreamApplication → ℕ → PlainStream
make_stream a id = record {
  id = id;
  body = record {
    input = fresh_input;
    output = opened (if a.zero_copy then zero_copy else staged);
    reader = false;
    writer = false;
  };
  scheduled = false;
  blocked = false;
  listed = true;
}

-- `make_handle(*stream)` attaches both adapters.
abbrev pub attached : PlainStream → PlainStream
attached p = record p { body = record p.body { reader = true; writer = true } }
