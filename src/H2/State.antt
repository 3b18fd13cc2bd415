-- ===== src/H2/State.antt =====
-- The state of an `NGHttp2Stream`, include/anyhttp/h2/stream.hpp, and the calls that leave it.
use anyhttp.Prelude.{
  ℕ, ℤ, Bool, not, ◌&&◌, ◌||◌, Option, none, some, List, [], ◌∷◌, Bytes, is_empty,
}
use anyhttp.Completion.{Code, When, Read}

-- What nghttp2 is told a stream is reset with.
pub data Reset : Type 0 where
  cancel stream_closed internal_error : Reset

-- A handler is a number. The calls named `…_done` complete one, where it stands or posted to the
-- executor.
pub data Event : Type 0 where
  -- `nghttp2_session_consume_stream`
  consume_stream : ℕ → Event
  -- `nghttp2_session_consume_connection`
  consume_connection : ℕ → Event
  -- `nghttp2_session_resume_data`, `nghttp2_submit_rst_stream`
  resume_data : Event
  submit_rst_stream : Reset → Event
  -- `parent.start_write()`
  start_write : Event
  -- `nghttp2_submit_goaway`, with the last stream's id
  submit_goaway : ℤ → Event
  read_done : When → ℕ → Code → Bytes → Event
  write_done : When → ℕ → Code → Event
  -- The response that comes with `success` is a reader of the stream.
  response_done : When → ℕ → Code → Event
  -- The destructor completes a read with `bytesRead`, and copies nothing.
  read_dropped : ℕ → Code → ℕ → Event
  -- The request that comes with `success` is a writer of a new stream.
  submit_done : When → ℕ → Code → Event
  -- `complete_later` of a submit's handler that has been moved from and invoked: it is empty, and to
  -- invoke it is an error.
  submit_empty : Event
  -- `launch(…)` with the request's handler, or with the answer that the header section is too large;
  -- `on_alt_svc(…)`
  launch_handler launch_too_large launch_not_found : Event
  on_alt_svc : Bytes → Event

-- The incoming body.
pub record Incoming : Type 0 where
  pub read_buffer : Bytes
  pub pending_read_buffers : List Bytes
  pub eof_received : Bool
  pub read_handler : Option Read
  pub inside_call_read_handler : Bool
  pub bytes_read : ℕ
  pub close_deferred : Bool
  -- whether an adapter is attached
  pub reader : Bool

-- The outgoing body. A buffer is the bytes that it views.
pub record Outgoing : Type 0 where
  pub write_buffer : Bytes
  pub write_handler : Option ℕ
  pub is_deferred : Bool
  pub eof_requested : Bool
  pub eof_submitted : Bool
  pub writer : Bool

-- The answer to a request.
pub record Answer : Type 0 where
  pub response_handler : Option ℕ
  pub has_response : Bool
  pub response_delivered : Bool
  pub response_error : Option Code
  pub header_limit_exceeded : Bool

pub record NgHttp2Stream : Type 0 where
  pub input : Incoming
  pub output : Outgoing
  pub answer : Answer
  pub closed : Bool

abbrev pub created : NgHttp2Stream
created = record {
  input = record {
    read_buffer = [];
    pending_read_buffers = [];
    eof_received = Bool.false;
    read_handler = none;
    inside_call_read_handler = Bool.false;
    bytes_read = 0;
    close_deferred = Bool.false;
    reader = Bool.false;
  };
  output = record {
    write_buffer = [];
    write_handler = none;
    is_deferred = Bool.false;
    eof_requested = Bool.false;
    eof_submitted = Bool.false;
    writer = Bool.false;
  };
  answer = record {
    response_handler = none;
    has_response = Bool.false;
    response_delivered = Bool.false;
    response_error = none;
    header_limit_exceeded = Bool.false;
  };
  closed = Bool.false;
}

abbrev pub reading_finished : Incoming → Bool
reading_finished i = not i.reader || (i.eof_received && is_empty i.read_buffer)

-- A step of a stream, and its calls in their order.
abbrev pub Change : Type 0
Change = NgHttp2Stream × List Event

abbrev pub done_reading : When → Option Read → Code → List Event
done_reading w none ec = []
done_reading w (some r) ec = read_done w r.handler ec [] ∷ []

abbrev pub done_writing : When → Option ℕ → Code → List Event
done_writing w none ec = []
done_writing w (some h) ec = write_done w h ec ∷ []

abbrev pub done_responding : When → Option ℕ → Code → List Event
done_responding w none ec = []
done_responding w (some h) ec = response_done w h ec ∷ []
