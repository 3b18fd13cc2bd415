-- ===== src/H2/Stream/Response.antt =====
-- The answer to a request of src/h2/stream.cpp, and the end of a stream.
use anyhttp.Prelude.{
  ℕ, Bool, true, false, not, ◌&&◌, Option, none, some, List, [], ◌∷◌, ◌++◌, if◌then◌else◌,
}
use anyhttp.Completion.{
  Code, success, eof, partial_message, canceled, already_started, connection_aborted, header_limit,
  at_once, posted, Read, is_some,
}
use anyhttp.H2.State.{
  Incoming, NgHttp2Stream, Event, cancel, submit_rst_stream, response_done, read_dropped,
  reading_finished, Change, done_writing, done_responding,
}

-- What a stream's operation does, and whether it ends with a call of `parent.close_stream(id)`.
pub record Delivery : Type 0 where
  pub stream : NgHttp2Stream
  pub events : List Event
  pub closes : Bool

abbrev pub nothing : NgHttp2Stream → Delivery
nothing s = record { stream = s; events = []; closes = false }

-- The response is a new reader of the stream.
unfoldable pub deliver : NgHttp2Stream → ℕ → Option Code → Delivery
deliver s handler (some ec) = record {
  stream = record s {
    answer = record s.answer { response_handler = none; response_delivered = true };
  };
  events = response_done at_once handler ec ∷ [];
  closes = s.closed;
}
deliver s handler none = record {
  stream = record s {
    answer = record s.answer { response_handler = none; response_delivered = true };
    input = record s.input { reader = true };
  };
  events = response_done at_once handler success ∷ [];
  closes = false;
}

unfoldable pub deliver_to : NgHttp2Stream → Option ℕ → Delivery
unfolding deliver
deliver_to s none = nothing s
deliver_to s (some handler) = deliver s handler s.answer.response_error

unfoldable pub deliver_response : NgHttp2Stream → Delivery
unfolding deliver_to
deliver_response s =
    if not s.answer.has_response && not (is_some s.answer.response_error)
    then nothing s
    else deliver_to s s.answer.response_handler

-- The assertion `!response_handler` is the caller's contract.
unfoldable pub async_get_response : NgHttp2Stream → ℕ → Delivery
unfolding deliver_response
async_get_response s handler =
    if s.answer.response_delivered
    then record (nothing s) { events = response_done at_once handler already_started ∷ [] }
    else deliver_response
        (record s { answer = record s.answer { response_handler = some handler } })

-- `NGHttp2Writer::async_get_response` once the stream is gone.
abbrev pub detached_get_response : ℕ → Event
detached_get_response handler = response_done at_once handler connection_aborted

unfoldable pub cancel_get_response : NgHttp2Stream → Change
cancel_get_response s = (
  record s { answer = record s.answer { response_handler = none } },
  done_responding posted s.answer.response_handler canceled,
)

-- `on_response`, once the header section is complete.
unfoldable pub on_response : NgHttp2Stream → Delivery
unfolding deliver_response
on_response s =
    if s.answer.header_limit_exceeded
    then (let d =
          deliver_response
            (record s { answer = record s.answer { response_error = some header_limit } }) in
        record d { events = submit_rst_stream cancel ∷ d.events })
    else deliver_response (record s { answer = record s.answer { has_response = true } })

-- What `detach` latches for the reads that come later.
unfoldable pub detached_ec : Incoming → Code
detached_ec i = if reading_finished i then eof else partial_message

abbrev pub dropped : Option Read → ℕ → List Event
dropped none n = []
dropped (some r) n = read_dropped r.handler partial_message n ∷ []

-- `~NGHttp2Stream` completes what still waits.
unfoldable pub destroy : NgHttp2Stream → List Event
destroy s =
    done_responding at_once s.answer.response_handler canceled
    ++ dropped s.input.read_handler s.input.bytes_read
    ++ done_writing at_once s.output.write_handler canceled
