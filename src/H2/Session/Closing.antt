-- ===== src/H2/Session/Closing.antt =====
-- `close_stream` of src/h2/session.cpp, as it concerns one stream.
use anyhttp.Prelude.{
  ℕ, Bool, true, false, not, ◌&&◌, ◌||◌, Option, none, some, List, [], ◌∷◌, ◌++◌, if◌then◌else◌,
}
use anyhttp.Completion.{
  partial_message, connection_reset, end_of_stream, at_once, Read, Reaction, is_some,
}
use anyhttp.H2.State.{
  NgHttp2Stream, Event, write_done, reading_finished, done_reading, done_responding,
}
use anyhttp.H2.Stream.Reading.{call_read_handler, async_read_some, cancel_read, destroy_reader}
use anyhttp.H2.Stream.Writing.{Write, async_write, destroy_writer}
use anyhttp.H2.Stream.Response.{Delivery, nothing, async_get_response}

-- What the code that a failed write resumes may do to the stream before it returns.
pub data Doing : Type 0 where
  reads : Read → List Reaction → Doing
  writes : Write → Doing
  asks : ℕ → Doing
  cancels_read drops_reader drops_writer : Doing

-- A response is asked for only while no other call waits for it.
unfoldable pub do_one : NgHttp2Stream → Doing → Delivery
unfolding async_read_some cancel_read destroy_reader async_write destroy_writer async_get_response
do_one s (reads r xs) =
    if s.input.reader
    then (let p = async_read_some xs s r in
        record { stream = p.stream; events = p.events; closes = p.closes })
    else nothing s
do_one s (writes w) =
    let (o, events) = async_write s.closed s.output w in
    record { stream = record s { output = o }; events = events; closes = false }
do_one s (asks handler) =
    if is_some s.answer.response_handler then nothing s else async_get_response s handler
do_one s cancels_read =
    let (t, events) = cancel_read s in record { stream = t; events = events; closes = false }
do_one s drops_reader =
    if s.input.reader
    then (let p = destroy_reader s in
        record { stream = p.stream; events = p.events; closes = p.closes })
    else nothing s
do_one s drops_writer =
    let (t, events) = destroy_writer s in record { stream = t; events = events; closes = false }

unfoldable pub do_all : List Doing → NgHttp2Stream → Delivery
unfolding do_one
do_all [] s = nothing s
do_all (d ∷ ds) s =
    let p = do_one s d in
    let rest = do_all ds p.stream in
    record {
      stream = rest.stream;
      events = p.events ++ rest.events;
      closes = p.closes || rest.closes;
    }

-- What becomes of the stream: it is kept until its response is asked for, or until its body has been
-- read, or it is erased from the session.
pub data Fate : Type 0 where
  kept deferred erased : Fate

pub record Closing : Type 0 where
  pub stream : NgHttp2Stream
  pub events : List Event
  pub fate : Fate
  -- whether another close is asked for in the course of this one
  pub again : Bool

-- `swap_and_invoke` takes the handler and invokes it, and the code that it resumes runs before the
-- close goes on.
unfoldable pub resume_failed : List Doing → NgHttp2Stream → Option ℕ → Delivery
unfolding do_all
resume_failed ds s none = nothing s
resume_failed ds s (some handler) =
    let d = do_all ds s in
    record d { events = write_done at_once handler connection_reset ∷ d.events }

unfoldable pub fail_write : List Doing → NgHttp2Stream → Delivery
unfolding resume_failed
fail_write ds s =
    resume_failed ds (record s { output = record s.output { write_handler = none }; closed = true })
      s.output.write_handler

-- The rest, on the stream as the failed write leaves it.
unfoldable pub settle : List Reaction → NgHttp2Stream → Closing
unfolding call_read_handler
settle xs s =
    if not s.answer.response_delivered && (s.answer.has_response || is_some s.answer.response_error)
    then (let p = call_read_handler xs s [] in
        record { stream = p.stream; events = p.events; fate = kept; again = p.closes })
    else if s.input.reader && s.input.eof_received && not (reading_finished s.input)
    then record {
      stream = record s { input = record s.input { close_deferred = true } };
      events = [];
      fate = deferred;
      again = false;
    }
    else record {
      stream = record s {
        input = record s.input { read_handler = none };
        answer = record s.answer { response_handler = none };
      };
      events =
          done_reading at_once s.input.read_handler partial_message
          ++ done_responding at_once s.answer.response_handler end_of_stream;
      fate = erased;
      again = false;
    }

-- What the failed write's code does is `ds`, and `xs` what the code does that reads resume.
unfoldable pub close : List Doing → List Reaction → NgHttp2Stream → Closing
unfolding fail_write settle
close ds xs s =
    let f = fail_write ds s in
    let c = settle xs f.stream in
    record c { events = f.events ++ c.events; again = f.closes || c.again }
