-- ===== src/H2/Stream/Writing.antt =====
-- The outgoing body of src/h2/stream.cpp.
use anyhttp.Prelude.{
  ℕ, Bool, true, false, not, ◌&&◌, ◌||◌, Option, none, some, List, [], ◌∷◌, Bytes, take, drop,
  is_empty, if◌then◌else◌,
}
use anyhttp.Completion.{
  Code, success, broken_pipe, canceled, connection_reset, connection_aborted, at_once, posted,
}
use anyhttp.H2.State.{
  Outgoing, NgHttp2Stream, Event, start_write, resume_data, write_done, Change, done_writing,
}
use anyhttp.H2.Stream.Reading.{maybe_close_stream}

pub record Write : Type 0 where
  pub handler : ℕ
  pub buffer : Bytes
  pub eof : Bool

abbrev pub Effect : Type 0
Effect = Outgoing × List Event

unfoldable pub resume : Outgoing → Effect
resume o =
    if o.is_deferred
    then (record o { is_deferred = false }, resume_data ∷ start_write ∷ [])
    else (o, [])

-- Behind the ladder. The assertion `!write_handler` is the caller's contract.
unfoldable pub accept : Outgoing → Write → Effect
unfolding resume
accept o w = resume (record o {
  write_buffer = w.buffer;
  eof_requested = o.eof_requested || w.eof;
  write_handler = some w.handler;
})

abbrev pub answer : Outgoing → ℕ → Code → Effect
answer o handler ec = (o, write_done at_once handler ec ∷ [])

-- `closed` is the stream's.
unfoldable pub async_write : Bool → Outgoing → Write → Effect
unfolding accept
async_write closed o w =
    if is_empty w.buffer && not w.eof
    then answer o w.handler success
    else if o.eof_requested && not (is_empty w.buffer)
    then answer o w.handler broken_pipe
    else if o.eof_requested && o.eof_submitted
    then answer o w.handler success
    else if closed
    then answer o w.handler connection_reset
    else accept o w

-- The cancellation of a write takes its handler away.
unfoldable pub cancel_write : Outgoing → Effect
cancel_write o = (record o { write_handler = none }, done_writing posted o.write_handler canceled)

-- What the code that a completion resumes writes before it returns, on a stream that is not closed.
unfoldable pub respawn : Outgoing → Option Write → Effect
unfolding async_write
respawn o none = (o, [])
respawn o (some w) = async_write false o w

-- What `producer_callback` returns: NGHTTP2_ERR_TEMPORAL_CALLBACK_FAILURE, NGHTTP2_ERR_DEFERRED, or
-- the bytes of a frame with NGHTTP2_DATA_FLAG_EOF.
pub data Produced : Type 0 where
  failure deferred : Produced
  frame : Bytes → Bool → Produced

pub record Production : Type 0 where
  pub output : Outgoing
  pub events : List Event
  pub produced : Produced

-- The end of a write: the handler is taken, and what it resumes may write again.
unfoldable pub complete : Outgoing → ℕ → Bytes → Bool → Option Write → Production
unfolding respawn
complete o handler bytes fin next =
    let (p, events) = respawn (record o { write_handler = none }) next in
    record {
      output = p;
      events = write_done at_once handler success ∷ events;
      produced = frame bytes fin;
    }

-- `write_buffer` is what is left of the buffer after this frame.
unfoldable pub produce : Outgoing → ℕ → ℕ → Option Write → Production
unfolding complete
produce o handler length next =
    let left = record o { write_buffer = drop length o.write_buffer } in
    let ends = record left { eof_submitted = o.eof_requested || o.eof_submitted } in
    if is_empty o.write_buffer
    then complete (record o { eof_submitted = true }) handler [] true next
    else if is_empty left.write_buffer
    then complete ends handler (take length o.write_buffer) o.eof_requested next
    else record { output = left; events = []; produced = frame (take length o.write_buffer) false }

-- `if (!write_handler)`: nothing to send, for now.
unfoldable pub defer_or_produce : Outgoing → ℕ → Option Write → Option ℕ → Production
unfolding produce
defer_or_produce o length next none = record {
  output = record o { is_deferred = true };
  events = [];
  produced = deferred;
}
defer_or_produce o length next (some handler) = produce o handler length next

unfoldable pub producer_callback : Bool → Outgoing → ℕ → Option Write → Production
unfolding defer_or_produce
producer_callback true o length next = record { output = o; events = []; produced = failure }
producer_callback false o length next = defer_or_produce o length next o.write_handler

-- `NGHttp2Writer::async_write` after `detach`, which has latched `eof_submitted`.
unfoldable pub detached_write : Bool → Write → Event
detached_write detached_eof_submitted w = write_done at_once w.handler (
    if is_empty w.buffer && not w.eof
    then success
    else if detached_eof_submitted
    then (if is_empty w.buffer then success else broken_pipe)
    else connection_aborted)

-- `~NGHttp2Writer` and `delete_writer`.
unfoldable pub destroy_writer : NgHttp2Stream → Change
unfolding maybe_close_stream
destroy_writer s =
    let t = record s { output = record s.output { writer = false } } in (t, maybe_close_stream t)
