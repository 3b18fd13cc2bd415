-- ===== src/H2v2/Writing.antt =====
-- The outgoing body of src/h2v2/stream.cpp, which nghttp2 takes by reference.
use anyhttp.Prelude.{
  ℕ, ◌+◌, ◌-◌, min, Bool, true, false, not, ◌&&◌, ◌||◌, Option, none, some, List, [], ◌∷◌, Bytes,
  length, take, drop, is_empty, ltb, ◌==◌, if◌then◌else◌,
}
use anyhttp.Completion.{
  Code, success, broken_pipe, canceled, connection_reset, connection_aborted, at_once, posted,
}
use anyhttp.Quic.Stream.State.{WriteMode, is_zero_copy, is_staged}
use anyhttp.H2.State.{
  Event, start_write, resume_data, submit_rst_stream, cancel, write_done, done_writing,
}
use anyhttp.H2.Stream.Writing.{Write}

-- `offered` bytes of the buffer have been handed to nghttp2, `written` of them have been framed.
-- The events `resume_data` and `submit_rst_stream` stand for `nghttp2_conn_resume_stream` and
-- `nghttp2_conn_shutdown_stream` here.
pub record Outgoing : Type 0 where
  pub write_mode : WriteMode
  pub write_buffer : Bytes
  pub offered : ℕ
  pub written : ℕ
  pub write_cancelled : Bool
  pub write_handler : Option ℕ
  pub is_deferred : Bool
  pub eof_requested : Bool
  pub eof_submitted : Bool

-- write_chunk_size
abbrev pub write_chunk_size : ℕ
write_chunk_size = 16384

abbrev pub Effect : Type 0
Effect = Outgoing × List Event

unfoldable pub resume : Outgoing → Effect
resume o =
    if o.is_deferred
    then (record o { is_deferred = false }, resume_data ∷ start_write ∷ [])
    else (o, [])

-- Behind the ladder. The assertion `!write_handler` is the caller's contract.
unfoldable pub accept : Outgoing → Write → Effect
unfolding resume
accept o w = resume (record o {
  write_buffer = w.buffer;
  offered = 0;
  written = 0;
  eof_requested = o.eof_requested || w.eof;
  write_handler = some w.handler;
})

abbrev pub answer : Outgoing → ℕ → Code → Effect
answer o handler ec = (o, write_done at_once handler ec ∷ [])

-- `closed` is the stream's.
unfoldable pub async_write : Bool → Outgoing → Write → Effect
unfolding accept
async_write closed o w =
    if is_empty w.buffer && not w.eof
    then answer o w.handler success
    else if o.eof_requested && not (is_empty w.buffer)
    then answer o w.handler broken_pipe
    else if o.eof_requested && o.eof_submitted
    then answer o w.handler success
    else if closed
    then answer o w.handler connection_reset
    else accept o w

-- With bytes outstanding in ZeroCopy mode, the stream is reset, and the handler completes when it
-- closes.
unfoldable pub cancel_write : Bool → Outgoing → Effect
cancel_write closed o =
    if is_zero_copy o.write_mode && ltb o.written o.offered && not closed
    then (record o { write_cancelled = true }, submit_rst_stream cancel ∷ start_write ∷ [])
    else (record o { write_handler = none }, done_writing posted o.write_handler canceled)

-- What the code that a completion resumes writes before it returns, on a stream that is not closed.
unfoldable pub respawn : Outgoing → Option Write → Effect
unfolding async_write
respawn o none = (o, [])
respawn o (some w) = async_write false o w

-- `swap_and_invoke(write_handler, error_code{})`
unfoldable pub complete : Outgoing → ℕ → Option Write → Effect
unfolding respawn
complete o handler next =
    let (p, events) = respawn (record o { write_handler = none }) next in
    (p, write_done at_once handler success ∷ events)

-- What `data_reader` returns: NGHTTP2_ERR_WOULDBLOCK, or what `vec` points at with
-- NGHTTP2_READ_DATA_FLAG_EOF; no vector is the empty one.
pub data Taken : Type 0 where
  would_block : Taken
  taken : Bytes → Bool → Taken

pub record Reading : Type 0 where
  pub output : Outgoing
  pub events : List Event
  pub result : Taken

abbrev pub blocks : Outgoing → Reading
blocks o = record { output = record o { is_deferred = true }; events = []; result = would_block }

-- How much is handed over at once.
abbrev pub offer_of : Outgoing → ℕ → ℕ
offer_of o n = if is_zero_copy o.write_mode then n else min n write_chunk_size

-- The next slice of the buffer, and whether it is the last.
abbrev pub slice : Outgoing → Bytes
slice o = take (offer_of o (length o.write_buffer - o.offered)) (drop o.offered o.write_buffer)

abbrev pub is_last : Outgoing → Bool
is_last o = o.offered + offer_of o (length o.write_buffer - o.offered) == length o.write_buffer

abbrev pub handed : Outgoing → Outgoing
handed o = record o {
  offered = o.offered + offer_of o (length o.write_buffer - o.offered);
  eof_submitted = (is_last o && o.eof_requested) || o.eof_submitted;
}

unfoldable pub hand_over : Outgoing → ℕ → Option Write → Reading
unfolding complete
hand_over o handler next =
    let (q, events) = complete (handed o) handler next in
    if is_last o && is_staged o.write_mode
    then record {
      output = q;
      events = events;
      result = taken (slice o) (is_last o && o.eof_requested);
    }
    else record {
      output = handed o;
      events = [];
      result = taken (slice o) (is_last o && o.eof_requested);
    }

-- An empty write only ever ends the body.
unfoldable pub end_body : Outgoing → ℕ → Option Write → Reading
unfolding complete
end_body o handler next =
    let (q, events) = complete (record o { eof_submitted = true }) handler next in
    if not o.eof_requested || o.eof_submitted
    then blocks o
    else record { output = q; events = events; result = taken [] true }

-- `has_room` says whether `veccnt` is not zero.
unfoldable pub read_for : Outgoing → Bool → Option Write → Option ℕ → Reading
unfolding hand_over end_body
read_for o has_room next none =
    if o.eof_submitted then record { output = o; events = []; result = taken [] true } else blocks o
read_for o has_room next (some handler) =
    if length o.write_buffer - o.offered == 0
    then end_body o handler next
    else if not has_room
    then blocks o
    else hand_over o handler next

unfoldable pub data_reader : Outgoing → Bool → Option Write → Reading
unfolding read_for
data_reader o has_room next = read_for o has_room next o.write_handler

unfoldable pub framed_for : Outgoing → Option Write → Option ℕ → Effect
unfolding complete
framed_for o next none = (o, [])
framed_for o next (some handler) =
    let done = complete o handler next in
    if ltb o.written (length o.write_buffer) then (o, []) else done

-- Only ZeroCopy has anything to do here.
unfoldable pub on_write_offset : Outgoing → ℕ → Option Write → Effect
unfolding framed_for
on_write_offset o len next =
    let p = record o { written = o.written + len } in
    if is_zero_copy o.write_mode then framed_for p next p.write_handler else (o, [])

-- `close_stream` of src/h2v2/session.cpp, as it concerns a write that waits.
unfoldable pub fail_write : Outgoing → Effect
fail_write o = (
  record o { write_handler = none },
  done_writing at_once o.write_handler (if o.write_cancelled then canceled else connection_reset),
)

-- `NGHttp2Writer::async_write` after `detach`, which has latched `eof_submitted`.
unfoldable pub detached_write : Bool → Write → Event
detached_write detached_eof_submitted w = write_done at_once w.handler (
    if is_empty w.buffer && not w.eof
    then success
    else if detached_eof_submitted
    then (if is_empty w.buffer then success else broken_pipe)
    else connection_aborted)
