-- ===== src/Quic/Stream/Lifecycle.antt =====
-- The end of a `QuicStream`, src/quic/stream.cpp: `fail`, what the adapters' destructors call, and
-- the way out of a session. Handlers that run at once are events; what they do next is a call of
-- its own.
use anyhttp.Prelude.{
  Bool, true, false, not, ◌&&◌, ◌||◌, Option, none, some, List, [], ◌∷◌, ◌++◌, is_empty,
  if◌then◌else◌,
}
use anyhttp.Completion.{
  Event, Code, success, partial_message, connection_reset, at_once, read_done, stop_sending, erase,
  failing,
}
use anyhttp.Quic.Stream.State.{Incoming, Outgoing, QuicStream, Read}
use anyhttp.Quic.Stream.Output.{done_with, reset_writing, abort_writing}

abbrev pub Change : Type 0
Change = QuicStream × List Event

abbrev pub read_done_with : Option Read → Code → List Event
read_done_with none ec = []
read_done_with (some r) ec = read_done r.handler ec [] ∷ []

unfoldable pub maybe_close : QuicStream → List Event
maybe_close s = if s.reader || s.writer then [] else if not s.output.closed then [] else erase ∷ []

abbrev pub emptied : Incoming → Incoming
emptied i = record i { pending_read = []; read_head = []; incoming = [] }

-- The destructor of the reading adapter clears `reader` first.
unfoldable pub delete_reader : QuicStream → Change
unfolding maybe_close
delete_reader s =
    let t = record s { input = emptied s.input; reader = false } in
    let stop =
      if not s.input.eof_received && not s.output.closed && not s.input.read_aborted
      then stop_sending ∷ []
      else [] in
    (t, stop ++ maybe_close t)

-- The destructor of the writing adapter clears `writer` first.
unfoldable pub delete_writer : QuicStream → Change
unfolding reset_writing abort_writing maybe_close
delete_writer s =
    let t = record s { writer = false } in
    if t.output.closed || t.output.write_aborted
    then (t, maybe_close t)
    else if not t.output.eof_submitted
    then (let (reset, events) = reset_writing t.output in
        let (dead, more) = abort_writing reset connection_reset in
        let u = record t { output = dead } in (u, events ++ (more ++ maybe_close u)))
    else (t, maybe_close t)

-- `ec ? ec : connection_reset`
abbrev or_reset : Code → Code
or_reset success = connection_reset
or_reset ec = ec

abbrev pub is_error : Code → Bool
is_error success = false
is_error ec = true

-- The read gets a truncation for an error in front of the end of the body.
abbrev failed_read : QuicStream → Code → Code
failed_read s ec = if is_error ec && not s.input.eof_received then partial_message else ec

fail_write : Outgoing → Code → Outgoing × List Event
fail_write o ec =
    if o.write_active
    then (
      record o { write_active = false; write_source = []; write_handler = none },
      done_with at_once o.write_handler (or_reset ec),
    )
    else (o, [])

unfoldable pub fail : QuicStream → Code → Change
unfolding fail_write maybe_close
fail s ec =
    let (o, events) = fail_write (record s.output { closed = true }) ec in
    let t = record s { input = record s.input { read_handler = none }; output = o } in
    (
      t,
      read_done_with s.input.read_handler (failed_read s ec)
          ++ (failing ec ∷ events ++ maybe_close t),
    )

-- What the adapters keep of a stream that goes away: `detached_ec` and `detached_body_ended`.
unfoldable pub reading_finished : Incoming → Bool
reading_finished i = i.eof_received && is_empty i.read_head && is_empty i.incoming

unfoldable pub detached_body_ended : Outgoing → Bool
detached_body_ended o = o.eof_submitted && o.fin_offered

-- The handlers of `detach_all`; a detached write has none.
unfoldable pub detach_all : QuicStream → Change
detach_all s = (
  record s {
    input = record s.input { read_handler = none };
    output = record s.output {
      write_handler = if s.output.write_active then none else s.output.write_handler;
    };
    reader = false;
    writer = false;
  },
  read_done_with s.input.read_handler connection_reset
      ++ (if s.output.write_active
          then done_with at_once s.output.write_handler connection_reset
          else []),
)
