-- ===== src/H2/Stream/Reading.antt =====
-- The incoming body of src/h2/stream.cpp.
use anyhttp.Prelude.{
  ℕ, ◌+◌, Bool, true, false, not, ◌&&◌, ◌||◌, Option, none, some, List, [], ◌∷◌, ◌++◌, Bytes,
  length, take, drop, is_empty, ◌==◌, if◌then◌else◌,
}
use anyhttp.Completion.{
  Code, success, eof, partial_message, canceled, at_once, posted, Read, is_some, Reaction, again,
  leave, drop_reader,
}
use anyhttp.Queue.{front, behind}
use anyhttp.H2.State.{
  Incoming, NgHttp2Stream, Event, consume_stream, start_write, submit_rst_stream, stream_closed,
  read_done, Change, reading_finished, done_reading,
}

-- `maybe_close_stream`
unfoldable pub maybe_close_stream : NgHttp2Stream → List Event
maybe_close_stream s =
    if s.closed || s.output.writer
    then []
    else if not s.output.eof_submitted || (not s.input.eof_received && not s.input.reader)
    then submit_rst_stream stream_closed ∷ start_write ∷ []
    else []

-- Whether `finish_deferred_close` calls `parent.close_stream(id)`.
unfoldable pub closes_now : Incoming → Bool
closes_now i =
    i.close_deferred
    && reading_finished i
    && not (is_some i.read_handler)
    && not i.inside_call_read_handler

-- A pass of `call_read_handler` or another operation of the reading side: the stream, its calls, the
-- bytes that it delivered, and whether it ends with a call of `parent.close_stream(id)`.
pub record Pass : Type 0 where
  pub stream : NgHttp2Stream
  pub events : List Event
  pub delivered : Bytes
  pub closes : Bool

abbrev pub at_rest : NgHttp2Stream → Pass
at_rest s = record { stream = s; events = []; delivered = []; closes = false }

unfoldable pub settled : Incoming → Incoming
unfolding closes_now
settled i = if closes_now i then record i { close_deferred = false } else i

unfoldable pub finish_deferred_close : Pass → Pass
unfolding closes_now settled
finish_deferred_close p = record p {
  stream = record p.stream { input = settled p.stream.input };
  closes = closes_now p.stream.input;
}

-- What `delete_reader` does to the body.
unfoldable pub abandoned : Bool → Incoming → Incoming
abandoned closed i =
    if closed || reading_finished i
    then record i { reader = false }
    else record i { read_buffer = []; pending_read_buffers = []; reader = false }

unfoldable pub delete_reader : NgHttp2Stream → Pass
unfolding finish_deferred_close abandoned maybe_close_stream
delete_reader s =
    let t = record s { input = abandoned s.closed s.input } in
    finish_deferred_close
      (record { stream = t; events = maybe_close_stream t; delivered = []; closes = false })

-- `~NGHttp2Reader` detaches the reader first.
unfoldable pub destroy_reader : NgHttp2Stream → Pass
unfolding delete_reader
destroy_reader s = delete_reader (record s { input = record s.input { reader = false } })

-- What the code that a completion resumes does while the call is still on the stack:
-- `finish_deferred_close` leaves its part to the outer call.
unfoldable pub react : NgHttp2Stream → Reaction → Change
unfolding destroy_reader
react s leave = (s, [])
react s drop_reader =
    if s.input.reader then (let p = destroy_reader s in (p.stream, p.events)) else (s, [])
react s (again r) =
    if not s.input.reader
    then (s, [])
    else if r.size == 0
    then (s, read_done at_once r.handler success [] ∷ [])
    else (record s { input = record s.input { read_handler = some r } }, [])

-- `if (is_empty(read_buffer_))`: the next stored buffer, or else the view.
unfoldable pub advance : Incoming → Bytes → Incoming × Bytes
advance i view =
    if not (is_empty i.read_buffer)
    then (i, view)
    else if is_empty (behind i.pending_read_buffers)
    then (record i { pending_read_buffers = []; read_buffer = view }, i.read_buffer)
    else (
      record i {
        pending_read_buffers = behind i.pending_read_buffers;
        read_buffer = front (behind i.pending_read_buffers);
      },
      view,
    )

-- `boost::asio::buffer_copy`, and the handler is taken.
unfoldable pub copy_out : Incoming → ℕ → Incoming × Bytes
copy_out i size = (
  record i {
    read_buffer = drop size i.read_buffer;
    bytes_read = i.bytes_read + length (take size i.read_buffer);
    read_handler = none;
  },
  take size i.read_buffer,
)

-- The loop's state: what has happened so far, the view, and the reactions that are left.
pub record Loop : Type 0 where
  pub stream : NgHttp2Stream
  pub events : List Event
  pub delivered : Bytes
  pub view : Bytes
  pub reactions : List Reaction

abbrev pub stop : List Reaction → NgHttp2Stream → Bytes → Loop
stop xs s view = record { stream = s; events = []; delivered = []; view = view; reactions = xs }

-- One pass of the loop's body, and the rest of the loop.
unfoldable pub deliver :
    (NgHttp2Stream → Bytes → Loop) → Reaction → NgHttp2Stream → Bytes → Read → Loop
unfolding copy_out react advance
deliver go_on x s view r =
    let (i, bytes) = copy_out s.input r.size in
    let (t, events) = react (record s { input = i }) x in
    let (j, view') = advance t.input view in
    let rest = go_on (record t { input = j }) view' in
    record rest {
      events = read_done at_once r.handler success bytes ∷ events ++ rest.events;
      delivered = bytes ++ rest.delivered;
    }

-- `while (read_handler_ && !is_empty(read_buffer_))`. `back` are the reactions before the round.
unfoldable pub iterate :
    (NgHttp2Stream → Bytes → Loop)
    → Reaction
    → List Reaction
    → NgHttp2Stream
    → Bytes
    → Option Read
    → Loop
unfolding deliver
iterate go_on x back s view none = stop back s view
iterate go_on x back s view (some r) =
    if is_empty s.input.read_buffer then stop back s view else deliver go_on x s view r

-- With the reactions of the code that each completion resumes. The last of them leaves no handler
-- behind.
unfoldable pub read_loop : List Reaction → NgHttp2Stream → Bytes → Loop
unfolding iterate
read_loop [] s view = iterate (stop []) leave [] s view s.input.read_handler
read_loop (x ∷ xs) s view = iterate (read_loop xs) x (x ∷ xs) s view s.input.read_handler

-- `while (read_handler_) … swap_and_invoke(read_handler_, errors::eof, 0)`
unfoldable pub end_with :
    (NgHttp2Stream → Change) → Code → Reaction → NgHttp2Stream → Option Read → Change
unfolding react
end_with go_on ec x s none = (s, [])
end_with go_on ec x s (some r) =
    let (t, events) = react (record s { input = record s.input { read_handler = none } }) x in
    let (u, rest) = go_on t in (u, read_done at_once r.handler ec [] ∷ events ++ rest)

unfoldable pub eof_loop : List Reaction → NgHttp2Stream → Change
unfolding end_with
eof_loop [] s = end_with (λ t. (t, [])) eof leave s s.input.read_handler
eof_loop (x ∷ xs) s = end_with (eof_loop xs) eof x s s.input.read_handler

abbrev pub next_reaction : List Reaction → Reaction
next_reaction [] = leave
next_reaction (x ∷ xs) = x

-- What is left of the view is stored.
unfoldable pub store_rest : Incoming → Bytes → Incoming
store_rest i view =
    if is_empty i.pending_read_buffers
    then record i { pending_read_buffers = i.read_buffer ∷ [] }
    else if is_empty view
    then i
    else record i { pending_read_buffers = i.pending_read_buffers ++ view ∷ [] }

-- Behind the loop: the end of the body, or the loss of the rest.
unfoldable pub conclude : List Reaction → NgHttp2Stream → Change
unfolding eof_loop end_with
conclude xs s =
    if s.input.eof_received
    then eof_loop xs s
    else if reading_finished s.input || s.closed
    then end_with (λ t. (t, [])) partial_message (next_reaction xs) s s.input.read_handler
    else (s, [])

unfoldable pub after_loop : Loop → Change
unfolding store_rest conclude
after_loop l =
    if is_empty l.stream.input.read_buffer
    then conclude l.reactions l.stream
    else (record l.stream { input = store_rest l.stream.input l.view }, [])

-- Without a handler, new data is stored.
unfoldable pub park : Incoming → Bytes → Incoming
park i view = if is_empty view then i else record i {
  pending_read_buffers = i.pending_read_buffers ++ view ∷ [];
  read_buffer = if is_empty i.pending_read_buffers then view else i.read_buffer;
}

-- `if (pending_read_buffers_.empty()) std::swap(read_buffer_, view)`
unfoldable pub take_view : Incoming → Bytes → Incoming × Bytes
take_view i view =
    if is_empty i.pending_read_buffers
    then (record i { read_buffer = view }, i.read_buffer)
    else (i, view)

abbrev pub credit_for : ℕ → List Event
credit_for n = if n == 0 then [] else consume_stream n ∷ start_write ∷ []

-- From the guards against a missing handler and against recursion to the end.
unfoldable pub run : List Reaction → NgHttp2Stream → Bytes → Pass
unfolding take_view read_loop after_loop
run xs s view =
    let (i, view') = take_view s.input view in
    let l =
      read_loop xs (record s { input = record i { inside_call_read_handler = true } }) view' in
    let (t, events) = after_loop l in
    record {
      stream = record t { input = record t.input { inside_call_read_handler = false } };
      events = l.events ++ credit_for (length l.delivered) ++ events;
      delivered = l.delivered;
      closes = false;
    }

unfoldable pub attempt : List Reaction → NgHttp2Stream → Bytes → Pass
unfolding park run
attempt xs s view =
    if not (is_some s.input.read_handler)
    then at_rest (record s { input = park s.input view })
    else if s.input.inside_call_read_handler
    then at_rest s
    else run xs s view

unfoldable pub call_read_handler : List Reaction → NgHttp2Stream → Bytes → Pass
unfolding finish_deferred_close attempt
call_read_handler xs s view = finish_deferred_close (attempt xs s view)

unfoldable pub on_data : List Reaction → NgHttp2Stream → Bytes → Pass
unfolding call_read_handler
on_data xs s chunk = call_read_handler xs s chunk

unfoldable pub on_eof : List Reaction → NgHttp2Stream → Pass
unfolding call_read_handler
on_eof xs s = call_read_handler xs (record s { input = record s.input { eof_received = true } }) []

-- `NGHttp2Reader::async_read_some` while the stream is there, and after `detach`.
unfoldable pub async_read_some : List Reaction → NgHttp2Stream → Read → Pass
unfolding call_read_handler
async_read_some xs s r =
    if r.size == 0
    then record (at_rest s) { events = read_done at_once r.handler success [] ∷ [] }
    else call_read_handler xs (record s { input = record s.input { read_handler = some r } }) []

unfoldable pub detached_read_some : Code → Read → Event
detached_read_some ec r = read_done at_once r.handler (if r.size == 0 then success else ec) []

-- The cancellation of a read completes it, and takes nothing from the body.
unfoldable pub cancel_read : NgHttp2Stream → Change
cancel_read s = (
  record s { input = record s.input { read_handler = none } },
  done_reading posted s.input.read_handler canceled,
)
