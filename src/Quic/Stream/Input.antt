-- ===== src/Quic/Stream/Input.antt =====
-- The incoming body of src/quic/stream.cpp, and the reading adapter of include/anyhttp/quic/stream.hpp.
use anyhttp.Prelude.{
  ℕ, ◌-◌, Bool, true, false, not, ◌||◌, Option, none, some, List, [], ◌∷◌, ◌++◌, Bytes, length,
  take, drop, is_empty, ltb, ◌==◌, if◌then◌else◌,
}
use anyhttp.Completion.{Event, Code, success, eof, partial_message, canceled, read_done, consumed}
pub use anyhttp.Completion.{Reaction, again, leave, drop_reader}
pub use anyhttp.Queue.{front}
use anyhttp.Quic.Stream.State.{Incoming, QuicStream, Read, is_some}
use anyhttp.Quic.Stream.Lifecycle.{Change, emptied, delete_reader, read_done_with, reading_finished}

-- What a read copied, and what is left of the queue.
pub record Filled : Type 0 where
  pub copied : Bytes
  pub head : Bytes
  pub queue : List Bytes

-- The inner loop over the queued chunks: a buffer of `size` bytes takes as many as it can. The
-- queue has its front for as long as `read_head` is not empty.
unfoldable pub fill : ℕ → Bytes → List Bytes → Filled
fill size head [] = record { copied = []; head = head; queue = [] }
fill size head (c ∷ cs) =
    let rest = fill (size - length head) (front cs) cs in
    if size == 0 || is_empty head
    then record { copied = []; head = head; queue = c ∷ cs }
    else if ltb size (length head)
    then record { copied = take size head; head = drop size head; queue = c ∷ cs }
    else record rest { copied = head ++ rest.copied }

-- The queued chunks first, and last the chunk that is being delivered.
unfoldable pub take_in : Incoming → ℕ → Incoming × Bytes
unfolding fill
take_in i size =
    let f = fill size i.read_head i.pending_read in
    let n = size - length f.copied in
    (
      record i {
        pending_read = f.queue;
        read_head = f.head;
        incoming = drop n i.incoming;
        read_handler = none;
      },
      f.copied ++ take n i.incoming,
    )

-- One round of the loop: what the waiting read is completed with, if anything.
unfoldable pub round : QuicStream → Read → Option (QuicStream × Code × Bytes)
round s r =
    if not (is_empty s.input.read_head) || not (is_empty s.input.incoming)
    then (let (i, bytes) = take_in s.input r.size in some (record s { input = i }, success, bytes))
    else if s.input.eof_received
    then some (record s { input = record s.input { read_handler = none } }, eof, [])
    else if s.output.closed || s.input.read_aborted
    then some (record s { input = record s.input { read_handler = none } }, partial_message, [])
    else none

-- `async_read_some` from inside the loop only arms the handler.
arm : QuicStream → Read → Change
arm s r =
    if r.size == 0
    then (s, read_done r.handler success [] ∷ [])
    else (record s { input = record s.input { read_handler = some r } }, [])

unfoldable pub react : QuicStream → Reaction → Change
unfolding arm
react s leave = (s, [])
react s drop_reader = delete_reader s
react s (again r) = if s.reader then arm s r else (s, [])

-- What a pass over the loop leaves behind: the stream, its calls, and the bytes it delivered.
pub record Pass : Type 0 where
  pub stream : QuicStream
  pub events : List Event
  pub delivered : Bytes

abbrev pub idle : QuicStream → Pass
idle s = record { stream = s; events = []; delivered = [] }

-- A completion, what the code that it resumes does, and the rest of the loop.
unfoldable pub complete :
    (QuicStream → Pass) → Reaction → QuicStream → ℕ → Option (QuicStream × Code × Bytes) → Pass
unfolding react
complete go_on x s handler none = idle s
complete go_on x s handler (some (t, ec, bytes)) =
    let (u, events) = react t x in
    let p = go_on u in
    record {
      stream = p.stream;
      events = read_done handler ec bytes ∷ events ++ p.events;
      delivered = bytes ++ p.delivered;
    }

unfoldable pub iterate : (QuicStream → Pass) → Reaction → QuicStream → Option Read → Pass
unfolding complete round
iterate go_on x s none = idle s
iterate go_on x s (some r) = complete go_on x s r.handler (round s r)

-- `while (read_handler)`, with the reactions of the code that each completion resumes. The last of
-- them leaves no handler behind.
unfoldable pub read_loop : List Reaction → QuicStream → Pass
unfolding iterate
read_loop [] s = iterate idle leave s s.input.read_handler
read_loop (x ∷ xs) s = iterate (read_loop xs) x s s.input.read_handler

-- Behind the guard, and with the credit for what the loop delivered.
unfoldable pub run_loop : Bool → List Reaction → QuicStream → Pass
unfolding read_loop
run_loop true xs s = idle s
run_loop false xs s =
    let p = read_loop xs s in record p { events = p.events ++ consumed (length p.delivered) ∷ [] }

unfoldable pub call_read_handler : List Reaction → QuicStream → Pass
unfolding run_loop
call_read_handler xs s =
    run_loop (not (is_some s.input.read_handler) || s.input.call_read_handler_active) xs s

-- What the reader did not take of a chunk is parked.
unfoldable pub park : Incoming → Incoming
park i = if is_empty i.incoming then i else record i {
  pending_read = i.pending_read ++ i.incoming ∷ [];
  read_head =
      if is_empty i.read_head then front (i.pending_read ++ i.incoming ∷ []) else i.read_head;
  incoming = [];
}

unfoldable pub on_data_chunk : List Reaction → QuicStream → Bytes → Pass
unfolding call_read_handler park
on_data_chunk xs s chunk =
    if is_empty chunk
    then idle s
    else (let p = call_read_handler xs (record s { input = record s.input { incoming = chunk } }) in
        record p { stream = record p.stream { input = park p.stream.input } })

unfoldable pub on_eof : List Reaction → QuicStream → Pass
unfolding call_read_handler
on_eof xs s = call_read_handler xs (record s { input = record s.input { eof_received = true } })

unfoldable pub abort_reading : List Reaction → QuicStream → Pass
unfolding call_read_handler
abort_reading xs s =
    if s.input.eof_received || s.input.read_aborted
    then idle s
    else call_read_handler xs
        (record s { input = record (emptied s.input) { read_aborted = true } })

-- `QuicReader::async_read_some` while the stream is there, and after `detach`.
unfoldable pub async_read_some : List Reaction → QuicStream → Read → Pass
unfolding call_read_handler
async_read_some xs s r =
    if r.size == 0
    then record { stream = s; events = read_done r.handler success [] ∷ []; delivered = [] }
    else call_read_handler xs (record s { input = record s.input { read_handler = some r } })

unfoldable pub detached_ec : Incoming → Code
unfolding reading_finished
detached_ec i = if reading_finished i then eof else partial_message

unfoldable pub detached_read_some : Code → Read → Event
detached_read_some ec r = read_done r.handler (if r.size == 0 then success else ec) []

-- The cancellation of a read completes it, and takes nothing from the body.
unfoldable pub cancel_read : QuicStream → Change
cancel_read s = (
  record s { input = record s.input { read_handler = none } },
  read_done_with s.input.read_handler canceled,
)
