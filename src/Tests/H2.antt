-- ===== src/Tests/H2.antt =====
-- src/h2/stream.cpp and src/h2/session.cpp at concrete streams.
use anyhttp.Prelude.{
  sym, ◌+◌, ◌≤◌, ◌≡◌, refl, inl, true, false, ◌&&◌, Option, none, some, List, [], ◌∷◌, ◌++◌, Bytes,
  length, if◌then◌else◌, max, pos, negsuc, arith,
}
use anyhttp.Completion.{Read, again, leave}
use anyhttp.Contract.{Obeys}
use anyhttp.H2.State.{Incoming, NgHttp2Stream, created}
use anyhttp.H2.Stream.Reading.{destroy_reader, closes_now, async_read_some, on_data, on_eof}
use anyhttp.H2.Stream.Response.{
  async_get_response, cancel_get_response, on_response, deliver_response,
}
use anyhttp.H2.Stream.Integrity.{unread, Keeps}
use anyhttp.H2.Stream.Reports.{ReportsRightly}
use anyhttp.H2.Stream.Resting.{IsResting}
use anyhttp.H2.Stream.Life.{
  Happening, arrives, ends, reads, drops, pass, pass_all, arrived, Conserves, pass_all-Conserves,
  destroy_reader-Keeps,
}
use anyhttp.H2.Stream.Endings.{pass-ReportsRightly}
use anyhttp.H2.Stream.Counting.{total}
use anyhttp.H2.Stream.Writing.{Write, async_write, producer_callback}
use anyhttp.H2.Stream.Sending.{IsSending, Step, writes, pulls, step, steps, InTurn}
use anyhttp.H2.Stream.SentBody.{bytes_of, pending, written, waiting, fins, told}
use anyhttp.H2.Stream.Frames.{body, write_count, ends_last, steps-InOrder, steps_answer, steps_end}
use anyhttp.H2.Stream.Ladder.{stream_writer, async_write-Obeys}
use anyhttp.H2.Stream.Responses.{
  Turn, gets, gives_up, responds, turns, completions, responses, asking, delivered, get_count,
  IsAsking, turn, OneAsks, turns_complete,
}
use anyhttp.H2.Session.Closing.{close, fail_write, Doing, deferred, erased}
use anyhttp.H2.Session.Fates.{ClosesAfter, close-Closes}
use anyhttp.H2.Session.Streams.{NgHttp2Session, find_stream, close_stream, Peer, async_submit}
use anyhttp.H2.Session.Others.{HeldOf, close_stream-HeldOf}
use anyhttp.H2.Session.Submits.{
  submissions, empty_submissions, goes_ahead, is_refused, async_submit_answers,
}
use anyhttp.H2.Session.Header.{Head, on_section}
use anyhttp.H2.Session.HeaderLimit.{IsInsertion, Limits, on_section-Limits}

-- A stream with a reader, on which two bytes are stored.
abbrev body_input : Incoming
body_input = record created.input {
  read_buffer = 1 ∷ 2 ∷ [];
  pending_read_buffers = (1 ∷ 2 ∷ []) ∷ [];
  reader = true;
}

abbrev half_read : NgHttp2Stream
half_read = record created { input = body_input }

half_read-IsResting : IsResting body_input
half_read-IsResting = record {
  outside = refl;
  is_stored = (refl, tt);
  waits = inl refl;
  behind_end = inl refl;
  not_due = unfold closes_now in refl;
}

abbrev one_byte : Read
one_byte = record { handler = 7; size = 1 }

abbrev day : List Happening
day =
    reads one_byte (again one_byte ∷ leave ∷ [])
    ∷ reads one_byte []
    ∷ arrives (3 ∷ 4 ∷ []) (again one_byte ∷ [])
    ∷ ends []
    ∷ reads one_byte (again one_byte ∷ again one_byte ∷ [])
    ∷ drops
    ∷ []

-- The day ends with every byte delivered in order.
day-delivered : (pass_all half_read day).delivered ≡ 1 ∷ 2 ∷ 3 ∷ 4 ∷ []
unfolding pass_all pass async_read_some on_data on_eof
day-delivered = refl

pass_all-Conserves_example :
    Conserves (unread half_read.input []) (arrived day) (pass_all half_read day)
pass_all-Conserves_example = pass_all-Conserves day half_read half_read-IsResting

pass-ReportsRightly_example :
    ReportsRightly
      (pass half_read (reads one_byte [])).stream
      (pass half_read (reads one_byte [])).events
pass-ReportsRightly_example = pass-ReportsRightly (reads one_byte []) half_read half_read-IsResting

destroy_reader-Keeps_example : Keeps half_read.input (destroy_reader half_read).stream.input
destroy_reader-Keeps_example = destroy_reader-Keeps half_read

abbrev first_write : Write
first_write = record { handler = 1; buffer = 5 ∷ 6 ∷ []; eof = false }

abbrev last_write : Write
last_write = record { handler = 2; buffer = 7 ∷ []; eof = true }

-- The second write is set off by the completion of the first.
abbrev upload : List Step
upload =
    pulls 4 none ∷ writes first_write ∷ pulls 1 none ∷ pulls 4 (some last_write) ∷ pulls 4 none ∷ []

idle-IsSending : IsSending created.output
idle-IsSending = record { awake = inl refl; to_send = inl refl; over = inl refl }

upload-InTurn : InTurn created.output upload
unfolding step async_write producer_callback
upload-InTurn = ((refl, refl), (refl, ((refl, refl), ((refl, refl), ((refl, refl), tt)))))

steps-InOrder_example :
    bytes_of (steps created.output upload).frames ++ pending (steps created.output upload).output
    ≡ pending created.output ++ body created.output upload
steps-InOrder_example =
    steps-InOrder upload created.output idle-IsSending upload-InTurn
      (tt, (tt, (tt, (tt, (tt, tt)))))

steps_answer_example :
    (total written (steps created.output upload).events
        + waiting (steps created.output upload).output
      ≡ waiting created.output + write_count created.output upload)
    × IsSending (steps created.output upload).output
steps_answer_example = steps_answer upload created.output idle-IsSending upload-InTurn

steps_end_example :
    (fins (steps created.output upload).frames + told created.output
      ≡ told (steps created.output upload).output)
    × (ends_last (steps created.output upload).frames ≡ true)
steps_end_example = steps_end upload created.output idle-IsSending upload-InTurn

async_write-Obeys_example : Obeys stream_writer half_read 1 (5 ∷ []) true
async_write-Obeys_example = async_write-Obeys half_read 1 (5 ∷ []) true

abbrev exchange : List Turn
exchange = gets 1 ∷ gives_up ∷ gets 2 ∷ responds false ∷ gets 3 ∷ []

exchange-OneAsks : OneAsks created exchange
unfolding turn async_get_response cancel_get_response on_response deliver_response
exchange-OneAsks = (refl, (tt, (refl, (tt, (refl, tt)))))

turns_complete_example :
    (total completions (turns created exchange).events + asking (turns created exchange).stream
      ≡ asking created + get_count exchange)
    × (total responses (turns created exchange).events + delivered created
        ≤ delivered (turns created exchange).stream)
    × IsAsking (turns created exchange).stream
turns_complete_example =
    turns_complete exchange created exchange-OneAsks
      (record { nothing_yet = inl refl; undelivered = inl refl })

-- The same body, which has ended, and a write that waits. The code that its failure resumes reads a
-- byte, tries another write, and drops the reader.
abbrev unread_end : NgHttp2Stream
unread_end = record {
  input = record body_input { eof_received = true };
  output = record created.output { write_buffer = 5 ∷ []; write_handler = some 4; writer = true };
  answer = created.answer;
  closed = false;
}

unread_end-IsResting : IsResting unread_end.input
unread_end-IsResting = record {
  outside = refl;
  is_stored = (refl, tt);
  waits = inl refl;
  behind_end = inl refl;
  not_due = unfold closes_now in refl;
}

abbrev gives_in : List Doing
gives_in = Doing.reads one_byte [] ∷ Doing.writes first_write ∷ Doing.drops_reader ∷ []

gives_in-closes : (fail_write gives_in unread_end).closes ≡ false
unfolding fail_write async_read_some destroy_reader async_write
gives_in-closes = refl

-- It is deferred if the code leaves the reader alone, and erased if it drops the reader.
fates : ((close [] [] unread_end).fate ≡ deferred) × ((close gives_in [] unread_end).fate ≡ erased)
unfolding close async_read_some destroy_reader async_write
fates = (refl, refl)

close-Closes_example :
    ClosesAfter unread_end (fail_write gives_in unread_end) (close gives_in [] unread_end)
close-Closes_example = close-Closes gives_in [] unread_end unread_end-IsResting gives_in-closes

abbrev session : NgHttp2Session
session = record {
  streams =
      record { id = pos 1; stream = unread_end } ∷ record { id = pos 3; stream = created } ∷ [];
  last_id = pos 3;
  request_counter = 0;
  present = true;
  client = true;
}

close_stream-HeldOf_example :
    (find_stream (pos 3) (close_stream gives_in [] session (pos 1)).0.streams
      ≡ find_stream (pos 3) session.streams)
    × HeldOf
        (fail_write gives_in unread_end).stream
        (find_stream (pos 1) (close_stream gives_in [] session (pos 1)).0.streams)
close_stream-HeldOf_example =
    close_stream-HeldOf gives_in [] session (pos 1) (pos 3) unread_end (unfold find_stream in refl)
      unread_end-IsResting gives_in-closes refl

abbrev peer : Peer
peer = record { allowed = true; limit = 3; id = negsuc 508 }

-- NGHTTP2_ERR_STREAM_ID_NOT_AVAILABLE is -509.
async_submit_answers_example :
    (total submissions (async_submit session 9 peer).1 ≡ 1)
    × (total empty_submissions (async_submit session 9 peer).1
        ≡ (if goes_ahead session peer && is_refused peer.id then 1 else 0))
    × (length (async_submit session 9 peer).0.streams ≤ max (length session.streams) peer.limit)
async_submit_answers_example = async_submit_answers session 9 peer

abbrev blank : Head Bytes
blank = record {
  method = [];
  url = [];
  status_code = none;
  content_length = none;
  fields = [];
  header_size = 0;
  header_limit_exceeded = false;
}

abbrev set_url : Bytes → Bytes → Bytes → Option Bytes
set_url url name value = some value

abbrev section : List (Bytes × Bytes)
section =
    (b':' ∷ b'p' ∷ b'a' ∷ b't' ∷ b'h' ∷ [], b'/' ∷ [])
    ∷ (b'a' ∷ [], b'b' ∷ [])
    ∷ (b'c' ∷ [], b'd' ∷ [])
    ∷ []

-- In front of the others.
abbrev insert_front : List (Bytes × Bytes) → Bytes → Bytes → Option (List (Bytes × Bytes))
insert_front fs name value = some ((name, value) ∷ fs)

insert_front-IsInsertion : IsInsertion insert_front
insert_front-IsInsertion fs name value gs e = ([], fs, refl, sym (some_inj e))
  where
    some_inj : some ((name, value) ∷ fs) ≡ some gs → (name, value) ∷ fs ≡ gs
    some_inj k = cc

on_section-Limits_example :
    Limits insert_front 80 blank.fields blank.header_size section
      (on_section set_url insert_front 80 blank section)
on_section-Limits_example =
    on_section-Limits set_url insert_front insert_front-IsInsertion 80 section blank refl
      (omega arith) (omega arith) (omega arith)
