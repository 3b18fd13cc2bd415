-- ===== src/Quic/Streams/Schedule.antt =====
-- The write queue of src/quic/streams.cpp: who gets the next packet.
use anyhttp.Prelude.{
  ℕ, Bool, true, false, not, ◌&&◌, ◌||◌, Option, none, some, List, [], ◌∷◌, ◌++◌, Bytes, is_empty,
  ◌==◌, if◌then◌else◌, add64,
}
use anyhttp.Completion.{Event, writable, erase, connection_reset}
use anyhttp.Quic.Stream.State.{Outgoing}
use anyhttp.Quic.Stream.Output.{pending_data, on_offered, on_sent, abort_writing, Offer}
use anyhttp.Quic.Streams.State.{
  StreamApplication, PlainStream, wake_write, reported, Turn, lookup, put, find_stream, store,
}

unfoldable pub schedule : StreamApplication → PlainStream → Bool → Turn
schedule a p wake = if p.scheduled || p.blocked || a.closed then (a, []) else (
  record a {
    streams = put (record p { scheduled = true }) a.streams;
    write_queue = a.write_queue ++ p.id ∷ [];
  },
  if wake then wake_write ∷ [] else [],
)

-- `while (…) pop_front()` of one entry, if it is this stream's.
abbrev pub without_front : ℕ → List ℕ → List ℕ
without_front id [] = []
without_front id (x ∷ xs) = if x == id then xs else x ∷ xs

unfoldable pub unschedule_front : StreamApplication → PlainStream → StreamApplication
unschedule_front a p = record a {
  write_queue = without_front p.id a.write_queue;
  streams = put (record p { scheduled = false }) a.streams;
}

-- What a stream reports reaches the application at once: `on_writable()` schedules it, and
-- `erase_stream(id)` takes it out of the session's map.
abbrev pub on_found : Option PlainStream → StreamApplication → (PlainStream → Turn) → Turn
on_found none a f = (a, [])
on_found (some p) a f = f p

abbrev pub unlisted : PlainStream → StreamApplication → StreamApplication
unlisted p a = store a (record p { listed = false })

unfoldable pub report : StreamApplication → ℕ → Event → Turn
unfolding schedule lookup
report a id writable = on_found (lookup id a.streams) a (λ p. schedule a p true)
report a id erase = on_found (lookup id a.streams) a (λ p. (unlisted p a, reported id erase ∷ []))
report a id e = (a, reported id e ∷ [])

unfoldable pub reports : StreamApplication → ℕ → List Event → Turn
unfolding report
reports a id [] = (a, [])
reports a id (e ∷ es) =
    let (b, ns) = report a id e in let (c, ms) = reports b id es in (c, ns ++ ms)

-- A change of one stream's outgoing body, and what it reports.
abbrev pub with_output : PlainStream → Outgoing → PlainStream
with_output p o = record p { body = record p.body { output = o } }

unfoldable pub change_output : StreamApplication → PlainStream → Outgoing × List Event → Turn
unfolding reports
change_output a p (o, es) = reports (store a (with_output p o)) p.id es

-- What `next_stream_data` answers: the stream, its data, whether it ends.
pub record Packet : Type 0 where
  pub stream_id : ℕ
  pub vec : List Bytes
  pub fin : Bool

abbrev pub has_data : Offer → Bool
has_data o = not (is_empty o.vec && (not o.fin || o.stream.fin_offered))

-- One turn of the loop for the front of the queue: an answer, or none and on it goes.
unfoldable pub offer :
    StreamApplication → ℕ → ℕ → Option PlainStream → StreamApplication × Option Packet
unfolding unschedule_front pending_data
offer a id room none = (record a { write_queue = without_front id a.write_queue }, none)
offer a id room (some p) =
    let o = pending_data p.body.output p.body.output.tx_sent room in
    let asked = with_output p o.stream in
    let b = store a asked in
    if p.blocked
    then (unschedule_front a p, none)
    else if has_data o
    then (b, some (record { stream_id = p.id; vec = o.vec; fin = o.fin }))
    else (unschedule_front b asked, none)

unfoldable pub front_turn : StreamApplication → ℕ → ℕ → StreamApplication × Option Packet
unfolding find_stream offer
front_turn a id room = offer a id room (find_stream a id)

-- `while (!write_queue_.empty())`, over the entries that the queue has: each turn without an answer
-- takes one off.
abbrev pub answer :
    StreamApplication × Option Packet
    → StreamApplication × Option Packet
    → StreamApplication × Option Packet
answer (b, some k) later = (b, some k)
answer (b, none) later = later

unfoldable pub turns : ℕ → List ℕ → StreamApplication → StreamApplication × Option Packet
unfolding front_turn
turns room [] a = (a, none)
turns room (id ∷ ids) a =
    let turn = front_turn a id room in let later = turns room ids turn.0 in answer turn later

unfoldable pub next_stream_data : StreamApplication → ℕ → StreamApplication × Option Packet
unfolding turns
next_stream_data a room = turns room a.write_queue a

-- To the back of the queue, without a wake-up.
unfoldable pub to_the_back : ℕ → Turn → Turn
unfolding schedule lookup
to_the_back id (c, ns) =
    let (d, ms) = on_found (lookup id c.streams) c (λ r. schedule c r false) in (d, ns ++ ms)

-- `n` bytes of a stream's data, and its end with `fin`, went into a packet.
unfoldable pub written : StreamApplication → ℕ → ℕ → Bool → PlainStream → Turn
written a id n fin p =
    let b = unschedule_front a p in
    let q = record p { scheduled = false } in
    let (offered, es) = on_offered p.body.output (add64 p.body.output.tx_sent n) fin in
    let (sent, fs) = on_sent offered (add64 offered.tx_sent n) in
    to_the_back id (change_output b q (sent, es ++ fs))

unfoldable pub on_stream_data_written : StreamApplication → ℕ → ℕ → Bool → Turn
unfolding written
on_stream_data_written a id n fin = on_found (find_stream a id) a (written a id n fin)

unfoldable pub on_stream_blocked : StreamApplication → ℕ → StreamApplication
unfolding find_stream unschedule_front
on_stream_blocked a id =
    (on_found (find_stream a id) a (λ p. (unschedule_front a (record p { blocked = true }), []))).0

unfoldable pub on_stream_shut_wr : StreamApplication → ℕ → Turn
unfolding find_stream unschedule_front change_output abort_writing
on_stream_shut_wr a id = on_found (find_stream a id) a (λ p.
    change_output (unschedule_front a p) (record p { scheduled = false })
      (abort_writing p.body.output connection_reset))

unfoldable pub extend_max_stream_data : StreamApplication → ℕ → Turn
unfolding find_stream schedule
extend_max_stream_data a id =
    on_found (find_stream a id) a
      (λ p. let q = record p { blocked = false } in schedule (store a q) q true)
