-- ===== src/H2/Session/Streams.antt =====
-- The streams of an `NGHttp2Session`, src/h2/session.cpp: a map by id, as an association list.
use anyhttp.Prelude.{
  ℕ, ◌+◌, Bool, true, false, not, ◌&&◌, ◌||◌, Option, none, some, List, [], ◌∷◌, ◌++◌, Bytes,
  length, leb, ltb, ◌==◌, if◌then◌else◌, ℤ, pos, negsuc,
}
use anyhttp.Completion.{
  success, canceled, would_block, invalid_argument, at_once, posted, Reaction, is_some,
}
use anyhttp.H2.State.{
  NgHttp2Stream, Event, submit_done, submit_empty, submit_goaway, start_write, consume_connection,
  created,
}
use anyhttp.H2.Stream.Reading.{on_data}
use anyhttp.H2.Session.Closing.{close, Fate, erased, Doing}

-- An int32_t.
abbrev pub same_id : ℤ → ℤ → Bool
same_id (pos m) (pos n) = m == n
same_id (negsuc m) (negsuc n) = m == n
same_id _ _ = false

pub record Entry : Type 0 where
  pub id : ℤ
  pub stream : NgHttp2Stream

-- `streams_.find(id)`
unfoldable pub find_stream : ℤ → List Entry → Option NgHttp2Stream
find_stream id [] = none
find_stream id (e ∷ es) =
    let rest = find_stream id es in if same_id e.id id then some e.stream else rest

-- `streams_.erase(it)`
unfoldable pub erase_stream : ℤ → List Entry → List Entry
erase_stream id [] = []
erase_stream id (e ∷ es) =
    let rest = erase_stream id es in if same_id e.id id then rest else e ∷ rest

-- The stream that an id names has changed.
unfoldable pub update : ℤ → NgHttp2Stream → List Entry → List Entry
update id s [] = []
update id s (e ∷ es) =
    let rest = update id s es in
    if same_id e.id id then record { id = e.id; stream = s } ∷ rest else e ∷ rest

-- `streams_.emplace(id, stream)`, which leaves an entry that is there.
unfoldable pub emplace : ℤ → NgHttp2Stream → List Entry → List Entry
unfolding find_stream
emplace id s es =
    if is_some (find_stream id es) then es else es ++ record { id = id; stream = s } ∷ []

-- `present` says whether `session` is not null, `client` whether this is a client's session.
pub record NgHttp2Session : Type 0 where
  pub streams : List Entry
  pub last_id : ℤ
  pub request_counter : ℕ
  pub present : Bool
  pub client : Bool

abbrev pub Outcome : Type 0
Outcome = NgHttp2Session × List Event

unfoldable pub create_stream : NgHttp2Session → ℤ → NgHttp2Session
unfolding emplace
create_stream s id = record s {
  streams = emplace id created s.streams;
  request_counter = s.request_counter + 1;
}

-- A client says goodbye with its last stream.
abbrev pub goodbye : NgHttp2Session → List Event
goodbye s = if s.client && not (ltb 0 (length s.streams)) then submit_goaway s.last_id ∷ [] else []

-- The session's part of `close_stream`, by what becomes of the stream.
unfoldable pub settle_fate : NgHttp2Session → ℤ → Fate → NgHttp2Stream → List Event → Outcome
unfolding update erase_stream
settle_fate s id erased t events =
    let r = record s { streams = erase_stream id s.streams } in (r, events ++ goodbye r)
settle_fate s id _ t events = (record s { streams = update id t s.streams }, events)

unfoldable pub close_found :
    List Doing → List Reaction → NgHttp2Session → ℤ → Option NgHttp2Stream → Outcome
unfolding close settle_fate
close_found ds xs s id none = (s, [])
close_found ds xs s id (some t) = let c = close ds xs t in settle_fate s id c.fate c.stream c.events

unfoldable pub close_stream : List Doing → List Reaction → NgHttp2Session → ℤ → Outcome
unfolding close_found find_stream
close_stream ds xs s id = close_found ds xs s id (find_stream id s.streams)

-- What nghttp2 answers: `nghttp2_session_check_request_allowed`, the peer's
-- SETTINGS_MAX_CONCURRENT_STREAMS, and the id that `nghttp2_submit_request2` gives the request.
pub record Peer : Type 0 where
  pub allowed : Bool
  pub limit : ℕ
  pub id : ℤ

-- What becomes of the handler: it is completed later; or nghttp2 has refused the request, and it has
-- been moved from and invoked, so that an empty one is completed later.
abbrev pub answered : ℤ → ℕ → List Event
answered (pos n) handler = submit_done posted handler success ∷ []
answered (negsuc n) handler = submit_done at_once handler invalid_argument ∷ submit_empty ∷ []

-- Also when nghttp2 has refused the request, the stream is entered.
unfoldable pub enter : NgHttp2Session → ℕ → ℤ → Outcome
unfolding emplace
enter s handler id = (
  record s {
    last_id = id;
    streams =
        emplace id (record created { output = record created.output { writer = true } }) s.streams;
  },
  answered id handler ++ (start_write ∷ []),
)

unfoldable pub async_submit : NgHttp2Session → ℕ → Peer → Outcome
unfolding enter
async_submit s handler peer =
    if not s.present || not peer.allowed
    then (s, submit_done at_once handler canceled ∷ [])
    else if leb peer.limit (length s.streams)
    then (s, submit_done at_once handler would_block ∷ [])
    else enter s handler peer.id

-- An operation of a stream may end with a call of `close_stream`. No write waits by then, since the
-- stream has been closed before.
unfoldable pub after :
    List Reaction → NgHttp2Session → ℤ → NgHttp2Stream → List Event → Bool → Outcome
unfolding close_stream update
after xs s id t events true =
    let (r, more) = close_stream [] xs (record s { streams = update id t s.streams }) id in
    (r, events ++ more)
after xs s id t events false = (record s { streams = update id t s.streams }, events)

unfoldable pub data_for :
    List Reaction → NgHttp2Session → ℤ → Bytes → Option NgHttp2Stream → Outcome
unfolding after on_data
data_for xs s id chunk none = (s, [])
data_for xs s id chunk (some t) =
    let p = on_data xs t chunk in after [] s id p.stream p.events p.closes

-- Credit for the connection is given back with or without a stream.
unfoldable pub on_data_chunk_recv : List Reaction → NgHttp2Session → ℤ → Bytes → Outcome
unfolding data_for find_stream
on_data_chunk_recv xs s id chunk =
    let (r, events) = data_for xs s id chunk (find_stream id s.streams) in
    (r, consume_connection (length chunk) ∷ events ++ (start_write ∷ []))
