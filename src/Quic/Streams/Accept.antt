-- ===== src/Quic/Streams/Accept.antt =====
-- Accepting and opening streams, src/quic/streams.cpp.
use anyhttp.Prelude.{
  ℕ, Bool, true, not, ◌||◌, Option, none, some, List, [], ◌∷◌, ◌++◌, if◌then◌else◌,
}
use anyhttp.Completion.{
  Code, When, at_once, posted, success, canceled, connection_aborted, already_started, would_block,
}
use anyhttp.Quic.Stream.State.{is_some}
use anyhttp.Quic.Streams.State.{
  StreamApplication, PlainStream, Notice, accepted, Turn, lookup, put, find_stream, store,
  make_stream, attached,
}

-- A handle on a stream that the queue holds; `w` says how the handler is invoked.
abbrev pub attach : Option PlainStream → List PlainStream → List PlainStream
attach none ps = ps
attach (some p) ps = put (attached p) ps

unfoldable pub hand_over : StreamApplication → When → ℕ → ℕ → Turn
unfolding lookup
hand_over a w handler id = (
  record a { streams = attach (lookup id a.streams) a.streams },
  accepted w handler success (some id) ∷ [],
)

unfoldable pub deliver_accepted : StreamApplication → Turn
unfolding hand_over
deliver_accepted a = deliver a.accept_handler a.accept_queue
  where
    deliver : Option ℕ → List ℕ → Turn
    deliver none q = (a, [])
    deliver (some h) [] = (a, [])
    deliver (some h) (id ∷ ids) =
        hand_over (record a { accept_queue = ids; accept_handler = none }) posted h id

-- `create_stream`, and the stream at the end of the queue.
abbrev pub queued : StreamApplication → ℕ → StreamApplication
queued a id = record a {
  streams = put (make_stream a id) a.streams;
  accept_queue = a.accept_queue ++ id ∷ [];
}

-- `remote` is what ngtcp2 says of an id: whether the peer opens it.
module _ (remote : ℕ → Bool) where
  unfoldable pub open_remote_stream : StreamApplication → ℕ → Turn
  unfolding find_stream deliver_accepted
  open_remote_stream a id =
      if is_some (find_stream a id)
      then (a, [])
      else if not (remote id) || a.closed
      then (a, [])
      else deliver_accepted (queued a id)

unfoldable pub async_accept_stream : StreamApplication → ℕ → Turn
unfolding hand_over
async_accept_stream a handler = accept a.accept_queue
  where
    accept : List ℕ → Turn
    accept q =
        if is_some a.accept_handler
        then (a, accepted at_once handler already_started none ∷ [])
        else take_front q
      where
        take_front : List ℕ → Turn
        take_front (id ∷ ids) = hand_over (record a { accept_queue = ids }) at_once handler id
        take_front [] =
            if a.closed
            then (a, accepted at_once handler connection_aborted none ∷ [])
            else (record a { accept_handler = some handler }, [])

abbrev pub answer : Option ℕ → Code → List Notice
answer none ec = []
answer (some h) ec = accepted posted h ec none ∷ []

-- What the handler's cancellation slot does.
unfoldable pub cancel_accept : StreamApplication → Turn
cancel_accept a = (record a { accept_handler = none }, answer a.accept_handler canceled)

unfoldable pub on_closed : StreamApplication → Turn
on_closed a = if a.closed then (a, []) else (
  record a { closed = true; accept_queue = []; write_queue = []; accept_handler = none },
  answer a.accept_handler connection_aborted,
)

-- What `ngtcp2_conn_open_bidi_stream` answers: an id, that the peer allows no more, or a failure.
pub data Opened : Type 0 where
  opened_as : ℕ → Opened
  id_blocked refused : Opened

unfoldable pub open_stream : StreamApplication → Opened → StreamApplication × Code × Option ℕ
open_stream a o =
    if a.closed || a.session_closed || not a.application_ready
    then (a, connection_aborted, none)
    else open_as o
  where
    open_as : Opened → StreamApplication × Code × Option ℕ
    open_as id_blocked = (a, would_block, none)
    open_as refused = (a, connection_aborted, none)
    open_as (opened_as id) = (store a (attached (make_stream a id)), success, some id)
