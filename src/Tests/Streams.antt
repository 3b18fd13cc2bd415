-- ===== src/Tests/Streams.antt =====
-- src/quic/streams.cpp at a concrete connection.
use anyhttp.Prelude.{ℕ, ◌≡◌, ◌+◌, refl, Bool, true, false, none, List, [], ◌∷◌, ◌++◌, inl, ltb}
use anyhttp.Quic.Streams.State.{StreamApplication, PlainStream, find_stream, make_stream}
use anyhttp.Quic.Streams.Schedule.{on_stream_data_written, next_stream_data}
use anyhttp.Quic.Streams.Turns.{RunsTo, next_stream_data-front}
use anyhttp.Quic.Streams.Order.{
  Call, opens, accepts, gives_up, calls, opened_streams, asked_for, calls-in_order, calls-answered,
}
use anyhttp.Quic.Streams.Moves.{handed, answers, waiting, IsMatched}
use anyhttp.Quic.Streams.RoundRobin.{on_stream_data_written-round_robin}

abbrev nothing_yet : StreamApplication
nothing_yet = record {
  zero_copy = true;
  streams = [];
  accept_queue = [];
  accept_handler = none;
  closed = false;
  write_queue = [];
  session_closed = false;
  application_ready = true;
}

nothing_yet-IsMatched : IsMatched nothing_yet
nothing_yet-IsMatched = record { one_side = inl refl; over = inl refl }

-- Two streams of the peer, whose ids are below 100, a caller between them and two after them.
abbrev peers : ℕ → Bool
peers id = ltb id 100

abbrev traffic : List Call
traffic = opens 4 ∷ accepts 1 ∷ accepts 2 ∷ gives_up ∷ opens 8 ∷ opens 4 ∷ opens 200 ∷ []

calls-in_order_example :
    handed (calls peers nothing_yet traffic).1 ++ (calls peers nothing_yet traffic).0.accept_queue
    ≡ nothing_yet.accept_queue ++ opened_streams peers nothing_yet traffic
unfolding calls anyhttp.Quic.Streams.Accept.open_remote_stream
    anyhttp.Quic.Streams.Accept.cancel_accept anyhttp.Quic.Streams.Accept.async_accept_stream
    anyhttp.Quic.Streams.State.put make_stream
calls-in_order_example = calls-in_order peers traffic nothing_yet nothing_yet-IsMatched refl

calls-answered_example :
    (answers (calls peers nothing_yet traffic).1 + waiting (calls peers nothing_yet traffic).0
      ≡ waiting nothing_yet + asked_for peers traffic)
    × IsMatched (calls peers nothing_yet traffic).0
calls-answered_example = calls-answered peers traffic nothing_yet nothing_yet-IsMatched

abbrev one : PlainStream
one = record (make_stream nothing_yet 4) { scheduled = true }

abbrev two_waiting : StreamApplication
two_waiting = record nothing_yet {
  streams = one ∷ record (make_stream nothing_yet 8) { scheduled = true } ∷ [];
  write_queue = 4 ∷ 8 ∷ [];
}

on_stream_data_written-round_robin_example :
    (on_stream_data_written two_waiting 4 0 false).0.write_queue ≡ 8 ∷ [] ++ 4 ∷ []
unfolding find_stream make_stream
on_stream_data_written-round_robin_example =
    on_stream_data_written-round_robin two_waiting 4 0 false (8 ∷ []) one refl refl refl refl

next_stream_data-front_example :
    RunsTo 16 two_waiting.write_queue two_waiting (next_stream_data two_waiting 16)
next_stream_data-front_example = next_stream_data-front two_waiting 16
