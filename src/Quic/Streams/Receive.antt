-- ===== src/Quic/Streams/Receive.antt =====
-- What ngtcp2 tells the plain streams through the session, src/quic/streams.cpp.
use anyhttp.Prelude.{ℕ, Bool, List, [], ◌∷◌, ◌++◌, Bytes, length, if◌then◌else◌, add64}
use anyhttp.Completion.{success, connection_reset}
use anyhttp.Quic.Stream.State.{QuicStream}
use anyhttp.Quic.Stream.Output.{on_acked, abort_writing}
use anyhttp.Quic.Stream.Lifecycle.{Change, fail}
use anyhttp.Quic.Stream.Input.{Reaction, Pass, on_data_chunk, on_eof, abort_reading}
use anyhttp.Quic.Streams.State.{
  StreamApplication, PlainStream, extend_max_offset, extend_max_streams_bidi, Turn, lookup,
  find_stream, store,
}
use anyhttp.Quic.Streams.Schedule.{on_found, reports, change_output}
use anyhttp.Quic.Streams.Accept.{open_remote_stream}

abbrev pub with_body : PlainStream → QuicStream → PlainStream
with_body p s = record p { body = s }

unfoldable pub change_body : StreamApplication → PlainStream → Change → Turn
unfolding reports
change_body a p (s, es) = reports (store a (with_body p s)) p.id es

-- A pass over the incoming body.
abbrev pub change_of : Pass → Change
change_of p = (p.stream, p.events)

abbrev pub behind : Turn → (StreamApplication → Turn) → Turn
behind (a, ns) f = let (b, ms) = f a in (b, ns ++ ms)

unfoldable pub acked_stream_data : StreamApplication → ℕ → ℕ → ℕ → Turn
unfolding find_stream change_output on_acked
acked_stream_data a id offset len =
    on_found (find_stream a id) a
      (λ p. change_output a p (on_acked p.body.output (add64 offset len)))

unfoldable pub stream_stop_sending : List Reaction → StreamApplication → ℕ → Turn
unfolding find_stream change_body abort_reading
stream_stop_sending xs a id =
    on_found (find_stream a id) a (λ p. change_body a p (change_of (abort_reading xs p.body)))

module _ (remote : ℕ → Bool) where
  unfoldable pub stream_open : StreamApplication → ℕ → Turn
  unfolding open_remote_stream
  stream_open a id = open_remote_stream remote a id

  -- `xs` and `ys` are what the readers do that the chunk and the end complete.
  unfoldable pub recv_stream_data :
      List Reaction → List Reaction → StreamApplication → ℕ → Bytes → Bool → Turn
  unfolding open_remote_stream find_stream change_body on_data_chunk on_eof
  recv_stream_data xs ys a id content fin =
      let (b, ns) = open_remote_stream remote a id in
      let (c, ms) = on_found (find_stream b id) b (λ p.
        if p.body.input.read_aborted
        then (b, [])
        else behind (change_body b p (change_of (on_data_chunk xs p.body content))) ended) in
      (c, extend_max_offset (length content) ∷ ns ++ ms)
    where
      -- The stream outlives the chunk, erased or not.
      ended : StreamApplication → Turn
      ended b =
          if fin
          then on_found (lookup id b.streams) b
              (λ q. change_body b q (change_of (on_eof ys q.body)))
          else (b, [])

  -- `reset` is whether ngtcp2 has an application error code.
  unfoldable pub stream_close : StreamApplication → ℕ → Bool → Turn
  unfolding find_stream change_body fail
  stream_close a id reset =
      behind
        (on_found (find_stream a id) a
          (λ p. change_body a p (fail p.body (if reset then connection_reset else success))))
        (λ b. (b, if remote id then extend_max_streams_bidi 1 ∷ [] else []))

  unfoldable pub stream_reset : List Reaction → StreamApplication → ℕ → Turn
  unfolding open_remote_stream find_stream change_body abort_reading
  stream_reset xs a id = behind (open_remote_stream remote a id) (λ b.
      on_found (find_stream b id) b (λ p. change_body b p (change_of (abort_reading xs p.body))))

  unfoldable pub recv_stop_sending : StreamApplication → ℕ → Turn
  unfolding open_remote_stream find_stream change_output abort_writing
  recv_stop_sending a id = behind (open_remote_stream remote a id) (λ b.
      on_found (find_stream b id) b
        (λ p. change_output b p (abort_writing p.body.output connection_reset)))
