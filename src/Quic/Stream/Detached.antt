-- ===== src/Quic/Stream/Detached.antt =====
-- A writer whose stream is gone: `QuicWriter::async_write` of include/anyhttp/quic/stream.hpp,
-- against `start_write` of src/quic/stream.cpp.
use anyhttp.Prelude.{
  ℕ, ◌≡◌, inl, inr, ◌⊎◌, Bool, true, false, not, ◌&&◌, ◌||◌, [], ◌∷◌, Bytes, is_empty,
  if◌then◌else◌, arith, Bool-cases,
}
use anyhttp.Completion.{Event, at_once, success, broken_pipe, connection_reset, write_done}
use anyhttp.Quic.Stream.State.{Outgoing}
use anyhttp.Quic.Stream.Output.{start_write}
use anyhttp.Quic.Stream.Lifecycle.{detached_body_ended}

unfoldable pub detached_write : Bool → ℕ → Bytes → Bool → Event
detached_write body_ended handler buffer eof =
    if is_empty buffer && not eof
    then write_done at_once handler success
    else if body_ended
    then write_done at_once handler (if is_empty buffer then success else broken_pipe)
    else write_done at_once handler connection_reset

-- Bytes behind an end of the body that was declared and never handed over.
abbrev pub is_behind_end : Outgoing → Bytes → Bool
is_behind_end s buffer = s.eof_submitted && not s.fin_offered && not (is_empty buffer)

-- A write to a stream that is closed or aborted and has no write left is answered at once, changes
-- nothing, and is answered the same once the stream is gone and the writer detached, but for one
-- case: bytes behind an end of the body that was never handed over meet broken_pipe on the stream,
-- and connection_reset on the detached writer.
pub start_write-detached :
    (s : Outgoing) (handler : ℕ) (buffer : Bytes) (eof : Bool)
    → s.closed || s.write_aborted ≡ true
    → s.write_active ≡ false
    → ((is_behind_end s buffer ≡ false)
        × (start_write s handler buffer eof
            ≡ (s, detached_write (detached_body_ended s) handler buffer eof ∷ [])))
      ⊎ ((is_behind_end s buffer ≡ true)
          × (start_write s handler buffer eof ≡ (s, write_done at_once handler broken_pipe ∷ []))
          × (detached_write (detached_body_ended s) handler buffer eof
              ≡ write_done at_once handler connection_reset))
unfolding start_write detached_write detached_body_ended
start_write-detached s handler buffer eof dead idle = elim (Bool-cases (is_behind_end s buffer)) [
  | inl e ↦ inr (e, ground arith, ground arith)
  | inr e ↦ inl (e, ground arith)
]
