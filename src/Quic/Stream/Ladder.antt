-- ===== src/Quic/Stream/Ladder.antt =====
-- The writer of src/quic/stream.cpp under the Writer contract.
use anyhttp.Prelude.{ℕ, Bool, ◌&&◌, ◌||◌, List, [], ◌∷◌, Bytes, arith}
use anyhttp.Completion.{Code, connection_reset, Event, write_done}
use anyhttp.Contract.{Writer, Obeys, ladder}
use anyhttp.Quic.Stream.State.{Outgoing}
use anyhttp.Quic.Stream.Output.{start_write}

abbrev pub answers : List Event → List (ℕ × Code)
answers [] = []
answers (write_done w h ec ∷ es) = (h, ec) ∷ answers es
answers (_ ∷ es) = answers es

abbrev pub quic_writer : Writer
quic_writer = record {
  State = Outgoing;
  standing = λ s. record {
    declared = s.eof_submitted;
    delivered = s.fin_offered;
    in_progress = s.write_active && s.write_is_eof;
    lost = s.closed || s.write_aborted;
  };
  waiting = λ s. s.write_handler;
  lost_code = connection_reset;
  write = λ s handler buffer eof.
      let (t, events) = start_write s handler buffer eof in (t, answers events);
}

-- A write follows the order of docs/end-of-body.rst and include/anyhttp/writer_impl.hpp: an empty
-- write that does not end the body succeeds, data behind the declared end is a broken pipe, another
-- end adopts the first one while that is in progress and else succeeds at once, then a lost stream
-- fails the write with connection_reset, and otherwise it waits; an answer comes once and changes
-- nothing. One case departs from the documents: another end, of a stream that was lost before the
-- FIN was offered, fails as well.
pub start_write-Obeys :
    (s : Outgoing) (handler : ℕ) (buffer : Bytes) (eof : Bool)
    → Obeys quic_writer s handler buffer eof
unfolding start_write ladder
start_write-Obeys s handler [] eof = ground arith
start_write-Obeys s handler (c ∷ buffer) eof = ground arith
