-- ===== src/H2/Stream/Ladder.antt =====
-- The writers of src/h2/stream.cpp under the Writer contract.
use anyhttp.Prelude.{ℕ, Bool, true, false, not, none, List, [], ◌∷◌, Bytes, arith}
use anyhttp.Completion.{Code, connection_reset, connection_aborted}
use anyhttp.Contract.{Writer, Obeys, ladder}
use anyhttp.H2.State.{NgHttp2Stream, Event, write_done}
use anyhttp.H2.Stream.Writing.{async_write, detached_write}

abbrev pub answers : List Event → List (ℕ × Code)
answers [] = []
answers (write_done w h ec ∷ es) = (h, ec) ∷ answers es
answers (_ ∷ es) = answers es

-- `NGHttp2Writer` with its stream.
abbrev pub stream_writer : Writer
stream_writer = record {
  State = NgHttp2Stream;
  standing = λ s. record {
    declared = s.output.eof_requested;
    delivered = s.output.eof_submitted;
    in_progress = not s.output.eof_submitted;
    lost = s.closed;
  };
  waiting = λ s. s.output.write_handler;
  lost_code = connection_reset;
  write = λ s handler buffer eof.
      let (o, events) =
        async_write s.closed s.output (record { handler = handler; buffer = buffer; eof = eof }) in
      (record s { output = o }, answers events);
}

-- `NGHttp2Writer` after `detach`: what it has latched.
abbrev pub detached_writer : Writer
detached_writer = record {
  State = Bool;
  standing = λ s. record { declared = s; delivered = s; in_progress = false; lost = true };
  waiting = λ s. none;
  lost_code = connection_aborted;
  write = λ s handler buffer eof. (
    s,
    answers (detached_write s (record { handler = handler; buffer = buffer; eof = eof }) ∷ []),
  );
}

-- A write follows the order of docs/end-of-body.rst and include/anyhttp/writer_impl.hpp: an empty
-- write that does not end the body succeeds, data behind the declared end is a broken pipe, another
-- end adopts the first one while that is in progress and else succeeds at once, then a lost stream
-- fails the write with connection_reset, and otherwise it waits; an answer comes once and changes
-- nothing. Two things depart from the documents: they name connection_aborted for HTTP/2; and
-- another end, of a stream that was lost before nghttp2 knew of the first one, fails as well.
pub async_write-Obeys :
    (s : NgHttp2Stream) (handler : ℕ) (buffer : Bytes) (eof : Bool)
    → Obeys stream_writer s handler buffer eof
unfolding async_write ladder
async_write-Obeys s handler buffer eof = ground arith

pub detached_write-Obeys :
    (s : Bool) (handler : ℕ) (buffer : Bytes) (eof : Bool)
    → Obeys detached_writer s handler buffer eof
unfolding detached_write ladder
detached_write-Obeys s handler buffer eof = ground arith
