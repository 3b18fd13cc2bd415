-- ===== src/H2v2/Ladder.antt =====
-- The writer of src/h2v2/stream.cpp under the Writer contract.
use anyhttp.Prelude.{ℕ, Bool, true, false, not, none, [], ◌∷◌, Bytes, arith}
use anyhttp.Completion.{connection_reset, connection_aborted}
use anyhttp.Contract.{Writer, Obeys, ladder}
use anyhttp.H2.Stream.Ladder.{answers}
use anyhttp.H2v2.Writing.{Outgoing, async_write, detached_write}

-- `NGHttp2Writer` with its stream: whether it is closed, and its outgoing body.
abbrev pub second_writer : Writer
second_writer = record {
  State = Bool × Outgoing;
  standing = λ s. record {
    declared = s.1.eof_requested;
    delivered = s.1.eof_submitted;
    in_progress = not s.1.eof_submitted;
    lost = s.0;
  };
  waiting = λ s. s.1.write_handler;
  lost_code = connection_reset;
  write = λ s handler buffer eof.
      let (o, events) =
        async_write s.0 s.1 (record { handler = handler; buffer = buffer; eof = eof }) in
      ((s.0, o), answers events);
}

-- A write follows the order of docs/end-of-body.rst and include/anyhttp/writer_impl.hpp: an empty
-- write that does not end the body succeeds, data behind the declared end is a broken pipe, another
-- end adopts the first one while that is in progress and else succeeds at once, then a lost stream
-- fails the write with connection_reset, and otherwise it waits; an answer comes once and changes
-- nothing. Two things depart from the documents: they name connection_aborted for HTTP/2; and
-- another end, of a stream that was lost before nghttp2 knew of the first one, fails as well.
pub second_write-Obeys :
    (s : Bool × Outgoing) (handler : ℕ) (buffer : Bytes) (eof : Bool)
    → Obeys second_writer s handler buffer eof
unfolding async_write ladder
second_write-Obeys s handler buffer eof = ground arith

-- `NGHttp2Writer` after `detach`: what it has latched.
abbrev pub detached_writer : Writer
detached_writer = record {
  State = Bool;
  standing = λ s. record { declared = s; delivered = s; in_progress = false; lost = true };
  waiting = λ s. none;
  lost_code = connection_aborted;
  write = λ s handler buffer eof. (
    s,
    answers (detached_write s (record { handler = handler; buffer = buffer; eof = eof }) ∷ []),
  );
}

pub detached_write-Obeys :
    (s : Bool) (handler : ℕ) (buffer : Bytes) (eof : Bool)
    → Obeys detached_writer s handler buffer eof
unfolding detached_write ladder
detached_write-Obeys s handler buffer eof = ground arith
