-- ===== src/Quic/Stream/Outbound.antt =====
-- The writing side of a stream as a whole: any order of writes, cancellations, packets and
-- acknowledgements, src/quic/stream.cpp.
use anyhttp.Prelude.{
  ℕ, ◌≤◌, Bool, true, false, not, ◌&&◌, none, [], ◌++◌, Bytes, length, take, ◌==◌, if◌then◌else◌,
}
use anyhttp.Completion.{Code}
use anyhttp.Quic.Stream.State.{Outgoing, WriteMode, is_some}
use anyhttp.Quic.Stream.Output.{
  start_write, reset_writing, cancel_write, pending_data, on_offered, on_sent, on_acked,
  abort_writing,
}
use anyhttp.Quic.Stream.Positions.{MayWrite}

-- A stream that was just opened.
abbrev pub opened : WriteMode → Outgoing
opened mode = record {
  write_mode = mode;
  write_active = false;
  write_source = [];
  write_is_eof = false;
  write_handler = none;
  write_token = 0;
  next_write_token = 1;
  eof_submitted = false;
  fin_offered = false;
  write_base = 0;
  write_copied = 0;
  tx_queued = 0;
  tx_offered = 0;
  tx_sent = 0;
  tx_acked = 0;
  chunks = [];
  closed = false;
  write_aborted = false;
}

-- A live stream's write, as the caller sees it.
abbrev pub accepts : Outgoing → Bytes → Bool → Bool
accepts s buffer eof =
    not (length buffer == 0 && not eof)
    && not s.eof_submitted
    && not s.closed
    && not s.write_aborted

abbrev pub cancels : Outgoing → ℕ → Bool
cancels s token = s.write_token == token && is_some s.write_handler

-- A stream, and the body submitted so far: a cancelled write takes back what the stack was not
-- given of it.
pub data Step : Outgoing × Bytes → Outgoing × Bytes → Type 0 where
  writes :
      {s : Outgoing} {body : Bytes} (handler : ℕ) (buffer : Bytes) (eof : Bool)
      → MayWrite s buffer
      → Step
          (s, body)
          (
            (start_write s handler buffer eof).0,
            if accepts s buffer eof then body ++ buffer else body,
          )
  cancelled :
      {s : Outgoing} {body : Bytes} (token : ℕ)
      → Step
          (s, body)
          (
            (cancel_write s token).0,
            if cancels s token then take (cancel_write s token).0.tx_queued body else body,
          )
  asked :
      {s : Outgoing} {body : Bytes} (from room : ℕ)
      → Step (s, body) ((pending_data s from room).stream, body)
  offered :
      {s : Outgoing} {body : Bytes} (end : ℕ) (fin : Bool)
      → Step (s, body) ((on_offered s end fin).0, body)
  sent : {s : Outgoing} {body : Bytes} (end : ℕ) → Step (s, body) ((on_sent s end).0, body)
  acked :
      {s : Outgoing} {body : Bytes} (end : ℕ)
      → end ≤ s.tx_sent
      → Step (s, body) ((on_acked s end).0, body)
  reset : {s : Outgoing} {body : Bytes} → Step (s, body) ((reset_writing s).0, body)
  aborted :
      {s : Outgoing} {body : Bytes} (ec : Code) → Step (s, body) ((abort_writing s ec).0, body)
  shut : {s : Outgoing} {body : Bytes} → Step (s, body) (record s { closed = true }, body)

pub data Reach (mode : WriteMode) : Outgoing × Bytes → Type 0 where
  fresh : Reach mode (opened mode, [])
  onward : {x y : Outgoing × Bytes} → Reach mode x → Step x y → Reach mode y
