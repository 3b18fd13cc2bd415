-- ===== src/Quic/Stream/Positions.antt =====
-- The four positions in the outgoing body, include/anyhttp/quic/stream.hpp: each is at most the one
-- before, whatever is called in which order.
use anyhttp.Prelude.{
  ℕ, ◌+◌, ◌-◌, ◌≤◌, ◌<◌, ◌≡◌, ◌⊎◌, Bool, true, false, Bytes, length, u64_mod, arith,
}
use anyhttp.Completion.{Code}
use anyhttp.Quic.Stream.State.{Outgoing, zero_copy, staged}
use anyhttp.Quic.Stream.Output.{
  start_write, cancel_write, carve, pending_data, on_offered, on_sent, on_acked, abort_writing,
}

-- What there is to send, what the stack holds on to, what went into packets, what was acknowledged;
-- and while a write is active, where its buffer stands among them.
pub record IsOrdered (s : Outgoing) : Type 0 where
  pub acked_le : s.tx_acked ≤ s.tx_sent
  pub sent_le : s.tx_sent ≤ s.tx_offered
  pub offered_le : s.tx_offered ≤ s.tx_queued
  pub queued_lt : s.tx_queued < u64_mod
  pub copied_le : s.write_active ≡ true → s.write_copied ≤ length s.write_source
  pub whole :
      s.write_mode ≡ zero_copy
      → s.write_active ≡ true
      → s.tx_queued ≡ s.write_base + length s.write_source
  pub room :
      s.write_mode ≡ staged
      → s.write_active ≡ true
      → s.tx_queued + (length s.write_source - s.write_copied) < u64_mod
  pub base_le :
      s.write_mode ≡ zero_copy
      → s.write_active ≡ true
      → s.closed ≡ false
      → s.write_aborted ≡ false
      → s.write_base ≤ s.tx_acked
  pub released :
      s.write_mode ≡ zero_copy
      → s.write_active ≡ false
      → s.closed ≡ false
      → s.write_aborted ≡ false
      → s.tx_queued ≡ s.tx_acked

-- The caller's part of the contract: one write at a time, and a body below 2^64 bytes.
pub record MayWrite (s : Outgoing) (buffer : Bytes) : Type 0 where
  pub one_at_a_time : (s.write_active ≡ false) ⊎ (s.eof_submitted ≡ true)
  pub fits : s.tx_queued + length buffer < u64_mod

pub start_write-IsOrdered :
    {s : Outgoing} (handler : ℕ) (buffer : Bytes) (eof : Bool)
    → MayWrite s buffer
    → IsOrdered s
    → IsOrdered (start_write s handler buffer eof).0
unfolding start_write
start_write-IsOrdered handler buffer eof m v = ground arith

pub cancel_write-IsOrdered :
    {s : Outgoing} (token : ℕ) → IsOrdered s → IsOrdered (cancel_write s token).0
unfolding cancel_write
cancel_write-IsOrdered token v = ground arith

pub carve-IsOrdered : {s : Outgoing} → IsOrdered s → IsOrdered (carve s)
unfolding carve
carve-IsOrdered v = ground arith

pub pending_data-IsOrdered :
    {s : Outgoing} (from room : ℕ) → IsOrdered s → IsOrdered (pending_data s from room).stream
unfolding pending_data
pending_data-IsOrdered {s} from room v = ground arith

pub on_offered-IsOrdered :
    {s : Outgoing} (end : ℕ) (fin : Bool) → IsOrdered s → IsOrdered (on_offered s end fin).0
unfolding on_offered
on_offered-IsOrdered end fin v = ground arith

pub on_sent-IsOrdered : {s : Outgoing} (end : ℕ) → IsOrdered s → IsOrdered (on_sent s end).0
unfolding on_sent
on_sent-IsOrdered end v = ground arith

pub on_acked-IsOrdered :
    {s : Outgoing} (end : ℕ) → end ≤ s.tx_sent → IsOrdered s → IsOrdered (on_acked s end).0
unfolding on_acked
on_acked-IsOrdered end h v = ground arith

pub abort_writing-IsOrdered :
    {s : Outgoing} (ec : Code) → IsOrdered s → IsOrdered (abort_writing s ec).0
unfolding abort_writing
abort_writing-IsOrdered ec v = ground arith
