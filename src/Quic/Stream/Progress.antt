-- ===== src/Quic/Stream/Progress.antt =====
-- A write comes to its end: src/quic/stream.cpp.
use anyhttp.Prelude.{
  ℕ, zero, suc, ◌+◌, ◌-◌, ◌*◌, ◌≤◌, ◌<◌, ◌≡◌, ap, Bool, true, false, some, List, [], ◌∷◌, ◌++◌,
  Bytes, length, arith, u64_mod,
}
use anyhttp.Completion.{Event, write_done, posted, success}
use anyhttp.Quic.Stream.State.{Outgoing, zero_copy, staged}
use anyhttp.Quic.Stream.Output.{
  start_write, pending_data, on_offered, on_sent, on_acked, write_chunk_size,
}
use anyhttp.Quic.Stream.Handlers.{completed, completed-append}

-- A ZeroCopy write of bytes on a live stream without another write, whose body stays below 2^64, is
-- completed with success, and with nothing else, once all that is queued is handed over, in packets
-- and acknowledged.
pub zero_copy-completes :
    (s : Outgoing) (handler : ℕ) (buffer : Bytes) (eof fin : Bool)
    → s.write_mode ≡ zero_copy
    → s.closed ≡ false
    → s.write_aborted ≡ false
    → s.write_active ≡ false
    → s.eof_submitted ≡ false
    → 0 < length buffer
    → s.tx_acked ≤ s.tx_sent
    → s.tx_sent ≤ s.tx_offered
    → s.tx_offered ≤ s.tx_queued
    → s.tx_queued + length buffer < u64_mod
    → (on_acked
        (on_sent
          (on_offered (start_write s handler buffer eof).0 (s.tx_queued + length buffer) fin).0
          (s.tx_queued + length buffer)).0
        (s.tx_queued + length buffer)).1
      ≡ write_done posted handler success ∷ []
unfolding start_write on_offered on_sent on_acked
zero_copy-completes s handler buffer eof fin m c a w e p l1 l2 l3 f = ground arith

-- One packet for all that can be handed out.
unfoldable pub packet : Outgoing → Outgoing × List Event
packet s =
    let t = (pending_data s s.tx_sent 16).stream in
    let (u, es) = on_offered t t.tx_queued false in
    let (v, fs) = on_sent u t.tx_queued in (v, es ++ fs)

unfoldable pub packets : ℕ → Outgoing → List Event
packets zero s = []
packets (suc n) s = let (t, es) = packet s in es ++ packets n t

-- A live Staged write, all of whose chunks are in packets.
pub record Draws (s : Outgoing) (handler left : ℕ) : Type 0 where
  pub mode : s.write_mode ≡ staged
  pub still_open : s.closed ≡ false
  pub going : s.write_aborted ≡ false
  pub active : s.write_active ≡ true
  pub owner : s.write_handler ≡ some handler
  pub some_bytes : 0 < length s.write_source
  pub sent : s.tx_sent ≡ s.tx_queued
  pub offered : s.tx_offered ≡ s.tx_queued
  pub left_over : s.write_copied + left ≡ length s.write_source
  pub room : s.tx_queued + left < u64_mod

packet-last :
    (s : Outgoing) (handler left : ℕ)
    → Draws s handler left
    → 0 < left
    → left ≤ write_chunk_size
    → (packet s).1 ≡ write_done posted handler success ∷ []
unfolding packet pending_data on_offered on_sent
packet-last s handler left d p q = ground arith

packet-more :
    (s : Outgoing) (handler left : ℕ)
    → Draws s handler left
    → write_chunk_size < left
    → (completed (packet s).1 ≡ 0) × Draws (packet s).0 handler (left - write_chunk_size)
unfolding packet pending_data on_offered on_sent
packet-more s handler left d p = ground arith

packets_complete :
    (n : ℕ) (s : Outgoing) (handler left : ℕ)
    → Draws s handler left
    → 0 < left
    → left ≤ n * write_chunk_size
    → n * write_chunk_size < left + write_chunk_size
    → completed (packets n s) ≡ 1
unfolding packets
packets_complete zero s handler left d p l m = absurd (omega arith)
packets_complete (suc zero) s handler left d p l m =
    ap (λ (es : List Event). completed (es ++ [])) (packet-last s handler left d p (omega arith))
packets_complete (suc (suc n)) s handler left d p l m =
    let t = packet s in
    let (quiet, next) = packet-more s handler left d (omega arith) in
    omega (
      arith,
      completed-append t.1 (packets (suc n) t.0),
      quiet,
      packets_complete (suc n) t.0 handler (left - write_chunk_size) next (omega arith)
          (omega arith) (omega arith),
    )

start_write-Draws :
    (s : Outgoing) (handler : ℕ) (buffer : Bytes) (eof : Bool)
    → s.write_mode ≡ staged
    → s.closed ≡ false
    → s.write_aborted ≡ false
    → s.eof_submitted ≡ false
    → 0 < length buffer
    → s.tx_sent ≡ s.tx_queued
    → s.tx_offered ≡ s.tx_queued
    → s.tx_queued + length buffer < u64_mod
    → Draws (start_write s handler buffer eof).0 handler (length buffer)
unfolding start_write
start_write-Draws s handler buffer eof m c a e p l k f = ground arith

-- A Staged write of bytes on a live stream that has everything before it in packets, and whose
-- body stays below 2^64, is completed exactly once by as many packets as it has chunks of 16 KiB,
-- the last one counted whole, when each packet takes all that is handed out for it.
pub staged-completes :
    (s : Outgoing) (handler : ℕ) (buffer : Bytes) (eof : Bool) (n : ℕ)
    → s.write_mode ≡ staged
    → s.closed ≡ false
    → s.write_aborted ≡ false
    → s.eof_submitted ≡ false
    → 0 < length buffer
    → s.tx_sent ≡ s.tx_queued
    → s.tx_offered ≡ s.tx_queued
    → s.tx_queued + length buffer < u64_mod
    → length buffer ≤ n * write_chunk_size
    → n * write_chunk_size < length buffer + write_chunk_size
    → completed (packets n (start_write s handler buffer eof).0) ≡ 1
staged-completes s handler buffer eof n m c a e p l k f low high =
    packets_complete n (start_write s handler buffer eof).0 handler (length buffer)
      (start_write-Draws s handler buffer eof m c a e p l k f) p low high
