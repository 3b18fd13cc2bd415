-- ===== src/Tests/Stream.antt =====
-- src/quic/stream.cpp at concrete streams.
use anyhttp.Prelude.{
  ℕ, ◌<◌, ◌≤◌, ◌≡◌, ◌+◌, refl, true, false, none, List, [], ◌∷◌, ◌++◌, Bytes, u64_mod, inl, inr,
  arith, length, drop, ◌⊎◌,
}
use anyhttp.Quic.Stream.State.{WriteMode, zero_copy, staged, Outgoing, QuicStream}
use anyhttp.Quic.Stream.Output.{
  cancel_write, on_acked, start_write, pending_data, on_offered, on_sent,
}
use anyhttp.Quic.Stream.Positions.{MayWrite}
use anyhttp.Quic.Stream.Bytes.{concat}
use anyhttp.Quic.Stream.Outbound.{opened, Reach, writes, asked, offered, sent, fresh, onward}
use anyhttp.Quic.Stream.Reachable.{pending_data-body, Reach-ordered, lent-released, resets}
use anyhttp.Quic.Stream.Handlers.{
  Act, write, cancel, ask, offer, send, acknowledge, acts, completed, waiting, OneAtATime, IsOwned,
  acts_complete,
}
use anyhttp.Quic.Stream.Progress.{zero_copy-completes, staged-completes, packets}
use anyhttp.Completion.{write_done, at_once, posted, success, broken_pipe, connection_reset}
use anyhttp.Quic.Stream.Detached.{detached_write, is_behind_end, start_write-detached}
use anyhttp.Quic.Stream.Lifecycle.{detached_body_ended}
use anyhttp.Quic.Stream.Input.{again, leave}
use anyhttp.Contract.{Obeys}
use anyhttp.Quic.Stream.Ladder.{quic_writer, start_write-Obeys}
use anyhttp.Quic.Stream.Integrity.{buffered}
use anyhttp.Quic.Stream.Trace.{
  Happening, arrives, ends, reads, cancels, live, arrived, Conserves, live-Conserves,
}

abbrev hello : Bytes
hello = b'h' ∷ b'e' ∷ b'l' ∷ b'l' ∷ b'o' ∷ []

-- A body of five bytes that ends, of which two were handed over and sent.
abbrev submitted : WriteMode → Outgoing
submitted mode = (start_write (opened mode) 7 hello true).0

abbrev half_sent : WriteMode → Outgoing
half_sent mode = (on_sent (on_offered (pending_data (submitted mode) 0 16).stream 2 false).0 2).0

may_write : (mode : WriteMode) → MayWrite (opened mode) hello
may_write mode = record { one_at_a_time = inl refl; fits = omega arith }

half_sent-Reach : (mode : WriteMode) → Reach mode (half_sent mode, hello)
half_sent-Reach mode =
    onward
      (onward (onward (onward fresh (writes 7 hello true (may_write mode))) (asked 0 16))
        (offered 2 false))
      (sent 2)

pending_data-body_example :
    (rest : Bytes) × (drop 2 hello ≡ concat (pending_data (half_sent staged) 2 16).vec ++ rest)
    × (((pending_data (half_sent staged) 2 16).fin ≡ false)
        ⊎ (((half_sent staged).write_is_eof ≡ true) × (rest ≡ [])))
unfolding start_write pending_data on_offered on_sent
pending_data-body_example =
    pending_data-body (half_sent-Reach staged) 2 16 refl refl (omega arith) (omega arith)
      (omega arith)

Reach-ordered_example :
    ((half_sent staged).tx_acked ≤ (half_sent staged).tx_sent)
    × ((half_sent staged).tx_sent ≤ (half_sent staged).tx_offered)
    × ((half_sent staged).tx_offered ≤ (half_sent staged).tx_queued)
    × ((half_sent staged).tx_queued < u64_mod)
Reach-ordered_example = Reach-ordered (half_sent-Reach staged)

lent-released_example :
    (((half_sent zero_copy).write_active ≡ true)
        × ((half_sent zero_copy).write_base ≤ (half_sent zero_copy).tx_acked)
        × ((half_sent zero_copy).tx_offered
            ≤ (half_sent zero_copy).write_base + length (half_sent zero_copy).write_source)
      ⊎ ((half_sent zero_copy).write_active ≡ false)
        × ((half_sent zero_copy).tx_offered ≡ (half_sent zero_copy).tx_acked))
    × ((token : ℕ)
        → ((cancel_write (half_sent zero_copy) token).1 ≡ [])
          ⊎ ((cancel_write (half_sent zero_copy) token).0.tx_offered
              ≡ (cancel_write (half_sent zero_copy) token).0.tx_acked)
          ⊎ ((resets (cancel_write (half_sent zero_copy) token).1 ≡ true)
              × ((cancel_write (half_sent zero_copy) token).0.write_aborted ≡ true)))
unfolding start_write pending_data on_offered on_sent
lent-released_example = lent-released (half_sent-Reach zero_copy) refl refl refl

-- A stream with a reader, of which nothing has arrived.
abbrev listening : QuicStream
listening = record {
  input = record {
    pending_read = [];
    read_head = [];
    incoming = [];
    eof_received = false;
    read_handler = none;
    call_read_handler_active = false;
    read_aborted = false;
  };
  output = opened zero_copy;
  reader = true;
  writer = true;
}

-- Five bytes arrive while nobody reads, two reads of two bytes follow each other, and the end.
abbrev conversation : List Happening
conversation =
    arrives hello []
    ∷ reads (record { handler = 1; size = 2 })
        (again (record { handler = 2; size = 2 }) ∷ leave ∷ [])
    ∷ cancels
    ∷ ends []
    ∷ []

live-Conserves_example :
    Conserves (buffered listening.input) (arrived conversation) (live conversation listening)
live-Conserves_example =
    live-Conserves conversation listening (tt, ((tt, (tt, tt)), (tt, (tt, tt))))
      (record { is_queued = refl; settled = refl })

-- Four of the five bytes are delivered.
delivered : (live conversation listening).delivered ≡ b'h' ∷ b'e' ∷ b'l' ∷ b'l' ∷ []
unfolding live anyhttp.Quic.Stream.Input.take_in
delivered = refl

-- A body that ended, of a stream that is over.
abbrev over : Outgoing
over = record (opened staged) { eof_submitted = true; fin_offered = true; closed = true }

-- The same, with an end that was never handed over.
abbrev lost_end : Outgoing
lost_end = record over { fin_offered = false }

start_write-detached_example :
    ((is_behind_end lost_end hello ≡ false)
      × (start_write lost_end 3 hello true
          ≡ (lost_end, detached_write (detached_body_ended lost_end) 3 hello true ∷ [])))
    ⊎ ((is_behind_end lost_end hello ≡ true)
        × (start_write lost_end 3 hello true ≡ (lost_end, write_done at_once 3 broken_pipe ∷ []))
        × (detached_write (detached_body_ended lost_end) 3 hello true
            ≡ write_done at_once 3 connection_reset))
start_write-detached_example = start_write-detached lost_end 3 hello true refl refl

-- A write that completes, one that is cancelled, and the end of the body.
abbrev work : List Act
work =
    write 7 hello false
    ∷ ask 0 16
    ∷ offer 5 false
    ∷ send 5
    ∷ acknowledge 5
    ∷ write 8 hello false
    ∷ cancel 2
    ∷ write 9 [] true
    ∷ []

work-OneAtATime : OneAtATime (opened zero_copy) work
unfolding acts start_write pending_data on_offered on_sent on_acked
    anyhttp.Quic.Stream.Output.cancel_write anyhttp.Quic.Stream.Handlers.act
work-OneAtATime = (refl, (tt, (tt, (tt, (tt, (refl, (tt, (refl, tt))))))))

acts_complete_example :
    (completed (acts (opened zero_copy) work).1 + waiting (acts (opened zero_copy) work).0
      ≡ waiting (opened zero_copy) + anyhttp.Quic.Stream.Handlers.writes work)
    × IsOwned (acts (opened zero_copy) work).0
acts_complete_example = acts_complete work (opened zero_copy) work-OneAtATime (inr refl)

zero_copy-completes_example :
    (on_acked
      (on_sent
        (on_offered (start_write (opened zero_copy) 7 hello true).0 (0 + 5) true).0
        (0 + 5)).0
      (0 + 5)).1
    ≡ write_done posted 7 success ∷ []
zero_copy-completes_example =
    zero_copy-completes (opened zero_copy) 7 hello true true refl refl refl refl refl (omega arith)
      (omega arith) (omega arith) (omega arith) (omega arith)

staged-completes_example : completed (packets 1 (start_write (opened staged) 7 hello true).0) ≡ 1
staged-completes_example =
    staged-completes (opened staged) 7 hello true 1 refl refl refl refl (omega arith) refl refl
      (omega arith) (omega arith) (omega arith)

start_write-Obeys_example : Obeys quic_writer (opened staged) 7 hello true
start_write-Obeys_example = start_write-Obeys (opened staged) 7 hello true
