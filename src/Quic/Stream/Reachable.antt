-- ===== src/Quic/Stream/Reachable.antt =====
-- What the packets of a stream carry after any steps, src/quic/stream.cpp.
use anyhttp.Prelude.{
  Bool, List, ◌∷◌, ℕ, ◌+◌, ◌≤◌, ◌<◌, ◌≡◌, refl, ◌⊎◌, inl, inr, true, false, [], ◌++◌, Bytes, length,
  drop, arith, Bool-cases, u64_mod,
}
use anyhttp.Completion.{Code, Event, reset_stream}
use anyhttp.Quic.Stream.State.{Outgoing, WriteMode, zero_copy, staged}
use anyhttp.Quic.Stream.Output.{cancel_write, reset_writing, pending_data, abort_writing}
use anyhttp.Quic.Stream.Positions.{
  IsOrdered, start_write-IsOrdered, cancel_write-IsOrdered, pending_data-IsOrdered,
  on_offered-IsOrdered, on_sent-IsOrdered, on_acked-IsOrdered, abort_writing-IsOrdered,
}
use anyhttp.Quic.Stream.Bytes.{concat}
use anyhttp.Quic.Stream.Sends.{IsLive}
use anyhttp.Quic.Stream.Body.{uncarved, Holds}
use anyhttp.Quic.Stream.Outbound.{
  opened, Step, Reach, writes, cancelled, asked, offered, sent, acked, reset, aborted, shut, fresh,
  onward,
}
use anyhttp.Quic.Stream.Offering.{offer-IsFront, offer-fits}
use anyhttp.Quic.Stream.Exhausting.{is_due, offer-some, offer-ends}
use anyhttp.Quic.Stream.Preserves.{
  writes-Holds, cancelled-Holds, asked-Holds, offered-Holds, sent-Holds, acked-Holds,
}

-- What holds of a stream and its body after any steps.
abbrev pub IsSound : Outgoing × Bytes → Type 0
IsSound (s, body) = IsOrdered s × (IsLive s → Holds body s)

dead_after : (s : Outgoing) (ec : Code) → ¬ (IsLive (abort_writing s ec).0)
unfolding abort_writing
dead_after s ec live = ground arith

Step-IsSound : {x y : Outgoing × Bytes} → Step x y → IsSound x → IsSound y
Step-IsSound (writes {s} {body} handler buffer eof m) (v, h) =
    (start_write-IsOrdered handler buffer eof m v, writes-Holds s body handler buffer eof m v h)
Step-IsSound (cancelled {s} {body} token) (v, h) =
    (cancel_write-IsOrdered token v, cancelled-Holds s body token v h)
Step-IsSound (asked {s} {body} from room) (v, h) =
    (pending_data-IsOrdered from room v, asked-Holds s body from room v h)
Step-IsSound (offered {s} {body} end fin) (v, h) =
    (on_offered-IsOrdered end fin v, offered-Holds s body end fin h)
Step-IsSound (sent {s} {body} end) (v, h) = (on_sent-IsOrdered end v, sent-Holds s body end h)
Step-IsSound (acked {s} {body} end l) (v, h) =
    (on_acked-IsOrdered end l v, acked-Holds s body end v h)
Step-IsSound (reset {s} {body}) (v, h) =
    unfold reset_writing in (ground arith, λ live. absurd (ground arith))
Step-IsSound (aborted {s} {body} ec) (v, h) =
    (abort_writing-IsOrdered ec v, λ live. absurd (dead_after s ec live))
Step-IsSound (shut {s} {body}) (v, h) = (ground arith, λ live. absurd (ground arith))

never_opened : (mode : WriteMode) → [] ≡ [] ++ uncarved (opened mode)
never_opened zero_copy = refl
never_opened staged = refl

opened-IsSound : (mode : WriteMode) → IsSound (opened mode, [])
opened-IsSound mode = (
  ground arith,
  λ live. (
    [],
    record {
      total = refl;
      lent = λ x y. absurd cc;
      copied = λ x. ([], [], refl, omega arith, refl);
    },
    never_opened mode,
  ),
)

Reach-IsSound : {mode : WriteMode} {x : Outgoing × Bytes} → Reach mode x → IsSound x
Reach-IsSound {mode} fresh = opened-IsSound mode
Reach-IsSound (onward r step) = Step-IsSound step (Reach-IsSound r)

pub pending_data-fits :
    {mode : WriteMode} {s : Outgoing} {body : Bytes}
    → Reach mode (s, body)
    → (from room : ℕ) → s.closed ≡ false
    → s.write_aborted ≡ false
    → s.tx_acked ≤ from
    → from ≤ s.tx_queued
    → from + length (concat (pending_data s from room).vec)
      ≤ (pending_data s from room).stream.tx_queued
pending_data-fits {mode} {s} {body} r from room open_still going l m =
    let (v, h) = Reach-IsSound r in
    offer-fits s body from room v (h (open_still, going)) (open_still, going) l m

pub pending_data-exhausts :
    {mode : WriteMode} {s : Outgoing} {body : Bytes}
    → Reach mode (s, body)
    → (from room : ℕ) → s.closed ≡ false
    → s.write_aborted ≡ false
    → 0 < room
    → s.tx_acked ≤ from
    → from ≤ s.tx_queued
    → (length (concat (pending_data s from room).vec) ≡ 0
        → (s.tx_queued ≡ from) × (is_due s ≡ false))
      × (s.write_active ≡ true
          → s.write_is_eof ≡ true
          → length (drop from body) ≡ length (concat (pending_data s from room).vec)
          → (pending_data s from room).fin ≡ true)
pending_data-exhausts {mode} {s} {body} r from room open_still going p l m =
    let (v, h) = Reach-IsSound r in
    (
      offer-some s body from room v (h (open_still, going)) (open_still, going) p l m,
      offer-ends s body from room v (h (open_still, going)) (open_still, going) p l m,
    )

-- After any steps, `pending_data` of a live stream that is asked for the body from an offset on,
-- between what is acknowledged and what is queued, with room for an entry, hands out the front of the submitted body from
-- there on; and it says `fin` only for a write that ends the body, when nothing of it is left.
pub pending_data-body :
    {mode : WriteMode} {s : Outgoing} {body : Bytes}
    → Reach mode (s, body)
    → (from room : ℕ) → s.closed ≡ false
    → s.write_aborted ≡ false
    → 0 < room
    → s.tx_acked ≤ from
    → from ≤ s.tx_queued
    → (rest : Bytes) × (drop from body ≡ concat (pending_data s from room).vec ++ rest)
      × (((pending_data s from room).fin ≡ false) ⊎ ((s.write_is_eof ≡ true) × (rest ≡ [])))
pending_data-body {mode} {s} {body} r from room open_still going p l m =
    let (v, h) = Reach-IsSound r in
    offer-IsFront s body from room v (h (open_still, going)) (open_still, going) p l m

-- After any steps, acknowledged ≤ in packets ≤ handed over ≤ queued, and queued is below 2^64.
pub Reach-ordered :
    {mode : WriteMode} {s : Outgoing} {body : Bytes}
    → Reach mode (s, body)
    → (s.tx_acked ≤ s.tx_sent)
      × (s.tx_sent ≤ s.tx_offered)
      × (s.tx_offered ≤ s.tx_queued)
      × (s.tx_queued < u64_mod)
Reach-ordered r = let (v, h) = Reach-IsSound r in (v.acked_le, v.sent_le, v.offered_le, v.queued_lt)

-- Whether RESET_STREAM is among the calls.
abbrev pub resets : List Event → Bool
resets [] = false
resets (reset_stream ∷ es) = true
resets (_ ∷ es) = resets es

-- A cancellation that completes the write leaves nothing with the stack, or resets the stream.
cancel_write-resets :
    (s : Outgoing) (token : ℕ)
    → IsOrdered s
    → s.closed ≡ false
    → s.write_aborted ≡ false
    → s.write_mode ≡ zero_copy
    → ((cancel_write s token).1 ≡ [])
      ⊎ ((cancel_write s token).0.tx_offered ≡ (cancel_write s token).0.tx_acked)
      ⊎ ((resets (cancel_write s token).1 ≡ true) × ((cancel_write s token).0.write_aborted ≡ true))
unfolding cancel_write
cancel_write-resets s token v c a z = ground arith

-- After any steps, what the stack holds of a live ZeroCopy stream's body and has no acknowledgement
-- for lies within the buffer of the active write, and there is none of it when no write is active: a
-- caller whose write completed may free its buffer. A cancellation calls nothing, as it is for another
-- write or the handler is gone; or it leaves the stack with nothing that is not acknowledged; or the
-- stream is reset, so that what the stack holds is not sent any more.
pub lent-released :
    {mode : WriteMode} {s : Outgoing} {body : Bytes}
    → Reach mode (s, body)
    → s.closed ≡ false
    → s.write_aborted ≡ false
    → s.write_mode ≡ zero_copy
    → ((s.write_active ≡ true)
          × (s.write_base ≤ s.tx_acked)
          × (s.tx_offered ≤ s.write_base + length s.write_source)
        ⊎ (s.write_active ≡ false) × (s.tx_offered ≡ s.tx_acked))
      × ((token : ℕ)
          → ((cancel_write s token).1 ≡ [])
            ⊎ ((cancel_write s token).0.tx_offered ≡ (cancel_write s token).0.tx_acked)
            ⊎ ((resets (cancel_write s token).1 ≡ true)
                × ((cancel_write s token).0.write_aborted ≡ true)))
lent-released {mode} {s} r c a z =
    let (v, h) = Reach-IsSound r in
    (
      elim (Bool-cases s.write_active) [
        | inl e ↦ inl (e, v.base_le z e c a, omega (arith, v.whole z e, v.offered_le))
        | inr e ↦ inr (e, omega (arith, v.released z e c a, v.offered_le, v.sent_le, v.acked_le))
      ],
      λ token. cancel_write-resets s token v c a z,
    )
