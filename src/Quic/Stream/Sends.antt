-- ===== src/Quic/Stream/Sends.antt =====
-- The packets of a stream carry its body: `pending_data` of src/quic/stream.cpp, with the carving of
-- the next chunk, and what it says of the end.
use anyhttp.Prelude.{
  ℕ, zero, suc, ◌+◌, ◌-◌, ◌≤◌, ◌<◌, ◌≡◌, refl, sym, ap, ◌∙◌, inl, inr, true, false, ◌&&◌, [], ◌∷◌,
  ◌++◌, Bytes, length, length-append, length-drop, take, drop, ltb, arith, Bool-cases, append-nil,
  sub64,
}
use anyhttp.Quic.Stream.State.{Outgoing, zero_copy, staged}
use anyhttp.Quic.Stream.Output.{slices}
use anyhttp.Quic.Stream.Positions.{IsOrdered}
use anyhttp.Quic.Stream.Bytes.{IsFront, Carries, hand_out-first, drop-append_add}

abbrev pub IsLive : Outgoing → Type 0
IsLive s = (s.closed ≡ false) × (s.write_aborted ≡ false)

pub take-whole : (n : ℕ) (text : Bytes) → n ≡ length text → take n text ≡ text
take-whole zero [] e = refl
take-whole zero (c ∷ text) e = absurd (omega (arith, e))
take-whole (suc n) [] e = absurd (omega (arith, e))
take-whole (suc n) (c ∷ text) e = ap (◌∷◌ c) (take-whole n text (omega (arith, e)))

-- The last bytes of a body whose end is the caller's buffer.
tail-IsFront :
    (body lead source : Bytes) (from queued : ℕ)
    → body ≡ lead ++ source
    → length lead ≤ from
    → from ≤ queued
    → queued ≡ length lead + length source
    → IsFront
        (drop from body)
        from
        (take (queued - from) (drop (from - length lead) source) ∷ [], queued)
tail-IsFront body lead source from queued split l m q =
    let parts : from ≡ length lead + (from - length lead) = omega arith in
    let front : drop from body ≡ drop (from - length lead) source =
      ap (λ (n : ℕ). drop n body) parts
      ∙ ap (drop (length lead + (from - length lead))) split
      ∙ drop-append_add (from - length lead) lead source in
    let left : queued - from ≡ length (drop (from - length lead) source) =
      omega (arith, length-drop (from - length lead) source) in
    let whole : take (queued - from) (drop (from - length lead) source)
        ≡ drop (from - length lead) source =
      take-whole (queued - from) (drop (from - length lead) source) left in
    rw whole (
      [],
      front
          ∙ sym (append-nil (drop (from - length lead) source))
          ∙ sym (append-nil (drop (from - length lead) source ++ [])),
      omega (arith, length-append (drop (from - length lead) source) []),
    )

pub slices-zero_copy :
    (s : Outgoing) (body : Bytes) (from room : ℕ)
    → IsOrdered s
    → Carries body s
    → IsLive s
    → s.write_mode ≡ zero_copy
    → s.tx_acked ≤ from
    → from ≤ s.tx_queued
    → IsFront (drop from body) from (slices s from room)
slices-zero_copy s body from room v c live m a q =
    elim (Bool-cases (s.write_active && ltb from s.tx_queued)) [
      | inl e ↦
          let active : s.write_active ≡ true = ground arith in
          let below : from < s.tx_queued = ground arith in
          let (lead, split, count) = c.lent m active in
          let base : s.write_base ≤ s.tx_acked = v.base_le m active live.0 live.1 in
          let offset : sub64 from s.write_base ≡ from - length lead =
            omega (arith, v.queued_lt, count) in
          unfold slices in
          rw (m, e, slices, offset)
            (tail-IsFront body lead s.write_source from s.tx_queued split (omega (arith, count)) q
              (omega (arith, count, v.whole m active)))
      | inr e ↦ unfold slices in rw (m, e, slices) (drop from body, refl, omega arith)
    ]

pub slices-staged :
    (s : Outgoing) (body : Bytes) (from room : ℕ)
    → IsOrdered s
    → Carries body s
    → s.write_mode ≡ staged
    → s.tx_acked ≤ from
    → from ≤ s.tx_queued
    → IsFront (drop from body) from (slices s from room)
slices-staged s body from room v c m a q =
    let (lead, text, split, old, cover) = c.copied m in
    let total : length lead + length text ≡ s.tx_queued =
      omega (arith, c.total, ap (λ (b : Bytes). length b) split, length-append lead text) in
    let parts : from ≡ length lead + (from - length lead) = omega arith in
    let front : drop from body ≡ drop (from - length lead) text =
      ap (λ (n : ℕ). drop n body) parts
      ∙ ap (drop (length lead + (from - length lead))) split
      ∙ drop-append_add (from - length lead) lead text in
    unfold slices in
    rw (m, slices, front)
      (hand_out-first s.chunks room from (length lead) text (omega arith) (omega arith) cover)
