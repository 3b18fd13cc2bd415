-- ===== src/Quic/Stream/Offering.antt =====
-- What `pending_data` of src/quic/stream.cpp hands out of a sound stream.
use anyhttp.Prelude.{
  ℕ, ◌+◌, ◌-◌, ◌≤◌, ◌<◌, ◌≡◌, refl, sym, ap, ◌∙◌, ◌⊎◌, inl, inr, true, false, ◌||◌, List, [], ◌∷◌,
  ◌++◌, Bytes, length, length-append, length-drop, drop, ◌==◌, arith, Bool-cases, append_assoc,
}
use anyhttp.Quic.Stream.State.{Outgoing, WriteMode-cases}
use anyhttp.Quic.Stream.Output.{carve, pending_data, slices, ends_body}
use anyhttp.Quic.Stream.Positions.{IsOrdered, carve-IsOrdered}
use anyhttp.Quic.Stream.Bytes.{concat, IsFront, Carries, drop-append_le}
use anyhttp.Quic.Stream.Sends.{IsLive, slices-zero_copy, slices-staged}
use anyhttp.Quic.Stream.Body.{uncarved, Holds, carve-Holds}
use anyhttp.Quic.Stream.Changes.{all_copied-uncarved, zero_copy-uncarved}

-- What is asked of a live stream.
pub slices-IsFront :
    (s : Outgoing) (body : Bytes) (from room : ℕ)
    → IsOrdered s
    → Carries body s
    → IsLive s
    → s.tx_acked ≤ from
    → from ≤ s.tx_queued
    → IsFront (drop from body) from (slices s from room)
slices-IsFront s body from room v c live l m = elim (WriteMode-cases s.write_mode) [
  | inl z ↦ slices-zero_copy s body from room v c live z l m
  | inr z ↦ slices-staged s body from room v c z l m
]

pub carve_lem :
    (s : Outgoing)
    → IsOrdered s
    → ((carve s).tx_acked ≡ s.tx_acked)
      × (s.tx_queued ≤ (carve s).tx_queued)
      × ((carve s).write_is_eof ≡ s.write_is_eof)
      × ((carve s).closed ≡ s.closed)
      × ((carve s).write_aborted ≡ s.write_aborted)
unfolding carve
carve_lem s v = ground arith

pub no_length : (text : Bytes) → length text ≡ 0 → text ≡ []
no_length [] e = refl
no_length (c ∷ text) e = absurd (omega (arith, e))

-- Once the end is reached, nothing is left.
ended-empty :
    (t : Outgoing) (queued : Bytes) (from : ℕ) (r : List Bytes × ℕ) (rest : Bytes)
    → IsOrdered t
    → Carries queued t
    → from ≤ t.tx_queued
    → drop from queued ≡ concat r.0 ++ rest
    → r.1 ≡ from + length (concat r.0)
    → ends_body t r.1 ≡ true
    → (t.write_is_eof ≡ true) × (rest ++ uncarved t ≡ [])
unfolding ends_body
ended-empty t queued from r rest v c m e l fin =
    let sizes : length queued - from ≡ length (concat r.0) + length rest = omega (
      arith,
      length-drop from queued,
      ap (λ (x : Bytes). length x) e,
      length-append (concat r.0) rest,
    ) in
    let none_left : rest ≡ [] = no_length rest (ground (arith, sizes, c.total)) in
    let copied : uncarved t ≡ [] = elim (WriteMode-cases t.write_mode) [
      | inl z ↦ zero_copy-uncarved t z
      | inr z ↦ all_copied-uncarved t (ground arith)
    ] in
    (ground arith, rw (none_left, copied) refl)

pub offer-IsFront :
    (s : Outgoing) (body : Bytes) (from room : ℕ)
    → IsOrdered s
    → Holds body s
    → IsLive s
    → 0 < room
    → s.tx_acked ≤ from
    → from ≤ s.tx_queued
    → (rest : Bytes) × (drop from body ≡ concat (pending_data s from room).vec ++ rest)
      × (((pending_data s from room).fin ≡ false) ⊎ ((s.write_is_eof ≡ true) × (rest ≡ [])))
unfolding pending_data
offer-IsFront s body from room v h live p l m =
    let open_still : room == 0 || s.closed || s.write_aborted ≡ false = ground arith in
    let t = carve s in
    let (acked_same, more, eof_same, closed_same, aborted_same) = carve_lem s v in
    let (queued, c, split) = carve-Holds body s v h in
    let still_live : IsLive t = (closed_same ∙ live.0, aborted_same ∙ live.1) in
    let ordered : IsOrdered t = carve-IsOrdered v in
    let r = slices t from room in
    let below : from ≤ t.tx_queued = omega arith in
    let (rest, e, end) =
      slices-IsFront t queued from room ordered c still_live (omega arith) below in
    rw open_still (
      rest ++ uncarved t,
      ap (drop from) split
          ∙ drop-append_le from queued (uncarved t) (omega (arith, c.total))
          ∙ ap (λ (x : Bytes). x ++ uncarved t) e
          ∙ append_assoc (concat r.0) rest (uncarved t),
      elim (Bool-cases (ends_body t r.1)) [
        | inl fin ↦
            let (eof, empty) = ended-empty t queued from r rest ordered c below e end fin in
            inr (sym eof_same ∙ eof, empty)
        | inr not_yet ↦ inl not_yet
      ],
    )

-- It hands out no more than is queued then.
pub offer-fits :
    (s : Outgoing) (body : Bytes) (from room : ℕ)
    → IsOrdered s
    → Holds body s
    → IsLive s
    → s.tx_acked ≤ from
    → from ≤ s.tx_queued
    → from + length (concat (pending_data s from room).vec)
      ≤ (pending_data s from room).stream.tx_queued
unfolding pending_data
offer-fits s body from room v h live l m = elim (Bool-cases (room == 0)) [
  | inl e ↦ rw e (omega arith)
  | inr e ↦
      let open_still : room == 0 || s.closed || s.write_aborted ≡ false = ground arith in
      let t = carve s in
      let (acked_same, more, eof_same, closed_same, aborted_same) = carve_lem s v in
      let (queued, c, split) = carve-Holds body s v h in
      let r = slices t from room in
      let (rest, f, end) =
        slices-IsFront t queued from room (carve-IsOrdered v) c
          (closed_same ∙ live.0, aborted_same ∙ live.1) (omega arith) (omega arith) in
      rw open_still (
        omega (
          arith,
          c.total,
          length-drop from queued,
          ap (λ (x : Bytes). length x) f,
          length-append (concat r.0) rest,
          more,
        ))
]
