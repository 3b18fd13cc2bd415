-- ===== src/Quic/Stream/Exhausting.antt =====
-- `pending_data` of src/quic/stream.cpp holds nothing back: what is queued is handed out, the next chunk
-- is carved when it is due, and the end is told with the last bytes.
use anyhttp.Prelude.{
  ℕ, zero, suc, ◌+◌, ◌-◌, ◌≤◌, ◌<◌, ◌≡◌, refl, sym, ap, ◌∙◌, inl, inr, Bool, true, false, ◌||◌,
  ◌&&◌, List, [], ◌∷◌, Bytes, length, length-append, length-drop, drop, ltb, leb, ◌==◌, arith,
  Bool-cases,
}
use native.Mathlib.Decide.{dec_le}
use anyhttp.Quic.Stream.State.{Outgoing, Chunk, WriteMode-cases, is_staged}
use anyhttp.Quic.Stream.Output.{carve, pending_data, slices, ends_body, hand_out}
use anyhttp.Quic.Stream.Positions.{IsOrdered, carve-IsOrdered}
use anyhttp.Quic.Stream.Bytes.{concat, Carries, Covers, hand_out-skip, hand_out-take}
use anyhttp.Quic.Stream.Sends.{IsLive, slices-zero_copy}
use anyhttp.Quic.Stream.Body.{uncarved, Holds, carve-Holds}
use anyhttp.Quic.Stream.Offering.{slices-IsFront, carve_lem}

hand_out-some :
    (cs : List Chunk) (room from end off : ℕ) (text : Bytes)
    → Covers off text cs
    → off ≤ from
    → from < off + length text
    → 0 < length (concat (hand_out (suc room) from end cs).0)
hand_out-some [] room from end off text c l h =
    absurd (omega (arith, h, ap (λ (x : Bytes). length x) c))
hand_out-some (c ∷ cs) room from end off text (tail, o, n, t, k) l h =
    let sizes : length text ≡ length c.content + length tail =
      ap (λ (x : Bytes). length x) t ∙ length-append c.content tail in
    elim (dec_le (off + length c.content) from) [
      | yes past ↦
          rw (hand_out-skip (suc room) from end c cs (omega arith))
            (hand_out-some cs room from end (off + length c.content) tail k past (omega arith))
      | no inside ↦ rw (hand_out-take room from end c cs (omega arith)) (
          omega (
            arith,
            length-append (drop (from - c.offset) c.content)
                (concat (hand_out room from (c.offset + length c.content) cs).0),
            length-drop (from - c.offset) c.content,
          ))
    ]

slices-some :
    (s : Outgoing) (body : Bytes) (from room : ℕ)
    → IsOrdered s
    → Carries body s
    → IsLive s
    → s.tx_acked ≤ from
    → from < s.tx_queued
    → 0 < length (concat (slices s from (suc room)).0)
slices-some s body from room v c live a q = elim (WriteMode-cases s.write_mode) [
  | inl m ↦
      let active : s.write_active ≡ true = elim (Bool-cases s.write_active) [
        | inl e ↦ e
        | inr e ↦ absurd (omega (arith, v.released m e live.0 live.1, a, q))
      ] in
      let (rest, e, end) = slices-zero_copy s body from (suc room) v c live m a (omega arith) in
      let last : (slices s from (suc room)).1 ≡ s.tx_queued = unfold slices in ground arith in
      omega (arith, end, last)
  | inr m ↦
      let (lead, text, split, old, cover) = c.copied m in
      let total : length lead + length text ≡ s.tx_queued =
        omega (arith, c.total, ap (λ (b : Bytes). length b) split, length-append lead text) in
      unfold slices in
      rw (m, slices)
        (hand_out-some s.chunks room from from (length lead) text cover (omega arith) (omega arith))
]

-- Whether the next chunk of a write in Staged mode is to be carved.
abbrev pub is_due : Outgoing → Bool
is_due s =
    is_staged s.write_mode
    && s.write_active
    && leb s.tx_queued s.tx_sent
    && ltb s.write_copied (length s.write_source)

carve-due : (s : Outgoing) → IsOrdered s → is_due s ≡ true → s.tx_queued < (carve s).tx_queued
unfolding carve
carve-due s v e = ground arith

-- Nothing is handed out only when all that is queued has been, and no chunk is due.
pub offer-some :
    (s : Outgoing) (body : Bytes) (from room : ℕ)
    → IsOrdered s
    → Holds body s
    → IsLive s
    → 0 < room
    → s.tx_acked ≤ from
    → from ≤ s.tx_queued
    → length (concat (pending_data s from room).vec) ≡ 0
    → (s.tx_queued ≡ from) × (is_due s ≡ false)
offer-some s body from zero v h live p l m none_out = absurd (omega arith)
offer-some s body from (suc room) v h live p l m none_out =
    let open_still : (suc room == 0) || s.closed || s.write_aborted ≡ false = ground arith in
    let t = carve s in
    let (acked_same, more, eof_same, closed_same, aborted_same) = carve_lem s v in
    let (queued, c, split) = carve-Holds body s v h in
    let same : concat (pending_data s from (suc room)).vec ≡ concat (slices t from (suc room)).0 =
      unfold pending_data in rw open_still refl in
    let all_out : t.tx_queued ≤ from = elim (dec_le t.tx_queued from) [
      | yes e ↦ e
      | no e ↦ absurd (
          omega (
            arith,
            slices-some t queued from room (carve-IsOrdered v) c
                (closed_same ∙ live.0, aborted_same ∙ live.1) (omega arith) (omega arith),
            ap (λ (x : Bytes). length x) same,
            none_out,
          ))
    ] in
    (
      omega arith,
      elim (Bool-cases (is_due s)) [ inl e ↦ absurd (omega (arith, carve-due s v e)) | inr e ↦ e ],
    )

carve-write :
    (s : Outgoing)
    → ((carve s).write_active ≡ s.write_active) × ((carve s).write_is_eof ≡ s.write_is_eof)
unfolding carve
carve-write s = ground arith

ends-all :
    (t : Outgoing) (end : ℕ)
    → IsOrdered t
    → t.write_active ≡ true
    → t.write_is_eof ≡ true
    → length (uncarved t) ≡ 0
    → t.tx_queued ≤ end
    → ends_body t end ≡ true
unfolding ends_body
ends-all t end v a e u q = elim (WriteMode-cases t.write_mode) [
  | inl z ↦ rw (z, a, e) (ground arith)
  | inr z ↦
      let left : length (drop t.write_copied t.write_source) ≡ 0 = rw (z, a) at u in
      let copied : t.write_copied ≡ length t.write_source =
        omega (arith, left, length-drop t.write_copied t.write_source, v.copied_le a) in
      ground arith
]

-- The last bytes of a write that ends the body come with the end.
pub offer-ends :
    (s : Outgoing) (body : Bytes) (from room : ℕ)
    → IsOrdered s
    → Holds body s
    → IsLive s
    → 0 < room
    → s.tx_acked ≤ from
    → from ≤ s.tx_queued
    → s.write_active ≡ true
    → s.write_is_eof ≡ true
    → length (drop from body) ≡ length (concat (pending_data s from room).vec)
    → (pending_data s from room).fin ≡ true
offer-ends s body from room v h live p l m active eof whole =
    let open_still : room == 0 || s.closed || s.write_aborted ≡ false = ground arith in
    let t = carve s in
    let (acked_same, more, eof_same, closed_same, aborted_same) = carve_lem s v in
    let (queued, c, split) = carve-Holds body s v h in
    let r = slices t from room in
    let (rest, f, end) =
      slices-IsFront t queued from room (carve-IsOrdered v) c
        (closed_same ∙ live.0, aborted_same ∙ live.1) (omega arith) (omega arith) in
    let same : concat (pending_data s from room).vec ≡ concat r.0 =
      unfold pending_data in rw open_still refl in
    let told : (pending_data s from room).fin ≡ ends_body t r.1 =
      unfold pending_data in rw open_still refl in
    let size : length body ≡ length queued + length (uncarved t) =
      ap (λ (x : Bytes). length x) split ∙ length-append queued (uncarved t) in
    let handed : length queued - from ≡ length (concat r.0) + length rest =
      sym (length-drop from queued)
      ∙ ap (λ (x : Bytes). length x) f
      ∙ length-append (concat r.0) rest in
    let out : length body - from ≡ length (concat r.0) =
      sym (length-drop from body) ∙ whole ∙ ap (λ (x : Bytes). length x) same in
    told
    ∙ ends-all t r.1 (carve-IsOrdered v) ((carve-write s).0 ∙ active) (eof_same ∙ eof)
        (omega (arith, size, handed, out, c.total, more, m))
        (omega (arith, size, handed, out, c.total, more, m, end))
