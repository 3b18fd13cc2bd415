-- ===== src/Quic/Stream/Body.antt =====
-- The whole of the outgoing body, what is queued and what waits in the caller's buffer, across the
-- operations of src/quic/stream.cpp.
use anyhttp.Prelude.{
  ℕ, zero, suc, ◌+◌, ◌-◌, ◌≤◌, ◌<◌, ◌≡◌, refl, sym, ap, ◌∙◌, subst, inl, inr, min, Bool, true,
  false, ◌&&◌, List, [], ◌∷◌, ◌++◌, Bytes, length, length-append, length-take, length-drop, take,
  drop, take-append-drop, ltb, leb, if◌then◌else◌, arith, Bool-cases, append_assoc, append-nil,
  add64,
}
use anyhttp.Quic.Stream.State.{Outgoing, Chunk, staged, is_staged}
use anyhttp.Quic.Stream.Output.{carve, drop_acked, write_chunk_size}
use anyhttp.Quic.Stream.Positions.{IsOrdered}
use anyhttp.Quic.Stream.Bytes.{Covers, Carries}

-- What the writer has yet to copy out of the caller's buffer.
abbrev pub uncarved : Outgoing → Bytes
uncarved s =
    if is_staged s.write_mode && s.write_active then drop s.write_copied s.write_source else []

-- `whole` is the body that was submitted so far: the queued part of it, and the rest.
abbrev pub Holds : Bytes → Outgoing → Type 0
Holds whole s = (body : Bytes) × Carries body s × (whole ≡ body ++ uncarved s)

plus_zero : (n : ℕ) → n + 0 ≡ n
plus_zero n = omega arith

zero_plus : (n : ℕ) → 0 + n ≡ n
zero_plus n = omega arith

Covers-here :
    (cs : List Chunk) (off : ℕ) (text : Bytes) → Covers off text cs → Covers (off + 0) text cs
Covers-here cs off text k = subst (λ (n : ℕ). Covers n text cs) (sym (plus_zero off)) k

pub drop-empty : (n : ℕ) → drop {A = ℕ} n [] ≡ []
drop-empty zero = refl
drop-empty (suc n) = refl

pub never : (b : Bool) (text : Bytes) → [] ≡ (if b && false then text else [])
never true text = refl
never false text = refl

Covers-append :
    (cs : List Chunk) (off : ℕ) (text : Bytes) (c : Chunk)
    → Covers off text cs
    → c.offset ≡ off + length text
    → 0 < length c.content
    → Covers off (text ++ c.content) (cs ++ c ∷ [])
Covers-append [] off text c k o n =
    rw k ([], omega (arith, o, ap (λ (t : Bytes). length t) k), n, sym (append-nil c.content), refl)
Covers-append (d ∷ cs) off text c (tail, o', n', t, k) o n = (
  tail ++ c.content,
  o',
  n',
  ap (λ (x : Bytes). x ++ c.content) t ∙ append_assoc d.content tail c.content,
  Covers-append cs (off + length d.content) tail c k
      (omega (arith, o, ap (λ (x : Bytes). length x) t, length-append d.content tail)) n,
)

-- Dropping what was acknowledged leaves a text that starts no later.
pub drop_acked-Covers :
    (cs : List Chunk) (acked off : ℕ) (text : Bytes)
    → off ≤ acked
    → Covers off text cs
    → (lead rest : Bytes) × (text ≡ lead ++ rest)
      × (off + length lead ≤ acked)
      × Covers (off + length lead) rest (drop_acked acked cs)
unfolding drop_acked
drop_acked-Covers [] acked off text l k = ([], text, refl, omega arith, Covers-here [] off text k)
drop_acked-Covers (c ∷ cs) acked off text l (tail, o, n, t, k) =
    elim (Bool-cases (leb (c.offset + length c.content) acked)) [
      | inl e ↦
          let (lead, rest, split, le, cover) =
            drop_acked-Covers cs acked (off + length c.content) tail (ground arith) k in
          let total : off + length (c.content ++ lead) ≡ off + length c.content + length lead =
            omega (arith, length-append c.content lead) in
          rw e (
            c.content ++ lead,
            rest,
            t ∙ ap (◌++◌ c.content) split ∙ sym (append_assoc c.content lead rest),
            omega (arith, le, total),
            rw total cover,
          )
      | inr e ↦ rw e ([], text, refl, omega arith, Covers-here (c ∷ cs) off text (tail, o, n, t, k))
    ]

-- One slice further.
take-drop_add : (n m : ℕ) (text : Bytes) → take n (drop m text) ++ drop (m + n) text ≡ drop m text
take-drop_add zero m text = ap (λ (n : ℕ). drop n text) (plus_zero m)
take-drop_add (suc n) zero text = rw (zero_plus (suc n)) (take-append-drop (suc n) text)
take-drop_add (suc n) (suc m) [] = drop-empty (suc m + suc n)
take-drop_add (suc n) (suc m) (c ∷ text) =
    let shift : suc m + suc n ≡ suc (m + suc n) = omega arith in
    rw shift (take-drop_add (suc n) m text)

slice-Holds :
    (whole : Bytes) (s : Outgoing) (n : ℕ)
    → IsOrdered s
    → Holds whole s
    → s.write_mode ≡ staged
    → s.write_active ≡ true
    → 0 < n
    → n ≤ length s.write_source - s.write_copied
    → Holds whole (record s {
      chunks =
          s.chunks
          ++ record { offset = s.tx_queued; content = take n (drop s.write_copied s.write_source) }
            ∷ [];
      write_copied = s.write_copied + n;
      tx_queued = add64 s.tx_queued n;
    })
slice-Holds whole s n v (body, k, w) m a p q =
    let content = take n (drop s.write_copied s.write_source) in
    let size : length content ≡ n = omega (
      arith,
      length-take n (drop s.write_copied s.write_source),
      length-drop s.write_copied s.write_source,
    ) in
    let (lead, text, split, old, cover) = k.copied m in
    let queued : s.tx_queued ≡ length lead + length text =
      omega (arith, k.total, ap (λ (b : Bytes). length b) split, length-append lead text) in
    let more : uncarved s ≡ content ++ drop (s.write_copied + n) s.write_source =
      rw (m, a) (sym (take-drop_add n s.write_copied s.write_source)) in
    (
      body ++ content,
      record {
        total = omega (arith, length-append body content, k.total, size, v.room m a);
        lent = λ x y. absurd (cc);
        copied = λ x. (
          lead,
          text ++ content,
          ap (λ (b : Bytes). b ++ content) split ∙ append_assoc lead text content,
          old,
          Covers-append s.chunks (length lead) text
              (record { offset = s.tx_queued; content = content }) cover queued
              (omega (arith, size)),
        );
      },
      rw (m, a)
          (w
            ∙ ap (◌++◌ body) more
            ∙ sym (append_assoc body content (drop (s.write_copied + n) s.write_source))),
    )

pub carve-Holds :
    (whole : Bytes) (s : Outgoing) → IsOrdered s → Holds whole s → Holds whole (carve s)
unfolding carve
carve-Holds whole s v h =
    elim (Bool-cases (
      is_staged s.write_mode
      && s.write_active
      && leb s.tx_queued s.tx_sent
      && ltb s.write_copied (length s.write_source))) [
        | inl e ↦ rw e (
            slice-Holds whole s (min (length s.write_source - s.write_copied) write_chunk_size) v h
              (ground arith) (ground arith) (ground arith) (ground arith))
        | inr e ↦ rw e h
      ]
