-- ===== src/Quic/Stream/Bytes.antt =====
-- What `pending_data` points at is the body, from the offset that it is asked for, in both write
-- modes: src/quic/stream.cpp.
use anyhttp.Prelude.{
  ℕ, zero, suc, ◌+◌, ◌-◌, ◌≤◌, ◌<◌, ◌≡◌, refl, sym, ap, ◌∙◌, inl, inr, true, List, [], ◌∷◌, ◌++◌,
  Bytes, length, length-append, length-drop, drop, ltb, arith, Bool-cases, append_assoc,
}
use Prim.Native.Nat.add
use native.Mathlib.Decide.{dec_le}
use anyhttp.Quic.Stream.State.{Outgoing, Chunk, zero_copy, staged}
use anyhttp.Quic.Stream.Output.{hand_out}

abbrev pub concat : List Bytes → Bytes
concat [] = []
concat (c ∷ cs) = c ++ concat cs

-- The chunks cover a text from an offset on, without a gap.
abbrev pub Covers : ℕ → Bytes → List Chunk → Type 0
Covers off text [] = text ≡ []
Covers off text (c ∷ cs) =
    (tail : Bytes) × (c.offset ≡ off)
    × (0 < length c.content)
    × (text ≡ c.content ++ tail)
    × Covers (off + length c.content) tail cs

-- A list of slices and its end are the front of a text.
abbrev pub IsFront : Bytes → ℕ → List Bytes × ℕ → Type 0
IsFront text from r =
    (rest : Bytes) × (text ≡ concat r.0 ++ rest) × (r.1 ≡ from + length (concat r.0))

pub drop-append_le : (n : ℕ) (s t : Bytes) → n ≤ length s → drop n (s ++ t) ≡ drop n s ++ t
drop-append_le zero s t h = refl
drop-append_le (suc n) [] t h = absurd (omega arith)
drop-append_le (suc n) (c ∷ s) t h = drop-append_le n s t (omega arith)

pub drop-append_add : (n : ℕ) (s t : Bytes) → drop (length s + n) (s ++ t) ≡ drop n t
drop-append_add n [] t = rw add.zero refl
drop-append_add n (c ∷ s) t = rw add.suc (drop-append_add n s t)

-- A chunk in front of the others.
IsFront-cons :
    (text content tail : Bytes) (off : ℕ) (r : List Bytes × ℕ)
    → text ≡ content ++ tail
    → IsFront tail (off + length content) r
    → IsFront text off (content ∷ r.0, r.1)
IsFront-cons text content tail off r t (rest, e, l) = (
  rest,
  t ∙ ap (◌++◌ content) e ∙ sym (append_assoc content (concat r.0) rest),
  omega (arith, l, length-append content (concat r.0)),
)

pub hand_out-skip :
    (room from end : ℕ) (c : Chunk) (cs : List Chunk)
    → c.offset + length c.content ≤ from
    → hand_out room from end (c ∷ cs) ≡ hand_out room from end cs
unfolding hand_out
hand_out-skip zero from end c cs h = ground arith
hand_out-skip (suc room) from end c cs h = ground arith

hand_out-full :
    (from end : ℕ) (c : Chunk) (cs : List Chunk)
    → from < c.offset + length c.content
    → hand_out 0 from end (c ∷ cs) ≡ ([], end)
unfolding hand_out
hand_out-full from end c cs h = ground arith

pub hand_out-take :
    (room from end : ℕ) (c : Chunk) (cs : List Chunk)
    → from < c.offset + length c.content
    → hand_out (suc room) from end (c ∷ cs) ≡ (
      drop (from - c.offset) c.content ∷ (hand_out room from (c.offset + length c.content) cs).0,
      (hand_out room from (c.offset + length c.content) cs).1,
    )
unfolding hand_out
hand_out-take room from end c cs h = elim (Bool-cases (ltb c.offset from)) [
  | inl l ↦ ground arith
  | inr l ↦ ground (arith)
]

-- Chunks behind the offset are handed out whole.
hand_out-later :
    (cs : List Chunk) (room from off : ℕ) (text : Bytes)
    → from ≤ off
    → Covers off text cs
    → IsFront text off (hand_out room from off cs)
hand_out-later [] room from off text l c = unfold hand_out in (text, refl, omega arith)
hand_out-later (c ∷ cs) zero from off text l (tail, o, n, t, k) =
    rw (hand_out-full from off c cs (omega arith)) (text, refl, omega arith)
hand_out-later (c ∷ cs) (suc room) from off text l (tail, o, n, t, k) =
    let none_skipped : from - c.offset ≡ 0 = omega arith in
    let end_eq : c.offset + length c.content ≡ off + length c.content = omega arith in
    rw (hand_out-take room from off c cs (omega arith), none_skipped, end_eq)
      (IsFront-cons text c.content tail off (hand_out room from (off + length c.content) cs) t
        (hand_out-later cs room from (off + length c.content) tail (omega arith) k))

hand_out-inside :
    (room from off : ℕ) (text : Bytes) (c : Chunk) (cs : List Chunk) (tail : Bytes)
    → off ≤ from
    → from < off + length c.content
    → c.offset ≡ off
    → text ≡ c.content ++ tail
    → Covers (off + length c.content) tail cs
    → IsFront (drop (from - off) text) from (hand_out room from from (c ∷ cs))
hand_out-inside zero from off text c cs tail l m o t k =
    rw (hand_out-full from from c cs (omega arith)) (drop (from - off) text, refl, omega arith)
hand_out-inside (suc room) from off text c cs tail l m o t k =
    let skip : from - c.offset ≡ from - off = omega arith in
    let end_eq : c.offset + length c.content ≡ from + length (drop (from - off) c.content) =
      omega (arith, length-drop (from - off) c.content) in
    let end_off : from + length (drop (from - off) c.content) ≡ off + length c.content =
      omega arith in
    rw (hand_out-take room from from c cs (omega arith), skip, end_eq)
      (IsFront-cons (drop (from - off) text) (drop (from - off) c.content) tail from
        (hand_out room from (from + length (drop (from - off) c.content)) cs)
        (ap (drop (from - off)) t ∙ drop-append_le (from - off) c.content tail (omega arith))
        (hand_out-later cs room from (from + length (drop (from - off) c.content)) tail
          (omega arith) (rw end_off k)))

-- From an offset inside the text on.
pub hand_out-first :
    (cs : List Chunk) (room from off : ℕ) (text : Bytes)
    → off ≤ from
    → from ≤ off + length text
    → Covers off text cs
    → IsFront (drop (from - off) text) from (hand_out room from from cs)
hand_out-first [] room from off text l m c =
    unfold hand_out in (drop (from - off) text, refl, omega arith)
hand_out-first (c ∷ cs) room from off text l m (tail, o, n, t, k) =
    elim (dec_le (off + length c.content) from) [
      | yes past ↦
          let d : from - off ≡ length c.content + (from - (off + length c.content)) = omega arith in
          rw (hand_out-skip room from from c cs (omega arith), t, d, drop-append_add)
            (hand_out-first cs room from (off + length c.content) tail past
              (omega (arith, ap (λ (x : Bytes). length x) t, length-append c.content tail)) k)
      | no inside ↦ hand_out-inside room from off text c cs tail l (omega arith) o t k
    ]

-- The queued part of the body: in ZeroCopy mode its end is the caller's buffer, in Staged mode the
-- chunks cover it from an acknowledged offset on.
pub record Carries (body : Bytes) (s : Outgoing) : Type 0 where
  pub total : length body ≡ s.tx_queued
  pub lent :
      s.write_mode ≡ zero_copy
      → s.write_active ≡ true
      → (lead : Bytes) × (body ≡ lead ++ s.write_source) × (length lead ≡ s.write_base)
  pub copied :
      s.write_mode ≡ staged
      → (lead text : Bytes) × (body ≡ lead ++ text)
        × (length lead ≤ s.tx_acked)
        × Covers (length lead) text s.chunks
