-- ===== src/Quic/Stream/Changes.antt =====
-- What keeps hold of the outgoing body, and what lets go of it: src/quic/stream.cpp.
use anyhttp.Prelude.{
  ℕ, zero, suc, ◌+◌, ◌≤◌, ◌≡◌, refl, sym, ap, ◌∙◌, inl, inr, true, false, ◌&&◌, none, [], ◌∷◌, ◌++◌,
  Bytes, length, length-append, length-take, take, drop, arith, Bool-cases, append_assoc,
  append-nil,
}
use anyhttp.Quic.Stream.State.{Outgoing, zero_copy, staged, is_staged}
use anyhttp.Quic.Stream.Output.{drop_acked}
use anyhttp.Quic.Stream.Sends.{take-whole}
use anyhttp.Quic.Stream.Body.{uncarved, Holds, drop-empty, never, drop_acked-Covers}

-- Nothing but the queue changes.
pub Holds-stays :
    {whole : Bytes} {s t : Outgoing}
    → t.write_mode ≡ s.write_mode
    → t.write_active ≡ s.write_active
    → t.write_source ≡ s.write_source
    → t.write_base ≡ s.write_base
    → t.write_copied ≡ s.write_copied
    → t.tx_queued ≡ s.tx_queued
    → t.chunks ≡ s.chunks
    → s.tx_acked ≤ t.tx_acked
    → Holds whole s
    → Holds whole t
Holds-stays m a r b c q k l (body, h, w) = (
  body,
  record {
    total = omega (arith, h.total, q);
    lent = λ x y.
        let (lead, split, count) = h.lent (sym m ∙ x) (sym a ∙ y) in
        (lead, split ∙ ap (◌++◌ lead) (sym r), count ∙ sym b);
    copied = λ x.
        let (lead, text, split, old, cover) = h.copied (sym m ∙ x) in
        (lead, text, split, omega arith, rw k cover);
  },
  rw (m, a, r, c) w,
)

drop-all : (n : ℕ) (text : Bytes) → length text ≤ n → drop n text ≡ []
drop-all n [] h = drop-empty n
drop-all zero (c ∷ text) h = absurd (omega arith)
drop-all (suc n) (c ∷ text) h = drop-all n text (omega arith)

pub all_copied-uncarved : (s : Outgoing) → length s.write_source ≤ s.write_copied → uncarved s ≡ []
all_copied-uncarved s h = elim (Bool-cases (is_staged s.write_mode && s.write_active)) [
  | inl e ↦ rw e (drop-all s.write_copied s.write_source h)
  | inr e ↦ rw e refl
]

pub zero_copy-uncarved : (s : Outgoing) → s.write_mode ≡ zero_copy → uncarved s ≡ []
zero_copy-uncarved s m = rw m refl

pub idle-uncarved : (s : Outgoing) → s.write_active ≡ false → uncarved s ≡ []
idle-uncarved s a = rw a (sym (never (is_staged s.write_mode) (drop s.write_copied s.write_source)))

pub Holds-finish :
    {whole : Bytes} {s : Outgoing}
    → uncarved s ≡ []
    → Holds whole s
    → Holds whole (record s { write_source = []; write_handler = none; write_active = false })
Holds-finish {s} e (body, h, w) = (
  body,
  record { total = h.total; lent = λ x y. absurd cc; copied = h.copied },
  w ∙ ap (◌++◌ body) e ∙ ap (◌++◌ body) (never (is_staged s.write_mode) (drop s.write_copied [])),
)

pub Holds-acked :
    {whole : Bytes} {s : Outgoing} (acked : ℕ)
    → s.tx_acked ≤ acked
    → Holds whole s
    → Holds whole (record s { tx_acked = acked; chunks = drop_acked acked s.chunks })
Holds-acked {s} acked l (body, h, w) = (
  body,
  record {
    total = h.total;
    lent = h.lent;
    copied = λ x.
        let (lead, text, split, old, cover) = h.copied x in
        let (more, rest, split', old', cover') =
          drop_acked-Covers s.chunks acked (length lead) text (omega arith) cover in
        (
          lead ++ more,
          rest,
          split ∙ ap (◌++◌ lead) split' ∙ sym (append_assoc lead more rest),
          omega (arith, old', length-append lead more),
          rw (length-append lead more) cover',
        );
  },
  w,
)

take-append_le : (n : ℕ) (s t : Bytes) → n ≤ length s → take n (s ++ t) ≡ take n s
take-append_le zero s t h = refl
take-append_le (suc n) [] t h = absurd (omega arith)
take-append_le (suc n) (c ∷ s) t h = ap (◌∷◌ c) (take-append_le n s t (omega arith))

-- A write that is taken back, with what was not handed over of it.
pub Holds-taken_back :
    {whole : Bytes} {s t : Outgoing}
    → t.write_mode ≡ s.write_mode
    → t.write_active ≡ false
    → t.tx_queued ≤ s.tx_queued
    → (s.write_mode ≡ staged → t.tx_queued ≡ s.tx_queued)
    → t.chunks ≡ s.chunks
    → s.tx_acked ≤ t.tx_acked
    → Holds whole s
    → Holds (take t.tx_queued whole) t
Holds-taken_back {whole} {s} {t} m a q same k l (body, h, w) = (
  take t.tx_queued body,
  record {
    total = omega (arith, length-take t.tx_queued body, h.total);
    lent = λ x y. absurd cc;
    copied = λ x.
        let staged_before = sym m ∙ x in
        let all : take t.tx_queued body ≡ body =
          take-whole t.tx_queued body (omega (arith, h.total, same staged_before)) in
        let (lead, text, split, old, cover) = h.copied staged_before in
        (lead, text, all ∙ split, omega arith, rw k cover);
  },
  ap (take t.tx_queued) w
      ∙ take-append_le t.tx_queued body (uncarved s) (omega (arith, h.total))
      ∙ sym (append-nil (take t.tx_queued body))
      ∙ ap (◌++◌ (take t.tx_queued body)) (sym (idle-uncarved t a)),
)

-- A write of a stream that has none.
pub Holds-lent :
    {whole : Bytes} {s : Outgoing} (t : Outgoing) (buffer : Bytes)
    → s.write_active ≡ false
    → t.write_mode ≡ zero_copy
    → t.write_source ≡ buffer
    → t.write_base ≡ s.tx_queued
    → t.tx_queued ≡ s.tx_queued + length buffer
    → Holds whole s
    → Holds (whole ++ buffer) t
Holds-lent {whole} {s} t buffer a m r b q (body, h, w) =
    let all : whole ≡ body = w ∙ ap (◌++◌ body) (idle-uncarved s a) ∙ append-nil body in
    (
      whole ++ buffer,
      record {
        total =
            omega (arith, length-append whole buffer, h.total, ap (λ (x : Bytes). length x) all);
        lent = λ x y. (
          whole,
          ap (◌++◌ whole) (sym r),
          omega (arith, b, h.total, ap (λ (x : Bytes). length x) all),
        );
        copied = λ x. absurd cc;
      },
      sym (append-nil (whole ++ buffer))
          ∙ ap (◌++◌ (whole ++ buffer)) (sym (zero_copy-uncarved t m)),
    )

pub Holds-to_copy :
    {whole : Bytes} {s : Outgoing} (t : Outgoing) (buffer : Bytes)
    → s.write_active ≡ false
    → s.write_mode ≡ staged
    → t.write_mode ≡ staged
    → t.write_active ≡ true
    → t.write_source ≡ buffer
    → t.write_copied ≡ 0
    → t.tx_queued ≡ s.tx_queued
    → t.tx_acked ≡ s.tx_acked
    → t.chunks ≡ s.chunks
    → Holds whole s
    → Holds (whole ++ buffer) t
Holds-to_copy {whole} {s} t buffer a m0 m a' r c q l k (body, h, w) =
    let all : whole ≡ body = w ∙ ap (◌++◌ body) (idle-uncarved s a) ∙ append-nil body in
    (
      body,
      record {
        total = omega (arith, h.total, q);
        lent = λ x y. absurd cc;
        copied = λ x.
            let (lead, text, split, old, cover) = h.copied m0 in
            (lead, text, split, omega arith, rw k cover);
      },
      ap (λ (b : Bytes). b ++ buffer) all ∙ ap (◌++◌ body) (rw (m, a', c) (sym r)),
    )

-- Once all is copied, all is queued.
pub Holds-all :
    {whole : Bytes} {s : Outgoing} → uncarved s ≡ [] → Holds whole s → length whole ≡ s.tx_queued
Holds-all e (body, h, w) =
    omega (arith, ap (λ (b : Bytes). length b) (w ∙ ap (◌++◌ body) e ∙ append-nil body), h.total)
