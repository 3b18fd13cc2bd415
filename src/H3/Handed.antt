-- ===== src/H3/Handed.antt =====
-- What src/h3/stream.cpp hands to nghttp3 is the body.
use anyhttp.Prelude.{
  sym, ℕ, ◌+◌, ◌≤◌, ◌<◌, ◌≡◌, refl, ap, ◌∙◌, inl, ◌⊎◌, Bool, true, false, not, ◌&&◌, List, [], ◌∷◌,
  ◌++◌, Bytes, length, length-append, drop, ◌==◌, ltb, min, max, arith, if_both, u64_mod, add64,
  sub64,
}
use anyhttp.Queue.{concat}
use anyhttp.Quic.Stream.State.{Outgoing, WriteMode}
use anyhttp.Quic.Stream.Output.{
  pending_data, carve, on_offered, on_sent, on_acked, finish_active_write, Offer, Effect,
}
use anyhttp.Quic.Stream.Outbound.{Reach, asked, offered, sent, acked, onward}
use anyhttp.Quic.Stream.Reachable.{
  pending_data-body, Reach-ordered, pending_data-fits, pending_data-exhausts,
}
use anyhttp.Quic.Stream.Exhausting.{is_due}
use anyhttp.H3.Body.{
  Taken, taken, would_block, Reading, end_of, hand_over, data_reader, on_write_acked,
  on_write_offered,
}

abbrev pub bytes_of : Taken → Bytes
bytes_of would_block = []
bytes_of (taken vec fin) = concat vec

abbrev pub fin_of : Taken → Bool
fin_of would_block = false
fin_of (taken vec fin) = fin

-- nghttp3 counts as the stream does: every operation is one of the QUIC stream below, or two.
data_reader-Reach :
    {mode : WriteMode} {s : Outgoing} {body : Bytes} (veccnt : ℕ)
    → Reach mode (s, body)
    → Reach mode ((data_reader s veccnt).stream, body)
unfolding data_reader hand_over
data_reader-Reach {mode} {s} {body} veccnt r =
    let p = pending_data s s.tx_offered veccnt in
    let q = onward r (asked s.tx_offered veccnt) in
    if_both (λ (t : Reading). Reach mode (t.stream, body)) (veccnt == 0) (λ _. r)
      (λ _.
        if_both (λ (t : Reading). Reach mode (t.stream, body)) (length p.vec == 0 && not p.fin)
          (λ _. q) (λ _. onward q (offered (end_of s.tx_offered p.vec) p.fin)))

end_of_lem :
    (from : ℕ) (vec : List Bytes)
    → from + length (concat vec) < u64_mod
    → end_of from vec ≡ from + length (concat vec)
end_of_lem from [] h = omega arith
end_of_lem from (v ∷ vec) h =
    let sizes = length-append v (concat vec) in
    let here : add64 from (length v) ≡ from + length v = omega (arith, sizes) in
    rw here (omega (arith, sizes, end_of_lem (from + length v) vec (omega (arith, sizes))))

pending_data-same :
    (s : Outgoing) (from room : ℕ) → (pending_data s from room).stream.tx_offered ≡ s.tx_offered
unfolding pending_data carve
pending_data-same s from room = ground arith

on_offered_lem :
    (s : Outgoing) (end : ℕ) (fin : Bool)
    → (on_offered s end fin).0.tx_offered ≡ max s.tx_offered (min end s.tx_queued)
unfolding on_offered finish_active_write
on_offered_lem s end fin = ground arith

empty_concat : (vec : List Bytes) → length vec ≡ 0 → concat vec ≡ []
empty_concat [] e = refl
empty_concat (v ∷ vec) e = absurd (omega arith)

-- What nghttp3 is handed is the next part of the body, and it is counted as handed over. With room for
-- an entry, nothing is held back: nothing is handed over only when all that is queued has been, and no
-- chunk is due. The end comes with the last part of a write that ends the body, and only then.
pub record Hands (mode : WriteMode) (s : Outgoing) (body : Bytes) (veccnt : ℕ) (r : Reading)
    : Type 0 where
  pub next :
      (rest : Bytes) × (drop s.tx_offered body ≡ bytes_of r.result ++ rest)
      × ((fin_of r.result ≡ false) ⊎ ((s.write_is_eof ≡ true) × (rest ≡ [])))
  pub ends :
      0 < veccnt
      → s.write_active ≡ true
      → s.write_is_eof ≡ true
      → length (drop s.tx_offered body) ≡ length (bytes_of r.result)
      → fin_of r.result ≡ true
  pub holds_nothing :
      0 < veccnt
      → length (bytes_of r.result) ≡ 0
      → (s.tx_queued ≡ s.tx_offered) × (is_due s ≡ false)
  pub counted : r.stream.tx_offered ≡ s.tx_offered + length (bytes_of r.result)
  pub continues : Reach mode (r.stream, body)

hand_over-Hands :
    {mode : WriteMode} {s : Outgoing} {body : Bytes} (veccnt : ℕ) (p : Offer)
    → Reach mode (p.stream, body)
    → p.stream.tx_offered ≡ s.tx_offered
    → s.tx_offered + length (concat p.vec) ≤ p.stream.tx_queued
    → (rest : Bytes) × (drop s.tx_offered body ≡ concat p.vec ++ rest)
      × ((p.fin ≡ false) ⊎ ((s.write_is_eof ≡ true) × (rest ≡ [])))
    → (length (concat p.vec) ≡ 0 → (s.tx_queued ≡ s.tx_offered) × (is_due s ≡ false))
      × (s.write_active ≡ true
          → s.write_is_eof ≡ true
          → length (drop s.tx_offered body) ≡ length (concat p.vec)
          → p.fin ≡ true)
    → Hands mode s body veccnt (hand_over s.tx_offered p)
unfolding hand_over
hand_over-Hands {mode} {s} {body} veccnt p q same fits front whole =
    if_both (λ (t : Reading). Hands mode s body veccnt t) (length p.vec == 0 && not p.fin)
      (λ e.
        let empty = empty_concat p.vec (ground arith) in
        record {
          next = (front.0, front.1 ∙ ap (λ t. t ++ front.0) empty, inl refl);
          ends = λ _ active eof all.
              absurd
                (silent e (whole.1 active eof (all ∙ ap (λ (x : Bytes). length x) (sym empty))));
          holds_nothing = λ _ _. whole.0 (ap (λ (x : Bytes). length x) empty);
          counted = omega arith;
          continues = q;
        })
      (λ _. record {
        next = front;
        ends = λ _ active eof all. whole.1 active eof all;
        holds_nothing = λ _ none. whole.0 none;
        counted =
            on_offered_lem p.stream (end_of s.tx_offered p.vec) p.fin
            ∙ omega (
              arith,
              same,
              fits,
              end_of_lem s.tx_offered p.vec (omega (arith, fits, (Reach-ordered q).3)),
            );
        continues = onward q (offered (end_of s.tx_offered p.vec) p.fin);
      })
  where
    silent : length p.vec == 0 && not p.fin ≡ true → p.fin ≡ true → ⊥
    silent e f = ground arith

-- After any steps of the stream, what a live HTTP/3 stream hands to nghttp3 is the part of the
-- submitted body that comes next: it starts where the last one ended, which is counted, and nothing is
-- handed over twice or left out. With room for an entry, nothing is handed over only when all that is
-- queued has been and no chunk of a Staged write is due; and the end of the body is told with the last
-- bytes of a write that ends it, and never otherwise. The stream that results is one of those that the
-- steps lead to.
pub data_reader-Hands :
    {mode : WriteMode} {s : Outgoing} {body : Bytes}
    → Reach mode (s, body)
    → (veccnt : ℕ) → s.closed ≡ false
    → s.write_aborted ≡ false
    → Hands mode s body veccnt (data_reader s veccnt)
unfolding data_reader
data_reader-Hands {mode} {s} {body} r veccnt c a =
    if_both (λ (t : Reading). Hands mode s body veccnt t) (veccnt == 0)
      (λ e. record {
        next = (drop s.tx_offered body, refl, inl refl);
        ends = λ p _ _ _. absurd (none_at_all e p);
        holds_nothing = λ p _. absurd (none_at_all e p);
        counted = omega arith;
        continues = r;
      })
      (λ e.
        let v = Reach-ordered r in
        let old : s.tx_acked ≤ s.tx_offered = omega (arith, v.0, v.1) in
        let some : 0 < veccnt = ground arith in
        hand_over-Hands veccnt (pending_data s s.tx_offered veccnt)
          (onward r (asked s.tx_offered veccnt)) (pending_data-same s s.tx_offered veccnt)
          (pending_data-fits r s.tx_offered veccnt c a old v.2)
          (pending_data-body r s.tx_offered veccnt c a some old v.2)
          (pending_data-exhausts r s.tx_offered veccnt c a some old v.2))
  where
    none_at_all : veccnt == 0 ≡ true → 0 < veccnt → ⊥
    none_at_all e p = ground arith

-- After any steps of the stream, the bytes that a packet takes, HTTP/3's own among them, are counted
-- as bytes of the body in packets, but never beyond what nghttp3 has been handed; and the stream that
-- results is one of those that the steps lead to.
pub on_write_offered-Counts :
    {mode : WriteMode} {s : Outgoing} {body : Bytes}
    → Reach mode (s, body)
    → (n : ℕ)
    → ((on_write_offered s n).0.tx_sent ≡ min (s.tx_sent + n) s.tx_offered)
      × Reach mode ((on_write_offered s n).0, body)
unfolding on_write_offered on_sent finish_active_write
on_write_offered-Counts {mode} {s} {body} r n = (
  ground (arith, Reach-ordered r),
  if_both (λ (t : Effect). Reach mode (t.0, body)) (ltb 0 n)
      (λ _. onward r (sent (add64 s.tx_sent (min n (sub64 s.tx_offered s.tx_sent))))) (λ _. r),
)

-- An acknowledgement of bytes of the body is counted whole.
pub on_write_acked-Counts :
    {mode : WriteMode} {s : Outgoing} {body : Bytes}
    → Reach mode (s, body)
    → (n : ℕ) → s.tx_acked + n ≤ s.tx_sent
    → ((on_write_acked s n).0.tx_acked ≡ s.tx_acked + n) × Reach mode ((on_write_acked s n).0, body)
unfolding on_write_acked on_acked finish_active_write
on_write_acked-Counts {mode} {s} {body} r n h = (
  ground (arith, Reach-ordered r, h),
  if_both (λ (t : Effect). Reach mode (t.0, body)) (ltb 0 n)
      (λ _. onward r (acked (add64 s.tx_acked n) (omega (arith, Reach-ordered r, h)))) (λ _. r),
)
