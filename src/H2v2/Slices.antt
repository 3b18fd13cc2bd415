-- ===== src/H2v2/Slices.antt =====
-- The outgoing body that src/h2v2/stream.cpp hands to nghttp2, over a stream's life.
use anyhttp.Prelude.{
  ℕ, ◌+◌, ◌≤◌, ◌≡◌, refl, sym, ap, ◌∙◌, Bool, true, false, Option, none, some, List, [], ◌∷◌, ◌++◌,
  Bytes, length, ltb, if◌then◌else◌, arith, if_both, append_assoc, append-nil,
}
use anyhttp.Quic.Stream.State.{is_zero_copy}
use anyhttp.H2.Stream.Writing.{Write}
use anyhttp.H2v2.Writing.{Outgoing, framed_for, on_write_offset, data_reader, Effect}
use anyhttp.H2v2.Lending.{Step, writes, cancels, reads, frames, step, steps}
use anyhttp.H2v2.Body.{
  to_offer, bytes_of, body_of, body_by, completed_by_framing, MayStep, InTurn, InOrder,
}
use anyhttp.H2v2.Offers.{
  nothing_new, read_for-InOrder, async_write-to_offer, complete-to_offer, waiting-to_offer,
  body_of-same, drop-all,
}

-- A write is complete when all of it has been framed, and then all of it had been offered.
framed_for-InOrder :
    (o : Outgoing) (len : ℕ) (next : Option Write) (m : Option ℕ)
    → o.write_handler ≡ m
    → is_zero_copy o.write_mode ≡ true
    → o.written + len ≤ o.offered
    → InOrder o
        (body_by o (frames len next))
        (framed_for (record o { written = o.written + len }) next m).0
        []
unfolding framed_for
framed_for-InOrder o len next none e z h =
    nothing_new o ∙ ap (◌++◌ (to_offer o)) (sym (unchosen next))
  where
    unchosen : (m : Option Write) → body_by o (frames len m) ≡ []
    unchosen m = rw e refl
framed_for-InOrder o len next (some handler) e z h =
    if_both (λ (t : Effect). InOrder o (body_by o (frames len next)) t.0 [])
      (ltb (o.written + len) (length o.write_buffer))
      (λ k. nothing_new o ∙ ap (◌++◌ (to_offer o)) (sym (unchosen k)))
      (λ k.
        complete-to_offer p handler next
        ∙ body_of-same o p next refl
        ∙ sym (chosen k)
        ∙ ap (λ b. b ++ body_by o (frames len next)) (sym (emptied k)))
  where
    p : Outgoing
    p = record o { written = o.written + len }

    emptied : ltb (o.written + len) (length o.write_buffer) ≡ false → to_offer o ≡ []
    emptied k = waiting-to_offer o handler e ∙ drop-all o.offered o.write_buffer (ground arith)

    chosen :
        ltb (o.written + len) (length o.write_buffer) ≡ false
        → body_by o (frames len next) ≡ body_of o next
    chosen k = rw (e, z, k) refl

    unchosen :
        ltb (o.written + len) (length o.write_buffer) ≡ true → body_by o (frames len next) ≡ []
    unchosen k = rw (e, z, k) refl

step-InOrder :
    (x : Step) (o : Outgoing)
    → MayStep o x
    → InOrder o (body_by o x) (step o x).output (step o x).slices
unfolding step
step-InOrder (writes w) o m =
    async_write-to_offer o w m ∙ ap (λ t. t ++ body_of o (some w)) (sym nothing)
  where
    nothing : to_offer o ≡ []
    nothing = rw m refl
step-InOrder cancels o m = absurd m
step-InOrder (reads has_room next) o m =
    unfold data_reader in read_for-InOrder o has_room next o.write_handler refl
step-InOrder (frames len next) o m =
    unfold on_write_offset in
    if_both (λ (t : Effect). InOrder o (body_by o (frames len next)) t.0 [])
      (is_zero_copy o.write_mode) (λ z. framed_for-InOrder o len next o.write_handler refl z m)
      (λ z. nothing_new o ∙ ap (◌++◌ (to_offer o)) (sym (unchosen z)))
  where
    unchosen : is_zero_copy o.write_mode ≡ false → body_by o (frames len next) ≡ []
    unchosen z = ap (λ b. if b then body_of o next else []) flag
      where
        flag : completed_by_framing o len ≡ false
        flag = ground arith

-- What the writes of a sequence of steps add to the body.
abbrev pub body : Outgoing → List Step → Bytes
body o [] = []
body o (x ∷ xs) = body_by o x ++ body (step o x).output xs

bytes_of-append : (fs gs : List (Bytes × Bool)) → bytes_of (fs ++ gs) ≡ bytes_of fs ++ bytes_of gs
bytes_of-append [] gs = refl
bytes_of-append ((bytes, fin) ∷ fs) gs =
    ap (◌++◌ bytes) (bytes_of-append fs gs) ∙ sym (append_assoc bytes (bytes_of fs) (bytes_of gs))

-- What nghttp2 is handed is the body, in either mode: over any sequence of writes, requests for data
-- and framed bytes, without a cancellation, in which one write is in progress at a time and nghttp2
-- frames no more than it was handed, the slices in order, followed by what the waiting write has not
-- handed over yet, are what was left before followed by the bytes of the writes, those of a write
-- behind the end of the body excepted.
pub slices-InOrder :
    (xs : List Step) (o : Outgoing)
    → InTurn o xs
    → bytes_of (steps o xs).slices ++ to_offer (steps o xs).output ≡ to_offer o ++ body o xs
unfolding steps
slices-InOrder [] o t = sym (append-nil (to_offer o))
slices-InOrder (x ∷ xs) o t =
    let p = step o x in
    let q = steps p.output xs in
    let first = step-InOrder x o t.0 in
    let rest = slices-InOrder xs p.output t.1 in
    ap (λ b. b ++ to_offer q.output) (bytes_of-append p.slices q.slices)
    ∙ append_assoc (bytes_of p.slices) (bytes_of q.slices) (to_offer q.output)
    ∙ ap (◌++◌ (bytes_of p.slices)) rest
    ∙ sym (append_assoc (bytes_of p.slices) (to_offer p.output) (body p.output xs))
    ∙ ap (λ b. b ++ body p.output xs) first
    ∙ append_assoc (to_offer o) (body_by o x) (body p.output xs)
