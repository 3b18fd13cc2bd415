-- ===== src/H2v2/Offers.antt =====
-- The slices that src/h2v2/stream.cpp hands to nghttp2, and the writes they come from.
use anyhttp.Prelude.{
  ℕ, zero, suc, ◌+◌, ◌-◌, ◌≤◌, ◌≡◌, refl, sym, ap, ◌∙◌, inl, inr, ◌⊎◌, Bool, true, false, not, ◌&&◌,
  ◌||◌, Option, none, some, [], ◌∷◌, ◌++◌, Bytes, length, length-drop, is_empty, drop,
  take-append-drop, ◌==◌, if◌then◌else◌, arith, if_both, append-nil,
}
use anyhttp.Queue.{drop-nil}
use anyhttp.Quic.Stream.State.{is_staged}
use anyhttp.H2.Stream.Writing.{Write}
use anyhttp.H2v2.Writing.{
  Outgoing, async_write, respawn, complete, hand_over, is_last, handed, slice, offer_of, end_body,
  read_for, Reading,
}
use anyhttp.H2v2.Body.{to_offer, body_of, completed_by_reading, body_by, InOrder}
use anyhttp.H2v2.Lending.{reads, slices_of}

drop-zero : (s : Bytes) (n : ℕ) → n ≡ 0 → drop n s ≡ s
drop-zero s n e = rw e refl

-- To skip twice.
drop-drop : (m n : ℕ) (s : Bytes) → drop (m + n) s ≡ drop n (drop m s)
drop-drop zero n s = ap (λ k. drop k s) (omega arith)
drop-drop (suc m) n [] = drop-nil (suc m + n) ∙ sym (drop-nil n)
drop-drop (suc m) n (c ∷ s) = shifted (suc m + n) (omega arith) ∙ drop-drop m n s
  where
    shifted : (k : ℕ) → k ≡ suc (m + n) → drop k (c ∷ s) ≡ drop (m + n) s
    shifted k e = rw e refl

pub drop-all : (n : ℕ) (s : Bytes) → length s ≤ n → drop n s ≡ []
drop-all n s h = by_length (drop n s) (omega (arith, length-drop n s))
  where
    by_length : (t : Bytes) → length t ≡ 0 → t ≡ []
    by_length [] e = refl
    by_length (c ∷ t) e = absurd (omega arith)

is_empty-case : (s : Bytes) → (is_empty s ≡ false) ⊎ (s ≡ [])
is_empty-case [] = inr refl
is_empty-case (c ∷ s) = inl refl

pub async_write-to_offer :
    (o : Outgoing) (w : Write)
    → o.write_handler ≡ none
    → to_offer (async_write false o w).0 ≡ body_of o (some w)
unfolding async_write
async_write-to_offer o w n = elim (is_empty-case w.buffer) [
  | inl e ↦ ground arith
  | inr e ↦ ground arith
]

-- A completion leaves what the write that it sets off has to hand over.
pub complete-to_offer :
    (o : Outgoing) (handler : ℕ) (next : Option Write)
    → to_offer (complete o handler next).0 ≡ body_of o next
unfolding complete respawn
complete-to_offer o handler none = refl
complete-to_offer o handler (some w) =
    async_write-to_offer (record o { write_handler = none }) w refl

pub nothing_new : (o : Outgoing) → [] ++ to_offer o ≡ to_offer o ++ []
nothing_new o = sym (append-nil (to_offer o))

offered_whole :
    (o : Outgoing)
    → slice o ++ drop (handed o).offered o.write_buffer ≡ drop o.offered o.write_buffer
offered_whole o =
    ap (◌++◌ (slice o))
      (drop-drop o.offered (offer_of o (length o.write_buffer - o.offered)) o.write_buffer)
    ∙ take-append-drop (offer_of o (length o.write_buffer - o.offered))
        (drop o.offered o.write_buffer)

pub waiting-to_offer :
    (o : Outgoing) (handler : ℕ)
    → o.write_handler ≡ some handler
    → to_offer o ≡ drop o.offered o.write_buffer
waiting-to_offer o handler e = rw e refl

pub body_of-same :
    (o p : Outgoing) (next : Option Write)
    → p.eof_requested ≡ o.eof_requested
    → body_of p next ≡ body_of o next
body_of-same o p none e = refl
body_of-same o p (some w) e = rw e refl

reading_completes :
    (o : Outgoing) (handler : ℕ)
    → o.write_handler ≡ some handler
    → (length o.write_buffer - o.offered == 0) ≡ false
    → completed_by_reading o true ≡ (is_last o && is_staged o.write_mode)
reading_completes o handler e z = rw (e, z) refl

hand_over-InOrder :
    (o : Outgoing) (handler : ℕ) (next : Option Write)
    → o.write_handler ≡ some handler
    → (length o.write_buffer - o.offered == 0) ≡ false
    → InOrder o
        (body_by o (reads true next))
        (hand_over o handler next).output
        (slices_of (hand_over o handler next).result)
unfolding hand_over
hand_over-InOrder o handler next e z =
    if_both (λ (r : Reading). InOrder o (body_by o (reads true next)) r.output (slices_of r.result))
      (is_last o && is_staged o.write_mode)
      (λ k.
        ap (◌++◌ (slice o ++ []))
          (complete-to_offer (handed o) handler next ∙ body_of-same o (handed o) next refl)
        ∙ ap (λ b. (slice o ++ b) ++ body_of o next)
            (sym (drop-all (handed o).offered o.write_buffer (all k)))
        ∙ ap (λ b. b ++ body_of o next) (offered_whole o ∙ sym (waiting-to_offer o handler e))
        ∙ ap (◌++◌ (to_offer o)) (sym (chosen k)))
      (λ k.
        ap (λ b. b ++ to_offer (handed o)) (append-nil (slice o))
        ∙ ap (◌++◌ (slice o)) (waiting-to_offer (handed o) handler e)
        ∙ offered_whole o
        ∙ sym (waiting-to_offer o handler e)
        ∙ sym (append-nil (to_offer o))
        ∙ ap (◌++◌ (to_offer o)) (sym (unchosen k)))
  where
    all : (is_last o && is_staged o.write_mode) ≡ true → length o.write_buffer ≤ (handed o).offered
    all k = ground arith

    chosen :
        (is_last o && is_staged o.write_mode) ≡ true → body_by o (reads true next) ≡ body_of o next
    chosen k = rw (reading_completes o handler e z, k) refl

    unchosen : (is_last o && is_staged o.write_mode) ≡ false → body_by o (reads true next) ≡ []
    unchosen k = rw (reading_completes o handler e z, k) refl

end_body-InOrder :
    (o : Outgoing) (handler : ℕ) (has_room : Bool) (next : Option Write)
    → o.write_handler ≡ some handler
    → (length o.write_buffer - o.offered == 0) ≡ true
    → InOrder o
        (body_by o (reads has_room next))
        (end_body o handler next).output
        (slices_of (end_body o handler next).result)
unfolding end_body
end_body-InOrder o handler has_room next e z =
    if_both
      (λ (r : Reading). InOrder o (body_by o (reads has_room next)) r.output (slices_of r.result))
      (not o.eof_requested || o.eof_submitted)
      (λ k. nothing_new o ∙ ap (◌++◌ (to_offer o)) (sym (unchosen k)))
      (λ k.
        complete-to_offer (record o { eof_submitted = true }) handler next
        ∙ body_of-same o (record o { eof_submitted = true }) next refl
        ∙ sym (chosen k)
        ∙ ap (λ b. b ++ body_by o (reads has_room next)) (sym emptied))
  where
    emptied : to_offer o ≡ []
    emptied = waiting-to_offer o handler e ∙ drop-all o.offered o.write_buffer (ground arith)

    chosen :
        (not o.eof_requested || o.eof_submitted) ≡ false
        → body_by o (reads has_room next) ≡ body_of o next
    chosen k = ap (λ b. if b then body_of o next else []) flag
      where
        flag : completed_by_reading o has_room ≡ true
        flag = ground arith

    unchosen :
        (not o.eof_requested || o.eof_submitted) ≡ true → body_by o (reads has_room next) ≡ []
    unchosen k = ap (λ b. if b then body_of o next else []) flag
      where
        flag : completed_by_reading o has_room ≡ false
        flag = ground arith

pub read_for-InOrder :
    (o : Outgoing) (has_room : Bool) (next : Option Write) (m : Option ℕ)
    → o.write_handler ≡ m
    → InOrder o
        (body_by o (reads has_room next))
        (read_for o has_room next m).output
        (slices_of (read_for o has_room next m).result)
unfolding read_for
read_for-InOrder o has_room next none e =
    if_both
      (λ (r : Reading). InOrder o (body_by o (reads has_room next)) r.output (slices_of r.result))
      o.eof_submitted (λ _. nothing_new o ∙ ap (◌++◌ (to_offer o)) (sym unchosen))
      (λ _. nothing_new o ∙ ap (◌++◌ (to_offer o)) (sym unchosen))
  where
    unchosen : body_by o (reads has_room next) ≡ []
    unchosen = rw e refl
read_for-InOrder o has_room next (some handler) e =
    if_both
      (λ (r : Reading). InOrder o (body_by o (reads has_room next)) r.output (slices_of r.result))
      (length o.write_buffer - o.offered == 0) (λ z. end_body-InOrder o handler has_room next e z)
      (λ z.
        if_both
          (λ (r : Reading).
            InOrder o (body_by o (reads has_room next)) r.output (slices_of r.result))
          (not has_room) (λ k. nothing_new o ∙ ap (◌++◌ (to_offer o)) (sym (no_room z k)))
          (λ k. roomy (has_room) k z))
  where
    no_room :
        (length o.write_buffer - o.offered == 0) ≡ false
        → not has_room ≡ true
        → body_by o (reads has_room next) ≡ []
    no_room z k = ap (λ b. if b then body_of o next else []) flag
      where
        flag : completed_by_reading o has_room ≡ false
        flag = ground arith

    roomy :
        (r : Bool)
        → not r ≡ false
        → (length o.write_buffer - o.offered == 0) ≡ false
        → InOrder o
            (body_by o (reads r next))
            (hand_over o handler next).output
            (slices_of (hand_over o handler next).result)
    roomy true k z = hand_over-InOrder o handler next e z
    roomy false k z = absurd (ground arith)
