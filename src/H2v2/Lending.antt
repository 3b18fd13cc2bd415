-- ===== src/H2v2/Lending.antt =====
-- What nghttp2 may still read of a caller's buffer, src/h2v2/stream.cpp.
use anyhttp.Prelude.{
  ℕ, ◌+◌, ◌-◌, ◌≤◌, ◌≡◌, refl, inl, inr, ◌⊎◌, Bool, true, false, not, ◌&&◌, ◌||◌, Option, none,
  some, List, [], ◌∷◌, ◌++◌, Bytes, length, ltb, ◌==◌, if◌then◌else◌, arith, if_both,
}
use anyhttp.Quic.Stream.State.{is_zero_copy, is_staged}
use anyhttp.H2.State.{Event}
use anyhttp.H2.Stream.Writing.{Write}
use anyhttp.H2v2.Writing.{
  Outgoing, async_write, cancel_write, respawn, complete, hand_over, is_last, handed, end_body,
  read_for, data_reader, framed_for, on_write_offset, blocks, Reading, Taken, taken, would_block,
  Effect,
}

-- How many bytes of the caller's buffer nghttp2 points at and has not framed.
abbrev pub lent : Outgoing → ℕ
lent o = if is_zero_copy o.write_mode then o.offered - o.written else 0

-- Nothing is lent when no write waits; what has been offered is part of the buffer; and a write that
-- waits with all of it offered is no end that nghttp2 does not know of.
pub record IsLending (o : Outgoing) : Type 0 where
  pub released : (lent o ≡ 0) ⊎ ((h : ℕ) × (o.write_handler ≡ some h))
  pub within : o.offered ≤ length o.write_buffer
  pub ended :
      (o.write_handler ≡ none)
      ⊎ (o.eof_requested ≡ false)
      ⊎ (o.eof_submitted ≡ true)
      ⊎ (ltb o.offered (length o.write_buffer) ≡ true)
      ⊎ (o.offered ≡ 0)

async_write-IsLending :
    (closed : Bool) (o : Outgoing) (w : Write) → IsLending o → IsLending (async_write closed o w).0
unfolding async_write
async_write-IsLending closed o w h = record {
  released = ground arith;
  within = ground arith;
  ended = ground arith;
}

cancel_write-IsLending :
    (closed : Bool) (o : Outgoing)
    → closed ≡ false
    → IsLending o
    → IsLending (cancel_write closed o).0
unfolding cancel_write
cancel_write-IsLending closed o c h = record {
  released = ground arith;
  within = ground arith;
  ended = ground arith;
}

-- A completion releases the buffer, so nothing of it may be lent any more.
complete-IsLending :
    (o : Outgoing) (handler : ℕ) (next : Option Write)
    → lent o ≡ 0
    → o.offered ≤ length o.write_buffer
    → IsLending (complete o handler next).0
unfolding complete respawn
complete-IsLending o handler none r w = record { released = inl r; within = w; ended = inl refl }
complete-IsLending o handler (some x) r w =
    async_write-IsLending false (record o { write_handler = none }) x
      (record { released = inl r; within = w; ended = inl refl })

blocks-IsLending : (o : Outgoing) → IsLending o → IsLending (blocks o).output
blocks-IsLending o h = record { released = h.released; within = h.within; ended = h.ended }

end_body-IsLending :
    (o : Outgoing) (handler : ℕ) (next : Option Write)
    → o.write_handler ≡ some handler
    → (length o.write_buffer - o.offered ≡ 0)
    → IsLending o
    → IsLending (end_body o handler next).output
unfolding end_body
end_body-IsLending o handler next e z h =
    if_both (λ (r : Reading). IsLending r.output) (not o.eof_requested || o.eof_submitted)
      (λ _. blocks-IsLending o h)
      (λ k.
        complete-IsLending (record o { eof_submitted = true }) handler next
          (ground (arith, h.ended, h.within, e)) h.within)

hand_over-IsLending :
    (o : Outgoing) (handler : ℕ) (next : Option Write)
    → o.write_handler ≡ some handler
    → IsLending o
    → IsLending (hand_over o handler next).output
unfolding hand_over
hand_over-IsLending o handler next e h =
    if_both (λ (r : Reading). IsLending r.output) (is_last o && is_staged o.write_mode)
      (λ k. complete-IsLending (handed o) handler next (staged_lent k) room)
      (λ k. record { released = inr (handler, e); within = room; ended = last k })
  where
    staged_lent : (is_last o && is_staged o.write_mode) ≡ true → lent (handed o) ≡ 0
    staged_lent k = ground arith

    room : (handed o).offered ≤ length o.write_buffer
    room = ground (arith, h.within)

    last :
        (is_last o && is_staged o.write_mode) ≡ false
        → ((handed o).write_handler ≡ none)
          ⊎ ((handed o).eof_requested ≡ false)
          ⊎ ((handed o).eof_submitted ≡ true)
          ⊎ (ltb (handed o).offered (length o.write_buffer) ≡ true)
          ⊎ ((handed o).offered ≡ 0)
    last k = ground (arith, room)

read_for-IsLending :
    (o : Outgoing) (has_room : Bool) (next : Option Write) (m : Option ℕ)
    → o.write_handler ≡ m
    → IsLending o
    → IsLending (read_for o has_room next m).output
unfolding read_for
read_for-IsLending o has_room next none e h =
    if_both (λ (r : Reading). IsLending r.output) o.eof_submitted (λ _. h)
      (λ _. blocks-IsLending o h)
read_for-IsLending o has_room next (some handler) e h =
    if_both (λ (r : Reading). IsLending r.output) (length o.write_buffer - o.offered == 0)
      (λ z. end_body-IsLending o handler next e (ground arith) h)
      (λ _.
        if_both (λ (r : Reading). IsLending r.output) (not has_room) (λ _. blocks-IsLending o h)
          (λ _. hand_over-IsLending o handler next e h))

framed_for-IsLending :
    (o : Outgoing) (next : Option Write) (m : Option ℕ)
    → o.write_handler ≡ m
    → is_zero_copy o.write_mode ≡ true
    → IsLending o
    → IsLending (framed_for o next m).0
unfolding framed_for
framed_for-IsLending o next none e z h = h
framed_for-IsLending o next (some handler) e z h =
    if_both (λ (t : Effect). IsLending t.0) (ltb o.written (length o.write_buffer)) (λ _. h)
      (λ k. complete-IsLending o handler next (ground (arith, h.within)) h.within)

on_write_offset-IsLending :
    (o : Outgoing) (len : ℕ) (next : Option Write)
    → IsLending o
    → IsLending (on_write_offset o len next).0
unfolding on_write_offset
on_write_offset-IsLending o len next h =
    if_both (λ (t : Effect). IsLending t.0) (is_zero_copy o.write_mode)
      (λ z.
        framed_for-IsLending (record o { written = o.written + len }) next o.write_handler refl z
          (record { released = ground (arith, h.released); within = h.within; ended = h.ended }))
      (λ _. h)

-- One thing that happens to the writing side of a stream that is open: a call by the caller or by
-- nghttp2, and the write that a completion in it sets off.
pub data Step : Type 0 where
  writes : Write → Step
  cancels : Step
  reads : Bool → Option Write → Step
  frames : ℕ → Option Write → Step

pub record Sent : Type 0 where
  pub output : Outgoing
  pub events : List Event
  pub slices : List (Bytes × Bool)

abbrev pub slices_of : Taken → List (Bytes × Bool)
slices_of (taken bytes fin) = (bytes, fin) ∷ []
slices_of would_block = []

unfoldable pub step : Outgoing → Step → Sent
step o (writes w) =
    let (p, events) = async_write false o w in record { output = p; events = events; slices = [] }
step o cancels =
    let (p, events) = cancel_write false o in record { output = p; events = events; slices = [] }
step o (reads has_room next) =
    let r = data_reader o has_room next in
    record { output = r.output; events = r.events; slices = slices_of r.result }
step o (frames len next) =
    let (p, events) = on_write_offset o len next in
    record { output = p; events = events; slices = [] }

unfoldable pub steps : Outgoing → List Step → Sent
steps o [] = record { output = o; events = []; slices = [] }
steps o (x ∷ xs) =
    let p = step o x in
    let q = steps p.output xs in
    record { output = q.output; events = p.events ++ q.events; slices = p.slices ++ q.slices }

pub step-IsLending : (x : Step) (o : Outgoing) → IsLending o → IsLending (step o x).output
unfolding step
step-IsLending (writes w) o h = async_write-IsLending false o w h
step-IsLending cancels o h = cancel_write-IsLending false o refl h
step-IsLending (reads has_room next) o h =
    unfold data_reader in read_for-IsLending o has_room next o.write_handler refl h
step-IsLending (frames len next) o h = on_write_offset-IsLending o len next h

-- nghttp2 refers to no caller's memory behind a completion: over any sequence of writes,
-- cancellations, offers and framed bytes on an open stream, from a stream that lends nothing unless
-- a write waits, it is again so that nghttp2 has framed all that it points at in a caller's buffer
-- unless a write waits, that no more than the buffer has been offered, and that no write waits whose
-- end nghttp2 has not been told with all of its bytes offered.
pub steps-IsLending : (xs : List Step) (o : Outgoing) → IsLending o → IsLending (steps o xs).output
unfolding steps
steps-IsLending [] o h = h
steps-IsLending (x ∷ xs) o h = steps-IsLending xs (step o x).output (step-IsLending x o h)
