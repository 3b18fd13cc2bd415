-- ===== src/H2/Stream/Frames.antt =====
-- The frames of a whole outgoing body of src/h2/stream.cpp.
use anyhttp.Prelude.{
  ℕ, ◌+◌, ◌≡◌, refl, sym, ap, ◌∙◌, inl, inr, ◌⊎◌, Bool, true, false, not, ◌&&◌, ◌||◌, List, [], ◌∷◌,
  ◌++◌, Bytes, is_empty, All, arith, append_assoc, append-nil, Bool-cases, subst,
}
use anyhttp.H2.State.{Outgoing}
use anyhttp.H2.Stream.Writing.{cancel_write}
use anyhttp.H2.Stream.Counting.{total, total-append}
use anyhttp.H2.Stream.Sending.{
  IsSending, async_write-IsSending, producer_callback-IsSending, Step, writes, cancels, pulls, step,
  steps, MayStep, InTurn,
}
use anyhttp.H2.Stream.SentBody.{pending, bytes_of, body_by, write_by, written, waiting, fins, told}
use anyhttp.H2.Stream.SentStep.{StaysWhole, step-Sends}

step-IsSending : (x : Step) (o : Outgoing) → IsSending o → IsSending (step o x).output
unfolding step
step-IsSending (writes w) o h = async_write-IsSending false o w h
step-IsSending cancels o h =
    unfold cancel_write in
    record { awake = inr refl; to_send = inl refl; over = ground (arith, h.over) }
step-IsSending (pulls n next) o h = producer_callback-IsSending false o n next h

-- What the writes of a sequence of steps add to the body, and how many writes there are.
abbrev pub body : Outgoing → List Step → Bytes
body o [] = []
body o (x ∷ xs) = body_by o x ++ body (step o x).output xs

abbrev pub write_count : Outgoing → List Step → ℕ
write_count o [] = 0
write_count o (x ∷ xs) = write_by o x + write_count (step o x).output xs

bytes_of-append : (fs gs : List (Bytes × Bool)) → bytes_of (fs ++ gs) ≡ bytes_of fs ++ bytes_of gs
bytes_of-append [] gs = refl
bytes_of-append ((bytes, fin) ∷ fs) gs =
    ap (◌++◌ bytes) (bytes_of-append fs gs) ∙ sym (append_assoc bytes (bytes_of fs) (bytes_of gs))

-- The frames carry the body: over any sequence of writes and frames asked for, without a
-- cancellation, in which nghttp2 asks for no frame of a stream that is deferred or ended and one
-- write is in progress at a time, the bytes of the frames, followed by what the waiting write has
-- left, are what was left before followed by the bytes of the writes, those of a write behind the
-- end of the body excepted.
pub steps-InOrder :
    (xs : List Step) (o : Outgoing)
    → IsSending o
    → InTurn o xs
    → All StaysWhole xs
    → bytes_of (steps o xs).frames ++ pending (steps o xs).output ≡ pending o ++ body o xs
unfolding steps
steps-InOrder [] o h t w = sym (append-nil (pending o))
steps-InOrder (x ∷ xs) o h t w =
    let p = step o x in
    let q = steps p.output xs in
    let first = (step-Sends x o h t.0).1 w.0 in
    let rest = steps-InOrder xs p.output (step-IsSending x o h) t.1 w.1 in
    ap (λ b. b ++ pending q.output) (bytes_of-append p.frames q.frames)
    ∙ append_assoc (bytes_of p.frames) (bytes_of q.frames) (pending q.output)
    ∙ ap (◌++◌ (bytes_of p.frames)) rest
    ∙ sym (append_assoc (bytes_of p.frames) (pending p.output) (body p.output xs))
    ∙ ap (λ b. b ++ body p.output xs) first
    ∙ append_assoc (pending o) (body_by o x) (body p.output xs)

-- Every write is answered exactly once or still waits: over any sequence of writes, cancellations
-- and frames asked for, in which nghttp2 asks for no frame of a stream that is deferred or ended and
-- one write is in progress at a time, the answers and the write that waits at the end, if one does,
-- are as many as the write that waited at the start and the writes; and again none waits while the
-- stream is deferred, without anything to send, or behind the end that nghttp2 knows of.
pub steps_answer :
    (xs : List Step) (o : Outgoing)
    → IsSending o
    → InTurn o xs
    → (total written (steps o xs).events + waiting (steps o xs).output
        ≡ waiting o + write_count o xs)
      × IsSending (steps o xs).output
unfolding steps
steps_answer [] o h t = (omega arith, h)
steps_answer (x ∷ xs) o h t =
    let p = step o x in
    let q = steps p.output xs in
    let first = (step-Sends x o h t.0).0 in
    let rest = steps_answer xs p.output (step-IsSending x o h) t.1 in
    (omega (arith, first.answered, rest.0, total-append written p.events q.events), rest.1)

-- Only the last frame may have the flag.
abbrev pub ends_last : List (Bytes × Bool) → Bool
ends_last [] = true
ends_last ((bytes, fin) ∷ fs) = (not fin || is_empty fs) && ends_last fs

told_stays :
    (x : Step) (o : Outgoing)
    → IsSending o
    → MayStep o x
    → (o.eof_submitted ≡ true)
    → ((step o x).output.eof_submitted ≡ true) × ((step o x).frames ≡ [])
told_stays x o h m e =
    let s = (step-Sends x o h m).0 in (ground (arith, s.ended), ground (arith, s.quiet))

steps_quiet :
    (xs : List Step) (o : Outgoing)
    → IsSending o
    → InTurn o xs
    → (o.eof_submitted ≡ true)
    → (steps o xs).frames ≡ []
unfolding steps
steps_quiet [] o h t e = refl
steps_quiet (x ∷ xs) o h t e =
    let (stays, none_sent) = told_stays x o h t.0 e in
    rw (none_sent, steps_quiet xs (step o x).output (step-IsSending x o h) t.1 stays) refl

fins-append : (fs gs : List (Bytes × Bool)) → fins (fs ++ gs) ≡ fins fs + fins gs
fins-append [] gs = omega arith
fins-append ((bytes, fin) ∷ fs) gs = omega (arith, fins-append fs gs)

ends_last-append :
    (fs gs : List (Bytes × Bool)) (f : Bytes × Bool)
    → fs ≡ f ∷ []
    → (f.1 ≡ false) ⊎ (gs ≡ [])
    → ends_last gs ≡ true
    → ends_last (fs ++ gs) ≡ true
ends_last-append fs gs f e (inl n) h = rw (e, n, h) refl
ends_last-append fs gs f e (inr n) h = rw (e, n) (closed_by f.1)
  where
    closed_by : (fin : Bool) → ((not fin || true) && true) ≡ true
    closed_by true = refl
    closed_by false = refl

-- The end of the body is sent once, and last: over any sequence of writes, cancellations and frames
-- asked for, in which nghttp2 asks for no frame of a stream that is deferred or ended and one write
-- is in progress at a time, the frames that carry the end are as many as there are ends that nghttp2
-- has been told of since the start, and no frame follows one that carries the end.
pub steps_end :
    (xs : List Step) (o : Outgoing)
    → IsSending o
    → InTurn o xs
    → (fins (steps o xs).frames + told o ≡ told (steps o xs).output)
      × (ends_last (steps o xs).frames ≡ true)
unfolding steps
steps_end [] o h t = (omega arith, refl)
steps_end (x ∷ xs) o h t =
    let p = step o x in
    let q = steps p.output xs in
    let first = (step-Sends x o h t.0).0 in
    let sending = step-IsSending x o h in
    let rest = steps_end xs p.output sending t.1 in
    (
      omega (arith, first.ended, rest.0, fins-append p.frames q.frames),
      elim first.single [
        | inl none_sent ↦ rw none_sent rest.1
        | inr (f, one) ↦
            ends_last-append p.frames q.frames f one
              (elim (Bool-cases f.1) [
                | inl fin ↦ inr (steps_quiet xs p.output sending t.1 (ended f one fin first.ended))
                | inr more ↦ inl more
              ])
              rest.1
      ],
    )
  where
    ended :
        (f : Bytes × Bool)
        → (step o x).frames ≡ f ∷ []
        → f.1 ≡ true
        → fins (step o x).frames + told o ≡ told (step o x).output
        → (step o x).output.eof_submitted ≡ true
    ended f one fin e = known (subst (λ fs. fins fs + told o ≡ told (step o x).output) one e) fin
      where
        known :
            (fins (f ∷ []) + told o ≡ told (step o x).output)
            → f.1 ≡ true
            → (step o x).output.eof_submitted ≡ true
        known k fin = ground arith
