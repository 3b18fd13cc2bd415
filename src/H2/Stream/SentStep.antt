-- ===== src/H2/Stream/SentStep.antt =====
-- One step of the writing side of src/h2/stream.cpp.
use anyhttp.Prelude.{
  ℕ, ◌+◌, ◌≡◌, refl, sym, ap, ◌∙◌, inl, inr, ◌⊎◌, Bool, true, false, ◌||◌, Option, none, some, [],
  ◌∷◌, ◌++◌, Bytes, take, drop, take-append-drop, is_empty, if◌then◌else◌, arith, append-nil,
  if_both,
}
use anyhttp.Completion.{is_some, canceled, posted}
use anyhttp.Queue.{length-nil, drop-nil}
use anyhttp.H2.State.{Outgoing, done_writing}
use anyhttp.H2.Stream.Writing.{
  Write, async_write, cancel_write, Production, produce, producer_callback, defer_or_produce,
}
use anyhttp.H2.Stream.Counting.{total}
use anyhttp.H2.Stream.Sending.{
  IsSending, Step, writes, cancels, pulls, Sent, frames_of, step, MayStep,
}
use anyhttp.H2.Stream.SentBody.{
  pending, bytes_of, body_of, body_by, write_by, written, waiting, fins, told, respawned,
  respawn_writes, Completes, complete-Completes, async_write-pending, async_write-written,
  async_write-told,
}

-- What one step sends, answers and ends.
pub record Sends (o : Outgoing) (x : Step) (p : Sent) : Type 0 where
  pub answered : total written p.events + waiting p.output ≡ waiting o + write_by o x
  pub ended : fins p.frames + told o ≡ told p.output
  pub quiet : (o.eof_submitted ≡ false) ⊎ (p.frames ≡ [])
  pub single : (p.frames ≡ []) ⊎ ((f : Bytes × Bool) × (p.frames ≡ f ∷ []))

abbrev pub sent_by : Production → Sent
sent_by p = record { output = p.output; events = p.events; frames = frames_of p.produced }

abbrev pub InOrder : Outgoing → Bytes → Sent → Type 0
InOrder o new p = bytes_of p.frames ++ pending p.output ≡ pending o ++ new

of_Completes :
    (o q : Outgoing) (bytes : Bytes) (fin : Bool) (next : Option Write) (p : Production) (n : ℕ)
    → Completes q bytes fin next p
    → (o.eof_submitted ≡ false)
    → (q.eof_submitted ≡ fin)
    → is_some o.write_handler ≡ true
    → is_empty (drop n o.write_buffer) ≡ true
    → Sends o (pulls n next) (sent_by p)
of_Completes o q bytes fin next p n c e f h k = record {
  answered = omega (arith, c.answered, counted next);
  ended = rw (c.is_frame, c.same_end, e, f) (ground arith);
  quiet = inl e;
  single = inr ((bytes, fin), rw c.is_frame refl);
}
  where
    counted : (m : Option Write) → waiting o + write_by o (pulls n m) ≡ 1 + respawn_writes m
    counted none = rw h (refl)
    counted (some w) = rw (h, k) (refl)

of_Completes-InOrder :
    (o q : Outgoing) (bytes : Bytes) (fin : Bool) (next : Option Write) (p : Production) (n : ℕ)
    → Completes q bytes fin next p
    → bytes ≡ o.write_buffer
    → q.eof_requested ≡ o.eof_requested
    → is_some o.write_handler ≡ true
    → is_empty (drop n o.write_buffer) ≡ true
    → InOrder o (body_by o (pulls n next)) (sent_by p)
of_Completes-InOrder o q bytes fin next p n c b r h k =
    rw (c.is_frame, c.rest, b, h)
      (ap (λ t. t ++ respawned q next) (append-nil o.write_buffer)
        ∙ ap (◌++◌ o.write_buffer) (body next))
  where
    body : (m : Option Write) → respawned q m ≡ body_by o (pulls n m)
    body none = refl
    body (some w) = rw (h, k, r) refl

taken_whole : (n : ℕ) (s : Bytes) → is_empty (drop n s) ≡ true → take n s ≡ s
taken_whole n s h =
    sym (append-nil (take n s))
    ∙ ap (◌++◌ (take n s)) (sym (length-nil (drop n s) h))
    ∙ take-append-drop n s

drop_empty : (n : ℕ) (s : Bytes) → is_empty s ≡ true → is_empty (drop n s) ≡ true
drop_empty n s h = rw (length-nil s h, drop-nil n) refl

produce-Sends :
    (o : Outgoing) (handler n : ℕ) (next : Option Write)
    → o.write_handler ≡ some handler
    → (o.eof_submitted ≡ false)
    → (is_empty o.write_buffer ≡ false) ⊎ (o.eof_requested ≡ true)
    → Sends o (pulls n next) (sent_by (produce o handler n next))
      × InOrder o (body_by o (pulls n next)) (sent_by (produce o handler n next))
unfolding produce
produce-Sends o handler n next e f t =
    if_both
      (λ (p : Production).
        Sends o (pulls n next) (sent_by p) × InOrder o (body_by o (pulls n next)) (sent_by p))
      (is_empty o.write_buffer)
      (λ k.
        let q = record o { eof_submitted = true } in
        let c = complete-Completes q handler [] true next in
        let l = drop_empty n o.write_buffer k in
        (
          of_Completes o q [] true next _ n c f refl (rw e refl) l,
          of_Completes-InOrder o q [] true next _ n c (sym (length-nil o.write_buffer k)) refl
              (rw e refl) l,
        ))
      (λ k.
        if_both
          (λ (p : Production).
            Sends o (pulls n next) (sent_by p) × InOrder o (body_by o (pulls n next)) (sent_by p))
          (is_empty (drop n o.write_buffer))
          (λ l.
            let q = record o {
              write_buffer = drop n o.write_buffer;
              eof_submitted = o.eof_requested || o.eof_submitted;
            } in
            let c = complete-Completes q handler (take n o.write_buffer) o.eof_requested next in
            (
              of_Completes o q (take n o.write_buffer) o.eof_requested next _ n c f (ground arith)
                  (rw e refl) l,
              of_Completes-InOrder o q (take n o.write_buffer) o.eof_requested next _ n c
                  (taken_whole n o.write_buffer l) refl (rw e refl) l,
            ))
          (λ l. (
            record {
              answered = omega (arith, no_write next l);
              ended = omega arith;
              quiet = inl f;
              single = inr (_, refl);
            },
            in_part next l,
          )))
  where
    no_write :
        (m : Option Write) → is_empty (drop n o.write_buffer) ≡ false → write_by o (pulls n m) ≡ 0
    no_write none l = refl
    no_write (some w) l = rw (e, l) refl

    in_part :
        (m : Option Write)
        → is_empty (drop n o.write_buffer) ≡ false
        → InOrder o (body_by o (pulls n m)) (record {
          output = record o { write_buffer = drop n o.write_buffer };
          events = [];
          frames = (take n o.write_buffer, false) ∷ [];
        })
    in_part none l = rw e (rw (append-nil, append-nil) (take-append-drop n o.write_buffer))
    in_part (some w) l = rw (e, l) (rw (append-nil, append-nil) (take-append-drop n o.write_buffer))

cancelled : (o : Outgoing) → total written (cancel_write o).1 ≡ waiting o
unfolding cancel_write
cancelled o = by_handler o.write_handler
  where
    by_handler :
        (m : Option ℕ)
        → total written (done_writing posted m canceled) ≡ (if is_some m then 1 else 0)
    by_handler none = refl
    by_handler (some h) = refl

-- Nothing is answered and nothing sent when there is nothing to send.
deferred-Sends :
    (o : Outgoing) (n : ℕ) (next : Option Write)
    → o.write_handler ≡ none
    → (o.eof_submitted ≡ false)
    → Sends o (pulls n next) (sent_by (defer_or_produce o n next none))
      × InOrder o (body_by o (pulls n next)) (sent_by (defer_or_produce o n next none))
unfolding defer_or_produce
deferred-Sends o n next e f = (
  record {
    answered = omega (arith, no_write next);
    ended = omega arith;
    quiet = inl f;
    single = inl refl;
  },
  in_part next,
)
  where
    no_write : (m : Option Write) → write_by o (pulls n m) ≡ 0
    no_write none = refl
    no_write (some w) = rw e refl

    in_part :
        (m : Option Write)
        → InOrder o
            (body_by o (pulls n m))
            (record { output = record o { is_deferred = true }; events = []; frames = [] })
    in_part none = sym (append-nil (pending o))
    in_part (some w) = rw e refl

-- All but a cancellation keep the body whole.
abbrev pub StaysWhole : Step → Type 0
StaysWhole cancels = ⊥
StaysWhole _ = Unit {0}

pub step-Sends :
    (x : Step) (o : Outgoing)
    → IsSending o
    → MayStep o x
    → Sends o x (step o x) × (StaysWhole x → InOrder o (body_by o x) (step o x))
unfolding step
step-Sends (writes w) o h m = (
  record {
    answered = omega (arith, async_write-written o w m, idle);
    ended = ended;
    quiet = inr refl;
    single = inl refl;
  },
  λ _. async_write-pending o w m ∙ ap (λ t. t ++ body_of o w) (sym nothing),
)
  where
    idle : waiting o ≡ 0
    idle = rw m refl

    nothing : pending o ≡ []
    nothing = rw m refl

    ended : 0 + told o ≡ told (async_write false o w).0
    ended = rw (async_write-told o w) (omega arith)
step-Sends cancels o h m = (
  record {
    answered = unfold cancel_write in omega (arith, cancelled o);
    ended = unfold cancel_write in omega arith;
    quiet = inr refl;
    single = inl refl;
  },
  λ k. absurd k,
)
step-Sends (pulls n next) o h m = (both.0, λ _. both.1)
  where
    by_handler :
        (k : Option ℕ)
        → o.write_handler ≡ k
        → Sends o (pulls n next) (sent_by (defer_or_produce o n next k))
          × InOrder o (body_by o (pulls n next)) (sent_by (defer_or_produce o n next k))
    by_handler none e = deferred-Sends o n next e m.1
    by_handler (some handler) e =
        unfold defer_or_produce in produce-Sends o handler n next e m.1 (ground (arith, h.to_send))

    both :
        Sends o (pulls n next) (sent_by (producer_callback false o n next))
        × InOrder o (body_by o (pulls n next)) (sent_by (producer_callback false o n next))
    both = unfold producer_callback in by_handler o.write_handler refl
