-- ===== src/H2/Stream/Sending.antt =====
-- The outgoing body of src/h2/stream.cpp over its life: writes, cancellations, and the frames that
-- nghttp2 asks for.
use anyhttp.Prelude.{
  ℕ, ◌≡◌, refl, inl, inr, ◌⊎◌, Bool, true, false, ◌||◌, Option, none, some, List, [], ◌∷◌, ◌++◌,
  Bytes, take, drop, is_empty, arith, if_both,
}
use anyhttp.H2.State.{Outgoing, Event}
use anyhttp.H2.Stream.Writing.{
  Write, async_write, cancel_write, respawn, Produced, frame, Production, complete, produce,
  producer_callback, defer_or_produce,
}

-- A write never waits while the stream is deferred; one that waits has something to send; and
-- behind the end that nghttp2 knows of, nothing waits.
pub record IsSending (o : Outgoing) : Type 0 where
  pub awake : (o.is_deferred ≡ false) ⊎ (o.write_handler ≡ none)
  pub to_send :
      (o.write_handler ≡ none) ⊎ (is_empty o.write_buffer ≡ false) ⊎ (o.eof_requested ≡ true)
  pub over : (o.eof_submitted ≡ false) ⊎ ((o.write_handler ≡ none) × (o.eof_requested ≡ true))

pub async_write-IsSending :
    (closed : Bool) (o : Outgoing) (w : Write) → IsSending o → IsSending (async_write closed o w).0
unfolding async_write
async_write-IsSending closed o w h = record {
  awake = ground arith;
  to_send = ground arith;
  over = ground arith;
}

complete-IsSending :
    (o : Outgoing) (handler : ℕ) (bytes : Bytes) (fin : Bool) (next : Option Write)
    → (o.is_deferred ≡ false)
    → (o.eof_submitted ≡ false) ⊎ (o.eof_requested ≡ true)
    → IsSending (complete o handler bytes fin next).output
unfolding complete respawn
complete-IsSending o handler bytes fin none a h = record {
  awake = inl a;
  to_send = inl refl;
  over = ground arith;
}
complete-IsSending o handler bytes fin (some w) a h =
    async_write-IsSending false (record o { write_handler = none }) w
      (record { awake = inl a; to_send = inl refl; over = ground arith })

produce-IsSending :
    (o : Outgoing) (handler length : ℕ) (next : Option Write)
    → o.write_handler ≡ some handler
    → IsSending o
    → IsSending (produce o handler length next).output
unfolding produce
produce-IsSending o handler length next e h =
    if_both (λ (p : Production). IsSending p.output) (is_empty o.write_buffer)
      (λ k.
        complete-IsSending (record o { eof_submitted = true }) handler [] true next (ground arith)
          (inr (ground arith)))
      (λ k.
        if_both (λ (p : Production). IsSending p.output) (is_empty (drop length o.write_buffer))
          (λ l.
            complete-IsSending
              (record o {
                write_buffer = drop length o.write_buffer;
                eof_submitted = o.eof_requested || o.eof_submitted;
              })
              handler (take length o.write_buffer) o.eof_requested next (ground arith)
              (ground arith))
          (λ l. record { awake = h.awake; to_send = inr (inl l); over = h.over }))

pub producer_callback-IsSending :
    (closed : Bool) (o : Outgoing) (length : ℕ) (next : Option Write)
    → IsSending o
    → IsSending (producer_callback closed o length next).output
producer_callback-IsSending true o length next h = unfold producer_callback in h
producer_callback-IsSending false o length next h =
    unfold producer_callback in by_handler o.write_handler refl
  where
    by_handler :
        (m : Option ℕ) → o.write_handler ≡ m → IsSending (defer_or_produce o length next m).output
    by_handler none e =
        unfold defer_or_produce in record { awake = inr e; to_send = inl e; over = ground arith }
    by_handler (some handler) e =
        unfold defer_or_produce in produce-IsSending o handler length next e h

-- One thing that happens to the writing side. A frame is asked for with its room, and the write that
-- the completion in it sets off.
pub data Step : Type 0 where
  writes : Write → Step
  cancels : Step
  pulls : ℕ → Option Write → Step

pub record Sent : Type 0 where
  pub output : Outgoing
  pub events : List Event
  pub frames : List (Bytes × Bool)

abbrev pub frames_of : Produced → List (Bytes × Bool)
frames_of (frame bytes fin) = (bytes, fin) ∷ []
frames_of _ = []

unfoldable pub step : Outgoing → Step → Sent
step o (writes w) =
    let (p, events) = async_write false o w in record { output = p; events = events; frames = [] }
step o cancels =
    let (p, events) = cancel_write o in record { output = p; events = events; frames = [] }
step o (pulls length next) =
    let p = producer_callback false o length next in
    record { output = p.output; events = p.events; frames = frames_of p.produced }

unfoldable pub steps : Outgoing → List Step → Sent
steps o [] = record { output = o; events = []; frames = [] }
steps o (x ∷ xs) =
    let p = step o x in
    let q = steps p.output xs in
    record { output = q.output; events = p.events ++ q.events; frames = p.frames ++ q.frames }

-- nghttp2 asks for no frame of a stream that is deferred or ended, and the caller has one write in
-- progress at a time.
abbrev pub MayStep : Outgoing → Step → Type 0
MayStep o (writes w) = o.write_handler ≡ none
MayStep o cancels = Unit
MayStep o (pulls length next) = (o.is_deferred ≡ false) × (o.eof_submitted ≡ false)

abbrev pub InTurn : Outgoing → List Step → Type 0
InTurn o [] = Unit
InTurn o (x ∷ xs) = MayStep o x × InTurn (step o x).output xs
