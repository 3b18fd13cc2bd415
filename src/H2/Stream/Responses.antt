-- ===== src/H2/Stream/Responses.antt =====
-- The response of src/h2/stream.cpp, over a request's life.
use anyhttp.Prelude.{
  ℕ, ◌+◌, ◌≤◌, ◌≡◌, refl, inl, inr, ◌⊎◌, Bool, true, false, ◌||◌, Option, none, some, List, [], ◌∷◌,
  ◌++◌, if◌then◌else◌, arith, if_both,
}
use anyhttp.Completion.{success, canceled, header_limit, posted, is_some}
use anyhttp.H2.State.{NgHttp2Stream, Event, response_done, done_responding}
use anyhttp.H2.Stream.Response.{
  Delivery, async_get_response, cancel_get_response, on_response, deliver_response, deliver_to,
  deliver, nothing,
}
use anyhttp.H2.Stream.Counting.{total, total-append}

-- A request's user asks for the response or gives up, and the response's header section arrives, or
-- turns out to be too large.
pub data Turn : Type 0 where
  gets : ℕ → Turn
  gives_up : Turn
  responds : Bool → Turn

unfoldable pub turn : NgHttp2Stream → Turn → Delivery
turn s (gets handler) = async_get_response s handler
turn s gives_up =
    let (t, events) = cancel_get_response s in
    record { stream = t; events = events; closes = false }
turn s (responds too_large) =
    on_response (record s { answer = record s.answer { header_limit_exceeded = too_large } })

unfoldable pub turns : NgHttp2Stream → List Turn → Delivery
turns s [] = nothing s
turns s (x ∷ xs) =
    let d = turn s x in
    let e = turns d.stream xs in
    record { stream = e.stream; events = d.events ++ e.events; closes = d.closes || e.closes }

-- Completions, and those that hand over the response.
abbrev pub completions : Event → ℕ
completions (response_done w h ec) = 1
completions _ = 0

abbrev pub responses : Event → ℕ
responses (response_done w h success) = 1
responses _ = 0

abbrev pub asking : NgHttp2Stream → ℕ
asking s = if is_some s.answer.response_handler then 1 else 0

abbrev pub delivered : NgHttp2Stream → ℕ
delivered s = if s.answer.response_delivered then 1 else 0

-- A user waits only while there is nothing to hand over.
pub record IsAsking (s : NgHttp2Stream) : Type 0 where
  pub nothing_yet :
      (s.answer.response_handler ≡ none)
      ⊎ ((s.answer.has_response ≡ false) × (is_some s.answer.response_error ≡ false))
  pub undelivered : (s.answer.response_handler ≡ none) ⊎ (s.answer.response_delivered ≡ false)

record Turns (s : NgHttp2Stream) (n : ℕ) (d : Delivery) : Type 0 where
  completed : total completions d.events + asking d.stream ≡ asking s + n
  handed_over : total responses d.events + delivered s ≤ delivered d.stream
  is_asking : IsAsking d.stream

-- Ready to be delivered, if there is a response and someone asks for it.
deliver_response-Turns :
    (s : NgHttp2Stream)
    → (s.answer.response_handler ≡ none) ⊎ (s.answer.response_delivered ≡ false)
    → Turns s 0 (deliver_response s)
unfolding deliver_response deliver_to deliver
deliver_response-Turns s h = record {
  completed = ground arith;
  handed_over = ground arith;
  is_asking = record { nothing_yet = ground arith; undelivered = ground arith };
}

-- One user asks at a time.
abbrev pub MayTurn : NgHttp2Stream → Turn → Type 0
MayTurn s (gets handler) = s.answer.response_handler ≡ none
MayTurn s _ = Unit

abbrev pub OneAsks : NgHttp2Stream → List Turn → Type 0
OneAsks s [] = Unit
OneAsks s (x ∷ xs) = MayTurn s x × OneAsks (turn s x).stream xs

abbrev pub gets_by : Turn → ℕ
gets_by (gets handler) = 1
gets_by _ = 0

abbrev pub get_count : List Turn → ℕ
get_count [] = 0
get_count (x ∷ xs) = gets_by x + get_count xs

given_up :
    (o : Option ℕ)
    → (total completions (done_responding posted o canceled) ≡ (if is_some o then 1 else 0))
      × (total responses (done_responding posted o canceled) ≡ 0)
given_up none = (refl, refl)
given_up (some h) = (refl, refl)

Turns-get :
    (s : NgHttp2Stream) (handler : ℕ)
    → s.answer.response_handler ≡ none
    → IsAsking s
    → Turns s 1 (async_get_response s handler)
unfolding async_get_response
Turns-get s handler n h =
    if_both (Turns s 1) s.answer.response_delivered
      (λ e. record { completed = ground arith; handed_over = omega arith; is_asking = h })
      (λ e.
        let d =
          deliver_response-Turns
            (record s { answer = record s.answer { response_handler = some handler } }) (inr e) in
        record {
          completed = ground (arith, d.completed);
          handed_over = d.handed_over;
          is_asking = d.is_asking;
        })

Turns-respond :
    (s : NgHttp2Stream) (too_large : Bool)
    → IsAsking s
    → Turns s 0
        (on_response (record s { answer = record s.answer { header_limit_exceeded = too_large } }))
unfolding on_response
Turns-respond s true h =
    let d =
      deliver_response-Turns
        (record s {
          answer = record s.answer {
            header_limit_exceeded = true;
            response_error = some header_limit;
          };
        })
        h.undelivered in
    record {
      completed = omega (arith, d.completed);
      handed_over = omega (arith, d.handed_over);
      is_asking = d.is_asking;
    }
Turns-respond s false h =
    let d =
      deliver_response-Turns
        (record s {
          answer = record s.answer { header_limit_exceeded = false; has_response = true };
        })
        h.undelivered in
    record { completed = d.completed; handed_over = d.handed_over; is_asking = d.is_asking }

turn-Turns :
    (x : Turn) (s : NgHttp2Stream) → MayTurn s x → IsAsking s → Turns s (gets_by x) (turn s x)
unfolding turn
turn-Turns (gets handler) s m h = Turns-get s handler m h
turn-Turns gives_up s m h =
    let (c, r) = given_up s.answer.response_handler in
    unfold cancel_get_response in
    record {
      completed = omega (arith, c);
      handed_over = omega (arith, r);
      is_asking = record { nothing_yet = inl refl; undelivered = inl refl };
    }
turn-Turns (responds too_large) s m h = Turns-respond s too_large h

-- The response is handed over at most once, and every request for it is answered once: over any
-- sequence of requests for the response, of which one waits at a time, cancellations and responses,
-- good or too large, the completions and the request that waits at the end, if one does, are as many
-- as the request that waited at the start and the requests; the responses handed over are none if
-- one had been delivered before, and at most one otherwise; and a request waits only while there is
-- neither a response nor an error to answer it with.
pub turns_complete :
    (xs : List Turn) (s : NgHttp2Stream)
    → OneAsks s xs
    → IsAsking s
    → (total completions (turns s xs).events + asking (turns s xs).stream ≡ asking s + get_count xs)
      × (total responses (turns s xs).events + delivered s ≤ delivered (turns s xs).stream)
      × IsAsking (turns s xs).stream
unfolding turns
turns_complete [] s m h = (omega arith, omega arith, h)
turns_complete (x ∷ xs) s m h =
    let d = turn s x in
    let e = turns d.stream xs in
    let first = turn-Turns x s m.0 h in
    let (c, r, a) = turns_complete xs d.stream m.1 first.is_asking in
    (
      omega (arith, first.completed, c, total-append completions d.events e.events),
      omega (arith, first.handed_over, r, total-append responses d.events e.events),
      a,
    )
