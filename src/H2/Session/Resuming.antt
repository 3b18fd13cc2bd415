-- ===== src/H2/Session/Resuming.antt =====
-- The code that a failed write resumes while its stream is being closed, src/h2/session.cpp.
use anyhttp.Prelude.{
  ◌≡◌, refl, ap, ◌∙◌, inl, inr, true, not, ◌&&◌, Option, ℕ, none, some, List, [], ◌∷◌, ◌==◌, arith,
  if_both,
}
use anyhttp.Completion.{Code, connection_reset, at_once, Read, Reaction, is_some}
use anyhttp.H2.State.{Incoming, Outgoing, Answer, NgHttp2Stream, Event, write_done}
use anyhttp.H2.Stream.Reading.{
  Pass, async_read_some, cancel_read, destroy_reader, delete_reader, finish_deferred_close,
  closes_now,
}
use anyhttp.H2.Stream.Writing.{Write, async_write, destroy_writer}
use anyhttp.H2.Stream.Response.{Delivery, async_get_response, deliver_response, deliver_to, deliver}
use anyhttp.H2.Stream.Waiting.{WaitsRightly}
use anyhttp.H2.Stream.Apart.{Apart, call_read_handler-Apart}
use anyhttp.H2.Stream.Resting.{IsResting}
use anyhttp.H2.Stream.Life.{Happening, pass, pass-Conserves}
use anyhttp.H2.Session.Closing.{do_one, do_all, resume_failed, fail_write, Doing}

-- The stream has been closed, no write waits on it, and its reading side is at rest.
pub record Closed (s : NgHttp2Stream) : Type 0 where
  pub is_closed : s.closed ≡ true
  pub no_write : s.output.write_handler ≡ none
  pub resting : IsResting s.input

Closed-Apart : {s t : NgHttp2Stream} → Closed s → Apart s t → IsResting t.input → Closed t
Closed-Apart h a r = record {
  is_closed = a.same_closed ∙ h.is_closed;
  no_write = ap (λ (o : Outgoing). o.write_handler) a.same_output ∙ h.no_write;
  resting = r;
}

async_read_some-Apart :
    (xs : List Reaction) (s : NgHttp2Stream) (r : Read) → Apart s (async_read_some xs s r).stream
unfolding async_read_some
async_read_some-Apart xs s r =
    if_both (λ (p : Pass). Apart s p.stream) (r.size == 0)
      (λ _. record { same_output = refl; same_answer = refl; same_closed = refl })
      (λ _.
        let a =
          call_read_handler-Apart xs (record s { input = record s.input { read_handler = some r } })
            [] in
        record {
          same_output = a.same_output;
          same_answer = a.same_answer;
          same_closed = a.same_closed;
        })

-- A write on a closed stream is answered at once.
async_write-closed :
    (o : Outgoing) (w : Write)
    → o.write_handler ≡ none
    → (async_write true o w).0.write_handler ≡ none
unfolding async_write
async_write-closed o w h = ground arith

-- The response is a reader of the stream.
with_reader : (i : Incoming) → IsResting i → IsResting (record i { reader = true })
with_reader i h = record {
  outside = h.outside;
  is_stored = h.is_stored;
  waits = waits h.waits;
  behind_end = h.behind_end;
  not_due = unfold closes_now in ground (arith, h.not_due);
}
  where
    waits : WaitsRightly i → WaitsRightly (record i { reader = true })
    waits (inl e) = inl e
    waits (inr e) = inr e

-- Only the answer differs.
with_answer : (s : NgHttp2Stream) (a : Answer) → Closed s → Closed (record s { answer = a })
with_answer s a h = record { is_closed = h.is_closed; no_write = h.no_write; resting = h.resting }

deliver-Closed :
    (s : NgHttp2Stream) (handler : ℕ) (o : Option Code)
    → Closed s
    → Closed (deliver s handler o).stream
unfolding deliver
deliver-Closed s handler (some ec) h = with_answer s _ h
deliver-Closed s handler none h = record {
  is_closed = h.is_closed;
  no_write = h.no_write;
  resting = with_reader s.input h.resting;
}

async_get_response-Closed :
    (s : NgHttp2Stream) (handler : ℕ) → Closed s → Closed (async_get_response s handler).stream
unfolding async_get_response deliver_response deliver_to
async_get_response-Closed s handler h =
    let asked = record s { answer = record s.answer { response_handler = some handler } } in
    if_both (λ (d : Delivery). Closed d.stream) s.answer.response_delivered (λ _. h)
      (λ _.
        if_both (λ (d : Delivery). Closed d.stream)
          (not s.answer.has_response && not (is_some s.answer.response_error))
          (λ _. with_answer s asked.answer h)
          (λ _.
            deliver-Closed asked handler s.answer.response_error (with_answer s asked.answer h)))

do_one-Closed : (s : NgHttp2Stream) (d : Doing) → Closed s → Closed (do_one s d).stream
unfolding do_one
do_one-Closed s (Doing.reads r xs) h =
    if_both (λ (d : Delivery). Closed d.stream) s.input.reader
      (λ _.
        Closed-Apart h (async_read_some-Apart xs s r)
          (unfold pass in (pass-Conserves (Happening.reads r xs) s h.resting).resting))
      (λ _. h)
do_one-Closed s (Doing.writes w) h = record {
  is_closed = h.is_closed;
  no_write = rw h.is_closed (async_write-closed s.output w h.no_write);
  resting = h.resting;
}
do_one-Closed s (Doing.asks handler) h =
    if_both (λ (d : Delivery). Closed d.stream) (is_some s.answer.response_handler) (λ _. h)
      (λ _. async_get_response-Closed s handler h)
do_one-Closed s Doing.cancels_read h =
    Closed-Apart h
      (unfold cancel_read in record { same_output = refl; same_answer = refl; same_closed = refl })
      (unfold pass in (pass-Conserves Happening.cancels s h.resting).resting)
do_one-Closed s Doing.drops_reader h =
    if_both (λ (d : Delivery). Closed d.stream) s.input.reader
      (λ _.
        Closed-Apart h
          (unfold destroy_reader delete_reader finish_deferred_close in
            record { same_output = refl; same_answer = refl; same_closed = refl })
          (unfold pass in (pass-Conserves Happening.drops s h.resting).resting))
      (λ _. h)
do_one-Closed s Doing.drops_writer h =
    unfold destroy_writer in
    record { is_closed = h.is_closed; no_write = h.no_write; resting = h.resting }

do_all-Closed : (ds : List Doing) (s : NgHttp2Stream) → Closed s → Closed (do_all ds s).stream
unfolding do_all
do_all-Closed [] s h = h
do_all-Closed (d ∷ ds) s h = do_all-Closed ds (do_one s d).stream (do_one-Closed s d h)

resume_failed-Closed :
    (ds : List Doing) (s : NgHttp2Stream) (o : Option ℕ)
    → Closed s
    → Closed (resume_failed ds s o).stream
unfolding resume_failed
resume_failed-Closed ds s none h = h
resume_failed-Closed ds s (some handler) h = do_all-Closed ds s h

pub fail_write-Closed :
    (ds : List Doing) (s : NgHttp2Stream) → IsResting s.input → Closed (fail_write ds s).stream
unfolding fail_write
fail_write-Closed ds s h =
    resume_failed-Closed ds
      (record s { output = record s.output { write_handler = none }; closed = true })
      s.output.write_handler (record { is_closed = refl; no_write = refl; resting = h })

-- A write that waited is completed first; without one, nothing happens.
abbrev pub Fails : Option ℕ → Delivery → Type 0
Fails none f = f.events ≡ []
Fails (some handler) f =
    (rest : List Event) × (f.events ≡ write_done at_once handler connection_reset ∷ rest)

pub fail_write-Fails :
    (ds : List Doing) (s : NgHttp2Stream) → Fails s.output.write_handler (fail_write ds s)
unfolding fail_write
fail_write-Fails ds s = by_handler s.output.write_handler
  where
    by_handler :
        (o : Option ℕ)
        → Fails o (
            resume_failed ds
              (record s { output = record s.output { write_handler = none }; closed = true })
              o)
    by_handler none = unfold resume_failed in refl
    by_handler (some handler) = unfold resume_failed in (_, refl)
