-- ===== src/H2/Session/Fates.antt =====
-- What becomes of a stream that nghttp2 closes, src/h2/session.cpp.
use anyhttp.Prelude.{
  ℕ, ◌+◌, ◌≡◌, refl, ap, ◌∙◌, inl, inr, ◌⊎◌, Bool, true, false, not, ◌&&◌, ◌||◌, Option, none, some,
  List, [], ◌++◌, if◌then◌else◌, arith, if_both, Bool-cases,
}
use anyhttp.Completion.{at_once, partial_message, end_of_stream, Read, Reaction, is_some}
use anyhttp.H2.State.{
  Incoming, Outgoing, NgHttp2Stream, Event, reading_finished, done_reading, done_responding,
  read_done, write_done, response_done,
}
use anyhttp.H2.Stream.Reading.{call_read_handler, closes_now, attempt, park, finish_deferred_close}
use anyhttp.H2.Stream.Integrity.{unread}
use anyhttp.H2.Stream.Delivery.{attempt-Serves}
use anyhttp.H2.Stream.Waiting.{WaitsRightly}
use anyhttp.H2.Stream.Apart.{call_read_handler-Apart}
use anyhttp.H2.Stream.Counting.{total, total-append}
use anyhttp.H2.Stream.Resting.{IsResting, call_read_handler-IsResting}
use anyhttp.H2.Stream.Response.{Delivery}
use anyhttp.H2.Session.Closing.{close, settle, fail_write, Closing, kept, deferred, erased, Doing}
use anyhttp.H2.Session.Resuming.{fail_write-Closed, Fails, fail_write-Fails}

-- How many handlers wait on a stream.
abbrev pub waiting : NgHttp2Stream → ℕ
waiting s =
    (if is_some s.input.read_handler then 1 else 0)
    + (if is_some s.output.write_handler then 1 else 0)
    + (if is_some s.answer.response_handler then 1 else 0)

abbrev pub completions : Event → ℕ
completions (read_done w h ec bytes) = 1
completions (write_done w h ec) = 1
completions (response_done w h ec) = 1
completions _ = 0

-- The reader has not come back for the rest of a body that ended cleanly.
abbrev pub owes_body : Incoming → Bool
owes_body i = i.reader && i.eof_received && not (reading_finished i)

-- The response has come, or failed, and nobody has asked for it yet.
abbrev pub owes_response : NgHttp2Stream → Bool
owes_response s =
    not s.answer.response_delivered && (s.answer.has_response || is_some s.answer.response_error)

-- It is kept if its response is owed, else deferred if its body is, else erased.
abbrev pub FateOf : NgHttp2Stream → Closing → Type 0
FateOf s c =
    ((c.fate ≡ kept) × (owes_response s ≡ true) × IsResting c.stream.input)
    ⊎ ((c.fate ≡ deferred)
        × (owes_response s ≡ false)
        × (owes_body s.input ≡ true)
        × (c.stream.input.close_deferred ≡ true)
        × (unread c.stream.input [] ≡ unread s.input [])
        × IsResting c.stream.input)
    ⊎ ((c.fate ≡ erased)
        × (owes_response s ≡ false)
        × (owes_body s.input ≡ false)
        × (waiting c.stream ≡ 0)
        × (total completions c.events ≡ waiting s))

-- The close of a stream, `s` once the write that waited has been failed and the code that it resumes
-- has run: it is closed, and no write waits; no other close is asked for; and it is kept if its
-- response is owed, else deferred if its body is, else erased, and then no handler waits and each
-- that waited has been completed. A stream that is not erased is at rest, a deferred one with its
-- body unread.
pub record Closes (s : NgHttp2Stream) (c : Closing) : Type 0 where
  pub is_closed : c.stream.closed ≡ true
  pub no_write : c.stream.output.write_handler ≡ none
  pub only_one : c.again ≡ false
  pub fate : FateOf s c

unread_failed :
    (o : Option Read)
    → total completions (done_reading at_once o partial_message) ≡ (if is_some o then 1 else 0)
unread_failed none = refl
unread_failed (some r) = refl

unanswered :
    (o : Option ℕ)
    → total completions (done_responding at_once o end_of_stream) ≡ (if is_some o then 1 else 0)
unanswered none = refl
unanswered (some h) = refl

-- A call on a stream at rest, with nothing new, asks for no close.
call_read_handler-closes :
    (xs : List Reaction) (s : NgHttp2Stream)
    → IsResting s.input
    → (call_read_handler xs s []).closes ≡ false
unfolding call_read_handler finish_deferred_close
call_read_handler-closes xs s h = elim (Bool-cases (is_some s.input.read_handler)) [
  | inl e ↦
      no_deferral ((attempt-Serves xs s [] h.is_stored h.outside).same_end.deferred)
        (waited h.waits h.behind_end e)
  | inr e ↦ unfold attempt park closes_now in rw e (unfold closes_now in h.not_due)
]
  where
    waited :
        (s.input.read_handler ≡ none) ⊎ ((unread s.input [] ≡ []) × (s.input.eof_received ≡ false))
        → (s.input.close_deferred ≡ false) ⊎ (s.input.eof_received ≡ true)
        → is_some s.input.read_handler ≡ true
        → s.input.close_deferred ≡ false
    waited w b e = ground arith

    no_deferral :
        ((attempt xs s []).stream.input.close_deferred ≡ false)
          ⊎ ((attempt xs s []).stream.input.close_deferred ≡ s.input.close_deferred)
        → s.input.close_deferred ≡ false
        → closes_now (attempt xs s []).stream.input ≡ false
    no_deferral d e = unfold closes_now in ground arith

-- The body behind a deferred close is still to be read.
deferral-IsResting :
    (i : Incoming)
    → IsResting i
    → owes_body i ≡ true
    → IsResting (record i { close_deferred = true })
deferral-IsResting i h k = record {
  outside = h.outside;
  is_stored = h.is_stored;
  waits = waits h.waits;
  behind_end = inr (ground arith);
  not_due = unfold closes_now in ground arith;
}
  where
    waits : WaitsRightly i → WaitsRightly (record i { close_deferred = true })
    waits (inl e) = inl e
    waits (inr e) = inr e

settle-Closes :
    (xs : List Reaction) (s : NgHttp2Stream)
    → s.closed ≡ true
    → s.output.write_handler ≡ none
    → IsResting s.input
    → Closes s (settle xs s)
unfolding settle
settle-Closes xs s c w h =
    if_both (Closes s) (owes_response s)
      (λ e. record {
        is_closed = (call_read_handler-Apart xs s []).same_closed ∙ c;
        no_write =
            ap (λ (o : Outgoing). o.write_handler) (call_read_handler-Apart xs s []).same_output
            ∙ w;
        only_one = call_read_handler-closes xs s h;
        fate =
            inl (refl, e, call_read_handler-IsResting xs s [] h.outside h.is_stored h.behind_end);
      })
      (λ e.
        if_both (Closes s) (owes_body s.input)
          (λ k. record {
            is_closed = c;
            no_write = w;
            only_one = refl;
            fate = inr (inl (refl, e, k, refl, refl, deferral-IsResting s.input h k));
          })
          (λ k. record {
            is_closed = c;
            no_write = w;
            only_one = refl;
            fate = inr (
                inr (
                  refl,
                  e,
                  k,
                  rw w refl,
                  rw w (
                      omega (
                        arith,
                        total-append completions
                            (done_reading at_once s.input.read_handler partial_message)
                            (done_responding at_once s.answer.response_handler end_of_stream),
                        unread_failed s.input.read_handler,
                        unanswered s.answer.response_handler,
                      )),
                ));
          }))

-- The write that waited has been failed first, and what the code that it resumes does comes next.
pub record ClosesAfter (s : NgHttp2Stream) (f : Delivery) (c : Closing) : Type 0 where
  pub events : List Event
  pub in_order : c.events ≡ f.events ++ events
  pub failed : Fails s.output.write_handler f
  pub closes : Closes f.stream (record c { events = events })

-- What nghttp2's close of a stream at rest does, if the code that the failed write resumes, which
-- reads, writes, asks for the response and drops its reader or its writer as it likes, asks for no
-- close of its own. That code runs first, right behind the failure of the write that waited, and
-- only if one waited; the rest depends on the stream as it leaves it. If the response is owed then,
-- the stream is kept; otherwise, if a reader has not come back for the rest of a body that ended,
-- its erasure is deferred and the body left unread; otherwise it is erased, the handlers that wait
-- on it are taken off, and as many are completed as waited. The stream is closed, no write waits on
-- it, no other close is asked for, and a stream that is not erased is at rest.
pub close-Closes :
    (ds : List Doing) (xs : List Reaction) (s : NgHttp2Stream)
    → IsResting s.input
    → (fail_write ds s).closes ≡ false
    → ClosesAfter s (fail_write ds s) (close ds xs s)
unfolding close
close-Closes ds xs s h k =
    let f = fail_write ds s in
    let r = fail_write-Closed ds s h in
    let c = settle-Closes xs f.stream r.is_closed r.no_write r.resting in
    record {
      events = (settle xs f.stream).events;
      in_order = refl;
      failed = fail_write-Fails ds s;
      closes = record {
        is_closed = c.is_closed;
        no_write = c.no_write;
        only_one = rw k c.only_one;
        fate = c.fate;
      };
    }
