-- ===== src/H2/Stream/Life.antt =====
-- The incoming body of src/h2/stream.cpp over its life: chunks that arrive, the end, reads,
-- cancellations and the end of the reader, in any order.
use anyhttp.Prelude.{
  ◌≡◌, refl, sym, ap, ◌∙◌, inl, inr, ◌⊎◌, Bool, true, false, ◌||◌, Option, none, some, List, [],
  ◌∷◌, ◌++◌, Bytes, length, length-append, ◌==◌, arith, append_assoc, append-nil, if_both,
}
use anyhttp.Completion.{Code, canceled, posted, Read, Reaction}
use anyhttp.Queue.{left}
use anyhttp.H2.State.{Incoming, NgHttp2Stream, done_reading}
use anyhttp.H2.Stream.Reading.{
  Pass, at_rest, call_read_handler, finish_deferred_close, settled, on_data, on_eof,
  async_read_some, cancel_read, destroy_reader, delete_reader, abandoned, maybe_close_stream,
}
use anyhttp.H2.Stream.Integrity.{unread, IsStored, Keeps}
use anyhttp.H2.Stream.Delivery.{call_read_handler-Serves, settled-Keeps}
use anyhttp.H2.Stream.Waiting.{WaitsRightly}
use anyhttp.H2.Stream.Counting.{
  total, total-append, granted, IsBlind-granted, maybe_close_stream-total,
}
use anyhttp.H2.Stream.Reports.{call_read_handler-ReportsRightly}
use anyhttp.H2.Stream.Resting.{
  IsResting, finish_deferred_close-IsResting, call_read_handler-IsResting, cancel_read-closes,
}

-- One thing that happens to the reading side, with the reactions of the code that is resumed.
pub data Happening : Type 0 where
  arrives : Bytes → List Reaction → Happening
  ends : List Reaction → Happening
  reads : Read → List Reaction → Happening
  cancels drops : Happening

unfoldable pub pass : NgHttp2Stream → Happening → Pass
pass s (arrives chunk xs) = on_data xs s chunk
pass s (ends xs) = on_eof xs s
pass s (reads r xs) = async_read_some xs s r
pass s cancels = let (t, events) = cancel_read s in record (at_rest t) { events = events }
pass s drops = destroy_reader s

unfoldable pub pass_all : NgHttp2Stream → List Happening → Pass
pass_all s [] = at_rest s
pass_all s (x ∷ xs) =
    let p = pass s x in
    let q = pass_all p.stream xs in
    record {
      stream = q.stream;
      events = p.events ++ q.events;
      delivered = p.delivered ++ q.delivered;
      closes = p.closes || q.closes;
    }

abbrev pub arrived_by : Happening → Bytes
arrived_by (arrives chunk xs) = chunk
arrived_by _ = []

abbrev pub arrived : List Happening → Bytes
arrived [] = []
arrived (x ∷ xs) = arrived_by x ++ arrived xs

-- What was delivered, and what is unread, is what was unread and what arrived; the credit is what
-- was delivered; and the stream is at rest again.
pub record Conserves (before new : Bytes) (p : Pass) : Type 0 where
  pub conserved : p.delivered ++ unread p.stream.input [] ≡ before ++ new
  pub granted_all : total granted p.events ≡ length p.delivered
  pub resting : IsResting p.stream.input

call_read_handler-Conserves :
    (xs : List Reaction) (s : NgHttp2Stream) (view : Bytes)
    → s.input.inside_call_read_handler ≡ false
    → IsStored s.input
    → (s.input.close_deferred ≡ false) ⊎ (s.input.eof_received ≡ true)
    → Conserves
        (left s.input.read_buffer s.input.pending_read_buffers)
        view
        (call_read_handler xs s view)
call_read_handler-Conserves xs s view out h b = record {
  conserved = (call_read_handler-Serves xs s view h out).in_order;
  granted_all = (call_read_handler-ReportsRightly xs s view h).1;
  resting = call_read_handler-IsResting xs s view out h b;
}

of_left :
    (i : Incoming) {new : Bytes} {p : Pass}
    → Conserves (left i.read_buffer i.pending_read_buffers) new p
    → Conserves (unread i []) new p
of_left i {new} c = record {
  conserved =
      c.conserved
      ∙ ap (λ t. t ++ new) (sym (append-nil (left i.read_buffer i.pending_read_buffers)));
  granted_all = c.granted_all;
  resting = c.resting;
}

read_done_with-granted :
    (o : Option Read) (ec : Code) → total granted (done_reading posted o ec) ≡ 0
read_done_with-granted none ec = refl
read_done_with-granted (some r) ec = refl

cancel_read-Conserves :
    (s : NgHttp2Stream)
    → IsResting s.input
    → Conserves
        (unread s.input [])
        []
        (record (at_rest (cancel_read s).0) { events = (cancel_read s).1 })
unfolding cancel_read
cancel_read-Conserves s h = record {
  conserved = sym (append-nil (unread s.input []));
  granted_all = read_done_with-granted s.input.read_handler canceled;
  resting = record {
    outside = h.outside;
    is_stored = h.is_stored;
    waits = inl refl;
    behind_end = h.behind_end;
    not_due = cancel_read-closes s.input h;
  };
}

-- The buffers outlive the reader.
abandoned-detached :
    (closed : Bool) (i : Incoming)
    → abandoned closed (record i { reader = false }) ≡ record i { reader = false }
unfolding abandoned
abandoned-detached true i = refl
abandoned-detached false i = refl

maybe_close_stream-granted : (s : NgHttp2Stream) → total granted (maybe_close_stream s) ≡ 0
maybe_close_stream-granted s = maybe_close_stream-total granted IsBlind-granted s

destroy_reader-Conserves :
    (s : NgHttp2Stream) → IsResting s.input → Conserves (unread s.input []) [] (destroy_reader s)
unfolding destroy_reader delete_reader
destroy_reader-Conserves s h =
    let i = record s.input { reader = false } in
    rw (abandoned-detached s.closed s.input) (record {
      conserved =
          unfold finish_deferred_close in
          (rw (k.same_buffer, k.same_pending) (sym (append-nil (unread s.input []))));
      granted_all =
          unfold finish_deferred_close in
          maybe_close_stream-granted (record s { input = record s.input { reader = false } });
      resting =
          finish_deferred_close-IsResting
            (record {
              stream = record s { input = record s.input { reader = false } };
              events = maybe_close_stream (record s { input = record s.input { reader = false } });
              delivered = [];
              closes = false;
            })
            h.outside h.is_stored (waits h.waits) (h.behind_end);
    })
  where
    k : Keeps (record s.input { reader = false }) (settled (record s.input { reader = false }))
    k = settled-Keeps (record s.input { reader = false })

    waits : WaitsRightly s.input → WaitsRightly (record s.input { reader = false })
    waits (inl e) = inl e
    waits (inr e) = inr e

async_read_some-Conserves :
    (xs : List Reaction) (s : NgHttp2Stream) (r : Read)
    → IsResting s.input
    → Conserves (unread s.input []) [] (async_read_some xs s r)
unfolding async_read_some
async_read_some-Conserves xs s r h =
    if_both (λ (p : Pass). Conserves (unread s.input []) [] p) (r.size == 0)
      (λ _. record {
        conserved = sym (append-nil (unread s.input []));
        granted_all = refl;
        resting = h;
      })
      (λ _. of_left s.input (
        call_read_handler-Conserves xs
          (record s { input = record s.input { read_handler = some r } }) [] h.outside h.is_stored
          h.behind_end))

pub pass-Conserves :
    (x : Happening) (s : NgHttp2Stream)
    → IsResting s.input
    → Conserves (unread s.input []) (arrived_by x) (pass s x)
unfolding pass
pass-Conserves (arrives chunk xs) s h =
    unfold on_data in
    of_left s.input (call_read_handler-Conserves xs s chunk h.outside h.is_stored h.behind_end)
pass-Conserves (ends xs) s h =
    unfold on_eof in
    of_left s.input (
      call_read_handler-Conserves xs (record s { input = record s.input { eof_received = true } })
        [] h.outside h.is_stored (inr refl))
pass-Conserves (reads r xs) s h = async_read_some-Conserves xs s r h
pass-Conserves cancels s h = cancel_read-Conserves s h
pass-Conserves drops s h = destroy_reader-Conserves s h

-- Over any sequence of chunks, reads, cancellations and ends, and the end of the reader, with any
-- buffers and any reads that completions set off, from a stream at rest: what was delivered,
-- followed by what is unread, is what was unread before followed by what arrived; the peer has been
-- granted credit for exactly the bytes delivered; and the stream is at rest again, so that a read
-- waits only while nothing is unread and the end has not come, and no deferred close is overdue.
pub pass_all-Conserves :
    (xs : List Happening) (s : NgHttp2Stream)
    → IsResting s.input
    → Conserves (unread s.input []) (arrived xs) (pass_all s xs)
unfolding pass_all
pass_all-Conserves [] s h = record {
  conserved = sym (append-nil (unread s.input []));
  granted_all = refl;
  resting = h;
}
pass_all-Conserves (x ∷ xs) s h =
    let p = pass s x in
    let q = pass_all p.stream xs in
    let first = pass-Conserves x s h in
    let rest = pass_all-Conserves xs p.stream first.resting in
    record {
      conserved =
          append_assoc p.delivered q.delivered (unread q.stream.input [])
          ∙ ap (◌++◌ p.delivered) rest.conserved
          ∙ sym (append_assoc p.delivered (unread p.stream.input []) (arrived xs))
          ∙ ap (λ t. t ++ arrived xs) first.conserved
          ∙ append_assoc (unread s.input []) (arrived_by x) (arrived xs);
      granted_all = omega (
        arith,
        total-append granted p.events q.events,
        length-append p.delivered q.delivered,
        first.granted_all,
        rest.granted_all,
      );
      resting = rest.resting;
    }

-- Destroying the reader discards nothing of the body: the buffers and the end of the body are as
-- they were, whatever state the stream is in.
pub destroy_reader-Keeps : (s : NgHttp2Stream) → Keeps s.input (destroy_reader s).stream.input
unfolding destroy_reader delete_reader finish_deferred_close
destroy_reader-Keeps s = rw (abandoned-detached s.closed s.input) (
    let k = settled-Keeps (record s.input { reader = false }) in
    record {
      same_buffer = k.same_buffer;
      same_pending = k.same_pending;
      same_end = record { same_eof = k.same_end.same_eof; deferred = k.same_end.deferred };
    })
