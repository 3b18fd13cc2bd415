-- ===== src/H2/Stream/Resting.antt =====
-- An incoming body of src/h2/stream.cpp between two calls.
use anyhttp.Prelude.{◌≡◌, ◌∙◌, inl, inr, ◌⊎◌, true, false, none, List, Bytes, arith}
use anyhttp.Completion.{Reaction}
use anyhttp.H2.State.{Incoming, NgHttp2Stream}
use anyhttp.H2.Stream.Reading.{
  Pass, attempt, call_read_handler, finish_deferred_close, settled, closes_now,
}
use anyhttp.H2.Stream.Integrity.{IsStored, SameEnd}
use anyhttp.H2.Stream.Delivery.{attempt-Serves, settled-Keeps}
use anyhttp.H2.Stream.Waiting.{WaitsRightly, attempt-WaitsRightly, attempt-outside}

-- Between two calls: no call is on the stack, the stored buffers are in order, a read waits only
-- while there is nothing to answer it with, a close is deferred only behind the end of the body, and
-- none that could be made is.
pub record IsResting (i : Incoming) : Type 0 where
  pub outside : i.inside_call_read_handler ≡ false
  pub is_stored : IsStored i
  pub waits : WaitsRightly i
  pub behind_end : (i.close_deferred ≡ false) ⊎ (i.eof_received ≡ true)
  pub not_due : closes_now i ≡ false

settled-not_due : (i : Incoming) → closes_now (settled i) ≡ false
unfolding settled closes_now
settled-not_due i = ground arith

settled-outside : (i : Incoming) → (settled i).inside_call_read_handler ≡ i.inside_call_read_handler
unfolding settled
settled-outside i = ground arith

settled-handler : (i : Incoming) → (settled i).read_handler ≡ i.read_handler
unfolding settled
settled-handler i = ground arith

WaitsRightly-settled : (i : Incoming) → WaitsRightly i → WaitsRightly (settled i)
WaitsRightly-settled i (inl e) = inl (settled-handler i ∙ e)
WaitsRightly-settled i (inr (u, e)) =
    let k = settled-Keeps i in inr (rw (k.same_buffer, k.same_pending) u, k.same_end.same_eof ∙ e)

abbrev pub BehindEnd : Incoming → Type 0
BehindEnd i = (i.close_deferred ≡ false) ⊎ (i.eof_received ≡ true)

SameEnd-BehindEnd : (i j : Incoming) → SameEnd i j → BehindEnd i → BehindEnd j
SameEnd-BehindEnd i j h b = ground (arith, h.same_eof, h.deferred)

pub finish_deferred_close-IsResting :
    (p : Pass)
    → p.stream.input.inside_call_read_handler ≡ false
    → IsStored p.stream.input
    → WaitsRightly p.stream.input
    → BehindEnd p.stream.input
    → IsResting (finish_deferred_close p).stream.input
unfolding finish_deferred_close
finish_deferred_close-IsResting p out st w b =
    let k = settled-Keeps p.stream.input in
    record {
      outside = settled-outside p.stream.input ∙ out;
      is_stored = rw (k.same_buffer, k.same_pending) st;
      waits = WaitsRightly-settled p.stream.input w;
      behind_end = SameEnd-BehindEnd p.stream.input (settled p.stream.input) k.same_end b;
      not_due = settled-not_due p.stream.input;
    }

pub call_read_handler-IsResting :
    (xs : List Reaction) (s : NgHttp2Stream) (view : Bytes)
    → s.input.inside_call_read_handler ≡ false
    → IsStored s.input
    → (s.input.close_deferred ≡ false) ⊎ (s.input.eof_received ≡ true)
    → IsResting (call_read_handler xs s view).stream.input
unfolding call_read_handler
call_read_handler-IsResting xs s view out h b =
    let a = attempt-Serves xs s view h out in
    finish_deferred_close-IsResting (attempt xs s view) (attempt-outside xs s view out) a.is_stored
      (attempt-WaitsRightly xs s view h out)
      (SameEnd-BehindEnd s.input (attempt xs s view).stream.input a.same_end (b))

pub cancel_read-closes :
    (i : Incoming) → IsResting i → closes_now (record i { read_handler = none }) ≡ false
cancel_read-closes i h = unfold closes_now in ground (arith, h.waits, h.behind_end, h.not_due)
