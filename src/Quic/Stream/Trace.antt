-- ===== src/Quic/Stream/Trace.antt =====
-- A stream's incoming body over its life: chunks that arrive, the end, reads and cancellations in
-- any order, src/quic/stream.cpp.
use anyhttp.Prelude.{
  ℕ, ◌≡◌, refl, sym, ap, ◌∙◌, inl, inr, true, List, [], ◌∷◌, ◌++◌, Bytes, length, length-append,
  is_empty, All, ◌==◌, arith, Bool-cases, append_assoc, append-nil,
}
use mathlib.Core.Option.{Option, none, some}
use anyhttp.Completion.{Code, canceled}
use anyhttp.Quic.Stream.State.{Incoming, QuicStream, Read}
use anyhttp.Quic.Stream.Lifecycle.{read_done_with}
use anyhttp.Quic.Stream.Input.{
  Reaction, Pass, idle, call_read_handler, park, on_data_chunk, on_eof, cancel_read,
  async_read_some,
}
use anyhttp.Queue.{parked, parked-IsQueue}
use anyhttp.Quic.Stream.Integrity.{buffered, IsQueued, left}
use anyhttp.Quic.Stream.Delivery.{
  Reads, Delivers, credit, credit-append, call_read_handler-Delivers,
}

-- One thing that happens to the reading side, with the reactions of the code that is resumed.
pub data Happening : Type 0 where
  arrives : Bytes → List Reaction → Happening
  ends : List Reaction → Happening
  reads : Read → List Reaction → Happening
  cancels : Happening

unfoldable pub happen : QuicStream → Happening → Pass
unfolding on_data_chunk on_eof async_read_some cancel_read
happen s (arrives chunk xs) = on_data_chunk xs s chunk
happen s (ends xs) = on_eof xs s
happen s (reads r xs) = async_read_some xs s r
happen s cancels =
    let (t, events) = cancel_read s in record { stream = t; events = events; delivered = [] }

unfoldable pub live : List Happening → QuicStream → Pass
unfolding happen
live [] s = idle s
live (x ∷ xs) s =
    let p = happen s x in
    let q = live xs p.stream in
    record {
      stream = q.stream;
      events = p.events ++ q.events;
      delivered = p.delivered ++ q.delivered;
    }

abbrev pub arrived_by : Happening → Bytes
arrived_by (arrives chunk xs) = chunk
arrived_by _ = []

abbrev pub arrived : List Happening → Bytes
arrived [] = []
arrived (x ∷ xs) = arrived_by x ++ arrived xs

-- The reader stays.
abbrev pub Stays : Happening → Type 0
Stays (arrives chunk xs) = All Reads xs
Stays (ends xs) = All Reads xs
Stays (reads r xs) = All Reads xs
Stays cancels = Unit {0}

-- Between two happenings nothing is being delivered.
pub record IsSettled (i : Incoming) : Type 0 where
  pub is_queued : IsQueued i
  pub settled : i.incoming ≡ []

-- What was delivered, and what is left, is what was there and what arrived; the credit is what was
-- delivered.
pub record Conserves (before new : Bytes) (p : Pass) : Type 0 where
  pub conserved : p.delivered ++ buffered p.stream.input ≡ before ++ new
  pub still_settled : IsSettled p.stream.input
  pub granted : credit p.events ≡ length p.delivered

park-lem : (i : Incoming) → IsQueued i → (buffered (park i) ≡ buffered i) × IsSettled (park i)
park-lem i q = elim (Bool-cases (is_empty i.incoming)) [
  | inl e ↦ unfold park in rw (e, park) (refl, record { is_queued = q; settled = nil i.incoming e })
  | inr e ↦
      unfold park in
      rw (e, park)
        (
          append-nil _ ∙ parked i.read_head i.pending_read i.incoming q,
          record {
            is_queued = parked-IsQueue i.read_head i.pending_read i.incoming q e;
            settled = refl;
          },
        )
]
  where
    nil : (s : Bytes) → is_empty s ≡ true → s ≡ []
    nil [] h = refl
    nil (c ∷ s) h = cc

of_Delivers :
    (s : QuicStream) (p : Pass) (n : ℕ)
    → IsSettled s.input
    → n ≡ length p.delivered
    → Delivers s p n
    → Conserves (buffered s.input) [] p
of_Delivers s p n v e d = record {
  conserved = d.serves.in_order ∙ sym (append-nil (buffered s.input));
  still_settled = record { is_queued = d.serves.is_queued; settled = d.serves.settled v.settled };
  granted = d.grants ∙ e;
}

on_data_chunk-Conserves :
    (xs : List Reaction) (s : QuicStream) (chunk : Bytes)
    → All Reads xs
    → IsSettled s.input
    → Conserves (buffered s.input) chunk (on_data_chunk xs s chunk)
on_data_chunk-Conserves xs s [] h v =
    unfold on_data_chunk in
    record { conserved = sym (append-nil (buffered s.input)); still_settled = v; granted = refl }
on_data_chunk-Conserves xs s (c ∷ cs) h v =
    let offered = record s { input = record s.input { incoming = c ∷ cs } } in
    let d = call_read_handler-Delivers xs offered h v.is_queued in
    let (same, now_settled) =
      park-lem (call_read_handler xs offered).stream.input d.serves.is_queued in
    unfold on_data_chunk in
    record {
      conserved =
          ap (◌++◌ (call_read_handler xs offered).delivered) same ∙ d.serves.in_order ∙ shown;
      still_settled = now_settled;
      granted = d.grants;
    }
  where
    shown : left s.input.read_head s.input.pending_read ++ c ∷ cs ≡ buffered s.input ++ c ∷ cs
    shown =
        ap (λ t. t ++ c ∷ cs)
          (sym (append-nil (left s.input.read_head s.input.pending_read))
            ∙ ap (◌++◌ (left s.input.read_head s.input.pending_read)) (sym v.settled))

async_read_some-Conserves :
    (xs : List Reaction) (s : QuicStream) (r : Read)
    → All Reads xs
    → IsSettled s.input
    → Conserves (buffered s.input) [] (async_read_some xs s r)
async_read_some-Conserves xs s r h v = elim (Bool-cases (r.size == 0)) [
  | inl z ↦
      unfold async_read_some in
      rw (z, async_read_some)
        (record {
          conserved = sym (append-nil (buffered s.input));
          still_settled = v;
          granted = refl;
        })
  | inr z ↦
      let armed = record s { input = record s.input { read_handler = some r } } in
      unfold async_read_some in
      rw (z, async_read_some)
        (of_Delivers armed (call_read_handler xs armed)
          (length (call_read_handler xs armed).delivered)
          (record { is_queued = v.is_queued; settled = v.settled }) refl
          (call_read_handler-Delivers xs armed h v.is_queued))
]

read_done_with-credit : (o : Option Read) (ec : Code) → credit (read_done_with o ec) ≡ 0
read_done_with-credit none ec = refl
read_done_with-credit (some r) ec = refl

happen-Conserves :
    (x : Happening) (s : QuicStream)
    → Stays x
    → IsSettled s.input
    → Conserves (buffered s.input) (arrived_by x) (happen s x)
unfolding happen
happen-Conserves (arrives chunk xs) s h v = on_data_chunk-Conserves xs s chunk h v
happen-Conserves (ends xs) s h v =
    let ended = record s { input = record s.input { eof_received = true } } in
    of_Delivers ended (call_read_handler xs ended) (length (call_read_handler xs ended).delivered)
      (record { is_queued = v.is_queued; settled = v.settled }) refl
      (call_read_handler-Delivers xs ended h v.is_queued)
happen-Conserves (reads r xs) s h v = async_read_some-Conserves xs s r h v
happen-Conserves cancels s h v = record {
  conserved = sym (append-nil (buffered s.input));
  still_settled = record { is_queued = v.is_queued; settled = v.settled };
  granted = read_done_with-credit s.input.read_handler canceled;
}

-- Over any sequence of chunks, reads, cancellations and ends, with any buffers and any reads that
-- completions set off, as long as the reader stays and from a state in
-- which nothing is being delivered: what was delivered, followed by what is
-- still buffered, is what was buffered before followed by what arrived; and the peer has been
-- granted credit for exactly the bytes delivered.
pub live-Conserves :
    (xs : List Happening) (s : QuicStream)
    → All Stays xs
    → IsSettled s.input
    → Conserves (buffered s.input) (arrived xs) (live xs s)
unfolding live
live-Conserves [] s h v = record {
  conserved = sym (append-nil (buffered s.input));
  still_settled = v;
  granted = refl;
}
live-Conserves (x ∷ xs) s h v =
    let p = happen s x in
    let q = live xs p.stream in
    let first = happen-Conserves x s h.0 v in
    let rest = live-Conserves xs p.stream h.1 first.still_settled in
    record {
      conserved =
          append_assoc p.delivered q.delivered (buffered q.stream.input)
          ∙ ap (◌++◌ p.delivered) rest.conserved
          ∙ sym (append_assoc p.delivered (buffered p.stream.input) (arrived xs))
          ∙ ap (λ t. t ++ arrived xs) first.conserved
          ∙ append_assoc (buffered s.input) (arrived_by x) (arrived xs);
      still_settled = rest.still_settled;
      granted = omega (
        arith,
        credit-append p.events q.events,
        length-append p.delivered q.delivered,
        first.granted,
        rest.granted,
      );
    }
