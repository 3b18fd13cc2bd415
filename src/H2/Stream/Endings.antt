-- ===== src/H2/Stream/Endings.antt =====
-- What a read on a stream of src/h2/stream.cpp is told of the end of the body, or of its loss.
use anyhttp.Prelude.{◌≡◌, refl, inl, true, false, Option, none, some, [], ◌==◌, if_both}
use anyhttp.Completion.{canceled, posted, Read}
use anyhttp.H2.State.{NgHttp2Stream, done_reading}
use anyhttp.H2.Stream.Reading.{
  Pass, finish_deferred_close, on_data, on_eof, async_read_some, cancel_read, destroy_reader,
  delete_reader, abandoned,
}
use anyhttp.H2.Stream.Counting.{
  total, ended, truncated, IsBlind-ended, IsBlind-truncated, maybe_close_stream-total,
}
use anyhttp.H2.Stream.Reports.{ReportsRightly, call_read_handler-ReportsRightly}
use anyhttp.H2.Stream.Resting.{IsResting}
use anyhttp.H2.Stream.Life.{Happening, arrives, ends, reads, cancels, drops, pass}

read_done_with-silent :
    (o : Option Read)
    → (total ended (done_reading posted o canceled) ≡ 0)
      × (total truncated (done_reading posted o canceled) ≡ 0)
read_done_with-silent none = (refl, refl)
read_done_with-silent (some r) = (refl, refl)

-- Whatever happens to the reading side of a stream at rest, a read is told of the end of the body
-- only if all of it has been delivered and the end has come; and of a truncation only if all that
-- came has been delivered, the end has not come, and the stream is closed or has no reader.
pub pass-ReportsRightly :
    (x : Happening) (s : NgHttp2Stream)
    → IsResting s.input
    → ReportsRightly (pass s x).stream (pass s x).events
unfolding pass
pass-ReportsRightly (arrives chunk xs) s h =
    unfold on_data in (call_read_handler-ReportsRightly xs s chunk h.is_stored).0
pass-ReportsRightly (ends xs) s h =
    unfold on_eof in
    (call_read_handler-ReportsRightly xs
      (record s { input = record s.input { eof_received = true } }) [] h.is_stored).0
pass-ReportsRightly (reads r xs) s h =
    unfold async_read_some in
    if_both (λ (p : Pass). ReportsRightly p.stream p.events) (r.size == 0)
      (λ _. record { of_ends = inl refl; of_truncations = inl refl })
      (λ _.
        (call_read_handler-ReportsRightly xs
          (record s { input = record s.input { read_handler = some r } }) [] h.is_stored).0)
pass-ReportsRightly cancels s h =
    let (e, t) = read_done_with-silent s.input.read_handler in
    unfold cancel_read in record { of_ends = inl e; of_truncations = inl t }
pass-ReportsRightly drops s h =
    let t = record s { input = abandoned s.closed (record s.input { reader = false }) } in
    unfold destroy_reader delete_reader finish_deferred_close in
    record {
      of_ends = inl (maybe_close_stream-total ended IsBlind-ended t);
      of_truncations = inl (maybe_close_stream-total truncated IsBlind-truncated t);
    }
