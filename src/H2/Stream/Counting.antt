-- ===== src/H2/Stream/Counting.antt =====
-- What the calls of `call_read_handler` of src/h2/stream.cpp add up to.
use anyhttp.Prelude.{
  ℕ, ◌+◌, ◌≡◌, refl, false, not, ◌||◌, ◌&&◌, Option, none, some, List, [], ◌∷◌, ◌++◌, Bytes,
  is_empty, ◌==◌, arith, if_both,
}
use anyhttp.Completion.{
  Code, success, eof, partial_message, at_once, Read, Reaction, again, leave, drop_reader,
}
use anyhttp.H2.State.{
  NgHttp2Stream, Change, Event, Reset, consume_stream, start_write, submit_rst_stream, read_done,
  stream_closed,
}
use anyhttp.H2.Stream.Reading.{
  react, advance, copy_out, Loop, stop, deliver, iterate, read_loop, end_with, eof_loop,
  next_reaction, destroy_reader, delete_reader, maybe_close_stream, abandoned,
  finish_deferred_close,
}

abbrev pub total : (Event → ℕ) → List Event → ℕ
total w [] = 0
total w (e ∷ es) = w e + total w es

pub total-append :
    (w : Event → ℕ) (es fs : List Event) → total w (es ++ fs) ≡ total w es + total w fs
total-append w [] fs = omega arith
total-append w (e ∷ es) fs = omega (arith, total-append w es fs)

abbrev pub granted : Event → ℕ
granted (consume_stream n) = n
granted _ = 0

-- How many reads are told of the end, and how many of a truncation.
abbrev pub ended : Event → ℕ
ended (read_done w h eof bytes) = 1
ended _ = 0

abbrev pub truncated : Event → ℕ
truncated (read_done w h partial_message bytes) = 1
truncated _ = 0

-- What does not count successful reads, resets or signals to the write loop.
pub record IsBlind (w : Event → ℕ) : Type 0 where
  pub to_reads : (h : ℕ) (bytes : Bytes) → w (read_done at_once h success bytes) ≡ 0
  pub to_starts : w start_write ≡ 0
  pub to_resets : (c : Reset) → w (submit_rst_stream c) ≡ 0

pub IsBlind-granted : IsBlind granted
IsBlind-granted = record { to_reads = λ h bytes. refl; to_starts = refl; to_resets = λ c. refl }

pub IsBlind-ended : IsBlind ended
IsBlind-ended = record { to_reads = λ h bytes. refl; to_starts = refl; to_resets = λ c. refl }

pub IsBlind-truncated : IsBlind truncated
IsBlind-truncated = record { to_reads = λ h bytes. refl; to_starts = refl; to_resets = λ c. refl }

module _ (w : Event → ℕ) (blind : IsBlind w) where
  pub maybe_close_stream-total : (s : NgHttp2Stream) → total w (maybe_close_stream s) ≡ 0
  unfolding maybe_close_stream
  maybe_close_stream-total s =
      if_both (λ (es : List Event). total w es ≡ 0) (s.closed || s.output.writer) (λ _. refl)
        (λ _.
          if_both (λ (es : List Event). total w es ≡ 0)
            (not s.output.eof_submitted || (not s.input.eof_received && not s.input.reader))
            (λ _.
              let sum : total w (submit_rst_stream stream_closed ∷ start_write ∷ []) ≡ 0 =
                omega (arith, blind.to_resets stream_closed, blind.to_starts) in
              sum)
            (λ _. refl))

  pub react-total : (s : NgHttp2Stream) (x : Reaction) → total w (react s x).1 ≡ 0
  unfolding react
  react-total s leave = refl
  react-total s drop_reader =
      if_both (λ (t : Change). total w t.1 ≡ 0) s.input.reader
        (λ _.
          unfold destroy_reader delete_reader finish_deferred_close in
          maybe_close_stream-total
            (record s { input = abandoned s.closed (record s.input { reader = false }) }))
        (λ _. refl)
  react-total s (again r) =
      if_both (λ (t : Change). total w t.1 ≡ 0) (not s.input.reader) (λ _. refl)
        (λ _.
          if_both (λ (t : Change). total w t.1 ≡ 0) (r.size == 0)
            (λ _.
              let sum : total w (read_done at_once r.handler success [] ∷ []) ≡ 0 =
                omega (arith, blind.to_reads r.handler []) in
              sum)
            (λ _. refl))

  iterate-total :
      (go_on : NgHttp2Stream → Bytes → Loop) (x : Reaction) (back : List Reaction)
      (s : NgHttp2Stream) (view : Bytes) (o : Option Read)
      → ((t : NgHttp2Stream) (v : Bytes) → total w (go_on t v).events ≡ 0)
      → total w (iterate go_on x back s view o).events ≡ 0
  unfolding iterate deliver
  iterate-total go_on x back s view none h = refl
  iterate-total go_on x back s view (some r) h =
      let t = react (record s { input = (copy_out s.input r.size).0 }) x in
      let j = advance t.0.input view in
      if_both (λ (l : Loop). total w l.events ≡ 0) (is_empty s.input.read_buffer) (λ _. refl)
        (λ _.
          let sum : total w (
                read_done at_once r.handler success (copy_out s.input r.size).1 ∷ t.1
                ++ (go_on (record t.0 { input = j.0 }) j.1).events)
              ≡ 0 =
            omega (
              arith,
              total-append w t.1 (go_on (record t.0 { input = j.0 }) j.1).events,
              blind.to_reads r.handler (copy_out s.input r.size).1,
              react-total (record s { input = (copy_out s.input r.size).0 }) x,
              h (record t.0 { input = j.0 }) j.1,
            ) in
          sum)

  pub read_loop-total :
      (xs : List Reaction) (s : NgHttp2Stream) (view : Bytes)
      → total w (read_loop xs s view).events ≡ 0
  unfolding read_loop
  read_loop-total [] s view =
      iterate-total (stop []) leave [] s view s.input.read_handler (λ t v. refl)
  read_loop-total (x ∷ xs) s view =
      iterate-total (read_loop xs) x (x ∷ xs) s view s.input.read_handler (read_loop-total xs)

  pub end_with-total :
      (go_on : NgHttp2Stream → Change) (ec : Code) (x : Reaction) (s : NgHttp2Stream)
      (o : Option Read)
      → ((h : ℕ) → w (read_done at_once h ec []) ≡ 0)
      → ((t : NgHttp2Stream) → total w (go_on t).1 ≡ 0)
      → total w (end_with go_on ec x s o).1 ≡ 0
  unfolding end_with
  end_with-total go_on ec x s none e h = refl
  end_with-total go_on ec x s (some r) e h =
      let t = react (record s { input = record s.input { read_handler = none } }) x in
      omega (
        arith,
        total-append w t.1 (go_on t.0).1,
        e r.handler,
        react-total (record s { input = record s.input { read_handler = none } }) x,
        h t.0,
      )

  pub eof_loop-total :
      (xs : List Reaction) (s : NgHttp2Stream)
      → ((h : ℕ) → w (read_done at_once h eof []) ≡ 0)
      → total w (eof_loop xs s).1 ≡ 0
  unfolding eof_loop
  eof_loop-total [] s e =
      end_with-total (λ t. (t, [])) eof leave s s.input.read_handler e (λ t. refl)
  eof_loop-total (x ∷ xs) s e =
      end_with-total (eof_loop xs) eof x s s.input.read_handler e (λ t. eof_loop-total xs t e)

  pub truncation-total :
      (xs : List Reaction) (s : NgHttp2Stream)
      → ((h : ℕ) → w (read_done at_once h partial_message []) ≡ 0)
      → total w
          (end_with (λ t. (t, [])) partial_message (next_reaction xs) s s.input.read_handler).1
        ≡ 0
  truncation-total xs s e =
      end_with-total (λ t. (t, [])) partial_message (next_reaction xs) s s.input.read_handler e
        (λ t. refl)
