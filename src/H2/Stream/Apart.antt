-- ===== src/H2/Stream/Apart.antt =====
-- Reading leaves the outgoing body, the answer and the close of a stream alone, src/h2/stream.cpp.
use anyhttp.Prelude.{
  ◌≡◌, refl, ◌∙◌, true, false, not, ◌||◌, Option, none, some, List, [], ◌∷◌, Bytes, is_empty, ◌==◌,
  if_both,
}
use anyhttp.Completion.{
  Code, eof, partial_message, Read, Reaction, again, leave, drop_reader, is_some,
}
use anyhttp.H2.State.{Incoming, NgHttp2Stream, Change, reading_finished}
use anyhttp.H2.Stream.Reading.{
  react, advance, copy_out, Loop, stop, deliver, iterate, read_loop, end_with, eof_loop, conclude,
  after_loop, take_view, run, next_reaction, Pass, attempt, call_read_handler,
  finish_deferred_close, destroy_reader, delete_reader,
}

-- All but the incoming body is the same.
pub record Apart (s t : NgHttp2Stream) : Type 0 where
  pub same_output : t.output ≡ s.output
  pub same_answer : t.answer ≡ s.answer
  pub same_closed : t.closed ≡ s.closed

Apart-trans : (s t u : NgHttp2Stream) → Apart s t → Apart t u → Apart s u
Apart-trans s t u a b = record {
  same_output = b.same_output ∙ a.same_output;
  same_answer = b.same_answer ∙ a.same_answer;
  same_closed = b.same_closed ∙ a.same_closed;
}

same : (s : NgHttp2Stream) (i : Incoming) → Apart s (record s { input = i })
same s i = record { same_output = refl; same_answer = refl; same_closed = refl }

react-Apart : (s : NgHttp2Stream) (x : Reaction) → Apart s (react s x).0
react-Apart s leave = unfold react in same s s.input
react-Apart s drop_reader =
    unfold react in
    if_both (λ (t : Change). Apart s t.0) s.input.reader
      (λ _. unfold destroy_reader delete_reader finish_deferred_close in same s _)
      (λ _. same s s.input)
react-Apart s (again r) =
    unfold react in
    if_both (λ (t : Change). Apart s t.0) (not s.input.reader) (λ _. same s s.input)
      (λ _.
        if_both (λ (t : Change). Apart s t.0) (r.size == 0) (λ _. same s s.input) (λ _. same s _))

iterate-Apart :
    (go_on : NgHttp2Stream → Bytes → Loop) (x : Reaction) (back : List Reaction) (s : NgHttp2Stream)
    (view : Bytes) (o : Option Read)
    → ((t : NgHttp2Stream) (v : Bytes) → Apart t (go_on t v).stream)
    → Apart s (iterate go_on x back s view o).stream
unfolding iterate deliver
iterate-Apart go_on x back s view none h = same s s.input
iterate-Apart go_on x back s view (some r) h =
    let c = record s { input = (copy_out s.input r.size).0 } in
    let t = react c x in
    let j = advance t.0.input view in
    if_both (λ (l : Loop). Apart s l.stream) (is_empty s.input.read_buffer) (λ _. same s s.input)
      (λ _.
        Apart-trans s (record t.0 { input = j.0 }) _
          (Apart-trans s t.0 (record t.0 { input = j.0 })
            (Apart-trans s c t.0 (same s c.input) (react-Apart c x)) (same t.0 j.0))
          (h (record t.0 { input = j.0 }) j.1))

read_loop-Apart :
    (xs : List Reaction) (s : NgHttp2Stream) (view : Bytes) → Apart s (read_loop xs s view).stream
unfolding read_loop
read_loop-Apart [] s view =
    iterate-Apart (stop []) leave [] s view s.input.read_handler (λ t v. same t t.input)
read_loop-Apart (x ∷ xs) s view =
    iterate-Apart (read_loop xs) x (x ∷ xs) s view s.input.read_handler (read_loop-Apart xs)

end_with-Apart :
    (go_on : NgHttp2Stream → Change) (ec : Code) (x : Reaction) (s : NgHttp2Stream)
    (o : Option Read)
    → ((t : NgHttp2Stream) → Apart t (go_on t).0)
    → Apart s (end_with go_on ec x s o).0
unfolding end_with
end_with-Apart go_on ec x s none h = same s s.input
end_with-Apart go_on ec x s (some r) h =
    let c = record s { input = record s.input { read_handler = none } } in
    let t = react c x in
    Apart-trans s t.0 _ (Apart-trans s c t.0 (same s c.input) (react-Apart c x)) (h t.0)

eof_loop-Apart : (xs : List Reaction) (s : NgHttp2Stream) → Apart s (eof_loop xs s).0
unfolding eof_loop
eof_loop-Apart [] s =
    end_with-Apart (λ t. (t, [])) eof leave s s.input.read_handler (λ t. same t t.input)
eof_loop-Apart (x ∷ xs) s =
    end_with-Apart (eof_loop xs) eof x s s.input.read_handler (eof_loop-Apart xs)

conclude-Apart : (xs : List Reaction) (s : NgHttp2Stream) → Apart s (conclude xs s).0
unfolding conclude
conclude-Apart xs s =
    if_both (λ (t : Change). Apart s t.0) s.input.eof_received (λ _. eof_loop-Apart xs s)
      (λ _.
        if_both (λ (t : Change). Apart s t.0) (reading_finished s.input || s.closed)
          (λ _.
            end_with-Apart (λ t. (t, [])) partial_message (next_reaction xs) s s.input.read_handler
              (λ t. same t t.input))
          (λ _. same s s.input))

after_loop-Apart : (l : Loop) → Apart l.stream (after_loop l).0
unfolding after_loop
after_loop-Apart l =
    if_both (λ (t : Change). Apart l.stream t.0) (is_empty l.stream.input.read_buffer)
      (λ _. conclude-Apart l.reactions l.stream) (λ _. same l.stream _)

run-Apart : (xs : List Reaction) (s : NgHttp2Stream) (view : Bytes) → Apart s (run xs s view).stream
unfolding run
run-Apart xs s view =
    let v = take_view s.input view in
    let t = record s { input = record v.0 { inside_call_read_handler = true } } in
    let l = read_loop xs t v.1 in
    let u = (after_loop l).0 in
    Apart-trans s u (record u { input = record u.input { inside_call_read_handler = false } })
      (Apart-trans s l.stream u
        (Apart-trans s t l.stream (same s t.input) (read_loop-Apart xs t v.1)) (after_loop-Apart l))
      (same u (record u.input { inside_call_read_handler = false }))

pub call_read_handler-Apart :
    (xs : List Reaction) (s : NgHttp2Stream) (view : Bytes)
    → Apart s (call_read_handler xs s view).stream
unfolding call_read_handler finish_deferred_close attempt
call_read_handler-Apart xs s view =
    let a =
      if_both (λ (p : Pass). Apart s p.stream) (not (is_some s.input.read_handler)) (λ _. same s _)
        (λ _.
          if_both (λ (p : Pass). Apart s p.stream) s.input.inside_call_read_handler
            (λ _. same s s.input) (λ _. run-Apart xs s view)) in
    record { same_output = a.same_output; same_answer = a.same_answer; same_closed = a.same_closed }
