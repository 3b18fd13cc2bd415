-- ===== src/H2/Stream/Delivery.antt =====
-- One call of `call_read_handler` of src/h2/stream.cpp: the body before and after it.
use anyhttp.Prelude.{
  ◌≡◌, refl, sym, ap, ◌∙◌, inr, Bool, true, false, not, ◌||◌, Option, none, some, List, [], ◌∷◌,
  ◌++◌, Bytes, is_empty, arith, if_both, append_assoc, append-nil,
}
use anyhttp.Completion.{Code, eof, partial_message, Read, Reaction, leave, is_some}
use anyhttp.Queue.{concat, NonEmpty, IsQueue, left, length-nil, All-snoc, concat-append}
use anyhttp.H2.State.{Incoming, NgHttp2Stream, Change, reading_finished}
use anyhttp.H2.Stream.Reading.{
  react, Loop, read_loop, end_with, eof_loop, conclude, store_rest, after_loop, park, take_view,
  run, next_reaction, Pass, attempt, finish_deferred_close, call_read_handler, settled,
}
use anyhttp.H2.Stream.Integrity.{
  SameEnd, SameEnd-trans, unread, IsStored, IsViewed, IsLooping, Keeps, Keeps-refl, react-Keeps,
  read_loop-Delivers,
}

end_with-Keeps :
    (go_on : NgHttp2Stream → Change) (ec : Code) (x : Reaction)
    → ((t : NgHttp2Stream) → Keeps t.input (go_on t).0.input)
    → (s : NgHttp2Stream) (o : Option Read) → Keeps s.input (end_with go_on ec x s o).0.input
unfolding end_with
end_with-Keeps go_on ec x h s none = Keeps-refl s.input
end_with-Keeps go_on ec x h s (some r) =
    let t = record s { input = record s.input { read_handler = none } } in
    let k = react-Keeps t x in
    let more = h (react t x).0 in
    record {
      same_buffer = more.same_buffer ∙ k.same_buffer;
      same_pending = more.same_pending ∙ k.same_pending;
      same_end =
          SameEnd-trans s.input (react t x).0.input _
            (record { same_eof = k.same_end.same_eof; deferred = k.same_end.deferred })
            more.same_end;
    }

eof_loop-Keeps : (xs : List Reaction) (s : NgHttp2Stream) → Keeps s.input (eof_loop xs s).0.input
unfolding eof_loop
eof_loop-Keeps [] s =
    end_with-Keeps (λ t. (t, [])) eof leave (λ t. Keeps-refl t.input) s s.input.read_handler
eof_loop-Keeps (x ∷ xs) s =
    end_with-Keeps (eof_loop xs) eof x (eof_loop-Keeps xs) s s.input.read_handler

pub conclude-Keeps :
    (xs : List Reaction) (s : NgHttp2Stream) → Keeps s.input (conclude xs s).0.input
unfolding conclude
conclude-Keeps xs s =
    if_both (λ (t : Change). Keeps s.input t.0.input) s.input.eof_received
      (λ _. eof_loop-Keeps xs s)
      (λ _.
        if_both (λ (t : Change). Keeps s.input t.0.input) (reading_finished s.input || s.closed)
          (λ _.
            end_with-Keeps (λ t. (t, [])) partial_message (next_reaction xs)
              (λ t. Keeps-refl t.input) s s.input.read_handler)
          (λ _. Keeps-refl s.input))

-- A part of the body is `bytes`, and the rest is stored.
pub record Serves (i : Incoming) (view bytes : Bytes) (j : Incoming) : Type 0 where
  pub in_order : bytes ++ unread j [] ≡ unread i view
  pub is_stored : IsStored j
  pub same_end : SameEnd i j

store_rest-Serves :
    (i : Incoming) (view : Bytes)
    → IsLooping i view
    → NonEmpty i.read_buffer
    → Serves i view [] (store_rest i view)
store_rest-Serves i view h n = by_cases i.read_buffer i.pending_read_buffers view h n
  where
    by_cases :
        (head : Bytes) (q : List Bytes) (view : Bytes)
        → IsViewed head q view
        → NonEmpty head
        → Serves
            (record i { read_buffer = head; pending_read_buffers = q })
            view
            []
            (store_rest (record i { read_buffer = head; pending_read_buffers = q }) view)
    by_cases head [] view h n =
        unfold store_rest in
        rw h (record {
          in_order = refl;
          is_stored = (n, tt);
          same_end = record { same_eof = refl; deferred = inr refl };
        })
    by_cases head (c ∷ cs) [] h n =
        unfold store_rest in
        record {
          in_order = refl;
          is_stored = h;
          same_end = record { same_eof = refl; deferred = inr refl };
        }
    by_cases head (c ∷ cs) (v ∷ view) h n =
        unfold store_rest in
        record {
          in_order =
              append-nil (head ++ concat (cs ++ (v ∷ view) ∷ []))
              ∙ ap (◌++◌ head) (concat-append cs (v ∷ view))
              ∙ sym (append_assoc head (concat cs) (v ∷ view));
          is_stored = (n, All-snoc cs (v ∷ view) h.1 refl);
          same_end = record { same_eof = refl; deferred = inr refl };
        }

-- The loop ends with its buffer empty only when nothing is left.
all_taken :
    (head : Bytes) (q : List Bytes) (view : Bytes)
    → IsViewed head q view
    → is_empty head ≡ true
    → (head ≡ []) × (q ≡ []) × (view ≡ [])
all_taken head [] view h e = (length-nil head e, refl, h)
all_taken head (c ∷ cs) view h e = absurd (ground arith)

pub nothing_left :
    (i : Incoming) (view : Bytes)
    → IsLooping i view
    → is_empty i.read_buffer ≡ true
    → Serves i view [] i × (unread i [] ≡ [])
nothing_left i view h e =
    let (a, b, c) = all_taken i.read_buffer i.pending_read_buffers view h e in
    (
      record {
        in_order = rw c refl;
        is_stored = rw (a, b) refl;
        same_end = record { same_eof = refl; deferred = inr refl };
      },
      rw (a, b) refl,
    )

Serves-Keeps :
    (i j k : Incoming) (view bytes : Bytes)
    → Serves i view bytes j
    → Keeps j k
    → Serves i view bytes k
Serves-Keeps i j k view bytes a b = record {
  in_order = rw (b.same_buffer, b.same_pending) a.in_order;
  is_stored = rw (b.same_buffer, b.same_pending) a.is_stored;
  same_end = SameEnd-trans i j k a.same_end b.same_end;
}

pub after_loop-Serves :
    (l : Loop)
    → IsLooping l.stream.input l.view
    → Serves l.stream.input l.view [] (after_loop l).0.input
unfolding after_loop
after_loop-Serves l h =
    if_both (λ (t : Change). Serves l.stream.input l.view [] t.0.input)
      (is_empty l.stream.input.read_buffer)
      (λ e.
        Serves-Keeps l.stream.input l.stream.input (conclude l.reactions l.stream).0.input l.view []
          (nothing_left l.stream.input l.view h e).0 (conclude-Keeps l.reactions l.stream))
      (λ e. store_rest-Serves l.stream.input l.view h e)

pub take_view-IsLooping :
    (i : Incoming) (view : Bytes)
    → IsStored i
    → IsLooping (take_view i view).0 (take_view i view).1
      × (unread (take_view i view).0 (take_view i view).1 ≡ unread i view)
      × SameEnd i (take_view i view).0
take_view-IsLooping i view h = by_cases i.read_buffer i.pending_read_buffers h
  where
    by_cases :
        (head : Bytes) (q : List Bytes)
        → IsQueue head q
        → IsLooping
            (take_view (record i { read_buffer = head; pending_read_buffers = q }) view).0
            (take_view (record i { read_buffer = head; pending_read_buffers = q }) view).1
          × (unread
                (take_view (record i { read_buffer = head; pending_read_buffers = q }) view).0
                (take_view (record i { read_buffer = head; pending_read_buffers = q }) view).1
              ≡ (left head q ++ view))
          × SameEnd i (take_view (record i { read_buffer = head; pending_read_buffers = q }) view).0
    by_cases head [] h =
        unfold take_view in
        rw h (
          refl,
          append-nil (view ++ []) ∙ append-nil view,
          record { same_eof = refl; deferred = inr refl },
        )
    by_cases head (c ∷ cs) h =
        unfold take_view in (h, refl, record { same_eof = refl; deferred = inr refl })

-- The end of a body does not stand on the flag against recursion.
rewrapped :
    {i j : Incoming} {b c : Bool}
    → SameEnd i j
    → SameEnd
        (record i { inside_call_read_handler = b })
        (record j { inside_call_read_handler = c })
rewrapped h = record { same_eof = h.same_eof; deferred = h.deferred }

run-Serves :
    (xs : List Reaction) (s : NgHttp2Stream) (view : Bytes)
    → IsStored s.input
    → Serves s.input view (run xs s view).delivered (run xs s view).stream.input
unfolding run
run-Serves xs s view h =
    let v = take_view s.input view in
    let (looping, same, end) = take_view-IsLooping s.input view h in
    let t = record s { input = record v.0 { inside_call_read_handler = true } } in
    let d = read_loop-Delivers xs t v.1 looping in
    let a = after_loop-Serves (read_loop xs t v.1) d.is_looping in
    record {
      in_order = ap (◌++◌ (read_loop xs t v.1).delivered) a.in_order ∙ d.in_order ∙ same;
      is_stored = a.is_stored;
      same_end = rewrapped (
          SameEnd-trans s.input (read_loop xs t v.1).stream.input _
            (SameEnd-trans s.input t.input _ (rewrapped end) d.same_end) a.same_end);
    }

park-Serves : (i : Incoming) (view : Bytes) → IsStored i → Serves i view [] (park i view)
park-Serves i view h = by_cases i.read_buffer i.pending_read_buffers view h
  where
    by_cases :
        (head : Bytes) (q : List Bytes) (view : Bytes)
        → IsQueue head q
        → Serves
            (record i { read_buffer = head; pending_read_buffers = q })
            view
            []
            (park (record i { read_buffer = head; pending_read_buffers = q }) view)
    by_cases head q [] h =
        unfold park in
        record {
          in_order = refl;
          is_stored = h;
          same_end = record { same_eof = refl; deferred = inr refl };
        }
    by_cases head [] (v ∷ view) h =
        unfold park in
        rw h (record {
          in_order = append-nil _ ∙ append-nil (v ∷ view);
          is_stored = (refl, tt);
          same_end = record { same_eof = refl; deferred = inr refl };
        })
    by_cases head (c ∷ cs) (v ∷ view) h =
        unfold park in
        record {
          in_order =
              append-nil (head ++ concat (cs ++ (v ∷ view) ∷ []))
              ∙ ap (◌++◌ head) (concat-append cs (v ∷ view))
              ∙ sym (append_assoc head (concat cs) (v ∷ view));
          is_stored = (h.0, All-snoc cs (v ∷ view) h.1 refl);
          same_end = record { same_eof = refl; deferred = inr refl };
        }

pub settled-Keeps : (i : Incoming) → Keeps i (settled i)
settled-Keeps i =
    unfold settled in
    record {
      same_buffer = ground arith;
      same_pending = ground arith;
      same_end = record { same_eof = ground arith; deferred = ground arith };
    }

pub finish_deferred_close-Serves :
    (i : Incoming) (view : Bytes) (p : Pass)
    → Serves i view p.delivered p.stream.input
    → Serves i view (finish_deferred_close p).delivered (finish_deferred_close p).stream.input
unfolding finish_deferred_close
finish_deferred_close-Serves i view p h =
    Serves-Keeps i p.stream.input (settled p.stream.input) view p.delivered h
      (settled-Keeps p.stream.input)

pub attempt-Serves :
    (xs : List Reaction) (s : NgHttp2Stream) (view : Bytes)
    → IsStored s.input
    → s.input.inside_call_read_handler ≡ false
    → Serves s.input view (attempt xs s view).delivered (attempt xs s view).stream.input
unfolding attempt
attempt-Serves xs s view h out =
    if_both (λ (p : Pass). Serves s.input view p.delivered p.stream.input)
      (not (is_some s.input.read_handler)) (λ _. park-Serves s.input view h)
      (λ _.
        if_both (λ (p : Pass). Serves s.input view p.delivered p.stream.input)
          s.input.inside_call_read_handler (λ e. absurd (ground arith))
          (λ _. run-Serves xs s view h))

pub call_read_handler-Serves :
    (xs : List Reaction) (s : NgHttp2Stream) (view : Bytes)
    → IsStored s.input
    → s.input.inside_call_read_handler ≡ false
    → Serves s.input view
        (call_read_handler xs s view).delivered
        (call_read_handler xs s view).stream.input
unfolding call_read_handler
call_read_handler-Serves xs s view h out =
    finish_deferred_close-Serves s.input view (attempt xs s view) (attempt-Serves xs s view h out)
