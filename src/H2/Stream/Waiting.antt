-- ===== src/H2/Stream/Waiting.antt =====
-- Which read waits when `call_read_handler` of src/h2/stream.cpp returns.
use anyhttp.Prelude.{
  ◌≡◌, refl, ◌∙◌, inl, inr, ◌⊎◌, true, false, not, Option, none, some, List, [], ◌∷◌, Bytes,
  is_empty, arith, Bool-cases, if_both,
}
use anyhttp.Completion.{Code, eof, Read, Reaction, leave, is_some}
use anyhttp.H2.State.{Incoming, NgHttp2Stream, Change}
use anyhttp.H2.Stream.Reading.{
  react, advance, copy_out, Loop, stop, deliver, iterate, read_loop, end_with, eof_loop, conclude,
  store_rest, after_loop, park, take_view, run, Pass, attempt,
}
use anyhttp.H2.Stream.Integrity.{unread, IsStored, IsLooping, Keeps, read_loop-Delivers}
use anyhttp.H2.Stream.Delivery.{conclude-Keeps, nothing_left, take_view-IsLooping}

-- The loop runs until there is no handler or no data.
abbrev IsDone : Loop → Type 0
IsDone l = (l.stream.input.read_handler ≡ none) ⊎ (is_empty l.stream.input.read_buffer ≡ true)

advance-handler : (i : Incoming) (view : Bytes) → (advance i view).0.read_handler ≡ i.read_handler
unfolding advance
advance-handler i view = ground arith

iterate-IsDone :
    (go_on : NgHttp2Stream → Bytes → Loop) (x : Reaction) (back : List Reaction) (s : NgHttp2Stream)
    (view : Bytes) (o : Option Read)
    → s.input.read_handler ≡ o
    → ((r : Read) → IsDone (deliver go_on x s view r))
    → IsDone (iterate go_on x back s view o)
unfolding iterate
iterate-IsDone go_on x back s view none e h = inl e
iterate-IsDone go_on x back s view (some r) e h =
    if_both IsDone (is_empty s.input.read_buffer) (λ empty. inr empty) (λ _. h r)

read_loop-IsDone :
    (xs : List Reaction) (s : NgHttp2Stream) (view : Bytes) → IsDone (read_loop xs s view)
unfolding read_loop
read_loop-IsDone [] s view =
    iterate-IsDone (stop []) leave [] s view s.input.read_handler refl
      (λ r. unfold deliver react copy_out in inl (advance-handler (copy_out s.input r.size).0 view))
read_loop-IsDone (x ∷ xs) s view =
    iterate-IsDone (read_loop xs) x (x ∷ xs) s view s.input.read_handler refl
      (λ r. unfold deliver in read_loop-IsDone xs _ _)

end_with-none :
    (go_on : NgHttp2Stream → Change) (ec : Code) (x : Reaction) (s : NgHttp2Stream)
    (o : Option Read)
    → s.input.read_handler ≡ o
    → (go_on
        (react
          (record s { input = record s.input { read_handler = none } })
          x).0).0.input.read_handler
      ≡ none
    → (end_with go_on ec x s o).0.input.read_handler ≡ none
unfolding end_with
end_with-none go_on ec x s none e h = e
end_with-none go_on ec x s (some r) e h = h

eof_loop-none :
    (xs : List Reaction) (s : NgHttp2Stream) → (eof_loop xs s).0.input.read_handler ≡ none
unfolding eof_loop
eof_loop-none [] s =
    end_with-none (λ t. (t, [])) eof leave s s.input.read_handler refl (unfold react in refl)
eof_loop-none (x ∷ xs) s =
    end_with-none (eof_loop xs) eof x s s.input.read_handler refl (eof_loop-none xs _)

conclude-waits :
    (xs : List Reaction) (s : NgHttp2Stream)
    → ((conclude xs s).0.input.read_handler ≡ none) ⊎ ((conclude xs s).0.input.eof_received ≡ false)
conclude-waits xs s = elim (Bool-cases s.input.eof_received) [
  | inl e ↦ inl (at_end e)
  | inr e ↦ inr ((conclude-Keeps xs s).same_end.same_eof ∙ e)
]
  where
    at_end : s.input.eof_received ≡ true → (conclude xs s).0.input.read_handler ≡ none
    at_end e =
        unfold conclude in
        if_both (λ (t : Change). t.0.input.read_handler ≡ none) s.input.eof_received
          (λ _. eof_loop-none xs s) (λ k. absurd (ground arith))

-- A read waits only while there is nothing to answer it with.
abbrev pub WaitsRightly : Incoming → Type 0
WaitsRightly i = (i.read_handler ≡ none) ⊎ ((unread i [] ≡ []) × (i.eof_received ≡ false))

store_rest-handler :
    (i : Incoming) (view : Bytes) → (store_rest i view).read_handler ≡ i.read_handler
unfolding store_rest
store_rest-handler i view = ground arith

WaitsRightly-concluded :
    (i j : Incoming)
    → (unread i [] ≡ [])
    → Keeps i j
    → (j.read_handler ≡ none) ⊎ (j.eof_received ≡ false)
    → WaitsRightly j
WaitsRightly-concluded i j u k (inl e) = inl e
WaitsRightly-concluded i j u k (inr e) = inr (rw (k.same_buffer, k.same_pending) u, e)

after_loop-WaitsRightly :
    (l : Loop) → IsLooping l.stream.input l.view → IsDone l → WaitsRightly (after_loop l).0.input
unfolding after_loop
after_loop-WaitsRightly l h d =
    if_both (λ (t : Change). WaitsRightly t.0.input) (is_empty l.stream.input.read_buffer)
      (λ e.
        WaitsRightly-concluded l.stream.input (conclude l.reactions l.stream).0.input
          (nothing_left l.stream.input l.view h e).1 (conclude-Keeps l.reactions l.stream)
          (conclude-waits l.reactions l.stream))
      (λ e. inl (store_rest-handler l.stream.input l.view ∙ taken d e))
  where
    taken :
        IsDone l → is_empty l.stream.input.read_buffer ≡ false → l.stream.input.read_handler ≡ none
    taken (inl n) e = n
    taken (inr k) e = absurd (ground arith)

run-WaitsRightly :
    (xs : List Reaction) (s : NgHttp2Stream) (view : Bytes)
    → IsStored s.input
    → WaitsRightly (run xs s view).stream.input
unfolding run
run-WaitsRightly xs s view h =
    let v = take_view s.input view in
    let t = record s { input = record v.0 { inside_call_read_handler = true } } in
    after_loop-WaitsRightly (read_loop xs t v.1)
      (read_loop-Delivers xs t v.1 (take_view-IsLooping s.input view h).0).is_looping
      (read_loop-IsDone xs t v.1)

park-handler : (i : Incoming) (view : Bytes) → (park i view).read_handler ≡ i.read_handler
unfolding park
park-handler i view = ground arith

is_some-none : (o : Option Read) → not (is_some o) ≡ true → o ≡ none
is_some-none none h = refl
is_some-none (some r) h = absurd (ground arith)

pub attempt-WaitsRightly :
    (xs : List Reaction) (s : NgHttp2Stream) (view : Bytes)
    → IsStored s.input
    → s.input.inside_call_read_handler ≡ false
    → WaitsRightly (attempt xs s view).stream.input
unfolding attempt
attempt-WaitsRightly xs s view h out =
    if_both (λ (p : Pass). WaitsRightly p.stream.input) (not (is_some s.input.read_handler))
      (λ e. inl (park-handler s.input view ∙ is_some-none s.input.read_handler e))
      (λ _.
        if_both (λ (p : Pass). WaitsRightly p.stream.input) s.input.inside_call_read_handler
          (λ e. absurd (ground arith)) (λ _. run-WaitsRightly xs s view h))

take_view-outside :
    (i : Incoming) (view : Bytes)
    → (take_view i view).0.inside_call_read_handler ≡ i.inside_call_read_handler
unfolding take_view
take_view-outside i view = ground arith

park-outside :
    (i : Incoming) (view : Bytes)
    → (park i view).inside_call_read_handler ≡ i.inside_call_read_handler
unfolding park
park-outside i view = ground arith

pub attempt-outside :
    (xs : List Reaction) (s : NgHttp2Stream) (view : Bytes)
    → s.input.inside_call_read_handler ≡ false
    → (attempt xs s view).stream.input.inside_call_read_handler ≡ false
unfolding attempt
attempt-outside xs s view out =
    if_both (λ (p : Pass). p.stream.input.inside_call_read_handler ≡ false)
      (not (is_some s.input.read_handler)) (λ _. park-outside s.input view ∙ out)
      (λ _.
        if_both (λ (p : Pass). p.stream.input.inside_call_read_handler ≡ false)
          s.input.inside_call_read_handler (λ _. out) (λ _. unfold run in refl))
