-- ===== src/H2/Stream/Reports.antt =====
-- The credit that `call_read_handler` of src/h2/stream.cpp grants, and the ends that it reports.
use anyhttp.Prelude.{
  ℕ, ◌+◌, ◌≡◌, refl, ◌∙◌, inl, inr, ◌⊎◌, Bool, true, false, not, ◌||◌, Option, none, some, List, [],
  ◌++◌, Bytes, length, is_empty, arith, Bool-cases, if_both,
}
use anyhttp.Completion.{Code, partial_message, Read, Reaction, again, leave, drop_reader, is_some}
use anyhttp.H2.State.{Incoming, NgHttp2Stream, Change, reading_finished, Event}
use anyhttp.H2.Stream.Reading.{
  react, Loop, read_loop, end_with, conclude, after_loop, take_view, run, next_reaction, Pass,
  attempt, destroy_reader, delete_reader, credit_for, abandoned, finish_deferred_close,
  call_read_handler, settled, closes_now,
}
use anyhttp.H2.Stream.Integrity.{unread, IsStored, IsLooping, read_loop-Delivers}
use anyhttp.H2.Stream.Delivery.{conclude-Keeps, nothing_left, take_view-IsLooping}
use anyhttp.H2.Stream.Counting.{
  total, total-append, granted, ended, truncated, IsBlind, IsBlind-granted, IsBlind-ended,
  IsBlind-truncated, read_loop-total, eof_loop-total, truncation-total,
}

-- Of the conclusion of a call.
conclude-granted : (xs : List Reaction) (s : NgHttp2Stream) → total granted (conclude xs s).1 ≡ 0
unfolding conclude
conclude-granted xs s =
    if_both (λ (t : Change). total granted t.1 ≡ 0) s.input.eof_received
      (λ _. eof_loop-total granted IsBlind-granted xs s (λ h. refl))
      (λ _.
        if_both (λ (t : Change). total granted t.1 ≡ 0) (reading_finished s.input || s.closed)
          (λ _. truncation-total granted IsBlind-granted xs s (λ h. refl)) (λ _. refl))

conclude-ended :
    (xs : List Reaction) (s : NgHttp2Stream)
    → (total ended (conclude xs s).1 ≡ 0) ⊎ ((conclude xs s).0.input.eof_received ≡ true)
conclude-ended xs s = elim (Bool-cases s.input.eof_received) [
  | inl e ↦ inr ((conclude-Keeps xs s).same_end.same_eof ∙ e)
  | inr e ↦ inl (
      unfold conclude in
      if_both (λ (t : Change). total ended t.1 ≡ 0) s.input.eof_received
        (λ k. absurd (ground arith))
        (λ _.
          if_both (λ (t : Change). total ended t.1 ≡ 0) (reading_finished s.input || s.closed)
            (λ _. truncation-total ended IsBlind-ended xs s (λ h. refl)) (λ _. refl)))
]

-- Nothing more comes: no reader, or a closed stream.
abbrev over : NgHttp2Stream → Bool
over s = not s.input.reader || s.closed

react-over : (s : NgHttp2Stream) (x : Reaction) → over s ≡ true → over (react s x).0 ≡ true
react-over s leave h = unfold react in h
react-over s drop_reader h =
    unfold react destroy_reader delete_reader finish_deferred_close abandoned in ground arith
react-over s (again r) h = unfold react in ground arith

end_with-over :
    (ec : Code) (x : Reaction) (s : NgHttp2Stream) (o : Option Read)
    → over s ≡ true
    → over (end_with (λ t. (t, [])) ec x s o).0 ≡ true
unfolding end_with
end_with-over ec x s none h = h
end_with-over ec x s (some r) h =
    react-over (record s { input = record s.input { read_handler = none } }) x h

finished-over :
    (s : NgHttp2Stream)
    → s.input.eof_received ≡ false
    → (reading_finished s.input || s.closed) ≡ true
    → over s ≡ true
finished-over s e h = ground arith

conclude-truncated :
    (xs : List Reaction) (s : NgHttp2Stream)
    → (total truncated (conclude xs s).1 ≡ 0)
      ⊎ (((conclude xs s).0.input.eof_received ≡ false) × (over (conclude xs s).0 ≡ true))
conclude-truncated xs s = elim (Bool-cases s.input.eof_received) [
  | inl e ↦ inl (
      unfold conclude in
      if_both (λ (t : Change). total truncated t.1 ≡ 0) s.input.eof_received
        (λ _. eof_loop-total truncated IsBlind-truncated xs s (λ h. refl))
        (λ k. absurd (ground arith)))
  | inr e ↦ elim (Bool-cases (reading_finished s.input || s.closed)) [
    | inl c ↦ inr (
      (conclude-Keeps xs s).same_end.same_eof ∙ e,
      (unfold conclude in
          if_both (λ (t : Change). over t.0 ≡ true) s.input.eof_received
            (λ k. absurd (ground arith))
            (λ _.
              if_both (λ (t : Change). over t.0 ≡ true) (reading_finished s.input || s.closed)
                (λ _.
                  end_with-over partial_message (next_reaction xs) s s.input.read_handler
                    (finished-over s e c))
                (λ k. absurd (ground arith)))),
    )
    | inr c ↦ inl (
        unfold conclude in
        if_both (λ (t : Change). total truncated t.1 ≡ 0) s.input.eof_received
          (λ k. absurd (ground arith))
          (λ _.
            if_both (λ (t : Change). total truncated t.1 ≡ 0) (reading_finished s.input || s.closed)
              (λ k. absurd (ground arith)) (λ _. refl)))
  ]
]

-- The end of the body is reported once all of it has been delivered; a truncation once all that came
-- has been, the end has not come, and nothing more will.
pub record ReportsRightly (s : NgHttp2Stream) (es : List Event) : Type 0 where
  pub of_ends : (total ended es ≡ 0) ⊎ ((unread s.input [] ≡ []) × (s.input.eof_received ≡ true))
  pub of_truncations :
      (total truncated es ≡ 0)
      ⊎ ((unread s.input [] ≡ []) × (s.input.eof_received ≡ false) × (over s ≡ true))

abbrev silent : (s : NgHttp2Stream) → ReportsRightly s []
silent s = record { of_ends = inl refl; of_truncations = inl refl }

conclude-ReportsRightly :
    (xs : List Reaction) (s : NgHttp2Stream)
    → (unread s.input [] ≡ [])
    → ReportsRightly (conclude xs s).0 (conclude xs s).1
conclude-ReportsRightly xs s u = record {
  of_ends = elim (conclude-ended xs s) [ inl e ↦ inl e | inr e ↦ inr (emptied, e) ];
  of_truncations = elim (conclude-truncated xs s) [
    | inl e ↦ inl e
    | inr (e, o) ↦ inr (emptied, e, o)
  ];
}
  where
    emptied : unread (conclude xs s).0.input [] ≡ []
    emptied = let k = conclude-Keeps xs s in rw (k.same_buffer, k.same_pending) u

after_loop-ReportsRightly :
    (l : Loop)
    → IsLooping l.stream.input l.view
    → ReportsRightly (after_loop l).0 (after_loop l).1 × (total granted (after_loop l).1 ≡ 0)
unfolding after_loop
after_loop-ReportsRightly l h =
    if_both (λ (t : Change). ReportsRightly t.0 t.1 × (total granted t.1 ≡ 0))
      (is_empty l.stream.input.read_buffer)
      (λ e. (
        conclude-ReportsRightly l.reactions l.stream (nothing_left l.stream.input l.view h e).1,
        conclude-granted l.reactions l.stream,
      ))
      (λ e. (silent _, refl))

credit_for-total :
    (n : ℕ)
    → (total granted (credit_for n) ≡ n)
      × (total ended (credit_for n) ≡ 0)
      × (total truncated (credit_for n) ≡ 0)
credit_for-total n = ground arith

total-behind :
    (w : Event → ℕ) (es fs gs : List Event)
    → total w es ≡ 0
    → total w (es ++ fs ++ gs) ≡ total w fs + total w gs
total-behind w es fs gs h = omega (arith, total-append w (es ++ fs) gs, total-append w es fs)

run-ReportsRightly :
    (xs : List Reaction) (s : NgHttp2Stream) (view : Bytes)
    → IsStored s.input
    → ReportsRightly (run xs s view).stream (run xs s view).events
      × (total granted (run xs s view).events ≡ length (run xs s view).delivered)
unfolding run
run-ReportsRightly xs s view h =
    let v = take_view s.input view in
    let t = record s { input = record v.0 { inside_call_read_handler = true } } in
    let l = read_loop xs t v.1 in
    let e = (after_loop l).1 in
    let d = read_loop-Delivers xs t v.1 (take_view-IsLooping s.input view h).0 in
    let a = after_loop-ReportsRightly l d.is_looping in
    let c = credit_for (length l.delivered) in
    let sums : (w : Event → ℕ) → IsBlind w → total w (l.events ++ c ++ e) ≡ total w c + total w e =
      λ w blind. total-behind w l.events c e (read_loop-total w blind xs t v.1) in
    let n = credit_for-total (length l.delivered) in
    (
      record {
        of_ends = elim a.0.of_ends [
          | inl k ↦ inl (omega (arith, sums ended IsBlind-ended, n.1, k))
          | inr k ↦ inr k
        ];
        of_truncations = elim a.0.of_truncations [
          | inl k ↦ inl (omega (arith, sums truncated IsBlind-truncated, n.2, k))
          | inr k ↦ inr k
        ];
      },
      omega (arith, sums granted IsBlind-granted, n.0, a.1),
    )

attempt-ReportsRightly :
    (xs : List Reaction) (s : NgHttp2Stream) (view : Bytes)
    → IsStored s.input
    → ReportsRightly (attempt xs s view).stream (attempt xs s view).events
      × (total granted (attempt xs s view).events ≡ length (attempt xs s view).delivered)
unfolding attempt
attempt-ReportsRightly xs s view h =
    if_both
      (λ (p : Pass).
        ReportsRightly p.stream p.events × (total granted p.events ≡ length p.delivered))
      (not (is_some s.input.read_handler)) (λ _. (silent _, refl))
      (λ _.
        if_both
          (λ (p : Pass).
            ReportsRightly p.stream p.events × (total granted p.events ≡ length p.delivered))
          s.input.inside_call_read_handler (λ _. (silent _, refl))
          (λ _. run-ReportsRightly xs s view h))

finish_deferred_close-ReportsRightly :
    (p : Pass)
    → ReportsRightly p.stream p.events
    → ReportsRightly (finish_deferred_close p).stream (finish_deferred_close p).events
unfolding finish_deferred_close settled
finish_deferred_close-ReportsRightly p h =
    if_both (λ (i : Incoming). ReportsRightly (record p.stream { input = i }) p.events)
      (closes_now p.stream.input)
      (λ _. record { of_ends = h.of_ends; of_truncations = h.of_truncations }) (λ _. h)

pub call_read_handler-ReportsRightly :
    (xs : List Reaction) (s : NgHttp2Stream) (view : Bytes)
    → IsStored s.input
    → ReportsRightly (call_read_handler xs s view).stream (call_read_handler xs s view).events
      × (total granted (call_read_handler xs s view).events
          ≡ length (call_read_handler xs s view).delivered)
unfolding call_read_handler finish_deferred_close
call_read_handler-ReportsRightly xs s view h =
    let a = attempt-ReportsRightly xs s view h in
    (finish_deferred_close-ReportsRightly (attempt xs s view) a.0, a.1)
