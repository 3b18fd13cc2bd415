-- ===== src/Quic/Stream/Delivery.antt =====
-- The loop of `call_read_handler` and the operations that run it, src/quic/stream.cpp: what is
-- delivered, over any sequence of chunks, reads and cancellations.
use anyhttp.Prelude.{
  ℕ, ◌+◌, ◌≡◌, refl, ap, ◌∙◌, inl, inr, Bool, true, false, not, ◌||◌, Option, none, some, List, [],
  ◌∷◌, ◌++◌, Bytes, length, is_empty, All, ◌==◌, arith, Bool-cases, append_assoc,
}
use anyhttp.Completion.{Event, Code, success, eof, partial_message, read_done, consumed}
pub use anyhttp.Completion.{Reads}
use anyhttp.Quic.Stream.State.{Incoming, QuicStream, Read, is_some}
use anyhttp.Quic.Stream.Lifecycle.{delete_reader, maybe_close}
use anyhttp.Quic.Stream.Input.{
  run_loop, Reaction, again, leave, drop_reader, round, react, Pass, complete, iterate, read_loop,
  call_read_handler, front, idle,
}
use anyhttp.Quic.Stream.Integrity.{
  buffered, IsQueued, IsQueue, NonEmpty, Serves, take_in-Serves, concat, left, behind,
}

-- A read is answered by the bytes at the front while there are any; by the end of the body once
-- there are none; by a truncation once there are none and will be none; and otherwise it waits.
abbrev Answers : QuicStream → QuicStream → Code → Bytes → Type 0
Answers s t success bytes = Serves s.input t.input bytes × NonEmpty (buffered s.input)
Answers s t eof bytes =
    Serves s.input t.input bytes
    × (bytes ≡ [])
    × (buffered s.input ≡ [])
    × (s.input.eof_received ≡ true)
Answers s t partial_message bytes =
    Serves s.input t.input bytes
    × (bytes ≡ [])
    × (buffered s.input ≡ [])
    × (s.input.eof_received ≡ false)
    × ((s.output.closed || s.input.read_aborted) ≡ true)
Answers s t _ bytes = ⊥

abbrev pub Rounds : QuicStream → Option (QuicStream × Code × Bytes) → Type 0
Rounds s none =
    (buffered s.input ≡ [])
    × (s.input.eof_received ≡ false)
    × ((s.output.closed || s.input.read_aborted) ≡ false)
Rounds s (some (t, ec, bytes)) = Answers s t ec bytes

head_left : (head rest inc : Bytes) → is_empty head ≡ false → NonEmpty ((head ++ rest) ++ inc)
head_left [] rest inc h = cc
head_left (c ∷ head) rest inc h = refl

incoming_left : (rest inc : Bytes) → is_empty inc ≡ false → NonEmpty (rest ++ inc)
incoming_left [] inc h = h
incoming_left (c ∷ rest) inc h = refl

nothing_left :
    (i : Incoming)
    → IsQueued i
    → is_empty i.read_head ≡ true
    → is_empty i.incoming ≡ true
    → buffered i ≡ []
nothing_left i q h k = empty (i.read_head) (i.pending_read) (i.incoming) q h k
  where
    empty :
        (head : Bytes) (queue : List Bytes) (inc : Bytes)
        → IsQueue head queue
        → is_empty head ≡ true
        → is_empty inc ≡ true
        → left head queue ++ inc ≡ []
    empty [] [] [] q h k = refl
    empty [] (c ∷ cs) inc q h k = absurd (ground arith)
    empty (x ∷ head) queue inc q h k = cc
    empty [] [] (x ∷ inc) q h k = cc

-- Which of the four it is, exactly.
pub round-Rounds : (s : QuicStream) (r : Read) → IsQueued s.input → Rounds s (round s r)
round-Rounds s r q = elim (Bool-cases (is_empty s.input.read_head)) [
  | inl h ↦ elim (Bool-cases (is_empty s.input.incoming)) [
    | inl k ↦ elim (Bool-cases s.input.eof_received) [
      | inl e ↦
          unfold round in
          rw (h, k, e, round)
            (
              record { in_order = refl; is_queued = q; settled = λ e. e },
              refl,
              nothing_left s.input q h k,
              refl,
            )
      | inr e ↦ elim (Bool-cases (s.output.closed || s.input.read_aborted)) [
        | inl c ↦
            unfold round in
            rw (h, k, e, c, round)
              (
                record { in_order = refl; is_queued = q; settled = λ e. e },
                refl,
                nothing_left s.input q h k,
                refl,
                c,
              )
        | inr c ↦ unfold round in rw (h, k, e, c, round) (nothing_left s.input q h k, refl, c)
      ]
    ]
    | inr k ↦
        unfold round in
        rw (h, k, round)
          (
            take_in-Serves s.input r.size q,
            incoming_left (left s.input.read_head s.input.pending_read) s.input.incoming k,
          )
  ]
  | inr h ↦
      unfold round in
      rw (h, round)
        (
          take_in-Serves s.input r.size q,
          head_left s.input.read_head (concat (behind s.input.pending_read)) s.input.incoming h,
        )
]

Answers-Serves :
    (s t : QuicStream) (ec : Code) (bytes : Bytes)
    → Answers s t ec bytes
    → Serves s.input t.input bytes
Answers-Serves s t success bytes a = a.0
Answers-Serves s t eof bytes a = a.0
Answers-Serves s t partial_message bytes a = a.0
Answers-Serves s t _ bytes a = absurd a

react-Serves :
    (s : QuicStream) (x : Reaction)
    → Reads x
    → IsQueued s.input
    → Serves s.input (react s x).0.input []
unfolding react
react-Serves s leave h q = record { in_order = refl; is_queued = q; settled = λ e. e }
react-Serves s drop_reader h q = absurd h
react-Serves s (again r) h q = elim (Bool-cases s.reader) [
  | inl e ↦ elim (Bool-cases (r.size == 0)) [
    | inl z ↦ rw (e, z, react) (record { in_order = refl; is_queued = q; settled = λ e. e })
    | inr z ↦ rw (e, z, react) (record { in_order = refl; is_queued = q; settled = λ e. e })
  ]
  | inr e ↦ rw (e, react) (record { in_order = refl; is_queued = q; settled = λ e. e })
]

-- The credit that a pass grants the peer.
abbrev pub credit : List Event → ℕ
credit [] = 0
credit (consumed n ∷ es) = n + credit es
credit (_ ∷ es) = credit es

pub credit-append : (es fs : List Event) → credit (es ++ fs) ≡ credit es + credit fs
credit-append [] fs = omega arith
credit-append (consumed n ∷ es) fs = omega (arith, credit-append es fs)
credit-append (read_done h ec b ∷ es) fs = credit-append es fs
credit-append (_ ∷ es) fs = credit-append es fs

react-credit : (s : QuicStream) (x : Reaction) → credit (react s x).1 ≡ 0
unfolding react
react-credit s leave = refl
react-credit s drop_reader = unfold delete_reader maybe_close in ground arith
react-credit s (again r) = ground arith

-- A pass delivers the front of what was there, and the loop in it grants no credit yet.
pub record Delivers (s : QuicStream) (p : Pass) (granted : ℕ) : Type 0 where
  pub serves : Serves s.input p.stream.input p.delivered
  pub grants : credit p.events ≡ granted

Serves-append :
    (i j k : Incoming) (front back : Bytes)
    → Serves i j front
    → Serves j k back
    → Serves i k (front ++ back)
Serves-append i j k front back a b = record {
  in_order = append_assoc front back (buffered k) ∙ ap (◌++◌ front) b.in_order ∙ a.in_order;
  is_queued = b.is_queued;
  settled = λ e. b.settled (a.settled e);
}

idle-Delivers : (s : QuicStream) → IsQueued s.input → Delivers s (idle s) 0
idle-Delivers s q = record {
  serves = record { in_order = refl; is_queued = q; settled = λ e. e };
  grants = refl;
}

module _ (go_on : QuicStream → Pass) (x : Reaction) (reads : Reads x)
    (rest : (t : QuicStream) → IsQueued t.input → Delivers t (go_on t) 0) where
  complete-Delivers :
      (s : QuicStream) (handler : ℕ) (o : Option (QuicStream × Code × Bytes))
      → IsQueued s.input
      → Rounds s o
      → Delivers s (complete go_on x s handler o) 0
  unfolding complete
  complete-Delivers s handler none q a = idle-Delivers s q
  complete-Delivers s handler (some (t, ec, bytes)) q a =
      let served = Answers-Serves s t ec bytes a in
      let reacted = react-Serves t x reads served.is_queued in
      let more = rest (react t x).0 reacted.is_queued in
      record {
        serves =
            Serves-append s.input t.input _ bytes _ served
              (Serves-append t.input (react t x).0.input _ [] _ reacted more.serves);
        grants = omega (
          arith,
          credit-append (react t x).1 (go_on (react t x).0).events,
          react-credit t x,
          more.grants,
        );
      }

  iterate-Delivers :
      (s : QuicStream) (r : Option Read) → IsQueued s.input → Delivers s (iterate go_on x s r) 0
  unfolding iterate
  iterate-Delivers s none q = idle-Delivers s q
  iterate-Delivers s (some r) q = complete-Delivers s r.handler (round s r) q (round-Rounds s r q)

read_loop-Delivers :
    (xs : List Reaction) (s : QuicStream)
    → All Reads xs
    → IsQueued s.input
    → Delivers s (read_loop xs s) 0
unfolding read_loop
read_loop-Delivers [] s h q = iterate-Delivers idle leave tt idle-Delivers s s.input.read_handler q
read_loop-Delivers (x ∷ xs) s h q =
    iterate-Delivers (read_loop xs) x h.0 (λ t. read_loop-Delivers xs t h.1) s s.input.read_handler
      q

-- Credit is granted for what was delivered, and only for that.
pub call_read_handler-Delivers :
    (xs : List Reaction) (s : QuicStream)
    → All Reads xs
    → IsQueued s.input
    → Delivers s (call_read_handler xs s) (length (call_read_handler xs s).delivered)
unfolding call_read_handler
call_read_handler-Delivers xs s h q =
    guarded (not (is_some s.input.read_handler) || s.input.call_read_handler_active)
      (read_loop-Delivers xs s h q)
  where
    guarded :
        (b : Bool)
        → Delivers s (read_loop xs s) 0
        → Delivers s (run_loop b xs s) (length (run_loop b xs s).delivered)
    guarded true d = idle-Delivers s q
    guarded false d = record {
      serves = d.serves;
      grants = omega (
        arith,
        credit-append (read_loop xs s).events (consumed (length (read_loop xs s).delivered) ∷ []),
        d.grants,
      );
    }
