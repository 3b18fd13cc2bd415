-- ===== src/Quic/Streams/Turns.antt =====
-- What `next_stream_data` of src/quic/streams.cpp answers: the loop over the write queue.
use anyhttp.Prelude.{
  ℕ, ◌≡◌, ◌⊎◌, inl, inr, refl, sym, ap, ◌∙◌, Bool, true, false, Option, none, some, List, [], ◌∷◌,
  ◌++◌, is_empty, not, ◌&&◌, ◌==◌, ==_refl, if◌then◌else◌, arith, Bool-cases, Option-cases,
}
use anyhttp.Quic.Stream.State.{Outgoing}
use anyhttp.Quic.Stream.Output.{pending_data, carve, Offer}
use anyhttp.Quic.Streams.State.{StreamApplication, PlainStream, lookup, put, find_stream, store}
use anyhttp.Quic.Streams.Schedule.{
  without_front, unschedule_front, with_output, Packet, has_data, front_turn, answer, turns,
  next_stream_data, offer,
}

-- An entry of the table has the id that it is kept under.
pub lookup-id :
    (id : ℕ) (ps : List PlainStream) (p : PlainStream) → lookup id ps ≡ some p → p.id ≡ id
unfolding lookup
lookup-id id [] p e = cc
lookup-id id (q ∷ ps) p e = elim (Bool-cases (q.id == id)) [
  | inl k ↦ ground arith
  | inr k ↦ lookup-id id ps p (rw k at e)
]

pub find_stream-id :
    (a : StreamApplication) (id : ℕ) (p : PlainStream)
    → find_stream a id ≡ some p
    → (lookup id a.streams ≡ some p) × (p.listed ≡ true) × (p.id ≡ id)
unfolding find_stream
find_stream-id a id p e = elim (Option-cases (lookup id a.streams)) [
  | inl n ↦ absurd (ground arith)
  | inr (q, k) ↦ let same = lookup-id id a.streams q k in ground (arith, same)
]

pub lookup-put : (p : PlainStream) (ps : List PlainStream) → lookup p.id (put p ps) ≡ some p
unfolding lookup put
lookup-put p [] = rw (==_refl p.id) refl
lookup-put p (q ∷ ps) = elim (Bool-cases (q.id == p.id)) [
  | inl k ↦ rw k (rw (==_refl p.id) refl)
  | inr k ↦ rw k (rw k (lookup-put p ps))
]

-- What a stream has to send: its data, and its end unless that has been offered before.
abbrev pub has_end : PlainStream → Offer → Bool
has_end p o = o.fin && not p.body.output.fin_offered

abbrev pub asked_for : PlainStream → ℕ → Offer
asked_for p room = pending_data p.body.output p.body.output.tx_sent room

-- A packet for a stream that the session has and that flow control does not hold up, with the data
-- that the stream has to send, and its end: at least one of the two.
abbrev pub CanSend : StreamApplication → Packet → ℕ → Type 0
CanSend a k room =
    (p : PlainStream) × (find_stream a k.stream_id ≡ some p)
    × (p.blocked ≡ false)
    × (k.vec ≡ (asked_for p room).vec)
    × (k.fin ≡ (asked_for p room).fin)
    × ((is_empty k.vec ≡ false) ⊎ (has_end p (asked_for p room) ≡ true))

-- An entry whose stream is gone, or held up by flow control, or has neither data nor its end to send.
abbrev pub CannotSend : StreamApplication → ℕ → ℕ → Type 0
CannotSend a id room =
    (find_stream a id ≡ none)
    ⊎ (p : PlainStream) × (find_stream a id ≡ some p)
      × ((p.blocked ≡ true)
          ⊎ ((is_empty (asked_for p room).vec ≡ true) × (has_end p (asked_for p room) ≡ false)))

-- A turn without an answer takes the front off; one with an answer leaves it.
abbrev pub Answers : ℕ → ℕ → List ℕ → StreamApplication → StreamApplication × Option Packet → Type 0
Answers room id ids a r =
    (r.1 ≡ none) × (r.0.write_queue ≡ ids) × CannotSend a id room
    ⊎ (k : Packet) × (r.1 ≡ some k)
      × (k.stream_id ≡ id)
      × (r.0.write_queue ≡ id ∷ ids)
      × CanSend a k room

pub without_front-cons : (id : ℕ) (ids : List ℕ) → without_front id (id ∷ ids) ≡ ids
without_front-cons id ids = rw (==_refl id) refl

second :
    (b d : Bool) (x y z : StreamApplication × Option Packet)
    → b ≡ false
    → d ≡ true
    → (if b then x else if d then y else z) ≡ y
second true d x y z e f = absurd cc
second false true x y z e f = refl
second false false x y z e f = absurd cc

pending_data-fin_offered :
    (s : Outgoing) (from room : ℕ) → (pending_data s from room).stream.fin_offered ≡ s.fin_offered
unfolding pending_data carve
pending_data-fin_offered s from room = ground arith

sends :
    (p : PlainStream) (room : ℕ)
    → has_data (asked_for p room) ≡ true
    → (is_empty (asked_for p room).vec ≡ false) ⊎ (has_end p (asked_for p room) ≡ true)
sends p room h =
    let same = pending_data-fin_offered p.body.output p.body.output.tx_sent room in
    ground (arith, same, h)

sends_not :
    (p : PlainStream) (room : ℕ)
    → has_data (asked_for p room) ≡ false
    → (is_empty (asked_for p room).vec ≡ true) × (has_end p (asked_for p room) ≡ false)
sends_not p room h =
    let same = pending_data-fin_offered p.body.output p.body.output.tx_sent room in
    ground (arith, same, h)

offer-Answers :
    (a : StreamApplication) (id room : ℕ) (ids : List ℕ) (o : Option PlainStream)
    → a.write_queue ≡ id ∷ ids
    → find_stream a id ≡ o
    → ((p : PlainStream) → o ≡ some p → (p.id ≡ id) × (p.listed ≡ true))
    → Answers room id ids a (offer a id room o)
unfolding offer unschedule_front
offer-Answers a id room ids none q g h =
    inl (refl, ap (without_front id) q ∙ without_front-cons id ids, inl g)
offer-Answers a id room ids (some p) q g h =
    let same = h p refl in
    let o = asked_for p room in
    let asked = with_output p o.stream in
    let popped : without_front p.id a.write_queue ≡ ids =
      ap (λ (n : ℕ). without_front n a.write_queue) same.0
      ∙ ap (without_front id) q
      ∙ without_front-cons id ids in
    elim (Bool-cases p.blocked) [
      | inl b ↦ rw b (inl (refl, popped, inr (p, g, inl b)))
      | inr b ↦ elim (Bool-cases (has_data o)) [
        | inl d ↦
            rw
              (second p.blocked (has_data o) (unschedule_front a p, none)
                (store a asked, some (record { stream_id = p.id; vec = o.vec; fin = o.fin }))
                (unschedule_front (store a asked) asked, none) b d)
              (inr (
                record { stream_id = p.id; vec = o.vec; fin = o.fin },
                refl,
                same.0,
                q,
                (p, ap (find_stream a) same.0 ∙ g, b, refl, refl, sends p room d),
              ))
        | inr d ↦ rw (b, d) (inl (refl, popped, inr (p, g, inr (sends_not p room d))))
      ]
    ]

front_turn-Answers :
    (a : StreamApplication) (id room : ℕ) (ids : List ℕ)
    → a.write_queue ≡ id ∷ ids
    → Answers room id ids a (front_turn a id room)
unfolding front_turn
front_turn-Answers a id room ids q =
    offer-Answers a id room ids (find_stream a id) q refl
      (λ p e. let (k, l, same) = find_stream-id a id p e in (same, l))

-- Entries that had their turn and could not send when it came, one after the other from `a` on, and
-- what `P` says of the application behind them.
abbrev pub Passes : ℕ → List ℕ → StreamApplication → (StreamApplication → Type 0) → Type 0
Passes room [] a P = P a
Passes room (id ∷ ids) a P = CannotSend a id room × Passes room ids (front_turn a id room).0 P

-- The loop runs through a front part of the queue.
abbrev pub RunsTo : ℕ → List ℕ → StreamApplication → StreamApplication × Option Packet → Type 0
RunsTo room ids a r =
    (r.1 ≡ none) × (r.0.write_queue ≡ []) × Passes room ids a (λ b. Unit {0})
    ⊎ (k : Packet) × (skipped rest : List ℕ) × (r.1 ≡ some k)
      × (r.0.write_queue ≡ k.stream_id ∷ rest)
      × (ids ≡ skipped ++ (k.stream_id ∷ rest))
      × Passes room skipped a (λ b. CanSend b k room)

answer-none : (t u : StreamApplication × Option Packet) → t.1 ≡ none → answer t u ≡ u
answer-none (b, none) u e = refl
answer-none (b, some k) u e = absurd cc

answer-some : (t u : StreamApplication × Option Packet) (k : Packet) → t.1 ≡ some k → answer t u ≡ t
answer-some (b, none) u k e = absurd cc
answer-some (b, some l) u k e = refl

further :
    (room id : ℕ) (ids : List ℕ) (a : StreamApplication) (r : StreamApplication × Option Packet)
    → CannotSend a id room
    → RunsTo room ids (front_turn a id room).0 r
    → RunsTo room (id ∷ ids) a r
further room id ids a r c (inl (e, f, p)) = inl (e, f, (c, p))
further room id ids a r c (inr (k, skipped, rest, e, f, split, p)) =
    inr (k, id ∷ skipped, rest, e, f, ap (◌∷◌ id) split, (c, p))

turns-RunsTo :
    (room : ℕ) (ids : List ℕ) (a : StreamApplication)
    → a.write_queue ≡ ids
    → RunsTo room ids a (turns room ids a)
unfolding turns
turns-RunsTo room [] a q = inl (refl, q, tt)
turns-RunsTo room (id ∷ ids) a q = elim (front_turn-Answers a id room ids q) [
  | inl (e, f, c) ↦
      rw (answer-none (front_turn a id room) (turns room ids (front_turn a id room).0) e) (
        further room id ids a (turns room ids (front_turn a id room).0) c
          (turns-RunsTo room ids (front_turn a id room).0 f))
  | inr (k, e, same, f, serves) ↦
      rw (answer-some (front_turn a id room) (turns room ids (front_turn a id room).0) k e) (
        inr (
          k,
          [],
          ids,
          e,
          f ∙ ap (λ (n : ℕ). n ∷ ids) (sym same),
          ap (λ (n : ℕ). n ∷ ids) (sym same),
          serves,
        ))
]

-- `next_stream_data` answers for the first stream of the queue that can send. It runs through the
-- queue from its front, and takes exactly the entries off that stood before it, none of which could
-- send when its turn came: its stream was gone, or held up by flow control, or had neither data nor
-- an end to send that was not offered before. What it answers for is a stream that can, with the data
-- and the end that it has, and it is left at the front. If it answers nothing, no entry could send,
-- and the queue is empty.
pub next_stream_data-front :
    (a : StreamApplication) (room : ℕ) → RunsTo room a.write_queue a (next_stream_data a room)
unfolding next_stream_data
next_stream_data-front a room = turns-RunsTo room a.write_queue a refl
