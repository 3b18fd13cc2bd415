-- ===== src/Quic/Streams/RoundRobin.antt =====
-- Streams take turns: what `on_stream_data_written` of src/quic/streams.cpp makes of the queue.
use anyhttp.Prelude.{
  ℕ, ◌≡◌, ◌⊎◌, inl, inr, refl, sym, ap, ◌∙◌, subst, Bool, true, false, ◌||◌, Option, none, some,
  List, [], ◌∷◌, ◌++◌, all, arith, add64,
}
use anyhttp.Completion.{Event, Code, When, writable, write_done}
use anyhttp.Quic.Stream.State.{Outgoing}
use anyhttp.Quic.Stream.Output.{on_offered, on_sent, done_with}
use anyhttp.Quic.Streams.State.{
  StreamApplication, PlainStream, Turn, lookup, put, find_stream, store,
}
use anyhttp.Quic.Streams.Schedule.{
  without_front, schedule, unschedule_front, with_output, report, reports, change_output, written,
  on_stream_data_written, to_the_back,
}
use anyhttp.Quic.Streams.Turns.{find_stream-id, lookup-put, without_front-cons}

-- What a stream that is written to reports: completions, or that there is more to write.
abbrev pub of_writer : Event → Bool
of_writer (write_done w h ec) = true
of_writer writable = true
of_writer _ = false

done_with-of_writer :
    (w : When) (o : Option ℕ) (ec : Code) → all of_writer (done_with w o ec) ≡ true
done_with-of_writer w none ec = refl
done_with-of_writer w (some h) ec = refl

on_offered-of_writer :
    (s : Outgoing) (end : ℕ) (fin : Bool) → all of_writer (on_offered s end fin).1 ≡ true
unfolding on_offered
on_offered-of_writer s end fin = ground arith

on_sent-of_writer : (s : Outgoing) (end : ℕ) → all of_writer (on_sent s end).1 ≡ true
unfolding on_sent
on_sent-of_writer s end = ground arith

all-append :
    (es fs : List Event)
    → all of_writer es ≡ true
    → all of_writer fs ≡ true
    → all of_writer (es ++ fs) ≡ true
all-append [] fs e f = f
all-append (x ∷ es) fs e f = ground (arith, all-append es fs)

-- A stream that is free to send stands behind the queue `q`, or not in the queue at all.
abbrev pub StandsBehind : ℕ → List ℕ → StreamApplication → Type 0
StandsBehind id q a =
    (p : PlainStream) × (lookup id a.streams ≡ some p)
    × (p.id ≡ id)
    × (p.blocked ≡ false)
    × (a.closed ≡ false)
    × ((p.scheduled ≡ false) × (a.write_queue ≡ q)
        ⊎ (p.scheduled ≡ true) × (a.write_queue ≡ q ++ id ∷ []))

schedule-StandsBehind :
    (id : ℕ) (q : List ℕ) (a : StreamApplication) (p : PlainStream) (wake : Bool)
    → lookup id a.streams ≡ some p
    → p.id ≡ id
    → p.blocked ≡ false
    → a.closed ≡ false
    → ((p.scheduled ≡ false) × (a.write_queue ≡ q)
        ⊎ (p.scheduled ≡ true) × (a.write_queue ≡ q ++ id ∷ []))
    → ((schedule a p wake).0.write_queue ≡ q ++ id ∷ []) × StandsBehind id q (schedule a p wake).0
unfolding schedule
schedule-StandsBehind id q a p wake l i b c (inl (s, w)) =
    let guard : p.scheduled || p.blocked || a.closed ≡ false = ground arith in
    let back : a.write_queue ++ p.id ∷ [] ≡ q ++ id ∷ [] = rw (w, i) refl in
    let found = lookup-put (record p { scheduled = true }) a.streams in
    rw guard (
      back,
      (
        record p { scheduled = true },
        ap (λ (n : ℕ). lookup n (put (record p { scheduled = true }) a.streams)) (sym i) ∙ found,
        i,
        b,
        c,
        inr (refl, back),
      ),
    )
schedule-StandsBehind id q a p wake l i b c (inr (s, w)) =
    let guard : p.scheduled || p.blocked || a.closed ≡ true = ground arith in
    rw guard (w, (p, l, i, b, c, inr (s, w)))

report-StandsBehind :
    (id : ℕ) (q : List ℕ) (a : StreamApplication) (e : Event)
    → of_writer e ≡ true
    → StandsBehind id q a
    → StandsBehind id q (report a id e).0
unfolding report
report-StandsBehind id q a writable w (p, l, i, b, c, s) =
    rw l (schedule-StandsBehind id q a p true l i b c s).1
report-StandsBehind id q a (write_done w h ec) k s = s
report-StandsBehind id q a _ k s = absurd cc

reports-StandsBehind :
    (id : ℕ) (q : List ℕ) (es : List Event) (a : StreamApplication)
    → all of_writer es ≡ true
    → StandsBehind id q a
    → StandsBehind id q (reports a id es).0
unfolding reports
reports-StandsBehind id q [] a w s = s
reports-StandsBehind id q (e ∷ es) a w s =
    reports-StandsBehind id q es (report a id e).0 (ground arith)
      (report-StandsBehind id q a e (ground arith) s)

to_the_back-queue :
    (id : ℕ) (q : List ℕ) (t : Turn)
    → StandsBehind id q t.0
    → (to_the_back id t).0.write_queue ≡ q ++ id ∷ []
unfolding to_the_back
to_the_back-queue id q (c, ns) (p, l, i, b, o, s) =
    rw l (schedule-StandsBehind id q c p false l i b o s).0

written-queue :
    (a : StreamApplication) (id n : ℕ) (fin : Bool) (rest : List ℕ) (p : PlainStream)
    → p.id ≡ id
    → p.blocked ≡ false
    → a.closed ≡ false
    → a.write_queue ≡ id ∷ rest
    → (written a id n fin p).0.write_queue ≡ rest ++ id ∷ []
unfolding written change_output unschedule_front
written-queue a id n fin rest p i b c w =
    let offered = on_offered p.body.output (add64 p.body.output.tx_sent n) fin in
    let sent = on_sent offered.0 (add64 offered.0.tx_sent n) in
    let q = with_output (record p { scheduled = false }) sent.0 in
    let d = store (unschedule_front a p) q in
    let quiet =
      all-append offered.1 sent.1
        (on_offered-of_writer p.body.output (add64 p.body.output.tx_sent n) fin)
        (on_sent-of_writer offered.0 (add64 offered.0.tx_sent n)) in
    let found : lookup id d.streams ≡ some q =
      ap (λ (m : ℕ). lookup m d.streams) (sym i) ∙ lookup-put q (unschedule_front a p).streams in
    let popped : d.write_queue ≡ rest =
      ap (λ (m : ℕ). without_front m a.write_queue) i
      ∙ ap (without_front id) w
      ∙ without_front-cons id rest in
    to_the_back-queue id rest (reports d p.id (offered.1 ++ sent.1)) (
      subst (λ (m : ℕ). StandsBehind id rest (reports d m (offered.1 ++ sent.1)).0) (sym i)
        (reports-StandsBehind id rest (offered.1 ++ sent.1) d quiet
          (q, found, i, b, c, inl (refl, popped))))

-- The stream at the front that a packet was written for goes to the back of the queue, whatever it
-- wrote and completed: every other stream moves up by one.
pub on_stream_data_written-round_robin :
    (a : StreamApplication) (id n : ℕ) (fin : Bool) (rest : List ℕ) (p : PlainStream)
    → find_stream a id ≡ some p
    → p.blocked ≡ false
    → a.closed ≡ false
    → a.write_queue ≡ id ∷ rest
    → (on_stream_data_written a id n fin).0.write_queue ≡ rest ++ id ∷ []
unfolding on_stream_data_written
on_stream_data_written-round_robin a id n fin rest p e b c w =
    rw e (written-queue a id n fin rest p (find_stream-id a id p e).2 b c w)
