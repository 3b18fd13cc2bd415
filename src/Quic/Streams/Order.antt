-- ===== src/Quic/Streams/Order.antt =====
-- The order in which the streams that the peer opens reach the callers of accept_stream(), and what
-- becomes of each call: src/quic/streams.cpp.
use anyhttp.Prelude.{
  ℕ, ◌+◌, ◌≡◌, inl, inr, refl, sym, ap, ◌∙◌, Bool, true, false, not, ◌||◌, List, [], ◌∷◌, ◌++◌,
  if◌then◌else◌, arith, append_assoc, append-nil, Bool-cases,
}
use anyhttp.Quic.Stream.State.{is_some}
use anyhttp.Quic.Streams.State.{StreamApplication, Notice, Turn, find_stream}
use anyhttp.Quic.Streams.Accept.{
  deliver_accepted, queued, open_remote_stream, async_accept_stream, cancel_accept, on_closed,
}
use anyhttp.Quic.Streams.Moves.{
  handed_by, handed, answers, waiting, IsMatched, Moves, deliver-Moves, accept-Moves, cancel-Moves,
  closed-Moves,
}

-- What happens to the queue: the peer opens a stream, a caller accepts one or gives up, the
-- connection is over.
pub data Call : Type 0 where
  opens : ℕ → Call
  accepts : ℕ → Call
  gives_up closes : Call

module _ (remote : ℕ → Bool) where
  unfoldable pub call : StreamApplication → Call → Turn
  call a (opens id) = open_remote_stream remote a id
  call a (accepts handler) = async_accept_stream a handler
  call a gives_up = cancel_accept a
  call a closes = on_closed a

  -- The stream that a call adds, and the handler.
  abbrev pub opened_by : StreamApplication → Call → List ℕ
  opened_by a (opens id) =
      if is_some (find_stream a id) || not (remote id) || a.closed then [] else id ∷ []
  opened_by a _ = []

  abbrev pub asked_by : Call → ℕ
  asked_by (accepts handler) = 1
  asked_by _ = 0

  unfoldable pub calls : StreamApplication → List Call → Turn
  unfolding call
  calls a [] = (a, [])
  calls a (x ∷ xs) = let (b, ns) = call a x in let (c, ms) = calls b xs in (c, ns ++ ms)

  abbrev pub opened_streams : StreamApplication → List Call → List ℕ
  opened_streams a [] = []
  opened_streams a (x ∷ xs) = opened_by a x ++ opened_streams (call a x).0 xs

  abbrev pub asked_for : List Call → ℕ
  asked_for [] = 0
  asked_for (x ∷ xs) = asked_by x + asked_for xs

  known-open_remote_stream :
      (a : StreamApplication) (id : ℕ)
      → is_some (find_stream a id) || not (remote id) || a.closed ≡ true
      → open_remote_stream remote a id ≡ (a, [])
  unfolding open_remote_stream
  known-open_remote_stream a id e = ground arith

  new-open_remote_stream :
      (a : StreamApplication) (id : ℕ)
      → is_some (find_stream a id) || not (remote id) || a.closed ≡ false
      → open_remote_stream remote a id ≡ deliver_accepted (queued a id)
  unfolding open_remote_stream
  new-open_remote_stream a id e = ground arith

  open-Moves :
      (a : StreamApplication) (id : ℕ)
      → IsMatched a
      → Moves a (opened_by a (opens id)) 0 (open_remote_stream remote a id)
  open-Moves a id m =
      elim (Bool-cases (is_some (find_stream a id) || not (remote id) || a.closed)) [
        | inl e ↦
            rw (known-open_remote_stream a id e, e)
              (record {
                in_order = inr (sym (append-nil a.accept_queue));
                once = omega arith;
                matched = m;
                stays_closed = λ c. c;
              })
        | inr e ↦ rw (new-open_remote_stream a id e, e) (deliver-Moves a id m (ground arith))
      ]

  call-Moves :
      (a : StreamApplication) (x : Call)
      → IsMatched a
      → Moves a (opened_by a x) (asked_by x) (call a x)
  unfolding call
  call-Moves a (opens id) m = open-Moves a id m
  call-Moves a (accepts handler) m = accept-Moves a handler m
  call-Moves a gives_up m = cancel-Moves a m
  call-Moves a closes m = closed-Moves a m

handed-append : (ns ms : List Notice) → handed (ns ++ ms) ≡ handed ns ++ handed ms
handed-append [] ms = refl
handed-append (n ∷ ns) ms =
    ap (◌++◌ (handed_by n)) (handed-append ns ms)
    ∙ sym (append_assoc (handed_by n) (handed ns) (handed ms))

answers-append : (ns ms : List Notice) → answers (ns ++ ms) ≡ answers ns + answers ms
answers-append [] ms = omega arith
answers-append (n ∷ ns) ms = omega (arith, answers-append ns ms)

-- One sequence of calls after another.
Moves-both :
    (a b : StreamApplication) (opened more : List ℕ) (asked n : ℕ) (ns : List Notice) (u : Turn)
    → Moves a opened asked (b, ns)
    → Moves b more n u
    → Moves a (opened ++ more) (asked + n) (u.0, ns ++ u.1)
Moves-both a b opened more asked n ns u f g =
    let joined : handed ns ++ b.accept_queue ≡ a.accept_queue ++ opened
        → handed u.1 ++ u.0.accept_queue ≡ b.accept_queue ++ more
        → handed (ns ++ u.1) ++ u.0.accept_queue ≡ a.accept_queue ++ (opened ++ more) =
      λ e d.
        ap (λ (x : List ℕ). x ++ u.0.accept_queue) (handed-append ns u.1)
        ∙ append_assoc (handed ns) (handed u.1) u.0.accept_queue
        ∙ ap (◌++◌ (handed ns)) d
        ∙ sym (append_assoc (handed ns) b.accept_queue more)
        ∙ ap (λ (x : List ℕ). x ++ more) e
        ∙ append_assoc a.accept_queue opened more in
    record {
      in_order = ground (arith, joined);
      once = omega (arith, answers-append ns u.1, f.once, g.once);
      matched = g.matched;
      stays_closed = λ c. g.stays_closed (f.stays_closed c);
    }

calls-Moves :
    (remote : ℕ → Bool) (xs : List Call) (a : StreamApplication)
    → IsMatched a
    → Moves a (opened_streams remote a xs) (asked_for remote xs) (calls remote a xs)
unfolding calls
calls-Moves remote [] a m = record {
  in_order = inr (sym (append-nil a.accept_queue));
  once = omega arith;
  matched = m;
  stays_closed = λ c. c;
}
calls-Moves remote (x ∷ xs) a m =
    let t = call remote a x in
    let first = call-Moves remote a x m in
    let u = calls remote t.0 xs in
    Moves-both a t.0 (opened_by remote a x) (opened_streams remote t.0 xs) (asked_by remote x)
      (asked_for remote xs) t.1 u first (calls-Moves remote xs t.0 first.matched)

-- From a state in which no call waits while a stream does, any sequence of streams that the peer
-- opens, calls of accept_stream(), cancellations and the end of the connection hands the streams
-- out in the order in which they were opened, none twice, and as long as the connection is not over
-- none is lost: those handed out, followed by those that wait, are those that waited before followed
-- by those opened since.
pub calls-in_order :
    (remote : ℕ → Bool) (xs : List Call) (a : StreamApplication)
    → IsMatched a
    → (calls remote a xs).0.closed ≡ false
    → handed (calls remote a xs).1 ++ (calls remote a xs).0.accept_queue
      ≡ a.accept_queue ++ opened_streams remote a xs
calls-in_order remote xs a m c =
    let u = calls remote a xs in let d = calls-Moves remote xs a m in ground (arith, d.in_order)

-- Over any such sequence every call of accept_stream() is answered exactly once, but for the one
-- that may still wait; no call waits while a stream does, and once the connection is over nothing
-- waits.
pub calls-answered :
    (remote : ℕ → Bool) (xs : List Call) (a : StreamApplication)
    → IsMatched a
    → (answers (calls remote a xs).1 + waiting (calls remote a xs).0
        ≡ waiting a + asked_for remote xs)
      × IsMatched (calls remote a xs).0
calls-answered remote xs a m = let d = calls-Moves remote xs a m in (d.once, d.matched)
