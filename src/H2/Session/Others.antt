-- ===== src/H2/Session/Others.antt =====
-- What the close of a stream does to the map of streams, src/h2/session.cpp.
use anyhttp.Prelude.{
  ◌≡◌, refl, ap, inl, inr, true, false, ◌||◌, Option, none, some, List, [], ◌∷◌, arith, Bool-cases,
  ℤ, pos, negsuc,
}
use anyhttp.Completion.{Reaction, is_some}
use anyhttp.H2.State.{NgHttp2Stream, Event}
use anyhttp.H2.Stream.Resting.{IsResting}
use anyhttp.H2.Session.Closing.{close, fail_write, Closing, Fate, kept, deferred, erased, Doing}
use anyhttp.H2.Session.Fates.{Closes, close-Closes, owes_response, owes_body}
use anyhttp.H2.Session.Streams.{
  NgHttp2Session, Entry, same_id, find_stream, erase_stream, update, close_stream, close_found,
  settle_fate,
}

same_id_sound : (a b : ℤ) → same_id a b ≡ true → a ≡ b
same_id_sound (pos m) (pos n) h = ap pos (ground arith)
same_id_sound (negsuc m) (negsuc n) h = ap negsuc (ground arith)
same_id_sound (pos m) (negsuc n) h = absurd (ground arith)
same_id_sound (negsuc m) (pos n) h = absurd (ground arith)

find_stream-erase : (id : ℤ) (es : List Entry) → find_stream id (erase_stream id es) ≡ none
unfolding find_stream erase_stream
find_stream-erase id [] = refl
find_stream-erase id (e ∷ es) = ground (arith, find_stream-erase id es)

find_stream-update :
    (id : ℤ) (t : NgHttp2Stream) (es : List Entry)
    → is_some (find_stream id es) ≡ true
    → find_stream id (update id t es) ≡ some t
unfolding find_stream update
find_stream-update id t [] k = absurd (ground arith)
find_stream-update id t (e ∷ es) k = elim (Bool-cases (same_id e.id id)) [
  | inl h ↦ rw h (rw h refl)
  | inr h ↦ rw h (rw h (find_stream-update id t es (ground arith)))
]

-- Two ids that differ name different entries.
apart : (a id other : ℤ) → same_id id other ≡ false → same_id a id ≡ true → same_id a other ≡ false
apart a id other d h = rw (same_id_sound a id h) d

find_stream-erase_other :
    (id other : ℤ) (es : List Entry)
    → same_id id other ≡ false
    → find_stream other (erase_stream id es) ≡ find_stream other es
unfolding find_stream erase_stream
find_stream-erase_other id other [] d = refl
find_stream-erase_other id other (e ∷ es) d = elim (Bool-cases (same_id e.id id)) [
  | inl h ↦ rw (h, apart e.id id other d h) (find_stream-erase_other id other es d)
  | inr h ↦ rw (h, find_stream-erase_other id other es d) refl
]

find_stream-update_other :
    (id other : ℤ) (t : NgHttp2Stream) (es : List Entry)
    → same_id id other ≡ false
    → find_stream other (update id t es) ≡ find_stream other es
unfolding find_stream update
find_stream-update_other id other t [] d = refl
find_stream-update_other id other t (e ∷ es) d = elim (Bool-cases (same_id e.id id)) [
  | inl h ↦ rw (h, apart e.id id other d h) (find_stream-update_other id other t es d)
  | inr h ↦ rw (h, find_stream-update_other id other t es d) refl
]

settle_fate-others :
    (s : NgHttp2Session) (id other : ℤ) (f : Fate) (t : NgHttp2Stream) (events : List Event)
    → same_id id other ≡ false
    → find_stream other (settle_fate s id f t events).0.streams ≡ find_stream other s.streams
unfolding settle_fate
settle_fate-others s id other erased t events d = find_stream-erase_other id other s.streams d
settle_fate-others s id other kept t events d = find_stream-update_other id other t s.streams d
settle_fate-others s id other deferred t events d = find_stream-update_other id other t s.streams d

-- What the session holds of a stream that was `t` and has been closed.
abbrev pub HeldOf : NgHttp2Stream → Option NgHttp2Stream → Type 0
HeldOf t none = (owes_response t ≡ false) × (owes_body t.input ≡ false)
HeldOf t (some u) =
    (u.closed ≡ true) × ((owes_response t || owes_body t.input) ≡ true) × IsResting u.input

settle_fate-HeldOf :
    (s : NgHttp2Session) (id : ℤ) (t : NgHttp2Stream) (c : Closing) (events : List Event)
    → is_some (find_stream id s.streams) ≡ true
    → Closes t c
    → HeldOf t (find_stream id (settle_fate s id c.fate c.stream events).0.streams)
unfolding settle_fate
settle_fate-HeldOf s id t c events k h = elim h.fate [
  | inl f ↦ rw (f.0, find_stream-update id c.stream s.streams k) (h.is_closed, either_one f.1, f.2)
  | inr (inl f) ↦
      rw (f.0, find_stream-update id c.stream s.streams k) (h.is_closed, either_two f.2, f.5)
  | inr (inr f) ↦ rw (f.0, find_stream-erase id s.streams) (f.1, f.2)
]
  where
    either_one : owes_response t ≡ true → (owes_response t || owes_body t.input) ≡ true
    either_one e = rw e refl

    either_two : owes_body t.input ≡ true → (owes_response t || owes_body t.input) ≡ true
    either_two e = ground arith

-- The close of a stream that the session holds, at rest, if the code that the failed write resumes
-- stays with that stream and asks for no close of its own: the streams with other ids are as they
-- were, and the session keeps the stream, closed and at rest, exactly if it owes its response or the
-- rest of its body, as the failed write and the code behind it leave it.
pub close_stream-HeldOf :
    (ds : List Doing) (xs : List Reaction) (s : NgHttp2Session) (id other : ℤ) (t : NgHttp2Stream)
    → find_stream id s.streams ≡ some t
    → IsResting t.input
    → (fail_write ds t).closes ≡ false
    → same_id id other ≡ false
    → (find_stream other (close_stream ds xs s id).0.streams ≡ find_stream other s.streams)
      × HeldOf (fail_write ds t).stream (find_stream id (close_stream ds xs s id).0.streams)
unfolding close_stream close_found
close_stream-HeldOf ds xs s id other t e h k d =
    let c = close ds xs t in
    let r = close-Closes ds xs t h k in
    rw e (
      settle_fate-others s id other c.fate c.stream c.events d,
      settle_fate-HeldOf s id (fail_write ds t).stream (record c { events = r.events }) c.events
          (rw e refl) r.closes,
    )
