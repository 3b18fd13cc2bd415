-- ===== src/H2/Session/Submits.antt =====
-- Requests that are submitted, and the map of streams, src/h2/session.cpp.
use anyhttp.Prelude.{
  ℕ, ◌+◌, ◌≤◌, ◌≡◌, Bool, true, false, ◌&&◌, List, [], ◌∷◌, length, length-append, ltb,
  if◌then◌else◌, arith, if_both, ℤ, pos, negsuc, max,
}
use anyhttp.Completion.{is_some}
use anyhttp.H2.State.{created, NgHttp2Stream, Event, submit_done, submit_empty}
use anyhttp.H2.Stream.Counting.{total}
use anyhttp.H2.Session.Streams.{
  NgHttp2Session, Entry, Peer, find_stream, emplace, enter, async_submit,
}

abbrev pub submissions : Event → ℕ
submissions (submit_done w h ec) = 1
submissions _ = 0

-- Handlers that are empty when they are posted.
abbrev pub empty_submissions : Event → ℕ
empty_submissions submit_empty = 1
empty_submissions _ = 0

abbrev pub is_refused : ℤ → Bool
is_refused (pos n) = false
is_refused (negsuc n) = true

-- Whether a request gets as far as nghttp2.
abbrev pub goes_ahead : NgHttp2Session → Peer → Bool
goes_ahead s peer = s.present && peer.allowed && ltb (length s.streams) peer.limit

emplace-length :
    (id : ℤ) (t : NgHttp2Stream) (es : List Entry) → length (emplace id t es) ≤ length es + 1
unfolding emplace
emplace-length id t es =
    if_both (λ (fs : List Entry). length fs ≤ length es + 1) (is_some (find_stream id es))
      (λ _. omega arith)
      (λ _. omega (arith, length-append es (record { id = id; stream = t } ∷ [])))

-- A submitted request is answered exactly once; but if it gets as far as nghttp2 and nghttp2 refuses
-- it, an empty handler is posted as well, one that has been moved from and invoked. The streams that
-- the session holds are never more than they were or the peer allows.
pub async_submit_answers :
    (s : NgHttp2Session) (handler : ℕ) (peer : Peer)
    → (total submissions (async_submit s handler peer).1 ≡ 1)
      × (total empty_submissions (async_submit s handler peer).1
          ≡ (if goes_ahead s peer && is_refused peer.id then 1 else 0))
      × (length (async_submit s handler peer).0.streams ≤ max (length s.streams) peer.limit)
async_submit_answers s handler peer = (answers peer.id, empty peer.id, bound)
  where
    answers : (id : ℤ) → total submissions (async_submit s handler (record peer { id = id })).1 ≡ 1
    answers (pos n) = unfold async_submit enter in ground arith
    answers (negsuc n) = unfold async_submit enter in ground arith

    empty :
        (id : ℤ)
        → total empty_submissions (async_submit s handler (record peer { id = id })).1
          ≡ (if goes_ahead s peer && is_refused id then 1 else 0)
    empty (pos n) = unfold async_submit enter in ground arith
    empty (negsuc n) = unfold async_submit enter in ground arith

    bound : length (async_submit s handler peer).0.streams ≤ max (length s.streams) peer.limit
    bound =
        unfold async_submit enter in
        ground (
          arith,
          emplace-length peer.id
              (record created { output = record created.output { writer = true } }) s.streams,
        )
