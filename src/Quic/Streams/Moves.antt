-- ===== src/Quic/Streams/Moves.antt =====
-- How each operation on the accept queue of src/quic/streams.cpp moves streams and calls.
use anyhttp.Prelude.{
  ℕ, ◌+◌, ◌≡◌, ◌⊎◌, true, false, none, some, List, [], ◌∷◌, ◌++◌, if◌then◌else◌, arith, append-nil,
}
use anyhttp.Completion.{success}
use anyhttp.Quic.Stream.State.{is_some}
use anyhttp.Quic.Streams.State.{StreamApplication, Notice, accepted, Turn}
use anyhttp.Quic.Streams.Accept.{
  hand_over, deliver_accepted, queued, async_accept_stream, cancel_accept, on_closed,
}

-- The ids that completions hand out, and how many completions there are.
abbrev pub handed_by : Notice → List ℕ
handed_by (accepted w h success (some id)) = id ∷ []
handed_by _ = []

abbrev pub handed : List Notice → List ℕ
handed [] = []
handed (n ∷ ns) = handed_by n ++ handed ns

abbrev pub answers_by : Notice → ℕ
answers_by (accepted w h ec o) = 1
answers_by _ = 0

abbrev pub answers : List Notice → ℕ
answers [] = 0
answers (n ∷ ns) = answers_by n + answers ns

abbrev pub waiting : StreamApplication → ℕ
waiting a = if is_some a.accept_handler then 1 else 0

-- No call waits while a stream does, and none of either is left once the connection is over.
pub record IsMatched (a : StreamApplication) : Type 0 where
  pub one_side : (a.accept_handler ≡ none) ⊎ (a.accept_queue ≡ [])
  pub over : (a.closed ≡ false) ⊎ (a.accept_handler ≡ none) × (a.accept_queue ≡ [])

-- How a step moves streams and calls.
pub record Moves (a : StreamApplication) (opened : List ℕ) (asked : ℕ) (t : Turn) : Type 0 where
  pub in_order : (t.0.closed ≡ true) ⊎ (handed t.1 ++ t.0.accept_queue ≡ a.accept_queue ++ opened)
  pub once : answers t.1 + waiting t.0 ≡ waiting a + asked
  pub matched : IsMatched t.0
  pub stays_closed : a.closed ≡ true → t.0.closed ≡ true

pub deliver-Moves :
    (a : StreamApplication) (id : ℕ)
    → IsMatched a
    → a.closed ≡ false
    → Moves a (id ∷ []) 0 (deliver_accepted (queued a id))
unfolding deliver_accepted hand_over
deliver-Moves a id m c = ground arith

pub accept-Moves :
    (a : StreamApplication) (handler : ℕ)
    → IsMatched a
    → Moves a [] 1 (async_accept_stream a handler)
unfolding async_accept_stream hand_over
accept-Moves a handler m = ground (arith, append-nil a.accept_queue)

pub cancel-Moves : (a : StreamApplication) → IsMatched a → Moves a [] 0 (cancel_accept a)
unfolding cancel_accept
cancel-Moves a m = ground (arith, append-nil a.accept_queue)

pub closed-Moves : (a : StreamApplication) → IsMatched a → Moves a [] 0 (on_closed a)
unfolding on_closed
closed-Moves a m = ground arith
