-- ===== src/Contract.antt =====
-- The Writer contract of docs/end-of-body.rst and include/anyhttp/writer_impl.hpp, as an interface that
-- the writers of the protocols implement.
use anyhttp.Prelude.{
  ℕ, ◌≡◌, Bool, true, false, not, ◌&&◌, ◌||◌, Option, some, List, [], ◌∷◌, Bytes, is_empty,
  if◌then◌else◌,
}
use anyhttp.Completion.{Code, success, broken_pipe}

-- What the documents ask of a write: a certain answer, that another end of the body succeeds, the
-- error of a stream that is lost, or that it is accepted.
pub data Verdict : Type 0 where
  answered : Code → Verdict
  ended fails accepted : Verdict

-- Where a body stands: its end has been declared, and has been handed to the protocol's library; the
-- write of the end is still in progress, with or without a handler; the stream is lost.
pub record Standing : Type 0 where
  pub declared : Bool
  pub delivered : Bool
  pub in_progress : Bool
  pub lost : Bool

-- "After the end" of docs/end-of-body.rst, in its order.
unfoldable pub ladder : Standing → Bool → Bool → Verdict
ladder b empty eof =
    if empty && not eof
    then answered success
    else if b.declared && not empty
    then answered broken_pipe
    else if b.declared
    then ended
    else if b.lost
    then fails
    else accepted

-- A writer: its state, where its body stands, the write that waits, and the operation, with the
-- completions that it makes before it returns.
pub record Writer : Type 1 where
  pub State : Type 0
  pub standing : State → Standing
  pub waiting : State → Option ℕ
  pub lost_code : Code
  pub write : State → ℕ → Bytes → Bool → State × List (ℕ × Code)

-- The write is completed once, there and then, and changes nothing.
abbrev pub Answers : (w : Writer) → w.State → ℕ → Code → w.State × List (ℕ × Code) → Type 0
Answers w s handler ec r = (r.0 ≡ s) × (r.1 ≡ (handler, ec) ∷ [])

-- It waits, and declares the end if it is the end.
abbrev pub Waits : (w : Writer) → w.State → ℕ → Bool → w.State × List (ℕ × Code) → Type 0
Waits w s handler eof r =
    (w.waiting r.0 ≡ some handler)
    × (r.1 ≡ [])
    × ((w.standing r.0).declared ≡ ((w.standing s).declared || eof))

-- Another end adopts the first one while that is in progress, and succeeds at once otherwise.
abbrev pub EndsAgain : (w : Writer) → w.State → ℕ → Bool → Bool → w.State × List (ℕ × Code) → Type 0
EndsAgain w s handler eof true r = Waits w s handler eof r
EndsAgain w s handler eof false r = Answers w s handler success r

abbrev pub Follows :
    (w : Writer) → w.State → ℕ → Bool → Verdict → w.State × List (ℕ × Code) → Type 0
Follows w s handler eof (answered ec) r = Answers w s handler ec r
Follows w s handler eof ended r =
    EndsAgain w s handler eof ((w.standing s).in_progress && not (w.standing s).lost) r
Follows w s handler eof fails r = Answers w s handler w.lost_code r
Follows w s handler eof accepted r = Waits w s handler eof r

-- Another end, of a stream that was lost before the first one was handed over.
abbrev pub is_cut_off : Standing → Bool → Bool → Bool
is_cut_off b empty eof = b.declared && not b.delivered && b.lost && empty && eof

-- What the code does of a verdict: it follows it, but that a write that is cut off answers with the
-- error of the lost stream.
abbrev pub Departs :
    (w : Writer) → w.State → ℕ → Bool → Verdict → Bool → w.State × List (ℕ × Code) → Type 0
Departs w s handler eof v false r = Follows w s handler eof v r
Departs w s handler eof v true r = Answers w s handler w.lost_code r

abbrev pub Obeys : (w : Writer) → w.State → ℕ → Bytes → Bool → Type 0
Obeys w s handler buffer eof =
    Departs w s handler eof (ladder (w.standing s) (is_empty buffer) eof)
      (is_cut_off (w.standing s) (is_empty buffer) eof) (w.write s handler buffer eof)
