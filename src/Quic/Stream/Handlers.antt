-- ===== src/Quic/Stream/Handlers.antt =====
-- The handlers of writes, over the writing side's life: src/quic/stream.cpp.
use anyhttp.Prelude.{
  ℕ, ◌+◌, ◌≡◌, ◌⊎◌, refl, Bool, true, Option, none, some, List, [], ◌∷◌, ◌++◌, Bytes, if◌then◌else◌,
  arith,
}
use anyhttp.Completion.{Event, Code, When, write_done}
use anyhttp.Quic.Stream.State.{Outgoing, is_some}
use anyhttp.Quic.Stream.Output.{
  Effect, start_write, reset_writing, cancel_write, pending_data, on_offered, on_sent, on_acked,
  abort_writing, done_with,
}

-- How many writes a list of calls completes, and how many wait.
abbrev pub completes : Event → ℕ
completes (write_done w h ec) = 1
completes _ = 0

abbrev pub completed : List Event → ℕ
completed [] = 0
completed (e ∷ es) = completes e + completed es

abbrev pub waiting : Outgoing → ℕ
waiting s = if is_some s.write_handler then 1 else 0

-- What the caller, the stack and the peer do.
pub data Act : Type 0 where
  write : ℕ → Bytes → Bool → Act
  cancel : ℕ → Act
  ask : ℕ → ℕ → Act
  offer : ℕ → Bool → Act
  send : ℕ → Act
  acknowledge : ℕ → Act
  reset : Act
  abort : Code → Act

unfoldable pub act : Outgoing → Act → Effect
act s (write handler buffer eof) = start_write s handler buffer eof
act s (cancel token) = cancel_write s token
act s (ask from room) = ((pending_data s from room).stream, [])
act s (offer end fin) = on_offered s end fin
act s (send end) = on_sent s end
act s (acknowledge end) = on_acked s end
act s reset = reset_writing s
act s (abort ec) = abort_writing s ec

unfoldable pub acts : Outgoing → List Act → Effect
acts s [] = (s, [])
acts s (x ∷ xs) = let (t, es) = act s x in let (u, fs) = acts t xs in (u, es ++ fs)

abbrev pub written_by : Act → ℕ
written_by (write handler buffer eof) = 1
written_by _ = 0

abbrev pub writes : List Act → ℕ
writes [] = 0
writes (x ∷ xs) = written_by x + writes xs

-- One write at a time: none is started while another one's handler waits.
abbrev pub MayAct : Outgoing → Act → Type 0
MayAct s (write handler buffer eof) = s.write_handler ≡ none
MayAct s _ = Unit

abbrev pub OneAtATime : Outgoing → List Act → Type 0
OneAtATime s [] = Unit
OneAtATime s (x ∷ xs) = MayAct s x × OneAtATime (act s x).0 xs

-- A handler waits only for an active write.
abbrev pub IsOwned : Outgoing → Type 0
IsOwned s = (s.write_active ≡ true) ⊎ (s.write_handler ≡ none)

pub completed-append : (es fs : List Event) → completed (es ++ fs) ≡ completed es + completed fs
completed-append [] fs = omega arith
completed-append (e ∷ es) fs = omega (arith, completed-append es fs)

completed-done_with :
    (w : When) (o : Option ℕ) (ec : Code)
    → completed (done_with w o ec) ≡ (if is_some o then 1 else 0)
completed-done_with w none ec = refl
completed-done_with w (some h) ec = refl

abbrev Accounts : Outgoing → ℕ → Effect → Type 0
Accounts s n t = (completed t.1 + waiting t.0 ≡ waiting s + n) × IsOwned t.0

start_write-Accounts :
    (s : Outgoing) (handler : ℕ) (buffer : Bytes) (eof : Bool)
    → s.write_handler ≡ none
    → IsOwned s
    → Accounts s 1 (start_write s handler buffer eof)
unfolding start_write
start_write-Accounts s handler buffer eof h o = ground arith

cancel_write-Accounts : (s : Outgoing) (token : ℕ) → IsOwned s → Accounts s 0 (cancel_write s token)
unfolding cancel_write
cancel_write-Accounts s token o = ground arith

pending_data-Accounts :
    (s : Outgoing) (from room : ℕ)
    → IsOwned s
    → Accounts s 0 ((pending_data s from room).stream, [])
unfolding pending_data
pending_data-Accounts s from room o = ground arith

on_offered-Accounts :
    (s : Outgoing) (end : ℕ) (fin : Bool) → IsOwned s → Accounts s 0 (on_offered s end fin)
unfolding on_offered
on_offered-Accounts s end fin o = ground arith

on_sent-Accounts : (s : Outgoing) (end : ℕ) → IsOwned s → Accounts s 0 (on_sent s end)
unfolding on_sent
on_sent-Accounts s end o = ground arith

on_acked-Accounts : (s : Outgoing) (end : ℕ) → IsOwned s → Accounts s 0 (on_acked s end)
unfolding on_acked
on_acked-Accounts s end o = ground arith

abort_writing-Accounts : (s : Outgoing) (ec : Code) → IsOwned s → Accounts s 0 (abort_writing s ec)
unfolding abort_writing
abort_writing-Accounts s ec o = ground arith

act-Accounts :
    (s : Outgoing) (x : Act) → MayAct s x → IsOwned s → Accounts s (written_by x) (act s x)
unfolding act reset_writing
act-Accounts s (write handler buffer eof) m o = start_write-Accounts s handler buffer eof m o
act-Accounts s (cancel token) m o = cancel_write-Accounts s token o
act-Accounts s (ask from room) m o = pending_data-Accounts s from room o
act-Accounts s (offer end fin) m o = on_offered-Accounts s end fin o
act-Accounts s (send end) m o = on_sent-Accounts s end o
act-Accounts s (acknowledge end) m o = on_acked-Accounts s end o
act-Accounts s reset m o = (omega arith, o)
act-Accounts s (abort ec) m o = abort_writing-Accounts s ec o

-- Every write is completed exactly once, or still waits: over any sequence of writes,
-- cancellations, packets, acknowledgements, resets and aborts in which no write is started while
-- another one's handler waits, and from a state in which a handler waits only for an active write,
-- the completions and the handler that waits at the end, if one does, are as many as the handler
-- that waited at the start and the writes; and again a handler waits only for an active write.
pub acts_complete :
    (xs : List Act) (s : Outgoing)
    → OneAtATime s xs
    → IsOwned s
    → (completed (acts s xs).1 + waiting (acts s xs).0 ≡ waiting s + writes xs)
      × IsOwned (acts s xs).0
unfolding acts
acts_complete [] s m o = (omega arith, o)
acts_complete (x ∷ xs) s m o =
    let t = act s x in
    let first = act-Accounts s x m.0 o in
    let rest = acts_complete xs t.0 m.1 first.1 in
    (omega (arith, first.0, rest.0, completed-append t.1 (acts t.0 xs).1), rest.1)
