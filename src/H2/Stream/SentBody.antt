-- ===== src/H2/Stream/SentBody.antt =====
-- The frames of src/h2/stream.cpp and the writes they come from.
use anyhttp.Prelude.{
  ℕ, ◌+◌, ◌≡◌, refl, inl, inr, ◌⊎◌, Bool, false, ◌&&◌, Option, none, some, List, [], ◌∷◌, ◌++◌,
  Bytes, drop, is_empty, if◌then◌else◌, arith,
}
use anyhttp.Completion.{is_some}
use anyhttp.H2.State.{Outgoing, Event, write_done}
use anyhttp.H2.Stream.Writing.{Write, async_write, respawn, frame, Production, complete}
use anyhttp.H2.Stream.Counting.{total}
use anyhttp.H2.Stream.Sending.{Step, writes, cancels, pulls}

-- What a waiting write has left to send.
abbrev pub pending : Outgoing → Bytes
pending o = if is_some o.write_handler then o.write_buffer else []

abbrev pub bytes_of : List (Bytes × Bool) → Bytes
bytes_of [] = []
bytes_of ((bytes, fin) ∷ fs) = bytes ++ bytes_of fs

-- The bytes of a write that the body takes: those of all writes but the ones behind its end.
abbrev pub body_of : Outgoing → Write → Bytes
body_of o w = if o.eof_requested then [] else w.buffer

-- Whether a frame with room for `n` bytes completes the write.
abbrev pub completes : Outgoing → ℕ → Bool
completes o n = is_some o.write_handler && is_empty (drop n o.write_buffer)

-- The write that a completion sets off stands behind the end too if this one is the end.
abbrev pub body_by : Outgoing → Step → Bytes
body_by o (writes w) = body_of o w
body_by o cancels = []
body_by o (pulls n none) = []
body_by o (pulls n (some w)) = if completes o n then body_of o w else []

abbrev pub write_by : Outgoing → Step → ℕ
write_by o (writes w) = 1
write_by o cancels = 0
write_by o (pulls n none) = 0
write_by o (pulls n (some w)) = if completes o n then 1 else 0

abbrev pub written : Event → ℕ
written (write_done w h ec) = 1
written _ = 0

abbrev pub waiting : Outgoing → ℕ
waiting o = if is_some o.write_handler then 1 else 0

abbrev pub fins : List (Bytes × Bool) → ℕ
fins [] = 0
fins ((bytes, fin) ∷ fs) = (if fin then 1 else 0) + fins fs

abbrev pub told : Outgoing → ℕ
told o = if o.eof_submitted then 1 else 0

is_empty-case : (s : Bytes) → (is_empty s ≡ false) ⊎ (s ≡ [])
is_empty-case [] = inr refl
is_empty-case (c ∷ s) = inl refl

pub async_write-pending :
    (o : Outgoing) (w : Write)
    → o.write_handler ≡ none
    → pending (async_write false o w).0 ≡ body_of o w
unfolding async_write
async_write-pending o w n = elim (is_empty-case w.buffer) [
  | inl e ↦ ground arith
  | inr e ↦ ground arith
]

pub async_write-written :
    (o : Outgoing) (w : Write)
    → o.write_handler ≡ none
    → total written (async_write false o w).1 + waiting (async_write false o w).0 ≡ 1
unfolding async_write
async_write-written o w n = ground arith

pub async_write-told :
    (o : Outgoing) (w : Write) → (async_write false o w).0.eof_submitted ≡ o.eof_submitted
unfolding async_write
async_write-told o w = ground arith

-- The completion of a write, and the write that it sets off.
abbrev pub respawned : Outgoing → Option Write → Bytes
respawned o none = []
respawned o (some w) = body_of o w

abbrev pub respawn_writes : Option Write → ℕ
respawn_writes none = 0
respawn_writes (some w) = 1

pub record Completes (o : Outgoing) (bytes : Bytes) (fin : Bool) (next : Option Write)
    (p : Production) : Type 0 where
  pub is_frame : p.produced ≡ frame bytes fin
  pub rest : pending p.output ≡ respawned o next
  pub answered : total written p.events + waiting p.output ≡ 1 + respawn_writes next
  pub same_end : p.output.eof_submitted ≡ o.eof_submitted

pub complete-Completes :
    (o : Outgoing) (handler : ℕ) (bytes : Bytes) (fin : Bool) (next : Option Write)
    → Completes o bytes fin next (complete o handler bytes fin next)
unfolding complete respawn
complete-Completes o handler bytes fin none = record {
  is_frame = refl;
  rest = refl;
  answered = refl;
  same_end = refl;
}
complete-Completes o handler bytes fin (some w) =
    let taken = record o { write_handler = none } in
    record {
      is_frame = refl;
      rest = async_write-pending taken w refl;
      answered = omega (arith, async_write-written taken w refl);
      same_end = async_write-told taken w;
    }
