-- ===== src/H2v2/Body.antt =====
-- The body that the writes to src/h2v2/stream.cpp make up, and who may do what when.
use anyhttp.Prelude.{
  ℕ, ◌+◌, ◌-◌, ◌≤◌, ◌≡◌, Bool, not, ◌&&◌, Option, none, some, List, [], ◌∷◌, ◌++◌, Bytes, length,
  drop, ltb, ◌==◌, if◌then◌else◌,
}
use anyhttp.Completion.{is_some}
use anyhttp.Quic.Stream.State.{is_zero_copy, is_staged}
use anyhttp.H2.Stream.Writing.{Write}
use anyhttp.H2v2.Writing.{Outgoing, is_last}
use anyhttp.H2v2.Lending.{Step, writes, cancels, reads, frames, step}

-- What a waiting write has left to hand over.
abbrev pub to_offer : Outgoing → Bytes
to_offer o = if is_some o.write_handler then drop o.offered o.write_buffer else []

abbrev pub bytes_of : List (Bytes × Bool) → Bytes
bytes_of [] = []
bytes_of ((bytes, fin) ∷ fs) = bytes ++ bytes_of fs

-- The bytes of a write that the body takes: those of all writes but the ones behind its end.
abbrev pub body_of : Outgoing → Option Write → Bytes
body_of o none = []
body_of o (some w) = if o.eof_requested then [] else w.buffer

-- Whether being asked for data completes the write that waits: if it is an end without data that
-- nghttp2 does not know of, or its last chunk has been copied.
abbrev pub completed_by_reading : Outgoing → Bool → Bool
completed_by_reading o has_room =
    is_some o.write_handler
    && (if length o.write_buffer - o.offered == 0
        then o.eof_requested && not o.eof_submitted
        else has_room && is_last o && is_staged o.write_mode)

-- Whether it is complete with `len` more bytes framed.
abbrev pub completed_by_framing : Outgoing → ℕ → Bool
completed_by_framing o len =
    is_some o.write_handler
    && is_zero_copy o.write_mode
    && not (ltb (o.written + len) (length o.write_buffer))

abbrev pub body_by : Outgoing → Step → Bytes
body_by o (writes w) = body_of o (some w)
body_by o cancels = []
body_by o (reads has_room next) = if completed_by_reading o has_room then body_of o next else []
body_by o (frames len next) = if completed_by_framing o len then body_of o next else []

-- nghttp2 frames no more than it was handed, and the caller has one write in progress at a time.
abbrev pub MayStep : Outgoing → Step → Type 0
MayStep o (writes w) = o.write_handler ≡ none
MayStep o cancels = ⊥
MayStep o (reads has_room next) = Unit
MayStep o (frames len next) = o.written + len ≤ o.offered

abbrev pub InTurn : Outgoing → List Step → Type 0
InTurn o [] = Unit
InTurn o (x ∷ xs) = MayStep o x × InTurn (step o x).output xs

abbrev pub InOrder : Outgoing → Bytes → Outgoing → List (Bytes × Bool) → Type 0
InOrder o new p fs = bytes_of fs ++ to_offer p ≡ to_offer o ++ new
