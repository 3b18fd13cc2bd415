-- ===== src/Tests/H2v2.antt =====
-- src/h2v2/stream.cpp at a concrete upload.
use anyhttp.Prelude.{◌≡◌, refl, inl, arith, true, false, none, some, List, [], ◌∷◌, ◌++◌}
use anyhttp.Contract.{Obeys}
use anyhttp.Quic.Stream.State.{zero_copy}
use anyhttp.H2.Stream.Writing.{Write}
use anyhttp.H2v2.Writing.{Outgoing, async_write, data_reader, on_write_offset}
use anyhttp.H2v2.Lending.{IsLending, Step, writes, reads, frames, step, steps, steps-IsLending}
use anyhttp.H2v2.Body.{to_offer, bytes_of, InTurn}
use anyhttp.H2v2.Slices.{body, slices-InOrder}
use anyhttp.H2v2.Ladder.{second_writer, second_write-Obeys}

-- A stream that hands out the caller's memory.
abbrev fresh : Outgoing
fresh = record {
  write_mode = zero_copy;
  write_buffer = [];
  offered = 0;
  written = 0;
  write_cancelled = false;
  write_handler = none;
  is_deferred = false;
  eof_requested = false;
  eof_submitted = false;
}

abbrev first_write : Write
first_write = record { handler = 1; buffer = 5 ∷ 6 ∷ []; eof = false }

abbrev last_write : Write
last_write = record { handler = 2; buffer = 7 ∷ []; eof = true }

-- The second write is set off by the completion of the first, and framed in turn.
abbrev upload : List Step
upload =
    reads true none
    ∷ writes first_write
    ∷ reads true none
    ∷ frames 1 none
    ∷ frames 1 (some last_write)
    ∷ reads true none
    ∷ frames 1 none
    ∷ []

fresh-IsLending : IsLending fresh
fresh-IsLending = record { released = inl refl; within = omega arith; ended = inl refl }

upload-InTurn : InTurn fresh upload
unfolding step async_write data_reader on_write_offset
upload-InTurn = (tt, (refl, (tt, (omega arith, (omega arith, (tt, (omega arith, tt)))))))

steps-IsLending_example : IsLending (steps fresh upload).output
steps-IsLending_example = steps-IsLending upload fresh fresh-IsLending

slices-InOrder_example :
    bytes_of (steps fresh upload).slices ++ to_offer (steps fresh upload).output
    ≡ to_offer fresh ++ body fresh upload
slices-InOrder_example = slices-InOrder upload fresh upload-InTurn

second_write-Obeys_example : Obeys second_writer (false, fresh) 1 (5 ∷ []) true
second_write-Obeys_example = second_write-Obeys (false, fresh) 1 (5 ∷ []) true
