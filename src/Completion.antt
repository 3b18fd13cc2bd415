-- ===== src/Completion.antt =====
-- What an operation answers with, include/anyhttp/common.hpp: the error codes of a completion that
-- the streams use, and the calls that leave a stream, in the order in which they are made.
use anyhttp.Prelude.{ℕ, Bool, Option, none, Bytes}

pub data Code : Type 0 where
  success eof partial_message canceled broken_pipe : Code
  connection_reset connection_aborted already_started would_block bad_descriptor : Code
  header_limit end_of_stream invalid_argument : Code

-- A handler is invoked where it stands, or posted to the executor.
pub data When : Type 0 where
  at_once posted : When

-- A handler is a number. The bytes of a read are those that were copied into the caller's buffer.
pub data Event : Type 0 where
  read_done : ℕ → Code → Bytes → Event
  write_done : When → ℕ → Code → Event
  -- `on_writable()`
  writable : Event
  -- `session.consume_stream(id, n)`
  consumed : ℕ → Event
  -- `session.stop_reading(id, …)`, `session.reset_writing(id, …)`, `session.erase_stream(id)`
  stop_sending reset_stream erase : Event
  -- `on_failed(ec)`
  failing : Code → Event

-- A read that waits: its handler, and the size of the caller's buffer.
pub record Read : Type 0 where
  pub handler : ℕ
  pub size : ℕ

abbrev pub is_some {ℓ} : {A : Type ℓ} → Option A → Bool
is_some none = Bool.false
is_some (Option.some a) = Bool.true

-- What the code that a completion resumes does to the reading side before it returns: another
-- read, nothing, or the end of the reader.
pub data Reaction : Type 0 where
  again : Read → Reaction
  leave : Reaction
  drop_reader : Reaction

-- A reaction that reads on or does nothing.
abbrev pub Reads : Reaction → Type 0
Reads drop_reader = ⊥
Reads _ = Unit {0}
