-- ===== src/Quic/Stream/State.antt =====
-- The state of a `QuicStream`, include/anyhttp/quic/stream.hpp.
pub use anyhttp.Completion.{Read, is_some}
use anyhttp.Prelude.{◌≡◌, ◌⊎◌, inl, inr, refl, ℕ, Bool, Option, List, Bytes}

pub data WriteMode : Type 0 where
  zero_copy staged : WriteMode

pub record Chunk : Type 0 where
  pub offset : ℕ
  pub content : Bytes

-- The incoming body. `read_head` is what is left of the front of `pending_read`.
pub record Incoming : Type 0 where
  pub pending_read : List Bytes
  pub read_head : Bytes
  pub incoming : Bytes
  pub eof_received : Bool
  pub read_handler : Option Read
  pub call_read_handler_active : Bool
  pub read_aborted : Bool

-- The outgoing body. A buffer is the bytes that it views; positions are uint64_t. `closed` is
-- both directions', and stands here because the writing side asks for it most.
pub record Outgoing : Type 0 where
  pub write_mode : WriteMode
  pub write_active : Bool
  pub write_source : Bytes
  pub write_is_eof : Bool
  pub write_handler : Option ℕ
  pub write_token : ℕ
  pub next_write_token : ℕ
  pub eof_submitted : Bool
  pub fin_offered : Bool
  pub write_base : ℕ
  pub write_copied : ℕ
  pub tx_queued : ℕ
  pub tx_offered : ℕ
  pub tx_sent : ℕ
  pub tx_acked : ℕ
  pub chunks : List Chunk
  pub closed : Bool
  pub write_aborted : Bool

abbrev pub is_zero_copy : WriteMode → Bool
is_zero_copy zero_copy = Bool.true
is_zero_copy staged = Bool.false

abbrev pub is_staged : WriteMode → Bool
is_staged zero_copy = Bool.false
is_staged staged = Bool.true

pub WriteMode-cases : (m : WriteMode) → (m ≡ zero_copy) ⊎ (m ≡ staged)
WriteMode-cases zero_copy = inl refl
WriteMode-cases staged = inr refl

-- `reader` and `writer` say whether the adapters are attached.
pub record QuicStream : Type 0 where
  pub input : Incoming
  pub output : Outgoing
  pub reader : Bool
  pub writer : Bool
