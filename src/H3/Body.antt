-- ===== src/H3/Body.antt =====
-- The outgoing body of src/h3/stream.cpp between nghttp3, which counts the bytes of the body, and the
-- QUIC stream below.
use anyhttp.Prelude.{
  ℕ, min, Bool, false, not, ◌&&◌, List, [], ◌∷◌, Bytes, length, ◌==◌, ltb, if◌then◌else◌, add64,
  sub64,
}
use anyhttp.Quic.Stream.State.{Outgoing}
use anyhttp.Completion.{Event}
use anyhttp.Quic.Stream.Output.{Effect, Offer, pending_data, on_offered, on_acked, on_sent}

-- What `data_reader` returns: NGHTTP3_ERR_WOULDBLOCK, or what `vec` points at with
-- NGHTTP3_DATA_FLAG_EOF.
pub data Taken : Type 0 where
  would_block : Taken
  taken : List Bytes → Bool → Taken

pub record Reading : Type 0 where
  pub stream : Outgoing
  pub events : List Event
  pub result : Taken

-- `end += vec[i].len`
abbrev pub end_of : ℕ → List Bytes → ℕ
end_of end [] = end
end_of end (v ∷ vec) = end_of (add64 end (length v)) vec

-- What is done with what is pending from `from` on.
unfoldable pub hand_over : ℕ → Offer → Reading
hand_over from p =
    let (t, events) = on_offered p.stream (end_of from p.vec) p.fin in
    if length p.vec == 0 && not p.fin
    then record { stream = p.stream; events = []; result = would_block }
    else record { stream = t; events = events; result = taken p.vec p.fin }

unfoldable pub data_reader : Outgoing → ℕ → Reading
unfolding hand_over
data_reader s veccnt =
    let r = hand_over s.tx_offered (pending_data s s.tx_offered veccnt) in
    if veccnt == 0 then record { stream = s; events = []; result = taken [] false } else r

-- The bytes are those of the body.
unfoldable pub on_write_acked : Outgoing → ℕ → Effect
on_write_acked s n = let r = on_acked s (add64 s.tx_acked n) in if ltb 0 n then r else (s, [])

-- The bytes are those of the stream, with HTTP/3's own among them.
unfoldable pub on_write_offered : Outgoing → ℕ → Effect
on_write_offered s n =
    let r = on_sent s (add64 s.tx_sent (min n (sub64 s.tx_offered s.tx_sent))) in
    if ltb 0 n then r else (s, [])
