-- ===== src/Tests/H3.antt =====
-- src/h3/stream.cpp at a concrete stream.
use anyhttp.Prelude.{◌+◌, ◌≡◌, refl, true, inl, [], ◌∷◌, Bytes, min, arith}
use anyhttp.Quic.Stream.State.{zero_copy, Outgoing}
use anyhttp.Quic.Stream.Output.{start_write, pending_data, on_offered}
use anyhttp.Quic.Stream.Positions.{MayWrite}
use anyhttp.Quic.Stream.Outbound.{opened, Reach, writes, fresh, onward}
use anyhttp.H3.Body.{data_reader, on_write_offered, taken}
use anyhttp.H3.Handed.{Hands, data_reader-Hands, on_write_offered-Counts}

abbrev payload : Bytes
payload = b'h' ∷ b'i' ∷ []

-- A body of two bytes that ends.
abbrev written : Outgoing
written = (start_write (opened zero_copy) 7 payload true).0

may_write : MayWrite (opened zero_copy) payload
may_write = record { one_at_a_time = inl refl; fits = omega arith }

written-Reach : Reach zero_copy (written, payload)
written-Reach = onward fresh (writes 7 payload true may_write)

data_reader-result : (data_reader written 16).result ≡ taken (payload ∷ []) true
unfolding data_reader start_write pending_data on_offered
data_reader-result = refl

data_reader-Hands_example : Hands zero_copy written payload 16 (data_reader written 16)
data_reader-Hands_example =
    data_reader-Hands written-Reach 16 (unfold start_write in refl) (unfold start_write in refl)

on_write_offered-Counts_example :
    ((on_write_offered written 9).0.tx_sent ≡ min (written.tx_sent + 9) written.tx_offered)
    × Reach zero_copy ((on_write_offered written 9).0, payload)
on_write_offered-Counts_example = on_write_offered-Counts written-Reach 9
