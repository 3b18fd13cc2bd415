-- ===== src/Quic/Stream/Output.antt =====
-- The outgoing body of src/quic/stream.cpp, from `start_write` to `finish_active_write`.
use anyhttp.Prelude.{
  ℕ, zero, suc, ◌+◌, ◌-◌, min, max, Bool, true, false, not, ◌&&◌, ◌||◌, Option, none, some, List,
  [], ◌∷◌, ◌++◌, Bytes, length, take, drop, ltb, leb, ◌==◌, if◌then◌else◌, add64, sub64,
}
use anyhttp.Completion.{
  Event, Code, When, success, broken_pipe, canceled, connection_reset, at_once, posted, write_done,
  writable, reset_stream,
}
use anyhttp.Quic.Stream.State.{Outgoing, Chunk, is_zero_copy, is_staged, is_some}

-- kWriteChunkSize
abbrev pub write_chunk_size : ℕ
write_chunk_size = 16384

abbrev pub Effect : Type 0
Effect = Outgoing × List Event

-- The completion of a handler that may have been detached.
abbrev pub done_with : When → Option ℕ → Code → List Event
done_with w none ec = []
done_with w (some h) ec = write_done w h ec ∷ []

-- A new write, behind the ladder. The assertion `!write_active` is the caller's contract.
accept : Outgoing → ℕ → Bytes → Bool → Effect
accept s handler buffer eof = (
  record s {
    eof_submitted = eof || s.eof_submitted;
    next_write_token = add64 s.next_write_token 1;
    write_active = true;
    write_source = buffer;
    write_base = s.tx_queued;
    write_copied = 0;
    write_is_eof = eof;
    write_token = s.next_write_token;
    write_handler = some handler;
    tx_queued =
        if is_zero_copy s.write_mode then add64 s.tx_queued (length buffer) else s.tx_queued;
  },
  writable ∷ [],
)

-- A write behind the end of the body.
after_end : Outgoing → ℕ → ℕ → Effect
after_end s handler n =
    if ltb 0 n
    then (s, write_done at_once handler broken_pipe ∷ [])
    else if s.write_active && s.write_is_eof && not s.closed && not s.write_aborted
    then (record s { write_handler = some handler }, [])
    else if (s.closed || s.write_aborted) && not s.fin_offered
    then (s, write_done at_once handler connection_reset ∷ [])
    else (s, write_done at_once handler success ∷ [])

unfoldable pub start_write : Outgoing → ℕ → Bytes → Bool → Effect
unfolding accept after_end
start_write s handler buffer eof =
    if length buffer == 0 && not eof
    then (s, write_done at_once handler success ∷ [])
    else if s.eof_submitted
    then after_end s handler (length buffer)
    else if s.closed || s.write_aborted
    then (s, write_done at_once handler connection_reset ∷ [])
    else accept s handler buffer eof

-- The base version of `reset_writing`.
unfoldable pub reset_writing : Outgoing → Effect
reset_writing s = (record s { write_aborted = true }, reset_stream ∷ [])

-- In ZeroCopy mode, what the stack may still point into is reset, and the rest is taken back.
withdraw : Outgoing → Effect
withdraw s =
    if is_zero_copy s.write_mode
    then (let (r, events) =
          if ltb s.tx_acked s.tx_offered && not s.closed && not s.write_aborted
          then reset_writing s
          else (s, []) in
        (record r { tx_queued = r.tx_offered }, events))
    else (s, [])

abandon : Outgoing → Outgoing
abandon s = record s {
  eof_submitted =
      if s.write_is_eof && (is_zero_copy s.write_mode || not s.fin_offered)
      then false
      else s.eof_submitted;
  write_active = false;
  write_source = [];
  write_handler = none;
}

-- What `bind_write_cancellation` arms for a token, when it is delivered.
unfoldable pub cancel_write : Outgoing → ℕ → Effect
unfolding withdraw abandon reset_writing
cancel_write s token =
    if not (s.write_token == token) || not (is_some s.write_handler)
    then (s, [])
    else if s.write_is_eof && length s.write_source == 0
    then (record s { write_handler = none }, done_with posted s.write_handler canceled)
    else (let (r, events) = withdraw s in
        (abandon r, events ++ done_with posted s.write_handler canceled))

-- The next slice of the caller's buffer becomes a chunk, once all before it is in packets.
unfoldable pub carve : Outgoing → Outgoing
carve s =
    if is_staged s.write_mode
      && s.write_active
      && leb s.tx_queued s.tx_sent
      && ltb s.write_copied (length s.write_source)
    then (let n = min (length s.write_source - s.write_copied) write_chunk_size in
        record s {
          chunks =
              s.chunks
              ++ record {
                offset = s.tx_queued;
                content = take n (drop s.write_copied s.write_source);
              }
                ∷ [];
          write_copied = s.write_copied + n;
          tx_queued = add64 s.tx_queued n;
        })
    else s

-- The loop over the chunks: room in `vec`, the offset asked for, the end so far.
unfoldable pub hand_out : ℕ → ℕ → ℕ → List Chunk → List Bytes × ℕ
hand_out room from end [] = ([], end)
hand_out zero from end (c ∷ cs) =
    if leb (c.offset + length c.content) from then hand_out zero from end cs else ([], end)
hand_out (suc room) from end (c ∷ cs) =
    let chunk_end = c.offset + length c.content in
    let skipped = hand_out (suc room) from end cs in
    let (rest, last) = hand_out room from chunk_end cs in
    if leb chunk_end from
    then skipped
    else (drop (if ltb c.offset from then from - c.offset else 0) c.content ∷ rest, last)

-- `vec` is the list of what its entries point at.
pub record Offer : Type 0 where
  pub stream : Outgoing
  pub vec : List Bytes
  pub fin : Bool

-- What there is to point at, and where it ends.
unfoldable pub slices : Outgoing → ℕ → ℕ → List Bytes × ℕ
unfolding hand_out
slices s from room =
    if is_zero_copy s.write_mode
    then if s.write_active && ltb from s.tx_queued
      then (
        take (s.tx_queued - from) (drop (sub64 from s.write_base) s.write_source) ∷ [],
        s.tx_queued,
      )
      else ([], from)
    else hand_out room from from s.chunks

unfoldable pub ends_body : Outgoing → ℕ → Bool
ends_body s end =
    s.write_active
    && s.write_is_eof
    && (is_zero_copy s.write_mode || s.write_copied == length s.write_source)
    && leb s.tx_queued end

unfoldable pub pending_data : Outgoing → ℕ → ℕ → Offer
unfolding carve slices ends_body
pending_data s from room =
    if room == 0 || s.closed || s.write_aborted
    then record { stream = s; vec = []; fin = false }
    else (let t = carve s in
        let (vec, end) = slices t from room in
        record { stream = t; vec = vec; fin = ends_body t end })

unfoldable pub finish_active_write : Outgoing → Effect
finish_active_write s = (
  record s { write_source = []; write_handler = none; write_active = false },
  done_with posted s.write_handler success,
)

unfoldable pub on_offered : Outgoing → ℕ → Bool → Effect
unfolding finish_active_write
on_offered s end fin =
    let t = record s { tx_offered = max s.tx_offered (min end s.tx_queued) } in
    if not fin
    then (t, [])
    else if t.write_active && length t.write_source == 0
    then finish_active_write (record t { fin_offered = true })
    else (record t { fin_offered = true }, [])

unfoldable pub on_sent : Outgoing → ℕ → Effect
unfolding finish_active_write
on_sent s end =
    if leb end s.tx_sent
    then (s, [])
    else (let t = record s { tx_sent = min end s.tx_offered } in
        if not (is_staged t.write_mode) || not t.write_active || ltb t.tx_sent t.tx_queued
        then (t, [])
        else if length t.write_source == 0
        then (t, [])
        else if t.write_copied == length t.write_source
        then finish_active_write t
        else (t, writable ∷ []))

-- `while (!chunks.empty() && … <= tx_acked) chunks.pop_front();`
unfoldable pub drop_acked : ℕ → List Chunk → List Chunk
drop_acked acked [] = []
drop_acked acked (c ∷ cs) =
    let rest = drop_acked acked cs in
    if leb (c.offset + length c.content) acked then rest else c ∷ cs

unfoldable pub on_acked : Outgoing → ℕ → Effect
unfolding drop_acked finish_active_write
on_acked s end =
    let end' = min end s.tx_offered in
    if leb end' s.tx_acked
    then (s, [])
    else (let t = record s { tx_acked = end'; chunks = drop_acked end' s.chunks } in
        if is_zero_copy t.write_mode
          && t.write_active
          && ltb 0 (length t.write_source)
          && leb (add64 t.write_base (length t.write_source)) t.tx_acked
        then finish_active_write t
        else (t, []))

unfoldable pub abort_writing : Outgoing → Code → Effect
abort_writing s ec =
    let t = record s { write_aborted = true } in
    if not t.write_active then (t, []) else (
      record t { write_active = false; write_source = []; write_handler = none },
      done_with posted t.write_handler ec,
    )
