-- ===== src/Quic/Stream/Preserves.antt =====
-- The body of a stream across each operation of src/quic/stream.cpp.
use anyhttp.Prelude.{
  ℕ, ◌≡◌, refl, inl, inr, min, max, Bool, true, false, not, ◌&&◌, ◌||◌, ◌++◌, Bytes, length, take,
  ltb, leb, ◌==◌, if◌then◌else◌, arith, Bool-cases, add64,
}
use anyhttp.Quic.Stream.State.{Outgoing, is_zero_copy, is_staged, WriteMode-cases}
use anyhttp.Quic.Stream.Output.{
  start_write, cancel_write, pending_data, finish_active_write, on_offered, on_sent, on_acked,
  drop_acked,
}
use anyhttp.Quic.Stream.Positions.{IsOrdered, MayWrite}
use anyhttp.Quic.Stream.Sends.{IsLive, take-whole}
use anyhttp.Quic.Stream.Body.{Holds, carve-Holds}
use anyhttp.Quic.Stream.Changes.{
  Holds-stays, Holds-finish, Holds-acked, Holds-taken_back, Holds-lent, Holds-to_copy,
  all_copied-uncarved, zero_copy-uncarved, Holds-all,
}
use anyhttp.Quic.Stream.Outbound.{accepts, cancels}

pub writes-Holds :
    (s : Outgoing) (body : Bytes) (handler : ℕ) (buffer : Bytes) (eof : Bool)
    → MayWrite s buffer
    → IsOrdered s
    → (IsLive s → Holds body s)
    → IsLive (start_write s handler buffer eof).0
    → Holds
        (if accepts s buffer eof then body ++ buffer else body)
        (start_write s handler buffer eof).0
unfolding start_write
writes-Holds s body handler buffer eof m v h live =
    let t = (start_write s handler buffer eof).0 in
    elim (Bool-cases (accepts s buffer eof)) [
      | inl e ↦ elim (WriteMode-cases s.write_mode) [
        | inl z ↦ rw e (
            Holds-lent t buffer (ground arith) (ground arith) (ground arith) (ground arith)
              (ground arith) (h (ground arith)))
        | inr z ↦ rw e (
            Holds-to_copy t buffer (ground arith) z (ground arith) (ground arith) (ground arith)
              (ground arith) (ground arith) (ground arith) (ground arith) (h (ground arith)))
      ]
      | inr e ↦ rw e (
          Holds-stays {t = t} (ground arith) (ground arith) (ground arith) (ground arith)
            (ground arith) (ground arith) (ground arith) (ground arith) (h (ground arith)))
    ]

-- The cancellation of a bare end of the body takes nothing back.
unmoved :
    (s : Outgoing) (token : ℕ)
    → s.write_is_eof && length s.write_source == 0 ≡ true
    → (cancel_write s token).0.tx_queued ≡ s.tx_queued
unfolding cancel_write
unmoved s token e = ground arith

pub cancelled-Holds :
    (s : Outgoing) (body : Bytes) (token : ℕ)
    → IsOrdered s
    → (IsLive s → Holds body s)
    → IsLive (cancel_write s token).0
    → Holds
        (if cancels s token then take (cancel_write s token).0.tx_queued body else body)
        (cancel_write s token).0
unfolding cancel_write
cancelled-Holds s body token v h live =
    let t = (cancel_write s token).0 in
    let same : IsLive s
        → Holds body s
        → cancels s token && not (s.write_is_eof && length s.write_source == 0) ≡ false
        → Holds body t =
      λ l k e.
        Holds-stays {t = t} (ground arith) (ground arith) (ground arith) (ground arith)
          (ground arith) (ground arith) (ground arith) (ground arith) k in
    elim (Bool-cases (cancels s token && not (s.write_is_eof && length s.write_source == 0))) [
      | inl e ↦
          let real : cancels s token ≡ true = ground arith in
          rw real (
            Holds-taken_back {t = t} (ground arith) (ground arith) (ground arith) (ground arith)
              (ground arith) (ground arith) (h (ground arith)))
      | inr e ↦ elim (Bool-cases (cancels s token)) [
        | inl real ↦
            let holds : Holds body s = h (ground arith) in
            let spent : t.tx_queued ≡ length body = omega (
              arith,
              Holds-all (all_copied-uncarved s (ground arith)) holds,
              unmoved s token (ground arith),
            ) in
            rw (real, take-whole t.tx_queued body spent) (same (ground arith) holds e)
        | inr ignored ↦ rw ignored (same (ground arith) (h (ground arith)) e)
      ]
    ]

pub asked-Holds :
    (s : Outgoing) (body : Bytes) (from room : ℕ)
    → IsOrdered s
    → (IsLive s → Holds body s)
    → IsLive (pending_data s from room).stream
    → Holds body (pending_data s from room).stream
unfolding pending_data
asked-Holds s body from room v h live =
    elim (Bool-cases (room == 0 || s.closed || s.write_aborted)) [
      | inl e ↦ rw e (h (rw e at live))
      | inr e ↦ rw e (carve-Holds body s v (h (ground arith)))
    ]

pub offered-Holds :
    (s : Outgoing) (body : Bytes) (end : ℕ) (fin : Bool)
    → (IsLive s → Holds body s)
    → IsLive (on_offered s end fin).0
    → Holds body (on_offered s end fin).0
unfolding on_offered
offered-Holds s body end false h live =
    Holds-stays refl refl refl refl refl refl refl (omega arith) (h live)
offered-Holds s body end true h live =
    elim (Bool-cases (s.write_active && length s.write_source == 0)) [
      | inl e ↦
          let t = record s {
            tx_offered = max s.tx_offered (min end s.tx_queued);
            fin_offered = true;
          } in
          unfold finish_active_write in
          rw e (
            Holds-finish {s = t} (all_copied-uncarved t (ground arith)) (
              Holds-stays {t = t} refl refl refl refl refl refl refl (omega arith)
                (h (ground arith))))
      | inr e ↦
          rw e (Holds-stays refl refl refl refl refl refl refl (omega arith) (h (ground arith)))
    ]

pub sent-Holds :
    (s : Outgoing) (body : Bytes) (end : ℕ)
    → (IsLive s → Holds body s)
    → IsLive (on_sent s end).0
    → Holds body (on_sent s end).0
unfolding on_sent
sent-Holds s body end h live =
    let t = record s { tx_sent = min end s.tx_offered } in
    let same : IsLive s → Holds body t =
      λ l. Holds-stays {t = t} refl refl refl refl refl refl refl (omega arith) (h l) in
    elim (Bool-cases (leb end s.tx_sent)) [
      | inl e ↦ rw e (h (ground arith))
      | inr e ↦
          elim (Bool-cases
            (not (is_staged t.write_mode) || not t.write_active || ltb t.tx_sent t.tx_queued)) [
              | inl f ↦ rw (e, f) (same (ground arith))
              | inr f ↦ elim (Bool-cases (length s.write_source == 0)) [
                | inl g ↦ rw (e, f, g) (same (ground arith))
                | inr g ↦ elim (Bool-cases (s.write_copied == length s.write_source)) [
                  | inl k ↦
                      unfold finish_active_write in
                      rw (e, f, g, k)
                        (Holds-finish {s = t} (all_copied-uncarved t (ground arith))
                          (same (ground arith)))
                  | inr k ↦ rw (e, f, g, k) (same (ground arith))
                ]
              ]
            ]
    ]

pub acked-Holds :
    (s : Outgoing) (body : Bytes) (end : ℕ)
    → IsOrdered s
    → (IsLive s → Holds body s)
    → IsLive (on_acked s end).0
    → Holds body (on_acked s end).0
unfolding on_acked
acked-Holds s body end v h live =
    let acked = min end s.tx_offered in
    let t = record s { tx_acked = acked; chunks = drop_acked acked s.chunks } in
    elim (Bool-cases (leb acked s.tx_acked)) [
      | inl e ↦ rw e (h (ground arith))
      | inr e ↦
          elim (Bool-cases (
            is_zero_copy t.write_mode
            && t.write_active
            && ltb 0 (length t.write_source)
            && leb (add64 t.write_base (length t.write_source)) t.tx_acked)) [
              | inl f ↦
                  unfold finish_active_write in
                  rw (e, f)
                    (Holds-finish {s = t} (zero_copy-uncarved t (ground arith))
                      (Holds-acked acked (ground arith) (h (ground arith))))
              | inr f ↦ rw (e, f) (Holds-acked acked (ground arith) (h (ground arith)))
            ]
    ]
