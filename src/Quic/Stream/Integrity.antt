-- ===== src/Quic/Stream/Integrity.antt =====
-- Nothing of an incoming body is lost, repeated or reordered, however it arrives in chunks and
-- whatever buffers it is read into: src/quic/stream.cpp, `on_data_chunk` and `call_read_handler`.
use anyhttp.Prelude.{
  ℕ, ◌-◌, ◌≤◌, ◌<◌, ◌≡◌, refl, sym, ap, ◌∙◌, inl, inr, none, List, [], ◌∷◌, ◌++◌, Bytes, length,
  length-append, length-take, take, drop, take-append-drop, ltb, ◌==◌, arith, Bool-cases,
  append_assoc, append-nil,
}
use native.Mathlib.Decide.{dec_le}
pub use anyhttp.Queue.{concat, behind, NonEmpty, IsQueue, left}
use anyhttp.Queue.{IsQueue-front, left-front, drop-ne, left-drained, drop-nil, front}
use anyhttp.Quic.Stream.State.{Incoming}
use anyhttp.Quic.Stream.Input.{Filled, fill, take_in}

record Fills (size : ℕ) (head : Bytes) (queue : List Bytes) (f : Filled) : Type 0 where
  same : f.copied ++ left f.head f.queue ≡ left head queue
  is_queue : IsQueue f.head f.queue
  fits : length f.copied ≤ size
  drained : length f.copied < size → f.head ≡ []

-- The buffer ends inside the chunk at the front.
Fills-part :
    (size : ℕ) (head c : Bytes) (cs : List Bytes)
    → IsQueue head (c ∷ cs)
    → size < length head
    → Fills size head
        (c ∷ cs)
        (record { copied = take size head; head = drop size head; queue = c ∷ cs })
Fills-part size head c cs q h = record {
  same =
      sym (append_assoc (take size head) (drop size head) (concat cs))
      ∙ ap (λ t. t ++ concat cs) (take-append-drop size head);
  is_queue = (drop-ne size head h, q.1);
  fits = omega (arith, length-take size head);
  drained = λ l. absurd (omega (arith, length-take size head));
}

-- The chunk at the front is used up, and the rest of the buffer is filled from the others.
Fills-more :
    (size : ℕ) (head c : Bytes) (cs : List Bytes) (rest : Filled)
    → length head ≤ size
    → Fills (size - length head) (front cs) cs rest
    → Fills size head (c ∷ cs) (record rest { copied = head ++ rest.copied })
Fills-more size head c cs rest h r = record {
  same =
      append_assoc head rest.copied (left rest.head rest.queue)
      ∙ ap (◌++◌ head) (r.same ∙ left-front cs);
  is_queue = r.is_queue;
  fits = omega (arith, length-append head rest.copied, r.fits);
  drained = λ l. r.drained (omega (arith, length-append head rest.copied));
}

fill-Fills :
    (size : ℕ) (head : Bytes) (queue : List Bytes)
    → IsQueue head queue
    → Fills size head queue (fill size head queue)
fill-Fills size head [] q =
    unfold fill in record { same = refl; is_queue = q; fits = omega arith; drained = λ _. q }
fill-Fills size head (c ∷ cs) q =
    step (fill-Fills (size - length head) (front cs) cs (IsQueue-front cs q.1))
  where
    step :
        Fills (size - length head) (front cs) cs (fill (size - length head) (front cs) cs)
        → Fills size head (c ∷ cs) (fill size head (c ∷ cs))
    step rest = elim (Bool-cases (size == 0)) [
      | inl z ↦
          unfold fill in
          rw (z, fill)
            (record {
              same = refl;
              is_queue = q;
              fits = omega arith;
              drained = λ h. absurd (ground arith);
            })
      | inr z ↦ elim (Bool-cases (ltb size (length head))) [
        | inl s ↦ unfold fill in rw (z, q.0, s, fill) (Fills-part size head c cs q (ground arith))
        | inr s ↦
            unfold fill in rw (z, q.0, s, fill) (Fills-more size head c cs _ (ground arith) rest)
      ]
    ]

-- All that has arrived and was not delivered, in order.
abbrev pub buffered : Incoming → Bytes
buffered i = left i.read_head i.pending_read ++ i.incoming

abbrev pub IsQueued : Incoming → Type 0
IsQueued i = IsQueue i.read_head i.pending_read

-- The bytes of a round are the front of what was there, and the rest is still there.
pub record Serves (i j : Incoming) (bytes : Bytes) : Type 0 where
  pub in_order : bytes ++ buffered j ≡ buffered i
  pub is_queued : IsQueued j
  pub settled : i.incoming ≡ [] → j.incoming ≡ []

take-all :
    (copied rest inc : Bytes) (n : ℕ)
    → rest ≡ []
    → (copied ++ take n inc) ++ (rest ++ drop n inc) ≡ (copied ++ rest) ++ inc
take-all copied rest inc n h =
    rw (h, append-nil)
      (append_assoc copied (take n inc) (drop n inc) ∙ ap (◌++◌ copied) (take-append-drop n inc))

take-none :
    (copied rest inc : Bytes) (n : ℕ)
    → n ≡ 0
    → (copied ++ take n inc) ++ (rest ++ drop n inc) ≡ (copied ++ rest) ++ inc
take-none copied rest inc n h = rw (h, append-nil) (sym (append_assoc copied rest inc))

pub take_in-Serves :
    (i : Incoming) (size : ℕ) → IsQueued i → Serves i (take_in i size).0 (take_in i size).1
unfolding take_in
take_in-Serves i size q =
    served (fill size i.read_head i.pending_read) (fill-Fills size i.read_head i.pending_read q)
  where
    served :
        (f : Filled)
        → Fills size i.read_head i.pending_read f
        → Serves i
            (record i {
              pending_read = f.queue;
              read_head = f.head;
              incoming = drop (size - length f.copied) i.incoming;
              read_handler = none;
            })
            (f.copied ++ take (size - length f.copied) i.incoming)
    served f h = record {
      in_order =
          elim (dec_le size (length f.copied)) [
            | yes full ↦
                take-none f.copied (left f.head f.queue) i.incoming (size - length f.copied)
                  (omega arith)
            | no room ↦
                take-all f.copied (left f.head f.queue) i.incoming (size - length f.copied)
                  (left-drained f.head f.queue h.is_queue (h.drained (omega arith)))
          ]
          ∙ ap (λ t. t ++ i.incoming) h.same;
      is_queued = h.is_queue;
      settled = λ e. rw e (drop-nil (size - length f.copied));
    }
