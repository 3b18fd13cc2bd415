-- ===== src/H2/Stream/Integrity.antt =====
-- The buffers of src/h2/stream.cpp over one call of `call_read_handler`.
use anyhttp.Prelude.{
  ℕ, ◌≡◌, refl, sym, ap, ◌∙◌, inl, inr, ◌⊎◌, false, Option, none, some, List, [], ◌∷◌, ◌++◌, Bytes,
  take, drop, take-append-drop, is_empty, All, arith, Bool-cases, append_assoc, append-nil,
}
use anyhttp.Completion.{Read, Reaction, again, leave, drop_reader}
use anyhttp.Queue.{behind, concat, NonEmpty, IsQueue, left}
use anyhttp.H2.State.{Incoming, NgHttp2Stream}
use anyhttp.H2.Stream.Reading.{react, advance, copy_out, Loop, stop, deliver, iterate, read_loop}

-- What has arrived and was not delivered: the stored part, and the view behind it.
abbrev pub unread : Incoming → Bytes → Bytes
unread i view = left i.read_buffer i.pending_read_buffers ++ view

abbrev pub IsStored : Incoming → Type 0
IsStored i = IsQueue i.read_buffer i.pending_read_buffers

-- In the loop, `read_buffer_` may view what is not stored, and then there is nothing else.
abbrev pub IsViewed : Bytes → List Bytes → Bytes → Type 0
IsViewed head [] view = view ≡ []
IsViewed head (c ∷ cs) view = NonEmpty head × All NonEmpty cs

abbrev pub IsLooping : Incoming → Bytes → Type 0
IsLooping i view = IsViewed i.read_buffer i.pending_read_buffers view

-- The end of the body is left alone, and a deferred close is at most settled.
pub record SameEnd (i j : Incoming) : Type 0 where
  pub same_eof : j.eof_received ≡ i.eof_received
  pub deferred : (j.close_deferred ≡ false) ⊎ (j.close_deferred ≡ i.close_deferred)

pub SameEnd-refl : (i : Incoming) → SameEnd i i
SameEnd-refl i = record { same_eof = refl; deferred = inr refl }

pub SameEnd-trans : (i j k : Incoming) → SameEnd i j → SameEnd j k → SameEnd i k
SameEnd-trans i j k a b = record {
  same_eof = b.same_eof ∙ a.same_eof;
  deferred = either a.deferred b.deferred;
}
  where
    either :
        (j.close_deferred ≡ false) ⊎ (j.close_deferred ≡ i.close_deferred)
        → (k.close_deferred ≡ false) ⊎ (k.close_deferred ≡ j.close_deferred)
        → (k.close_deferred ≡ false) ⊎ (k.close_deferred ≡ i.close_deferred)
    either c (inl d) = inl d
    either (inl c) (inr d) = inl (d ∙ c)
    either (inr c) (inr d) = inr (d ∙ c)

-- The stored body and its end are left alone.
pub record Keeps (i j : Incoming) : Type 0 where
  pub same_buffer : j.read_buffer ≡ i.read_buffer
  pub same_pending : j.pending_read_buffers ≡ i.pending_read_buffers
  pub same_end : SameEnd i j

pub Keeps-refl : (i : Incoming) → Keeps i i
Keeps-refl i = record {
  same_buffer = refl;
  same_pending = refl;
  same_end = record { same_eof = refl; deferred = inr refl };
}

pub Keeps-trans : (i j k : Incoming) → Keeps i j → Keeps j k → Keeps i k
Keeps-trans i j k a b = record {
  same_buffer = b.same_buffer ∙ a.same_buffer;
  same_pending = b.same_pending ∙ a.same_pending;
  same_end = SameEnd-trans i j k a.same_end b.same_end;
}

pub react-Keeps : (s : NgHttp2Stream) (x : Reaction) → Keeps s.input (react s x).0.input
react-Keeps s leave = unfold react in Keeps-refl s.input
react-Keeps s drop_reader =
    unfold react in
    record {
      same_buffer = ground arith;
      same_pending = ground arith;
      same_end = record { same_eof = ground arith; deferred = ground arith };
    }
react-Keeps s (again r) =
    unfold react in
    record {
      same_buffer = ground arith;
      same_pending = ground arith;
      same_end = record { same_eof = ground arith; deferred = ground arith };
    }

-- After bytes have been taken from it, the front may be empty.
IsTaken : Bytes → List Bytes → Bytes → Type 0
IsTaken head [] view = view ≡ []
IsTaken head (c ∷ cs) view = All NonEmpty cs

record Advances (i j : Incoming) (view view' : Bytes) : Type 0 where
  same : unread j view' ≡ unread i view
  is_looping : IsLooping j view'
  same_end : SameEnd i j

advance-Advances :
    (i : Incoming) (view : Bytes)
    → IsTaken i.read_buffer i.pending_read_buffers view
    → Advances i (advance i view).0 view (advance i view).1
unfolding IsTaken
advance-Advances i view t = by_cases i.read_buffer i.pending_read_buffers t
  where
    by_cases :
        (head : Bytes) (q : List Bytes)
        → IsTaken head q view
        → Advances
            (record i { read_buffer = head; pending_read_buffers = q })
            (advance (record i { read_buffer = head; pending_read_buffers = q }) view).0
            view
            (advance (record i { read_buffer = head; pending_read_buffers = q }) view).1
    by_cases [] [] t =
        unfold advance in
        record {
          same = append-nil (view ++ []) ∙ append-nil view;
          is_looping = refl;
          same_end = record { same_eof = refl; deferred = inr refl };
        }
    by_cases [] (c ∷ []) t =
        unfold advance in
        record {
          same = append-nil (view ++ []) ∙ append-nil view;
          is_looping = refl;
          same_end = record { same_eof = refl; deferred = inr refl };
        }
    by_cases [] (c ∷ d ∷ cs) t =
        unfold advance in
        record {
          same = refl;
          is_looping = (t.0, t.1);
          same_end = record { same_eof = refl; deferred = inr refl };
        }
    by_cases (x ∷ head) [] t =
        unfold advance in
        record {
          same = refl;
          is_looping = t;
          same_end = record { same_eof = refl; deferred = inr refl };
        }
    by_cases (x ∷ head) (c ∷ cs) t =
        unfold advance in
        record {
          same = refl;
          is_looping = (refl, t);
          same_end = record { same_eof = refl; deferred = inr refl };
        }

copied-unread :
    (i : Incoming) (view : Bytes) (size : ℕ)
    → take size i.read_buffer ++ unread (record i { read_buffer = drop size i.read_buffer }) view
      ≡ unread i view
copied-unread i view size =
    sym (
      append_assoc (take size i.read_buffer)
        (drop size i.read_buffer ++ concat (behind i.pending_read_buffers)) view)
    ∙ ap (λ t. t ++ view)
        (sym (
            append_assoc (take size i.read_buffer) (drop size i.read_buffer)
              (concat (behind i.pending_read_buffers)))
          ∙ ap (λ t. t ++ concat (behind i.pending_read_buffers))
              (take-append-drop size i.read_buffer))

taken :
    (head : Bytes) (q : List Bytes) (view : Bytes) (head' : Bytes)
    → IsViewed head q view
    → IsTaken head' q view
unfolding IsTaken
taken head [] view head' h = h
taken head (c ∷ cs) view head' h = h.1

-- What the loop has delivered and what is left are what was there.
pub record Delivers (s : NgHttp2Stream) (view : Bytes) (l : Loop) : Type 0 where
  pub in_order : l.delivered ++ unread l.stream.input l.view ≡ unread s.input view
  pub is_looping : IsLooping l.stream.input l.view
  pub same_end : SameEnd s.input l.stream.input

stop-Delivers :
    (xs : List Reaction) (s : NgHttp2Stream) (view : Bytes)
    → IsLooping s.input view
    → Delivers s view (stop xs s view)
stop-Delivers xs s view h = record {
  in_order = refl;
  is_looping = h;
  same_end = record { same_eof = refl; deferred = inr refl };
}

module _ (go_on : NgHttp2Stream → Bytes → Loop) (x : Reaction)
    (rest : (t : NgHttp2Stream) (v : Bytes) → IsLooping t.input v → Delivers t v (go_on t v)) where
  deliver-Delivers :
      (s : NgHttp2Stream) (view : Bytes) (r : Read)
      → IsLooping s.input view
      → Delivers s view (deliver go_on x s view r)
  unfolding deliver copy_out
  deliver-Delivers s view r h =
      let bytes = take r.size s.input.read_buffer in
      let t = react (record s { input = (copy_out s.input r.size).0 }) x in
      let k = react-Keeps (record s { input = (copy_out s.input r.size).0 }) x in
      let a = advance-Advances t.0.input view (
        rw (k.same_buffer, k.same_pending)
          (taken s.input.read_buffer s.input.pending_read_buffers view
            (drop r.size s.input.read_buffer) h)) in
      let j = advance t.0.input view in
      let more = rest (record t.0 { input = j.0 }) j.1 a.is_looping in
      record {
        in_order =
            append_assoc bytes (go_on (record t.0 { input = j.0 }) j.1).delivered _
            ∙ ap (◌++◌ bytes) (more.in_order ∙ a.same ∙ kept t.0.input k)
            ∙ copied-unread s.input view r.size;
        is_looping = more.is_looping;
        same_end =
            SameEnd-trans s.input j.0 _
              (SameEnd-trans s.input t.0.input j.0
                (record { same_eof = k.same_end.same_eof; deferred = k.same_end.deferred })
                a.same_end)
              more.same_end;
      }
    where
      kept :
          (j : Incoming)
          → Keeps (copy_out s.input r.size).0 j
          → unread j view
            ≡ unread (record s.input { read_buffer = drop r.size s.input.read_buffer }) view
      kept j k = rw (k.same_buffer, k.same_pending) refl

  iterate-Delivers :
      (back : List Reaction) (s : NgHttp2Stream) (view : Bytes) (o : Option Read)
      → IsLooping s.input view
      → Delivers s view (iterate go_on x back s view o)
  unfolding iterate
  iterate-Delivers back s view none h = stop-Delivers back s view h
  iterate-Delivers back s view (some r) h = elim (Bool-cases (is_empty s.input.read_buffer)) [
    | inl e ↦ rw (e, iterate) (stop-Delivers back s view h)
    | inr e ↦ rw (e, iterate) (deliver-Delivers s view r h)
  ]

pub read_loop-Delivers :
    (xs : List Reaction) (s : NgHttp2Stream) (view : Bytes)
    → IsLooping s.input view
    → Delivers s view (read_loop xs s view)
unfolding read_loop
read_loop-Delivers [] s view h =
    iterate-Delivers (stop []) leave (stop-Delivers []) [] s view s.input.read_handler h
read_loop-Delivers (x ∷ xs) s view h =
    iterate-Delivers (read_loop xs) x (read_loop-Delivers xs) (x ∷ xs) s view s.input.read_handler h
