-- ===== src/Queue.antt =====
-- A queue of chunks whose front is being used up, as `pending_read_` and `read_head_` of
-- src/quic/stream.cpp and `pending_read_buffers_` and `read_buffer_` of src/h2/stream.cpp are.
use anyhttp.Prelude.{
  ℕ, zero, suc, ◌<◌, ◌≡◌, refl, sym, ap, ◌∙◌, true, false, List, [], ◌∷◌, ◌++◌, Bytes, length, drop,
  is_empty, All, if◌then◌else◌, arith, append_assoc, append-nil,
}

abbrev pub front : List Bytes → Bytes
front [] = []
front (c ∷ cs) = c

abbrev pub behind : List Bytes → List Bytes
behind [] = []
behind (c ∷ cs) = cs

abbrev pub concat : List Bytes → Bytes
concat [] = []
concat (c ∷ cs) = c ++ concat cs

abbrev pub NonEmpty : Bytes → Type 0
NonEmpty c = is_empty c ≡ false

-- `read_head` is what is left of the front of the queue, and the queue holds no empty chunk.
abbrev pub IsQueue : Bytes → List Bytes → Type 0
IsQueue head [] = head ≡ []
IsQueue head (c ∷ cs) = NonEmpty head × All NonEmpty cs

-- What is left of a queue.
abbrev pub left : Bytes → List Bytes → Bytes
left head queue = head ++ concat (behind queue)

pub length-ne : (s : Bytes) → NonEmpty s → 0 < length s
length-ne [] h = cc
length-ne (c ∷ s) h = omega arith

pub IsQueue-front : (cs : List Bytes) → All NonEmpty cs → IsQueue (front cs) cs
IsQueue-front [] h = refl
IsQueue-front (c ∷ cs) h = (h.0, h.1)

pub left-front : (cs : List Bytes) → left (front cs) cs ≡ concat cs
left-front [] = refl
left-front (c ∷ cs) = refl

pub length-nil : (s : Bytes) → is_empty s ≡ true → s ≡ []
length-nil [] h = refl
length-nil (c ∷ s) h = cc

pub length-zero : (s : Bytes) → length s ≡ 0 → s ≡ []
length-zero [] h = refl
length-zero (c ∷ s) h = absurd (omega arith)

pub drop-ne : (n : ℕ) (s : Bytes) → n < length s → NonEmpty (drop n s)
drop-ne zero [] h = absurd (omega arith)
drop-ne zero (c ∷ s) h = refl
drop-ne (suc n) [] h = absurd (omega arith)
drop-ne (suc n) (c ∷ s) h = drop-ne n s (omega arith)

pub left-drained :
    (head : Bytes) (queue : List Bytes) → IsQueue head queue → head ≡ [] → left head queue ≡ []
left-drained head [] q h = rw h refl
left-drained head (c ∷ cs) q h = absurd (ground arith)

pub drop-nil : (n : ℕ) → drop {A = ℕ} n [] ≡ []
drop-nil zero = refl
drop-nil (suc n) = refl

pub concat-append : (q : List Bytes) (c : Bytes) → concat (q ++ c ∷ []) ≡ concat q ++ c
concat-append [] c = append-nil c
concat-append (d ∷ q) c = ap (◌++◌ d) (concat-append q c) ∙ sym (append_assoc d (concat q) c)

abbrev pub new_head : Bytes → List Bytes → Bytes → Bytes
new_head head q c = if is_empty head then front (q ++ c ∷ []) else head

pub parked :
    (head : Bytes) (q : List Bytes) (c : Bytes)
    → IsQueue head q
    → left (new_head head q c) (q ++ c ∷ []) ≡ left head q ++ c
parked [] [] c h = append-nil c
parked (x ∷ head) [] c h = cc
parked [] (d ∷ q) c h = cc h.0
parked (x ∷ head) (d ∷ q) c h =
    ap (◌++◌ (x ∷ head)) (concat-append q c) ∙ sym (append_assoc (x ∷ head) (concat q) c)

pub All-snoc :
    (q : List Bytes) (c : Bytes) → All NonEmpty q → NonEmpty c → All NonEmpty (q ++ c ∷ [])
All-snoc [] c h k = (k, tt)
All-snoc (d ∷ q) c h k = (h.0, All-snoc q c h.1 k)

pub parked-IsQueue :
    (head : Bytes) (q : List Bytes) (c : Bytes)
    → IsQueue head q
    → NonEmpty c
    → IsQueue (new_head head q c) (q ++ c ∷ [])
parked-IsQueue [] [] c h k = (k, tt)
parked-IsQueue (x ∷ head) [] c h k = cc
parked-IsQueue [] (d ∷ q) c h k = cc h.0
parked-IsQueue (x ∷ head) (d ∷ q) c h k = (refl, All-snoc q c h.1 k)
