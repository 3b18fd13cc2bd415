-- ===== src/FileCache/Keys.antt =====
-- Keys in the two lists of a `FileCache`, counted: src/file_handler.cpp.
use anyhttp.Prelude.{
  ℕ, suc, ◌+◌, ◌-◌, ◌<◌, ◌≡◌, inl, inr, refl, sym, ap, ◌∙◌, Bool, true, false, Option, some, List,
  [], ◌∷◌, ◌++◌, Bytes, bytes_eq, bytes_eq_sound, length, if◌then◌else◌, arith, Bool-cases,
}
use anyhttp.FileCache.Cache.{
  Slot, CachedFile, find_slot, erase_slot, erase_key, back, pop_back, size_of,
}

abbrev pub keys : List Slot → List Bytes
keys [] = []
keys (s ∷ ss) = s.key ∷ keys ss

abbrev pub total : List Slot → ℕ
total [] = 0
total (s ∷ ss) = s.entry.size + total ss

abbrev pub one_if : Bool → ℕ
one_if true = 1
one_if false = 0

-- How often a key occurs.
abbrev pub occurs : Bytes → List Bytes → ℕ
occurs key [] = 0
occurs key (k ∷ ks) = one_if (bytes_eq k key) + occurs key ks

pub length-keys : (ss : List Slot) → length (keys ss) ≡ length ss
length-keys [] = refl
length-keys (s ∷ ss) = omega (arith, length-keys ss)

pub keys-erase_slot :
    (key : Bytes) (ss : List Slot) → keys (erase_slot key ss) ≡ erase_key key (keys ss)
unfolding erase_slot erase_key
keys-erase_slot key [] = refl
keys-erase_slot key (s ∷ ss) = elim (Bool-cases (bytes_eq s.key key)) [
  | inl e ↦ rw e refl
  | inr e ↦ rw e (ap (◌∷◌ s.key) (keys-erase_slot key ss))
]

pub occurs-erase_key :
    (k key : Bytes) (ks : List Bytes)
    → occurs k (erase_key key ks) ≡ occurs k ks - one_if (bytes_eq key k)
unfolding erase_key
occurs-erase_key k key [] = ground arith
occurs-erase_key k key (l ∷ ks) = elim (Bool-cases (bytes_eq l key)) [
  | inl e ↦
      let same : bytes_eq l k ≡ bytes_eq key k =
        ap (λ (x : Bytes). bytes_eq x k) (bytes_eq_sound l key e) in
      rw e (omega (arith, ap one_if same))
  | inr e ↦ rw e (elim (Bool-cases (bytes_eq key k)) [
    | inl f ↦
        let other : bytes_eq l k ≡ false = ap (bytes_eq l) (sym (bytes_eq_sound key k f)) ∙ e in
        omega (arith, occurs-erase_key k key ks, ap one_if other)
    | inr f ↦ omega (arith, occurs-erase_key k key ks, ap one_if f)
  ])
]

pub length-erase_key :
    (key : Bytes) (ks : List Bytes)
    → 0 < occurs key ks
    → suc (length (erase_key key ks)) ≡ length ks
unfolding erase_key
length-erase_key key [] h = absurd (omega arith)
length-erase_key key (l ∷ ks) h = elim (Bool-cases (bytes_eq l key)) [
  | inl e ↦ rw e refl
  | inr e ↦ rw e (omega (arith, length-erase_key key ks (omega (arith, ap one_if e))))
]

-- What is found is what goes from the total.
pub total-erase_slot :
    (key : Bytes) (ss : List Slot)
    → total (erase_slot key ss) + size_of (find_slot key ss) ≡ total ss
unfolding erase_slot find_slot
total-erase_slot key [] = refl
total-erase_slot key (s ∷ ss) = elim (Bool-cases (bytes_eq s.key key)) [
  | inl e ↦ rw e (omega arith)
  | inr e ↦ rw e (omega (arith, total-erase_slot key ss))
]

pub find_slot-erase_slot :
    (k key : Bytes) (ss : List Slot)
    → bytes_eq key k ≡ false
    → find_slot k (erase_slot key ss) ≡ find_slot k ss
unfolding erase_slot find_slot
find_slot-erase_slot k key [] h = refl
find_slot-erase_slot k key (s ∷ ss) h = elim (Bool-cases (bytes_eq s.key key)) [
  | inl e ↦
      let other : bytes_eq s.key k ≡ false =
        ap (λ (x : Bytes). bytes_eq x k) (bytes_eq_sound s.key key e) ∙ h in
      rw (e, other) refl
  | inr e ↦ rw e (
      ap (λ (o : Option CachedFile). if bytes_eq s.key k then some s.entry else o)
        (find_slot-erase_slot k key ss h))
]

-- The last key, and those in front of it.
pub pop_back-append :
    (k : Bytes) (ks : List Bytes) → pop_back (k ∷ ks) ++ back (k ∷ ks) ∷ [] ≡ k ∷ ks
unfolding pop_back back
pop_back-append k [] = refl
pop_back-append k (l ∷ ks) = ap (◌∷◌ k) (pop_back-append l ks)

pub occurs-append :
    (key : Bytes) (ks ls : List Bytes) → occurs key (ks ++ ls) ≡ occurs key ks + occurs key ls
occurs-append key [] ls = omega arith
occurs-append key (k ∷ ks) ls = omega (arith, occurs-append key ks ls)

pub occurs-pop_back :
    (key : Bytes) (ks : List Bytes)
    → 0 < length ks
    → occurs key (pop_back ks) + one_if (bytes_eq (back ks) key) ≡ occurs key ks
occurs-pop_back key [] h = absurd (omega arith)
occurs-pop_back key (k ∷ ks) h = omega (
  arith,
  occurs-append key (pop_back (k ∷ ks)) (back (k ∷ ks) ∷ []),
  ap (occurs key) (pop_back-append k ks),
)

pub length-pop_back : (ks : List Bytes) → length (pop_back ks) ≡ length ks - 1
unfolding pop_back
length-pop_back [] = refl
length-pop_back (k ∷ []) = refl
length-pop_back (k ∷ l ∷ ks) = omega (arith, length-pop_back (l ∷ ks))
