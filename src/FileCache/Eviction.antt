-- ===== src/FileCache/Eviction.antt =====
-- What `insert` of src/file_handler.cpp leaves in a `FileCache`.
use anyhttp.Prelude.{
  ℕ, zero, suc, ◌+◌, ◌-◌, ◌≤◌, ◌<◌, ◌≡◌, ◌⊎◌, inl, inr, refl, sym, ap, ◌∙◌, Bool, false, some, List,
  [], ◌∷◌, ◌++◌, Bytes, bytes_eq, bytes_eq_refl, length, arith, Bool-cases, Option-cases, u64_mod,
  append_assoc, append-nil,
}
use anyhttp.FileCache.Cache.{
  FileCache, CachedFile, find_slot, erase_key, back, pop_back, drop_entry, add_entry, evict_one,
  over_budget, evict, insert, lookup, max_entries, max_bytes,
}
use anyhttp.FileCache.Keys.{
  total, one_if, occurs, find_slot-erase_slot, pop_back-append, occurs-pop_back, length-pop_back,
}
use anyhttp.FileCache.Coherence.{
  IsCoherent, missing-occurs, drop_entry-IsCoherent, add_entry-IsCoherent, evict_one-IsCoherent,
}

-- What a run of the loop leaves of a cache whose front key is `key`.
pub record Keeps (c : FileCache) (key : Bytes) (d : FileCache) : Type 0 where
  pub coherent : IsCoherent d
  pub front : (ks : List Bytes) × (d.lru ≡ key ∷ ks)
  pub found : find_slot key d.entries ≡ find_slot key c.entries
  pub oldest : (victims : List Bytes) × (c.lru ≡ d.lru ++ victims)

front_stays :
    (key : Bytes) (ks : List Bytes) → 0 < length ks → pop_back (key ∷ ks) ≡ key ∷ pop_back ks
unfolding pop_back
front_stays key [] h = absurd (omega arith)
front_stays key (l ∷ ks) h = refl

-- The key in front is not the one that goes.
back-ne :
    (c : FileCache) (key : Bytes) (ks : List Bytes)
    → IsCoherent c
    → 1 < length c.entries
    → c.lru ≡ key ∷ ks
    → bytes_eq (back c.lru) key ≡ false
back-ne c key ks v h e =
    let rest : 0 < length ks = omega (arith, v.count, ap (λ (x : List Bytes). length x) e) in
    let kept : occurs key (pop_back c.lru) ≡ 1 + occurs key (pop_back ks) =
      ap (λ (x : List Bytes). occurs key (pop_back x)) e
      ∙ ap (occurs key) (front_stays key ks rest)
      ∙ ap (λ (b : Bool). one_if b + occurs key (pop_back ks)) (bytes_eq_refl key) in
    elim (Bool-cases (bytes_eq (back c.lru) key)) [
      | inl same ↦ absurd (
          omega (
            arith,
            kept,
            occurs-pop_back key c.lru (omega (arith, v.count)),
            ap one_if same,
            v.once key,
          ))
      | inr other ↦ other
    ]

evict_one-Keeps :
    (c : FileCache) (key : Bytes) (ks : List Bytes)
    → IsCoherent c
    → 1 < length c.entries
    → c.lru ≡ key ∷ ks
    → Keeps c key (evict_one c)
unfolding evict_one
evict_one-Keeps c key ks v h e = record {
  coherent = evict_one-IsCoherent c (omega arith) v;
  front = (
    pop_back ks,
    ap pop_back e
        ∙ front_stays key ks (omega (arith, v.count, ap (λ (x : List Bytes). length x) e)),
  );
  found = find_slot-erase_slot key (back c.lru) c.entries (back-ne c key ks v h e);
  oldest = (
    back c.lru ∷ [],
    sym (ap (λ (x : List Bytes). pop_back x ++ back x ∷ []) e ∙ pop_back-append key ks ∙ sym e),
  );
}

popped : (c : FileCache) → length (evict_one c).lru ≡ length c.lru - 1
unfolding evict_one
popped c = length-pop_back c.lru

evict-Keeps :
    (n : ℕ) (c : FileCache) (key : Bytes) (ks : List Bytes)
    → length c.entries ≤ suc n
    → IsCoherent c
    → c.lru ≡ key ∷ ks
    → Keeps c key (evict n c) × (over_budget (evict n c) ≡ false)
unfolding evict
evict-Keeps zero c key ks l v e = (
  record { coherent = v; front = (ks, e); found = refl; oldest = ([], sym (append-nil c.lru)) },
  (unfold over_budget in ground arith),
)
evict-Keeps (suc n) c key ks l v e = elim (Bool-cases (over_budget c)) [
  | inl over ↦
      let more : 1 < length c.entries = unfold over_budget in ground arith in
      let one = evict_one-Keeps c key ks v more e in
      let fewer : length (evict_one c).entries ≤ suc n =
        omega (arith, one.coherent.count, popped c, v.count) in
      let (rest, within) =
        evict-Keeps n (evict_one c) key one.front.0 fewer one.coherent one.front.1 in
      rw over (
        record {
          coherent = rest.coherent;
          front = rest.front;
          found = rest.found ∙ one.found;
          oldest = (
            rest.oldest.0 ++ one.oldest.0,
            one.oldest.1
                ∙ ap (λ (x : List Bytes). x ++ one.oldest.0) rest.oldest.1
                ∙ append_assoc (evict n (evict_one c)).lru rest.oldest.0 one.oldest.0,
          );
        },
        within,
      )
  | inr within ↦ rw within (
    record { coherent = v; front = (ks, e); found = refl; oldest = ([], sym (append-nil c.lru)) },
    within,
  )
]

insert-Keeps :
    (c : FileCache) (key : Bytes) (f : CachedFile)
    → IsCoherent c
    → total c.entries + f.size < u64_mod
    → Keeps (add_entry (drop_entry c key) key f) key (insert c key f)
      × (over_budget (insert c key f) ≡ false)
unfolding insert
insert-Keeps c key f v room =
    let (w, gone, less) = drop_entry-IsCoherent c key v in
    let d = add_entry (drop_entry c key) key f in
    evict-Keeps (length d.entries) d key (drop_entry c key).lru (omega arith)
      (add_entry-IsCoherent (drop_entry c key) key f w gone (omega arith)) refl

found_again :
    (c : FileCache) (key : Bytes) (f : CachedFile)
    → find_slot key c.entries ≡ some f
    → (lookup c key).1 ≡ some f
unfolding lookup
found_again c key f e = rw e refl

erase_key-absent : (key : Bytes) (ks : List Bytes) → occurs key ks ≡ 0 → erase_key key ks ≡ ks
unfolding erase_key
erase_key-absent key [] h = refl
erase_key-absent key (k ∷ ks) h = elim (Bool-cases (bytes_eq k key)) [
  | inl e ↦ absurd (omega (arith, h, ap one_if e))
  | inr e ↦ rw e (ap (◌∷◌ k) (erase_key-absent key ks (omega (arith, h))))
]

drop_entry-lru :
    (c : FileCache) (key : Bytes) → IsCoherent c → (drop_entry c key).lru ≡ erase_key key c.lru
unfolding drop_entry
drop_entry-lru c key v = elim (Option-cases (find_slot key c.entries)) [
  | inl n ↦ rw n (
      sym (
        erase_key-absent key c.lru
          (omega (arith, v.same_keys key, missing-occurs key c.entries n))))
  | inr (f, e) ↦ rw e refl
]

-- Inserting a file leaves a coherent cache coherent, provided all its bytes and the file's are
-- below 2^64: every key is once in both lists or in neither, and `bytes_` is the sum of the sizes.
-- The loop ends within the budget of 256 entries and 64 MiB or with one entry, and the file that
-- was inserted is still there, however large.
pub insert-IsCoherent :
    (c : FileCache) (key : Bytes) (f : CachedFile)
    → IsCoherent c
    → total c.entries + f.size < u64_mod
    → IsCoherent (insert c key f)
      × ((length (insert c key f).entries ≤ 1)
          ⊎ (length (insert c key f).entries ≤ max_entries) × ((insert c key f).bytes ≤ max_bytes))
      × ((lookup (insert c key f) key).1 ≡ some f)
insert-IsCoherent c key f v room =
    let (k, within) = insert-Keeps c key f v room in
    let added : find_slot key (add_entry (drop_entry c key) key f).entries ≡ some f =
      unfold find_slot in rw (bytes_eq_refl key) refl in
    (
      k.coherent,
      (unfold over_budget in ground arith),
      found_again (insert c key f) key f (k.found ∙ added),
    )

-- The keys that stay are, in their order, the front of
-- the key just inserted followed by the others as they were.
pub insert-oldest :
    (c : FileCache) (key : Bytes) (f : CachedFile)
    → IsCoherent c
    → total c.entries + f.size < u64_mod
    → (victims : List Bytes) × (key ∷ erase_key key c.lru ≡ (insert c key f).lru ++ victims)
insert-oldest c key f v room =
    let (k, within) = insert-Keeps c key f v room in
    (k.oldest.0, ap (◌∷◌ key) (sym (drop_entry-lru c key v)) ∙ k.oldest.1)
