-- ===== src/FileCache/Coherence.antt =====
-- The two lists and the byte count of a `FileCache` agree, src/file_handler.cpp.
use anyhttp.Prelude.{
  suc, ◌+◌, ◌-◌, ◌≤◌, ◌<◌, ◌≡◌, inl, inr, refl, sym, ap, ◌∙◌, none, some, List, [], ◌∷◌, Bytes,
  bytes_eq, bytes_eq_refl, bytes_eq_sound, length, arith, Bool-cases, Option-cases, u64_mod, sub64,
}
use anyhttp.FileCache.Cache.{
  FileCache, Slot, CachedFile, find_slot, erase_slot, erase_key, back, pop_back, size_of,
  drop_entry, add_entry, evict_one, lookup,
}
use anyhttp.FileCache.Keys.{
  keys, total, one_if, occurs, length-keys, keys-erase_slot, occurs-erase_key, length-erase_key,
  total-erase_slot, occurs-pop_back, length-pop_back,
}

-- A key is in both lists or in neither, and once; the bytes are those of the entries.
pub record IsCoherent (c : FileCache) : Type 0 where
  pub same_keys : (k : Bytes) → occurs k (keys c.entries) ≡ occurs k c.lru
  pub once : (k : Bytes) → occurs k c.lru ≤ 1
  pub count : length c.entries ≡ length c.lru
  pub sum : c.bytes ≡ total c.entries
  pub fits : total c.entries < u64_mod

pub found-occurs :
    (key : Bytes) (ss : List Slot) (f : CachedFile)
    → find_slot key ss ≡ some f
    → 0 < occurs key (keys ss)
unfolding find_slot
found-occurs key [] f h = absurd cc
found-occurs key (s ∷ ss) f h = elim (Bool-cases (bytes_eq s.key key)) [
  | inl e ↦ omega (arith, ap one_if e)
  | inr e ↦ omega (arith, found-occurs key ss f (rw e at h))
]

pub missing-occurs :
    (key : Bytes) (ss : List Slot) → find_slot key ss ≡ none → occurs key (keys ss) ≡ 0
unfolding find_slot
missing-occurs key [] h = refl
missing-occurs key (s ∷ ss) h = elim (Bool-cases (bytes_eq s.key key)) [
  | inl e ↦ absurd (ground arith)
  | inr e ↦ omega (arith, ap one_if e, missing-occurs key ss (rw e at h))
]

-- An entry goes from both lists, with its bytes.
erased-IsCoherent :
    (c : FileCache) (key : Bytes) (ks : List Bytes)
    → IsCoherent c
    → 0 < occurs key (keys c.entries)
    → ((k : Bytes) → occurs k ks ≡ occurs k c.lru - one_if (bytes_eq key k))
    → suc (length ks) ≡ length c.lru
    → IsCoherent (record {
      bytes = sub64 c.bytes (size_of (find_slot key c.entries));
      entries = erase_slot key c.entries;
      lru = ks;
    })
erased-IsCoherent c key ks v there gone fewer = record {
  same_keys = λ k.
      ap (occurs k) (keys-erase_slot key c.entries)
      ∙ omega (arith, occurs-erase_key k key (keys c.entries), v.same_keys k, gone k);
  once = λ k. omega (arith, gone k, v.once k);
  count = omega (
    arith,
    length-keys c.entries,
    length-keys (erase_slot key c.entries),
    ap (λ (x : List Bytes). length x) (keys-erase_slot key c.entries),
    length-erase_key key (keys c.entries) there,
    v.count,
    fewer,
  );
  sum = omega (arith, total-erase_slot key c.entries, v.sum, v.fits);
  fits = omega (arith, total-erase_slot key c.entries, v.fits);
}

-- Once a key's entry is dropped, the key is in neither list.
pub drop_entry-IsCoherent :
    (c : FileCache) (key : Bytes)
    → IsCoherent c
    → IsCoherent (drop_entry c key)
      × (occurs key (drop_entry c key).lru ≡ 0)
      × (total (drop_entry c key).entries ≤ total c.entries)
unfolding drop_entry
drop_entry-IsCoherent c key v = elim (Option-cases (find_slot key c.entries)) [
  | inl n ↦ rw n (v, omega (arith, v.same_keys key, missing-occurs key c.entries n), omega arith)
  | inr (f, e) ↦
      let there = found-occurs key c.entries f e in
      let size : size_of (find_slot key c.entries) ≡ f.size = ap size_of e in
      let w =
        erased-IsCoherent c key (erase_key key c.lru) v there (λ k. occurs-erase_key k key c.lru)
          (length-erase_key key c.lru (omega (arith, v.same_keys key))) in
      rw e (
        (rw e at w),
        omega (arith, occurs-erase_key key key c.lru, v.once key, ap one_if (bytes_eq_refl key)),
        omega (arith, total-erase_slot key c.entries),
      )
]

pub add_entry-IsCoherent :
    (c : FileCache) (key : Bytes) (f : CachedFile)
    → IsCoherent c
    → occurs key c.lru ≡ 0
    → total c.entries + f.size < u64_mod
    → IsCoherent (add_entry c key f)
add_entry-IsCoherent c key f v new room = record {
  same_keys = λ k. omega (arith, v.same_keys k);
  once = λ k. elim (Bool-cases (bytes_eq key k)) [
    | inl e ↦
        let none_yet : occurs k c.lru ≡ 0 =
          ap (λ (x : Bytes). occurs x c.lru) (sym (bytes_eq_sound key k e)) ∙ new in
        omega (arith, ap one_if e, none_yet)
    | inr e ↦ omega (arith, ap one_if e, v.once k)
  ];
  count = omega (arith, v.count);
  sum = omega (arith, v.sum, room);
  fits = omega (arith, room);
}

back-occurs : (ks : List Bytes) → 0 < length ks → 0 < occurs (back ks) ks
back-occurs ks h =
    omega (arith, occurs-pop_back (back ks) ks h, ap one_if (bytes_eq_refl (back ks)))

pub evict_one-IsCoherent :
    (c : FileCache) → 0 < length c.entries → IsCoherent c → IsCoherent (evict_one c)
unfolding evict_one
evict_one-IsCoherent c h v =
    erased-IsCoherent c (back c.lru) (pop_back c.lru) v
      (omega (arith, v.same_keys (back c.lru), back-occurs c.lru (omega (arith, v.count))))
      (λ k. omega (arith, occurs-pop_back k c.lru (omega (arith, v.count))))
      (omega (arith, length-pop_back c.lru, v.count))

at_least :
    (key k : Bytes) (ks : List Bytes) → 0 < occurs key ks → one_if (bytes_eq key k) ≤ occurs k ks
at_least key k ks h = elim (Bool-cases (bytes_eq key k)) [
  | inl e ↦ omega (arith, ap one_if e, ap (λ (x : Bytes). occurs x ks) (bytes_eq_sound key k e))
  | inr e ↦ omega (arith, ap one_if e)
]

-- A hit only moves its key to the front.
pub lookup-IsCoherent : (c : FileCache) (key : Bytes) → IsCoherent c → IsCoherent (lookup c key).0
unfolding lookup
lookup-IsCoherent c key v = elim (Option-cases (find_slot key c.entries)) [
  | inl n ↦ rw n v
  | inr (f, e) ↦
      let there = found-occurs key c.entries f e in
      let gone = λ (k : Bytes). occurs-erase_key k key c.lru in
      let present : 0 < occurs key c.lru = omega (arith, v.same_keys key) in
      rw e (record {
        same_keys = λ k. omega (arith, v.same_keys k, gone k, at_least key k c.lru present);
        once = λ k. omega (arith, v.once k, gone k, at_least key k c.lru present);
        count = omega (arith, v.count, length-erase_key key c.lru present);
        sum = v.sum;
        fits = v.fits;
      })
]
