-- ===== src/FileCache/Serving.antt =====
-- What `FileCache::get` of src/file_handler.cpp serves.
use anyhttp.Prelude.{
  arith, ◌+◌, ◌<◌, ◌≡◌, ◌⊎◌, inl, inr, refl, true, Option, none, some, Bytes, Bool-cases,
  Option-cases, u64_mod,
}
use anyhttp.FileCache.Cache.{
  FileCache, CachedFile, Identity, Errno, find_slot, lookup, is_current, same_identity, build,
  serve, get,
}
use anyhttp.FileCache.Keys.{total}
use anyhttp.FileCache.Coherence.{IsCoherent, lookup-IsCoherent}
use anyhttp.FileCache.Eviction.{insert-IsCoherent}

lookup-entries : (c : FileCache) (key : Bytes) → (lookup c key).0.entries ≡ c.entries
unfolding lookup
lookup-entries c key = elim (Option-cases (find_slot key c.entries)) [
  | inl n ↦ rw n refl
  | inr (f, e) ↦ rw e refl
]

module _ (stat : Bytes → Option Identity) (load : Bytes → CachedFile ⊎ Errno) where
  -- `stat` gives the path that was resolved when the file was loaded the device, the inode, the size
  -- and the time of modification that the file was loaded with.
  abbrev pub IsUnchanged : CachedFile → Type 0
  IsUnchanged f =
      (i : Identity) × (stat f.resolved ≡ some i)
      × (i.dev ≡ f.identity.dev)
      × (i.ino ≡ f.identity.ino)
      × (i.file_size ≡ f.identity.file_size)
      × (i.mtim_sec ≡ f.identity.mtim_sec)
      × (i.mtim_nsec ≡ f.identity.mtim_nsec)

  is_current-IsUnchanged : (f : CachedFile) → is_current stat load f ≡ true → IsUnchanged f
  unfolding is_current same_identity
  is_current-IsUnchanged f e = elim (Option-cases (stat f.resolved)) [
    | inl n ↦ absurd (ground arith)
    | inr (i, k) ↦
        let same : same_identity i f.identity ≡ true = (rw k at e) in
        (i, k, ground arith, ground arith, ground arith, ground arith, ground arith)
  ]

  -- A file that is unchanged, or what was loaded just now, or the error.
  abbrev pub Serves : Bytes → CachedFile ⊎ Errno → Type 0
  Serves path (inl f) = IsUnchanged f ⊎ (load path ≡ inl f)
  Serves path (inr e) = load path ≡ inr e

  build-Serves :
      (c : FileCache) (path : Bytes) (r : CachedFile ⊎ Errno)
      → IsCoherent c
      → load path ≡ r
      → ((f : CachedFile) → load path ≡ inl f → total c.entries + f.size < u64_mod)
      → IsCoherent (build stat load c path r).0 × Serves path (build stat load c path r).1
  build-Serves c path (inl f) v e room = ((insert-IsCoherent c path f v (room f e)).0, inr e)
  build-Serves c path (inr x) v e room = (v, e)

  serve-Serves :
      (t : FileCache × Option CachedFile) (path : Bytes)
      → IsCoherent t.0
      → ((f : CachedFile) → load path ≡ inl f → total t.0.entries + f.size < u64_mod)
      → IsCoherent (serve stat load path t).0 × Serves path (serve stat load path t).1
  serve-Serves (d, none) path v room = build-Serves d path (load path) v refl room
  serve-Serves (d, some f) path v room = elim (Bool-cases (is_current stat load f)) [
    | inl e ↦ rw e (v, inl (is_current-IsUnchanged f e))
    | inr e ↦ rw e (build-Serves d path (load path) v refl room)
  ]

  -- Serving a request from a coherent cache leaves it coherent, provided that no file that can be
  -- loaded for the path takes the bytes to 2^64. What is answered is a cached file to whose resolved
  -- path `stat` gives now the device, the inode, the size and the time of modification, seconds and
  -- nanoseconds, that it was loaded with; or what was loaded for this request; or the error of loading
  -- it. That the path of the request still resolves to that file is not asked again.
  pub get-Serves :
      (c : FileCache) (path : Bytes)
      → IsCoherent c
      → ((f : CachedFile) → load path ≡ inl f → total c.entries + f.size < u64_mod)
      → IsCoherent (get stat load c path).0 × Serves path (get stat load c path).1
  unfolding get
  get-Serves c path v room =
      serve-Serves (lookup c path) path (lookup-IsCoherent c path v)
        (λ f e. rw (lookup-entries c path) (room f e))
