-- ===== src/FileCache/Cache.antt =====
-- The cache of mapped files, src/file_handler.cpp. `entries_` is an association list, `lru_` the list
-- of its keys, the most recently used first.
use anyhttp.Prelude.{
  ℕ, zero, suc, Bool, false, ◌&&◌, ◌||◌, Option, none, some, List, [], ◌∷◌, Bytes, bytes_eq, length,
  ltb, ◌==◌, if◌then◌else◌, add64, sub64, ◌⊎◌, inl, inr,
}

-- What a mapping was made from.
pub record Identity : Type 0 where
  pub dev : ℕ
  pub ino : ℕ
  pub file_size : ℕ
  pub mtim_sec : ℕ
  pub mtim_nsec : ℕ

unfoldable pub same_identity : Identity → Identity → Bool
same_identity a b =
    a.dev == b.dev
    && a.ino == b.ino
    && a.file_size == b.file_size
    && a.mtim_sec == b.mtim_sec
    && a.mtim_nsec == b.mtim_nsec

pub record CachedFile : Type 0 where
  pub resolved : Bytes
  pub size : ℕ
  pub identity : Identity
  pub last_modified : Bytes
  pub content_type : Bytes

pub record Slot : Type 0 where
  pub key : Bytes
  pub entry : CachedFile

pub record FileCache : Type 0 where
  pub entries : List Slot
  pub lru : List Bytes
  pub bytes : ℕ

abbrev pub max_entries : ℕ
max_entries = 256

-- `64u << 20`
abbrev pub max_bytes : ℕ
max_bytes = 67108864

-- `entries_.find(key)`
unfoldable pub find_slot : Bytes → List Slot → Option CachedFile
find_slot key [] = none
find_slot key (s ∷ ss) =
    let rest = find_slot key ss in if bytes_eq s.key key then some s.entry else rest

unfoldable pub erase_slot : Bytes → List Slot → List Slot
erase_slot key [] = []
erase_slot key (s ∷ ss) =
    let rest = erase_slot key ss in if bytes_eq s.key key then ss else s ∷ rest

unfoldable pub erase_key : Bytes → List Bytes → List Bytes
erase_key key [] = []
erase_key key (k ∷ ks) = let rest = erase_key key ks in if bytes_eq k key then ks else k ∷ rest

unfoldable pub lookup : FileCache → Bytes → FileCache × Option CachedFile
unfolding find_slot
lookup c key = found (find_slot key c.entries)
  where
    found : Option CachedFile → FileCache × Option CachedFile
    found none = (c, none)
    found (some f) = (record c { lru = key ∷ erase_key key c.lru }, some f)

abbrev pub size_of : Option CachedFile → ℕ
size_of none = 0
size_of (some f) = f.size

-- The entry for a key, if there is one, goes.
unfoldable pub drop_entry : FileCache → Bytes → FileCache
unfolding find_slot
drop_entry c key = dropped (find_slot key c.entries)
  where
    dropped : Option CachedFile → FileCache
    dropped none = c
    dropped (some f) = record {
      bytes = sub64 c.bytes f.size;
      lru = erase_key key c.lru;
      entries = erase_slot key c.entries;
    }

abbrev pub add_entry : FileCache → Bytes → CachedFile → FileCache
add_entry c key f = record {
  bytes = add64 c.bytes f.size;
  lru = key ∷ c.lru;
  entries = record { key = key; entry = f } ∷ c.entries;
}

-- `lru_.back()` and `lru_.pop_back()`
unfoldable pub back : List Bytes → Bytes
back [] = []
back (k ∷ []) = k
back (k ∷ l ∷ ks) = back (l ∷ ks)

unfoldable pub pop_back : List Bytes → List Bytes
pop_back [] = []
pop_back (k ∷ []) = []
pop_back (k ∷ l ∷ ks) = k ∷ pop_back (l ∷ ks)

unfoldable pub over_budget : FileCache → Bool
over_budget c =
    ltb 1 (length c.entries) && (ltb max_entries (length c.entries) || ltb max_bytes c.bytes)

unfoldable pub evict_one : FileCache → FileCache
evict_one c = record {
  bytes = sub64 c.bytes (size_of (find_slot (back c.lru) c.entries));
  entries = erase_slot (back c.lru) c.entries;
  lru = pop_back c.lru;
}

-- The loop, on fuel: as many rounds as there are entries are enough.
unfoldable pub evict : ℕ → FileCache → FileCache
unfolding over_budget
evict zero c = c
evict (suc n) c = let rest = evict n (evict_one c) in if over_budget c then rest else c

unfoldable pub insert : FileCache → Bytes → CachedFile → FileCache
insert c key f = let d = add_entry (drop_entry c key) key f in evict (length d.entries) d

-- `status_for`, by the name of the error.
pub data Errno : Type 0 where
  enoent enotdir eisdir enametoolong eacces eperm einval other : Errno

unfoldable pub status_for : Errno → ℕ
status_for enoent = 404
status_for enotdir = 404
status_for eisdir = 404
status_for enametoolong = 404
status_for eacces = 403
status_for eperm = 403
status_for einval = 500
status_for other = 500

-- `get`: `stat`, and `resolve` and `open` with what is computed from the file, are the file system's.
module _ (stat : Bytes → Option Identity) (load : Bytes → CachedFile ⊎ Errno) where
  unfoldable pub is_current : CachedFile → Bool
  unfolding same_identity
  is_current f = current (stat f.resolved)
    where
      current : Option Identity → Bool
      current none = false
      current (some i) = same_identity i f.identity

  abbrev pub build : FileCache → Bytes → CachedFile ⊎ Errno → FileCache × (CachedFile ⊎ Errno)
  build c path (inr e) = (c, inr e)
  build c path (inl f) = (insert c path f, inl f)

  -- Behind the lookup: a hit that is current, or a new entry.
  abbrev pub serve : Bytes → FileCache × Option CachedFile → FileCache × (CachedFile ⊎ Errno)
  serve path (d, none) = build d path (load path)
  serve path (d, some f) =
      let built = build d path (load path) in if is_current f then (d, inl f) else built

  unfoldable pub get : FileCache → Bytes → FileCache × (CachedFile ⊎ Errno)
  get c path = serve path (lookup c path)
