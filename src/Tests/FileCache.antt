-- ===== src/Tests/FileCache.antt =====
-- src/file_handler.cpp at concrete files.
use anyhttp.Prelude.{
  ℕ, ◌+◌, ◌≤◌, ◌<◌, ◌≡◌, ◌⊎◌, inl, refl, Option, some, List, [], ◌∷◌, ◌++◌, Bytes, length, arith,
  u64_mod,
}
use anyhttp.FileCache.Cache.{
  FileCache, CachedFile, Identity, Errno, insert, lookup, get, max_entries, max_bytes, erase_key,
}
use anyhttp.FileCache.Keys.{total}
use anyhttp.FileCache.Coherence.{IsCoherent}
use anyhttp.FileCache.Eviction.{insert-IsCoherent}
use anyhttp.FileCache.Recency.{
  Use, looks_up, puts, use_all, record_all, Fits, IsFrontOf, use_all-IsFrontOf,
}
use anyhttp.FileCache.Serving.{Serves, get-Serves}

abbrev nothing_cached : FileCache
nothing_cached = record { entries = []; lru = []; bytes = 0 }

nothing_cached-IsCoherent : IsCoherent nothing_cached
nothing_cached-IsCoherent = record {
  same_keys = λ k. refl;
  once = λ k. omega arith;
  count = refl;
  sum = refl;
  fits = omega arith;
}

abbrev a_file : ℕ → CachedFile
a_file n = record {
  resolved = b'/' ∷ n ∷ [];
  size = n;
  identity = record { dev = 1; ino = n; file_size = n; mtim_sec = 5; mtim_nsec = 0 };
  last_modified = [];
  content_type = [];
}

-- A file that alone is above the budget.
abbrev large : CachedFile
large = record (a_file 7) { size = 100000000 }

abbrev with_large : FileCache
with_large = insert nothing_cached (b'l' ∷ []) large

with_large-IsCoherent : IsCoherent with_large
with_large-IsCoherent =
    (insert-IsCoherent nothing_cached (b'l' ∷ []) large nothing_cached-IsCoherent (omega arith)).0

with_large-total : total with_large.entries ≡ 100000000
unfolding insert anyhttp.FileCache.Cache.evict anyhttp.FileCache.Cache.drop_entry
with_large-total = refl

insert-IsCoherent_example :
    IsCoherent (insert with_large (b's' ∷ []) (a_file 3))
    × ((length (insert with_large (b's' ∷ []) (a_file 3)).entries ≤ 1)
        ⊎ (length (insert with_large (b's' ∷ []) (a_file 3)).entries ≤ max_entries)
          × ((insert with_large (b's' ∷ []) (a_file 3)).bytes ≤ max_bytes))
    × ((lookup (insert with_large (b's' ∷ []) (a_file 3)) (b's' ∷ [])).1 ≡ some (a_file 3))
insert-IsCoherent_example =
    insert-IsCoherent with_large (b's' ∷ []) (a_file 3) with_large-IsCoherent
      (omega (arith, with_large-total))

-- The first of two files is used again.
abbrev uses : List Use
uses = puts (b'a' ∷ []) (a_file 1) ∷ puts (b'b' ∷ []) (a_file 2) ∷ looks_up (b'a' ∷ []) ∷ []

uses-lru : (use_all nothing_cached uses).lru ≡ (b'a' ∷ []) ∷ (b'b' ∷ []) ∷ []
unfolding insert lookup erase_key anyhttp.Prelude.bytes_eq anyhttp.FileCache.Cache.evict
    anyhttp.FileCache.Cache.drop_entry
uses-lru = refl

uses-Fits : Fits nothing_cached uses
unfolding insert lookup anyhttp.FileCache.Cache.evict anyhttp.FileCache.Cache.drop_entry
uses-Fits = (omega arith, (omega arith, tt))

use_all-IsFrontOf_example :
    IsFrontOf (use_all nothing_cached uses) (record_all nothing_cached uses [])
    × IsCoherent (use_all nothing_cached uses)
use_all-IsFrontOf_example =
    use_all-IsFrontOf uses nothing_cached [] nothing_cached-IsCoherent uses-Fits ([], refl)

-- The large file was replaced on disk.
abbrev stat_now : Bytes → Option Identity
stat_now path = some (record { dev = 1; ino = 9; file_size = 4; mtim_sec = 6; mtim_nsec = 0 })

abbrev load_now : Bytes → CachedFile ⊎ Errno
load_now path = inl (a_file 4)

room_now :
    (f : CachedFile) → load_now (b'l' ∷ []) ≡ inl f → total with_large.entries + f.size < u64_mod
room_now f e = let same : f.size ≡ 4 = ground arith in omega (arith, same, with_large-total)

get-Serves_example :
    IsCoherent (get stat_now load_now with_large (b'l' ∷ [])).0
    × Serves stat_now load_now (b'l' ∷ []) (get stat_now load_now with_large (b'l' ∷ [])).1
get-Serves_example =
    get-Serves stat_now load_now with_large (b'l' ∷ []) with_large-IsCoherent room_now
