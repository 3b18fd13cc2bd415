-- ===== src/FileCache/Recency.antt =====
-- The cache of src/file_handler.cpp over a sequence of uses: what goes is what was used least recently.
use anyhttp.Prelude.{
  ◌+◌, ◌≤◌, ◌<◌, ◌≡◌, refl, ap, ◌∙◌, inl, inr, Option, none, some, List, [], ◌∷◌, ◌++◌, Bytes,
  bytes_eq, if◌then◌else◌, arith, Bool-cases, Option-cases, u64_mod, append_assoc,
}
use anyhttp.FileCache.Cache.{FileCache, CachedFile, lookup, insert, erase_key, find_slot}
use anyhttp.FileCache.Keys.{total, occurs, one_if}
use anyhttp.FileCache.Coherence.{IsCoherent, lookup-IsCoherent}
use anyhttp.FileCache.Eviction.{insert-IsCoherent, insert-oldest}

pub data Use : Type 0 where
  looks_up : Bytes → Use
  puts : Bytes → CachedFile → Use

abbrev pub use_once : FileCache → Use → FileCache
use_once c (looks_up key) = (lookup c key).0
use_once c (puts key f) = insert c key f

abbrev pub use_all : FileCache → List Use → FileCache
use_all c [] = c
use_all c (u ∷ us) = use_all (use_once c u) us

-- The keys that have been used, the last one first: those that were found, and those that were put in.
abbrev pub found_key : Bytes → Option CachedFile → List Bytes → List Bytes
found_key key none history = history
found_key key (some f) history = key ∷ history

abbrev pub record_use : FileCache → Use → List Bytes → List Bytes
record_use c (looks_up key) history = found_key key (lookup c key).1 history
record_use c (puts key f) history = key ∷ history

abbrev pub record_all : FileCache → List Use → List Bytes → List Bytes
record_all c [] history = history
record_all c (u ∷ us) history = record_all (use_once c u) us (record_use c u history)

abbrev pub without : Bytes → List Bytes → List Bytes
without key [] = []
without key (k ∷ ks) = if bytes_eq k key then without key ks else k ∷ without key ks

-- The keys by their last use, each once.
abbrev pub by_last_use : List Bytes → List Bytes
by_last_use [] = []
by_last_use (k ∷ history) = k ∷ without k (by_last_use history)

-- No file takes the bytes to 2^64.
abbrev pub Fits : FileCache → List Use → Type 0
Fits c [] = Unit {0}
Fits c (looks_up key ∷ us) = Fits (lookup c key).0 us
Fits c (puts key f ∷ us) = (total c.entries + f.size < u64_mod) × Fits (insert c key f) us

-- The cache holds the front of the keys by their last use.
abbrev pub IsFrontOf : FileCache → List Bytes → Type 0
IsFrontOf c history = (gone : List Bytes) × (by_last_use history ≡ c.lru ++ gone)

without-append :
    (key : Bytes) (ks ls : List Bytes) → without key (ks ++ ls) ≡ without key ks ++ without key ls
without-append key [] ls = refl
without-append key (k ∷ ks) ls = elim (Bool-cases (bytes_eq k key)) [
  | inl e ↦ rw e (without-append key ks ls)
  | inr e ↦ rw e (ap (◌∷◌ k) (without-append key ks ls))
]

without-absent : (key : Bytes) (ks : List Bytes) → occurs key ks ≡ 0 → without key ks ≡ ks
without-absent key [] h = refl
without-absent key (k ∷ ks) h = elim (Bool-cases (bytes_eq k key)) [
  | inl e ↦ absurd (omega (arith, h, ap one_if e))
  | inr e ↦ rw e (ap (◌∷◌ k) (without-absent key ks (omega (arith, h))))
]

without-once :
    (key : Bytes) (ks : List Bytes) → occurs key ks ≤ 1 → without key ks ≡ erase_key key ks
unfolding erase_key
without-once key [] h = refl
without-once key (k ∷ ks) h = elim (Bool-cases (bytes_eq k key)) [
  | inl e ↦ rw e (without-absent key ks (omega (arith, h, ap one_if e)))
  | inr e ↦ rw e (ap (◌∷◌ k) (without-once key ks (omega (arith, h))))
]

-- A key that is used goes to the front, of the cache and of the keys by their last use.
used :
    (c : FileCache) (key : Bytes) (history : List Bytes)
    → IsCoherent c
    → (front : IsFrontOf c history)
    → by_last_use (key ∷ history) ≡ (key ∷ erase_key key c.lru) ++ without key front.0
used c key history v (gone, e) = ap (◌∷◌ key) (
    ap (without key) e
    ∙ without-append key c.lru gone
    ∙ ap (λ ks. ks ++ without key gone) (without-once key c.lru (v.once key)))

lookup-front :
    (c : FileCache) (key : Bytes) (history : List Bytes)
    → IsCoherent c
    → IsFrontOf c history
    → IsFrontOf (lookup c key).0 (found_key key (lookup c key).1 history)
unfolding lookup
lookup-front c key history v front = elim (Option-cases (find_slot key c.entries)) [
  | inl n ↦ rw n front
  | inr (f, e) ↦ rw e (without key front.0, used c key history v front)
]

insert-front :
    (c : FileCache) (key : Bytes) (f : CachedFile) (history : List Bytes)
    → IsCoherent c
    → total c.entries + f.size < u64_mod
    → IsFrontOf c history
    → IsFrontOf (insert c key f) (key ∷ history)
insert-front c key f history v room front =
    let (victims, e) = insert-oldest c key f v room in
    (
      victims ++ without key front.0,
      used c key history v front
          ∙ ap (λ ks. ks ++ without key front.0) e
          ∙ append_assoc (insert c key f).lru victims (without key front.0),
    )

-- What goes is what was used least recently: over any sequence of lookups and insertions, from a
-- coherent cache that holds the front of the keys by their last use, such as an empty one without a
-- history, and with no file that takes the bytes to 2^64, the keys that the cache holds are the front
-- of all keys by their last use, a use being a lookup that finds the key or an insertion; and the cache
-- is coherent.
pub use_all-IsFrontOf :
    (us : List Use) (c : FileCache) (history : List Bytes)
    → IsCoherent c
    → Fits c us
    → IsFrontOf c history
    → IsFrontOf (use_all c us) (record_all c us history) × IsCoherent (use_all c us)
use_all-IsFrontOf [] c history v fits front = (front, v)
use_all-IsFrontOf (looks_up key ∷ us) c history v fits front =
    use_all-IsFrontOf us (lookup c key).0 (found_key key (lookup c key).1 history)
      (lookup-IsCoherent c key v) fits (lookup-front c key history v front)
use_all-IsFrontOf (puts key f ∷ us) c history v fits front =
    use_all-IsFrontOf us (insert c key f) (key ∷ history) (insert-IsCoherent c key f v fits.0).0
      fits.1 (insert-front c key f history v fits.0 front)
