-- ===== src/AltSvc/Authority.antt =====
-- `split_authority` of src/alt_svc.cpp.
use anyhttp.Prelude.{
  ℕ, zero, suc, ◌+◌, ◌-◌, ◌≡◌, ◌⊎◌, inl, inr, refl, ap, ◌∙◌, sym, Bool, true, false, not, ◌&&◌,
  Option, none, some, [], ◌∷◌, ◌++◌, Bytes, length, take, drop, is_empty, all, ◌==◌, if◌then◌else◌,
  arith, subst, take-append, drop-append, drop-append_suc, length-append, Bool-cases, inl, inr,
  Option-cases, append_assoc,
}
use Prim.Native.Nat.add
use anyhttp.AltSvc.Chars.{is_digit}

-- `std::string_view::find` of one character; `none` is `npos`.
unfoldable pub find : ℕ → Bytes → Option ℕ
find c [] = none
find c (x ∷ xs) =
    if x == c then some 0 else elim (find c xs) [ none ↦ none | some i ↦ some (suc i) ]

-- ... from a position on.
unfoldable pub find_from : ℕ → ℕ → Bytes → Option ℕ
unfolding find
find_from c i s = elim (find c (drop i s)) [ none ↦ none | some j ↦ some (i + j) ]

-- `std::string_view::rfind` of one character.
unfoldable pub rfind : ℕ → Bytes → Option ℕ
rfind c [] = none
rfind c (x ∷ xs) = elim (rfind c xs) [
  | some i ↦ some (suc i)
  | none ↦ if x == c then some 0 else none
]

unfoldable pub starts_with : ℕ → Bytes → Bool
starts_with c [] = false
starts_with c (x ∷ xs) = x == c

-- Digits only, and at least one of them.
unfoldable pub is_port : Bytes → Bool
unfolding is_digit
is_port digits = not (is_empty digits) && all is_digit digits

-- The part behind the search for the colon. A literal has both its brackets in front of the colon,
-- so that `uri_host.size() - 2` does not wrap.
unfoldable pub split_at : Bool → Bytes → Option ℕ → Option (Bytes × Bytes)
split_at literal authority none = none
split_at literal authority (some colon) =
    let digits = drop (suc colon) authority in
    let uri_host = take colon authority in
    if not (is_port digits)
    then none
    else if literal
    then some (take (length uri_host - 2) (drop 1 uri_host), digits)
    else some (uri_host, digits)

-- The host and the port, or `none` where the function returns false.
unfoldable pub split_authority : Bytes → Option (Bytes × Bytes)
unfolding split_at starts_with
split_authority authority =
    if starts_with b'[' authority
    then elim (find b']' authority) [
      | none ↦ split_at false authority none
      | some bracket ↦ split_at true authority (find_from b':' bracket authority)
    ]
    else split_at false authority (rfind b':' authority)

-- No character of the text is `c`.
abbrev pub Lacks : ℕ → Bytes → Type 0
Lacks c s = all (λ x. not (x == c)) s ≡ true

digits-Lacks : (s : Bytes) → all is_digit s ≡ true → Lacks b':' s
unfolding is_digit
digits-Lacks [] h = refl
digits-Lacks (x ∷ xs) h = ground (arith, digits-Lacks xs)

rfind-Lacks : (c : ℕ) (s : Bytes) → Lacks c s → rfind c s ≡ none
unfolding rfind
rfind-Lacks c [] h = refl
rfind-Lacks c (x ∷ xs) h = ground (arith, rfind-Lacks c xs)

rfind-append : (c : ℕ) (s t : Bytes) → Lacks c t → rfind c (s ++ c ∷ t) ≡ some (length s)
unfolding rfind
rfind-append c [] t h = ground (arith, rfind-Lacks c t h)
rfind-append c (x ∷ xs) t h = ground (arith, rfind-append c xs t h)

pub find-append : (c : ℕ) (s t : Bytes) → Lacks c s → find c (s ++ c ∷ t) ≡ some (length s)
unfolding find
find-append c [] t h = ground arith
find-append c (x ∷ xs) t h = ground (arith, find-append c xs t)

is_port-digits : (p : Bytes) → is_port p ≡ true → all is_digit p ≡ true
unfolding is_port
is_port-digits p h = ground arith

-- A host that is no literal is taken as it is, colons included, with the digits behind the last
-- colon for a port.
pub split_authority-host :
    (host port : Bytes)
    → starts_with b'[' (host ++ b':' ∷ port) ≡ false
    → is_port port ≡ true
    → split_authority (host ++ b':' ∷ port) ≡ some (host, port)
unfolding split_authority
split_authority-host host port h p =
    rw (h, rfind-append b':' host port (digits-Lacks port (is_port-digits port p)))
      (rw (take-append host (b':' ∷ port), drop-append_suc host b':' port, p) refl)

find_from-bracket :
    (host port : Bytes)
    → find_from b':' (suc (length host)) (b'[' ∷ host ++ (b']' ∷ b':' ∷ port))
      ≡ some (length host + 2)
unfolding find_from
find_from-bracket host port =
    rw (drop-append host (b']' ∷ b':' ∷ port), find_from) (ap some (omega arith))

pub split_at-append :
    (before port : Bytes)
    → is_port port ≡ true
    → split_at true (before ++ b':' ∷ port) (some (length before))
      ≡ some (take (length before - 2) (drop 1 before), port)
unfolding split_at
split_at-append before port p =
    rw (drop-append_suc before b':' port, take-append before (b':' ∷ port), p) refl

brackets-off : (host : Bytes) (n : ℕ) → n ≡ length host → take n (host ++ b']' ∷ []) ≡ host
brackets-off host n e = rw e (take-append host (b']' ∷ []))

-- A literal loses its brackets, and its own colons are not taken for the one in front of the port.
pub split_authority-literal :
    (host port : Bytes)
    → Lacks b']' host
    → is_port port ≡ true
    → split_authority (b'[' ∷ host ++ (b']' ∷ b':' ∷ port)) ≡ some (host, port)
split_authority-literal host port h p =
    found (find-append b']' (b'[' ∷ host) (b':' ∷ port) h) (find_from-bracket host port)
    ∙ ap (λ n. split_at true (b'[' ∷ host ++ (b']' ∷ b':' ∷ port)) (some n)) (sym count)
    ∙ ap (λ a. split_at true a (some (length before))) (sym whole)
    ∙ split_at-append before port p
    ∙ ap (λ h'. some (h', port)) (brackets-off host (length before - 2) (omega (arith, count)))
  where
    before : Bytes
    before = b'[' ∷ host ++ b']' ∷ []

    whole : before ++ b':' ∷ port ≡ b'[' ∷ host ++ (b']' ∷ b':' ∷ port)
    whole = ap (◌∷◌ b'[') (append_assoc host (b']' ∷ []) (b':' ∷ port))

    count : length before ≡ length host + 2
    count = omega (arith, length-append host (b']' ∷ []))

    found :
        find b']' (b'[' ∷ host ++ (b']' ∷ b':' ∷ port)) ≡ some (suc (length host))
        → find_from b':' (suc (length host)) (b'[' ∷ host ++ (b']' ∷ b':' ∷ port))
          ≡ some (length host + 2)
        → split_authority (b'[' ∷ host ++ (b']' ∷ b':' ∷ port))
          ≡ split_at true (b'[' ∷ host ++ (b']' ∷ b':' ∷ port)) (some (length host + 2))
    found e f = unfold split_authority in rw (e, f)

-- A position that a search found, as a split of the text.
abbrev Splits : Bytes → ℕ → ℕ → Type 0
Splits s c i = s ≡ take i s ++ c ∷ drop (suc i) s

find-Splits : (c i : ℕ) (s : Bytes) → find c s ≡ some i → Splits s c i
unfolding find
find-Splits c i [] h = cc
find-Splits c zero (x ∷ xs) h = ground (arith)
find-Splits c (suc i) (x ∷ xs) h = ground (arith, find-Splits c i xs)

rfind-Splits : (c i : ℕ) (s : Bytes) → rfind c s ≡ some i → Splits s c i
unfolding rfind
rfind-Splits c i [] h = cc
rfind-Splits c zero (x ∷ xs) h = ground (arith)
rfind-Splits c (suc i) (x ∷ xs) h = ground (arith, rfind-Splits c i xs)

append-cons-ne : (xs : Bytes) (y : ℕ) (ys : Bytes) → [] ≡ xs ++ y ∷ ys → ⊥
append-cons-ne [] y ys h = cc
append-cons-ne (x ∷ xs) y ys h = cc

drop-Splits : (c i j : ℕ) (s : Bytes) → Splits (drop i s) c j → Splits s c (i + j)
drop-Splits c zero j s h = rw add.zero h
drop-Splits c (suc i) j [] h = absurd (append-cons-ne _ _ _ h)
drop-Splits c (suc i) j (x ∷ xs) h = rw add.suc (ap (◌∷◌ x) (drop-Splits c i j xs h))

find_from-Splits : (c i k : ℕ) (s : Bytes) → find_from c i s ≡ some k → Splits s c k
unfolding find_from
find_from-Splits c i k s h = elim (Option-cases (find c (drop i s))) [
  | inl e ↦ ground arith
  | inr (j, e) ↦
      let k_eq : i + j ≡ k = ground arith in
      subst (Splits s c) k_eq (drop-Splits c i j s (find-Splits c j (drop i s) e))
]

-- What an accepted authority looks like.
abbrev pub IsAuthority : Bytes → Bytes → Bytes → Type 0
IsAuthority a host port =
    (is_port port ≡ true)
    × ((before : Bytes) × (a ≡ before ++ b':' ∷ port)
        × ((starts_with b'[' a ≡ true) ⊎ (before ≡ host)))

split_at_sound :
    (literal : Bool) (a : Bytes) (i : ℕ) (host port : Bytes)
    → (starts_with b'[' a ≡ false → literal ≡ false)
    → Splits a b':' i
    → split_at literal a (some i) ≡ some (host, port)
    → IsAuthority a host port
unfolding split_at
split_at_sound true a i host port l s h =
    let port_eq : drop (suc i) a ≡ port = ground arith in
    (ground arith, (take i a, rw port_eq at s, inl (ground arith)))
split_at_sound false a i host port l s h =
    let port_eq : drop (suc i) a ≡ port = ground arith in
    let host_eq : take i a ≡ host = ground arith in
    (ground arith, (take i a, rw port_eq at s, inr host_eq))

-- Whatever is accepted ends in a colon and a port of digits, at least one, and without a bracket
-- in front, what stands before that colon is the host.
pub split_authority_sound :
    (a host port : Bytes) → split_authority a ≡ some (host, port) → IsAuthority a host port
unfolding split_authority
split_authority_sound a host port h = elim (Bool-cases (starts_with b'[' a)) [
  | inl l ↦ elim (Option-cases (find b']' a)) [
    | inl e ↦ absurd (ground arith)
    | inr (i, e) ↦ elim (Option-cases (find_from b':' i a)) [
      | inl f ↦ absurd (ground arith)
      | inr (k, f) ↦
          split_at_sound true a k host port (λ x. cc) (find_from-Splits b':' i k a f) (ground arith)
    ]
  ]
  | inr l ↦ elim (Option-cases (rfind b':' a)) [
    | inl f ↦ absurd (ground arith)
    | inr (k, f) ↦
        split_at_sound false a k host port (λ x. refl) (rfind-Splits b':' k a f) (ground arith)
  ]
]
