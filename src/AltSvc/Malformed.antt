-- ===== src/AltSvc/Malformed.antt =====
-- Authorities that are malformed and accepted: `split_authority` of src/alt_svc.cpp.
use anyhttp.Prelude.{
  ℕ, suc, ◌+◌, ◌-◌, ◌≡◌, refl, sym, ap, ◌∙◌, true, some, [], ◌∷◌, ◌++◌, Bytes, length, take, drop,
  take-append, drop-append, length-append, arith, append_assoc,
}
use anyhttp.AltSvc.Authority.{
  find, find_from, starts_with, is_port, split_at, split_authority, Lacks, find-append,
  split_at-append,
}

find_from-append :
    (c : ℕ) (s t u : Bytes) (n : ℕ)
    → n ≡ length s
    → Lacks c t
    → find_from c n (s ++ (t ++ c ∷ u)) ≡ some (length s + length t)
unfolding find_from
find_from-append c s t u n e h =
    let there : find c (drop n (s ++ (t ++ c ∷ u))) ≡ some (length t) =
      ap (λ (m : ℕ). find c (drop m (s ++ (t ++ c ∷ u)))) e
      ∙ ap (find c) (drop-append s (t ++ c ∷ u))
      ∙ find-append c t u h in
    rw (there, find_from) (ap (λ (m : ℕ). some (m + length t)) e)

bracketed :
    (rest : Bytes) (i j : ℕ)
    → find b']' (b'[' ∷ rest) ≡ some i
    → find_from b':' i (b'[' ∷ rest) ≡ some j
    → split_authority (b'[' ∷ rest) ≡ split_at true (b'[' ∷ rest) (some j)
unfolding split_authority starts_with
bracketed rest i j e f = rw (e, f) refl

front_of : (s : Bytes) (x : ℕ) → take (length s) (s ++ x ∷ []) ≡ s
front_of s x = take-append s (x ∷ [])

-- An authority with text between the bracket that closes a literal and the colon in front of the
-- port, of which RFC 3986 knows none, is accepted: the host that is handed out has the bracket in
-- the middle, and lacks the last character of that text.
pub split_authority-between :
    (host text port : Bytes) (last : ℕ)
    → Lacks b']' host
    → Lacks b':' (b']' ∷ text ++ last ∷ [])
    → is_port port ≡ true
    → split_authority (b'[' ∷ host ++ ((b']' ∷ text ++ last ∷ []) ++ b':' ∷ port))
      ≡ some (host ++ b']' ∷ text, port)
split_authority-between host text port last h l p =
    bracketed (host ++ (middle ++ b':' ∷ port)) (suc (length host))
      (suc (length host) + length middle)
      (find-append b']' (b'[' ∷ host) ((text ++ last ∷ []) ++ b':' ∷ port) h)
      (find_from-append b':' (b'[' ∷ host) middle port (suc (length host)) refl l)
    ∙ ap (λ (n : ℕ). split_at true (b'[' ∷ host ++ (middle ++ b':' ∷ port)) (some n)) (sym count)
    ∙ ap (λ (a : Bytes). split_at true a (some (length before))) (sym whole)
    ∙ split_at-append before port p
    ∙ ap (λ (x : Bytes). some (x, port)) cut
  where
    middle : Bytes
    middle = b']' ∷ text ++ last ∷ []

    before : Bytes
    before = b'[' ∷ host ++ middle

    whole : before ++ b':' ∷ port ≡ b'[' ∷ host ++ (middle ++ b':' ∷ port)
    whole = ap (◌∷◌ b'[') (append_assoc host middle (b':' ∷ port))

    count : length before ≡ suc (length host) + length middle
    count = omega (arith, length-append host middle)

    cut : take (length before - 2) (host ++ middle) ≡ host ++ b']' ∷ text
    cut =
        ap (λ (n : ℕ). take n (host ++ middle))
          (omega (
            arith,
            length-append host middle,
            length-append text (last ∷ []),
            length-append host (b']' ∷ text),
          ))
        ∙ ap (take (length (host ++ b']' ∷ text)))
            (sym (append_assoc host (b']' ∷ text) (last ∷ [])))
        ∙ front_of (host ++ b']' ∷ text) last
