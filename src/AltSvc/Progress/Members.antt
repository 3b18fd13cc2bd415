-- ===== src/AltSvc/Progress/Members.antt =====
-- How far the members of `Parser` in src/alt_svc.cpp read.
use anyhttp.Prelude.{
  ℕ, ◌≤◌, ◌<◌, ◌≡◌, refl, inl, inr, Bool, true, false, not, Option, none, some, [], ◌∷◌, ◌++◌,
  Bytes, length, is_empty, ◌==◌, arith, Bool-cases,
}
use anyhttp.AltSvc.Cursor.{
  Outcome, Parser, value, failed, spent, pure, require, lift, skip_ows, next_is, consume, token,
  split_token, quoted_loop, quoted_string, token_or_quoted_string, skip_loop, skip_element,
}

-- An outcome that is not out of fuel, leaves at most n characters, and whose value satisfies P.
abbrev pub Yields : {A : Type 0} → (A → Type 0) → ℕ → Outcome A → Type 0
Yields P n (value a r) = P a × (length r ≤ n)
Yields P n (failed r) = length r ≤ n
Yields P n spent = ⊥

abbrev pub Any : {A : Type 0} → A → Type 0
Any a = Unit {0}

pub bind-Yields :
    {A B : Type 0} (P : A → Type 0) (Q : B → Type 0) (n : ℕ) (f : A → Parser B) (o : Outcome A)
    → Yields P n o
    → ((a : A) (r : Bytes) → P a → length r ≤ n → Yields Q n (f a r))
    → Yields Q n (elim o [ value a r ↦ f a r | failed r ↦ failed r | spent ↦ spent ])
bind-Yields P Q n f (value a r) h k = k a r h.0 h.1
bind-Yields P Q n f (failed r) h k = h
bind-Yields P Q n f spent h k = h

pub require-Yields :
    (b : Bool) (n : ℕ) (s : Bytes) → length s ≤ n → Yields (λ _. b ≡ true) n (require b s)
require-Yields true n s h = (refl, h)
require-Yields false n s h = h

pub lift-Yields :
    {A : Type 0} (o : Option A) (n : ℕ) (s : Bytes)
    → length s ≤ n
    → Yields (λ a. o ≡ some a) n (lift o s)
lift-Yields none n s h = h
lift-Yields (some a) n s h = (refl, h)

pub skip_ows-le : (s : Bytes) → length (skip_ows s) ≤ length s
unfolding skip_ows
skip_ows-le [] = omega arith
skip_ows-le (c ∷ s) = ground (arith, skip_ows-le s)

pub consume-Yields : (c n : ℕ) (s : Bytes) → length s ≤ n → Yields Any n (consume c s)
unfolding consume
consume-Yields c n [] h = h
consume-Yields c n (x ∷ s) h = elim (Bool-cases (x == c)) [
  | inl e ↦ rw e (tt, omega arith)
  | inr e ↦ rw e h
]

pub split_token-le : (s : Bytes) → length (split_token s).1 ≤ length s
unfolding split_token
split_token-le [] = omega arith
split_token-le (c ∷ s) = ground (arith, split_token-le s)

token-Yields : (n : ℕ) (s : Bytes) → length s ≤ n → Yields Any n (token s)
unfolding token
token-Yields n s h = (tt, omega (arith, split_token-le s))

quoted_loop-Yields : (n : ℕ) (result s : Bytes) → length s ≤ n → Yields Any n (quoted_loop result s)
unfolding quoted_loop
quoted_loop-Yields n result [] h = h
quoted_loop-Yields n result (c ∷ []) h = elim (Bool-cases (c == 0x22)) [
  | inl e ↦ rw e (tt, omega arith)
  | inr e ↦ rw e (omega arith)
]
quoted_loop-Yields n result (c ∷ d ∷ s) h =
    split (quoted_loop-Yields n (result ++ d ∷ []) s (omega arith))
      (quoted_loop-Yields n (result ++ c ∷ []) (d ∷ s) (omega arith))
  where
    split :
        Yields Any n (quoted_loop (result ++ d ∷ []) s)
        → Yields Any n (quoted_loop (result ++ c ∷ []) (d ∷ s))
        → Yields Any n (quoted_loop result (c ∷ d ∷ s))
    split escaped plain = elim (Bool-cases (c == 0x22)) [
      | inl e ↦ rw (e, quoted_loop) (tt, omega arith)
      | inr e ↦ elim (Bool-cases (c == 0x5c)) [
        | inl f ↦ rw (e, f, quoted_loop) escaped
        | inr f ↦ rw (e, f, quoted_loop) plain
      ]
    ]

pub quoted_string-Yields : (n : ℕ) (s : Bytes) → length s ≤ n → Yields Any n (quoted_string s)
unfolding quoted_string
quoted_string-Yields n s h =
    bind-Yields Any Any n (λ _. quoted_loop []) (consume 0x22 s) (consume-Yields 0x22 n s h)
      (λ _ r _ k. quoted_loop-Yields n [] r k)

pub token_or_quoted_string-Yields :
    (n : ℕ) (s : Bytes) → length s ≤ n → Yields Any n (token_or_quoted_string s)
unfolding token_or_quoted_string
token_or_quoted_string-Yields n s h = elim (Bool-cases (next_is 0x22 s)) [
  | inl e ↦ rw e (quoted_string-Yields n s h)
  | inr e ↦ rw e (
      bind-Yields (λ _. not (is_empty (split_token s).0) ≡ true) Any n (λ _. pure (split_token s).0)
        _ (require-Yields _ n _ (omega (arith, split_token-le s))) (λ _ r _ k. (tt, k)))
]

skip_loop-lt : (q : Bool) (c : ℕ) (s : Bytes) → length (skip_loop q (c ∷ s)) ≤ length s
unfolding skip_loop
skip_loop-lt q c [] = omega arith
skip_loop-lt false c (d ∷ s) = ground (arith, skip_loop-lt (c == 0x22) d s)
skip_loop-lt true c (d ∷ []) = ground (arith, skip_loop-lt (not (c == 0x22)) d [])
skip_loop-lt true c (d ∷ e ∷ s) =
    ground (arith, skip_loop-lt (not (c == 0x22)) d (e ∷ s), skip_loop-lt true e s)

pub skip_element-lt : (n : ℕ) (s : Bytes) → length s ≤ n → 0 < n → length (skip_element s) < n
unfolding skip_element skip_loop
skip_element-lt n [] h p = p
skip_element-lt n (c ∷ s) h p = omega (arith, skip_loop-lt false c s)
