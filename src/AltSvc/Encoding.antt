-- ===== src/AltSvc/Encoding.antt =====
-- `pct_decode` of src/alt_svc.cpp against the encoding of RFC 7838, section 3.
use anyhttp.Prelude.{
  ℕ, ◌+◌, ◌*◌, ◌/◌, ◌%◌, ◌<◌, ◌≡◌, ◌≢◌, refl, ap, ◌∙◌, true, false, not, ◌&&◌, Option, none, some,
  [], ◌∷◌, ◌++◌, Bytes, is_empty, All, Bool-cases, inl, inr, ◌==◌, if◌then◌else◌, arith,
}
use anyhttp.AltSvc.Chars.{is_tchar, hex_digit, to_hex, hex_digit-to_hex}

-- The value of "%ab", if the three characters are an escape.
unfoldable pub escape : ℕ → ℕ → ℕ → Option ℕ
escape c a b =
    if c == b'%'
    then elim (hex_digit a) [
      | none ↦ none
      | some hi ↦ elim (hex_digit b) [ none ↦ none | some lo ↦ some (hi * 16 + lo) ]
    ]
    else none

unfoldable pub pct_decode : Bytes → Bytes
pct_decode [] = []
pct_decode (c ∷ []) = c ∷ []
pct_decode (c ∷ a ∷ []) = c ∷ a ∷ []
pct_decode (c ∷ a ∷ b ∷ rest) = elim (escape c a b) [
  | some v ↦ v ∷ pct_decode rest
  | none ↦ c ∷ pct_decode (a ∷ b ∷ rest)
]

-- A byte that may stand for itself, or its escape.
unfoldable pub pct_byte : ℕ → Bytes
pct_byte c =
    if is_tchar c && not (c == b'%') then c ∷ [] else b'%' ∷ to_hex (c / 16) ∷ to_hex (c % 16) ∷ []

unfoldable pub pct_encode : Bytes → Bytes
unfolding pct_byte
pct_encode [] = []
pct_encode (c ∷ cs) = pct_byte c ++ pct_encode cs

escape-ne : (c a b : ℕ) → c ≢ b'%' → escape c a b ≡ none
unfolding escape
escape-ne c a b h = ground arith

escape-to_hex : (c : ℕ) → c < 256 → escape b'%' (to_hex (c / 16)) (to_hex (c % 16)) ≡ some c
unfolding escape
escape-to_hex c h =
    rw (hex_digit-to_hex (c / 16) (omega arith), hex_digit-to_hex (c % 16) (omega arith))
      (ap some (omega arith))

-- A character that is not "%" stands for itself, whatever follows.
pct_decode-cons : (c : ℕ) (rest : Bytes) → c ≢ b'%' → pct_decode (c ∷ rest) ≡ c ∷ pct_decode rest
unfolding pct_decode
pct_decode-cons c [] h = refl
pct_decode-cons c (a ∷ []) h = refl
pct_decode-cons c (a ∷ b ∷ rest) h = rw (escape-ne c a b h, pct_decode)

pct_decode-escape :
    (c : ℕ) (rest : Bytes)
    → c < 256
    → pct_decode (b'%' ∷ to_hex (c / 16) ∷ to_hex (c % 16) ∷ rest) ≡ c ∷ pct_decode rest
unfolding pct_decode
pct_decode-escape c rest h = rw (escape-to_hex c h, pct_decode)

pct_decode-pct_byte :
    (c : ℕ) (rest : Bytes) → c < 256 → pct_decode (pct_byte c ++ rest) ≡ c ∷ pct_decode rest
unfolding pct_byte
pct_decode-pct_byte c rest h = ground (arith, pct_decode-cons c rest, pct_decode-escape c rest h)

-- Whatever bytes a protocol name has, its encoding is decoded to it.
pub pct_decode-pct_encode : (s : Bytes) → All (λ c. c < 256) s → pct_decode (pct_encode s) ≡ s
unfolding pct_encode
pct_decode-pct_encode [] h = unfold pct_decode in refl
pct_decode-pct_encode (c ∷ cs) h =
    pct_decode-pct_byte c (pct_encode cs) h.0 ∙ ap (◌∷◌ c) (pct_decode-pct_encode cs h.1)

to_hex-is_tchar : (n : ℕ) → n < 16 → is_tchar (to_hex n) ≡ true
unfolding is_tchar to_hex
to_hex-is_tchar n h = ground arith

pct_byte-is_tchar :
    (c : ℕ) (rest : Bytes)
    → c < 256
    → All (λ x. is_tchar x ≡ true) rest
    → All (λ x. is_tchar x ≡ true) (pct_byte c ++ rest)
unfolding pct_byte
pct_byte-is_tchar c rest h t = elim (Bool-cases (is_tchar c && not (c == b'%'))) [
  | inl e ↦ rw (e, pct_byte) (ground arith, t)
  | inr e ↦
      rw (e, pct_byte)
        (
          percent,
          (to_hex-is_tchar (c / 16) (omega arith), (to_hex-is_tchar (c % 16) (omega arith), t)),
        )
]
  where
    percent : is_tchar b'%' ≡ true
    percent = unfold is_tchar in refl

-- The encoding consists of token characters.
pub pct_encode-is_tchar :
    (s : Bytes) → All (λ c. c < 256) s → All (λ c. is_tchar c ≡ true) (pct_encode s)
unfolding pct_encode
pct_encode-is_tchar [] h = tt
pct_encode-is_tchar (c ∷ cs) h = pct_byte-is_tchar c _ h.0 (pct_encode-is_tchar cs h.1)

pub pct_encode-ne : (s : Bytes) → is_empty s ≡ false → is_empty (pct_encode s) ≡ false
unfolding pct_encode pct_byte
pct_encode-ne [] h = cc
pct_encode-ne (c ∷ cs) h = ground arith
