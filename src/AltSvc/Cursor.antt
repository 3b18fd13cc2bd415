-- ===== src/AltSvc/Cursor.antt =====
-- The class `Parser` of src/alt_svc.cpp: the field value from `pos_` on is its state, since nothing
-- moves back or looks at what has been passed.
use anyhttp.Prelude.{
  ℕ, Bool, true, false, not, Option, none, some, [], ◌∷◌, ◌++◌, Bytes, is_empty, ◌==◌,
  if◌then◌else◌,
}
use anyhttp.AltSvc.Chars.{is_tchar, is_ows}

-- What a member that may fail leaves behind: its value and the rest of the text, or the rest alone.
-- `spent` is not the program's: a loop of the model was given too little fuel.
pub data Outcome {ℓ} (A : Type ℓ) : Type ℓ where
  value : A → Bytes → Outcome A
  failed : Bytes → Outcome A
  spent : Outcome A

abbrev pub Parser {ℓ} : Type ℓ → Type ℓ
Parser A = Bytes → Outcome A

infixl 5 ◌>>=◌ ◌>>◌
abbrev pub ◌>>=◌ {ℓ κ} : {A : Type ℓ} {B : Type κ} → Parser A → (A → Parser B) → Parser B
◌>>=◌ m f s = elim (m s) [ value a r ↦ f a r | failed r ↦ failed r | spent ↦ spent ]

abbrev pub ◌>>◌ {ℓ} : {B : Type ℓ} → Parser (Unit {0}) → Parser B → Parser B
◌>>◌ m k s = elim (m s) [ value a r ↦ k r | failed r ↦ failed r | spent ↦ spent ]

abbrev pub pure {ℓ} : {A : Type ℓ} → A → Parser A
pure a s = value a s

-- `return std::nullopt` unless the test holds.
abbrev pub require : Bool → Parser (Unit {0})
require true s = value tt s
require false s = failed s

abbrev pub lift {ℓ} : {A : Type ℓ} → Option A → Parser A
lift none s = failed s
lift (some a) s = value a s

abbrev pub eof : Bytes → Bool
eof s = is_empty s

unfoldable pub next_is : ℕ → Bytes → Bool
next_is c [] = false
next_is c (x ∷ s) = x == c

unfoldable pub skip_ows : Bytes → Bytes
skip_ows [] = []
skip_ows (c ∷ s) = if is_ows c then skip_ows s else c ∷ s

-- The Boolean result is `value tt` or `failed`, and the text stays as it is on `failed`.
unfoldable pub consume : ℕ → Parser (Unit {0})
consume c [] = failed []
consume c (x ∷ s) = if x == c then value tt s else failed (x ∷ s)

-- The token characters in front, and the rest.
unfoldable pub split_token : Bytes → Bytes × Bytes
split_token [] = ([], [])
split_token (c ∷ s) = let (t, r) = split_token s in if is_tchar c then (c ∷ t, r) else ([], c ∷ s)

unfoldable pub token : Parser Bytes
unfolding split_token
token s = let (t, r) = split_token s in value t r

-- The loop of `quoted_string`, behind the opening quote.
unfoldable pub quoted_loop : Bytes → Parser Bytes
quoted_loop result [] = failed []
quoted_loop result (c ∷ []) = if c == 0x22 then value result [] else failed []
quoted_loop result (c ∷ d ∷ s) =
    let escaped = quoted_loop (result ++ d ∷ []) s in
    let plain = quoted_loop (result ++ c ∷ []) (d ∷ s) in
    if c == 0x22 then value result (d ∷ s) else if c == 0x5c then escaped else plain

unfoldable pub quoted_string : Parser Bytes
unfolding quoted_loop consume
quoted_string = do consume 0x22; quoted_loop []

unfoldable pub token_or_quoted_string : Parser Bytes
unfolding next_is quoted_string token
token_or_quoted_string s =
    if next_is 0x22 s then quoted_string s else (do t ← token; require (not (is_empty t)); pure t) s

-- Past the next comma that is not inside a quoted string.
unfoldable pub skip_loop : Bool → Bytes → Bytes
skip_loop quoted [] = []
skip_loop quoted (c ∷ []) = []
skip_loop false (c ∷ d ∷ s) =
    let rest = skip_loop (c == 0x22) (d ∷ s) in if c == b',' then d ∷ s else rest
skip_loop true (c ∷ d ∷ s) =
    let behind = skip_loop true s in
    let rest = skip_loop (not (c == 0x22)) (d ∷ s) in if c == 0x5c then behind else rest

unfoldable pub skip_element : Bytes → Bytes
unfolding skip_loop
skip_element s = skip_loop false s
