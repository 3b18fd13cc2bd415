-- ===== src/AltSvc/ReadBack.antt =====
-- Reading back what Render writes, piece by piece and with any rest behind it.
use anyhttp.Prelude.{
  ℕ, suc, ◌<◌, ◌≡◌, ◌≢◌, refl, ap, ◌∙◌, inl, inr, true, false, ◌||◌, [], ◌∷◌, ◌++◌, Bytes, is_empty,
  All, ◌==◌, arith, Bool-cases, append_assoc, append-nil, lt→ltb, pos, i64_mod,
}
use anyhttp.AltSvc.Chars.{is_tchar, is_ows}
use anyhttp.AltSvc.Cursor.{
  Outcome, Parser, value, failed, spent, pure, skip_ows, split_token, quoted_loop,
  token_or_quoted_string,
}
use anyhttp.AltSvc.Service.{AltService, print_u64, parse_u64-print_u64}
use anyhttp.AltSvc.Value.{Params, apply_param, param, params, ma}
use anyhttp.AltSvc.Render.{escaped}

-- A text that a token does not go on into.
abbrev pub Stops : Bytes → Type 0
Stops [] = Unit {0}
Stops (c ∷ s) = is_tchar c ≡ false

-- A text behind an alternative: a comma or nothing.
abbrev pub Ends : Bytes → Type 0
Ends [] = Unit {0}
Ends (c ∷ s) = c ≡ b','

split_token-Stops : (s : Bytes) → Stops s → split_token s ≡ ([], s)
unfolding split_token
split_token-Stops [] h = refl
split_token-Stops (c ∷ s) h = rw h refl

pub split_token-append :
    (t s : Bytes) → All (λ c. is_tchar c ≡ true) t → Stops s → split_token (t ++ s) ≡ (t, s)
unfolding split_token
split_token-append [] s h k = unfold split_token in split_token-Stops s k
split_token-append (c ∷ t) s h k = rw (h.0, split_token-append t s h.1 k) refl

quoted_loop-cons :
    (result s : Bytes) (c : ℕ)
    → (c == 0x22) ≡ false
    → (c == 0x5c) ≡ false
    → s ≢ []
    → quoted_loop result (c ∷ s) ≡ quoted_loop (result ++ c ∷ []) s
unfolding quoted_loop
quoted_loop-cons result [] c h k n = absurd (n refl)
quoted_loop-cons result (d ∷ s) c h k n = rw (h, k, quoted_loop) refl

append-ne : (s t : Bytes) (c : ℕ) → s ++ c ∷ t ≢ []
append-ne [] t c = λ e. cc
append-ne (x ∷ s) t c = λ e. cc

quoted_loop-quote : (result rest : Bytes) → quoted_loop result (0x22 ∷ rest) ≡ value result rest
unfolding quoted_loop
quoted_loop-quote result [] = refl
quoted_loop-quote result (d ∷ rest) = refl

quoted_loop-backslash :
    (result s : Bytes) (c : ℕ)
    → quoted_loop result (0x5c ∷ c ∷ s) ≡ quoted_loop (result ++ c ∷ []) s
unfolding quoted_loop
quoted_loop-backslash result s c = refl

-- A quoted string is read to its closing quote, whatever it holds.
pub quoted_loop-escaped :
    (result s rest : Bytes)
    → quoted_loop result (escaped s ++ 0x22 ∷ rest) ≡ value (result ++ s) rest
unfolding escaped
quoted_loop-escaped result [] rest = rw append-nil (quoted_loop-quote result rest)
quoted_loop-escaped result (c ∷ s) rest =
    let step =
      quoted_loop-escaped (result ++ c ∷ []) s rest
      ∙ ap (λ t. value t rest) (append_assoc result (c ∷ []) s) in
    elim (Bool-cases (c == 0x22 || c == 0x5c)) [
      | inl e ↦ rw (e, escaped) (quoted_loop-backslash result (escaped s ++ 0x22 ∷ rest) c ∙ step)
      | inr e ↦
          rw (e, escaped)
            (quoted_loop-cons result _ c (ground arith) (ground arith)
                (append-ne (escaped s) rest 0x22)
              ∙ step)
    ]

token_or_quoted_string-append :
    (v rest : Bytes)
    → All (λ c. is_tchar c ≡ true) v
    → is_empty v ≡ false
    → Stops rest
    → token_or_quoted_string (v ++ rest) ≡ value v rest
unfolding token_or_quoted_string
token_or_quoted_string-append [] rest hv ve st = cc
token_or_quoted_string-append (c ∷ v) rest hv ve st =
    let no_quote : (c == 0x22) ≡ false = not_quote c hv.0 in
    rw (no_quote, split_token-append (c ∷ v) rest hv st) refl
  where
    not_quote : (d : ℕ) → is_tchar d ≡ true → (d == 0x22) ≡ false
    not_quote d h = unfold is_tchar in ground arith

pub skip_ows-tchar : (c : ℕ) (s : Bytes) → is_tchar c ≡ true → skip_ows (c ∷ s) ≡ c ∷ s
unfolding skip_ows
skip_ows-tchar c s h = rw (not_ows c h) refl
  where
    not_ows : (d : ℕ) → is_tchar d ≡ true → is_ows d ≡ false
    not_ows d h = unfold is_tchar is_ows in ground arith

pub skip_ows-space : (c : ℕ) (s : Bytes) → is_tchar c ≡ true → skip_ows (0x20 ∷ c ∷ s) ≡ c ∷ s
unfolding skip_ows
skip_ows-space c s h = unfold is_ows in skip_ows-tchar c s h

pub bind-value :
    {A B : Type 0} {a : A} {r : Bytes} (f : A → Parser B) (o : Outcome A)
    → o ≡ value a r
    → elim o [ value a r ↦ f a r | failed r ↦ failed r | spent ↦ spent ] ≡ f a r
bind-value f o e = rw e refl

-- One parameter with a token for its value.
param_lem :
    (p : Params) (n : ℕ) (name v rest : Bytes)
    → All (λ c. is_tchar c ≡ true) (n ∷ name)
    → All (λ c. is_tchar c ≡ true) v
    → is_empty v ≡ false
    → Stops rest
    → param p (0x20 ∷ n ∷ name ++ (b'=' ∷ (v ++ rest))) ≡ value (apply_param p (n ∷ name) v) rest
unfolding param
param_lem p n name v rest hn hv ve st =
    rw
      (
        skip_ows-space n (name ++ (b'=' ∷ (v ++ rest))) hn.0,
        split_token-append (n ∷ name) (b'=' ∷ (v ++ rest)) hn (unfold is_tchar in refl),
      )
      (bind-value (λ t. pure (apply_param p (n ∷ name) t)) _
        (token_or_quoted_string-append v rest hv ve st))

-- The loop over the parameters, at a parameter and at its end.
pub params-param :
    (fuel : ℕ) (p : Params) (n : ℕ) (name v rest : Bytes)
    → All (λ c. is_tchar c ≡ true) (n ∷ name)
    → All (λ c. is_tchar c ≡ true) v
    → is_empty v ≡ false
    → Stops rest
    → params (suc fuel) p (b';' ∷ 0x20 ∷ n ∷ name ++ (b'=' ∷ (v ++ rest)))
      ≡ params fuel (apply_param p (n ∷ name) v) rest
params-param fuel p n name v rest hn hv ve st = semicolon (param_lem p n name v rest hn hv ve st)
  where
    semicolon :
        param p (0x20 ∷ n ∷ name ++ (b'=' ∷ (v ++ rest))) ≡ value (apply_param p (n ∷ name) v) rest
        → params (suc fuel) p (b';' ∷ 0x20 ∷ n ∷ name ++ (b'=' ∷ (v ++ rest)))
          ≡ params fuel (apply_param p (n ∷ name) v) rest
    semicolon e = unfold params is_ows in rw (e, params) refl

pub params-Ends :
    (fuel : ℕ) (p : Params) (s : Bytes) → Ends s → params (suc fuel) p s ≡ value p.service s
params-Ends fuel p [] h = unfold params in refl
params-Ends fuel p (c ∷ s) h = rw h (unfold params is_ows in refl)

-- `apply_param` at the two parameters that are rendered.
pub apply_param-ma :
    (s : AltService) (n : ℕ)
    → n < i64_mod
    → apply_param
        (record { service = s; have_max_age = false; have_persist = false })
        ma
        (print_u64 n)
      ≡ record { service = record s { max_age = pos n }; have_max_age = true; have_persist = false }
unfolding apply_param
apply_param-ma s n h = rw (parse_u64-print_u64 n (omega arith), lt→ltb n i64_mod h) refl
