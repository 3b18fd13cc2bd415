-- ===== src/AltSvc/Progress/Values.antt =====
-- `parse_alt_value` of src/alt_svc.cpp ends, and returns services that are well-formed.
use anyhttp.Prelude.{
  ℕ, zero, suc, ◌≤◌, ◌<◌, ◌≡◌, refl, inl, inr, true, false, not, some, [], ◌∷◌, Bytes, length,
  is_empty, arith, Option-cases,
}
use anyhttp.AltSvc.Encoding.{pct_decode, escape}
use anyhttp.AltSvc.Cursor.{
  Outcome, Parser, value, failed, spent, ◌>>=◌, ◌>>◌, pure, require, lift, skip_ows, consume,
  split_token, quoted_string, token_or_quoted_string,
}
use anyhttp.AltSvc.Authority.{is_port, split_authority, split_authority_sound}
use anyhttp.AltSvc.Service.{AltService, parse_u64}
use anyhttp.AltSvc.Value.{Params, apply_param, param, params, make_service, parse_alt_value}
use anyhttp.AltSvc.Progress.Members.{
  Yields, Any, bind-Yields, require-Yields, lift-Yields, skip_ows-le, consume-Yields,
  split_token-le, quoted_string-Yields, token_or_quoted_string-Yields,
}

-- What the header promises of every service: a protocol and a decimal port, never empty.
pub record IsService (s : AltService) : Type 0 where
  pub has_protocol : is_empty s.protocol ≡ false
  pub has_port : is_port s.port ≡ true

apply_param-IsService :
    (p : Params) (name v : Bytes) → IsService p.service → IsService (apply_param p name v).service
unfolding apply_param
apply_param-IsService p name v h = ground (arith, Option-cases (parse_u64 v))

module _ (p : Params) (n : ℕ) (valid : IsService p.service) where
  abbrev Goal : Outcome Params → Type 0
  Goal = Yields (λ (q : Params). IsService q.service) n

  value-Goal :
      (name s : Bytes)
      → length s ≤ n
      → Goal ((do v ← token_or_quoted_string; pure (apply_param p name v)) s)
  value-Goal name s h =
      bind-Yields Any _ n _ _ (token_or_quoted_string-Yields n s h)
        (λ v r _ k. (apply_param-IsService p name v valid, k))

  name-Goal :
      (name s : Bytes)
      → length s ≤ n
      → Goal (
          (do
            require (not (is_empty name))
            consume b'='
            v ← token_or_quoted_string
            pure (apply_param p name v))
            s)
  name-Goal name s h =
      bind-Yields (λ _. not (is_empty name) ≡ true) _ n _ _ (require-Yields _ n s h)
        (λ _ r _ k.
          bind-Yields Any _ n _ _ (consume-Yields b'=' n r k) (λ _ q _ l. value-Goal name q l))

  param-Yields : (s : Bytes) → length s ≤ n → Goal (param p s)
  unfolding param
  param-Yields s h =
      name-Goal (split_token (skip_ows s)).0 (split_token (skip_ows s)).1
        (omega (arith, split_token-le (skip_ows s), skip_ows-le s))

-- A semicolon passed is a character passed.
consume-lt : (c : ℕ) (s r : Bytes) → consume c s ≡ value tt r → length r < length s
unfolding consume
consume-lt c [] r h = cc
consume-lt c (x ∷ s) r h = ground arith

-- The rest of a round, from the outcomes of the semicolon and of the parameter.
after_param :
    (fuel m n : ℕ) (o : Outcome Params)
    → Yields (λ (q : Params). IsService q.service) m o
    → m ≤ n
    → ((p : Params) (r : Bytes)
        → IsService p.service
        → length r ≤ m
        → Yields IsService n (params fuel p r))
    → Yields IsService n
        (elim o [ failed q ↦ failed q | spent ↦ spent | value p q ↦ params fuel p q ])
after_param fuel m n (value p r) y l k = k p r y.0 y.1
after_param fuel m n (failed r) y l k = omega arith
after_param fuel m n spent y l k = y

after_semicolon :
    (fuel n : ℕ) (p : Params) (s : Bytes) (o : Outcome (Unit {0}))
    → IsService p.service
    → Yields Any (length s) o
    → ((r : Bytes) → o ≡ value tt r → length r < length s)
    → length s < suc fuel
    → length s ≤ n
    → ((q : Params) (r : Bytes)
        → IsService q.service
        → length r < fuel
        → length r ≤ n
        → Yields IsService n (params fuel q r))
    → Yields IsService n (elim o [
      | failed r ↦ value p.service r
      | spent ↦ spent
      | value _ r ↦ elim (param p r) [
        | failed q ↦ failed q
        | spent ↦ spent
        | value p' q ↦ params fuel p' q
      ]
    ])
after_semicolon fuel n p s (value u r) v y lt f h k =
    let short : length r < length s = lt r refl in
    after_param fuel (length r) n (param p r) (param-Yields p (length r) v r (omega arith))
      (omega arith) (λ q t w l. k q t w (omega arith) (omega arith))
after_semicolon fuel n p s (failed r) v y lt f h k = (v, omega arith)
after_semicolon fuel n p s spent v y lt f h k = y

params-Yields :
    (fuel n : ℕ) (p : Params) (s : Bytes)
    → IsService p.service
    → length s < fuel
    → length s ≤ n
    → Yields IsService n (params fuel p s)
unfolding params
params-Yields zero n p s v f h = absurd (omega arith)
params-Yields (suc fuel) n p s v f h =
    after_semicolon fuel n p s (consume b';' (skip_ows s)) v
      (consume-Yields b';' (length s) (skip_ows s) (skip_ows-le s))
      (λ r e. omega (arith, consume-lt b';' (skip_ows s) r e, skip_ows-le s)) f h
      (params-Yields fuel n)

pct_decode-ne : (s : Bytes) → is_empty s ≡ false → is_empty (pct_decode s) ≡ false
unfolding pct_decode
pct_decode-ne [] h = cc
pct_decode-ne (c ∷ []) h = refl
pct_decode-ne (c ∷ a ∷ []) h = refl
pct_decode-ne (c ∷ a ∷ b ∷ s) h = elim (Option-cases (escape c a b)) [
  | inl e ↦ rw (e, pct_decode) refl
  | inr (v, e) ↦ rw (e, pct_decode) refl
]

make_service-IsService :
    (protocol authority : Bytes) (target : Bytes × Bytes)
    → is_empty protocol ≡ false
    → split_authority authority ≡ some target
    → IsService (make_service protocol target)
unfolding make_service
make_service-IsService protocol authority (host, port) h e = record {
  has_protocol = pct_decode-ne protocol h;
  has_port = (split_authority_sound authority host port e).0;
}

named : Bytes → Parser AltService
named protocol = do
  require (not (is_empty protocol))
  consume b'='
  authority ← quoted_string
  target ← lift (split_authority authority)
  λ s.
      params (suc (length s))
        (record {
          service = make_service protocol target;
          have_max_age = false;
          have_persist = false;
        })
        s

named-Yields : (n : ℕ) (protocol s : Bytes) → length s ≤ n → Yields IsService n (named protocol s)
unfolding named
named-Yields n protocol s h =
    bind-Yields (λ _. not (is_empty protocol) ≡ true) IsService n _ _
      (require-Yields (not (is_empty protocol)) n s h)
      λ _ r1 ne l1. bind-Yields Any IsService n _ _ (consume-Yields b'=' n r1 l1) λ _ r2 _ l2.
        bind-Yields Any IsService n _ _ (quoted_string-Yields n r2 l2) λ authority r3 _ l3.
          bind-Yields (λ t. split_authority authority ≡ some t) IsService n _ _
            (lift-Yields (split_authority authority) n r3 l3)
            λ target r4 e l4.
              params-Yields (suc (length r4)) n _ r4
                (make_service-IsService protocol authority target (ground arith) e) (omega arith) l4

-- An alternative that is read has its protocol and its port, and the parser never moves back.
pub parse_alt_value-Yields :
    (n : ℕ) (s : Bytes) → length s ≤ n → Yields IsService n (parse_alt_value s)
unfolding parse_alt_value named
parse_alt_value-Yields n s h =
    named-Yields n (split_token s).0 (split_token s).1 (omega (arith, split_token-le s))
