-- ===== src/AltSvc/Value.antt =====
-- `parse_alt_value` of src/alt_svc.cpp: one alternative and its parameters.
use anyhttp.Prelude.{
  ℕ, zero, suc, Bool, true, false, not, ◌&&◌, Option, none, some, [], ◌∷◌, Bytes, length, is_empty,
  bytes_eq, if◌then◌else◌, pos, to_int64,
}
use anyhttp.AltSvc.Cursor.{
  Parser, value, failed, spent, ◌>>=◌, ◌>>◌, pure, require, lift, skip_ows, consume, token,
  quoted_string, token_or_quoted_string,
}
use anyhttp.AltSvc.Encoding.{pct_decode}
use anyhttp.AltSvc.Authority.{split_authority}
use anyhttp.AltSvc.Service.{AltService, parse_u64}

-- The state of the loop over the parameters.
pub record Params : Type 0 where
  pub service : AltService
  pub have_max_age : Bool
  pub have_persist : Bool

-- "ma", "persist" and "1".
abbrev pub ma : Bytes
ma = b'm' ∷ b'a' ∷ []

abbrev pub persist_name : Bytes
persist_name = b'p' ∷ b'e' ∷ b'r' ∷ b's' ∷ b'i' ∷ b's' ∷ b't' ∷ []

-- A lifetime is converted from uint64_t to the signed representation of `std::chrono::seconds`.
with_max_age : AltService → Option ℕ → AltService
with_max_age s none = s
with_max_age s (some seconds) = record s { max_age = to_int64 seconds }

-- The body of the loop behind the parse. `std::exchange(have, true)` sets the flag whenever the
-- name fits, and the value counts only the first time.
unfoldable pub apply_param : Params → Bytes → Bytes → Params
unfolding bytes_eq with_max_age parse_u64 to_int64
apply_param p name v =
    if bytes_eq name ma && not p.have_max_age
    then record p { service = with_max_age p.service (parse_u64 v); have_max_age = true }
    else if bytes_eq name persist_name && not p.have_persist
    then record p {
      service = record p.service { persist = bytes_eq v (b'1' ∷ []) };
      have_persist = true;
    }
    else p

-- One parameter, behind its semicolon.
unfoldable pub param : Params → Parser Params
unfolding skip_ows token consume token_or_quoted_string apply_param
param p s =
    (do
      name ← token
      require (not (is_empty name))
      consume b'='
      v ← token_or_quoted_string
      pure (apply_param p name v))
      (skip_ows s)

-- `for (parser.skip_ows(); parser.consume(';'); parser.skip_ows())`.
unfoldable pub params : ℕ → Params → Parser AltService
unfolding skip_ows consume
params zero p s = spent
params (suc fuel) p s = elim (consume b';' (skip_ows s)) [
  | failed r ↦ value p.service r
  | spent ↦ spent
  | value _ r ↦ elim (param p r) [
    | failed q ↦ failed q
    | spent ↦ spent
    | value p' q ↦ params fuel p' q
  ]
]

-- The defaults of the struct: a day, and not persistent.
unfoldable pub make_service : Bytes → Bytes × Bytes → AltService
unfolding pct_decode
make_service protocol (host, port) = record {
  protocol = pct_decode protocol;
  host = host;
  port = port;
  max_age = pos 86400;
  persist = false;
}

-- Each round of the loop passes a semicolon, so one more than the length is enough fuel.
unfoldable pub parse_alt_value : Parser AltService
unfolding token consume quoted_string
parse_alt_value = do
  protocol ← token
  require (not (is_empty protocol))
  consume b'='
  authority ← quoted_string
  target ← lift (split_authority authority)
  λ s.
      params (suc (length s))
        (record {
          service = make_service protocol target;
          have_max_age = false;
          have_persist = false;
        })
        s
