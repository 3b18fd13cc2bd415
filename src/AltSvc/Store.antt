-- ===== src/AltSvc/Store.antt =====
-- What a client makes of an advertisement: `Client::Impl::on_alt_svc` and `Client::Impl::alt_svc`
-- of src/client_impl.cpp. The steady clock is an argument: nanoseconds since its epoch.
use anyhttp.Prelude.{
  ℕ, suc, ◌+◌, ◌-◌, ◌*◌, Bool, true, false, ◌||◌, Option, none, some, [], ◌∷◌, Bytes, ltb, leb,
  ◌==◌, if◌then◌else◌, ℤ, pos, negsuc, i64_mod,
}
use anyhttp.AltSvc.Service.{AltService, AltSvc}
use anyhttp.AltSvc.Field.{parse_alt_svc, find}

pub record AlternativeService : Type 0 where
  pub host : Bytes
  pub port : Bytes
  pub expires : ℤ

-- The part of the client that an advertisement is about.
pub record Client : Type 0 where
  pub follow_alt_svc : Bool
  pub alternative : Option AlternativeService

abbrev pub nanos : ℕ
nanos = 1000000000

-- `steady_clock::now() + max_age`: seconds are converted to 64-bit nanoseconds and added to the
-- time point. `none` where either does not fit, which is undefined in C++.
unfoldable pub add_seconds : ℕ → ℤ → Option ℤ
add_seconds now (pos s) =
    if ltb (now + s * nanos) i64_mod then some (pos (now + s * nanos)) else none
add_seconds now (negsuc s) =
    if ltb i64_mod (suc s * nanos)
    then none
    else if leb (suc s * nanos) now
    then some (pos (now - suc s * nanos))
    else some (negsuc (suc s * nanos - now - 1))

-- `expires <= steady_clock::now()`
unfoldable pub has_expired : ℕ → ℤ → Bool
has_expired now (pos t) = leb t now
has_expired now (negsuc t) = true

unfoldable pub is_zero : ℤ → Bool
is_zero (pos n) = n == 0
is_zero (negsuc n) = false

abbrev pub h3 : Bytes
h3 = b'h' ∷ b'3' ∷ []

store : Client → ℕ → AltService → Option Client
store c now s = elim (add_seconds now s.max_age) [
  | none ↦ none
  | some t ↦
      some (record c { alternative = some (record { host = s.host; port = s.port; expires = t }) })
]

-- `service && service->max_age.count() == 0`
expires_at_once : Option AltService → Bool
expires_at_once none = false
expires_at_once (some s) = is_zero s.max_age

store_found : Client → ℕ → Option AltService → Option Client
store_found c now none = some c
store_found c now (some s) = store c now s

-- The client behind a field value that was parsed; `none` where `add_seconds` is undefined.
unfoldable pub take_in : Client → ℕ → AltSvc → Option Client
unfolding store expires_at_once store_found find is_zero add_seconds
take_in c now a =
    if a.clear || expires_at_once (find h3 a)
    then some (record c { alternative = none })
    else store_found c now (find h3 a)

unfoldable pub on_alt_svc : Client → ℕ → Bytes → Option Client
on_alt_svc c now field_value =
    if c.follow_alt_svc
    then elim (parse_alt_svc field_value) [ none ↦ none | some a ↦ take_in c now a ]
    else some c

unfoldable pub alt_svc : Client → ℕ → Option AlternativeService
unfolding has_expired
alt_svc c now = elim c.alternative [
  | none ↦ none
  | some a ↦ if has_expired now a.expires then none else some a
]
