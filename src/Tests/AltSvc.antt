-- ===== src/Tests/AltSvc.antt =====
-- src/alt_svc.cpp, src/client_impl.cpp and src/server_impl.cpp at concrete field values.
use anyhttp.Prelude.{
  ◌≡◌, refl, true, false, none, some, [], ◌∷◌, ◌++◌, Bytes, All, pos, arith, if◌then◌else◌, ltb,
  ◌+◌, ◌*◌,
}
use anyhttp.AltSvc.Chars.{is_digit}
use anyhttp.AltSvc.Authority.{split_authority, starts_with, is_port}
use anyhttp.AltSvc.Malformed.{split_authority-between}
use anyhttp.AltSvc.Service.{AltService, AltSvc, print_u64, parse_u64, parse_u64-print_u64}
use anyhttp.AltSvc.Field.{parse_alt_svc}
use anyhttp.AltSvc.Render.{render, IsRenderable, has_colon}
use anyhttp.AltSvc.RoundTrip.{parse_alt_svc-render}
use anyhttp.AltSvc.Progress.Rounds.{parse_alt_svc_total}
use anyhttp.AltSvc.Progress.Values.{IsService}
use anyhttp.AltSvc.Store.{Client, nanos, on_alt_svc, alt_svc, h3}
use anyhttp.AltSvc.Advertise.{advertise, alt_svc-advertise, on_alt_svc-overflow}

-- h3, on [::1]:443, for an hour and across networks.
abbrev literal : AltService
literal = record {
  protocol = h3;
  host = b':' ∷ b':' ∷ b'1' ∷ [];
  port = b'4' ∷ b'4' ∷ b'3' ∷ [];
  max_age = pos 3600;
  persist = true;
}

-- A protocol name with a character that is escaped, and no host.
abbrev odd : AltService
odd = record {
  protocol = b'a' ∷ b'=' ∷ [];
  host = [];
  port = b'8' ∷ b'0' ∷ [];
  max_age = pos 0;
  persist = false;
}

literal-IsRenderable : IsRenderable literal
unfolding has_colon starts_with is_port is_digit
literal-IsRenderable = record {
  bytes = ground arith;
  has_protocol = refl;
  has_host = ground arith;
  has_port = refl;
  lifetime = refl;
  in_range = omega arith;
}

odd-IsRenderable : IsRenderable odd
unfolding has_colon starts_with is_port is_digit
odd-IsRenderable = record {
  bytes = ground arith;
  has_protocol = refl;
  has_host = ground arith;
  has_port = refl;
  lifetime = refl;
  in_range = omega arith;
}

parse_alt_svc-render_example :
    parse_alt_svc (render (literal ∷ odd ∷ []))
    ≡ some (record { clear = false; services = literal ∷ odd ∷ [] })
parse_alt_svc-render_example =
    parse_alt_svc-render (literal ∷ odd ∷ []) (literal-IsRenderable, (odd-IsRenderable, tt))

-- An element that is malformed, and one that is not.
abbrev mixed : Bytes
mixed = b'x' ∷ b',' ∷ b'h' ∷ b'3' ∷ b'=' ∷ 0x22 ∷ b':' ∷ b'4' ∷ 0x22 ∷ []

parse_alt_svc_total_example :
    (a : AltSvc) × (parse_alt_svc mixed ≡ some a) × All IsService a.services
parse_alt_svc_total_example = parse_alt_svc_total mixed

abbrev follower : Client
follower = record { follow_alt_svc = true; alternative = none }

alt_svc-advertise_example :
    (c' : Client) × (on_alt_svc follower 1000 (advertise true 8443 (pos 60)) ≡ some c')
    × (alt_svc c' 5000 ≡ (
        if ltb 5000 (1000 + 60 * nanos)
        then some (record { host = []; port = print_u64 8443; expires = pos (1000 + 60 * nanos) })
        else none))
alt_svc-advertise_example =
    alt_svc-advertise follower 1000 8443 60 5000 refl (omega arith) (omega arith)

abbrev for_ages : AltService
for_ages = record literal { max_age = pos 10000000000 }

for_ages-IsRenderable : IsRenderable for_ages
unfolding has_colon starts_with is_port is_digit
for_ages-IsRenderable = record {
  bytes = ground arith;
  has_protocol = refl;
  has_host = ground arith;
  has_port = refl;
  lifetime = refl;
  in_range = omega arith;
}

on_alt_svc-overflow_example : on_alt_svc follower 1000 (render (for_ages ∷ [])) ≡ none
unfolding anyhttp.AltSvc.Service.find_service
on_alt_svc-overflow_example =
    on_alt_svc-overflow follower 1000 10000000000 (for_ages ∷ []) for_ages refl
      (for_ages-IsRenderable, tt) refl refl (omega arith) (omega arith)

-- "[::1]junk:80"
split_authority-between_example :
    split_authority (
      b'[' ∷ (b':' ∷ b':' ∷ b'1' ∷ [])
      ++ ((b']' ∷ (b'j' ∷ b'u' ∷ b'n' ∷ []) ++ b'k' ∷ []) ++ b':' ∷ b'8' ∷ b'0' ∷ []))
    ≡ some ((b':' ∷ b':' ∷ b'1' ∷ []) ++ b']' ∷ b'j' ∷ b'u' ∷ b'n' ∷ [], b'8' ∷ b'0' ∷ [])
split_authority-between_example =
    split_authority-between (b':' ∷ b':' ∷ b'1' ∷ []) (b'j' ∷ b'u' ∷ b'n' ∷ []) (b'8' ∷ b'0' ∷ [])
      b'k' (ground arith) (ground arith) (unfold is_port in refl)
