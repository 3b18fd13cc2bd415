-- ===== src/AltSvc/Field.antt =====
-- `parse_alt_svc` and `AltSvc::find` of src/alt_svc.cpp: the whole field value.
use mathlib.Core.List.{reverse}
use anyhttp.Prelude.{
  ℕ, zero, suc, true, false, Option, none, some, List, [], ◌∷◌, Bytes, length, bytes_eq,
  if◌then◌else◌,
}
use anyhttp.AltSvc.Cursor.{value, failed, spent, eof, skip_ows, consume, skip_element}
use anyhttp.AltSvc.Service.{AltService, AltSvc, find_service}
use anyhttp.AltSvc.Value.{parse_alt_value}

-- What one round of the loop does: it ends, or goes on with the rest, maybe with a service more.
pub data Round : Type 0 where
  done : Round
  next : Option AltService → Bytes → Round
  starved : Round

-- Behind an alternative that could be read: a comma or the end, or the rest of the element goes.
unfoldable pub behind : AltService → Bytes → Round
behind service s = if eof s then next (some service) s else elim (consume b',' s) [
  | value _ r ↦ next (some service) r
  | failed r ↦ next (some service) (skip_element r)
  | spent ↦ starved
]

unfoldable pub element : Bytes → Round
element s = elim (parse_alt_value s) [
  | value service r ↦ behind service (skip_ows r)
  | failed r ↦ next none (skip_element r)
  | spent ↦ starved
]

unfoldable pub at_element : Bytes → Round
at_element s =
    if eof s
    then done
    else elim (consume b',' s) [ value _ r ↦ next none r | failed r ↦ element r | spent ↦ starved ]

unfoldable pub round : Bytes → Round
unfolding at_element element behind skip_ows consume skip_element parse_alt_value
round s = at_element (skip_ows s)

abbrev pub add : Option AltService → List AltService → List AltService
add none ss = ss
add (some s) ss = s ∷ ss

-- `for (;;)`; `none` means that the fuel ran out. The services come in the order of the text.
unfoldable pub parse_loop : ℕ → Bytes → Option (List AltService)
unfolding round
parse_loop zero s = none
parse_loop (suc fuel) s = elim (round s) [
  | done ↦ some []
  | starved ↦ none
  | next service r ↦ elim (parse_loop fuel r) [
    | none ↦ none
    | some services ↦ some (add service services)
  ]
]

abbrev pub clear_token : Bytes
clear_token = b'c' ∷ b'l' ∷ b'e' ∷ b'a' ∷ b'r' ∷ []

unfoldable pub trim : Bytes → Bytes
unfolding skip_ows
trim s = reverse (skip_ows (reverse (skip_ows s)))

unfoldable pub parse_alt_svc : Bytes → Option AltSvc
unfolding trim bytes_eq parse_loop
parse_alt_svc s =
    if bytes_eq (trim s) clear_token
    then some (record { clear = true; services = [] })
    else elim (parse_loop (suc (length s)) s) [
      | none ↦ none
      | some services ↦ some (record { clear = false; services = services })
    ]

unfoldable pub find : Bytes → AltSvc → Option AltService
unfolding find_service
find protocol a = find_service protocol a.services
