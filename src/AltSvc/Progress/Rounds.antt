-- ===== src/AltSvc/Progress/Rounds.antt =====
-- `parse_alt_svc` of src/alt_svc.cpp ends, and returns services that are well-formed.
use anyhttp.Prelude.{
  ℕ, zero, suc, ◌≤◌, ◌<◌, ◌≡◌, refl, subst, inl, inr, true, false, Option, none, some, List, [],
  ◌∷◌, Bytes, length, All, bytes_eq, ◌==◌, arith, Bool-cases,
}
use anyhttp.AltSvc.Cursor.{Outcome, value, failed, spent, skip_ows, consume, skip_element}
use anyhttp.AltSvc.Service.{AltService, AltSvc}
use anyhttp.AltSvc.Value.{parse_alt_value}
use anyhttp.AltSvc.Field.{
  clear_token, trim, behind, element, at_element, Round, done, next, starved, round, add,
  parse_loop, parse_alt_svc,
}
use anyhttp.AltSvc.Progress.Members.{Yields, skip_ows-le, skip_element-lt}
use anyhttp.AltSvc.Progress.Values.{IsService, parse_alt_value-Yields}

-- A round reads on, and keeps a service only if it is one.
abbrev Advances : ℕ → Round → Type 0
Advances n done = Unit {0}
Advances n starved = ⊥
Advances n (next none r) = length r < n
Advances n (next (some s) r) = IsService s × (length r < n)

behind-Advances :
    (n : ℕ) (service : AltService) (s : Bytes)
    → IsService service
    → length s ≤ n
    → 0 < n
    → Advances n (behind service s)
unfolding behind
behind-Advances n service [] v h p = (v, p)
behind-Advances n service (c ∷ s) v h p =
    unfold consume in
    (elim (Bool-cases (c == b',')) [
      | inl e ↦ rw (e, consume) (v, omega arith)
      | inr e ↦ rw (e, consume) (v, skip_element-lt n (c ∷ s) h p)
    ])

element_outcome :
    (n : ℕ) (o : Outcome AltService)
    → Yields IsService n o
    → 0 < n
    → Advances n (elim o [
      | value service r ↦ behind service (skip_ows r)
      | failed r ↦ next none (skip_element r)
      | spent ↦ starved
    ])
element_outcome n (value service r) y p =
    behind-Advances n service (skip_ows r) y.0 (omega (arith, skip_ows-le r)) p
element_outcome n (failed r) y p = skip_element-lt n r y p
element_outcome n spent y p = y

element-Advances : (n : ℕ) (s : Bytes) → length s ≤ n → 0 < n → Advances n (element s)
unfolding element
element-Advances n s h p = element_outcome n (parse_alt_value s) (parse_alt_value-Yields n s h) p

at_element-Advances : (s : Bytes) → Advances (length s) (at_element s)
unfolding at_element consume
at_element-Advances [] = tt
at_element-Advances (c ∷ s) = elim (Bool-cases (c == b',')) [
  | inl e ↦ rw (e, consume) (omega arith)
  | inr e ↦ rw (e, consume) (element-Advances (length (c ∷ s)) (c ∷ s) (omega arith) (omega arith))
]

Advances-mono : (m n : ℕ) (r : Round) → m ≤ n → Advances m r → Advances n r
Advances-mono m n done h a = tt
Advances-mono m n starved h a = a
Advances-mono m n (next none r) h a = omega arith
Advances-mono m n (next (some s) r) h a = (a.0, omega arith)

round-Advances : (s : Bytes) → Advances (length s) (round s)
unfolding round
round-Advances s =
    Advances-mono _ _ (at_element (skip_ows s)) (skip_ows-le s) (at_element-Advances (skip_ows s))

-- The loop returns services, and they are well-formed.
abbrev Returns : Option (List AltService) → Type 0
Returns none = ⊥
Returns (some services) = All IsService services

collect :
    (service : Option AltService) (o : Option (List AltService))
    → Returns o
    → ((s : AltService) → service ≡ some s → IsService s)
    → Returns (elim o [ none ↦ none | some services ↦ some (add service services) ])
collect service none r k = r
collect none (some services) r k = r
collect (some s) (some services) r k = (k s refl, r)

after_round :
    (fuel n : ℕ) (r : Round)
    → Advances n r
    → ((s : Bytes) → length s < n → Returns (parse_loop fuel s))
    → Returns (elim r [
      | done ↦ some []
      | starved ↦ none
      | next service r ↦ elim (parse_loop fuel r) [
        | none ↦ none
        | some services ↦ some (add service services)
      ]
    ])
after_round fuel n done a k = tt
after_round fuel n starved a k = a
after_round fuel n (next none r) a k =
    collect none (parse_loop fuel r) (k r a) (λ s e. absurd (ground arith))
after_round fuel n (next (some s) r) a k =
    collect (some s) (parse_loop fuel r) (k r a.1) (λ t e. subst IsService (cc) a.0)

pub parse_loop-Returns : (fuel : ℕ) (s : Bytes) → length s < fuel → Returns (parse_loop fuel s)
unfolding parse_loop
parse_loop-Returns zero s h = absurd (omega arith)
parse_loop-Returns (suc fuel) s h =
    after_round fuel (length s) (round s) (round-Advances s)
      (λ r l. parse_loop-Returns fuel r (omega arith))

Returns-some :
    (o : Option (List AltService))
    → Returns o
    → (l : List AltService) × (o ≡ some l) × All IsService l
Returns-some none r = absurd r
Returns-some (some l) r = (l, refl, r)

-- For every field value the parser returns a result, and each service of it has a protocol and a
-- decimal port, neither of them empty.
pub parse_alt_svc_total :
    (s : Bytes) → (a : AltSvc) × (parse_alt_svc s ≡ some a) × All IsService a.services
unfolding parse_alt_svc
parse_alt_svc_total s = elim (Bool-cases (bytes_eq (trim s) clear_token)) [
  | inl e ↦ (record { clear = true; services = [] }, rw (e, parse_alt_svc) refl, tt)
  | inr e ↦
      let (l, found, valid) =
        Returns-some _ (parse_loop-Returns (suc (length s)) s (omega arith)) in
      (record { clear = false; services = l }, rw (e, found, parse_alt_svc) refl, valid)
]
