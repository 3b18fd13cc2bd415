-- ===== src/AltSvc/RoundTrip.antt =====
-- A field value that is rendered is parsed back, whole.
use mathlib.Core.List.{reverse, reverse-cons}
use anyhttp.Prelude.{
  ℕ, zero, suc, ◌<◌, ◌≤◌, ◌≡◌, ◌≢◌, refl, sym, ap, ◌∙◌, Bool, true, false, some, List, [], ◌∷◌,
  ◌++◌, Bytes, length, length-append, All, bytes_eq, bytes_eq_sound, ◌==◌, arith, Bool-cases, inl,
  inr,
}
use anyhttp.AltSvc.Chars.{is_tchar, is_ows}
use anyhttp.AltSvc.Cursor.{skip_ows, consume}
use anyhttp.AltSvc.Encoding.{pct_encode}
use anyhttp.AltSvc.Authority.{Lacks}
use anyhttp.AltSvc.Service.{AltService, print_u64}
use anyhttp.AltSvc.Render.{
  escaped, authority, seconds, render_persist, render_params, render_service, render, IsRenderable,
}
use anyhttp.AltSvc.ReadBack.{Ends, skip_ows-tchar, skip_ows-space}
use anyhttp.AltSvc.ReadValue.{parse_alt_value-render, pct_encode-front}
use anyhttp.AltSvc.Field.{
  next, round, at_element, element, behind, parse_loop, parse_alt_svc, trim, clear_token,
}

-- The text behind the comma.
abbrev after_comma : Bytes → Bytes
after_comma [] = []
after_comma (c ∷ s) = s

behind-Ends :
    (s : AltService) (rest : Bytes)
    → Ends rest
    → behind s (skip_ows rest) ≡ next (some s) (after_comma rest)
unfolding behind skip_ows consume is_ows
behind-Ends s [] e = refl
behind-Ends s (c ∷ rest) e = rw e refl

element-render :
    (s : AltService) (rest : Bytes)
    → IsRenderable s
    → Ends rest
    → element (render_service s rest) ≡ next (some s) (after_comma rest)
unfolding element
element-render s rest r e = rw (parse_alt_value-render s rest r e, element) (behind-Ends s rest e)

at_element-tchar : (c : ℕ) (t : Bytes) → is_tchar c ≡ true → at_element (c ∷ t) ≡ element (c ∷ t)
unfolding at_element consume
at_element-tchar c t h = rw (not_comma c h) refl
  where
    not_comma : (d : ℕ) → is_tchar d ≡ true → (d == b',') ≡ false
    not_comma d h = unfold is_tchar in ground arith

render_service-front :
    (s : AltService) (rest : Bytes)
    → IsRenderable s
    → (c : ℕ) × (t : Bytes) × (render_service s rest ≡ c ∷ t) × (is_tchar c ≡ true)
unfolding render_service
render_service-front s rest r =
    let (c, t, e, h) = pct_encode-front s.protocol r.bytes r.has_protocol in
    let body = b'=' ∷ 0x22 ∷ escaped (authority s.host s.port) ++ (0x22 ∷ render_params s rest) in
    (c, t ++ body, ap (λ p. p ++ body) e, h)

-- One round reads one alternative, with or without a space in front.
round-render :
    (s : AltService) (rest : Bytes)
    → IsRenderable s
    → Ends rest
    → (round (render_service s rest) ≡ next (some s) (after_comma rest))
      × (round (0x20 ∷ render_service s rest) ≡ next (some s) (after_comma rest))
unfolding round
round-render s rest r e =
    let (c, t, front, h) = render_service-front s rest r in
    let read : at_element (c ∷ t) ≡ next (some s) (after_comma rest) =
      at_element-tchar c t h ∙ ap element (sym front) ∙ element-render s rest r e in
    (
      ap (λ x. at_element (skip_ows x)) front ∙ ap at_element (skip_ows-tchar c t h) ∙ read,
      ap (λ x. at_element (skip_ows (0x20 ∷ x))) front
          ∙ ap at_element (skip_ows-space c t h)
          ∙ read,
    )

parse_loop-next :
    (fuel : ℕ) (s r : Bytes) (service : AltService) (services : List AltService)
    → round s ≡ next (some service) r
    → parse_loop fuel r ≡ some services
    → parse_loop (suc fuel) s ≡ some (service ∷ services)
parse_loop-next fuel s r service services e f = unfold parse_loop in rw (e, f, parse_loop) refl

parse_loop-nil : (fuel : ℕ) → parse_loop (suc fuel) [] ≡ some []
parse_loop-nil fuel = unfold parse_loop in refl

parse_loop-render :
    (fuel : ℕ) (ss : List AltService)
    → length ss < fuel
    → All IsRenderable ss
    → (parse_loop fuel (render ss) ≡ some ss)
      × (ss ≢ [] → parse_loop fuel (0x20 ∷ render ss) ≡ some ss)
unfolding render
parse_loop-render zero ss h r = absurd (omega arith)
parse_loop-render (suc fuel) [] h r = (parse_loop-nil fuel, λ ne. absurd (ne refl))
parse_loop-render (suc zero) (s ∷ []) h r = absurd (omega arith)
parse_loop-render (suc (suc fuel)) (s ∷ []) h r = (
  parse_loop-next (suc fuel) _ [] s [] (round-render s [] r.0 tt).0 (parse_loop-nil fuel),
  λ _. parse_loop-next (suc fuel) _ [] s [] (round-render s [] r.0 tt).1 (parse_loop-nil fuel),
)
parse_loop-render (suc fuel) (s ∷ t ∷ ss) h r =
    let rest = b',' ∷ 0x20 ∷ render (t ∷ ss) in
    let more = (parse_loop-render fuel (t ∷ ss) (omega arith) r.1).1 (λ e. cc) in
    (
      parse_loop-next fuel _ _ s (t ∷ ss) (round-render s rest r.0 refl).0 more,
      λ _. parse_loop-next fuel _ _ s (t ∷ ss) (round-render s rest r.0 refl).1 more,
    )

Lacks-skip_ows : (s : Bytes) → Lacks b'=' (skip_ows s) → Lacks b'=' s
unfolding skip_ows is_ows
Lacks-skip_ows [] h = refl
Lacks-skip_ows (c ∷ s) h = ground (arith, Lacks-skip_ows s)

Lacks-append : (s t : Bytes) → Lacks b'=' (s ++ t) → (Lacks b'=' s) × (Lacks b'=' t)
Lacks-append [] t h = (refl, h)
Lacks-append (c ∷ s) t h = ground (arith, Lacks-append s t)

Lacks-reverse : (s : Bytes) → Lacks b'=' (reverse s) → Lacks b'=' s
Lacks-reverse [] h = refl
Lacks-reverse (c ∷ s) h =
    let parts = Lacks-append (reverse s) (c ∷ []) (rw (reverse-cons c s) at h) in
    ground (arith, parts, Lacks-reverse s parts.0)

Lacks-trim : (s : Bytes) → Lacks b'=' (trim s) → Lacks b'=' s
unfolding trim
Lacks-trim s h = Lacks-skip_ows s (
    Lacks-reverse (skip_ows s)
      (Lacks-skip_ows (reverse (skip_ows s)) (Lacks-reverse (skip_ows (reverse (skip_ows s))) h)))

render-has-equals : (s : AltService) (ss : List AltService) → Lacks b'=' (render (s ∷ ss)) → ⊥
unfolding render render_service
render-has-equals s [] h = cc (Lacks-append (pct_encode s.protocol) _ h).1
render-has-equals s (t ∷ ss) h = cc (Lacks-append (pct_encode s.protocol) _ h).1

trim-render : (ss : List AltService) → bytes_eq (trim (render ss)) clear_token ≡ false
trim-render [] = unfold render trim bytes_eq skip_ows in refl
trim-render (s ∷ ss) = elim (Bool-cases (bytes_eq (trim (render (s ∷ ss))) clear_token)) [
  | inl e ↦
      let same = bytes_eq_sound (trim (render (s ∷ ss))) clear_token e in
      absurd (render-has-equals s ss (Lacks-trim (render (s ∷ ss)) (rw same refl)))
  | inr e ↦ e
]

length-render_persist : (b : Bool) (rest : Bytes) → length rest ≤ length (render_persist b rest)
unfolding render_persist
length-render_persist true rest = omega arith
length-render_persist false rest = omega arith

length-render_service :
    (s : AltService) (rest : Bytes) → length rest < length (render_service s rest)
unfolding render_service render_params
length-render_service s rest = omega (
  arith,
  length-append (pct_encode s.protocol)
      (b'=' ∷ 0x22 ∷ escaped (authority s.host s.port) ++ (0x22 ∷ render_params s rest)),
  length-append (escaped (authority s.host s.port)) (0x22 ∷ render_params s rest),
  length-append (print_u64 (seconds s.max_age)) (render_persist s.persist rest),
  length-render_persist s.persist rest,
)

length-render : (ss : List AltService) → length ss ≤ length (render ss)
unfolding render
length-render [] = omega arith
length-render (s ∷ []) = omega (arith, length-render_service s [])
length-render (s ∷ t ∷ ss) =
    omega (arith, length-render_service s (b',' ∷ 0x20 ∷ render (t ∷ ss)), length-render (t ∷ ss))

-- Every list of alternatives that can be advertised is parsed back from its text: in order, with
-- every parameter, and never mistaken for "clear".
pub parse_alt_svc-render :
    (ss : List AltService)
    → All IsRenderable ss
    → parse_alt_svc (render ss) ≡ some (record { clear = false; services = ss })
unfolding parse_alt_svc
parse_alt_svc-render ss r =
    rw
      (
        trim-render ss,
        (parse_loop-render (suc (length (render ss))) ss (omega (arith, length-render ss)) r).0,
      )
      refl
