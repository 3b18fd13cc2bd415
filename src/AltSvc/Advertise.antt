-- ===== src/AltSvc/Advertise.antt =====
-- From the server's advertisement (the constructor of `Server::Impl`, src/server_impl.cpp) to what
-- the client remembers of it (src/client_impl.cpp).
use anyhttp.Prelude.{
  ℕ, suc, ◌+◌, ◌*◌, ◌<◌, ◌≤◌, ◌≡◌, refl, ap, ◌∙◌, Bool, true, false, ◌&&◌, none, some, List, [],
  ◌∷◌, ◌++◌, Bytes, ltb, if◌then◌else◌, all, All, ℤ, pos, negsuc, i64_mod, arith, lt→ltb,
  Bool-cases, inl, inr, ◌⊎◌,
}
use anyhttp.AltSvc.Chars.{is_digit, is_tchar}
use anyhttp.AltSvc.Encoding.{pct_encode}
use anyhttp.AltSvc.Authority.{is_port, starts_with}
use anyhttp.AltSvc.Service.{AltService, AltSvc, print_u64, print_u64-digits, find_service}
use anyhttp.AltSvc.Field.{parse_alt_svc, find}
use anyhttp.AltSvc.Render.{
  escaped, has_colon, authority, render_persist, render_params, render_service, render,
  IsRenderable,
}
use anyhttp.AltSvc.RoundTrip.{parse_alt_svc-render}
use anyhttp.AltSvc.Store.{Client, nanos, h3, take_in, on_alt_svc, alt_svc}

-- `config_.alt_svc_max_age > 0s`
is_positive : ℤ → Bool
is_positive (pos n) = ltb 0 n
is_positive (negsuc n) = false

magnitude : ℤ → ℕ
magnitude (pos n) = n
magnitude (negsuc n) = suc n

-- std::format("h3=\":{}\"; ma={}", tcp_ep.port(), config_.alt_svc_max_age.count())
unfoldable pub advertise : Bool → ℕ → ℤ → Bytes
unfolding is_positive magnitude
advertise quic port max_age =
    if quic && is_positive max_age
    then b'h' ∷ b'3' ∷ b'=' ∷ 0x22 ∷ b':' ∷ print_u64 port
      ++ (0x22 ∷ b';' ∷ 0x20 ∷ b'm' ∷ b'a' ∷ b'=' ∷ print_u64 (magnitude max_age))
    else []

abbrev pub advertised : ℕ → ℕ → AltService
advertised port age = record {
  protocol = h3;
  host = [];
  port = print_u64 port;
  max_age = pos age;
  persist = false;
}

escaped-digits : (s : Bytes) → all is_digit s ≡ true → escaped s ≡ s
unfolding escaped is_digit
escaped-digits [] h = refl
escaped-digits (c ∷ s) h = ground (arith, escaped-digits s)

append-nil_of : (s : Bytes) → s ++ [] ≡ s
append-nil_of [] = refl
append-nil_of (c ∷ s) = ap (◌∷◌ c) (append-nil_of s)

advertise-render :
    (port age : ℕ) → 0 < age → advertise true port (pos age) ≡ render (advertised port age ∷ [])
unfolding advertise render render_service render_params render_persist pct_encode is_tchar authority
advertise-render port age h =
    rw
      (
        lt→ltb 0 age h,
        colon (print_u64 port) (print_u64-digits port).1,
        append-nil_of (print_u64 age),
      )
      refl
  where
    colon : (s : Bytes) → all is_digit s ≡ true → escaped (b':' ∷ s) ≡ b':' ∷ s
    colon s h = unfold escaped in ap (◌∷◌ b':') (escaped-digits s h)

advertised-IsRenderable : (port age : ℕ) → age < i64_mod → IsRenderable (advertised port age)
advertised-IsRenderable port age h = record {
  bytes = (omega arith, (omega arith, tt));
  has_protocol = refl;
  has_host = unfold has_colon starts_with in refl;
  has_port = unfold is_port in rw ((print_u64-digits port).0, (print_u64-digits port).1) refl;
  lifetime = refl;
  in_range = h;
}

find-advertised :
    (port age : ℕ)
    → find h3 (record { clear = false; services = advertised port age ∷ [] })
      ≡ some (advertised port age)
unfolding find
find-advertised port age = refl

-- What a client that follows advertisements remembers of this one.
abbrev remembered : Client → ℕ → ℕ → ℕ → Client
remembered c port now age = record c {
  alternative =
      some (record { host = []; port = print_u64 port; expires = pos (now + age * nanos) });
}

on_alt_svc-parsed :
    (c : Client) (now : ℕ) (field_value : Bytes) (a : AltSvc)
    → c.follow_alt_svc ≡ true
    → parse_alt_svc field_value ≡ some a
    → on_alt_svc c now field_value ≡ take_in c now a
unfolding on_alt_svc
on_alt_svc-parsed c now field_value a f e = ground arith

on_alt_svc-advertise :
    (c : Client) (now port age : ℕ)
    → c.follow_alt_svc ≡ true
    → 0 < age
    → now + age * nanos < i64_mod
    → on_alt_svc c now (advertise true port (pos age)) ≡ some (remembered c port now age)
on_alt_svc-advertise c now port age f h b =
    ap (on_alt_svc c now) (advertise-render port age h)
    ∙ on_alt_svc-parsed c now _ _ f (
        parse_alt_svc-render (advertised port age ∷ [])
          (advertised-IsRenderable port age (omega arith), tt))
    ∙ (unfold take_in in ground (arith))

-- A server that advertises an HTTP/3 endpoint is found there: a client that follows "Alt-Svc" has
-- the host of the origin and the server's port for exactly as long as the advertised lifetime,
-- provided that lifetime does not take the clock out of its 64 bits.
pub alt_svc-advertise :
    (c : Client) (now port age later : ℕ)
    → c.follow_alt_svc ≡ true
    → 0 < age
    → now + age * nanos < i64_mod
    → (c' : Client) × (on_alt_svc c now (advertise true port (pos age)) ≡ some c')
      × (alt_svc c' later ≡ (
          if ltb later (now + age * nanos)
          then some (record { host = []; port = print_u64 port; expires = pos (now + age * nanos) })
          else none))
alt_svc-advertise c now port age later f h b =
    (remembered c port now age, on_alt_svc-advertise c now port age f h b, lookup)
  where
    lookup : alt_svc (remembered c port now age) later ≡ (
        if ltb later (now + age * nanos)
        then some (record { host = []; port = print_u64 port; expires = pos (now + age * nanos) })
        else none)
    lookup = unfold alt_svc in ground arith

take_in-forgets :
    (c : Client) (now : ℕ) (a : AltSvc)
    → ((a.clear ≡ true) ⊎ ((s : AltService) × (find h3 a ≡ some s) × (s.max_age ≡ pos 0)))
    → take_in c now a ≡ some (record c { alternative = none })
unfolding take_in
take_in-forgets c now a (inl h) = rw h refl
take_in-forgets c now a (inr (s, e, z)) = ground arith

-- "clear", and an HTTP/3 alternative whose lifetime is zero, make a client that follows
-- advertisements forget what it knew, whatever else the field value has.
pub on_alt_svc-forgets :
    (c : Client) (now later : ℕ) (field_value : Bytes) (a : AltSvc)
    → c.follow_alt_svc ≡ true
    → parse_alt_svc field_value ≡ some a
    → ((a.clear ≡ true) ⊎ ((s : AltService) × (find h3 a ≡ some s) × (s.max_age ≡ pos 0)))
    → (c' : Client) × (on_alt_svc c now field_value ≡ some c') × (alt_svc c' later ≡ none)
on_alt_svc-forgets c now later field_value a f e h = (
  record c { alternative = none },
  on_alt_svc-parsed c now field_value a f e ∙ take_in-forgets c now a h,
  (unfold alt_svc in refl),
)

-- An advertisement without an HTTP/3 alternative leaves the client as it is, and so does any
-- advertisement to a client that does not follow them.
pub on_alt_svc-keeps :
    (c : Client) (now : ℕ) (field_value : Bytes) (a : AltSvc)
    → parse_alt_svc field_value ≡ some a
    → ((c.follow_alt_svc ≡ false) ⊎ ((a.clear ≡ false) × (find h3 a ≡ none)))
    → on_alt_svc c now field_value ≡ some c
on_alt_svc-keeps c now field_value a e (inl h) = unfold on_alt_svc in rw h refl
on_alt_svc-keeps c now field_value a e (inr (h, n)) = elim (Bool-cases c.follow_alt_svc) [
  | inl f ↦ on_alt_svc-parsed c now field_value a f e ∙ kept
  | inr f ↦ unfold on_alt_svc in rw f refl
]
  where
    kept : take_in c now a ≡ some c
    kept = unfold take_in in ground arith

take_in-overflow :
    (c : Client) (now n : ℕ) (a : AltSvc) (s : AltService)
    → a.clear ≡ false
    → find h3 a ≡ some s
    → s.max_age ≡ pos n
    → i64_mod ≤ now + n * nanos
    → 0 < n
    → take_in c now a ≡ none
unfolding take_in
take_in-overflow c now n a s k e m h z = ground arith

-- A lifetime that takes the clock out of 64-bit nanoseconds, some 292 years from its epoch, is
-- added to it all the same: every such advertisement of HTTP/3 leads to a sum that is undefined.
pub on_alt_svc-overflow :
    (c : Client) (now n : ℕ) (ss : List AltService) (s : AltService)
    → c.follow_alt_svc ≡ true
    → All IsRenderable ss
    → find_service h3 ss ≡ some s
    → s.max_age ≡ pos n
    → 0 < n
    → i64_mod ≤ now + n * nanos
    → on_alt_svc c now (render ss) ≡ none
on_alt_svc-overflow c now n ss s f r e m z h =
    on_alt_svc-parsed c now _ _ f (parse_alt_svc-render ss r)
    ∙ (take_in-overflow c now n (record { clear = false; services = ss }) s refl (unfold find in e)
        m h z)
