-- ===== src/AltSvc/ReadValue.antt =====
-- Reading back one alternative that Render writes, with anything that may follow it.
use anyhttp.Prelude.{
  ℕ, suc, ◌<◌, ◌≡◌, refl, sym, ap, ◌∙◌, inl, inr, Bool, true, false, some, [], ◌∷◌, ◌++◌, Bytes,
  length, is_empty, All, all, arith, Bool-cases, pos,
}
use anyhttp.AltSvc.Chars.{is_tchar, is_digit}
use anyhttp.AltSvc.Encoding.{pct_encode, pct_encode-is_tchar, pct_encode-ne, pct_decode-pct_encode}
use anyhttp.AltSvc.Cursor.{Parser, value, ◌>>=◌, lift}
use anyhttp.AltSvc.Authority.{
  is_port, starts_with, split_authority, split_authority-host, split_authority-literal,
}
use anyhttp.AltSvc.Service.{AltService, print_u64, print_u64-digits}
use anyhttp.AltSvc.Value.{Params, apply_param, params, make_service, parse_alt_value, persist_name}
use anyhttp.AltSvc.Render.{
  escaped, has_colon, authority, seconds, render_persist, render_params, render_service, IsHost,
  IsRenderable,
}
use anyhttp.AltSvc.ReadBack.{
  Ends, Stops, split_token-append, quoted_loop-escaped, params-param, params-Ends, apply_param-ma,
  bind-value,
}

digits-is_tchar : (s : Bytes) → all is_digit s ≡ true → All (λ c. is_tchar c ≡ true) s
digits-is_tchar [] h = tt
digits-is_tchar (c ∷ s) h = (digit c (ground arith), digits-is_tchar s (ground arith))
  where
    digit : (d : ℕ) → is_digit d ≡ true → is_tchar d ≡ true
    digit d h = unfold is_tchar in ground arith

Ends-Stops : (s : Bytes) → Ends s → Stops s
Ends-Stops [] h = tt
Ends-Stops (c ∷ s) h = rw h (unfold is_tchar in refl)

Stops-persist : (b : Bool) (rest : Bytes) → Ends rest → Stops (render_persist b rest)
unfolding render_persist
Stops-persist true rest h = unfold is_tchar in refl
Stops-persist false rest h = Ends-Stops rest h

apply_param-persist :
    (p : Params)
    → p.have_persist ≡ false
    → apply_param p persist_name (b'1' ∷ [])
      ≡ record p { service = record p.service { persist = true }; have_persist = true }
unfolding apply_param
apply_param-persist p h = rw h refl

persist-read :
    (b : Bool) (fuel : ℕ) (p : Params) (rest : Bytes)
    → p.have_persist ≡ false
    → p.service.persist ≡ false
    → Ends rest
    → params (suc (suc fuel)) p (render_persist b rest)
      ≡ value (record p.service { persist = b }) rest
unfolding render_persist
persist-read true fuel p rest hp sp e =
    params-param (suc fuel) p b'p' (b'e' ∷ b'r' ∷ b's' ∷ b'i' ∷ b's' ∷ b't' ∷ []) (b'1' ∷ []) rest
      tchars (unfold is_tchar in (refl, tt)) refl (Ends-Stops rest e)
    ∙ ap (λ q. params (suc fuel) q rest) (apply_param-persist p hp)
    ∙ params-Ends fuel _ rest e
  where
    tchars : All (λ c. is_tchar c ≡ true) persist_name
    tchars = unfold is_tchar in (refl, (refl, (refl, (refl, (refl, (refl, (refl, tt)))))))
persist-read false fuel p rest hp sp e =
    params-Ends (suc fuel) p rest e
    ∙ ap (λ s. value s rest) (λ i. record p.service { persist = sp i })

-- The service as it is before its parameters are read.
abbrev bare : AltService → AltService
bare s = record s { max_age = pos 86400; persist = false }

params-render_params :
    (fuel : ℕ) (s : AltService) (rest : Bytes)
    → IsRenderable s
    → Ends rest
    → params
        (suc (suc (suc fuel)))
        (record { service = bare s; have_max_age = false; have_persist = false })
        (render_params s rest)
      ≡ value s rest
unfolding render_params
params-render_params fuel s rest r e =
    params-param (suc (suc fuel)) _ b'm' (b'a' ∷ []) (print_u64 (seconds s.max_age))
      (render_persist s.persist rest) (unfold is_tchar in (refl, (refl, tt)))
      (digits-is_tchar _ (print_u64-digits (seconds s.max_age)).1)
      (print_u64-digits (seconds s.max_age)).0 (Stops-persist s.persist rest e)
    ∙ ap (λ q. params (suc (suc fuel)) q (render_persist s.persist rest))
        (apply_param-ma (bare s) (seconds s.max_age) r.in_range)
    ∙ persist-read s.persist fuel _ rest refl refl e
    ∙ ap (λ t. value t rest) (λ i. record s { max_age = sym r.lifetime i })

authority-read :
    (host port : Bytes)
    → IsHost host
    → is_port port ≡ true
    → split_authority (authority host port) ≡ some (host, port)
unfolding starts_with
authority-read host port h p = elim (Bool-cases (has_colon host)) [
  | inl e ↦ unfold authority in rw (e, authority) (split_authority-literal host port (rw e at h) p)
  | inr e ↦
      unfold authority in
      rw (e, authority) (split_authority-host host port (front host (rw e at h)) p)
]
  where
    front :
        (h : Bytes)
        → starts_with b'[' (h ++ b':' ∷ []) ≡ false
        → starts_with b'[' (h ++ b':' ∷ port) ≡ false
    front [] f = f
    front (c ∷ h) f = f

make_service-render :
    (s : AltService)
    → IsRenderable s
    → make_service (pct_encode s.protocol) (s.host, s.port) ≡ bare s
unfolding make_service
make_service-render s r = λ i. record {
  protocol = pct_decode-pct_encode s.protocol r.bytes i;
  host = s.host;
  port = s.port;
  max_age = pos 86400;
  persist = false;
}

pub pct_encode-front :
    (p : Bytes)
    → All (λ c. c < 256) p
    → is_empty p ≡ false
    → (c : ℕ) × (t : Bytes) × (pct_encode p ≡ c ∷ t) × (is_tchar c ≡ true)
pct_encode-front p h n = front (pct_encode p) refl (pct_encode-is_tchar p h) (pct_encode-ne p n)
  where
    front :
        (q : Bytes)
        → pct_encode p ≡ q
        → All (λ c. is_tchar c ≡ true) q
        → is_empty q ≡ false
        → (c : ℕ) × (t : Bytes) × (pct_encode p ≡ c ∷ t) × (is_tchar c ≡ true)
    front [] e a n = cc
    front (c ∷ t) e a n = (c, t, e, a.0)

-- The members behind the quoted string, for a protocol that has been read.
target_params : Bytes → Bytes × Bytes → Parser AltService
target_params protocol target s =
    params (suc (length s))
      (record {
        service = make_service protocol target;
        have_max_age = false;
        have_persist = false;
      })
      s

authority_params : Bytes → Bytes → Parser AltService
authority_params protocol a = do target ← lift (split_authority a); target_params protocol target

target-read :
    (s : AltService) (rest : Bytes)
    → IsRenderable s
    → Ends rest
    → target_params (pct_encode s.protocol) (s.host, s.port) (render_params s rest) ≡ value s rest
unfolding target_params
target-read s rest r e =
    rw (make_service-render s r) (unfold render_params in params-render_params _ s rest r e)

authority_params-read :
    (s : AltService) (rest : Bytes)
    → IsRenderable s
    → Ends rest
    → authority_params (pct_encode s.protocol) (authority s.host s.port) (render_params s rest)
      ≡ value s rest
unfolding authority_params
authority_params-read s rest r e =
    bind-value (target_params (pct_encode s.protocol)) _
      (ap (λ o. lift o (render_params s rest)) (authority-read s.host s.port r.has_host r.has_port))
    ∙ target-read s rest r e

-- One alternative, with its parameters and anything that may follow it.
pub parse_alt_value-render :
    (s : AltService) (rest : Bytes)
    → IsRenderable s
    → Ends rest
    → parse_alt_value (render_service s rest) ≡ value s rest
unfolding parse_alt_value render_service
parse_alt_value-render s rest r e =
    rw
      (
        split_token-append (pct_encode s.protocol)
            (b'=' ∷ 0x22 ∷ escaped (authority s.host s.port) ++ (0x22 ∷ render_params s rest))
            (pct_encode-is_tchar s.protocol r.bytes) (unfold is_tchar in refl),
        pct_encode-ne s.protocol r.has_protocol,
      )
      (unfold authority_params target_params in
        (bind-value (authority_params (pct_encode s.protocol)) _
          (quoted_loop-escaped [] (authority s.host s.port) (render_params s rest)))
        ∙ authority_params-read s rest r e)
