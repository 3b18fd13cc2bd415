-- ===== src/AltSvc/Render.antt =====
-- An independent description of the field value: the text that RFC 7838, section 3, has for a list
-- of alternatives. src/server_impl.cpp writes such a text by one call of `std::format`.
use anyhttp.Prelude.{
  ℕ, ◌<◌, ◌≡◌, Bool, true, false, not, ◌||◌, List, [], ◌∷◌, ◌++◌, Bytes, All, all, is_empty, ◌==◌,
  if◌then◌else◌, ℤ, pos, negsuc, i64_mod,
}
use anyhttp.AltSvc.Encoding.{pct_encode}
use anyhttp.AltSvc.Authority.{Lacks, is_port, starts_with}
use anyhttp.AltSvc.Service.{AltService, print_u64}

-- The content of a quoted string, a backslash in front of a quote and of a backslash.
unfoldable pub escaped : Bytes → Bytes
escaped [] = []
escaped (c ∷ s) = if c == 0x22 || c == 0x5c then 0x5c ∷ c ∷ escaped s else c ∷ escaped s

unfoldable pub has_colon : Bytes → Bool
has_colon s = not (all (λ x. not (x == b':')) s)

-- A host with colons of its own is put in brackets.
unfoldable pub authority : Bytes → Bytes → Bytes
unfolding has_colon
authority host port =
    if has_colon host then b'[' ∷ host ++ (b']' ∷ b':' ∷ port) else host ++ b':' ∷ port

abbrev pub seconds : ℤ → ℕ
seconds (pos n) = n
seconds (negsuc n) = 0

-- "; ma=N", and "; persist=1" if it is set, in front of what follows.
unfoldable pub render_persist : Bool → Bytes → Bytes
render_persist true rest =
    b';' ∷ 0x20 ∷ b'p' ∷ b'e' ∷ b'r' ∷ b's' ∷ b'i' ∷ b's' ∷ b't' ∷ b'=' ∷ b'1' ∷ rest
render_persist false rest = rest

unfoldable pub render_params : AltService → Bytes → Bytes
render_params s rest =
    b';' ∷ 0x20 ∷ b'm' ∷ b'a' ∷ b'=' ∷ print_u64 (seconds s.max_age)
    ++ render_persist s.persist rest

unfoldable pub render_service : AltService → Bytes → Bytes
render_service s rest =
    pct_encode s.protocol
    ++ (b'=' ∷ 0x22 ∷ escaped (authority s.host s.port) ++ (0x22 ∷ render_params s rest))

-- The alternatives, separated by a comma and a space.
unfoldable pub render : List AltService → Bytes
render [] = []
render (s ∷ []) = render_service s []
render (s ∷ t ∷ ss) = render_service s (b',' ∷ 0x20 ∷ render (t ∷ ss))

-- A host with a colon can stand in brackets, another one has none in front.
abbrev pub IsHost : Bytes → Type 0
IsHost h = if has_colon h then Lacks b']' h else starts_with b'[' (h ++ b':' ∷ []) ≡ false

-- What can be advertised: bytes, a protocol and a port that are not empty, a lifetime that a
-- signed 64-bit number of seconds holds.
pub record IsRenderable (s : AltService) : Type 0 where
  pub bytes : All (λ c. c < 256) s.protocol
  pub has_protocol : is_empty s.protocol ≡ false
  pub has_host : IsHost s.host
  pub has_port : is_port s.port ≡ true
  pub lifetime : s.max_age ≡ pos (seconds s.max_age)
  pub in_range : seconds s.max_age < i64_mod
