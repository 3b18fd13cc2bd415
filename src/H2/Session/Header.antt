-- ===== src/H2/Session/Header.antt =====
-- `on_header_callback` of src/h2/session.cpp: one field of a received header section.
use anyhttp.Prelude.{
  ℕ, ◌+◌, ◌-◌, ◌*◌, Bool, true, false, ◌&&◌, ◌||◌, Option, none, some, List, [], ◌∷◌, Bytes, length,
  ltb, leb, ◌==◌, bytes_eq, if◌then◌else◌, add64, u64_mod,
}

-- `header_field_size`, include/anyhttp/common.hpp.
abbrev pub header_field_size : Bytes → Bytes → ℕ
header_field_size name value = add64 (add64 (length name) (length value)) 32

-- `std::from_chars` on decimal digits: the longest run of them at the front, if there is one and its
-- value is below `bound`.
unfoldable pub digits : ℕ → Bytes → ℕ
digits acc [] = acc
digits acc (c ∷ cs) =
    let rest = digits (acc * 10 + (c - 48)) cs in if leb 48 c && leb c 57 then rest else acc

abbrev pub starts_with_digit : Bytes → Bool
starts_with_digit [] = false
starts_with_digit (c ∷ cs) = leb 48 c && leb c 57

-- On failure the number is left alone, and it has just been made zero.
unfoldable pub from_chars : ℕ → Bytes → ℕ
unfolding digits
from_chars bound value =
    if starts_with_digit value && ltb (digits 0 value) bound then digits 0 value else 0

abbrev pub u32_mod : ℕ
u32_mod = 4294967296

-- `name.starts_with(':')`
abbrev pub is_pseudo : Bytes → Bool
is_pseudo [] = false
is_pseudo (c ∷ cs) = c == b':'

abbrev pub method_name : Bytes
method_name = b':' ∷ b'm' ∷ b'e' ∷ b't' ∷ b'h' ∷ b'o' ∷ b'd' ∷ []

abbrev pub path_name : Bytes
path_name = b':' ∷ b'p' ∷ b'a' ∷ b't' ∷ b'h' ∷ []

abbrev pub scheme_name : Bytes
scheme_name = b':' ∷ b's' ∷ b'c' ∷ b'h' ∷ b'e' ∷ b'm' ∷ b'e' ∷ []

abbrev pub authority_name : Bytes
authority_name = b':' ∷ b'a' ∷ b'u' ∷ b't' ∷ b'h' ∷ b'o' ∷ b'r' ∷ b'i' ∷ b't' ∷ b'y' ∷ []

abbrev pub host_name : Bytes
host_name = b':' ∷ b'h' ∷ b'o' ∷ b's' ∷ b't' ∷ []

abbrev pub status_name : Bytes
status_name = b':' ∷ b's' ∷ b't' ∷ b'a' ∷ b't' ∷ b'u' ∷ b's' ∷ []

abbrev pub length_name : Bytes
length_name =
    b'c' ∷ b'o' ∷ b'n' ∷ b't' ∷ b'e' ∷ b'n' ∷ b't' ∷ b'-' ∷ b'l' ∷ b'e' ∷ b'n' ∷ b'g' ∷ b't' ∷ b'h'
    ∷ []

-- What a header section has set so far. A url is Boost.URL's.
pub record Head (Url : Type 0) : Type 0 where
  pub method : Bytes
  pub url : Url
  pub status_code : Option ℕ
  pub content_length : Option ℕ
  pub fields : List (Bytes × Bytes)
  pub header_size : ℕ
  pub header_limit_exceeded : Bool

-- `assign` stands for Boost.URL: the url with the component that a pseudo-header names set to its
-- value, or nothing if it throws. `insert` stands for `Fields::insert` of Boost.Beast: the fields with
-- one more, or nothing if it throws.
module _ {Url : Type 0} (assign : Url → Bytes → Bytes → Option Url)
    (insert : List (Bytes × Bytes) → Bytes → Bytes → Option (List (Bytes × Bytes))) where
  abbrev pub assigned : Head Url → Option Url → Head Url
  assigned h none = h
  assigned h (some u) = record h { url = u }

  abbrev pub is_component : Bytes → Bool
  is_component name =
      bytes_eq name path_name
      || bytes_eq name scheme_name
      || bytes_eq name authority_name
      || bytes_eq name host_name

  -- The fields and pseudo-headers that are looked at.
  unfoldable pub set_known : Head Url → Bytes → Bytes → Head Url
  unfolding from_chars bytes_eq
  set_known h name value =
      if bytes_eq name method_name
      then record h { method = value }
      else if is_component name
      then assigned h (assign h.url name value)
      else if bytes_eq name status_name
      then record h { status_code = some (from_chars u32_mod value) }
      else if bytes_eq name length_name
      then record h { content_length = some (from_chars u64_mod value) }
      else h

  -- A field that cannot be inserted is ignored.
  abbrev pub kept : List (Bytes × Bytes) → Option (List (Bytes × Bytes)) → List (Bytes × Bytes)
  kept fs none = fs
  kept fs (some gs) = gs

  abbrev pub stored : Head Url → Bytes → Bytes → Head Url
  stored h name value =
      if is_pseudo name then h else record h { fields = kept h.fields (insert h.fields name value) }

  -- Beyond the limit, nothing is stored any more.
  unfoldable pub on_header : ℕ → Head Url → Bytes × Bytes → Head Url
  unfolding set_known
  on_header max_header_size h (name, value) =
      let size = add64 h.header_size (header_field_size name value) in
      if h.header_limit_exceeded
      then h
      else if ltb max_header_size size
      then record h { header_size = size; header_limit_exceeded = true }
      else stored (set_known (record h { header_size = size }) name value) name value

  unfoldable pub on_section : ℕ → Head Url → List (Bytes × Bytes) → Head Url
  unfolding on_header
  on_section max_header_size h [] = h
  on_section max_header_size h (f ∷ fs) =
      on_section max_header_size (on_header max_header_size h f) fs
