-- ===== src/H2/Session/HeaderLimit.antt =====
-- The limit on header sections of src/h2/session.cpp.
use anyhttp.Prelude.{
  ℕ, ◌+◌, ◌≤◌, ◌<◌, ◌≡◌, refl, ap, ◌∙◌, inl, inr, ◌⊎◌, true, false, Option, none, some, List, [],
  ◌∷◌, ◌++◌, Bytes, length, ltb, if◌then◌else◌, add64, u64_mod, arith, Bool-cases, Option-cases,
  if_both, bytes_eq,
}
use anyhttp.H2.Session.Header.{
  Head, header_field_size, is_pseudo, set_known, stored, on_header, on_section, assigned, kept,
  is_component, method_name, status_name, length_name,
}

-- The size of a section, RFC 9113.
abbrev pub section_size : List (Bytes × Bytes) → ℕ
section_size [] = 0
section_size ((name, value) ∷ fs) = length name + length value + 32 + section_size fs

-- What is documented of `Fields::insert`: the fields that were there stay, in their order, and the new
-- one is put somewhere among them.
abbrev pub IsInsertion :
    (List (Bytes × Bytes) → Bytes → Bytes → Option (List (Bytes × Bytes))) → Type 0
IsInsertion insert =
    (fs : List (Bytes × Bytes)) (name value : Bytes) (gs : List (Bytes × Bytes))
    → insert fs name value ≡ some gs
    → (before after : List (Bytes × Bytes)) × (fs ≡ before ++ after)
      × (gs ≡ before ++ (name, value) ∷ after)

-- The fields after those of a section have been inserted, one after the other, all but the
-- pseudo-headers and those that cannot be.
abbrev pub inserted :
    (List (Bytes × Bytes) → Bytes → Bytes → Option (List (Bytes × Bytes)))
    → List (Bytes × Bytes)
    → List (Bytes × Bytes)
    → List (Bytes × Bytes)
inserted insert fs [] = fs
inserted insert fs ((name, value) ∷ more) =
    if is_pseudo name
    then inserted insert fs more
    else inserted insert (elim (insert fs name value) [ none ↦ fs | some gs ↦ gs ]) more

-- What a section has stored, and whether it is too large.
pub record Limits {Url : Type 0}
    (insert : List (Bytes × Bytes) → Bytes → Bytes → Option (List (Bytes × Bytes))) (limit : ℕ)
    (before : List (Bytes × Bytes)) (size : ℕ) (fs : List (Bytes × Bytes)) (h : Head Url)
    : Type 0 where
  pub by_size :
      ((size + section_size fs ≤ limit)
        × (h.header_limit_exceeded ≡ false)
        × (h.fields ≡ inserted insert before fs))
      ⊎ ((limit < size + section_size fs) × (h.header_limit_exceeded ≡ true))
  pub bounded : section_size h.fields ≤ limit

section_size-append :
    (fs gs : List (Bytes × Bytes)) → section_size (fs ++ gs) ≡ section_size fs + section_size gs
section_size-append [] gs = omega arith
section_size-append ((name, value) ∷ fs) gs = omega (arith, section_size-append fs gs)

module _ {Url : Type 0} (assign : Url → Bytes → Bytes → Option Url)
    (insert : List (Bytes × Bytes) → Bytes → Bytes → Option (List (Bytes × Bytes))) where
  -- Neither the limit nor the stored fields are touched.
  assigned-same :
      (h : Head Url) (o : Option Url)
      → ((assigned assign insert h o).fields ≡ h.fields)
        × ((assigned assign insert h o).header_size ≡ h.header_size)
        × ((assigned assign insert h o).header_limit_exceeded ≡ h.header_limit_exceeded)
  assigned-same h none = (refl, refl, refl)
  assigned-same h (some u) = (refl, refl, refl)

  set_known-same :
      (h : Head Url) (name value : Bytes)
      → ((set_known assign insert h name value).fields ≡ h.fields)
        × ((set_known assign insert h name value).header_size ≡ h.header_size)
        × ((set_known assign insert h name value).header_limit_exceeded ≡ h.header_limit_exceeded)
  unfolding set_known
  set_known-same h name value =
      if_both Same (bytes_eq name method_name) (λ _. (refl, refl, refl))
        (λ _.
          if_both Same (is_component assign insert name)
            (λ _. assigned-same h (assign h.url name value))
            (λ _.
              if_both Same (bytes_eq name status_name) (λ _. (refl, refl, refl))
                (λ _.
                  if_both Same (bytes_eq name length_name) (λ _. (refl, refl, refl))
                    (λ _. (refl, refl, refl)))))
    where
      Same : Head Url → Type 0
      Same k =
          (k.fields ≡ h.fields)
          × (k.header_size ≡ h.header_size)
          × (k.header_limit_exceeded ≡ h.header_limit_exceeded)

  exceeded_stays :
      (limit : ℕ) (fs : List (Bytes × Bytes)) (h : Head Url)
      → h.header_limit_exceeded ≡ true
      → on_section assign insert limit h fs ≡ h
  unfolding on_section
  exceeded_stays limit [] h e = refl
  exceeded_stays limit ((name, value) ∷ fs) h e =
      ap (λ (k : Head Url). on_section assign insert limit k fs) same ∙ exceeded_stays limit fs h e
    where
      same : on_header assign insert limit h (name, value) ≡ h
      same =
          unfold on_header in
          if_both (λ (k : Head Url). k ≡ h) h.header_limit_exceeded (λ _. refl)
            (λ k. absurd (ground arith))

  put : List (Bytes × Bytes) → Bytes → Bytes → List (Bytes × Bytes)
  put fs name value = inserted insert fs ((name, value) ∷ [])

  -- One field, on a section that is not too large so far.
  record Steps (limit : ℕ) (h : Head Url) (name value : Bytes) (k : Head Url) : Type 0 where
    by_size :
        ((limit < h.header_size + (length name + length value + 32))
          × (k.header_limit_exceeded ≡ true)
          × (k.fields ≡ h.fields))
        ⊎ ((h.header_size + (length name + length value + 32) ≤ limit)
            × (k.header_limit_exceeded ≡ false)
            × (k.header_size ≡ h.header_size + (length name + length value + 32))
            × (k.fields ≡ put h.fields name value))

  no_wrap :
      (size a b : ℕ)
      → size + (a + b + 32) < u64_mod
      → add64 size (add64 (add64 a b) 32) ≡ size + (a + b + 32)
  no_wrap size a b h = omega arith

  stored-lem :
      (h : Head Url) (name value : Bytes)
      → ((stored assign insert h name value).fields ≡ put h.fields name value)
        × ((stored assign insert h name value).header_size ≡ h.header_size)
        × ((stored assign insert h name value).header_limit_exceeded ≡ h.header_limit_exceeded)
  unfolding put
  stored-lem h name value = elim (Bool-cases (is_pseudo name)) [
    | inl e ↦ rw e (refl, refl, refl)
    | inr e ↦ rw e (one_more (insert h.fields name value), refl, refl)
  ]
    where
      one_more :
          (o : Option (List (Bytes × Bytes)))
          → kept assign insert h.fields o ≡ elim o [ none ↦ h.fields | some gs ↦ gs ]
      one_more none = refl
      one_more (some gs) = refl

  on_header-Steps :
      (limit : ℕ) (h : Head Url) (name value : Bytes)
      → h.header_limit_exceeded ≡ false
      → h.header_size + (length name + length value + 32) < u64_mod
      → Steps limit h name value (on_header assign insert limit h (name, value))
  unfolding on_header
  on_header-Steps limit h name value e w =
      if_both (Steps limit h name value) h.header_limit_exceeded (λ k. absurd (ground arith))
        (λ _.
          if_both (Steps limit h name value)
            (ltb limit (add64 h.header_size (header_field_size name value)))
            (λ k. record {
              by_size = inl (
                ground (arith, no_wrap h.header_size (length name) (length value) w),
                refl,
                refl,
              );
            })
            (λ k. record {
              by_size = inr (
                ground (arith, no_wrap h.header_size (length name) (length value) w),
                s.2 ∙ t.2 ∙ e,
                s.1 ∙ t.1 ∙ no_wrap h.header_size (length name) (length value) w,
                s.0 ∙ ap (λ fs. put fs name value) t.0,
              );
            }))
    where
      sized : Head Url
      sized = record h { header_size = add64 h.header_size (header_field_size name value) }

      t :
          ((set_known assign insert sized name value).fields ≡ h.fields)
          × ((set_known assign insert sized name value).header_size
              ≡ add64 h.header_size (header_field_size name value))
          × ((set_known assign insert sized name value).header_limit_exceeded
              ≡ h.header_limit_exceeded)
      t = let (a, b, c) = set_known-same sized name value in (a, b, c)

      s :
          ((stored assign insert (set_known assign insert sized name value) name value).fields
            ≡ put (set_known assign insert sized name value).fields name value)
          × ((stored assign insert
                (set_known assign insert sized name value)
                name
                value).header_size
              ≡ (set_known assign insert sized name value).header_size)
          × ((stored assign insert
                (set_known assign insert sized name value)
                name
                value).header_limit_exceeded
              ≡ (set_known assign insert sized name value).header_limit_exceeded)
      s = stored-lem (set_known assign insert sized name value) name value

  put_size :
      IsInsertion insert
      → (fs : List (Bytes × Bytes)) (name value : Bytes)
      → section_size (put fs name value) ≤ section_size fs + (length name + length value + 32)
  unfolding put
  put_size doc fs name value = elim (Bool-cases (is_pseudo name)) [
    | inl e ↦ rw e (omega arith)
    | inr e ↦ rw e (elim (Option-cases (insert fs name value)) [
      | inl n ↦ rw n (omega arith)
      | inr (gs, k) ↦
          let (before, after, was, is) = doc fs name value gs k in
          rw (k, was, is)
            (omega (
              arith,
              section_size-append before after,
              section_size-append before ((name, value) ∷ after),
            ))
    ])
  ]

  put_more :
      (fs more : List (Bytes × Bytes)) (name value : Bytes)
      → inserted insert (put fs name value) more ≡ inserted insert fs ((name, value) ∷ more)
  unfolding put
  put_more fs more name value = elim (Bool-cases (is_pseudo name)) [
    | inl e ↦ rw e refl
    | inr e ↦ rw e refl
  ]

  -- A header section is refused exactly if it is larger than the limit: from a section that is
  -- within the limit so far, and as long as its size does not reach 2^64, the fields that follow
  -- take it over the limit exactly if the limit is less than its size by the count of RFC 9113;
  -- otherwise all of them but the pseudo-headers, and those that Boost.Beast throws at, have been
  -- inserted, one after the other; and in either case what is stored is within the limit, if
  -- inserting a field adds just that field.
  pub on_section-Limits :
      IsInsertion insert
      → (limit : ℕ) (fs : List (Bytes × Bytes)) (h : Head Url) → h.header_limit_exceeded ≡ false
      → h.header_size ≤ limit
      → section_size h.fields ≤ h.header_size
      → h.header_size + section_size fs < u64_mod
      → Limits insert limit h.fields h.header_size fs (on_section assign insert limit h fs)
  unfolding on_section
  on_section-Limits doc limit [] h e l b w = record {
    by_size = inl (omega arith, e, refl);
    bounded = omega arith;
  }
  on_section-Limits doc limit ((name, value) ∷ fs) h e l b w =
      step (λ k x y z v. on_section-Limits doc limit fs k x y z v)
        (on_header assign insert limit h (name, value))
        (on_header-Steps limit h name value e (omega arith)).by_size
    where
      step :
          ((k : Head Url)
            → k.header_limit_exceeded ≡ false
            → k.header_size ≤ limit
            → section_size k.fields ≤ k.header_size
            → k.header_size + section_size fs < u64_mod
            → Limits insert limit k.fields k.header_size fs (on_section assign insert limit k fs))
          → (k : Head Url)
          → ((limit < h.header_size + (length name + length value + 32))
              × (k.header_limit_exceeded ≡ true)
              × (k.fields ≡ h.fields))
            ⊎ ((h.header_size + (length name + length value + 32) ≤ limit)
                × (k.header_limit_exceeded ≡ false)
                × (k.header_size ≡ h.header_size + (length name + length value + 32))
                × (k.fields ≡ put h.fields name value))
          → Limits insert limit h.fields h.header_size
              ((name, value) ∷ fs)
              (on_section assign insert limit k fs)
      step go_on k (inl (over, x, same)) =
          rw (exceeded_stays limit fs k x)
            (record { by_size = inr (omega arith, x); bounded = rw same (omega arith) })
      step go_on k (inr (within, x, size, added)) =
          let rest =
            go_on k x (omega arith) (rw added (omega (arith, put_size doc h.fields name value)))
              (omega arith) in
          record { by_size = longer rest.by_size; bounded = rest.bounded }
        where
          longer :
              ((k.header_size + section_size fs ≤ limit)
                  × ((on_section assign insert limit k fs).header_limit_exceeded ≡ false)
                  × ((on_section assign insert limit k fs).fields ≡ inserted insert k.fields fs))
                ⊎ ((limit < k.header_size + section_size fs)
                    × ((on_section assign insert limit k fs).header_limit_exceeded ≡ true))
              → ((h.header_size + section_size ((name, value) ∷ fs) ≤ limit)
                  × ((on_section assign insert limit k fs).header_limit_exceeded ≡ false)
                  × ((on_section assign insert limit k fs).fields
                      ≡ inserted insert h.fields ((name, value) ∷ fs)))
                ⊎ ((limit < h.header_size + section_size ((name, value) ∷ fs))
                    × ((on_section assign insert limit k fs).header_limit_exceeded ≡ true))
          longer (inl (a, y, c)) = inl (
            omega arith,
            y,
            c ∙ ap (λ t. inserted insert t fs) added ∙ put_more h.fields fs name value,
          )
          longer (inr (a, y)) = inr (omega arith, y)
