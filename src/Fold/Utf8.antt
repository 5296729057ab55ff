-- ===== src/Fold/Utf8.antt =====
-- libcommon/str.c: a text in UTF-8 is folded character by character, and folding twice is folding
-- once.
use dictd.Prelude.{
  ℕ, zero, suc, ◌<◌, ◌≡◌, refl, ap, ◌∙◌, inl, inr, List, [], ◌∷◌, ◌++◌, Bool, true, false, ◌||◌,
  arith, if◌then◌else◌, length, length-append, Bool-cases, All,
}
use dictd.Prelude.Result.{Result, ok, ◌>>=◌}
use dictd.Fold.Chars.{
  Ctype, FoldFault, Multibyte, space, lower, tolower_alnumspace_8bit, put_char, utf8_loop,
  tolower_alnumspace_utf8,
}

-- What is documented of the C functions: a space is one, and the small letter of a letter is a
-- letter, small, and no space.
pub record IsLocale (ct : Ctype) : Type 0 where
  pub space_is_space : ct.isspace space ≡ true
  pub lower_space : (c : ℕ) → ct.isspace (ct.tolower c) ≡ ct.isspace c
  pub lower_alnum : (c : ℕ) → ct.isalnum (ct.tolower c) ≡ ct.isalnum c
  pub lower_lower : (c : ℕ) → ct.tolower (ct.tolower c) ≡ ct.tolower c

-- The characters that have bytes; the two functions agree on them.
pub record IsEncoding (ct : Ctype) (mb : Multibyte) (valid : ℕ → Bool) (bytes : ℕ → List ℕ)
    : Type 0 where
  pub encoded : (c : ℕ) → valid c ≡ true → mb.wcrtomb c ≡ ok (bytes c)
  pub decoded :
      (c : ℕ) (rest : List ℕ) → valid c ≡ true → mb.mbrtowc (bytes c ++ rest) ≡ ok (c, rest)
  pub not_empty : (c : ℕ) → valid c ≡ true → 0 < length (bytes c)
  pub space_byte : bytes space ≡ space ∷ []
  pub lower_valid : (c : ℕ) → valid c ≡ true → valid (ct.tolower c) ≡ true

-- The bytes of a text.
abbrev pub text : (ℕ → List ℕ) → List ℕ → List ℕ
text bytes [] = []
text bytes (c ∷ l) = bytes c ++ text bytes l

module _ (ct : Ctype) (allchars_mode cs_mode : Bool) where
  -- With the small letter of a character or the character itself.
  lower_space :
      (h : IsLocale ct) (cs : Bool) (c : ℕ)
      → ct.isspace (if cs then c else ct.tolower c) ≡ ct.isspace c
  lower_space h true c = refl
  lower_space h false c = h.lower_space c

  lower_alnum :
      (h : IsLocale ct) (cs : Bool) (c : ℕ)
      → ct.isalnum (if cs then c else ct.tolower c) ≡ ct.isalnum c
  lower_alnum h true c = refl
  lower_alnum h false c = h.lower_alnum c

  lower_lower :
      (h : IsLocale ct) (cs : Bool) (c : ℕ)
      → (if cs
          then (if cs then c else ct.tolower c)
          else ct.tolower (if cs then c else ct.tolower c))
        ≡ (if cs then c else ct.tolower c)
  lower_lower h true c = refl
  lower_lower h false c = h.lower_lower c

  abbrev fold : List ℕ → List ℕ
  fold src = tolower_alnumspace_8bit ct allchars_mode cs_mode src

  -- Folding the characters twice is folding them once.
  fold_twice : (src : List ℕ) → IsLocale ct → fold (fold src) ≡ fold src
  unfolding tolower_alnumspace_8bit
  fold_twice [] h = refl
  fold_twice (c ∷ src) h = elim (Bool-cases (ct.isspace c)) [
    | inl e ↦ rw (e, h.space_is_space) (ap (λ l. space ∷ l) (fold_twice src h))
    | inr e ↦ elim (Bool-cases (allchars_mode || ct.isalnum c)) [
      | inr k ↦ rw (e, k) (fold_twice src h)
      | inl k ↦
          let s = lower_space h cs_mode c ∙ e in
          let a : (allchars_mode || ct.isalnum (lower ct allchars_mode cs_mode c)) ≡ true =
            ap (λ b. allchars_mode || b) (lower_alnum h cs_mode c) ∙ k in
          rw (e, k, s, a)
            (ap (λ x. x ∷ fold (fold src)) (lower_lower h cs_mode c)
              ∙ ap (λ l. lower ct allchars_mode cs_mode c ∷ l) (fold_twice src h))
    ]
  ]

  module _ (mb : Multibyte) (valid : ℕ → Bool) (bytes : ℕ → List ℕ)
      (law : IsEncoding ct mb valid bytes) where
    abbrev loop : ℕ → List ℕ → Result FoldFault (List ℕ)
    loop fuel src = utf8_loop ct allchars_mode cs_mode mb fuel src

    abbrev put : ℕ → Result FoldFault (List ℕ)
    put c = put_char ct allchars_mode cs_mode mb c

    -- A round where there are bytes.
    round :
        (fuel : ℕ) (src : List ℕ)
        → 0 < length src
        → loop (suc fuel) src
          ≡ mb.mbrtowc src >>= λ r.
              put r.0 >>= λ piece. loop fuel r.1 >>= λ dest. ok (piece ++ dest)
    unfolding utf8_loop
    round fuel [] h = absurd (omega (arith, h))
    round fuel (b ∷ src) h = refl

    lower_valid :
        (cs : Bool) (c : ℕ) → valid c ≡ true → valid (if cs then c else ct.tolower c) ≡ true
    lower_valid true c v = v
    lower_valid false c v = law.lower_valid c v

    -- A character behind which the text folds to `l`.
    put_front :
        (c : ℕ) (ws : List ℕ)
        → valid c ≡ true
        → (put c >>= λ piece. ok (piece ++ text bytes (fold ws))) ≡ ok (text bytes (fold (c ∷ ws)))
    unfolding put_char tolower_alnumspace_8bit
    put_front c ws v = elim (Bool-cases (ct.isspace c)) [
      | inl e ↦ rw (e, law.space_byte) refl
      | inr e ↦ elim (Bool-cases (allchars_mode || ct.isalnum c)) [
        | inr k ↦ rw (e, k) refl
        | inl k ↦
            let d = law.encoded (lower ct allchars_mode cs_mode c) (lower_valid cs_mode c v) in
            rw (e, k, d) refl
      ]
    ]

    loop-text :
        (fuel : ℕ) (ws : List ℕ)
        → All (λ (c : ℕ). valid c ≡ true) ws
        → length (text bytes ws) < fuel
        → loop fuel (text bytes ws) ≡ ok (text bytes (fold ws))
    unfolding utf8_loop tolower_alnumspace_8bit
    loop-text zero ws v h = absurd (omega (arith, h))
    loop-text (suc fuel) [] v h = refl
    loop-text (suc fuel) (c ∷ ws) (v, vs) h =
        let n = law.not_empty c v in
        let len = length-append (bytes c) (text bytes ws) in
        let ih = loop-text fuel ws vs (omega (arith, h, n, len)) in
        round fuel (bytes c ++ text bytes ws) (omega (arith, n, len))
        ∙ rw (law.decoded c (text bytes ws) v, ih) (put_front c ws v)

    -- A text in UTF-8 is always folded, into the text of its folded characters: spaces become
    -- blanks, other characters that are no letters or digits are left out unless all are wanted,
    -- letters are made small unless the case matters. Folding these characters again changes
    -- nothing. The functions of the C library agree on the bytes of the characters of the text, and
    -- a small letter is a small letter.
    pub tolower_alnumspace_utf8-text :
        (ws : List ℕ)
        → IsLocale ct
        → All (λ (c : ℕ). valid c ≡ true) ws
        → (tolower_alnumspace_utf8 ct allchars_mode cs_mode mb (text bytes ws)
            ≡ ok (text bytes (tolower_alnumspace_8bit ct allchars_mode cs_mode ws)))
          × (tolower_alnumspace_8bit ct allchars_mode cs_mode
                (tolower_alnumspace_8bit ct allchars_mode cs_mode ws)
              ≡ tolower_alnumspace_8bit ct allchars_mode cs_mode ws)
    unfolding tolower_alnumspace_utf8
    tolower_alnumspace_utf8-text ws h v =
        (loop-text (suc (length (text bytes ws))) ws v (omega arith), fold_twice ws h)
