-- ===== src/Index/Entry.antt =====
-- libdictd/index.c: `dict_word_create` on the entries that dictfmt writes.
use dictd.Prelude.{
  ℕ, suc, ◌+◌, ◌-◌, ◌<◌, ◌≡◌, refl, List, [], ◌∷◌, ◌++◌, arith, length, take, drop, ap, ◌∙◌, sym,
}
use dictd.Prelude.Slices.{slice, drop-drop}
use dictd.Prelude.Result.{ok}
use dictd.Index.Types.{tab, newline}
use dictd.Index.Order.{IsWord}
use dictd.Index.Word.{Columns, note_tab, scan_columns, quote, no_columns, dict_word_create}

scan_columns-word :
    (w r : List ℕ) (k : Columns) (offset : ℕ)
    → IsWord w
    → scan_columns (w ++ r) k offset ≡ scan_columns r k (offset + length w)
unfolding scan_columns
scan_columns-word [] r k offset h = ap (scan_columns r k) (omega arith)
scan_columns-word (b ∷ w) r k offset h =
    let ih = scan_columns-word w r k (offset + 1) h.1 in
    let n : offset + 1 + length w ≡ offset + suc (length w) = omega arith in
    ground (arith, h.0, ih, ap (scan_columns r k) n)

drop-append : (w r : List ℕ) → drop (length w) (w ++ r) ≡ r
drop-append [] r = refl
drop-append (b ∷ w) r = drop-append w r

drop-past : (w : List ℕ) (b : ℕ) (r : List ℕ) → drop (length w + 1) (w ++ b ∷ r) ≡ r
drop-past w b r = sym (drop-drop (length w) 1 (w ++ b ∷ r)) ∙ ap (drop 1) (drop-append w (b ∷ r))

take-append : (w r : List ℕ) → take (length w) (w ++ r) ≡ w
take-append [] r = refl
take-append (b ∷ w) r = ap (λ l. b ∷ l) (take-append w r)

scan_columns-column :
    (w r : List ℕ) (k k' : Columns) (offset : ℕ)
    → IsWord w
    → note_tab k (offset + length w) ≡ ok k'
    → scan_columns (w ++ tab ∷ r) k offset ≡ scan_columns r k' (offset + length w + 1)
unfolding scan_columns
scan_columns-column w r k k' offset h e = scan_columns-word w (tab ∷ r) k offset h ∙ rw e refl

scan_columns-last :
    (w r : List ℕ) (k : Columns) (offset : ℕ)
    → IsWord w
    → scan_columns (w ++ newline ∷ r) k offset ≡ ok (k, offset + length w)
unfolding scan_columns
scan_columns-last w r k offset h = scan_columns-word w (newline ∷ r) k offset h

-- The places of the first two columns.
abbrev pub second : List ℕ → ℕ
second headword = length headword + 1

abbrev pub third : List ℕ → List ℕ → ℕ
third headword offset = length headword + 1 + length offset + 1

note_first : (n : ℕ) → note_tab no_columns n ≡ ok (record no_columns { offs_offset = n + 1 })
unfolding note_tab
note_first n = refl

note_second :
    (a n : ℕ)
    → 0 < a
    → note_tab (record { offs_offset = a; offs_length = 0; offs_word = 0 }) n
      ≡ ok (record { offs_offset = a; offs_length = n + 1; offs_word = 0 })
unfolding note_tab
note_second a n h = ground arith

note_third :
    (a b n : ℕ)
    → 0 < a
    → 0 < b
    → note_tab (record { offs_offset = a; offs_length = b; offs_word = 0 }) n
      ≡ ok (record { offs_offset = a; offs_length = b; offs_word = n + 1 })
unfolding note_tab
note_third a b n h k = ground arith

module _ (b64_decode_buf : List ℕ → ℕ) (headword offset size : List ℕ) (hh : IsWord headword)
    (ho : IsWord offset) (hs : IsWord size) where
  after_two :
      (r : List ℕ)
      → scan_columns (headword ++ tab ∷ (offset ++ tab ∷ r)) no_columns 0
        ≡ scan_columns r
            (record {
              offs_offset = second headword;
              offs_length = third headword offset;
              offs_word = 0;
            })
            (third headword offset)
  after_two r =
      let n : 0 + length headword ≡ length headword = omega arith in
      scan_columns-column headword (offset ++ tab ∷ r) no_columns
        (record no_columns { offs_offset = second headword }) 0 hh
        (rw n (note_first (length headword)))
      ∙ rw n (
          scan_columns-column offset r _ _ (length headword + 1) ho
            (note_second (length headword + 1) (length headword + 1 + length offset) (omega arith)))

  first_column : (r : List ℕ) → slice 0 (second headword - 1) (headword ++ r) ≡ headword
  first_column r =
      let n : second headword - 1 ≡ length headword = omega arith in rw n (take-append headword r)

  second_column :
      (r : List ℕ)
      → slice
          (second headword)
          (third headword offset - second headword - 1)
          (headword ++ tab ∷ (offset ++ r))
        ≡ offset
  second_column r =
      let n : third headword offset - second headword - 1 ≡ length offset = omega arith in
      rw (n, drop-past headword tab (offset ++ r)) (take-append offset r)

  -- Behind the second tab.
  behind : (r : List ℕ) → drop (third headword offset) (headword ++ tab ∷ (offset ++ tab ∷ r)) ≡ r
  behind r =
      let n : third headword offset ≡ second headword + (length offset + 1) = omega arith in
      ap (λ (k : ℕ). drop k (headword ++ tab ∷ (offset ++ tab ∷ r))) n
      ∙ sym
          (drop-drop (second headword) (length offset + 1) (headword ++ tab ∷ (offset ++ tab ∷ r)))
      ∙ ap (drop (length offset + 1)) (drop-past headword tab (offset ++ tab ∷ r))
      ∙ drop-past offset tab r

  third_column :
      (n : ℕ) (r : List ℕ)
      → n ≡ length size
      → slice (third headword offset) n (headword ++ tab ∷ (offset ++ tab ∷ (size ++ r))) ≡ size
  third_column n r e = rw (e, behind (size ++ r)) (take-append size r)

  -- An entry of three columns, headword TAB offset TAB size NEWLINE, becomes the quoted headword and
  -- the decoded place of its definition; what follows the newline plays no part.
  pub dict_word_create-three :
      (rest : List ℕ)
      → dict_word_create b64_decode_buf
          (headword ++ tab ∷ (offset ++ tab ∷ (size ++ newline ∷ rest)))
        ≡ ok (record {
          word = quote headword;
          start = b64_decode_buf offset;
          stop = b64_decode_buf size;
        })
  unfolding dict_word_create
  dict_word_create-three rest =
      rw
        (
          after_two (size ++ newline ∷ rest),
          scan_columns-last size rest _ (third headword offset) hs,
        )
        (ground (
          arith,
          ap quote (first_column (tab ∷ (offset ++ tab ∷ (size ++ newline ∷ rest)))),
          ap b64_decode_buf (second_column (tab ∷ (size ++ newline ∷ rest))),
          ap b64_decode_buf (
              third_column (third headword offset + length size - third headword offset)
                (newline ∷ rest) (omega arith)),
        ))

  -- An entry of four columns shows its last column in place of the headword that it is sorted by.
  pub dict_word_create-four :
      (shown rest : List ℕ)
      → IsWord shown
      → dict_word_create b64_decode_buf
          (headword ++ tab ∷ (offset ++ tab ∷ (size ++ tab ∷ (shown ++ newline ∷ rest))))
        ≡ ok (record {
          word = quote shown;
          start = b64_decode_buf offset;
          stop = b64_decode_buf size;
        })
  unfolding dict_word_create
  dict_word_create-four shown rest hw =
      let w = third headword offset + length size + 1 in
      let entry = headword ++ tab ∷ (offset ++ tab ∷ (size ++ tab ∷ (shown ++ newline ∷ rest))) in
      let fourth : slice w (w + length shown - w) entry ≡ shown =
        let n : w + length shown - w ≡ length shown = omega arith in
        let m : w ≡ third headword offset + (length size + 1) = omega arith in
        rw n (
          ap (take (length shown)) (
            ap (λ (k : ℕ). drop k entry) m
            ∙ sym (drop-drop (third headword offset) (length size + 1) entry)
            ∙ ap (drop (length size + 1)) (behind (size ++ tab ∷ (shown ++ newline ∷ rest)))
            ∙ drop-past size tab (shown ++ newline ∷ rest))
          ∙ take-append shown (newline ∷ rest)) in
      rw
        (
          after_two (size ++ tab ∷ (shown ++ newline ∷ rest)),
          scan_columns-column size (shown ++ newline ∷ rest) _ _ (third headword offset) hs (
              note_third (second headword) (third headword offset)
                (third headword offset + length size) (omega arith) (omega arith)),
          scan_columns-last shown rest _ w hw,
        )
        (ground (
          arith,
          ap quote fourth,
          ap b64_decode_buf (second_column (tab ∷ (size ++ tab ∷ (shown ++ newline ∷ rest)))),
          ap b64_decode_buf (
              third_column (w - third headword offset - 1) (tab ∷ (shown ++ newline ∷ rest))
                (omega arith)),
        ))
