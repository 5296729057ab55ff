-- ===== src/Index/Word.antt =====
-- libdictd/index.c: `dict_word_create` and `dict_add_word_to_list`. Offsets and lengths are decoded
-- by libmaa's `b64_decode_buf`, a parameter.
use dictd.Prelude.{
  ℕ, ◌+◌, ◌-◌, ◌*◌, ◌≤◌, ◌≡◌, refl, ap, ◌∙◌, inl, inr, false, Bool-cases, List, [], ◌∷◌, ◌++◌,
  Option, none, some, ◌||◌, ◌&&◌, arith, ltb, leb, ◌==◌, if◌then◌else◌, length,
}
use dictd.Prelude.Slices.{slice}
use dictd.Prelude.Result.{Result, ok, err, ◌>>=◌}
use dictd.Index.Types.{SearchFault, too_many_tabs, too_few_tabs, tab, newline}

pub record DictWord : Type 0 where
  pub word : List ℕ
  pub start : ℕ
  pub stop : ℕ

-- Where the columns of an entry start; 0 stands for "not seen".
pub record Columns : Type 0 where
  pub offs_offset : ℕ
  pub offs_length : ℕ
  pub offs_word : ℕ

unfoldable pub note_tab : Columns → ℕ → Result SearchFault Columns
note_tab k offset =
    if k.offs_offset == 0
    then ok (record k { offs_offset = offset + 1 })
    else if k.offs_length == 0
    then ok (record k { offs_length = offset + 1 })
    else if k.offs_word == 0
    then ok (record k { offs_word = offset + 1 })
    else err too_many_tabs

-- The loop up to the newline; gives the columns and the offset that it ends at.
unfoldable pub scan_columns : List ℕ → Columns → ℕ → Result SearchFault (Columns × ℕ)
unfolding note_tab
scan_columns [] k offset = ok (k, offset)
scan_columns (b ∷ bs) k offset =
    let after = (do k' ← note_tab k offset; scan_columns bs k' (offset + 1)) in
    let plain = scan_columns bs k (offset + 1) in
    if b == newline then ok (k, offset) else if b == tab then after else plain

-- A quote or a backslash gets a backslash before it.
unfoldable pub quote : List ℕ → List ℕ
quote [] = []
quote (b ∷ bs) = if b == b'"' || b == 92 then 92 ∷ b ∷ quote bs else b ∷ quote bs

abbrev pub no_columns : Columns
no_columns = record { offs_offset = 0; offs_length = 0; offs_word = 0 }

module _ (b64_decode_buf : List ℕ → ℕ) where
  columns_to_word : List ℕ → Columns → ℕ → ℕ → Result SearchFault DictWord
  columns_to_word entry k offset start =
      if k.offs_length == 0
      then err too_few_tabs
      else if ltb 0 k.offs_word
      then ok (record {
        word = quote (slice k.offs_word (offset - k.offs_word) entry);
        start = start;
        stop = b64_decode_buf (slice k.offs_length (k.offs_word - k.offs_length - 1) entry);
      })
      else ok (record {
        word = quote (slice 0 (k.offs_offset - 1) entry);
        start = start;
        stop = b64_decode_buf (slice k.offs_length (offset - k.offs_length) entry);
      })

  unfoldable pub dict_word_create : List ℕ → Result SearchFault DictWord
  unfolding columns_to_word
  dict_word_create entry = do
    (k, offset) ← scan_columns entry no_columns 0
    let start = b64_decode_buf (slice k.offs_offset (k.offs_length - k.offs_offset - 1) entry)
    columns_to_word entry k offset start

  -- `none` is NULL: the limit on the list's length is met. A limit of 0 is no limit.
  unfoldable pub dict_add_word_to_list :
      ℕ → List DictWord → List ℕ → Result SearchFault (Option (List DictWord))
  dict_add_word_to_list limit l entry =
      if ltb 0 limit && leb limit (length l)
      then ok none
      else (do w ← dict_word_create entry; ok (some (l ++ w ∷ [])))

abbrev push : ℕ → Option (List ℕ × List ℕ) → Option (List ℕ × List ℕ)
push b none = none
push b (some (w, rest)) = some (b ∷ w, rest)

-- How RFC 2229 has a client read a string in double quotes, behind the first of them: up to the
-- next one without a backslash. Gives the characters and what is left of the line.
unfoldable pub read_quoted : List ℕ → Option (List ℕ × List ℕ)
read_quoted [] = none
read_quoted (b ∷ []) = if b == b'"' then some ([], []) else none
read_quoted (b ∷ c ∷ bs) =
    let escaped = push c (read_quoted bs) in
    let plain = push b (read_quoted (c ∷ bs)) in
    if b == b'"' then some ([], c ∷ bs) else if b == 92 then escaped else plain

-- A quoted word fits the buffer of `2 * word_len + 1` bytes that is allocated for it, NUL included.
pub length-quote : (w : List ℕ) → length (quote w) + 1 ≤ 2 * length w + 1
unfolding quote
length-quote [] = omega arith
length-quote (b ∷ bs) = ground (arith, length-quote bs)

read_plain :
    (b : ℕ) (bs : List ℕ)
    → (b == b'"' || b == 92) ≡ false
    → read_quoted (b ∷ bs) ≡ push b (read_quoted bs)
unfolding read_quoted
read_plain b [] h = ground (arith, h)
read_plain b (c ∷ bs) h = ground (arith, h)

-- Printed between double quotes, a quoted headword reads as the headword again, and the reader is
-- left with what stands behind it: whatever quotes and backslashes the headword has, none of them
-- ends the string.
pub read_quoted-quote : (w rest : List ℕ) → read_quoted (quote w ++ (b'"' ∷ rest)) ≡ some (w, rest)
unfolding quote read_quoted
read_quoted-quote [] [] = refl
read_quoted-quote [] (c ∷ rest) = refl
read_quoted-quote (b ∷ w) rest = elim (Bool-cases (b == b'"' || b == 92)) [
  | inl h ↦ rw (h, read_quoted-quote w rest) refl
  | inr h ↦
      rw h (read_plain b (quote w ++ (b'"' ∷ rest)) h ∙ ap (push b) (read_quoted-quote w rest))
]
