-- ===== src/Index/Open.antt =====
-- libdictd/index.c: the table of starting points that `dict_index_open` fills. The alphabet of the
-- locale and `toupper` are parameters.
use dictd.Prelude.{ℕ, ◌+◌, List, [], ◌∷◌, not, ◌||◌, ltb, ◌==◌, if◌then◌else◌, length}
use dictd.Prelude.Result.{Result, ok, err, ◌>>=◌}
use dictd.Index.Types.{SearchFault, bad_upper, Tables, DictIndex}
use dictd.Index.Search.{binary_search_8bit}

-- `optStart[c] = p`
unfoldable pub write : ℕ → ℕ → (ℕ → ℕ) → ℕ → ℕ
write c p s j = if j == c then p else s j

abbrev pub space : ℕ
space = 32

-- '0' to '9'
abbrev pub digits : List ℕ
digits = 48 ∷ 49 ∷ 50 ∷ 51 ∷ 52 ∷ 53 ∷ 54 ∷ 55 ∷ 56 ∷ 57 ∷ []

abbrev pub uchar_max : ℕ
uchar_max = 255

module _ (t : Tables) (x : DictIndex) (toupper : ℕ → ℕ) where
  -- The search for a word of one character, in all of the index.
  unfoldable pub start_of : ℕ → Result SearchFault ℕ
  start_of c = binary_search_8bit t x (c ∷ []) 0 (length x.bytes)

  unfoldable pub enter : ℕ → (ℕ → ℕ) → Result SearchFault (ℕ → ℕ)
  enter c s = do p ← start_of c; ok (write c p s)

  unfoldable pub enter_all : List ℕ → (ℕ → ℕ) → Result SearchFault (ℕ → ℕ)
  enter_all [] s = ok s
  enter_all (c ∷ l) s = do s' ← enter c s; enter_all l s'

  -- `assert(first_char_uc >= 0 && first_char_uc <= UCHAR_MAX)`
  unfoldable pub write_upper : ℕ → ℕ → (ℕ → ℕ) → Result SearchFault (ℕ → ℕ)
  write_upper c p s =
      if ltb uchar_max (toupper c) then err bad_upper else ok (write (toupper c) p s)

  unfoldable pub with_upper : ℕ → ℕ → (ℕ → ℕ) → Result SearchFault (ℕ → ℕ)
  with_upper c p s = if not t.utf8_mode || ltb c 128 then write_upper c p s else ok s

  unfoldable pub enter_letter : ℕ → (ℕ → ℕ) → Result SearchFault (ℕ → ℕ)
  enter_letter c s = do p ← start_of c; with_upper c p (write c p s)

  -- The loop over the alphabet.
  unfoldable pub enter_letters : List ℕ → (ℕ → ℕ) → Result SearchFault (ℕ → ℕ)
  enter_letters [] s = ok s
  enter_letters (c ∷ l) s = do s' ← enter_letter c s; enter_letters l s'

  -- `optStart[UCHAR_MAX]` and the one behind it.
  unfoldable pub write_ends : (ℕ → ℕ) → ℕ → ℕ
  write_ends s = write (uchar_max + 1) (length x.bytes) (write uchar_max (length x.bytes) s)

  unfoldable pub fill_table : List ℕ → Result SearchFault (ℕ → ℕ)
  fill_table alphabet = do
    s1 ← enter space (λ j. 0)
    s2 ← enter_letters alphabet s1
    s3 ← enter_all digits s2
    ok (write_ends s3)

  -- Without `optStart_mode` the table is neither filled nor read.
  unfoldable pub opt_start_table : List ℕ → Result SearchFault (ℕ → ℕ)
  opt_start_table alphabet = if t.opt_start_mode then fill_table alphabet else ok x.opt_start
