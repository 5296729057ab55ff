-- ===== src/Fold/Chars.antt =====
-- libcommon/str.c: `tolower_alnumspace`. The functions of the C locale are parameters; bytes are
-- zero nowhere.
use dictd.Prelude.{
  ℕ, zero, suc, List, [], ◌∷◌, ◌++◌, Bool, true, false, ◌||◌, if◌then◌else◌, length,
}
use dictd.Prelude.Result.{Result, ok, err, ◌>>=◌}

-- isspace, isalnum and tolower, of bytes or of wide characters.
pub record Ctype : Type 0 where
  pub isspace : ℕ → Bool
  pub isalnum : ℕ → Bool
  pub tolower : ℕ → ℕ

-- mbrtowc and wcrtomb: a wide character and the bytes behind it, and its bytes; or an error.
pub data FoldFault : Type 0 where
  invalid no_fuel : FoldFault

pub record Multibyte : Type 0 where
  pub mbrtowc : List ℕ → Result FoldFault (ℕ × List ℕ)
  pub wcrtomb : ℕ → Result FoldFault (List ℕ)

abbrev pub space : ℕ
space = 32

module _ (ct : Ctype) (allchars_mode cs_mode : Bool) where
  abbrev pub lower : ℕ → ℕ
  lower c = if cs_mode then c else ct.tolower c

  unfoldable pub tolower_alnumspace_8bit : List ℕ → List ℕ
  tolower_alnumspace_8bit [] = []
  tolower_alnumspace_8bit (c ∷ src) =
      let dest = tolower_alnumspace_8bit src in
      if ct.isspace c
      then space ∷ dest
      else if allchars_mode || ct.isalnum c
      then lower c ∷ dest
      else dest

  module _ (mb : Multibyte) where
    -- What one character leaves.
    unfoldable pub put_char : ℕ → Result FoldFault (List ℕ)
    put_char c =
        if ct.isspace c
        then ok (space ∷ [])
        else if allchars_mode || ct.isalnum c
        then mb.wcrtomb (lower c)
        else ok []

    -- The loop; a character has a byte or more.
    unfoldable pub utf8_loop : ℕ → List ℕ → Result FoldFault (List ℕ)
    utf8_loop zero src = err no_fuel
    utf8_loop (suc fuel) [] = ok []
    utf8_loop (suc fuel) (b ∷ src) = do
      (c, rest) ← mb.mbrtowc (b ∷ src)
      piece ← put_char c
      dest ← utf8_loop fuel rest
      ok (piece ++ dest)

    unfoldable pub tolower_alnumspace_utf8 : List ℕ → Result FoldFault (List ℕ)
    unfolding utf8_loop
    tolower_alnumspace_utf8 src = utf8_loop (suc (length src)) src

    unfoldable pub tolower_alnumspace : Bool → List ℕ → Result FoldFault (List ℕ)
    tolower_alnumspace true src = tolower_alnumspace_utf8 src
    tolower_alnumspace false src = ok (tolower_alnumspace_8bit src)
