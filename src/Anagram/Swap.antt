-- ===== src/Anagram/Swap.antt =====
-- libdictd/index.c: `stranagram_8bit`, `stranagram_utf8`, `stranagram`. mbrlen is a parameter, `none`
-- where it gives an error.
use dictd.Prelude.{
  ℕ, zero, suc, List, [], ◌∷◌, ◌++◌, Option, none, some, Bool, true, false, ltb, if◌then◌else◌,
  length, get_or, set, take, drop,
}

-- v = *i; *i = *j; *j = v
unfoldable pub swap : ℕ → ℕ → List ℕ → List ℕ
swap i j str = set (set str i (get_or str j 0)) j (get_or str i 0)

-- The loop; `j` is one before the second number.
unfoldable pub swap_loop : ℕ → ℕ → List ℕ → List ℕ
swap_loop i zero str = str
swap_loop i (suc j) str =
    let next = swap_loop (suc i) j (swap i j str) in if ltb i j then next else str

unfoldable pub stranagram_8bit : List ℕ → List ℕ
stranagram_8bit str = swap_loop 0 (length str) str

module _ (mbrlen : List ℕ → Option ℕ) where
  abbrev pub turned : ℕ → List ℕ → List ℕ
  turned len piece = if ltb 1 len then stranagram_8bit piece else piece

  abbrev pub put_before : List ℕ → Option (List ℕ) → Option (List ℕ)
  put_before piece none = none
  put_before piece (some rest) = some (piece ++ rest)

  -- A character of a length, with the rest of the loop; the string ends after the last.
  unfoldable pub turn_char : List ℕ → (List ℕ → Option (List ℕ)) → Option ℕ → Option (List ℕ)
  turn_char p next none = none
  turn_char p next (some len) = put_before (turned len (take len p)) (next (drop len p))

  -- The loop over the characters: each is turned round by itself. `none` also if the fuel is used up.
  unfoldable pub turn_loop : ℕ → List ℕ → Option (List ℕ)
  turn_loop zero p = none
  turn_loop (suc fuel) [] = some []
  turn_loop (suc fuel) (c ∷ p) = turn_char (c ∷ p) (turn_loop fuel) (mbrlen (c ∷ p))

  abbrev pub turn_all : Option (List ℕ) → Option (List ℕ)
  turn_all none = none
  turn_all (some str) = some (stranagram_8bit str)

  unfoldable pub stranagram_utf8 : List ℕ → Option (List ℕ)
  stranagram_utf8 str = turn_all (turn_loop (suc (length str)) str)

  unfoldable pub stranagram : List ℕ → Bool → Option (List ℕ)
  stranagram str true = stranagram_utf8 str
  stranagram str false = some (stranagram_8bit str)
