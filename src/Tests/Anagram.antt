-- ===== src/Tests/Anagram.antt =====
-- Tests of the anagrams of libdictd/index.c: a text of an a and a character of two bytes.
use dictd.Prelude.{ℕ, ◌≡◌, refl, List, [], ◌∷◌, Option, none, some, arith, leb, if◌then◌else◌}
use mathlib.Core.List.{reverse}
use dictd.Anagram.Swap.{swap_loop, swap, stranagram_8bit, stranagram_utf8, turn_loop, turn_char}
use dictd.Anagram.Reversed.{flat, stranagram_utf8-reverse}

-- Two bytes from 192 on.
abbrev first_length : List ℕ → Option ℕ
first_length [] = none
first_length (c ∷ l) = some (if leb 192 c then 2 else 1)

abbrev a_and_umlaut : List (List ℕ)
a_and_umlaut = (97 ∷ []) ∷ (195 ∷ 164 ∷ []) ∷ []

stranagram_utf8-reverse_example :
    stranagram_utf8 first_length (flat a_and_umlaut) ≡ some (flat (reverse a_and_umlaut))
stranagram_utf8-reverse_example = stranagram_utf8-reverse first_length a_and_umlaut (record {
  not_empty = (omega arith, (omega arith, tt));
  measured = ((λ rest. refl), ((λ rest. refl), tt));
})

umlaut_and_a : stranagram_utf8 first_length (97 ∷ 195 ∷ 164 ∷ []) ≡ some (195 ∷ 164 ∷ 97 ∷ [])
unfolding stranagram_utf8 turn_loop turn_char stranagram_8bit swap_loop swap
umlaut_and_a = refl
