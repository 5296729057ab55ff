-- ===== src/Tests/Fold.antt =====
-- Tests of libcommon/str.c: letters of ASCII, each one byte.
use dictd.Prelude.{
  ℕ, ◌≡◌, refl, List, [], ◌∷◌, Bool, false, ◌&&◌, ◌||◌, arith, leb, ◌==◌, if◌then◌else◌,
}
use dictd.Prelude.Text.{codes}
use dictd.Prelude.Result.{Result, ok, err}
use dictd.Session.Commands.{to_lower}
use dictd.Fold.Chars.{
  Ctype, FoldFault, invalid, Multibyte, tolower_alnumspace_8bit, tolower_alnumspace_utf8,
}
use dictd.Fold.Utf8.{IsLocale, IsEncoding, text, tolower_alnumspace_utf8-text}

abbrev is_letter : ℕ → Bool
is_letter c = (leb 97 c && leb c 122) || (leb 65 c && leb c 90)

abbrev ascii : Ctype
ascii = record { isspace = λ c. c == 32; isalnum = is_letter; tolower = to_lower }

abbrev first_byte : List ℕ → Result FoldFault (ℕ × List ℕ)
first_byte [] = err invalid
first_byte (c ∷ l) = if leb c 127 then ok (c, l) else err invalid

abbrev single : Multibyte
single = record {
  mbrtowc = first_byte;
  wcrtomb = λ c. if leb c 127 then ok (c ∷ []) else err invalid;
}

abbrev one_byte : ℕ → List ℕ
one_byte c = c ∷ []

ascii-IsLocale : IsLocale ascii
unfolding to_lower
ascii-IsLocale = record {
  space_is_space = refl;
  lower_space = λ c. ground arith;
  lower_alnum = λ c. ground arith;
  lower_lower = λ c. ground arith;
}

single-IsEncoding : IsEncoding ascii single (λ c. leb c 127) one_byte
unfolding to_lower
single-IsEncoding = record {
  encoded = λ c v. rw v refl;
  decoded = λ c rest v. rw v refl;
  not_empty = λ c v. omega arith;
  space_byte = refl;
  lower_valid = λ c v. ground (arith, v);
}

tolower_alnumspace_utf8-text_example :
    (tolower_alnumspace_utf8 ascii false false single (text one_byte (codes "It's A"))
      ≡ ok (text one_byte (tolower_alnumspace_8bit ascii false false (codes "It's A"))))
    × (tolower_alnumspace_8bit ascii false false
          (tolower_alnumspace_8bit ascii false false (codes "It's A"))
        ≡ tolower_alnumspace_8bit ascii false false (codes "It's A"))
tolower_alnumspace_utf8-text_example =
    tolower_alnumspace_utf8-text ascii false false single (λ c. leb c 127) one_byte
      single-IsEncoding (codes "It's A") ascii-IsLocale
      (refl, (refl, (refl, (refl, (refl, (refl, tt))))))

its_a : tolower_alnumspace_8bit ascii false false (codes "It's A") ≡ codes "its a"
unfolding tolower_alnumspace_8bit to_lower
its_a = refl
