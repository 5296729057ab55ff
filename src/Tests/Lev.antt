-- ===== src/Tests/Lev.antt =====
-- Tests of libdictd/lev.h on the index of two lines, with the headwords a and b.
use dictd.Prelude.{ℕ, ◌≡◌, refl, List, [], ◌∷◌, Option, none, some, if◌then◌else◌}
use dictd.Prelude.Result.{Returns}
use dictd.Daemon.Databases.{same_string}
use dictd.Index.Compare.{compare, compare_allchars}
use dictd.Index.Lines.{find_prev, find_next}
use dictd.Index.Search.{
  dict_index_search, binary_search, linear_search, search_loop, linear_loop, middle,
}
use dictd.Index.Word.{DictWord, dict_word_create, scan_columns, quote}
use dictd.Lev.Candidates.{
  candidates, sweep, copy_but, deletion_round, copy_with, insertion_round, substitution_round,
  transposition_round, exchange, beginnings,
}
use dictd.Lev.Search.{find_equal, dict_search_lev_8bit}
use dictd.Lev.Distance.{absent, present, Neighbours, dict_search_lev_8bit-Neighbours}
use dictd.Tests.Index.{tables, index, letter_b}

abbrev letter_a : List ℕ
letter_a = b'a' ∷ []

abbrev no_digits : List ℕ → ℕ
no_digits _ = 0

abbrev entry_b : DictWord
entry_b = record { word = letter_b; start = 0; stop = 0 }

abbrev answer : List ℕ → Option DictWord
answer w = if same_string w letter_b then some entry_b else none

-- The words at one edit from ab, with the letter c.
neighbours_of_ab :
    candidates (b'c' ∷ []) (b'a' ∷ letter_b)
    ≡ letter_b
      ∷ letter_a
      ∷ (b'b' ∷ letter_a)
      ∷ (b'a' ∷ b'c' ∷ letter_b)
      ∷ (b'a' ∷ b'b' ∷ b'c' ∷ [])
      ∷ (b'c' ∷ b'a' ∷ letter_b)
      ∷ (b'c' ∷ letter_b)
      ∷ (b'a' ∷ b'c' ∷ [])
      ∷ []
unfolding candidates sweep deletion_round copy_but transposition_round exchange insertion_round
    copy_with beginnings substitution_round
neighbours_of_ab = refl

-- Of the words at one edit from a, with the letter b, only b is in the index.
dict_search_lev_8bit-Neighbours_example :
    Returns
      (dict_search_lev_8bit no_digits tables index 0 [] letter_a letter_b)
      (Neighbours answer letter_b letter_a [])
unfolding candidates same_string find_equal dict_index_search binary_search linear_search
    search_loop linear_loop middle find_prev find_next compare compare_allchars dict_word_create
    scan_columns sweep deletion_round copy_but insertion_round copy_with beginnings
    substitution_round quote
dict_search_lev_8bit-Neighbours_example =
    dict_search_lev_8bit-Neighbours answer no_digits tables index [] letter_a letter_b
      (absent refl, (absent refl, (absent refl, (present 4 entry_b refl refl, tt))))
