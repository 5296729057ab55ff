-- ===== src/Index/Order.antt =====
-- The order of headwords: what `compare_allchars` decides, and that it suits a sorted index.
use dictd.Prelude.{
  ℕ, zero, suc, ◌≤◌, ◌<◌, ◌≡◌, ◌≢◌, refl, List, [], ◌∷◌, ◌++◌, true, false, arith, ltb, ◌==◌,
  if◌then◌else◌, length, All,
}
use dictd.Prelude.Result.{ok}
use dictd.Index.Types.{Cmp, less, prefix, equal, greater, is_stop}
use dictd.Index.Compare.{compare_allchars}

-- The comparison of two words by bytes, independent of how the index stores them.
unfoldable pub lex : List ℕ → List ℕ → Cmp
lex [] [] = equal
lex [] (b ∷ bs) = prefix
lex (w ∷ ws) [] = greater
lex (w ∷ ws) (b ∷ bs) =
    let rest = lex ws bs in if w == b then rest else if ltb w b then less else greater

-- Bytes that end neither a column nor a line.
abbrev pub IsWord : List ℕ → Type 0
IsWord = All (λ c. is_stop c ≡ false)

-- On an entry with that headword, inside of the range, `compare_allchars` decides `lex`: it reads
-- no further than the byte behind the headword, so it never fails.
pub compare_allchars-lex :
    (word headword : List ℕ) (s : ℕ) (rest : List ℕ) (n : ℕ)
    → IsWord word
    → IsWord headword
    → is_stop s ≡ true
    → length headword < n
    → compare_allchars word (headword ++ s ∷ rest) n ≡ ok (lex word headword)
unfolding compare_allchars lex
compare_allchars-lex [] [] s rest n hw hh hs hn = ground arith
compare_allchars-lex [] (b ∷ bs) s rest n hw hh hs hn = ground arith
compare_allchars-lex (w ∷ ws) bs s rest zero hw hh hs hn = absurd (omega arith)
compare_allchars-lex (w ∷ ws) [] s rest (suc n) hw hh hs hn = ground (arith, hs, hw.0)
compare_allchars-lex (w ∷ ws) (b ∷ bs) s rest (suc n) hw hh hs hn =
    ground (arith, hw.0, hh.0, compare_allchars-lex ws bs s rest n hw.1 hh.1 hs (omega arith))

-- How far down a sorted index an entry stands, seen from the word: the entries before it, those that
-- equal it, those that it is a prefix of, those after.
abbrev pub rank : Cmp → ℕ
rank greater = 0
rank equal = 1
rank prefix = 2
rank less = 3

-- `a` does not come after `b`.
abbrev pub LexLe : List ℕ → List ℕ → Type 0
LexLe a b = lex a b ≢ greater

-- Down a sorted index the comparison with a word only moves forward.
pub rank-lex : (word a b : List ℕ) → LexLe a b → rank (lex word a) ≤ rank (lex word b)
unfolding lex
rank-lex [] [] [] h = omega arith
rank-lex [] [] (b ∷ bs) h = omega arith
rank-lex [] (a ∷ as') [] h = absurd (h refl)
rank-lex [] (a ∷ as') (b ∷ bs) h = omega arith
rank-lex (w ∷ ws) [] [] h = omega arith
rank-lex (w ∷ ws) [] (b ∷ bs) h = omega arith
rank-lex (w ∷ ws) (a ∷ as') [] h = absurd (h refl)
rank-lex (w ∷ ws) (a ∷ as') (b ∷ bs) h = ground (arith, rank-lex ws as' bs)
