-- ===== src/Anagram/Reversed.antt =====
-- libdictd/index.c: an anagram is the word read backwards, character by character.
use dictd.Prelude.{
  ℕ, zero, suc, ◌+◌, ◌≤◌, ◌<◌, ◌≡◌, refl, sym, ap, ◌∙◌, ◌⊎◌, inl, inr, List, [], ◌∷◌, ◌++◌,
  append_assoc, append-nil, Option, some, true, false, arith, ltb, length, length-append,
  length-zero, set, take, drop, All,
}
use mathlib.Core.List.{reverse, reverse-cons, reverse-append, reverse-reverse}
use dictd.Lev.Rounds.{get_or_at, set_at}
use dictd.Anagram.Swap.{
  swap, swap_loop, stranagram_8bit, turned, put_before, turn_char, turn_loop, turn_all,
  stranagram_utf8,
}

swap_ends :
    (a m b : List ℕ) (c d j : ℕ)
    → j ≡ length a + suc (length m)
    → swap (length a) j (a ++ (c ∷ (m ++ (d ∷ b)))) ≡ a ++ (d ∷ (m ++ (c ∷ b)))
unfolding swap
swap_ends [] m b c d j e =
    let k : j ≡ suc (length m) = omega (arith, e) in
    ap (λ n. swap 0 n (c ∷ (m ++ (d ∷ b)))) k
    ∙ ap (λ x. x ∷ set (m ++ (d ∷ b)) (length m) c) (get_or_at m d b)
    ∙ ap (λ l. d ∷ l) (set_at m d c b)
swap_ends (x ∷ a) m b c d zero e = absurd (omega (arith, e))
swap_ends (x ∷ a) m b c d (suc j) e = ap (λ l. x ∷ l) (swap_ends a m b c d j (omega (arith, e)))

-- A list is empty or has a last element.
last_of : (m : List ℕ) → (m ≡ []) ⊎ ((mid : List ℕ) × (d : ℕ) × (m ≡ mid ++ (d ∷ [])))
last_of [] = inl refl
last_of (c ∷ m) = elim (last_of m) [
  | inl e ↦ inr ([], c, ap (λ l. c ∷ l) e)
  | inr (mid, d, e) ↦ inr (c ∷ mid, d, ap (λ l. c ∷ l) e)
]

around : (a m b : List ℕ) (c d : ℕ) → a ++ ((c ∷ (m ++ (d ∷ []))) ++ b) ≡ a ++ (c ∷ (m ++ (d ∷ b)))
around a m b c d = ap (λ l. a ++ (c ∷ l)) (append_assoc m (d ∷ []) b)

reverse_ends : (m : List ℕ) (c d : ℕ) → reverse (c ∷ (m ++ (d ∷ []))) ≡ d ∷ (reverse m ++ (c ∷ []))
reverse_ends m c d =
    reverse-cons c (m ++ (d ∷ [])) ∙ ap (λ l. l ++ (c ∷ [])) (reverse-append m (d ∷ []))

reverse_around :
    (m mid b : List ℕ) (c d : ℕ)
    → m ≡ mid ++ (d ∷ [])
    → reverse (c ∷ m) ++ b ≡ d ∷ (reverse mid ++ (c ∷ b))
reverse_around m mid b c d n =
    ap (λ l. reverse (c ∷ l) ++ b) n
    ∙ ap (λ l. l ++ b) (reverse_ends mid c d)
    ∙ ap (λ l. d ∷ l) (append_assoc (reverse mid) (c ∷ []) b)

-- The loop on the part between the two numbers.
swap_loop-reverse :
    (fuel k : ℕ) (a m b : List ℕ)
    → length m ≤ fuel
    → k ≡ length a + length m
    → swap_loop (length a) k (a ++ (m ++ b)) ≡ a ++ (reverse m ++ b)
unfolding swap_loop
swap_loop-reverse fuel zero a m b h e = let n = length-zero m (omega (arith, e)) in rw n refl
swap_loop-reverse fuel (suc j) a [] b h e =
    let f : ltb (length a) j ≡ false = ground (arith, e) in rw f refl
swap_loop-reverse zero (suc j) a (c ∷ m) b h e = absurd (omega (arith, h))
swap_loop-reverse (suc fuel) (suc j) a (c ∷ m) b h e = elim (last_of m) [
  | inl n ↦ let f : ltb (length a) j ≡ false = ground (arith, e, ap length n) in rw (n, f) refl
  | inr (mid, d, n) ↦
      let len = ap length n ∙ length-append mid (d ∷ []) in
      let f : ltb (length a) j ≡ true = ground (arith, e, len) in
      let g =
        ap (λ l. swap (length a) j (a ++ ((c ∷ l) ++ b))) n
        ∙ ap (swap (length a) j) (around a mid b c d)
        ∙ swap_ends a mid b c d j (omega (arith, e, len)) in
      let one : suc (length a) ≡ length (a ++ (d ∷ [])) = omega (arith, length-append a (d ∷ [])) in
      let ih =
        swap_loop-reverse fuel j (a ++ (d ∷ [])) mid (c ∷ b) (omega (arith, h, len))
          (omega (arith, e, len, one)) in
      rw f (
        ap (swap_loop (suc (length a)) j) g
        ∙ ap (λ i. swap_loop i j (a ++ (d ∷ (mid ++ (c ∷ b))))) one
        ∙ ap (swap_loop (length (a ++ (d ∷ []))) j) (sym (append_assoc a (d ∷ []) (mid ++ (c ∷ b))))
        ∙ ih
        ∙ append_assoc a (d ∷ []) (reverse mid ++ (c ∷ b))
        ∙ ap (λ l. a ++ l) (sym (reverse_around m mid b c d n)))
]

pub stranagram_8bit-reverse : (str : List ℕ) → stranagram_8bit str ≡ reverse str
unfolding stranagram_8bit
stranagram_8bit-reverse str =
    ap (swap_loop 0 (length str)) (sym (append-nil str))
    ∙ swap_loop-reverse (length str) (length str) [] str [] (omega arith) (omega arith)
    ∙ append-nil (reverse str)

-- The characters of a text: each has one byte or more, and mbrlen gives their number.
pub record IsChars (mbrlen : List ℕ → Option ℕ) (chars : List (List ℕ)) : Type 0 where
  pub not_empty : All (λ (c : List ℕ). 0 < length c) chars
  pub measured : All (λ (c : List ℕ). (rest : List ℕ) → mbrlen (c ++ rest) ≡ some (length c)) chars

abbrev pub flat : List (List ℕ) → List ℕ
flat [] = []
flat (c ∷ chars) = c ++ flat chars

abbrev pub turned_each : List (List ℕ) → List (List ℕ)
turned_each [] = []
turned_each (c ∷ chars) = reverse c ∷ turned_each chars

flat-append : (a b : List (List ℕ)) → flat (a ++ b) ≡ flat a ++ flat b
flat-append [] b = refl
flat-append (c ∷ a) b = ap (λ l. c ++ l) (flat-append a b) ∙ sym (append_assoc c (flat a) (flat b))

-- Turning the turned characters round gives them in the other order.
reverse-flat : (chars : List (List ℕ)) → reverse (flat (turned_each chars)) ≡ flat (reverse chars)
reverse-flat [] = refl
reverse-flat (c ∷ chars) =
    reverse-append (reverse c) (flat (turned_each chars))
    ∙ ap (λ l. reverse (flat (turned_each chars)) ++ l) (reverse-reverse c)
    ∙ ap (λ l. l ++ c) (reverse-flat chars)
    ∙ ap (λ l. flat (reverse chars) ++ l) (sym (append-nil c))
    ∙ sym (flat-append (reverse chars) (c ∷ []))
    ∙ ap flat (sym (reverse-cons c chars))

turned-reverse : (mbrlen : List ℕ → Option ℕ) (c : List ℕ) → turned mbrlen (length c) c ≡ reverse c
turned-reverse mbrlen [] = refl
turned-reverse mbrlen (x ∷ []) = refl
turned-reverse mbrlen (x ∷ y ∷ c) =
    let f : ltb 1 (suc (suc (length c))) ≡ true = ground arith in
    rw f (stranagram_8bit-reverse (x ∷ (y ∷ c)))

take_front : (c rest : List ℕ) → take (length c) (c ++ rest) ≡ c
take_front [] rest = refl
take_front (x ∷ c) rest = ap (λ l. x ∷ l) (take_front c rest)

drop_front : (c rest : List ℕ) → drop (length c) (c ++ rest) ≡ rest
drop_front [] rest = refl
drop_front (x ∷ c) rest = drop_front c rest

module _ (mbrlen : List ℕ → Option ℕ) where
  -- A round where there are bytes.
  round :
      (fuel : ℕ) (p : List ℕ)
      → 0 < length p
      → turn_loop mbrlen (suc fuel) p ≡ turn_char mbrlen p (turn_loop mbrlen fuel) (mbrlen p)
  unfolding turn_loop
  round fuel [] h = absurd (omega (arith, h))
  round fuel (c ∷ p) h = refl

  turn_loop-each :
      (fuel : ℕ) (chars : List (List ℕ))
      → All (λ (c : List ℕ). 0 < length c) chars
      → All (λ (c : List ℕ). (rest : List ℕ) → mbrlen (c ++ rest) ≡ some (length c)) chars
      → length (flat chars) < fuel
      → turn_loop mbrlen fuel (flat chars) ≡ some (flat (turned_each chars))
  unfolding turn_loop turn_char
  turn_loop-each zero chars n m h = absurd (omega (arith, h))
  turn_loop-each (suc fuel) [] n m h = refl
  turn_loop-each (suc fuel) (c ∷ chars) (n, ns) (m, ms) h =
      let len = length-append c (flat chars) in
      let ih = turn_loop-each fuel chars ns ms (omega (arith, h, n, len)) in
      round fuel (c ++ flat chars) (omega (arith, n, len))
      ∙ ap (turn_char mbrlen (c ++ flat chars) (turn_loop mbrlen fuel)) (m (flat chars))
      ∙ ap
          (λ l.
            put_before mbrlen (turned mbrlen (length c) l)
              (turn_loop mbrlen fuel (drop (length c) (c ++ flat chars))))
          (take_front c (flat chars))
      ∙ ap (λ l. put_before mbrlen (turned mbrlen (length c) c) (turn_loop mbrlen fuel l))
          (drop_front c (flat chars))
      ∙ ap (put_before mbrlen (turned mbrlen (length c) c)) ih
      ∙ ap (λ l. some (l ++ flat (turned_each chars))) (turned-reverse mbrlen c)

  -- The anagram of a text in UTF-8 always exists, and is the text of its characters in the opposite
  -- order: every character keeps its bytes in their order. mbrlen gives the number of bytes of each
  -- character of the text, one or more.
  pub stranagram_utf8-reverse :
      (chars : List (List ℕ))
      → IsChars mbrlen chars
      → stranagram_utf8 mbrlen (flat chars) ≡ some (flat (reverse chars))
  unfolding stranagram_utf8
  stranagram_utf8-reverse chars h =
      let e =
        turn_loop-each (suc (length (flat chars))) chars h.not_empty h.measured (omega arith) in
      ap (turn_all mbrlen) e
      ∙ ap some (stranagram_8bit-reverse (flat (turned_each chars)) ∙ reverse-flat chars)
