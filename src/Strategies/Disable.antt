-- ===== src/Strategies/Disable.antt =====
-- libdictd/strategy.c: `dict_disable_strategies`, on a buffer of 400 bytes.
use dictd.Prelude.{
  ℕ, ◌≡◌, refl, List, [], ◌∷◌, ◌++◌, Option, none, some, Bool, true, false, not, ◌&&◌, ◌||◌, ◌==◌,
  arith, All, ltb, if◌then◌else◌, length, take, ap, ◌∙◌,
}
use dictd.Prelude.Text.{join}
use dictd.Prelude.Result.{Result, ok, err, ◌>>=◌, bind_cong}
use dictd.Strategies.Table.{Table, lookup_strategy_index, dict_disable_strategy}

-- `exit(1)` on an unknown name, `abort()`, and an access behind the buffer.
pub data Fault : Type 0 where
  unknown aborted overflow : Fault

abbrev pub comma : ℕ
comma = 44

-- The first loop, on the bytes of the buffer.
unfoldable pub cut_commas : List ℕ → List ℕ
cut_commas [] = []
cut_commas (c ∷ l) = (if c == comma then 0 else c) ∷ cut_commas l

-- The C string at a place of the buffer.
unfoldable pub c_string : List ℕ → List ℕ
c_string [] = []
c_string (c ∷ l) = if c == 0 then [] else c ∷ c_string l

abbrev pub or_abort : Option Table → Result Fault Table
or_abort none = err aborted
or_abort (some t) = ok t

unfoldable pub disable_at : Option ℕ → Table → Result Fault Table
disable_at none t = err unknown
disable_at (some i) t = or_abort (dict_disable_strategy i t)

unfoldable pub disable_name : List ℕ → Table → Result Fault Table
disable_name s t = disable_at (lookup_strategy_index s t) t

-- The second loop; `inside` is `i > 0 && buffer[i-1]`.
unfoldable pub disable_loop : Bool → List ℕ → Table → Result Fault Table
unfolding disable_name c_string
disable_loop inside [] t = ok t
disable_loop inside (c ∷ l) t =
    let next = disable_loop (not (c == 0)) l in
    if c == 0 || inside then next t else disable_name (c_string (c ∷ l)) t >>= next

-- strlcpy copies 399 bytes and a terminator; the loops run to the length of the argument.
unfoldable pub dict_disable_strategies : List ℕ → Table → Result Fault Table
unfolding disable_loop cut_commas
dict_disable_strategies strats t =
    if ltb 400 (length strats)
    then err overflow
    else if length strats == 400
    then disable_loop false (cut_commas (take 399 strats ++ (0 ∷ []))) t
    else disable_loop false (cut_commas strats) t

abbrev pub disable_each : List (List ℕ) → Table → Result Fault Table
disable_each [] t = ok t
disable_each (name ∷ names) t = disable_name name t >>= disable_each names

-- A name: a character or more, no commas and no zeros.
abbrev pub plain : List ℕ → Bool
plain [] = true
plain (c ∷ l) = not (c == comma) && not (c == 0) && plain l

abbrev pub IsName : List ℕ → Type 0
IsName [] = ⊥
IsName (c ∷ l) = plain (c ∷ l) ≡ true

cut_commas-append : (a b : List ℕ) → plain a ≡ true → cut_commas (a ++ b) ≡ a ++ cut_commas b
unfolding cut_commas
cut_commas-append [] b h = refl
cut_commas-append (c ∷ a) b h =
    let e : (c == comma) ≡ false = ground (arith, h) in
    rw (e, cut_commas-append a b (ground (arith, h))) refl

c_string_end : (a : List ℕ) → plain a ≡ true → c_string a ≡ a
unfolding c_string
c_string_end [] h = refl
c_string_end (c ∷ a) h =
    let e : (c == 0) ≡ false = ground (arith, h) in rw (e, c_string_end a (ground (arith, h))) refl

c_string_zero : (a b : List ℕ) → plain a ≡ true → c_string (a ++ (0 ∷ b)) ≡ a
unfolding c_string
c_string_zero [] b h = refl
c_string_zero (c ∷ a) b h =
    let e : (c == 0) ≡ false = ground (arith, h) in
    rw (e, c_string_zero a b (ground (arith, h))) refl

-- Inside a name the loop only goes on.
inside_end : (a : List ℕ) (t : Table) → plain a ≡ true → disable_loop true a t ≡ ok t
unfolding disable_loop
inside_end [] t h = refl
inside_end (c ∷ a) t h =
    let e : (c == 0) ≡ false = ground (arith, h) in rw (e, inside_end a t (ground (arith, h))) refl

inside_zero :
    (a b : List ℕ) (t : Table)
    → plain a ≡ true
    → disable_loop true (a ++ (0 ∷ b)) t ≡ disable_loop false b t
unfolding disable_loop
inside_zero [] b t h = refl
inside_zero (c ∷ a) b t h =
    let e : (c == 0) ≡ false = ground (arith, h) in
    rw (e, inside_zero a b t (ground (arith, h))) refl

loop_end : (a : List ℕ) (t : Table) → IsName a → disable_loop false a t ≡ disable_each (a ∷ []) t
unfolding disable_loop
loop_end [] t h = absurd h
loop_end (c ∷ a) t h =
    let e : (c == 0) ≡ false = ground (arith, h) in
    rw (e, c_string_end a (ground (arith, h)))
      (bind_cong (disable_name (c ∷ a) t) (disable_loop true a) ok
        (λ t'. inside_end a t' (ground (arith, h))))

loop_name :
    (a b : List ℕ) (t : Table)
    → IsName a
    → disable_loop false (a ++ (0 ∷ b)) t ≡ disable_name a t >>= disable_loop false b
unfolding disable_loop
loop_name [] b t h = absurd h
loop_name (c ∷ a) b t h =
    let e : (c == 0) ≡ false = ground (arith, h) in
    rw (e, c_string_zero a b (ground (arith, h)))
      (bind_cong (disable_name (c ∷ a) t) (disable_loop true (a ++ (0 ∷ b))) (disable_loop false b)
        (λ t'. inside_zero a b t' (ground (arith, h))))

IsName-plain : (a : List ℕ) → IsName a → plain a ≡ true
IsName-plain [] h = absurd h
IsName-plain (c ∷ a) h = h

cut_commas_name :
    (a b : List ℕ) → IsName a → cut_commas (a ++ (comma ∷ b)) ≡ a ++ (0 ∷ cut_commas b)
unfolding cut_commas
cut_commas_name a b h = cut_commas-append a (comma ∷ b) (IsName-plain a h)

cut_commas_end : (a : List ℕ) → plain a ≡ true → cut_commas a ≡ a
unfolding cut_commas
cut_commas_end [] h = refl
cut_commas_end (c ∷ a) h =
    let e : (c == comma) ≡ false = ground (arith, h) in
    rw (e, cut_commas_end a (ground (arith, h))) refl

pub loop-join :
    (names : List (List ℕ)) (t : Table)
    → All IsName names
    → disable_loop false (cut_commas (join names)) t ≡ disable_each names t
unfolding disable_loop cut_commas
loop-join [] t h = refl
loop-join (name ∷ []) t (h, _) =
    ap (λ l. disable_loop false l t) (cut_commas_end name (IsName-plain name h)) ∙ loop_end name t h
loop-join (name ∷ n ∷ names) t (h, hs) =
    ap (λ l. disable_loop false l t) (cut_commas_name name (join (n ∷ names)) h)
    ∙ loop_name name (cut_commas (join (n ∷ names))) t h
    ∙ bind_cong (disable_name name t) (disable_loop false (cut_commas (join (n ∷ names))))
        (disable_each (n ∷ names)) (λ t'. loop-join (n ∷ names) t' hs)
