-- ===== src/Access/Checks.antt =====
-- dictd/daemon.c: `daemon_check_mask`, `daemon_check_range` and `daemon_check_wildcard`, the checks of
-- one specification against the client's address. inet_pton (with ntohl), strtol and regcomp with
-- regexec are parameters; the log is left out.
use Prim.Native.Nat.{bit_and}
use dictd.Prelude.{
  ℕ, ◌-◌, ◌^◌, List, [], ◌∷◌, ◌++◌, Option, none, some, Bool, true, false, ◌&&◌, ◌||◌, ltb, leb,
  ◌==◌, if◌then◌else◌, length,
}
use dictd.Prelude.Int.{ℤ, pos, negsuc}
use dictd.Prelude.Result.{Result, ok, err}

-- The types of access entries, which are also results of the checks (DICT_DENY ... DICT_NOMATCH).
pub data Access : Type 0 where
  deny allow auth_only user group found_match no_match : Access

-- `regbuf_overflow`: the translated pattern does not fit `regbuf`.
pub data AccessFault : Type 0 where
  regbuf_overflow : AccessFault

-- strchr: what stands before the first `c`, and behind it.
unfoldable pub split_at : ℕ → List ℕ → Option (List ℕ × List ℕ)
split_at c [] = none
split_at c (d ∷ s) =
    let rest = split_at c s in
    if d == c then some ([], s) else elim rest [ none ↦ none | some (a, b) ↦ some (d ∷ a, b) ]

abbrev pub slash : ℕ
slash = 47

abbrev pub colon : ℕ
colon = 58

unfoldable pub is_empty : List ℕ → Bool
is_empty [] = true
is_empty (c ∷ s) = false

-- For one bit, `(1 << 31) - 1` leaves the range of int; as a 32-bit word it is what stands here.
unfoldable pub daemon_compute_mask : ℕ → ℕ
daemon_compute_mask bits =
    if ltb bits 1 then 0 else if ltb bits 32 then 4294967295 - (2 ^ (32 - bits) - 1) else 4294967295

unfoldable pub in_range : ℕ → ℕ → ℕ → Access
in_range target lo hi = if leb lo target && leb target hi then found_match else no_match

-- One character of a wildcard as a regular expression.
unfoldable pub translate_char : ℕ → List ℕ
translate_char c =
    if c == 42
    then 46 ∷ (42 ∷ [])
    else if c == 46
    then 92 ∷ (46 ∷ [])
    else if c == 63
    then 46 ∷ []
    else c ∷ []

unfoldable pub translate : List ℕ → List ℕ
unfolding translate_char
translate [] = []
translate (c ∷ s) = translate_char c ++ translate s

-- What the checks ask of the libraries, and the client's name and address.
pub record Client : Type 0 where
  pub inet_pton : List ℕ → Option ℕ
  pub strtol : List ℕ → ℤ
  pub regcomp : List ℕ → Option (List ℕ → Bool)
  pub hostname : List ℕ
  pub ip : List ℕ

unfoldable pub mask_match : ℕ → ℕ → ℤ → Access
unfolding daemon_compute_mask
mask_match target mask (negsuc n) = deny
mask_match target mask (pos bits) =
    let m = daemon_compute_mask bits in
    if ltb 32 bits
    then deny
    else if bit_and target m == bit_and mask m
    then found_match
    else no_match

module _ (cl : Client) where
  unfoldable pub mask_parts : List ℕ → List ℕ → Access
  mask_parts address bits = if is_empty bits then deny else elim (cl.inet_pton cl.ip) [
    | none ↦ deny
    | some target ↦ elim (cl.inet_pton address) [
      | none ↦ deny
      | some mask ↦ mask_match target mask (cl.strtol bits)
    ]
  ]

  unfoldable pub daemon_check_mask : List ℕ → Access
  unfolding mask_parts split_at is_empty mask_match
  daemon_check_mask spec = elim (split_at slash spec) [
    | none ↦ deny
    | some (address, bits) ↦ mask_parts address bits
  ]

  unfoldable pub range_parts : List ℕ → List ℕ → Access
  unfolding in_range
  range_parts lo hi = elim (cl.inet_pton cl.ip) [
    | none ↦ deny
    | some target ↦ elim (cl.inet_pton lo) [
      | none ↦ deny
      | some l ↦ elim (cl.inet_pton hi) [ none ↦ deny | some h ↦ in_range target l h ]
    ]
  ]

  -- More than one colon, or nothing behind it, is refused.
  unfoldable pub check_range_parts : List ℕ → List ℕ → Access
  unfolding range_parts
  check_range_parts lo hi = elim (split_at colon hi) [
    | some _ ↦ deny
    | none ↦ if is_empty hi then deny else range_parts lo hi
  ]

  unfoldable pub daemon_check_range : List ℕ → Access
  unfolding check_range_parts split_at is_empty
  daemon_check_range spec = elim (split_at colon spec) [
    | none ↦ deny
    | some (lo, hi) ↦ check_range_parts lo hi
  ]

  -- `regbuf` has 256 bytes, NUL included.
  unfoldable pub daemon_check_wildcard : List ℕ → Result AccessFault Access
  unfolding translate
  daemon_check_wildcard spec =
      if leb 256 (length (translate spec))
      then err regbuf_overflow
      else elim (cl.regcomp (translate spec)) [
        | none ↦ ok deny
        | some m ↦ if m cl.hostname || m cl.ip then ok found_match else ok no_match
      ]

  -- The check that the characters of the specification ask for.
  unfoldable pub check_spec : List ℕ → Result AccessFault Access
  check_spec spec = elim (split_at slash spec) [
    | some _ ↦ ok (daemon_check_mask spec)
    | none ↦ elim (split_at colon spec) [
      | some _ ↦ ok (daemon_check_range spec)
      | none ↦ daemon_check_wildcard spec
    ]
  ]
