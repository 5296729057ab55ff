-- ===== src/Access/Laws.antt =====
-- dictd/daemon.c: the checks of the access lists are safe for short specifications, and an address
-- range is checked as it is written.
use dictd.Prelude.{
  ℕ, ◌*◌, ◌≤◌, ◌<◌, ◌≡◌, refl, List, [], ◌∷◌, ◌++◌, Option, none, some, false, ◌↔◌, ◌||◌, ◌==◌,
  arith, leb, length, length-append, All, Bool-cases, Option-cases, inl, inr,
}
use dictd.Prelude.Result.{Result, ◌>>=◌, Returns, Returns-bind}
use dictd.Access.Checks.{
  Access, deny, allow, auth_only, user, group, found_match, no_match, AccessFault, Client, split_at,
  colon, slash, is_empty, in_range, translate_char, translate, daemon_check_wildcard,
  daemon_check_range, range_parts, check_range_parts, check_spec,
}
use dictd.Access.Lists.{Entry, is_user, after_check, check_entry, check_entries, daemon_check_list}

translate_char-length : (c : ℕ) → length (translate_char c) ≤ 2
unfolding translate_char
translate_char-length c = ground arith

-- A wildcard translates to a regular expression of at most twice its length.
pub length-translate : (spec : List ℕ) → length (translate spec) ≤ 2 * length spec
unfolding translate
length-translate [] = omega arith
length-translate (c ∷ s) = omega (
  arith,
  translate_char-length c,
  length-translate s,
  length-append (translate_char c) (translate s),
)

-- The results that a list can have.
abbrev pub Verdict : Access → Type 0
Verdict deny = Unit
Verdict allow = Unit
Verdict auth_only = Unit
Verdict _ = ⊥

module _ (cl : Client) where
  daemon_check_wildcard-Returns :
      (spec : List ℕ) → length spec < 128 → Returns (daemon_check_wildcard cl spec) (λ r. Unit {0})
  unfolding daemon_check_wildcard
  daemon_check_wildcard-Returns spec h =
      let fits : leb 256 (length (translate spec)) ≡ false =
        ground (arith, length-translate spec, h) in
      rw fits (elim (Option-cases (cl.regcomp (translate spec))) [
        | inl e ↦ rw e tt
        | inr (m, e) ↦
            rw e
              (elim (Bool-cases (m cl.hostname || m cl.ip)) [ inl f ↦ rw f tt | inr f ↦ rw f tt ])
      ])

  check_spec-Returns :
      (spec : List ℕ) → length spec < 128 → Returns (check_spec cl spec) (λ r. Unit {0})
  unfolding check_spec
  check_spec-Returns spec h = elim (Option-cases (split_at slash spec)) [
    | inr (a, e) ↦ rw (e, check_spec) tt
    | inl e ↦ elim (Option-cases (split_at colon spec)) [
      | inr (a, f) ↦ rw (e, check_spec) (rw f tt)
      | inl f ↦ rw (e, check_spec) (rw f (daemon_check_wildcard-Returns spec h))
    ]
  ]

  module _ (name : Option (List ℕ)) where
    after_check-Verdict :
        (type r : Access) (more : Result AccessFault Access)
        → Verdict type
        → Returns more Verdict
        → Returns (after_check type r more) Verdict
    unfolding after_check
    after_check-Verdict type deny more v h = tt
    after_check-Verdict type found_match more v h = v
    after_check-Verdict type allow more v h = h
    after_check-Verdict type auth_only more v h = h
    after_check-Verdict type user more v h = h
    after_check-Verdict type group more v h = h
    after_check-Verdict type no_match more v h = h

    checked-Verdict :
        (type : Access) (spec : List ℕ) (more : Result AccessFault Access)
        → Verdict type
        → length spec < 128
        → Returns more Verdict
        → Returns (check_spec cl spec >>= λ r. after_check type r more) Verdict
    checked-Verdict type spec more v h m =
        Returns-bind (check_spec cl spec) (λ r. after_check type r more) (λ r. Unit {0}) Verdict
          (check_spec-Returns spec h) (λ r _. after_check-Verdict type r more v m)

    check_entry-Verdict :
        (type : Access) (spec : List ℕ) (more : Result AccessFault Access)
        → length spec < 128
        → Returns more Verdict
        → Returns (check_entry cl name type spec more) Verdict
    unfolding check_entry
    check_entry-Verdict deny spec more h m = checked-Verdict deny spec more tt h m
    check_entry-Verdict allow spec more h m = checked-Verdict allow spec more tt h m
    check_entry-Verdict auth_only spec more h m = checked-Verdict auth_only spec more tt h m
    check_entry-Verdict user spec more h m = elim (Bool-cases (is_user name spec)) [
      | inl e ↦ rw e tt
      | inr e ↦ rw e m
    ]
    check_entry-Verdict group spec more h m = m
    check_entry-Verdict found_match spec more h m = m
    check_entry-Verdict no_match spec more h m = m

    check_entries-Verdict :
        (acl : List Entry)
        → All (λ (a : Entry). length a.spec < 128) acl
        → Returns (check_entries cl name acl) Verdict
    unfolding check_entries
    check_entries-Verdict [] h = tt
    check_entries-Verdict (a ∷ acl) (h, k) =
        check_entry-Verdict a.type a.spec (check_entries cl name acl) h
          (check_entries-Verdict acl k)

    -- An access list whose specifications are shorter than 128 characters is checked without
    -- overflowing the buffer for the regular expression, and the result is one of DICT_DENY,
    -- DICT_ALLOW and DICT_AUTHONLY, never a result of the address checks or another entry type.
    pub daemon_check_list-Verdict :
        (acl : List Entry)
        → All (λ (a : Entry). length a.spec < 128) acl
        → Returns (daemon_check_list cl name (some acl)) Verdict
    unfolding daemon_check_list
    daemon_check_list-Verdict acl h = check_entries-Verdict acl h

-- No character of the string is a colon.
abbrev pub NoColon : List ℕ → Type 0
NoColon s = All (λ (c : ℕ). (c == colon) ≡ false) s

split_at-none : (s : List ℕ) → NoColon s → split_at colon s ≡ none
unfolding split_at
split_at-none [] h = refl
split_at-none (c ∷ s) (h, k) = rw h (rw (split_at-none s k) refl)

split_at-append : (a b : List ℕ) → NoColon a → split_at colon (a ++ (colon ∷ b)) ≡ some (a, b)
unfolding split_at
split_at-append [] b h = refl
split_at-append (c ∷ a) b (h, k) = rw h (rw (split_at-append a b k) refl)

daemon_check_range_parts :
    (cl : Client) (lo hi : List ℕ)
    → NoColon lo
    → NoColon hi
    → is_empty hi ≡ false
    → daemon_check_range cl (lo ++ (colon ∷ hi)) ≡ range_parts cl lo hi
unfolding check_range_parts daemon_check_range
daemon_check_range_parts cl lo hi a b e =
    rw (split_at-append lo hi a, daemon_check_range)
      (rw (split_at-none hi b, check_range_parts) (rw e refl))

range_parts-in_range :
    (cl : Client) (lo hi : List ℕ) (target l h : ℕ)
    → cl.inet_pton cl.ip ≡ some target
    → cl.inet_pton lo ≡ some l
    → cl.inet_pton hi ≡ some h
    → range_parts cl lo hi ≡ in_range target l h
unfolding range_parts in_range
range_parts-in_range cl lo hi target l h t p q = rw (t, range_parts) (rw p (rw q refl))

-- A specification `lo:hi` of two addresses without colons, of which the second is not empty, matches
-- exactly the clients whose address, as a number, lies between the two, both included; all
-- addresses being readable.
pub daemon_check_range-in_range :
    (cl : Client) (lo hi : List ℕ) (target l h : ℕ)
    → NoColon lo
    → NoColon hi
    → is_empty hi ≡ false
    → cl.inet_pton cl.ip ≡ some target
    → cl.inet_pton lo ≡ some l
    → cl.inet_pton hi ≡ some h
    → (daemon_check_range cl (lo ++ (colon ∷ hi)) ≡ found_match) ↔ ((l ≤ target) × (target ≤ h))
unfolding in_range
daemon_check_range-in_range cl lo hi target l h a b e t p q =
    rw (daemon_check_range_parts cl lo hi a b e)
      (rw (range_parts-in_range cl lo hi target l h t p q) (ground arith))
