-- ===== src/Virtual/Shown.antt =====
-- libdictd/index.c: `dict_search` counts what it adds, and hides the hidden members.
use dictd.Prelude.{
  suc, ◌≤◌, ◌≡◌, refl, sym, ap, ◌∙◌, ◌⊎◌, inl, inr, List, [], ◌∷◌, ◌++◌, append-nil, Option, none,
  some, true, false, arith, length, length-zero, Bool-cases, All,
}
use mathlib.Core.Path.{subst}
use dictd.Prelude.Int.{ℤ, pos, ltb_ℤ, eqb_ℤ, eqb_ℤ→eq}
use dictd.Prelude.Result.{ok, err, Returns}
use dictd.Daemon.Types.{Database, DictWord}
use dictd.Virtual.Search.{
  Search, Counted, visible_as, replace_database, replace_invisible_databases, replace_new,
  mark_found,
}

-- New words at the end of the list, as many as the count, each with the property.
abbrev pub Grew : (DictWord → Type 0) → List DictWord → ℤ × Search → Type 0
Grew P l (count, s) =
    (new : List DictWord) × (s.list ≡ l ++ new) × (count ≡ pos (length new)) × All P new

abbrev pub Any : DictWord → Type 0
Any w = Unit

-- The database that is shown with the word is not a hidden one.
abbrev pub Shown : DictWord → Type 0
Shown w = (w.database.invisible ≡ false) ⊎ ((db : Database) × (w.database_visible ≡ some db))

visible_as-Shown :
    (db : Database) (w : DictWord) (o : Option Database)
    → w.database_visible ≡ o
    → Shown (visible_as db w o)
unfolding visible_as
visible_as-Shown db w none e = elim (Bool-cases w.database.invisible) [
  | inl h ↦ rw h (inr (db, refl))
  | inr h ↦ rw h (inl refl)
]
visible_as-Shown db w (some d) e = inr (d, e)

pub replace_database-Shown : (db : Database) (w : DictWord) → Shown (replace_database db w)
unfolding replace_database
replace_database-Shown db w = visible_as-Shown db w w.database_visible refl

pub All-map :
    (P Q : DictWord → Type 0) (l : List DictWord) → ((w : DictWord) → P w → Q w) → All P l → All Q l
All-map P Q [] f h = tt
All-map P Q (w ∷ l) f (h, hs) = (f w h, All-map P Q l f hs)

replaced_words-All :
    (P : DictWord → Type 0) (db : Database) (l : List DictWord)
    → ((w : DictWord) → P (replace_database db w))
    → All P (replace_invisible_databases db 0 l)
unfolding replace_invisible_databases
replaced_words-All P db [] f = tt
replaced_words-All P db (w ∷ l) f = (f w, replaced_words-All P db l f)

length-replace :
    (db : Database) (l : List DictWord) → length (replace_invisible_databases db 0 l) ≡ length l
unfolding replace_invisible_databases
length-replace db [] = refl
length-replace db (w ∷ l) = ap suc (length-replace db l)

replace_behind :
    (db : Database) (l new : List DictWord)
    → replace_invisible_databases db (length l) (l ++ new)
      ≡ l ++ replace_invisible_databases db 0 new
unfolding replace_invisible_databases
replace_behind db [] new = refl
replace_behind db (w ∷ l) new = ap (λ k. w ∷ k) (replace_behind db l new)

no_new : (P : DictWord → Type 0) (new : List DictWord) → length new ≡ 0 → All P new
no_new P [] h = tt
no_new P (w ∷ new) h = absurd (omega (arith, h))

pub every : (P : DictWord → Type 0) (new : List DictWord) → ((w : DictWord) → P w) → All P new
every P [] f = tt
every P (w ∷ new) f = (f w, every P new f)

nothing_new :
    (P : DictWord → Type 0) (l new : List DictWord)
    → length new ≤ length l
    → (l ≡ []) ⊎ ((w : DictWord) → P w)
    → All P new
nothing_new P l new h (inl e) = no_new P new (omega (arith, h, ap length e))
nothing_new P l new h (inr f) = every P new f

pub replace_new-Grew :
    (P : DictWord → Type 0) (db : Database) (l : List DictWord) (r : ℤ × Search)
    → (l ≡ []) ⊎ ((w : DictWord) → P w)
    → ((w : DictWord) → P (replace_database db w))
    → Grew Any l r
    → Grew P l (replace_new db (length l) r)
unfolding replace_new ltb_ℤ
replace_new-Grew P db l (count, s) fresh f (new, e, c, _) =
    elim (Bool-cases (ltb_ℤ (pos (length l)) count)) [
      | inl h ↦ rw h (
        replace_invisible_databases db 0 new,
        ap (replace_invisible_databases db (length l)) e ∙ replace_behind db l new,
        c ∙ ap pos (sym (length-replace db new)),
        replaced_words-All P db new f,
      )
      | inr h ↦ rw h (new, e, c, nothing_new P l new (ground (arith, h, c)) fresh)
    ]

-- The same list, with another count or result.
pub same_list :
    (P : DictWord → Type 0) (l m : List DictWord) (r : ℤ × Search) → l ≡ m → Grew P l r → Grew P m r
same_list P l m r e g = subst (λ k. Grew P k r) e g

pub Grew-Any :
    (P : DictWord → Type 0) (l : List DictWord) (r : ℤ × Search) → Grew P l r → Grew Any l r
Grew-Any P l r (new, e, c, h) = (new, e, c, All-map P Any new (λ w _. tt) h)

pub none_found :
    (P : DictWord → Type 0) (l : List DictWord) (count : ℤ) (s : Search)
    → eqb_ℤ count (pos 0) ≡ true
    → Grew P l (count, s)
    → s.list ≡ l
none_found P l count s h (new, e, c, _) =
    let z : pos (length new) ≡ pos 0 = sym c ∙ eqb_ℤ→eq count (pos 0) h in
    e ∙ ap (λ k. l ++ k) (length-zero new (ground (arith, z))) ∙ append-nil l

pub mark_found-Grew :
    (P : DictWord → Type 0) (l : List DictWord) (r : ℤ × Search)
    → Grew P l r
    → Grew P l (mark_found r)
unfolding mark_found
mark_found-Grew P l (count, s) (new, e, c, h) = elim (Bool-cases (ltb_ℤ (pos 0) count)) [
  | inl b ↦ rw b (new, e, c, h)
  | inr b ↦ rw b (new, e, c, h)
]

pub fresh_list :
    (P : DictWord → Type 0) (l m : List DictWord)
    → m ≡ l
    → (l ≡ []) ⊎ ((w : DictWord) → P w)
    → (m ≡ []) ⊎ ((w : DictWord) → P w)
fresh_list P l m e (inl h) = inl (e ∙ h)
fresh_list P l m e (inr f) = inr f

pub same_returned :
    (P : DictWord → Type 0) (l m : List DictWord) (r : Counted)
    → l ≡ m
    → Returns r (Grew P l)
    → Returns r (Grew P m)
same_returned P l m (ok a) e g = same_list P l m a e g
same_returned P l m (err x) e g = g
