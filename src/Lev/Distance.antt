-- ===== src/Lev/Distance.antt =====
-- libdictd/lev.h: what `dict_search_lev_8bit` finds.
use dictd.Prelude.{
  ℕ, suc, ◌+◌, ◌≡◌, ◌↔◌, refl, sym, ◌∙◌, inl, inr, List, [], ◌∷◌, ◌++◌, append_assoc, append-nil,
  Option, none, some, true, arith, length, drop, Bool-cases, All,
}
use dictd.Prelude.Result.{ok, Returns, Returns-map}
use mathlib.Core.Path.{subst}
use mathlib.Core.List.{Memᴰ}
use dictd.Index.Types.{Tables, DictIndex}
use dictd.Index.Word.{DictWord, dict_word_create, dict_add_word_to_list}
use dictd.Lev.Candidates.{candidates}
use dictd.Lev.Edits.{Edit}
use dictd.Lev.Complete.{candidates-Edit}
use dictd.Lev.Search.{
  Checked, set_member, find_equal, check_found, check, after_check, check_all, dict_search_lev_8bit,
}
use dictd.Lev.Picked.{
  Unrepeated, is_some, pick, entries, with_entry, pick-Unrepeated, pick-Mem, Mem-pick,
}

module _ (answer : List ℕ → Option DictWord) where
  module _ (b64_decode_buf : List ℕ → ℕ) (t : Tables) (x : DictIndex) where
    -- Looking a word up in the index gives no entry, or one that is read.
    pub data Looked (w : List ℕ) : Option DictWord → Type 0 where
      absent : find_equal b64_decode_buf t x 0 w ≡ ok none → Looked w none
      present :
          (pt : ℕ) (e : DictWord)
          → find_equal b64_decode_buf t x 0 w ≡ ok (some pt)
          → dict_word_create b64_decode_buf (drop pt x.bytes) ≡ ok e
          → Looked w (some e)

    -- What the checks leave of a state.
    abbrev Picked : List (List ℕ) → Checked → Checked → Type 0
    Picked words st r =
        (r.list ≡ st.list ++ entries answer (pick answer st.seen words))
        × (r.count ≡ st.count + length (pick answer st.seen words))

    add_entry :
        (l m : List DictWord) (e : DictWord) (o : Option DictWord) (k n : ℕ) (st : Checked)
        → o ≡ some e
        → (m ≡ (st.list ++ (e ∷ [])) ++ l) × (k ≡ st.count + 1 + n)
        → (m ≡ st.list ++ with_entry answer o l) × (k ≡ st.count + suc n)
    add_entry l m e o k n st a (p, q) = rw a (p ∙ append_assoc st.list (e ∷ []) l, omega (arith, q))

    -- A check that changes the state from `st` to `st'` and goes on.
    moved_to :
        (w : List ℕ) (words : List (List ℕ)) (st st' : Checked)
        → check_all b64_decode_buf t x 0 (w ∷ words) st ≡ check_all b64_decode_buf t x 0 words st'
        → ((r : Checked) → Picked words st' r → Picked (w ∷ words) st r)
        → ((s : Checked) → Returns (check_all b64_decode_buf t x 0 words s) (Picked words s))
        → Returns (check_all b64_decode_buf t x 0 (w ∷ words) st) (Picked (w ∷ words) st)
    moved_to w words st st' e k ih =
        subst (λ m. Returns m (Picked (w ∷ words) st)) (sym e)
          (Returns-map (check_all b64_decode_buf t x 0 words st') (Picked words st')
            (Picked (w ∷ words) st) (ih st') k)

    check_one-Picked :
        (w : List ℕ) (words : List (List ℕ)) (st : Checked) (o : Option DictWord)
        → answer w ≡ o
        → Looked w o
        → ((s : Checked) → Returns (check_all b64_decode_buf t x 0 words s) (Picked words s))
        → Returns (check_all b64_decode_buf t x 0 (w ∷ words) st) (Picked (w ∷ words) st)
    unfolding check_all check check_found after_check dict_add_word_to_list
    check_one-Picked w words st none a (absent f) ih =
        moved_to w words st st (rw f refl) (λ r h. rw a h) ih
    check_one-Picked w words st (some e) a (present pt e1 f c) ih =
        elim (Bool-cases (set_member st.seen w)) [
          | inl h ↦ moved_to w words st st (rw (f, h) refl) (λ r k. rw (a, h) k) ih
          | inr h ↦
              let st' : Checked = record {
                seen = w ∷ st.seen;
                count = st.count + 1;
                list = st.list ++ (e ∷ []);
              } in
              moved_to w words st st' (rw (f, h, c) refl)
                (λ r k.
                  rw (a, h)
                    (add_entry (entries answer (pick answer (w ∷ st.seen) words)) r.list e
                      (answer w) r.count (length (pick answer (w ∷ st.seen) words)) st a k))
                ih
        ]

    check_all-Picked :
        (words : List (List ℕ)) (st : Checked)
        → All (λ (w : List ℕ). Looked w (answer w)) words
        → Returns (check_all b64_decode_buf t x 0 words st) (Picked words st)
    unfolding check_all
    check_all-Picked [] st looked = (sym (append-nil st.list), omega arith)
    check_all-Picked (w ∷ words) st (one, looked) =
        check_one-Picked w words st (answer w) refl one (λ s. check_all-Picked words s looked)

  -- What a search leaves of a list: the words counted, each once, are exactly those at one edit
  -- that have an entry; the entries answer are put at the end, in this order.
  pub record Neighbours (alphabet word : List ℕ) (l : List DictWord) (r : Checked) : Type 0 where
    pub words : List (List ℕ)
    pub unrepeated : Unrepeated words
    pub members :
        (v : List ℕ) → Memᴰ v words ↔ (Edit alphabet word v × (is_some answer (answer v) ≡ true))
    pub list : r.list ≡ l ++ entries answer words
    pub count : r.count ≡ length words

  module _ (b64_decode_buf : List ℕ → ℕ) (t : Tables) (x : DictIndex) where
    -- Without a limit on the matches, and if looking up each candidate in the index gives no entry
    -- or one that is read: dict_search_lev_8bit gives a result, and finds exactly the words at one
    -- edit from its word that have an entry. Each is counted once, and the entry found for it is
    -- put at the end of the list.
    pub dict_search_lev_8bit-Neighbours :
        (l : List DictWord) (word alphabet : List ℕ)
        → All (λ (w : List ℕ). Looked b64_decode_buf t x w (answer w)) (candidates alphabet word)
        → Returns
            (dict_search_lev_8bit b64_decode_buf t x 0 l word alphabet)
            (Neighbours alphabet word l)
    unfolding dict_search_lev_8bit set_member
    dict_search_lev_8bit-Neighbours l word alphabet looked =
        let start : Checked = record { seen = []; count = 0; list = l } in
        let all = candidates alphabet word in
        Returns-map (check_all b64_decode_buf t x 0 all start) (Picked b64_decode_buf t x all start)
          (Neighbours alphabet word l) (check_all-Picked b64_decode_buf t x all start looked)
          (λ r (p, q). record {
            words = pick answer [] all;
            unrepeated = pick-Unrepeated answer [] all;
            members = λ v. (
              (λ m.
                  let (h, a, n) = pick-Mem answer [] all v m in
                  ((candidates-Edit alphabet word v).0 h, a)),
              (λ (e, a). Mem-pick answer [] all v ((candidates-Edit alphabet word v).1 e) a refl),
            );
            list = p;
            count = omega (arith, q);
          })
