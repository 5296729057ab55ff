-- ===== src/Net/Write.antt =====
-- libcommon/io.c: `net_write`; dictd/daemon.c: `daemon_write`. The system call write is a parameter:
-- from its state and the bytes it is handed, the count it returns and its new state.
use dictd.Prelude.{
  ℕ, zero, suc, ◌-◌, ◌≤◌, ◌<◌, ◌≡◌, refl, List, arith, ltb, ◌==◌, if◌then◌else◌, length, take,
  length-take, le→ltb, false, ap, ◌∙◌,
}
use mathlib.Core.Path.{subst}
use dictd.Prelude.Int.{ℤ, pos, negsuc}
use dictd.Prelude.Slices.{take_all}
use dictd.Prelude.Result.{Result, ok, err, Returns}

-- `bad_count`: write claims more than it was handed. `terminated`: the daemon ends.
pub data WriteFault : Type 0 where
  bad_count terminated no_fuel : WriteFault

-- A call that takes some of the bytes it is handed, if there are any.
abbrev pub Progress : ℤ → ℕ → Type 0
Progress (negsuc n) len = ⊥
Progress (pos n) len = (n ≤ len) × (0 < len → 0 < n)

suc-== : (n : ℕ) → (suc n == 0) ≡ false
suc-== n = ground arith

module _ {W : Type 0} (write : W → List ℕ → ℤ × W) where
  -- After a call that returned `count`, with `left` bytes to go: an error ends the loop, by
  -- `failed`; otherwise `more` goes on with what is left.
  unfoldable pub after_write :
      {R : Type 0}
      → (ℤ → Result WriteFault R)
      → (ℕ → Result WriteFault R)
      → ℕ
      → ℤ
      → Result WriteFault R
  after_write failed more left (negsuc n) = failed (negsuc n)
  after_write failed more left (pos zero) = failed (pos zero)
  after_write failed more left (pos (suc n)) =
      if ltb left (suc n) then err bad_count else more (left - suc n)

  -- The loop: each round hands write the first `left` bytes of the buffer.
  unfoldable pub net_write_loop : List ℕ → ℕ → ℕ → W → Result WriteFault (ℤ × W)
  unfolding after_write
  net_write_loop buf zero left w = err no_fuel
  net_write_loop buf (suc fuel) left w =
      let (count, w') = write w (take left buf) in
      if left == 0
      then ok (pos (length buf), w)
      else after_write (λ e. ok (e, w')) (λ rest. net_write_loop buf fuel rest w') left count

  unfoldable pub net_write : W → List ℕ → Result WriteFault (ℤ × W)
  net_write w buf = net_write_loop buf (suc (length buf)) (length buf) w

  unfoldable pub daemon_write_loop : List ℕ → ℕ → ℕ → W → Result WriteFault W
  unfolding after_write
  daemon_write_loop buf zero left w = err no_fuel
  daemon_write_loop buf (suc fuel) left w =
      let (count, w') = write w (take left buf) in
      if left == 0
      then ok w
      else after_write (λ e. err terminated) (λ rest. daemon_write_loop buf fuel rest w') left count

  unfoldable pub daemon_write : W → List ℕ → Result WriteFault W
  daemon_write w buf = daemon_write_loop buf (suc (length buf)) (length buf) w

  net_write_loop_step :
      (buf : List ℕ) (fuel left k : ℕ) (w w' : W)
      → 0 < k
      → k ≤ left
      → write w (take left buf) ≡ (pos k, w')
      → net_write_loop buf (suc fuel) left w ≡ net_write_loop buf fuel (left - k) w'
  unfolding net_write_loop after_write
  net_write_loop_step buf fuel left zero w w' h j e = absurd (omega arith)
  net_write_loop_step buf fuel zero (suc k) w w' h j e = absurd (omega arith)
  net_write_loop_step buf fuel (suc left) (suc k) w w' h j e =
      rw (suc-== left) (rw e (rw (le→ltb (suc left) (suc k) j) refl))

  daemon_write_loop_step :
      (buf : List ℕ) (fuel left k : ℕ) (w w' : W)
      → 0 < k
      → k ≤ left
      → write w (take left buf) ≡ (pos k, w')
      → daemon_write_loop buf (suc fuel) left w ≡ daemon_write_loop buf fuel (left - k) w'
  unfolding daemon_write_loop after_write
  daemon_write_loop_step buf fuel left zero w w' h j e = absurd (omega arith)
  daemon_write_loop_step buf fuel zero (suc k) w w' h j e = absurd (omega arith)
  daemon_write_loop_step buf fuel (suc left) (suc k) w w' h j e =
      rw (suc-== left) (rw e (rw (le→ltb (suc left) (suc k) j) refl))

  -- A call that takes all that is left ends the loop.
  net_write_loop_last :
      (buf : List ℕ) (fuel left : ℕ) (w w' : W)
      → 1 < fuel
      → 0 < left
      → write w (take left buf) ≡ (pos left, w')
      → net_write_loop buf fuel left w ≡ ok (pos (length buf), w')
  unfolding net_write_loop
  net_write_loop_last buf zero left w w' g h e = absurd (omega arith)
  net_write_loop_last buf (suc zero) left w w' g h e = absurd (omega arith)
  net_write_loop_last buf (suc (suc fuel)) left w w' g h e =
      let z : left - left ≡ 0 = omega arith in
      net_write_loop_step buf (suc fuel) left left w w' h (omega arith) e
      ∙ ap (λ n. net_write_loop buf (suc fuel) n w') z

  daemon_write_loop_last :
      (buf : List ℕ) (fuel left : ℕ) (w w' : W)
      → 1 < fuel
      → 0 < left
      → write w (take left buf) ≡ (pos left, w')
      → daemon_write_loop buf fuel left w ≡ ok w'
  unfolding daemon_write_loop
  daemon_write_loop_last buf zero left w w' g h e = absurd (omega arith)
  daemon_write_loop_last buf (suc zero) left w w' g h e = absurd (omega arith)
  daemon_write_loop_last buf (suc (suc fuel)) left w w' g h e =
      let z : left - left ≡ 0 = omega arith in
      daemon_write_loop_step buf (suc fuel) left left w w' h (omega arith) e
      ∙ ap (λ n. daemon_write_loop buf (suc fuel) n w') z

  -- After progress the loop goes on with fewer bytes left.
  after_write-Returns :
      {R : Type 0} (P : R → Type 0) (failed : ℤ → Result WriteFault R)
      (more : ℕ → Result WriteFault R) (left : ℕ) (count : ℤ)
      → Progress count left
      → 0 < left
      → ((rest : ℕ) → rest < left → Returns (more rest) P)
      → Returns (after_write failed more left count) P
  unfolding after_write
  after_write-Returns P failed more left (negsuc n) p h k = absurd p
  after_write-Returns P failed more left (pos zero) (p, q) h k = absurd (omega (arith, q h))
  after_write-Returns P failed more left (pos (suc n)) (p, q) h k =
      rw (le→ltb left (suc n) p) (k (left - suc n) (omega arith))

  module _ (progress : (w : W) (bytes : List ℕ) → Progress (write w bytes).0 (length bytes)) where
    progress_left :
        (buf : List ℕ) (left : ℕ) (w : W)
        → left ≤ length buf
        → Progress (write w (take left buf)).0 left
    progress_left buf left w k =
        let e : length (take left buf) ≡ left = omega (arith, length-take left buf) in
        subst (λ n. Progress (write w (take left buf)).0 n) e (progress w (take left buf))

    net_write_loop-all :
        (buf : List ℕ) (fuel left : ℕ) (w : W)
        → left < fuel
        → left ≤ length buf
        → Returns (net_write_loop buf fuel left w) (λ r. r.0 ≡ pos (length buf))
    unfolding net_write_loop
    net_write_loop-all buf zero left w h k = absurd (omega arith)
    net_write_loop-all buf (suc fuel) zero w h k = refl
    net_write_loop-all buf (suc fuel) (suc left) w h k =
        let w' = (write w (take (suc left) buf)).1 in
        rw (suc-== left) (
          after_write-Returns (λ r. r.0 ≡ pos (length buf)) (λ e. ok (e, w'))
            (λ rest. net_write_loop buf fuel rest w') (suc left) (write w (take (suc left) buf)).0
            (progress_left buf (suc left) w k) (omega arith)
            (λ rest l. net_write_loop-all buf fuel rest w' (omega arith) (omega arith)))

    -- If every call of write takes at least one byte and at most those it is handed, net_write ends
    -- and returns the length of the buffer.
    pub net_write-all :
        (w : W) (buf : List ℕ) → Returns (net_write w buf) (λ r. r.0 ≡ pos (length buf))
    unfolding net_write
    net_write-all w buf =
        net_write_loop-all buf (suc (length buf)) (length buf) w (omega arith) (omega arith)

  -- After a call of write that took only the first `k` bytes, net_write and daemon_write hand write
  -- the buffer from its beginning again: the second call gets the first `length buf - k` bytes in
  -- place of the last ones, and when it takes them the whole buffer counts as written.
  pub net_write-partial :
      (w w1 w2 : W) (buf : List ℕ) (k : ℕ)
      → 0 < k
      → k < length buf
      → write w buf ≡ (pos k, w1)
      → write w1 (take (length buf - k) buf) ≡ (pos (length buf - k), w2)
      → (net_write w buf ≡ ok (pos (length buf), w2)) × (daemon_write w buf ≡ ok w2)
  unfolding net_write daemon_write
  net_write-partial w w1 w2 buf k h j e f =
      let n = length buf in
      let whole : write w (take n buf) ≡ (pos k, w1) = rw (take_all n buf (omega arith)) e in
      (
        net_write_loop_step buf n n k w w1 h (omega arith) whole
            ∙ net_write_loop_last buf n (n - k) w1 w2 (omega arith) (omega arith) f,
        daemon_write_loop_step buf n n k w w1 h (omega arith) whole
            ∙ daemon_write_loop_last buf n (n - k) w1 w2 (omega arith) (omega arith) f,
      )
