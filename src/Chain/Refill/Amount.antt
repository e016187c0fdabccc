-- ===== src/Chain/Refill/Amount.antt =====
-- What a refill sends.
use pour.Prelude.{ℕ, ◌+◌, ◌*◌, ◌<◌, ◌≡◌, Option, none, some, arith, Bool-cases, inl, inr, String}
use pour.Prelude.Int.{ℤ, pos, ◌-ℤ◌, ◌*ℤ◌, ◌≤ℤ◌, pos_part, neg_part, leb_ℤ, -ℤ_parts}
use pour.Chain.Refill.{BigInts, refill_amount}

-- A number that is printed is read back.
abbrev pub IsRoundTrip : BigInts → Type 0
IsRoundTrip I = (z : ℤ) → I.read (I.print z) ≡ z

-- What a refill does for a balance and a threshold.
abbrev pub Refilled : BigInts → ℤ → ℕ → Option String → Type 0
Refilled I bal thr none = pos thr ≤ℤ bal
Refilled I bal thr (some top_up) =
    (pos_part bal < thr + neg_part bal)
    × (pos_part (I.read top_up) + pos_part bal ≡ 10 * thr + neg_part (I.read top_up) + neg_part bal)

times_ten : (n : ℕ) → pos n *ℤ pos 10 ≡ pos (10 * n)
unfolding ◌*ℤ◌
times_ten n = ground arith

-- Where printed numbers are read back and the threshold is no negative number, a refill is sent exactly
-- if the balance is below it, and the sum of the balance and of what is sent is ten times the
-- threshold.
pub refill_amount-Refilled :
    (I : BigInts) (balance threshold : String) (thr : ℕ)
    → IsRoundTrip I
    → I.read threshold ≡ pos thr
    → Refilled I (I.read balance) thr (refill_amount I balance threshold)
unfolding refill_amount
refill_amount-Refilled I balance threshold thr round read =
    rw (read, refill_amount)
      (elim (Bool-cases (leb_ℤ (pos thr) (I.read balance))) [
        | inl enough ↦ simp enough (ground arith)
        | inr low ↦ simp low (
            rw (round (pos thr *ℤ pos 10 -ℤ I.read balance), times_ten thr)
              (ground (arith, -ℤ_parts (pos (10 * thr)) (I.read balance))))
      ])
