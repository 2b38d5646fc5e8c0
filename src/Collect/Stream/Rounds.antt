-- ===== src/Collect/Stream/Rounds.antt =====
-- modules/trng/tools/collect.py, `collect`: the loop's test, and what a read comes to.
use risc_v_so_c.Base.{
  ℕ, ◌+◌, ◌≤◌, ◌<◌, ◌≡◌, ◌≢◌, ◌⊎◌, inl, inr, refl, ap, arith, true, false, List, [], ◌∷◌, length,
}
use risc_v_so_c.Collect.{
  leaves, takes, round, Reply, chunk, keyboard_interrupt, serial_exception, Ending, reached, wanted,
  runs_on,
}

pub runs_on-false : (n t : ℕ) → runs_on n t ≡ false → (n ≢ 0) × (n ≤ t)
unfolding runs_on
runs_on-false n t h = ground arith

pub runs_on-true : (n t : ℕ) → runs_on n t ≡ true → (n ≡ 0) ⊎ (t + wanted n t ≤ n)
unfolding runs_on wanted
runs_on-true n t h = ground arith

pub runs_on-lt : (n t : ℕ) → runs_on n t ≡ true → (n ≡ 0) ⊎ (t < n)
unfolding runs_on
runs_on-lt n t h = ground arith

pub round-leaves : (r : Reply) (ending : Ending) → round r ≡ leaves ending → ending ≢ reached
unfolding round
round-leaves (chunk []) ending h e = cc
round-leaves (chunk (byte ∷ bytes)) ending h e = cc
round-leaves keyboard_interrupt ending h e = cc
round-leaves serial_exception ending h e = cc

pub round-takes :
    (r : Reply) (bytes : List ℕ) → round r ≡ takes bytes → (r ≡ chunk bytes) × (0 < length bytes)
unfolding round
round-takes (chunk []) bytes h = cc
round-takes (chunk (byte ∷ rest)) bytes h =
    let e : byte ∷ rest ≡ bytes = cc in (ap chunk e, rw (← e) (omega arith))
round-takes keyboard_interrupt bytes h = cc
round-takes serial_exception bytes h = cc

pub round-cases :
    (r : Reply)
    → ((ending : Ending) × (round r ≡ leaves ending)) ⊎ ((bytes : List ℕ) × (round r ≡ takes bytes))
round-cases r =
    elim (round r)
      as (λ x. ((ending : Ending) × (x ≡ leaves ending)) ⊎ ((bytes : List ℕ) × (x ≡ takes bytes))) [
        | leaves ending ↦ inl (ending, refl)
        | takes bytes ↦ inr (bytes, refl)
      ]
