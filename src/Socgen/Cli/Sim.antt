-- ===== src/Socgen/Cli/Sim.antt =====
-- socgen/cli.py: what the exit code of `soc sim` says.
use risc_v_so_c.Base.{
  ℕ, zero, suc, ◌≡◌, ◌⊎◌, inl, inr, refl, ap, sym, arith, Bool, Bool-cases, true, false, some, List,
  [], ◌∷◌, ◌++◌, get_elem?, All, All-at, ◌<◌,
}
use mathlib.Core.Path.{subst}
use risc_v_so_c.Base.Options.{some-injective}
use risc_v_so_c.Base.Text.{Text, codes}
use risc_v_so_c.Base.Results.{ok, >>=-eq-ok, ok-injective}
use risc_v_so_c.Socgen.Toolchain.{
  Bench, Result, Outcome, simulate, tool_for, build_command, run_command,
}
use risc_v_so_c.Socgen.Toolchain.Passed.{Built, Passed, simulate-Passed}
use risc_v_so_c.Socgen.Cli.{
  SimArgs, selected, is_skipped, failed, failures, exit_code, simulate_all, sim_benches, cmd_sim,
}

-- Either no result is a failure, or one of them is.
abbrev pub AllWell : List Result → Type 0
AllWell results = All (λ r. failed r ≡ false) results

abbrev pub SomeFailed : List Result → Type 0
SomeFailed results = (i : ℕ) × (r : Result) × (get_elem? results i ≡ some r) × (failed r ≡ true)

failures-cases :
    (results : List Result)
    → (AllWell results × (failures results ≡ 0)) ⊎ (SomeFailed results × (0 < failures results))
unfolding failures
failures-cases [] = inl (tt, refl)
failures-cases (r ∷ rs) = elim (Bool-cases (failed r)) [
  | inl bad ↦ inr ((0, r, refl, bad), rw bad (omega arith))
  | inr well ↦ elim (failures-cases rs) [
    | inl (all, e) ↦ inl ((well, all), rw well e)
    | inr ((i, q, at, bad), h) ↦ inr ((suc i, q, at, bad), rw well h)
  ]
]

exit_code-zero : (results : List Result) → failures results ≡ 0 → exit_code results ≡ 0
exit_code-zero results h = ground arith

exit_code-one : (results : List Result) → 0 < failures results → exit_code results ≡ 1
exit_code-one results h = ground arith

exit_code-cases :
    (results : List Result)
    → (AllWell results × (exit_code results ≡ 0)) ⊎ (SomeFailed results × (exit_code results ≡ 1))
exit_code-cases results = elim (failures-cases results) [
  | inl (all, e) ↦ inl (all, exit_code-zero results e)
  | inr (bad, h) ↦ inr (bad, exit_code-one results h)
]

well-cases : (r : Result) → failed r ≡ false → (is_skipped r ≡ true) ⊎ (r.ok ≡ true)
well-cases r h = ground arith

module _ (have : Text → Bool) (run : List Text → Text → Outcome) (modules build_dir : Text) where
  -- The results of the benches, in order.
  abbrev pub Simulated : Text → List (Text × Bench) → List Result → Type 0
  Simulated seconds [] [] = Unit
  Simulated seconds [] (r ∷ rs) = ⊥
  Simulated seconds (b ∷ bs) [] = ⊥
  Simulated seconds ((m, b) ∷ bs) (r ∷ rs) =
      (simulate have run seconds modules build_dir m b ≡ ok r) × Simulated seconds bs rs

  simulate_all-Simulated :
      (seconds : Text) (bs : List (Text × Bench)) (rs : List Result)
      → simulate_all have run modules build_dir seconds bs ≡ ok rs
      → Simulated seconds bs rs
  unfolding simulate_all
  simulate_all-Simulated seconds [] [] h = tt
  simulate_all-Simulated seconds [] (r ∷ rs) h = cc (ok-injective h)
  simulate_all-Simulated seconds ((m, b) ∷ bs) rs h =
      let (r, first, rest) = >>=-eq-ok (simulate have run seconds modules build_dir m b) _ h in
      let (more, others, last) =
        >>=-eq-ok (simulate_all have run modules build_dir seconds bs) _ rest in
      subst (λ results. Simulated seconds ((m, b) ∷ bs) results) (ok-injective last)
        (first, simulate_all-Simulated seconds bs more others)

  -- What the exit code says of the results.
  abbrev pub Means : List (Text × Bench) → ℕ → List Result → Type 0
  Means [] code results = code ≡ 2
  Means (b ∷ bs) code results = (AllWell results × (code ≡ 0)) ⊎ (SomeFailed results × (code ≡ 1))

  sim_benches-Means :
      (seconds : Text) (bs : List (Text × Bench)) (code : ℕ) (results : List Result)
      → sim_benches have run modules build_dir seconds bs ≡ ok (code, results)
      → Simulated seconds bs results × Means bs code results
  unfolding sim_benches
  sim_benches-Means seconds [] code results h =
      let e = ok-injective h in
      (subst (Simulated seconds []) (ap (λ p. p.1) e) tt, sym (ap (λ p. p.0) e))
  sim_benches-Means seconds (b ∷ bs) code results h =
      let (rs, simulated, last) =
        >>=-eq-ok (simulate_all have run modules build_dir seconds (b ∷ bs)) _ h in
      let e = ok-injective last in
      let same : rs ≡ results = ap (λ p. p.1) e in
      let code_of : exit_code rs ≡ code = ap (λ p. p.0) e in
      let means : Means (b ∷ bs) (exit_code rs) rs = exit_code-cases rs in
      (
        subst (Simulated seconds (b ∷ bs)) same
            (simulate_all-Simulated seconds (b ∷ bs) rs simulated),
        subst (λ rs'. Means (b ∷ bs) code rs') same
            (subst (λ c. Means (b ∷ bs) c rs) code_of means),
      )

  -- `soc sim` that raises nothing has simulated the selected benches, in order. Its exit code is 2 if
  -- none is selected. Otherwise it is 1 if some bench failed that was not skipped, and 0 if there is
  -- no such bench.
  pub cmd_sim-Means :
      (args : SimArgs) (code : ℕ) (results : List Result)
      → cmd_sim have run modules build_dir args ≡ ok (code, results)
      → Simulated args.timeout (selected args) results × Means (selected args) code results
  unfolding cmd_sim
  cmd_sim-Means args code results h = sim_benches-Means args.timeout (selected args) code results h

  Simulated-at :
      (seconds : Text) (bs : List (Text × Bench)) (rs : List Result) (i : ℕ) (m : Text) (b : Bench)
      → Simulated seconds bs rs
      → get_elem? bs i ≡ some (m, b)
      → (r : Result) × (get_elem? rs i ≡ some r)
        × (simulate have run seconds modules build_dir m b ≡ ok r)
  Simulated-at seconds [] rs i m b h e = cc e
  Simulated-at seconds (entry ∷ bs) [] i m b h e = absurd h
  Simulated-at seconds ((n, c) ∷ bs) (r ∷ rs) zero m b (h, _) e =
      let same = some-injective e in
      (
        r,
        refl,
        subst (λ (p : Text × Bench). simulate have run seconds modules build_dir p.0 p.1 ≡ ok r)
            same h,
      )
  Simulated-at seconds ((n, c) ∷ bs) (r ∷ rs) (suc i) m b (_, h) e =
      Simulated-at seconds bs rs i m b h e

  well :
      (bs : List (Text × Bench)) (code i : ℕ) (results : List Result) {entry : Text × Bench}
      → Means bs code results
      → code ≡ 0
      → get_elem? bs i ≡ some entry
      → AllWell results
  well [] code i results means none_failed e = cc e
  well (b ∷ bs) code i results (inl (all, _)) none_failed e = all
  well (b ∷ bs) code i results (inr (_, one)) none_failed e =
      absurd (omega (arith, one, none_failed))

  -- Where `soc sim` ends with exit code 0, each selected bench was skipped or has passed: its tool is
  -- installed, its build and its run ended with exit code 0, and what the run printed holds the
  -- bench's marker.
  pub cmd_sim-Passed :
      (args : SimArgs) (results : List Result) (i : ℕ) (m : Text) (b : Bench)
      → cmd_sim have run modules build_dir args ≡ ok (0, results)
      → get_elem? (selected args) i ≡ some (m, b)
      → (r : Result) × (get_elem? results i ≡ some r)
        × ((is_skipped r ≡ true)
            ⊎ ((have (tool_for b.language) ≡ true)
                × Built (
                    run
                      (build_command have run args.timeout modules build_dir m b)
                      (modules ++ codes "/" ++ m))
                × Passed b r (
                    run
                      (run_command have run args.timeout modules build_dir m b)
                      (modules ++ codes "/" ++ m))))
  cmd_sim-Passed args results i m b h e =
      let (simulated, means) = cmd_sim-Means args 0 results h in
      let all = well (selected args) 0 i results means refl e in
      let (r, at, done) = Simulated-at args.timeout (selected args) results i m b simulated e in
      (
        r,
        at,
        elim (well-cases r (All-at (λ r'. failed r' ≡ false) results i r all at)) [
          | inl skipped ↦ inl skipped
          | inr good ↦ inr (simulate-Passed have run args.timeout modules build_dir m b r done good)
        ],
      )
