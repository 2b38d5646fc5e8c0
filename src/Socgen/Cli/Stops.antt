-- ===== src/Socgen/Cli/Stops.antt =====
-- socgen/toolchain.py: `simulate` and `lint` return, or an exception of a program's run has stopped them.
use risc_v_so_c.Base.{◌≡◌, ◌⊎◌, inl, inr, refl, Bool, true, false, not, if◌then◌else◌, List, ◌++◌}
use risc_v_so_c.Base.Int.{pos, eqb_ℤ}
use risc_v_so_c.Base.Text.{Text, codes}
use risc_v_so_c.Base.Results
use risc_v_so_c.Base.Results.{ok, err, ◌>>=◌}
use risc_v_so_c.Socgen.Toolchain
use risc_v_so_c.Socgen.Toolchain.{
  Bench, Outcome, completed, timed_out, raised, Uncaught, asm_error, timeout_expired, other_error,
  finish, after_build, run_bench, build_command, run_command, lint, lint_command, build_name,
  after_lint,
}

-- The outcome that an exception comes from. A TimeoutExpired is let through only where `late` holds.
abbrev pub Cause : Type 0 → Uncaught → Outcome → Type 0
Cause late (asm_error e) o = ⊥
Cause late timeout_expired o = late × (o ≡ timed_out)
Cause late (other_error x) o = o ≡ raised x

module _ (run : List Text → Text → Outcome) (late : Type 0) where
  -- A value, or an exception with the command and the directory of the run that it comes from.
  abbrev pub EndsOrStops : {A : Type 0} → Results.Result Uncaught A → Type 0
  EndsOrStops {A} r =
      ((a : A) × (r ≡ ok a))
      ⊎ ((u : Uncaught) × (line : List Text) × (cwd : Text) × (r ≡ err u)
          × Cause late u (run line cwd))

  pub bind-EndsOrStops :
      {A B : Type 0} (m : Results.Result Uncaught A) (f : A → Results.Result Uncaught B)
      → EndsOrStops m
      → ((a : A) → EndsOrStops (f a))
      → EndsOrStops (m >>= f)
  bind-EndsOrStops (ok a) f h k = k a
  bind-EndsOrStops (err v) f (inl (a, e)) k = cc e
  bind-EndsOrStops (err v) f (inr (u, line, cwd, e, cause)) k = inr (u, line, cwd, cc e, cause)

  pub if-EndsOrStops :
      {A : Type 0} (b : Bool) (x y : Results.Result Uncaught A)
      → EndsOrStops x
      → EndsOrStops y
      → EndsOrStops (if b then x else y)
  if-EndsOrStops true x y h k = h
  if-EndsOrStops false x y h k = k

  finish-EndsOrStops :
      (seconds : Text) (b : Bench) (r : Toolchain.Result) (line : List Text) (cwd : Text)
      (o : Outcome)
      → run line cwd ≡ o
      → EndsOrStops (finish seconds b r o)
  unfolding finish
  finish-EndsOrStops seconds b r line cwd timed_out e = inl (_, refl)
  finish-EndsOrStops seconds b r line cwd (raised x) e = inr (other_error x, line, cwd, refl, e)
  finish-EndsOrStops seconds b r line cwd (completed code out errors) e = inl (_, refl)

  after_build-EndsOrStops :
      (seconds tool : Text) (r : Toolchain.Result) (line : List Text) (cwd : Text) (o : Outcome)
      (next : Results.Result Uncaught Toolchain.Result)
      → run line cwd ≡ o
      → EndsOrStops next
      → EndsOrStops (after_build seconds tool r o next)
  unfolding after_build
  after_build-EndsOrStops seconds tool r line cwd timed_out next e h = inl (_, refl)
  after_build-EndsOrStops seconds tool r line cwd (raised x) next e h =
      inr (other_error x, line, cwd, refl, e)
  after_build-EndsOrStops seconds tool r line cwd (completed code out errors) next e h =
      if-EndsOrStops (eqb_ℤ code (pos 0)) _ _ h (inl (_, refl))

  pub run_bench-EndsOrStops :
      (have : Text → Bool) (seconds modules build_dir m : Text) (b : Bench) (r : Toolchain.Result)
      → EndsOrStops (run_bench have run seconds modules build_dir m b r)
  unfolding run_bench
  run_bench-EndsOrStops have seconds modules build_dir m b r =
      let cwd = modules ++ codes "/" ++ m in
      let building = build_command have run seconds modules build_dir m b in
      let running = run_command have run seconds modules build_dir m b in
      after_build-EndsOrStops seconds (build_name b.language) r building cwd (run building cwd) _
        refl (finish-EndsOrStops seconds b r running cwd (run running cwd) refl)

  after_lint-EndsOrStops :
      (r : Toolchain.Result) (line : List Text) (cwd : Text) (o : Outcome)
      → late
      → run line cwd ≡ o
      → EndsOrStops (after_lint r o)
  unfolding after_lint
  after_lint-EndsOrStops r line cwd timed_out slow e =
      inr (timeout_expired, line, cwd, refl, (slow, e))
  after_lint-EndsOrStops r line cwd (raised x) slow e = inr (other_error x, line, cwd, refl, e)
  after_lint-EndsOrStops r line cwd (completed code out errors) slow e = inl (_, refl)

  pub lint-EndsOrStops :
      (have : Text → Bool) (seconds modules build_dir m : Text) (b : Bench)
      → late
      → EndsOrStops (lint have run seconds modules build_dir m b)
  unfolding lint
  lint-EndsOrStops have seconds modules build_dir m b slow =
      let r = Toolchain.fresh (m ++ codes ":" ++ b.name ++ codes ":lint") in
      if-EndsOrStops (Toolchain.is_vhdl b.language)
        (ok (record r { skipped = codes "Verilator does not read VHDL" })) _ (inl (_, refl))
        (if-EndsOrStops (not (have (codes "verilator")))
          (ok (record r { skipped = codes "verilator is not installed" })) _ (inl (_, refl))
          (after_lint-EndsOrStops r (lint_command b) (modules ++ codes "/" ++ m) _ slow refl))
