-- ===== src/Socgen/Toolchain/Passed.antt =====
-- socgen/toolchain.py: what a bench that is reported as passed has done.
use mathlib.Core.Path.{subst}
use risc_v_so_c.Base.{
  ◌≡◌, refl, ap, ◌∙◌, Bool, true, false, not, ◌&&◌, Bool-cases, inl, inr, List, [], ◌∷◌, ◌++◌,
}
use risc_v_so_c.Base.Int.{pos, eqb_ℤ}
use risc_v_so_c.Base.Dict.{eqb_ℤ→eq}
use risc_v_so_c.Base.Text.{Text, codes}
use risc_v_so_c.Base.Results
use risc_v_so_c.Base.Results.{>>=-eq-ok, ok-injective}
use risc_v_so_c.Socgen.Toolchain.{
  tool_for, Bench, Result, Outcome, completed, timed_out, raised, Uncaught, is_in, starts_with,
  fresh, finish, after_build, run_bench, simulate, prepare_in, run_command, build_command,
  is_verilog, build_name,
}

-- A result that says that the run came to its end, and the outcome of the run.
pub record Passed (b : Bench) (r : Result) (o : Outcome) : Type 0 where
  pub has_run : r.ran ≡ true
  pub not_skipped : r.skipped ≡ []
  pub output : Text
  pub errors : Text
  pub exit_code : o ≡ completed (pos 0) output errors
  pub marker : is_in b.expect (output ++ errors) ≡ true

is_in-nil : (text : Text) → is_in [] text ≡ true
unfolding is_in starts_with
is_in-nil [] = refl
is_in-nil (c ∷ cs) = refl

marker_in :
    (part text : Text)
    → (elim part [ [] ↦ true | c ∷ cs ↦ is_in (c ∷ cs) text ]) ≡ true
    → is_in part text ≡ true
marker_in [] text h = is_in-nil text
marker_in (c ∷ cs) text h = h

and-true : (a b : Bool) → (a && b) ≡ true → (a ≡ true) × (b ≡ true)
and-true true b h = (refl, h)
and-true false b h = cc

finish-Passed :
    (seconds : Text) (b : Bench) (r : Result) (o : Outcome)
    → r.ok ≡ false
    → r.skipped ≡ []
    → (r' : Result) → finish seconds b r o ≡ Results.ok r'
    → r'.ok ≡ true
    → Passed b r' o
unfolding finish
finish-Passed seconds b r timed_out off none_skipped r' e h =
    let same = ok-injective e in absurd (cc (off, h, ap (λ (q : Result). q.ok) same))
finish-Passed seconds b r (raised x) off none_skipped r' e h = cc e
finish-Passed seconds b r (completed code out errors) off none_skipped r' e h =
    let same = ok-injective e in
    let good = ap (λ (q : Result). q.ok) same ∙ h in
    let (zero_code, found) = and-true (eqb_ℤ code (pos 0)) _ good in
    subst (λ q. Passed b q (completed code out errors)) same
      (record {
        has_run = refl;
        not_skipped = none_skipped;
        output = out;
        errors = errors;
        exit_code = rw (eqb_ℤ→eq code (pos 0) zero_code) refl;
        marker = marker_in b.expect (out ++ errors) found;
      })

-- A build that lets a bench pass has ended with exit code 0.
pub record Built (o : Outcome) : Type 0 where
  pub output : Text
  pub errors : Text
  pub exit_code : o ≡ completed (pos 0) output errors

after_build-Built :
    (seconds tool : Text) (r r' : Result) (o : Outcome) (next : Results.Result Uncaught Result)
    → r.ok ≡ false
    → after_build seconds tool r o next ≡ Results.ok r'
    → r'.ok ≡ true
    → Built o × (next ≡ Results.ok r')
unfolding after_build
after_build-Built seconds tool r r' timed_out next off e h =
    absurd (cc (off, h, ap (λ (q : Result). q.ok) (ok-injective e)))
after_build-Built seconds tool r r' (raised x) next off e h = cc e
after_build-Built seconds tool r r' (completed code out errors) next off e h =
    elim (Bool-cases (eqb_ℤ code (pos 0))) [
      | inl good ↦ (
        record { output = out; errors = errors; exit_code = rw (eqb_ℤ→eq code (pos 0) good) refl },
        rw good at e,
      )
      | inr bad ↦ absurd (cc (off, h, ap (λ (q : Result). q.ok) (ok-injective (rw bad at e))))
    ]

run_bench-Passed :
    (have : Text → Bool) (run : List Text → Text → Outcome) (seconds modules build_dir m : Text)
    (b : Bench) (r r' : Result)
    → r.ok ≡ false
    → r.skipped ≡ []
    → run_bench have run seconds modules build_dir m b r ≡ Results.ok r'
    → r'.ok ≡ true
    → Built (run (build_command have run seconds modules build_dir m b) (modules ++ codes "/" ++ m))
      × Passed b r'
          (run (run_command have run seconds modules build_dir m b) (modules ++ codes "/" ++ m))
unfolding run_bench
run_bench-Passed have run seconds modules build_dir m b r r' off none_skipped e h =
    let cwd = modules ++ codes "/" ++ m in
    let built = run (build_command have run seconds modules build_dir m b) cwd in
    let o = run (run_command have run seconds modules build_dir m b) cwd in
    let (good, ended) =
      after_build-Built seconds (build_name b.language) r r' built (finish seconds b r o) off e h in
    (good, finish-Passed seconds b r o off none_skipped r' ended h)

-- A bench that `simulate` reports as passed was not skipped: its tool is installed, its build and its
-- run both ended with exit code 0 in the module's directory, and what the run printed holds the
-- bench's marker.
pub simulate-Passed :
    (have : Text → Bool) (run : List Text → Text → Outcome) (seconds modules build_dir m : Text)
    (b : Bench) (r : Result)
    → simulate have run seconds modules build_dir m b ≡ Results.ok r
    → r.ok ≡ true
    → (have (tool_for b.language) ≡ true)
      × Built
          (run (build_command have run seconds modules build_dir m b) (modules ++ codes "/" ++ m))
      × Passed b r
          (run (run_command have run seconds modules build_dir m b) (modules ++ codes "/" ++ m))
unfolding simulate
simulate-Passed have run seconds modules build_dir m b r h good =
    elim (Bool-cases (have (tool_for b.language))) [
      | inr missing ↦ absurd (cc (ok-injective (rw missing at h), good))
      | inl there ↦ elim (Bool-cases (is_verilog b.language && not (have (codes "vvp")))) [
        | inl missing ↦ absurd (cc (ok-injective (rw (there, missing) at h), good))
        | inr ready ↦
            let (_, _, ended) =
              >>=-eq-ok (prepare_in (modules ++ codes "/" ++ m) b) _ (rw (there, ready) at h) in
            let (built, passed) =
              run_bench-Passed have run seconds modules build_dir m b
                (fresh (m ++ codes ":" ++ b.name)) r refl refl ended good in
            (there, built, passed)
      ]
    ]
