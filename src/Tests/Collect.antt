-- ===== src/Tests/Collect.antt =====
-- `collect` on a device that sends twenty bytes and no more.
use risc_v_so_c.Base.{
  ℕ, zero, suc, ◌≤◌, ◌≡◌, refl, ap, arith, true, false, some, List, [], ◌∷◌, ◌++◌, length,
  replicate, take, drop,
}
use risc_v_so_c.Base.Results.{ok, err}
use risc_v_so_c.Base.Text.{codes}
use risc_v_so_c.Collect.{
  Serial, chunk, Ending, reached, read_timeout, round, wanted, runs_on, write, flush, close, finish,
  exit, Collected, collect_loop, collect,
}
use risc_v_so_c.Collect.Stream.{Sends, IsSaved, collect-IsSaved}

abbrev memory : Serial
memory = record { Port = List ℕ; read = λ port want. (chunk (take want port), drop want port) }

take-drop :
    (want : ℕ) (l : List ℕ) → (l ≡ take want l ++ drop want l) × (length (take want l) ≤ want)
take-drop zero l = (refl, omega arith)
take-drop (suc want) [] = (refl, omega arith)
take-drop (suc want) (x ∷ l) = let (e, short) = take-drop want l in (ap (λ t. x ∷ t) e, omega arith)

memory-Sends : Sends memory (λ port. port)
memory-Sends = record {
  next = λ port want bytes e. rw (← chunk_bytes (take want port) bytes e) (take-drop want port);
}
  where
    chunk_bytes : (a b : List ℕ) → chunk a ≡ chunk b → a ≡ b
    chunk_bytes a b e = cc

abbrev twenty : List ℕ
twenty = replicate 18 7 ++ 8 ∷ 9 ∷ []

module _ (n : ℕ) where
  abbrev Ends : Ending → ℕ → Type 0
  Ends ending total =
      (r : Collected memory) × (collect memory 21 true (some twenty) true true n ≡ ok (some r))
      × (r.ending ≡ ending)
      × (r.total ≡ total)

-- Reads of 16 and of 2 bytes.
to_the_limit : Ends 18 reached 18
unfolding collect collect_loop finish runs_on wanted round write flush close
to_the_limit = (_, refl, refl, refl)

-- Without a limit reads of 16 and of 4 bytes, and one that times out.
to_the_timeout : Ends 0 read_timeout 20
unfolding collect collect_loop finish runs_on wanted round write flush close
to_the_timeout = (_, refl, refl, refl)

no_pyserial :
    collect memory 21 false (some twenty) true true 0
    ≡ err (exit (codes "Install pyserial: pip install pyserial"))
unfolding collect
no_pyserial = refl

collect-IsSaved_example :
    (r : Collected memory) × (collect memory 21 true (some twenty) true true 18 ≡ ok (some r))
    × IsSaved memory 18 twenty r
    × (r.out.is_closed ≡ true)
collect-IsSaved_example =
    collect-IsSaved memory (λ port. port) memory-Sends 18 twenty 21 twenty true refl (omega arith)
