-- ===== src/Collect/Stream.antt =====
-- What `collect` of modules/trng/tools/collect.py saves of the bytes that a device sends.
mod Rounds
use mathlib.Core.List.{append_assoc}
use risc_v_so_c.Base.{
  ℕ, zero, suc, ◌+◌, ◌≤◌, ◌<◌, ◌≡◌, ◌≢◌, ◌↔◌, ◌⊎◌, inl, inr, refl, sym, ◌∙◌, ap, arith, Bool,
  Bool-cases, true, false, some, List, [], ◌∷◌, ◌++◌, length, length-append,
}
use risc_v_so_c.Base.Results.{ok}
use risc_v_so_c.Base.Options
use risc_v_so_c.Collect.{
  leaves, takes, round, Serial, Reply, chunk, keyboard_interrupt, serial_exception, Out, opened,
  write, flush, close, Ending, reached, wanted, runs_on, Collected, collect_loop, collect,
}
unfoldable pub use Rounds.*

module _ (serial : Serial) where
  open serial use {Port, read}

  -- Of the bytes `stream port` that the device sends from here on, a read returns the next ones, at
  -- most as many as it asks for.
  pub record Sends (stream : Port → List ℕ) : Type 0 where
    pub next :
        (port : Port) (want : ℕ) (bytes : List ℕ)
        → (read port want).0 ≡ chunk bytes
        → (stream port ≡ bytes ++ stream (read port want).1) × (length bytes ≤ want)

  kept : (bytes : List ℕ) (out : Out) → (flush (write bytes out)).is_closed ≡ out.is_closed
  unfolding flush write
  kept bytes out = refl

  -- The loop's state: `sent` is what the device sent from the start.
  record IsUnder (stream : Port → List ℕ) (n total : ℕ) (sent : List ℕ) (out : Out) (port : Port)
      : Type 0 where
    split : sent ≡ out.written ++ stream port
    counted : total ≡ length out.written
    saved : out.flushed ≡ out.written
    bounded : (n ≡ 0) ⊎ (total ≤ n)

  -- What is in the file: the first bytes of `sent`, all flushed and counted, not more than the limit,
  -- and exactly as many when the loop was left at the limit.
  pub record IsSaved (n : ℕ) (sent : List ℕ) (r : Collected serial) : Type 0 where
    pub rest : List ℕ
    pub split : sent ≡ r.out.written ++ rest
    pub counted : r.total ≡ length r.out.written
    pub saved : r.out.flushed ≡ r.out.written
    pub bounded : (n ≡ 0) ⊎ (r.total ≤ n)
    pub full : (r.ending ≡ reached) ↔ ((n ≢ 0) × (r.total ≡ n))

  module _ (fuel n total : ℕ) (out : Out) (port : Port) where
    loop_reached :
        runs_on n total ≡ false
        → collect_loop serial (suc fuel) n total out port
          ≡ some (record { ending = reached; total = total; out = out; port = port })
    unfolding collect_loop
    loop_reached off = rw (collect_loop, off) refl

    loop_left :
        (ending : Ending)
        → runs_on n total ≡ true
        → round (read port (wanted n total)).0 ≡ leaves ending
        → collect_loop serial (suc fuel) n total out port
          ≡ some (record {
            ending = ending;
            total = total;
            out = out;
            port = (read port (wanted n total)).1;
          })
    unfolding collect_loop
    loop_left ending on e = rw (collect_loop, on, e) refl

    loop_on :
        (bytes : List ℕ)
        → runs_on n total ≡ true
        → round (read port (wanted n total)).0 ≡ takes bytes
        → collect_loop serial (suc fuel) n total out port
          ≡ collect_loop serial fuel n
              (total + length bytes)
              (flush (write bytes out))
              (read port (wanted n total)).1
    unfolding collect_loop
    loop_on bytes on e = rw (collect_loop, on, e) refl

  module _ (stream : Port → List ℕ) (sends : Sends stream) (n : ℕ) (sent : List ℕ) where
    stopped :
        (total : ℕ) (out : Out) (port port' : Port) (ending : Ending)
        → IsUnder stream n total sent out port
        → (ending ≡ reached) ↔ ((n ≢ 0) × (total ≡ n))
        → IsSaved n sent (record { ending = ending; total = total; out = out; port = port' })
    stopped total out port port' ending u full = record {
      rest = stream port;
      split = u.split;
      counted = u.counted;
      saved = u.saved;
      bounded = u.bounded;
      full = full;
    }

    not_full :
        (total : ℕ) (ending : Ending)
        → ending ≢ reached
        → runs_on n total ≡ true
        → (ending ≡ reached) ↔ ((n ≢ 0) × (total ≡ n))
    not_full total ending h on =
        (λ e. absurd (h e), λ q. absurd (ground (arith, runs_on-lt n total on, q)))

    grows :
        (total : ℕ) (out : Out) (port : Port) (bytes : List ℕ)
        → IsUnder stream n total sent out port
        → runs_on n total ≡ true
        → (read port (wanted n total)).0 ≡ chunk bytes
        → IsUnder stream n
            (total + length bytes)
            sent
            (flush (write bytes out))
            (read port (wanted n total)).1
    unfolding flush write
    grows total out port bytes u on e =
        let (next, short) = sends.next port (wanted n total) bytes e in
        let port' = (read port (wanted n total)).1 in
        record {
          split =
              u.split
              ∙ ap (λ l. out.written ++ l) next
              ∙ sym (append_assoc out.written bytes (stream port'));
          counted = omega (arith, u.counted, length-append {0} out.written bytes);
          saved = refl;
          bounded = ground (arith, runs_on-true n total on);
        }

    -- One more read than bytes is enough.
    collect_loop-IsSaved :
        (fuel total : ℕ) (out : Out) (port : Port)
        → length (stream port) < fuel
        → IsUnder stream n total sent out port
        → (r : Collected serial) × (collect_loop serial fuel n total out port ≡ some r)
          × IsSaved n sent r
          × (r.out.is_closed ≡ out.is_closed)
    collect_loop-IsSaved zero total out port h u = absurd (omega arith)
    collect_loop-IsSaved (suc fuel) total out port h u = elim (Bool-cases (runs_on n total)) [
      | inl on ↦ elim (round-cases (read port (wanted n total)).0) [
        | inl (ending, e) ↦ (
          _,
          loop_left fuel n total out port ending on e,
          stopped total out port _ ending u (not_full total ending (round-leaves _ ending e) on),
          refl,
        )
        | inr (bytes, e) ↦
            let (got, some_bytes) = round-takes _ bytes e in
            let (next, _) = sends.next port (wanted n total) bytes got in
            let port' = (read port (wanted n total)).1 in
            let fewer : length (stream port') < fuel =
              omega (arith, ap length next, length-append {0} bytes (stream port')) in
            let (r, run, saved, closed) =
              collect_loop-IsSaved fuel (total + length bytes) (flush (write bytes out)) port' fewer
                (grows total out port bytes u on got) in
            (r, loop_on fuel n total out port bytes on e ∙ run, saved, closed ∙ kept bytes out)
      ]
      | inr off ↦
          let (limit, over) = runs_on-false n total off in
          (
            _,
            loop_reached fuel n total out port off,
            stopped total out port port reached u
                (λ _. (limit, ground (arith, u.bounded)), λ _. refl),
            refl,
          )
    ]

    begun : (port : Port) → stream port ≡ sent → IsUnder stream n 0 sent opened port
    begun port start = record {
      split = sym start;
      counted = refl;
      saved = refl;
      bounded = ground arith;
    }

    close-IsSaved :
        (r : Collected serial) → IsSaved n sent r → IsSaved n sent (record r { out = close r.out })
    unfolding close
    close-IsSaved r s = record {
      rest = s.rest;
      split = s.split;
      counted = s.counted;
      saved = s.saved;
      bounded = s.bounded;
      full = s.full;
    }

    -- Where pyserial is there and the port and the file open, `collect` ends after at most one read more
    -- than the device sends bytes. What it has written is the beginning of what the device sent, all of
    -- it flushed and counted, at most `n` bytes where there is a limit, and exactly `n` bytes if and only
    -- if it ended by the limit. A file is closed then, standard output is not.
    pub collect-IsSaved :
        (fuel : ℕ) (port : Port) (has_path : Bool)
        → stream port ≡ sent
        → length sent < fuel
        → (r : Collected serial) × (collect serial fuel true (some port) has_path true n
            ≡ ok (some r))
          × IsSaved n sent r
          × (r.out.is_closed ≡ has_path)
    unfolding collect close
    collect-IsSaved fuel port true start h =
        let (r, run, saved, _) =
          collect_loop-IsSaved fuel 0 opened port (omega (arith, ap length start))
            (begun port start) in
        (record r { out = close r.out }, rw (run, Options.◌>>=◌) refl, close-IsSaved r saved, refl)
    collect-IsSaved fuel port false start h =
        let (r, run, saved, open_still) =
          collect_loop-IsSaved fuel 0 opened port (omega (arith, ap length start))
            (begun port start) in
        (r, rw (run, Options.◌>>=◌) refl, saved, open_still)
