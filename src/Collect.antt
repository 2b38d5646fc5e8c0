-- ===== src/Collect.antt =====
-- modules/trng/tools/collect.py: random bytes from the serial port into a file. The port is pyserial, a
-- parameter. An interrupt is modelled where the program waits, in `read`; the times and rates that the
-- progress line prints are left out.
pub mod Stream
use risc_v_so_c.Base.{
  ℕ, zero, suc, ◌+◌, ◌-◌, min, Bool, true, false, not, ltb, ◌==◌, ◌&&◌, ◌||◌, if◌then◌else◌, Option,
  none, some, List, [], ◌∷◌, ◌++◌, length,
}
use risc_v_so_c.Base.Text.{Text, codes}
use risc_v_so_c.Base.Results.{Result, ok, err, ◌>>=◌, or_raise}
use risc_v_so_c.Base.Options

-- What `ser.read(want)` does: it returns bytes, none of them after a timeout, or raises.
pub data Reply : Type 0 where
  chunk : List ℕ → Reply
  keyboard_interrupt : Reply
  serial_exception : Reply

pub record Serial : Type 1 where
  pub Port : Type 0
  pub read : Port → ℕ → Reply × Port

-- The file that is written, with what has been flushed.
pub record Out : Type 0 where
  pub written : List ℕ
  pub flushed : List ℕ
  pub is_closed : Bool

abbrev pub opened : Out
opened = record { written = []; flushed = []; is_closed = false }

unfoldable pub write : List ℕ → Out → Out
write bytes out = record out { written = out.written ++ bytes }

unfoldable pub flush : Out → Out
flush out = record out { flushed = out.written }

unfoldable pub close : Out → Out
close out = record out { is_closed = true }

-- How the loop is left.
pub data Ending : Type 0 where
  reached : Ending
  read_timeout : Ending
  interrupted : Ending
  raised : Ending

-- What a reply makes of its round: the loop is left, or it goes on with the bytes.
pub data Round : Type 0 where
  leaves : Ending → Round
  takes : List ℕ → Round

unfoldable pub round : Reply → Round
round (chunk []) = leaves read_timeout
round (chunk (byte ∷ bytes)) = takes (byte ∷ bytes)
round keyboard_interrupt = leaves interrupted
round serial_exception = leaves raised

-- What ends `collect` before its loop.
pub data Stop : Type 0 where
  exit : Text → Stop
  raises : Stop

-- The sizes that a read asks for.
unfoldable pub wanted : ℕ → ℕ → ℕ
wanted n_bytes total = if n_bytes == 0 then 16 else min 16 (n_bytes - total)

unfoldable pub runs_on : ℕ → ℕ → Bool
runs_on n_bytes total = n_bytes == 0 || ltb total n_bytes

module _ (serial : Serial) where
  open serial use {Port, read}

  pub record Collected : Type 0 where
    pub ending : Ending
    pub total : ℕ
    pub out : Out
    pub port : Port

  -- The loop, on fuel: without a limit it runs as long as bytes come.
  unfoldable pub collect_loop : ℕ → ℕ → ℕ → Out → Port → Option Collected
  unfolding runs_on wanted round write flush
  collect_loop zero n_bytes total out port = none
  collect_loop (suc fuel) n_bytes total out port = elim (runs_on n_bytes total) [
    | false ↦ some (record { ending = reached; total = total; out = out; port = port })
    | true ↦
        let (reply, port') = read port (wanted n_bytes total) in
        elim (round reply) [
          | leaves ending ↦
              some (record { ending = ending; total = total; out = out; port = port' })
          | takes bytes ↦
              collect_loop fuel n_bytes (total + length bytes) (flush (write bytes out)) port'
        ]
  ]

  -- The `finally`: it closes a file. Standard output, where no path is given, stays open.
  unfoldable pub finish : Bool → Collected → Option Collected
  unfolding close
  finish has_path done = some (if has_path then record done { out = close done.out } else done)

  -- `collect`, where pyserial is there or not, and the port and the file open or do not.
  unfoldable pub collect : ℕ → Bool → Option Port → Bool → Bool → ℕ → Result Stop (Option Collected)
  unfolding collect_loop finish
  collect fuel serial_ok connected has_path opens n_bytes =
      if not serial_ok
      then err (exit (codes "Install pyserial: pip install pyserial"))
      else (or_raise connected raises >>= λ port.
          if has_path && not opens
          then err raises
          else ok (Options.◌>>=◌ (collect_loop fuel n_bytes 0 opened port) (finish has_path)))
