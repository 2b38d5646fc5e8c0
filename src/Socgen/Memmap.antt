-- ===== src/Socgen/Memmap.antt =====
-- socgen/memmap.py: the map, its lookups, and the headers that are generated from it.
pub mod Decode
pub mod Headers
use risc_v_so_c.Base.{
  ℕ, ◌+◌, ◌*◌, ◌==◌, ltb, Bool, true, false, not, ◌&&◌, if◌then◌else◌, Option, none, some, List, [],
  ◌∷◌, ◌++◌, map,
}
use risc_v_so_c.Base.Int.{ℤ, pos, ◌-ℤ◌, ltb_ℤ}
use risc_v_so_c.Base.Text.{Text, codes, text_eq, upper}

pub record Region : Type 0 where
  pub name : Text
  pub base : ℕ
  pub size : ℕ
  pub kind : Text
  pub description : Text
  pub registers : List (Text × ℕ × Text)

abbrev pub limit : Region → ℤ
limit r = pos (r.base + r.size) -ℤ pos 1

-- `text.replace("-", "_")`.
abbrev dashes : Text → Text
dashes = map (λ c. if c == b'-' then b'_' else c)

-- The property `upper`.
unfoldable pub upper_name : Region → Text
unfolding upper
upper_name r = dashes (upper r.name)

-- `low <= high`.
abbrev pub leb_ℤ : ℤ → ℤ → Bool
leb_ℤ low high = not (ltb_ℤ high low)

unfoldable pub contains : Region → ℤ → Bool
contains r address = leb_ℤ (pos r.base) address && leb_ℤ address (limit r)

abbrev pub ram : Region
ram = record {
  name = codes "ram";
  base = 0x00000000;
  size = 64 * 1024;
  kind = codes "memory";
  description = codes "Data memory. The core's instruction memory is separate and not on this bus.";
  registers = [];
}

abbrev pub uart : Region
uart = record {
  name = codes "uart";
  base = 0x10000000;
  size = 4 * 1024;
  kind = codes "peripheral";
  description = codes "UART transmitter and receiver with a synchronous FIFO.";
  registers =
      (codes "DATA", 0x00, codes "write: byte to transmit; read: oldest received byte")
      ∷ (codes "STAT", 0x04, codes "status flags, read-only")
      ∷ (codes "DIV", 0x08, codes "baud divisor: CLK_HZ/baud - 1")
      ∷ (codes "CTRL", 0x0c, codes "frame format")
      ∷ (codes "IRQ_EN", 0x10, codes "interrupt enable mask")
      ∷ (codes "IRQ_STAT", 0x14, codes "interrupt status, write 1 to clear")
      ∷ [];
}

abbrev pub spi : Region
spi = record {
  name = codes "spi";
  base = 0x10001000;
  size = 4 * 1024;
  kind = codes "peripheral";
  description = codes "SPI master covering all four clock modes.";
  registers =
      (codes "DATA", 0x00, codes "write starts a transfer; read returns the received byte")
      ∷ (codes "STATUS", 0x04, codes "bit0 busy")
      ∷ (codes "CONFIG", 0x08, codes "bit0 CPOL, bit1 CPHA, bits15:8 clock divisor")
      ∷ [];
}

abbrev pub aes : Region
aes = record {
  name = codes "aes";
  base = 0x20000000;
  size = 4 * 1024;
  kind = codes "peripheral";
  description = codes "AES-128 accelerator. Key and block are written 32 bits at a time.";
  registers =
      (codes "KEY0", 0x00, codes "key bits 31:0")
      ∷ (codes "KEY1", 0x04, codes "key bits 63:32")
      ∷ (codes "KEY2", 0x08, codes "key bits 95:64")
      ∷ (codes "KEY3", 0x0c, codes "key bits 127:96")
      ∷ (codes "DATA0", 0x10, codes "plaintext bits 31:0")
      ∷ (codes "DATA1", 0x14, codes "plaintext bits 63:32")
      ∷ (codes "DATA2", 0x18, codes "plaintext bits 95:64")
      ∷ (codes "DATA3", 0x1c, codes "plaintext bits 127:96")
      ∷ (codes "CTRL", 0x20, codes "write 1 to start")
      ∷ (codes "STATUS", 0x24, codes "bit0 done")
      ∷ (codes "OUT0", 0x30, codes "ciphertext bits 31:0")
      ∷ (codes "OUT1", 0x34, codes "ciphertext bits 63:32")
      ∷ (codes "OUT2", 0x38, codes "ciphertext bits 95:64")
      ∷ (codes "OUT3", 0x3c, codes "ciphertext bits 127:96")
      ∷ [];
}

abbrev pub clint : Region
clint = record {
  name = codes "clint";
  base = 0x40000000;
  size = 64 * 1024;
  kind = codes "peripheral";
  description =
      codes
        "Core-local interruptor: the machine timer and the software interrupt. The offsets are SiFive's, because every RISC-V bootloader already expects them; mtime at 0xBFF8 is why the window is 64 KB and not 4 KB like the others.";
  registers =
      (codes "MSIP", 0x00, codes "bit0: raise the machine software interrupt")
      ∷ (codes "MTIMECMP_LO", 0x4000, codes "timer deadline, bits 31:0")
      ∷ (codes "MTIMECMP_HI", 0x4004, codes "timer deadline, bits 63:32")
      ∷ (codes "MTIME_LO", 0xbff8, codes "free-running counter, bits 31:0, read-only")
      ∷ (codes "MTIME_HI", 0xbffc, codes "free-running counter, bits 63:32, read-only")
      ∷ [];
}

abbrev pub trng : Region
trng = record {
  name = codes "trng";
  base = 0x30000000;
  size = 4 * 1024;
  kind = codes "peripheral";
  description =
      codes
        "Ring-oscillator entropy source, von Neumann de-biased and whitened. VHDL, so it attaches at synthesis rather than in the mixed-language simulation.";
  registers =
      (codes "DATA", 0x00, codes "read: one whitened random byte")
      ∷ (codes "STATUS", 0x04, codes "bit0 valid")
      ∷ [];
}

-- `MAP`.
abbrev pub memory_map : List Region
memory_map = ram ∷ uart ∷ spi ∷ aes ∷ clint ∷ trng ∷ []

-- `region` on the table of names; `none` stands for its KeyError.
unfoldable pub region_in : List Region → Text → Option Region
unfolding text_eq
region_in [] wanted = none
region_in (r ∷ rs) wanted = if text_eq r.name wanted then some r else region_in rs wanted

unfoldable pub region : Text → Option Region
unfolding region_in
region wanted = region_in memory_map wanted

-- The loop of `decode`, on any map.
unfoldable pub decode_in : List Region → ℤ → Option Region
unfolding contains
decode_in [] address = none
decode_in (r ∷ rs) address = if contains r address then some r else decode_in rs address

unfoldable pub decode : ℤ → Option Region
unfolding decode_in
decode address = decode_in memory_map address

unfoldable pub collide : Region → Region → Bool
collide first second =
    leb_ℤ (pos first.base) (limit second) && leb_ℤ (pos second.base) (limit first)

-- The inner loop of `overlaps`.
unfoldable pub overlaps_with : Region → List Region → List (Text × Text)
unfolding collide
overlaps_with first [] = []
overlaps_with first (second ∷ rest) =
    let found = overlaps_with first rest in
    if collide first second then (first.name, second.name) ∷ found else found

unfoldable pub overlaps_in : List Region → List (Text × Text)
unfolding overlaps_with
overlaps_in [] = []
overlaps_in (first ∷ rest) = overlaps_with first rest ++ overlaps_in rest

unfoldable pub overlaps : List (Text × Text)
unfolding overlaps_in
overlaps = overlaps_in memory_map
