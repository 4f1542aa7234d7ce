-- ===== src/Arch/Tables/Tests.antt =====
-- The descriptor tables at concrete entries.
use hexos.Base.{ℕ, ◌+◌, ◌*◌, ◌%◌, ◌^◌, ◌≡◌, refl}
use hexos.Arch.Tables.{Gdt, gdt_set_gate, gdt_install}
use hexos.Arch.Tables.Roundtrip.{}

abbrev no_entries : Gdt
no_entries = λ i. record {
  limit_low = 0;
  base_low = 0;
  base_middle = 0;
  access = 0;
  granularity = 0;
  base_high = 0;
}

code_segment : (gdt_install no_entries).1 1 ≡ record {
  limit_low = 65535;
  base_low = 0;
  base_middle = 0;
  access = 154;
  granularity = 207;
  base_high = 0;
}
unfolding gdt_install gdt_set_gate
code_segment = refl

-- Stubs that take eight bytes each, from 1 MiB on.
abbrev stub : ℕ → ℕ
stub i = (1048576 + 8 * i) % 2 ^ 32
