-- ===== src/Chip/Setup.antt =====
-- Binding, self-test, configuration, bringing the chip online and shutting it down.
use jornada_gpib.Prelude.{
  ℕ, ◌+◌, bit_and, bit_or, Bool, ◌&&◌, ◌||◌, ◌==◌, ltb, leb, if◌then◌else◌, ℤ, pos, negsuc, gtz, u8,
  has, clear,
}
use jornada_gpib.Chip.Io.{Io, Chip, M, ◌>>=◌, ◌>>◌, pure, chip, modify, rd, wr, delay_us}
use jornada_gpib.Chip.Status.{Status, ok, eio, einval}
use jornada_gpib.Chip.Reg
use jornada_gpib.Chip.Bits.{
  aux_7210, aux_cr, aux_cren, aux_hldi, aux_pon, aux_ppr, hr_ppu, aux_auxra, aux_auxrb, aux_auxre,
  aux_auxrg, aux_auxri, hr_hlda, hr_reos, hr_bin, hr_xeos, hr_tri, hr_ustd, hr_ars, hr_dt, hr_dl,
  hr_trm0, hr_trm1, hr_adm0, hr_adm1, address_mask, tnt_mstd, tnt_nodma, tnt_one_chip,
  tnt_imr0_always, tnt_soft_reset, tnt_setsc, tnt_clrsc, tnt_s_sc, tnt_eos_reos, tnt_eos_bin,
  tnt_eos_xeos, tnt_reset_sts1, tnt_reset_sts2, tnt_reset_isr3, tnt_reset_adsr,
  tnt_default_timeout_ms,
}
use jornada_gpib.Chip.Access.{if_ok, auxmr, cmdr, set_auxra, set_auxrb, set_auxri, set_auxrg}

-- What `tnt_bind` leaves in `tnt_chip`.
abbrev pub bound : Chip
bound = record {
  pad = 0;
  sad = negsuc 0;
  auxra = bit_or aux_auxra hr_hlda;
  auxrb = aux_auxrb;
  auxrg = aux_auxrg;
  auxri = aux_auxri;
  isr1 = 0;
  isr2 = 0;
  eos = 0;
  eos_flags = 0;
  timeout_ms = tnt_default_timeout_ms;
  t1_ns = 2000;
  csr = 0;
}

unfoldable pub bind : M (Unit {0})
unfolding modify
bind = modify λ _. bound

pub record ProbeResult : Type 0 where
  pub csr : ℕ
  pub sts1 : ℕ
  pub sts2 : ℕ
  pub isr3 : ℕ
  pub adsr : ℕ
  pub isr0 : ℕ
  pub ok : Bool

unfoldable pub signature_ok : (sts1 sts2 isr3 adsr : ℕ) → Bool
signature_ok sts1 sts2 isr3 adsr =
    sts1 == tnt_reset_sts1
    && sts2 == tnt_reset_sts2
    && isr3 == tnt_reset_isr3
    && adsr == tnt_reset_adsr

-- The source handshake settling time, as the bits of AUXRB, AUXRI and KEYREG.
abbrev pub t1_auxrb : ℕ → ℕ → ℕ
t1_auxrb ns v = if leb ns 500 then bit_or v hr_tri else clear v hr_tri

abbrev pub t1_auxri : ℕ → ℕ → ℕ
t1_auxri ns v = if ltb 500 ns && leb ns 1100 then bit_or v hr_ustd else clear v hr_ustd

abbrev pub set_if : Bool → ℕ → ℕ → ℕ
set_if b mask v = if b then bit_or v mask else v

abbrev pub eos_auxra : ℕ → ℕ → ℕ
eos_auxra flags v = set_if (has flags tnt_eos_xeos) hr_xeos (
    set_if (has flags tnt_eos_bin) hr_bin
      (set_if (has flags tnt_eos_reos) hr_reos (clear v (hr_reos + hr_bin + hr_xeos))))

unfoldable pub set_timeout : ℕ → M (Unit {0})
unfolding modify
set_timeout ms = modify λ c. record c { timeout_ms = ms }

-- The writes of `tnt_set_address` that depend on the secondary address.
unfoldable pub write_secondary : ℤ → M (Unit {0})
unfolding wr
write_secondary (negsuc n) = do
  wr Reg.adr (bit_or (bit_or hr_ars hr_dt) hr_dl)
  wr Reg.admr (bit_or (bit_or hr_trm0 hr_trm1) hr_adm0)
write_secondary (pos n) = do
  wr Reg.adr (bit_or hr_ars (bit_and (u8 n) address_mask))
  wr Reg.admr (bit_or (bit_or hr_trm0 hr_trm1) hr_adm1)

unfoldable pub set_address : ℕ → ℤ → M Status
unfolding pure modify wr write_secondary
set_address pad sad = if ltb 30 pad || gtz sad 30 then pure einval else do
  modify λ c. record c { pad = pad; sad = sad }
  wr Reg.adr (bit_and pad address_mask)
  write_secondary sad
  pure ok

unfoldable pub set_t1 : ℕ → M Status
unfolding pure modify wr set_auxrb set_auxri
set_t1 ns = do
  modify λ c. record c { t1_ns = ns }
  set_auxrb (t1_auxrb ns)
  wr Reg.keyreg (if leb ns 350 then tnt_mstd else 0)
  set_auxri (t1_auxri ns)
  pure ok

unfoldable pub set_eos : ℕ → ℕ → M Status
unfolding pure modify wr set_auxra
set_eos eos flags = do
  modify λ c. record c { eos = eos; eos_flags = flags }
  wr Reg.eosr eos
  set_auxra (eos_auxra flags)
  pure ok

module _ ⦃io : Io⦄ where
  unfoldable pub reset_sequence : M (Unit {0})
  unfolding modify rd wr delay_us auxmr cmdr
  reset_sequence = do
    cmdr tnt_soft_reset
    wr Reg.hssel tnt_nodma
    wr Reg.accwr 0
    wr Reg.auxcr aux_7210
    delay_us 1
    wr Reg.swapped_auxcr aux_7210
    delay_us 1
    wr Reg.hssel (bit_or tnt_nodma tnt_one_chip)
    auxmr aux_cr
    wr Reg.keyreg 0
    wr Reg.imr1 0
    wr Reg.imr2 0
    wr Reg.spmr 0
    _ ← rd Reg.cptr
    _ ← rd Reg.isr1
    _ ← rd Reg.isr2
    modify λ c. record c { isr1 = 0; isr2 = 0 }

  unfoldable pub probe : M (Status × ProbeResult)
  unfolding pure modify rd reset_sequence signature_ok
  probe = do
    reset_sequence
    csr ← rd Reg.csr
    sts1 ← rd Reg.sts1
    sts2 ← rd Reg.sts2
    isr3 ← rd Reg.isr3
    adsr ← rd Reg.adsr
    isr0 ← rd Reg.isr0
    modify λ c. record c { csr = csr }
    let good = signature_ok sts1 sts2 isr3 adsr
    pure (
      if good then ok else eio,
      record {
        csr = csr;
        sts1 = sts1;
        sts2 = sts2;
        isr3 = isr3;
        adsr = adsr;
        isr0 = isr0;
        ok = good;
      },
    )

  -- The part of `tnt_init` after the address is accepted.
  unfoldable pub go_online : M Status
  unfolding pure chip rd wr auxmr cmdr set_t1
  go_online = do
    wr Reg.eosr 0
    auxmr aux_pon
    c ← chip
    _ ← set_t1 c.t1_ns
    cmdr tnt_setsc
    v ← rd Reg.sts1
    pure (if has v tnt_s_sc then ok else eio)

  -- The part of `tnt_init` between the self-test and the address.
  unfoldable pub prepare : M (Unit {0})
  unfolding rd wr auxmr set_auxra set_auxrb set_auxri set_auxrg
  prepare = do
    auxmr (bit_or aux_ppr hr_ppu)
    set_auxra λ _. bit_or aux_auxra hr_hlda
    auxmr aux_auxre
    set_auxrb λ _. aux_auxrb
    set_auxri λ _. aux_auxri
    _ ← rd Reg.isr0
    wr Reg.imr3 0
    wr Reg.imr0 tnt_imr0_always
    auxmr aux_hldi
    set_auxrg λ _. aux_auxrg

  -- The part of `tnt_init` after the self-test.
  unfoldable pub configure : ℕ → M Status
  unfolding if_ok prepare set_address go_online
  configure pad = do prepare; rc ← set_address pad (negsuc 0); if_ok rc go_online

  unfoldable pub init : ℕ → M Status
  unfolding if_ok probe configure
  init pad = do (rc, _) ← probe; if_ok rc (configure pad)

  unfoldable pub shutdown : M (Unit {0})
  unfolding rd wr auxmr cmdr
  shutdown = do
    wr Reg.imr0 tnt_imr0_always
    wr Reg.imr3 0
    _ ← rd Reg.isr0
    auxmr aux_cren
    cmdr tnt_clrsc
    auxmr aux_cr
    wr Reg.imr1 0
    wr Reg.imr2 0
