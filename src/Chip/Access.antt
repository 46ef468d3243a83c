-- ===== src/Chip/Access.antt =====
-- How the chip driver touches the chip: the spaced writes to AUXMR and CMDR, the status bits that
-- a read clears, the auxiliary registers with their copies in `tnt_chip`, the RFD holdoff.
use jornada_gpib.Prelude.{ℕ, ◌+◌, bit_or, Bool, u8, has, clear, if◌then◌else◌}
use jornada_gpib.Chip.Io.{Io, Chip, M, ◌>>=◌, ◌>>◌, pure, chip, modify, rd, wr, delay_us}
use jornada_gpib.Chip.Status.{Status, ok}
use jornada_gpib.Chip.Reg
use jornada_gpib.Chip.Bits.{hr_hlda, hr_hlde, hr_cic, aux_fh, tnt_aehs, tnt_anhs1}

unfoldable pub auxmr : ℕ → M (Unit {0})
unfolding delay_us wr
auxmr v = do delay_us 1; wr Reg.auxmr v

unfoldable pub cmdr : ℕ → M (Unit {0})
unfolding delay_us wr
cmdr v = do wr Reg.cmdr v; delay_us 1

-- A store to the copy of an auxiliary register, and the write of the copy to the chip.
unfoldable pub set_auxra : (ℕ → ℕ) → M (Unit {0})
unfolding modify chip auxmr
set_auxra f = do modify (λ c. record c { auxra = f c.auxra }); c ← chip; auxmr c.auxra

unfoldable pub set_auxrb : (ℕ → ℕ) → M (Unit {0})
unfolding modify chip auxmr
set_auxrb f = do modify (λ c. record c { auxrb = f c.auxrb }); c ← chip; auxmr c.auxrb

unfoldable pub set_auxri : (ℕ → ℕ) → M (Unit {0})
unfolding modify chip auxmr
set_auxri f = do modify (λ c. record c { auxri = f c.auxri }); c ← chip; auxmr c.auxri

unfoldable pub set_auxrg : (ℕ → ℕ) → M (Unit {0})
unfolding modify chip auxmr
set_auxrg f = do modify (λ c. record c { auxrg = f c.auxrg }); c ← chip; auxmr c.auxrg

abbrev pub handshake : ℕ → ℕ → ℕ
handshake mode auxra = u8 (bit_or (clear auxra (hr_hlda + hr_hlde)) mode)

unfoldable pub set_handshake_mode : ℕ → M (Unit {0})
unfolding set_auxra
set_handshake_mode mode = set_auxra (handshake mode)

-- if (rc != TNT_OK) return rc;
unfoldable pub if_ok : Status → M Status → M Status
unfolding pure
if_ok ok m = m
if_ok rc m = pure rc

abbrev pub clear_isr1 : ℕ → Chip → Chip
clear_isr1 mask c = record c { isr1 = clear c.isr1 mask }

abbrev pub fold_isr1 : ℕ → Chip → Chip
fold_isr1 v c = record c { isr1 = bit_or c.isr1 v }

abbrev pub fold_isr2 : ℕ → Chip → Chip
fold_isr2 v c = record c { isr2 = bit_or c.isr2 v }

module _ ⦃io : Io⦄ where
  unfoldable pub poll_status : M (Unit {0})
  unfolding rd modify
  poll_status = do a ← rd Reg.isr1; modify (fold_isr1 a); b ← rd Reg.isr2; modify (fold_isr2 b)

  unfoldable pub release_holdoff : M (Unit {0})
  unfolding rd set_handshake_mode auxmr
  release_holdoff = do
    sasr ← rd Reg.sasr
    if has sasr tnt_aehs
        then (do set_handshake_mode hr_hlde; auxmr aux_fh)
        else if has sasr tnt_anhs1
        then (do set_handshake_mode hr_hlda; auxmr aux_fh; set_handshake_mode hr_hlde)
        else (do set_handshake_mode hr_hlde; auxmr aux_fh)

  unfoldable pub bus_lines : M ℕ
  unfolding rd
  bus_lines = rd Reg.bsr

  unfoldable pub adsr : M ℕ
  unfolding rd
  adsr = rd Reg.adsr

  unfoldable pub is_cic : M Bool
  unfolding rd pure
  is_cic = do v ← rd Reg.adsr; pure (has v hr_cic)
