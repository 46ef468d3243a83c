-- ===== src/Chip/Control.antt =====
-- Bus management: interface clear, remote enable, taking and releasing control, parallel poll,
-- and the register snapshot. The wait for ATN polls for `rounds` rounds after the spin.
use jornada_gpib.Prelude.{
  ℕ, zero, suc, bit_or, Option, none, some, Bool, true, false, not, if◌then◌else◌, has,
}
use jornada_gpib.Chip.Io.{
  Io, M, ◌>>=◌, ◌>>◌, pure, out_of_rounds, chip, modify, rd, delay_us, yield,
}
use jornada_gpib.Chip.Status.{Status, ok, etimeout, enotcic, enotsc}
use jornada_gpib.Chip.Reg
use jornada_gpib.Chip.Bits.{
  aux_sifc, aux_cifc, aux_sren, aux_cren, aux_tcs, aux_tca, aux_gts, hr_natn, hr_rpp2, tnt_s_sc,
  tca_spin_us, ifc_pulse_us,
}
use jornada_gpib.Chip.Access.{auxmr, fold_isr1, fold_isr2, is_cic}
use jornada_gpib.Chip.Deadline.{Deadline, deadline_start, deadline_expired}

-- natn == !asserted, of an ADSR value
abbrev pub atn_is : Bool → ℕ → Bool
atn_is asserted v = if asserted then not (has v hr_natn) else has v hr_natn

pub record Regs : Type 0 where
  pub isr0 : ℕ
  pub isr1 : ℕ
  pub isr2 : ℕ
  pub isr3 : ℕ
  pub sts1 : ℕ
  pub sts2 : ℕ
  pub adsr : ℕ
  pub bsr : ℕ
  pub sasr : ℕ
  pub cnt0 : ℕ
  pub cnt1 : ℕ

module _ ⦃io : Io⦄ where
  unfoldable pub interface_clear : M Status
  unfolding pure rd delay_us auxmr
  interface_clear = do
    v ← rd Reg.sts1
    if has v tnt_s_sc
        then (do auxmr aux_sifc; delay_us ifc_pulse_us; auxmr aux_cifc; pure ok)
        else pure enotsc

  unfoldable pub remote_enable : Bool → M Status
  unfolding pure rd auxmr
  remote_enable on = do
    v ← rd Reg.sts1
    if has v tnt_s_sc then (do auxmr (if on then aux_sren else aux_cren); pure ok) else pure enotsc

  -- One round of the first loop of `wait_atn`; `again` is the rest of the loop.
  unfoldable pub spin_round : Bool → M Bool → M Bool
  unfolding pure rd delay_us
  spin_round asserted again = do
    v ← rd Reg.adsr
    if atn_is asserted v then pure true else (do delay_us 1; again)

  -- The first loop; `false` means that it ended without the line in place.
  unfoldable pub spin_atn : ℕ → Bool → M Bool
  unfolding pure spin_round
  spin_atn zero asserted = pure false
  spin_atn (suc n) asserted = spin_round asserted (spin_atn n asserted)

  unfoldable pub poll_round : Bool → Deadline → M Status → M Status
  unfolding pure rd yield deadline_expired
  poll_round asserted d again = do
    v ← rd Reg.adsr
    if atn_is asserted v
        then pure ok
        else do late ← deadline_expired d; if late then pure etimeout else (do yield; again)

  -- The second loop.
  unfoldable pub poll_atn : ℕ → Bool → Deadline → M Status
  unfolding out_of_rounds poll_round
  poll_atn zero asserted d = out_of_rounds
  poll_atn (suc rounds) asserted d = poll_round asserted d (poll_atn rounds asserted d)

  unfoldable pub wait_atn : ℕ → Bool → M Status
  unfolding pure spin_atn poll_atn deadline_start
  wait_atn rounds asserted = do
    seen ← spin_atn tca_spin_us asserted
    if seen then pure ok else do d ← deadline_start; poll_atn rounds asserted d

  unfoldable pub take_control : ℕ → Bool → M Status
  unfolding pure is_cic auxmr wait_atn
  take_control rounds synchronous = do
    cic ← is_cic
    if cic
        then (do auxmr (if synchronous then aux_tcs else aux_tca); wait_atn rounds true)
        else pure enotcic

  unfoldable pub go_to_standby : ℕ → M Status
  unfolding pure is_cic auxmr wait_atn
  go_to_standby rounds = do
    cic ← is_cic
    if cic then (do auxmr aux_gts; wait_atn rounds false) else pure enotcic

  -- The poll itself: the chip executes it on RPP2 and shows the response in CPTR.
  unfoldable pub execute_poll : M ℕ
  unfolding pure chip rd delay_us auxmr
  execute_poll = do
    c ← chip
    auxmr (bit_or c.auxrg hr_rpp2)
    delay_us 2
    v ← rd Reg.cptr
    c' ← chip
    auxmr c'.auxrg
    pure v

  -- The response is `none` where the code leaves `*response` alone.
  unfoldable pub parallel_poll : M (Status × Option ℕ)
  unfolding pure is_cic execute_poll
  parallel_poll = do
    cic ← is_cic
    if cic then (do v ← execute_poll; pure (ok, some v)) else pure (enotcic, none)

  unfoldable pub snapshot : M Regs
  unfolding pure modify rd
  snapshot = do
    isr1 ← rd Reg.isr1
    isr2 ← rd Reg.isr2
    modify (fold_isr1 isr1)
    modify (fold_isr2 isr2)
    isr0 ← rd Reg.isr0
    isr3 ← rd Reg.isr3
    sts1 ← rd Reg.sts1
    sts2 ← rd Reg.sts2
    adsr ← rd Reg.adsr
    bsr ← rd Reg.bsr
    sasr ← rd Reg.sasr
    cnt0 ← rd Reg.cnt0
    cnt1 ← rd Reg.cnt1
    pure (record {
      isr0 = isr0;
      isr1 = isr1;
      isr2 = isr2;
      isr3 = isr3;
      sts1 = sts1;
      sts2 = sts2;
      adsr = adsr;
      bsr = bsr;
      sasr = sasr;
      cnt0 = cnt0;
      cnt1 = cnt1;
    })
