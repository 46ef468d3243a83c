-- ===== src/Chip/Protocol/Access.antt =====
-- The functions of Chip.Access and Chip.Deadline take only steps of the protocol.
use jornada_gpib.Prelude.{ℕ, refl}
use jornada_gpib.Chip.Io.{Io, modify}
use jornada_gpib.Chip.Bits.{hr_hlda, hr_hlde}
use jornada_gpib.Chip.Access.{
  poll_status, release_holdoff, set_handshake_mode, is_cic, fold_isr1, fold_isr2, clear_isr1,
}
use jornada_gpib.Chip.Deadline.{
  Deadline, deadline_start, deadline_expired, set_count, remaining_count,
}
use jornada_gpib.Chip.Protocol.Ranges.{Keeps-handshake_hlda, Keeps-handshake_hlde}
use jornada_gpib.Chip.Protocol.Rules.{Traced, Traced-modify, Traced-set_auxra, traced}
use jornada_gpib.Chip.Protocol.Steps.{Mode}

module _ {mode : Mode} where
  pub Traced-fold_isr1 : (v : ℕ) → Traced mode (modify (fold_isr1 v))
  Traced-fold_isr1 v = Traced-modify _ (λ c. (refl, refl, refl, refl))

  pub Traced-set_count : (n : ℕ) → Traced mode (set_count n)
  unfolding set_count
  Traced-set_count n = search traced depth 30

module _ ⦃io : Io⦄ {mode : Mode} where
  pub Traced-remaining_count : Traced mode remaining_count
  unfolding remaining_count
  Traced-remaining_count = search traced depth 30

  pub Traced-deadline_start : Traced mode deadline_start
  unfolding deadline_start
  Traced-deadline_start = search traced depth 30

  pub Traced-deadline_expired : (d : Deadline) → Traced mode (deadline_expired d)
  unfolding deadline_expired
  Traced-deadline_expired d = search traced depth 30

module _ {mode : Mode} where
  pub Traced-fold_isr2 : (v : ℕ) → Traced mode (modify (fold_isr2 v))
  Traced-fold_isr2 v = Traced-modify _ (λ c. (refl, refl, refl, refl))

  pub Traced-clear_isr1 : (mask : ℕ) → Traced mode (modify (clear_isr1 mask))
  Traced-clear_isr1 mask = Traced-modify _ (λ c. (refl, refl, refl, refl))

  pub Traced-hlda : Traced mode (set_handshake_mode hr_hlda)
  unfolding set_handshake_mode
  Traced-hlda = Traced-set_auxra _ Keeps-handshake_hlda

  pub Traced-hlde : Traced mode (set_handshake_mode hr_hlde)
  unfolding set_handshake_mode
  Traced-hlde = Traced-set_auxra _ Keeps-handshake_hlde

module _ ⦃io : Io⦄ {mode : Mode} where
  pub Traced-poll_status : Traced mode poll_status
  unfolding poll_status
  Traced-poll_status = search (traced, Traced-fold_isr1, Traced-fold_isr2) depth 30

  pub Traced-release_holdoff : Traced mode release_holdoff
  unfolding release_holdoff
  Traced-release_holdoff = search (traced, Traced-hlda, Traced-hlde) depth 30

  pub Traced-is_cic : Traced mode is_cic
  unfolding is_cic
  Traced-is_cic = search traced depth 30

pub ruleset access = (
  traced, Traced-fold_isr1, Traced-fold_isr2, Traced-clear_isr1, Traced-set_count,
  Traced-remaining_count, Traced-deadline_start, Traced-deadline_expired, Traced-poll_status,
  Traced-release_holdoff, Traced-is_cic,
)
