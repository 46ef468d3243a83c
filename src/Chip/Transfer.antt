-- ===== src/Chip/Transfer.antt =====
-- FIFO transfers. A buffer and its length are one list. The polling loops go on for `rounds`
-- rounds at most; the drain of the FIFO is bounded by the room that is left.
pub mod Output
pub mod Sent
pub mod Silent
pub mod Ended
pub mod Received
use jornada_gpib.Prelude.{
  ℕ, zero, suc, ◌+◌, ◌-◌, bit_or, Bool, true, false, not, ◌==◌, ltb, leb, if◌then◌else◌, Option,
  none, some, List, [], ◌∷◌, ◌++◌, length, has,
}
use jornada_gpib.Chip.Io.{
  Io, M, ◌>>=◌, ◌>>◌, pure, out_of_rounds, unless_stopped, chip, modify, rd, wr, yield,
}
use jornada_gpib.Chip.Status.{Status, ok, etimeout, enolistener, enotcic, einval, is_ok}
use jornada_gpib.Chip.Reg
use jornada_gpib.Chip.Bits.{
  aux_hldi, hr_err, hr_end, hr_natn, tnt_command, tnt_in, tnt_ccen, tnt_reset_fifo, tnt_go,
  tnt_stop, tnt_s_done, tnt_bffn, tnt_befn, tnt_xf_eoi, tnt_xf_command, tnt_max_transfer,
}
use jornada_gpib.Chip.Access.{auxmr, cmdr, poll_status, clear_isr1, release_holdoff, is_cic}
use jornada_gpib.Chip.Deadline.{
  Deadline, deadline_start, deadline_expired, set_count, remaining_count,
}
use jornada_gpib.Chip.Control.{take_control}

-- The CFG value of `tnt_transfer_out`.
abbrev pub out_cfg : ℕ → ℕ
out_cfg flags =
    bit_or (if has flags tnt_xf_eoi then tnt_ccen else 0)
      (if has flags tnt_xf_command then tnt_command else 0)

-- left <= n ? n - left : queued
abbrev pub sent_count : (n left queued : ℕ) → ℕ
sent_count n left queued = if leb left n then n - left else queued

module _ ⦃io : Io⦄ where
  -- The tests that both loops of `tnt_transfer_out` make between two polls: the code with which
  -- to leave the loop, if any.
  unfoldable pub out_stalled : Deadline → M (Option Status)
  unfolding pure chip poll_status deadline_expired
  out_stalled d = do
    poll_status
    c ← chip
    if has c.isr1 hr_err
        then pure (some enolistener)
        else do late ← deadline_expired d; pure (if late then some etimeout else none)

  -- One round of the loop that queues the bytes, `b` the next one; `filled` goes on when `b` is
  -- queued, `again` when the FIFO was full.
  unfoldable pub fill_round :
      ℕ
      → ℕ
      → Deadline
      → (Deadline → M (Status × ℕ × Deadline))
      → M (Status × ℕ × Deadline)
      → M (Status × ℕ × Deadline)
  unfolding pure rd wr yield deadline_start out_stalled
  fill_round b queued d filled again = do
    v ← rd Reg.sts2
    if has v tnt_bffn then (do wr Reg.fifob b; d' ← deadline_start; filled d') else do
      stop ← out_stalled d
      unless_stopped stop (λ rc. pure (rc, queued, d)) (do yield; again)

  -- while (queued < n): the bytes not yet queued, and the count of those that are.
  unfoldable pub fill_fifo : ℕ → List ℕ → ℕ → Deadline → M (Status × ℕ × Deadline)
  unfolding pure out_of_rounds fill_round
  fill_fifo zero rest queued d = out_of_rounds
  fill_fifo (suc rounds) [] queued d = pure (ok, queued, d)
  fill_fifo (suc rounds) (b ∷ rest) queued d =
      fill_round b queued d (fill_fifo rounds rest (queued + 1))
        (fill_fifo rounds (b ∷ rest) queued d)

  unfoldable pub done_round : Deadline → M Status → M Status
  unfolding pure rd yield out_stalled
  done_round d again = do
    v ← rd Reg.sts1
    if has v tnt_s_done
        then pure ok
        else do stop ← out_stalled d; unless_stopped stop pure (do yield; again)

  -- while (rc == TNT_OK && !(STS1 & DONE))
  unfoldable pub wait_done : ℕ → Deadline → M Status
  unfolding out_of_rounds done_round
  wait_done zero d = out_of_rounds
  wait_done (suc rounds) d = done_round d (wait_done rounds d)

  -- From the FIFO reset to the GO command.
  unfoldable pub start_out : ℕ → ℕ → M (Unit {0})
  unfolding modify wr cmdr set_count poll_status
  start_out n flags = do
    cmdr tnt_reset_fifo
    wr Reg.cfg (out_cfg flags)
    set_count n
    poll_status
    modify (clear_isr1 hr_err)
    cmdr tnt_go

  -- From the STOP command to the return.
  unfoldable pub finish_out : ℕ → ℕ → Status → M (Status × ℕ)
  unfolding pure modify cmdr remaining_count
  finish_out n queued rc = do
    cmdr tnt_stop
    left ← remaining_count
    modify (clear_isr1 hr_err)
    pure (rc, sent_count n left queued)

  -- `*sent` is returned beside the code.
  unfoldable pub transfer_out : ℕ → List ℕ → ℕ → M (Status × ℕ)
  unfolding pure deadline_start fill_fifo wait_done start_out finish_out
  transfer_out rounds buf flags =
      let n = length buf in
      if n == 0 then pure (ok, 0) else if ltb tnt_max_transfer n then pure (einval, 0) else do
        start_out n flags
        d ← deadline_start
        (rc, queued, d') ← fill_fifo rounds buf 0 d
        rc' ← if is_ok rc then wait_done rounds d' else pure rc
        finish_out n queued rc'

  unfoldable pub command : ℕ → List ℕ → M (Status × ℕ)
  unfolding pure rd is_cic take_control transfer_out
  command rounds cmd = do
    cic ← is_cic
    if not cic then pure (enotcic, 0) else do
      v ← rd Reg.adsr
      if has v hr_natn
          then (do
            rc ← take_control rounds false
            if is_ok rc then transfer_out rounds cmd tnt_xf_command else pure (rc, 0))
          else transfer_out rounds cmd tnt_xf_command

  unfoldable pub write : ℕ → List ℕ → Bool → M (Status × ℕ)
  unfolding transfer_out
  write rounds buf eoi = transfer_out rounds buf (if eoi then tnt_xf_eoi else 0)

  unfoldable pub drain_round : List ℕ → ℕ → (List ℕ → M (List ℕ × ℕ)) → M (List ℕ × ℕ)
  unfolding pure rd
  drain_round buf room more = do
    v ← rd Reg.sts2
    if has v tnt_befn then (do b ← rd Reg.fifob; more (buf ++ b ∷ [])) else pure (buf, room)

  -- The buffer so far, and the room left in it.
  unfoldable pub drain_fifo : ℕ → List ℕ → M (List ℕ × ℕ)
  unfolding pure drain_round
  drain_fifo zero buf = pure (buf, 0)
  drain_fifo (suc room) buf = drain_round buf (suc room) (drain_fifo room)

  -- One round of the reading loop with `room` bytes to go; `again` is the rest of the loop.
  unfoldable pub read_round :
      ℕ
      → List ℕ
      → Deadline
      → (ℕ → List ℕ → Deadline → M (Status × List ℕ × Bool))
      → M (Status × List ℕ × Bool)
  unfolding pure chip yield poll_status deadline_start deadline_expired drain_fifo
  read_round room buf d again = do
    (buf', room') ← drain_fifo room buf
    if not (room' == room) then (do d' ← deadline_start; again room' buf' d') else do
      poll_status
      c ← chip
      if has c.isr1 hr_end
          then (do (last, _) ← drain_fifo room' buf'; pure (ok, last, true))
          else do
            late ← deadline_expired d
            if late then pure (etimeout, buf', false) else (do yield; again room' buf' d)

  -- while (n < cap): the code, the buffer, whether END was seen.
  unfoldable pub read_loop : ℕ → ℕ → List ℕ → Deadline → M (Status × List ℕ × Bool)
  unfolding pure out_of_rounds read_round
  read_loop zero room buf d = out_of_rounds
  read_loop (suc rounds) zero buf d = pure (ok, buf, false)
  read_loop (suc rounds) (suc room) buf d = read_round (suc room) buf d (read_loop rounds)

  -- if (n == cap && !*end): END may have come with the last counted byte.
  unfoldable pub late_end : Bool → M Bool
  unfolding pure chip poll_status
  late_end false = pure false
  late_end true = do poll_status; c ← chip; pure (has c.isr1 hr_end)

  unfoldable pub start_in : ℕ → M (Unit {0})
  unfolding modify wr cmdr set_count poll_status release_holdoff
  start_in cap = do
    release_holdoff
    cmdr tnt_reset_fifo
    wr Reg.cfg (bit_or tnt_in tnt_ccen)
    set_count cap
    poll_status
    modify (clear_isr1 hr_end)
    cmdr tnt_go

  -- After a timeout the talker is held off again.
  unfoldable pub hold_off : Status → M (Unit {0})
  unfolding pure auxmr
  hold_off etimeout = auxmr aux_hldi
  hold_off rc = pure tt

  unfoldable pub finish_in : Status → M (Unit {0})
  unfolding modify cmdr hold_off
  finish_in rc = do cmdr tnt_stop; modify (clear_isr1 hr_end); hold_off rc

  -- `buf` with `*got` bytes in it, and `*end`, beside the code.
  unfoldable pub read : ℕ → ℕ → M (Status × List ℕ × Bool)
  unfolding pure deadline_start read_loop late_end start_in finish_in
  read rounds cap =
      if cap == 0
      then pure (ok, [], false)
      else if ltb tnt_max_transfer cap
      then pure (einval, [], false)
      else do
        start_in cap
        d ← deadline_start
        (rc, buf, end) ← read_loop rounds cap [] d
        late ← late_end (if length buf == cap then not end else false)
        finish_in rc
        pure (rc, buf, if late then true else end)
