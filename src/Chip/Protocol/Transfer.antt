-- ===== src/Chip/Protocol/Transfer.antt =====
-- The functions of Chip.Transfer take only steps of the protocol.
use jornada_gpib.Prelude.{ℕ, zero, suc, Bool, true, false, List, [], ◌∷◌}
use jornada_gpib.Chip.Io.{Io, M}
use jornada_gpib.Chip.Status.{Status, etimeout}
use jornada_gpib.Chip.Deadline.{Deadline}
use jornada_gpib.Chip.Transfer.{
  out_stalled, fill_round, fill_fifo, done_round, wait_done, start_out, finish_out, transfer_out,
  command, write, drain_round, drain_fifo, read_round, read_loop, late_end, start_in, hold_off,
  finish_in, read,
}
use jornada_gpib.Chip.Protocol.Rules.{Traced-feed, Traced}
use jornada_gpib.Chip.Protocol.Access.{access}
use jornada_gpib.Chip.Protocol.Control.{Traced-take_control}
use jornada_gpib.Chip.Protocol.Steps.{feeding, Mode}

module _ ⦃io : Io⦄ {mode : Mode} where
  Traced-out_stalled : (d : Deadline) → Traced mode (out_stalled d)
  unfolding out_stalled
  Traced-out_stalled d = search access depth 30

  Traced-done_round :
      (d : Deadline) (again : M Status) → Traced mode again → Traced mode (done_round d again)
  unfolding done_round
  Traced-done_round d again t = search (access, Traced-out_stalled) depth 30

  Traced-wait_done : (rounds : ℕ) (d : Deadline) → Traced mode (wait_done rounds d)
  unfolding wait_done
  Traced-wait_done zero d = search access
  Traced-wait_done (suc rounds) d = Traced-done_round d _ (Traced-wait_done rounds d)

  Traced-start_out : (n flags : ℕ) → Traced mode (start_out n flags)
  unfolding start_out
  Traced-start_out n flags = search access depth 30

  Traced-finish_out : (n queued : ℕ) (rc : Status) → Traced mode (finish_out n queued rc)
  unfolding finish_out
  Traced-finish_out n queued rc = search access depth 30

  Traced-drain_round :
      (buf : List ℕ) (room : ℕ) (more : List ℕ → M (List ℕ × ℕ))
      → ((l : List ℕ) → Traced mode (more l))
      → Traced mode (drain_round buf room more)
  unfolding drain_round
  Traced-drain_round buf room more t = search (access, t) depth 30

  Traced-drain_fifo : (room : ℕ) (buf : List ℕ) → Traced mode (drain_fifo room buf)
  unfolding drain_fifo
  Traced-drain_fifo zero buf = search access
  Traced-drain_fifo (suc room) buf = Traced-drain_round buf (suc room) _ (Traced-drain_fifo room)

  Traced-read_round :
      (room : ℕ) (buf : List ℕ) (d : Deadline)
      (again : ℕ → List ℕ → Deadline → M (Status × List ℕ × Bool))
      → ((r : ℕ) (l : List ℕ) (d' : Deadline) → Traced mode (again r l d'))
      → Traced mode (read_round room buf d again)
  unfolding read_round
  Traced-read_round room buf d again t = search (access, Traced-drain_fifo, t) depth 30

  Traced-read_loop :
      (rounds room : ℕ) (buf : List ℕ) (d : Deadline) → Traced mode (read_loop rounds room buf d)
  unfolding read_loop
  Traced-read_loop zero room buf d = search access
  Traced-read_loop (suc rounds) zero buf d = search access
  Traced-read_loop (suc rounds) (suc room) buf d =
      Traced-read_round (suc room) buf d _ (Traced-read_loop rounds)

  Traced-late_end : (b : Bool) → Traced mode (late_end b)
  unfolding late_end
  Traced-late_end true = search access depth 30
  Traced-late_end false = search access depth 30

  Traced-start_in : (cap : ℕ) → Traced mode (start_in cap)
  unfolding start_in
  Traced-start_in cap = search access depth 30

  Traced-hold_off : (rc : Status) → Traced mode (hold_off rc)
  unfolding hold_off
  Traced-hold_off etimeout = search access
  Traced-hold_off rc = search access

  Traced-finish_in : (rc : Status) → Traced mode (finish_in rc)
  unfolding finish_in
  Traced-finish_in rc = search (access, Traced-hold_off) depth 30

  pub Traced-read : (rounds cap : ℕ) → Traced mode (read rounds cap)
  unfolding read
  Traced-read rounds cap =
      search (access, Traced-read_loop, Traced-late_end, Traced-start_in, Traced-finish_in) depth 30

module _ ⦃io : Io⦄ where
  Traced-fill_round :
      (b queued : ℕ) (d : Deadline) (filled : Deadline → M (Status × ℕ × Deadline))
      (again : M (Status × ℕ × Deadline))
      → ((d' : Deadline) → Traced feeding (filled d'))
      → Traced feeding again
      → Traced feeding (fill_round b queued d filled again)
  unfolding fill_round
  Traced-fill_round b queued d filled again tf ta =
      search (access, Traced-out_stalled, Traced-feed, tf) depth 30

  Traced-fill_fifo :
      (rounds : ℕ) (rest : List ℕ) (queued : ℕ) (d : Deadline)
      → Traced feeding (fill_fifo rounds rest queued d)
  unfolding fill_fifo
  Traced-fill_fifo zero rest queued d = search access
  Traced-fill_fifo (suc rounds) [] queued d = search access
  Traced-fill_fifo (suc rounds) (b ∷ rest) queued d =
      Traced-fill_round b queued d _ _ (Traced-fill_fifo rounds rest _)
        (Traced-fill_fifo rounds (b ∷ rest) queued d)

  pub Traced-transfer_out :
      (rounds : ℕ) (buf : List ℕ) (flags : ℕ) → Traced feeding (transfer_out rounds buf flags)
  unfolding transfer_out
  Traced-transfer_out rounds buf flags =
      search (access, Traced-fill_fifo, Traced-wait_done, Traced-start_out, Traced-finish_out) depth
        30

  pub Traced-command : (rounds : ℕ) (cmd : List ℕ) → Traced feeding (command rounds cmd)
  unfolding command
  Traced-command rounds cmd = search (access, Traced-take_control, Traced-transfer_out) depth 30

  pub Traced-write :
      (rounds : ℕ) (buf : List ℕ) (eoi : Bool) → Traced feeding (write rounds buf eoi)
  unfolding write
  Traced-write rounds buf eoi = Traced-transfer_out rounds buf _
