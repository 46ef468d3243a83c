-- ===== src/Driver/Tests.antt =====
-- The driver with the small card of Chip.Tests, and its theorems at runs with it.
use jornada_gpib.Prelude.{
  get_elem?, ◌≤◌, ℕ, ◌+◌, ◌≡◌, refl, true, false, List, [], ◌∷◌, ◌++◌, some, none, arith, pos,
  negsuc,
}
use jornada_gpib.Wire
use jornada_gpib.Wire.{words, word_at}
use jornada_gpib.Chip.Io.{World, Run, done, spin}
use jornada_gpib.Chip.Tests.{card, ready}
use jornada_gpib.Driver.State.{GpibDevice, Open, Ioctl, Answer}
use jornada_gpib.Driver.Dispatch.{ioctl_set_config, dispatch}
use jornada_gpib.Driver.Ioctls.{ioctl_read, ioctl_get_info, ioctl_write}
use jornada_gpib.Driver.Window.{CfTable, Window, IsPicked, pick_io_window, pick_io_window-IsPicked}
use jornada_gpib.Driver.Accepts.{allowed}
use jornada_gpib.Driver.Accepts.Library.{dispatch-run_all}
use jornada_gpib.Api.Tests.{answering, some_calls}
use jornada_gpib.Api.Session.{run_all}
use jornada_gpib.Api.State.{initial, asked}
use jornada_gpib.Api.Calls.{ibdev}
use jornada_gpib.Api.Transfers.{ibrd, read_buffer, read_done}
use jornada_gpib.Api.Requests.{apply_device_settings}
use jornada_gpib.Driver.Served.{IsServed, dispatch-IsServed}
use jornada_gpib.Driver.Config.{set_request, set_config-get_info}
use jornada_gpib.Driver.Ready.{apply_config}
use jornada_gpib.Driver.Lifecycle.{steps, settle, configures, no_card, bringup, System, Loading}
use jornada_gpib.Driver.Lifecycle.Load.{bringup-IsBalanced, IsBalanced}
use jornada_gpib.Driver.Lifecycle.Held.{held}

abbrev some_device : GpibDevice
some_device = record {
  sock = 0;
  granularity = 0;
  io_base = 0;
  io_length = 32;
  config_index = 1;
  window_16bit = 0;
  card_present = true;
  chip_ok = true;
  window_8bit_ok = 1;
  window_16bit_ok = 0;
  cis = record {
    raw = [];
    raw_len = 0;
    tuples = 0;
    pnpid = [];
    manufacturer_id = 0;
    card_id = 0;
    function_type = 0;
  };
  probe = record { csr = 0; sts1 = 0; sts2 = 0; isr3 = 0; adsr = 0; isr0 = 0; ok = true };
  config = record {
    timeout_ms = 0;
    t1_ns = 2000;
    pad = pos 7;
    sad = negsuc 0;
    eos = 0;
    eos_flags = 0;
  };
}

abbrev some_open : Open
some_open = record { dev = some_device; current_pad = negsuc 0; current_sad = negsuc 0 }

-- "AB" with EOI to address 5.
abbrev writing : Ioctl
writing = record {
  code = Wire.ioctl_gpib_write;
  input = some (words (5 ∷ 0xffffffff ∷ 1 ∷ 2 ∷ []) ++ (65 ∷ 66 ∷ []));
  room = some 12;
}

abbrev result : Run (Answer × Open) → Answer × Open
result (done a w) = a
result spin = (record { good = false; error = 0; output = []; actual = none }, some_open)

abbrev finally : Run (Answer × Open) → World
finally (done a w) = w
finally spin = ready

-- OK, and two bytes.
written :
    (result (dispatch ⦃io = card⦄ 9 some_open writing ready)).0.output ≡ words (0 ∷ 2 ∷ 0 ∷ [])
unfolding dispatch ready ioctl_write
written = refl

-- The answer, the open context and the world after that write.
abbrev write_run : Run (Answer × Open)
write_run = dispatch ⦃io = card⦄ 9 some_open writing ready

write_returns : write_run ≡ done (result write_run) (finally write_run)
unfolding dispatch ready ioctl_write
write_returns = refl

dispatch-IsServed_example :
    IsServed (some 12) some_open ready (result write_run) (finally write_run)
dispatch-IsServed_example = dispatch-IsServed ⦃io = card⦄ 9 some_open writing ready write_returns

-- A timeout of 3 s, 500 ns, address 7, and a line feed as the EOS byte.
abbrev new_config : List ℕ
new_config = words (3000 ∷ 500 ∷ 7 ∷ 0xffffffff ∷ 10 ∷ 1 ∷ [])

abbrev config_run : Run (Answer × Open)
config_run = dispatch ⦃io = card⦄ 9 some_open (set_request new_config) ready

config_returns : config_run ≡ done (result config_run) (finally config_run)
unfolding dispatch ready ioctl_set_config apply_config
config_returns = refl

config_accepted : (result config_run).0.good ≡ true
unfolding dispatch ready ioctl_set_config apply_config
config_accepted = refl

set_config-get_info_example :
    word_at (ioctl_get_info (result config_run).1.dev (some 84)).output (15 + 4)
    ≡ word_at new_config 4
set_config-get_info_example =
    set_config-get_info ⦃io = card⦄ 9 some_open new_config 4 84 ready (omega arith) (omega arith)
      (omega arith) config_returns config_accepted

-- A card with a range that is too small, and with 5 address lines.
abbrev some_table : List CfTable
some_table =
    record {
      config_index = 1;
      io_access = 0;
      num_io_entries = 1;
      io_base = 0x300;
      io_length = 16;
      num_io_addr_lines = 0;
      iface_present = true;
      iface_type = 1;
    }
    ∷ record {
      config_index = 2;
      io_access = 3;
      num_io_entries = 0;
      io_base = 0;
      io_length = 0;
      num_io_addr_lines = 5;
      iface_present = true;
      iface_type = 1;
    }
    ∷ []

abbrev some_window : Window
some_window = record { io_base = 0; io_length = 32; config_index = 2; io_access = 3 }

pick_io_window-IsPicked_example : IsPicked some_table some_window × (32 ≤ 32)
unfolding pick_io_window
pick_io_window-IsPicked_example = pick_io_window-IsPicked true some_table some_window refl

-- The newest IOCTL of those calls, a read of two bytes from address 5.
abbrev read_input : List ℕ
read_input = words (5 ∷ 0xffffffff ∷ 0 ∷ 2 ∷ [])

abbrev library_run : Run (Answer × Open)
library_run =
    dispatch ⦃io = card⦄ 9 some_open
      (record { code = Wire.ioctl_gpib_read; input = some read_input; room = some 14 }) ready

library_returns : library_run ≡ done (result library_run) (finally library_run)
unfolding dispatch ready ioctl_read
library_returns = refl

is_asked :
    get_elem? (run_all ⦃os = answering⦄ some_calls initial).1.log 0
    ≡ some (asked Wire.ioctl_gpib_read (some read_input) 14)
unfolding run_all ibdev ibrd apply_device_settings read_buffer read_done
is_asked = refl

is_allowed : allowed Wire.ioctl_gpib_read (some read_input) ≡ true
unfolding allowed
is_allowed = refl

dispatch-run_all_example : (result library_run).0.good ≡ true
dispatch-run_all_example =
    dispatch-run_all ⦃os = answering⦄ ⦃io = card⦄ 9 some_calls 0 Wire.ioctl_gpib_read
      (some read_input) 14 some_open ready is_asked refl is_allowed library_returns

-- A system that grants all but the configuration; handles are 7.
abbrev no_configuration : System
no_configuration = record {
  answers = λ log r. elim r [ configures ↦ 0 | _ ↦ 7 ];
  parsed = true;
  entries = some_table;
  tuples = [];
}

abbrev unloaded : Loading
unloaded = record { card = no_card; log = [] }

-- The load fails, and nothing is left.
load_fails : (bringup ⦃system = no_configuration⦄ unloaded).0 ≡ false
unfolding bringup settle steps
load_fails = refl

unloaded-held : held unloaded.log ≡ some []
unfolding held
unloaded-held = refl

bringup-IsBalanced_example :
    IsBalanced ⦃system = no_configuration⦄ (bringup ⦃system = no_configuration⦄ unloaded)
bringup-IsBalanced_example = bringup-IsBalanced ⦃system = no_configuration⦄ unloaded unloaded-held
