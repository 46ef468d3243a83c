-- ===== src/Api/Tests.antt =====
-- The client library at a small system, and its theorems there.
use jornada_gpib.Prelude.{List, ◌≡◌, refl, true, [], ◌∷◌, ◌++◌, pos, negsuc}
use jornada_gpib.Api.State.{Os, Api, initial}
use jornada_gpib.Api.Session.{opens, Call, on_device, reads, run}
use jornada_gpib.Api.Calls.{ibdev}
use jornada_gpib.Api.Requests.{apply_device_settings}
use jornada_gpib.Api.Transfers.{ibrd, read_buffer, read_done}
use jornada_gpib.Api.Table.{ibdev-Opens, Opens, new_device}
use jornada_gpib.Api.Reads.{ibrd-Stores, Stores}
use jornada_gpib.Api.Reports.{run-IsReported, IsReported}
use jornada_gpib.Wire.{words}

-- A driver that answers every IOCTL with status 0, a count of 3, END and the bytes 72, 105 and 10.
abbrev pub answering : Os
answering = record {
  opens = λ log. true;
  control = λ log. record { good = true; output = words (0 ∷ 3 ∷ 1 ∷ []) ++ (72 ∷ 105 ∷ 10 ∷ []) };
  allocates = λ log. true;
  last_error = λ log. 87;
}

-- Descriptor 1 is open.
abbrev opened_one : Api
opened_one = (ibdev ⦃os = answering⦄ (pos 0) (pos 5) (negsuc 0) (pos 13) true 0 initial).1

abbrev reading : Call
reading = on_device (pos 1) (reads true (pos 2))

-- Two of the three bytes fit.
reads_two : (ibrd ⦃os = answering⦄ (pos 1) true (pos 2) opened_one).0 ≡ (0x2100, 72 ∷ 105 ∷ [])
unfolding ibrd ibdev apply_device_settings read_buffer read_done
reads_two = refl

run-IsReported_example : IsReported (run ⦃os = answering⦄ reading opened_one).1
run-IsReported_example = run-IsReported ⦃os = answering⦄ reading opened_one

ibdev-Opens_example :
    Opens
      (new_device (pos 5) (negsuc 0) (pos 13) true 0)
      initial.devices
      (ibdev ⦃os = answering⦄ (pos 0) (pos 5) (negsuc 0) (pos 13) true 0 initial)
ibdev-Opens_example =
    ibdev-Opens ⦃os = answering⦄ (pos 0) (pos 5) (negsuc 0) (pos 13) true 0 initial

ibrd-Stores_example : Stores 2 (ibrd ⦃os = answering⦄ (pos 1) true (pos 2) opened_one)
ibrd-Stores_example = ibrd-Stores ⦃os = answering⦄ (pos 1) true 2 opened_one

-- Opening a descriptor, and a read on it.
abbrev pub some_calls : List Call
some_calls = opens (pos 0) (pos 5) (negsuc 0) (pos 13) true 0 ∷ reading ∷ []
