-- ===== src/Api/Unchanged.antt =====
-- The calls of src/gpibapi/ib.c that leave the device table alone.
use jornada_gpib.Prelude.{
  ◌∷◌, arith, ℕ, ◌+◌, ◌≡◌, refl, ◌∙◌, true, List, Option, none, some, ℤ, pos, negsuc, inl, inr,
}
use jornada_gpib.Api.State.{allocated, asked, Device, Api, Os, C, device, fail}
use jornada_gpib.Api.Requests.{ioctl, fail_edvr, simple_ioctl, apply_device_settings, alloc}
use jornada_gpib.Api.Calls.{filled, iblines, ibsic}
use jornada_gpib.Api.Transfers.{
  read_request, with_device, write_to, read_done, read_buffer, read_from, addressed, poll_device,
  ibwrt, ibrd, ibrsp, ibclr, ibtrg, ibloc, ibllo,
}
use jornada_gpib.Api.Reads.{apply-error}
use jornada_gpib.Wire.{ioctl_gpib_read, size_result}

-- The call leaves the table as it is.
pub record Leaves {A : Type 0} (m : C A) : Type 0 where
  pub at : (s : Api) → (m s).1.devices ≡ s.devices

device-same : (ud : ℤ) (s : Api) → (device ud s).1 ≡ s
unfolding device
device-same (pos n) s = ground arith
device-same (negsuc n) s = refl

with_device-same :
    {A : Type 0} (o : Option (ℕ × Device)) (missing : C A) (found : ℕ → Device → C A)
    → Leaves missing
    → ((n : ℕ) (d : Device) → Leaves (found n d))
    → Leaves (with_device o missing found)
with_device-same none missing found h k = h
with_device-same (some (n, d)) missing found h k = k n d

-- A call on a descriptor leaves the table if it does so where the descriptor is found, and where it
-- is not.
on_device-same :
    {A : Type 0} (ud : ℤ) (missing : C A) (found : ℕ → Device → C A) (s : Api)
    → Leaves missing
    → ((n : ℕ) (d : Device) → Leaves (found n d))
    → (with_device (device ud s).0 missing found (device ud s).1).1.devices ≡ s.devices
on_device-same ud missing found s h k =
    rw (device-same ud s) ((with_device-same (device ud s).0 missing found h k).at s)

fail-Leaves : (err : ℕ) (n : ℤ) → Leaves (fail err n)
unfolding fail
fail-Leaves err n = record { at = λ s. refl }

module _ ⦃os : Os⦄ where
  simple_ioctl-Leaves : (code : ℕ) (input : Option (List ℕ)) → Leaves (simple_ioctl code input)
  unfolding simple_ioctl ioctl fail_edvr fail
  simple_ioctl-Leaves code input = record { at = λ s. ground arith }

  apply-Leaves : (d : Device) → Leaves (apply_device_settings d)
  unfolding apply_device_settings ioctl fail_edvr fail
  apply-Leaves d = record { at = λ s. ground arith }

  write_to-Leaves : (d : Device) (bytes : List ℕ) → Leaves (write_to d bytes)
  unfolding write_to ioctl fail_edvr fail alloc
  write_to-Leaves d bytes = record {
    at = λ s. elim (apply-error d s) [
      | inl e ↦ rw e (ground (arith, (apply-Leaves d).at s))
      | inr (e, r) ↦ rw e ((apply-Leaves d).at s)
    ];
  }

  poll_device-Leaves : (d : Device) → Leaves (poll_device d)
  unfolding poll_device ioctl fail_edvr fail
  poll_device-Leaves d = record {
    at = λ s. elim (apply-error d s) [
      | inl e ↦ rw e (ground (arith, (apply-Leaves d).at s))
      | inr (e, r) ↦ rw e ((apply-Leaves d).at s)
    ];
  }

  read_done-Leaves : (cnt : ℕ) (output : List ℕ) → Leaves (read_done cnt output)
  unfolding read_done fail
  read_done-Leaves cnt output = record { at = λ s. ground arith }

  read_buffer-Leaves : (d : Device) (cnt : ℕ) → Leaves (read_buffer d cnt)
  unfolding read_buffer ioctl fail_edvr fail alloc
  read_buffer-Leaves d cnt = record {
    at = λ s.
        let room = size_result + cnt in
        let asked_state = record s {
          log = asked ioctl_gpib_read (some (read_request d cnt)) room ∷ allocated room ∷ s.log;
        } in
        ground (
          arith,
          (read_done-Leaves cnt (filled room (os.control asked_state.log).output)).at asked_state,
        );
  }

  read_from-Leaves : (d : Device) (cnt : ℕ) → Leaves (read_from d cnt)
  unfolding read_from
  read_from-Leaves d cnt = record {
    at = λ s. elim (apply-error d s) [
      | inl e ↦ rw e ((read_buffer-Leaves d cnt).at _ ∙ (apply-Leaves d).at s)
      | inr (e, r) ↦ rw e ((apply-Leaves d).at s)
    ];
  }

  addressed-Leaves : (ud : ℤ) (code : ℕ) → Leaves (addressed ud code)
  unfolding addressed
  addressed-Leaves ud code = record {
    at = λ s. on_device-same ud _ _ s (fail-Leaves _ _) (λ n d. simple_ioctl-Leaves code _);
  }

  pub ibclr-Leaves : (ud : ℤ) → Leaves (ibclr ud)
  unfolding ibclr
  ibclr-Leaves ud = addressed-Leaves ud _

  pub ibtrg-Leaves : (ud : ℤ) → Leaves (ibtrg ud)
  unfolding ibtrg
  ibtrg-Leaves ud = addressed-Leaves ud _

  pub ibloc-Leaves : (ud : ℤ) → Leaves (ibloc ud)
  unfolding ibloc
  ibloc-Leaves ud = addressed-Leaves ud _

  pub ibllo-Leaves : Leaves ibllo
  unfolding ibllo
  ibllo-Leaves = simple_ioctl-Leaves _ none

  pub ibsic-Leaves : Leaves ibsic
  unfolding ibsic
  ibsic-Leaves = simple_ioctl-Leaves _ none

  pub iblines-Leaves : Leaves iblines
  unfolding iblines ioctl fail_edvr fail
  iblines-Leaves = record { at = λ s. ground arith }

  pub ioctl-Leaves :
      (code : ℕ) (input : Option (List ℕ)) (room : ℕ) → Leaves (ioctl code input room)
  unfolding ioctl
  ioctl-Leaves code input room = record { at = λ s. ground arith }

  pub ibrsp-Leaves : (ud : ℤ) → Leaves (ibrsp ud true)
  unfolding ibrsp fail
  ibrsp-Leaves ud = record {
    at = λ s. on_device-same ud _ _ s (record { at = λ u. refl }) (λ n d. poll_device-Leaves d);
  }

  pub ibrd-Leaves : (ud : ℤ) (cnt : ℕ) → Leaves (ibrd ud true (pos cnt))
  unfolding ibrd fail
  ibrd-Leaves ud cnt = record {
    at = λ s. on_device-same ud _ _ s (record { at = λ u. refl }) (λ n d. read_from-Leaves d cnt);
  }

  pub ibwrt-Leaves : (ud : ℤ) (bytes : List ℕ) (cnt : ℕ) → Leaves (ibwrt ud (some bytes) (pos cnt))
  unfolding ibwrt fail
  ibwrt-Leaves ud bytes cnt = record {
    at = λ s. on_device-same ud _ _ s (record { at = λ u. refl }) (λ n d. write_to-Leaves d _);
  }
