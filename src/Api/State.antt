-- ===== src/Api/State.antt =====
-- The state of src/gpibapi/ib.c, and its calls of Windows CE.
use jornada_gpib.Prelude.{
  ◌||◌, ℕ, Bool, false, ◌==◌, leb, bit_or, if◌then◌else◌, List, [], get_elem?, set, replicate,
  Option, none, some, ℤ, pos, negsuc,
}
use jornada_gpib.Api.Codes.{ib_err, ib_cmpl, ib_max_devices}

-- `ib_device`. `eot` is only tested against 0; `eos` is the 32-bit pattern.
pub record Device : Type 0 where
  pub in_use : Bool
  pub pad : ℤ
  pub sad : ℤ
  pub timeout_ms : ℕ
  pub eot : Bool
  pub eos : ℕ

-- A call of Windows CE: opening the driver, an IOCTL with its code, its input and the size of its
-- output buffer, an allocation of so many bytes.
pub data Event : Type 0 where
  opened : Event
  asked : (code : ℕ) (input : Option (List ℕ)) (room : ℕ) → Event
  allocated : (size : ℕ) → Event

-- The newest call first.
abbrev pub History : Type 0
History = List Event

-- What DeviceIoControl does: whether it succeeds, and the bytes at the start of the output buffer.
pub record Reply : Type 0 where
  pub good : Bool
  pub output : List ℕ

-- Windows CE and the driver behind it, as they answer the newest call of a history.
pub record Os : Type 0 where
  pub opens : History → Bool
  pub control : History → Reply
  pub allocates : History → Bool
  pub last_error : History → ℕ

-- `ibsta`, `iberr`, `ibcnt`, `ibcntl`, `driver != INVALID_HANDLE_VALUE`, `devices`.
pub record Api : Type 0 where
  pub ibsta : ℕ
  pub iberr : ℕ
  pub ibcnt : ℤ
  pub ibcntl : ℤ
  pub driver : Bool
  pub devices : List Device
  pub log : History

abbrev pub C : Type 0 → Type 0
C A = Api → A × Api

infixl 8 ◌>>=◌ ◌>>◌
abbrev pub ◌>>=◌ : {A B : Type 0} → C A → (A → C B) → C B
◌>>=◌ m f s = let (a, s') = m s in f a s'

abbrev pub ◌>>◌ : {A B : Type 0} → C A → C B → C B
m >> k = m >>= λ _. k

abbrev pub give : {A : Type 0} → A → C A
give a s = (a, s)

abbrev pub api : C Api
api s = (s, s)

abbrev pub change : (Api → Api) → C (Unit {0})
change f s = (tt, f s)

abbrev pub no_device : Device
no_device = record {
  in_use = false;
  pad = pos 0;
  sad = pos 0;
  timeout_ms = 0;
  eot = false;
  eos = 0;
}

-- The state before the first call.
abbrev pub initial : Api
initial = record {
  ibsta = 0;
  iberr = 0;
  ibcnt = pos 0;
  ibcntl = pos 0;
  driver = false;
  devices = replicate ib_max_devices no_device;
  log = [];
}

unfoldable pub fail : ℕ → ℤ → C ℕ
fail err count s =
    let sta = bit_or ib_err ib_cmpl in
    (sta, record s { iberr = err; ibcnt = count; ibcntl = count; ibsta = sta })

unfoldable pub ok : ℤ → ℕ → C ℕ
ok count extra s =
    let sta = bit_or ib_cmpl extra in
    (sta, record s { iberr = 0; ibcnt = count; ibcntl = count; ibsta = sta })

-- `device`, as the index into the table.
abbrev pub open_at : ℕ → List Device → Option Device
open_at n ds = elim (get_elem? ds n) [ none ↦ none | some d ↦ if d.in_use then some d else none ]

unfoldable pub device : ℤ → C (Option (ℕ × Device))
device (negsuc n) s = (none, s)
device (pos n) s =
    if n == 0 || leb ib_max_devices n
    then (none, s)
    else (elim (open_at n s.devices) [ none ↦ none | some d ↦ some (n, d) ], s)

-- *d = d'
abbrev pub put_device : ℕ → Device → C (Unit {0})
put_device n d = change λ s. record s { devices = set s.devices n d }
