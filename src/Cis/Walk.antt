-- ===== src/Cis/Walk.antt =====
-- The functions of src/gpib/cis.c. What Card Services answers is an argument, in the order of the
-- calls. Log lines are left out.
use jornada_gpib.Prelude.{
  ℕ, suc, ◌+◌, ◌*◌, ◌%◌, ◌^◌, bit_or, Bool, not, ◌==◌, ltb, leb, if◌then◌else◌, List, [], ◌∷◌, ◌++◌,
  length, get_or, Option, none, some,
}
use jornada_gpib.PnpId.Build.{Builder, begin, add_tuple, finish, pnpid_max}
use jornada_gpib.Driver.State.{Cis}

abbrev pub cis_capture_max : ℕ
cis_capture_max = 1024

abbrev pub cis_max_tuples : ℕ
cis_max_tuples = 64

abbrev pub cistpl_manfid : ℕ
cistpl_manfid = 0x20

abbrev pub cistpl_funcid : ℕ
cistpl_funcid = 0x21

abbrev pub cistpl_end : ℕ
cistpl_end = 0xff

-- A tuple that cs_GetFirstTuple or cs_GetNextTuple has found, and its data from cs_GetTupleData, at
-- most CIS_TUPLE_BUF bytes; none where that fails.
pub record Found : Type 0 where
  pub code : ℕ
  pub bytes : Option (List ℕ)

-- d[i]
abbrev pub at : List ℕ → ℕ → ℕ
at d i = get_or d i 0

unfoldable pub decode : (code : ℕ) → List ℕ → Cis → Cis
decode code d cap =
    if code == cistpl_manfid
    then (if leb 4 (length d)
        then record cap {
          manufacturer_id = bit_or (at d 0) (at d 1 * 2 ^ 8);
          card_id = bit_or (at d 2) (at d 3 * 2 ^ 8);
        }
        else cap)
    else if code == cistpl_funcid
    then (if leb 1 (length d) then record cap { function_type = at d 0 } else cap)
    else cap

unfoldable pub capture_raw : Cis → (code : ℕ) → List ℕ → Cis
capture_raw cap code d =
    if ltb cis_capture_max (cap.raw_len + 2 + length d) then cap else record cap {
      raw = cap.raw ++ code ∷ length d % 2 ^ 8 ∷ d;
      raw_len = cap.raw_len + 2 + length d;
    }

-- The captures of a tuple's data, and the count.
unfoldable pub take_tuple : Cis → (code : ℕ) → List ℕ → Cis
unfolding decode capture_raw
take_tuple cap code d =
    let cap' = decode code d (capture_raw cap code d) in record cap' { tuples = suc cap'.tuples }

-- The loop, with the capture and the builder of the identifier.
unfoldable pub walk : List Found → Cis → Builder → Cis × Builder
unfolding take_tuple add_tuple
walk [] cap pnp = (cap, pnp)
walk (t ∷ ts) cap pnp = elim t.bytes [
  | none ↦ (cap, pnp)
  | some d ↦
      let cap' : Cis = take_tuple cap t.code d in
      let pnp' : Builder = add_tuple pnp t.code d in
      let rest : Cis × Builder = walk ts cap' pnp' in
      if not (ltb cap.tuples cis_max_tuples)
      then (cap, pnp)
      else if t.code == cistpl_end
      then (cap', pnp')
      else rest
]

-- memset(cap, 0, sizeof *cap)
abbrev pub empty : Cis
empty = record {
  raw = [];
  raw_len = 0;
  tuples = 0;
  pnpid = [];
  manufacturer_id = 0;
  card_id = 0;
  function_type = 0;
}

-- The string that `pnpid_finish` leaves in a buffer that was zeroed.
abbrev pub text_or_empty : Option (List ℕ) → List ℕ
text_or_empty none = []
text_or_empty (some s) = s

-- What is captured, and what is returned.
unfoldable pub cis_capture_socket : List Found → Cis × Bool
unfolding walk finish
cis_capture_socket found =
    let (cap, pnp) = walk found empty begin in
    (record cap { pnpid = text_or_empty (finish pnp pnpid_max) }, ltb 0 cap.tuples)
