-- ===== src/Gateway/Literals.antt =====
-- The string literals of src/gpibsrv/gpibsrv.c.
use jornada_gpib.Prelude.{ℕ, List, [], ◌∷◌}

-- "addr"
abbrev pub word_addr : List ℕ
word_addr = 0x61 ∷ 0x64 ∷ 0x64 ∷ 0x72 ∷ []

-- "auto"
abbrev pub word_auto : List ℕ
word_auto = 0x61 ∷ 0x75 ∷ 0x74 ∷ 0x6f ∷ []

-- "eoi"
abbrev pub word_eoi : List ℕ
word_eoi = 0x65 ∷ 0x6f ∷ 0x69 ∷ []

-- "eos"
abbrev pub word_eos : List ℕ
word_eos = 0x65 ∷ 0x6f ∷ 0x73 ∷ []

-- "read_tmo_ms"
abbrev pub word_read_tmo_ms : List ℕ
word_read_tmo_ms = 0x72 ∷ 0x65 ∷ 0x61 ∷ 0x64 ∷ 0x5f ∷ 0x74 ∷ 0x6d ∷ 0x6f ∷ 0x5f ∷ 0x6d ∷ 0x73 ∷ []

-- "read"
abbrev pub word_read : List ℕ
word_read = 0x72 ∷ 0x65 ∷ 0x61 ∷ 0x64 ∷ []

-- "ifc"
abbrev pub word_ifc : List ℕ
word_ifc = 0x69 ∷ 0x66 ∷ 0x63 ∷ []

-- "clr"
abbrev pub word_clr : List ℕ
word_clr = 0x63 ∷ 0x6c ∷ 0x72 ∷ []

-- "trg"
abbrev pub word_trg : List ℕ
word_trg = 0x74 ∷ 0x72 ∷ 0x67 ∷ []

-- "loc"
abbrev pub word_loc : List ℕ
word_loc = 0x6c ∷ 0x6f ∷ 0x63 ∷ []

-- "llo"
abbrev pub word_llo : List ℕ
word_llo = 0x6c ∷ 0x6c ∷ 0x6f ∷ []

-- "spoll"
abbrev pub word_spoll : List ℕ
word_spoll = 0x73 ∷ 0x70 ∷ 0x6f ∷ 0x6c ∷ 0x6c ∷ []

-- "srq"
abbrev pub word_srq : List ℕ
word_srq = 0x73 ∷ 0x72 ∷ 0x71 ∷ []

-- "ver"
abbrev pub word_ver : List ℕ
word_ver = 0x76 ∷ 0x65 ∷ 0x72 ∷ []

-- "mode"
abbrev pub word_mode : List ℕ
word_mode = 0x6d ∷ 0x6f ∷ 0x64 ∷ 0x65 ∷ []

-- "rst"
abbrev pub word_rst : List ℕ
word_rst = 0x72 ∷ 0x73 ∷ 0x74 ∷ []

-- "savecfg"
abbrev pub word_savecfg : List ℕ
word_savecfg = 0x73 ∷ 0x61 ∷ 0x76 ∷ 0x65 ∷ 0x63 ∷ 0x66 ∷ 0x67 ∷ []

-- "help"
abbrev pub word_help : List ℕ
word_help = 0x68 ∷ 0x65 ∷ 0x6c ∷ 0x70 ∷ []

-- "quit"
abbrev pub word_quit : List ℕ
word_quit = 0x71 ∷ 0x75 ∷ 0x69 ∷ 0x74 ∷ []

-- "lines"
abbrev pub word_lines : List ℕ
word_lines = 0x6c ∷ 0x69 ∷ 0x6e ∷ 0x65 ∷ 0x73 ∷ []

-- VERSION_TEXT "\n"
abbrev pub version_text : List ℕ
version_text =
    0x6a ∷ 0x6f ∷ 0x72 ∷ 0x6e ∷ 0x61 ∷ 0x64 ∷ 0x61 ∷ 0x2d ∷ 0x67 ∷ 0x70 ∷ 0x69 ∷ 0x62 ∷ 0x20 ∷ 0x67
    ∷ 0x61 ∷ 0x74 ∷ 0x65 ∷ 0x77 ∷ 0x61 ∷ 0x79 ∷ 0x20 ∷ 0x30 ∷ 0x2e ∷ 0x33 ∷ 0x20 ∷ 0x28 ∷ 0x50
    ∷ 0x72 ∷ 0x6f ∷ 0x6c ∷ 0x6f ∷ 0x67 ∷ 0x69 ∷ 0x78 ∷ 0x20 ∷ 0x47 ∷ 0x50 ∷ 0x49 ∷ 0x42 ∷ 0x2d
    ∷ 0x45 ∷ 0x54 ∷ 0x48 ∷ 0x45 ∷ 0x52 ∷ 0x4e ∷ 0x45 ∷ 0x54 ∷ 0x20 ∷ 0x63 ∷ 0x6f ∷ 0x6d ∷ 0x70
    ∷ 0x61 ∷ 0x74 ∷ 0x69 ∷ 0x62 ∷ 0x6c ∷ 0x65 ∷ 0x29 ∷ 0xa ∷ []

-- The text of ++help.
abbrev pub help_text : List ℕ
help_text =
    0x2b ∷ 0x2b ∷ 0x61 ∷ 0x64 ∷ 0x64 ∷ 0x72 ∷ 0x20 ∷ 0x2b ∷ 0x2b ∷ 0x61 ∷ 0x75 ∷ 0x74 ∷ 0x6f ∷ 0x20
    ∷ 0x2b ∷ 0x2b ∷ 0x65 ∷ 0x6f ∷ 0x69 ∷ 0x20 ∷ 0x2b ∷ 0x2b ∷ 0x65 ∷ 0x6f ∷ 0x73 ∷ 0x20 ∷ 0x2b
    ∷ 0x2b ∷ 0x72 ∷ 0x65 ∷ 0x61 ∷ 0x64 ∷ 0x20 ∷ 0x2b ∷ 0x2b ∷ 0x72 ∷ 0x65 ∷ 0x61 ∷ 0x64 ∷ 0x5f
    ∷ 0x74 ∷ 0x6d ∷ 0x6f ∷ 0x5f ∷ 0x6d ∷ 0x73 ∷ 0x20 ∷ 0x2b ∷ 0x2b ∷ 0x69 ∷ 0x66 ∷ 0x63 ∷ 0x20
    ∷ 0x2b ∷ 0x2b ∷ 0x63 ∷ 0x6c ∷ 0x72 ∷ 0x20 ∷ 0x2b ∷ 0x2b ∷ 0x74 ∷ 0x72 ∷ 0x67 ∷ 0x20 ∷ 0x2b
    ∷ 0x2b ∷ 0x6c ∷ 0x6f ∷ 0x63 ∷ 0x20 ∷ 0x2b ∷ 0x2b ∷ 0x6c ∷ 0x6c ∷ 0x6f ∷ 0x20 ∷ 0x2b ∷ 0x2b
    ∷ 0x73 ∷ 0x70 ∷ 0x6f ∷ 0x6c ∷ 0x6c ∷ 0x20 ∷ 0x2b ∷ 0x2b ∷ 0x73 ∷ 0x72 ∷ 0x71 ∷ 0x20 ∷ 0x2b
    ∷ 0x2b ∷ 0x76 ∷ 0x65 ∷ 0x72 ∷ 0x20 ∷ 0x2b ∷ 0x2b ∷ 0x6d ∷ 0x6f ∷ 0x64 ∷ 0x65 ∷ 0x20 ∷ 0x2b
    ∷ 0x2b ∷ 0x72 ∷ 0x73 ∷ 0x74 ∷ 0xa ∷ []
