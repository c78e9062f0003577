-- ===== src/Utils/Codeutils.antt =====
-- utils/codeutils/codeutils.go: the opcodes and their names.
use tp_sisop_go_utn.Base.{
  ◌↔◌, ◌≡◌, ◌∙◌, ap, refl, Option, none, some, List, [], ◌∷◌, arith, if◌then◌else◌,
}
use tp_sisop_go_utn.Utils.Strings.{Text, eq_text, eq_text→eq}
use Prim.Native.Char.{code}
use Prim.Native.String.{String}

pub data Opcode : Type 0 where
  noop exit write read goto io init_proc dump_memory : Opcode

pub record Instruction : Type 0 where
  pub opcode : Opcode
  pub args : List Text

-- The bytes of an ASCII text.
abbrev pub codes : String → Text
codes String.[] = []
codes (String.◌∷◌ c s) = code c ∷ codes s

-- OpcodeStrings
unfoldable pub opcode_string : Opcode → Text
opcode_string noop = codes "NOOP"
opcode_string exit = codes "EXIT"
opcode_string write = codes "WRITE"
opcode_string read = codes "READ"
opcode_string goto = codes "GOTO"
opcode_string io = codes "IO"
opcode_string init_proc = codes "INIT_PROC"
opcode_string dump_memory = codes "DUMP_MEMORY"

abbrev opcodes : List Opcode
opcodes = noop ∷ exit ∷ write ∷ read ∷ goto ∷ io ∷ init_proc ∷ dump_memory ∷ []

-- The loop over the map. Its keys have different names, so their order does not matter.
opcode_search : List Opcode → Text → Option Opcode
opcode_search [] str = none
opcode_search (key ∷ keys) str =
    if eq_text (opcode_string key) str then some key else opcode_search keys str

-- `none` is the source's -1.
unfoldable pub op_code_from_string : Text → Option Opcode
unfolding opcode_search opcode_string eq_text
op_code_from_string str = opcode_search opcodes str

from_string-opcode_string : (o : Opcode) → op_code_from_string (opcode_string o) ≡ some o
unfolding op_code_from_string
from_string-opcode_string noop = refl
from_string-opcode_string _ = refl

opcode_search-eq-some :
    (keys : List Opcode) (str : Text) (o : Opcode)
    → opcode_search keys str ≡ some o
    → str ≡ opcode_string o
unfolding opcode_search
opcode_search-eq-some [] str o h = ground arith
opcode_search-eq-some (key ∷ keys) str o h =
    ground (arith, eq_text→eq (opcode_string key) str, opcode_search-eq-some keys str o)

from_string-eq-some :
    (str : Text) (o : Opcode) → op_code_from_string str ≡ some o → str ≡ opcode_string o
from_string-eq-some str o h = opcode_search-eq-some opcodes str o (unfold op_code_from_string in h)

-- OpCodeFromString reads a text as an opcode exactly where the text is the name that OpcodeStrings
-- has for that opcode.
from_string_iff :
    (str : Text) (o : Opcode) → op_code_from_string str ≡ some o ↔ str ≡ opcode_string o
from_string_iff str o =
    (from_string-eq-some str o, λ e. ap op_code_from_string e ∙ from_string-opcode_string o)
