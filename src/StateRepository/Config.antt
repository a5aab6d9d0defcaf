-- ===== src/StateRepository/Config.antt =====
-- projects/mpitofino/sd/state_repository.cc, `StateRepository::read_config_file`. A text is the list of
-- its characters' ASCII codes.
pub mod Laws
pub mod File
use Prim.Native.Char.{code}
use Prim.Native.String.{String}
use mpitofino.Prelude.{
  ℕ, Bool, true, false, ◌&&◌, ◌||◌, Option, none, some, List, [], ◌∷◌, ◌++◌, length, leb, ltb, ◌==◌,
  if◌then◌else◌, Result, ok, err, ◌>>=◌, or_throw, runtime_error,
}
use mpitofino.SimpleTypes.{MacAddr, IPv4Addr}
use mpitofino.SimpleTypes.MacText.{mac_of_string}
use mpitofino.SimpleTypes.IpText.{ip_of_string}

-- The members that the file sets.
pub record Config : Type 0 where
  pub cpu_interface_name : List ℕ
  pub base_mac_addr : MacAddr
  pub collectives_module_ip_addr : IPv4Addr
  pub collectives_module_broadcast_addr : IPv4Addr
  pub control_ip_addr : IPv4Addr

abbrev pub codes : String → List ℕ
codes String.[] = []
codes (String.◌∷◌ c s) = code c ∷ codes s

unfoldable pub text_eq : List ℕ → List ℕ → Bool
text_eq [] [] = true
text_eq [] (d ∷ t) = false
text_eq (c ∷ s) [] = false
text_eq (c ∷ s) (d ∷ t) = c == d && text_eq s t

-- The lines that `getline` gives for a buffer of 1024 bytes: it fails at a line of more than 1023
-- characters, where the loop ends. `line` holds the characters of the line so far.
unfoldable pub lines_from : List ℕ → List ℕ → List (List ℕ)
lines_from line [] =
    if length line == 0 then [] else if ltb 1023 (length line) then [] else line ∷ []
lines_from line (c ∷ s) =
    let next_line = lines_from [] s in
    let same_line = lines_from (line ++ c ∷ []) s in
    if c == 10 then if ltb 1023 (length line) then [] else line ∷ next_line else same_line

-- `isspace`
abbrev pub is_space : ℕ → Bool
is_space c = c == 32 || leb 9 c && leb c 13

abbrev pub closed_word : List ℕ → List (List ℕ) → List (List ℕ)
closed_word [] ws = ws
closed_word (c ∷ word) ws = (c ∷ word) ∷ ws

-- What `istream_iterator<string>` gives for a line. `word` holds the characters of the word so far.
unfoldable pub words_from : List ℕ → List ℕ → List (List ℕ)
words_from word [] = closed_word word []
words_from word (c ∷ s) =
    let next_word = words_from [] s in
    let same_word = words_from (word ++ c ∷ []) s in
    if is_space c then closed_word word next_word else same_word

-- The line as a C string.
unfoldable pub before_nul : List ℕ → List ℕ
before_nul [] = []
before_nul (c ∷ s) = if c == 0 then [] else c ∷ before_nul s

unfoldable pub set_key : List ℕ → List ℕ → Config → Result Config
set_key key value c =
    if text_eq key (codes "cpu_interface_name")
    then ok (record c { cpu_interface_name = value })
    else if text_eq key (codes "base_mac_addr")
    then (mac_of_string value >>= λ m. ok (record c { base_mac_addr = m }))
    else if text_eq key (codes "collectives_module_ip_addr")
    then (ip_of_string value >>= λ a. ok (record c { collectives_module_ip_addr = a }))
    else if text_eq key (codes "collectives_module_broadcast_addr")
    then (ip_of_string value >>= λ a. ok (record c { collectives_module_broadcast_addr = a }))
    else if text_eq key (codes "control_ip_addr")
    then (ip_of_string value >>= λ a. ok (record c { control_ip_addr = a }))
    else err runtime_error

-- A line, by its words.
unfoldable pub read_parts : List (List ℕ) → Config → Result Config
read_parts [] c = ok c
read_parts (key ∷ []) c = err runtime_error
read_parts (key ∷ value ∷ []) c = set_key key value c
read_parts (key ∷ value ∷ more ∷ parts) c = err runtime_error

unfoldable pub read_lines : List (List ℕ) → Config → Result Config
read_lines [] c = ok c
read_lines (line ∷ lines) c = read_parts (words_from [] (before_nul line)) c >>= read_lines lines

-- The content of the first file that can be opened, if any.
abbrev pub first_open : List (Option (List ℕ)) → Option (List ℕ)
first_open [] = none
first_open (some content ∷ files) = some content
first_open (none ∷ files) = first_open files

-- `local` and `etc` are the files ./sd.conf and /etc/mpitofino/sd.conf, if they can be opened.
unfoldable pub read_config_file : Option (List ℕ) → Option (List ℕ) → Config → Result Config
read_config_file local etc c = or_throw (first_open (local ∷ etc ∷ [])) runtime_error >>= λ content.
    read_lines (lines_from [] content) c
