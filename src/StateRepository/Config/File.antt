-- ===== src/StateRepository/Config/File.antt =====
-- The configuration file of the switch daemon, written and read again.
use mpitofino.Prelude.{
  ℕ, ◌/◌, ◌%◌, ◌≡◌, ◌≤◌, ◌<◌, refl, ap, ◌∙◌, Bool, true, false, ◌&&◌, Option, none, some, List, [],
  ◌∷◌, ◌++◌, length, length-append, ltb, ◌==◌, if◌then◌else◌, ok, ◌>>=◌, All, All-append,
  Bool-cases, inl, inr, arith,
}
use mpitofino.SimpleTypes.{MacAddr, IPv4Addr, IsMac, IsIp}
use mpitofino.SimpleTypes.MacText.{string_of_mac, hex_char, mac_of_string-string_of_mac}
use mpitofino.SimpleTypes.IpText.{string_of_ip, dec_text, ip_of_string-string_of_ip}
use mpitofino.StateRepository.Config.{
  Config, codes, text_eq, lines_from, is_space, set_key, read_lines, read_config_file,
}
use mpitofino.StateRepository.Config.Laws.{InWord, IsWord, entry_text, read_lines-entry}

abbrev in_word : ℕ → Bool
in_word c = if is_space c then false else if c == 0 then false else true

all_in_word : List ℕ → Bool
all_in_word [] = true
all_in_word (c ∷ w) = in_word c && all_in_word w

all_in_word-All : (w : List ℕ) → all_in_word w ≡ true → All InWord w
unfolding all_in_word
all_in_word-All [] h = tt
all_in_word-All (c ∷ w) h = (ground arith, all_in_word-All w (ground arith))

-- The text of an address is a word.
dec_text-All : (n : ℕ) → n < 256 → All InWord (dec_text n)
unfolding dec_text
dec_text-All n lt = elim (Bool-cases (ltb n 10)) [
  | inl t ↦ rw t (ground arith, tt)
  | inr f ↦ elim (Bool-cases (ltb n 100)) [
    | inl t ↦ rw (f, t) (ground arith, (ground arith, tt))
    | inr g ↦ rw (f, g) (ground arith, (ground arith, (ground arith, tt)))
  ]
]

length-dec_text : (n : ℕ) → (0 < length (dec_text n)) × (length (dec_text n) ≤ 3)
unfolding dec_text
length-dec_text n = ground arith

string_of_ip-IsWord : (a : IPv4Addr) → IsIp a → IsWord (string_of_ip a)
unfolding string_of_ip
string_of_ip-IsWord a v =
    let dot : InWord 46 = (refl, omega arith) in
    record {
      chars = All-append InWord (dec_text a.b0) _ (dec_text-All a.b0 v.r0) (
        dot,
        All-append InWord (dec_text a.b1) _ (dec_text-All a.b1 v.r1) (
          dot,
          All-append InWord (dec_text a.b2) _ (dec_text-All a.b2 v.r2)
              (dot, dec_text-All a.b3 v.r3),
        ),
      );
      some_char = omega (arith, length-append (dec_text a.b0), length-dec_text a.b0);
    }

length-string_of_ip : (a : IPv4Addr) → length (string_of_ip a) ≤ 15
unfolding string_of_ip
length-string_of_ip a = omega (
  arith,
  length-append {0} (dec_text a.b0),
  length-append {0} (dec_text a.b1),
  length-append {0} (dec_text a.b2),
  length-dec_text a.b0,
  length-dec_text a.b1,
  length-dec_text a.b2,
  length-dec_text a.b3,
)

hex_char-InWord : (n : ℕ) → n < 16 → InWord (hex_char n)
unfolding hex_char
hex_char-InWord n lt = ground arith

string_of_mac-IsWord : (m : MacAddr) → IsMac m → IsWord (string_of_mac m)
unfolding string_of_mac
string_of_mac-IsWord m v =
    let colon : InWord 58 = (refl, omega arith) in
    let high : (b : ℕ) → b < 256 → InWord (hex_char (b / 16)) =
      λ b lt. hex_char-InWord (b / 16) (omega arith) in
    let low : (b : ℕ) → InWord (hex_char (b % 16)) = λ b. hex_char-InWord (b % 16) (omega arith) in
    record {
      chars = (
        high m.b0 v.r0,
        (
          low m.b0,
          (
            colon,
            (
              high m.b1 v.r1,
              (
                low m.b1,
                (
                  colon,
                  (
                    high m.b2 v.r2,
                    (
                      low m.b2,
                      (
                        colon,
                        (
                          high m.b3 v.r3,
                          (
                            low m.b3,
                            (
                              colon,
                              (
                                high m.b4 v.r4,
                                (low m.b4, (colon, (high m.b5 v.r5, (low m.b5, tt)))),
                              ),
                            ),
                          ),
                        ),
                      ),
                    ),
                  ),
                ),
              ),
            ),
          ),
        ),
      );
      some_char = omega arith;
    }

-- Each key with its value, a line for each.
unfoldable pub file_of : Config → List ℕ
file_of c =
    entry_text (codes "cpu_interface_name") c.cpu_interface_name
    ++ (entry_text (codes "base_mac_addr") (string_of_mac c.base_mac_addr)
        ++ (entry_text (codes "collectives_module_ip_addr")
              (string_of_ip c.collectives_module_ip_addr)
            ++ (entry_text (codes "collectives_module_broadcast_addr")
                  (string_of_ip c.collectives_module_broadcast_addr)
                ++ (entry_text (codes "control_ip_addr") (string_of_ip c.control_ip_addr) ++ []))))

-- The name of the interface is a word of at most 900 characters, and the addresses are made of octets.
pub record IsConfig (c : Config) : Type 0 where
  pub name : IsWord c.cpu_interface_name
  pub short : length c.cpu_interface_name ≤ 900
  pub mac : IsMac c.base_mac_addr
  pub module_ip : IsIp c.collectives_module_ip_addr
  pub broadcast : IsIp c.collectives_module_broadcast_addr
  pub control : IsIp c.control_ip_addr

key-IsWord : (k : List ℕ) → all_in_word k ≡ true → 0 < length k → IsWord k
key-IsWord k h n = record { chars = all_in_word-All k h; some_char = n }

-- A line that was read.
entry_read :
    (k v rest : List ℕ) (c c' : Config)
    → all_in_word k ≡ true
    → 0 < length k
    → length k ≤ 33
    → IsWord v
    → length v ≤ 900
    → set_key k v c ≡ ok c'
    → read_lines (lines_from [] (entry_text k v ++ rest)) c ≡ read_lines (lines_from [] rest) c'
entry_read k v rest c c' a n m hv l e =
    read_lines-entry k v rest c (key-IsWord k a n) hv (omega arith)
    ∙ ap (λ r. r >>= read_lines (lines_from [] rest)) e

-- A configuration whose interface name is a word of at most 900 characters and whose addresses are
-- made of octets, written to a file with one key to a line, is read from the file, whatever the
-- members were before. The file in the working directory counts, and the other one if the first
-- cannot be opened.
pub read_config_file-file_of :
    (c old : Config) (etc : Option (List ℕ))
    → IsConfig c
    → (read_config_file (some (file_of c)) etc old ≡ ok c)
      × (read_config_file none (some (file_of c)) old ≡ ok c)
unfolding read_config_file file_of all_in_word set_key text_eq
read_config_file-file_of c old etc v = (read_file, read_file)
  where
    read_file : read_lines (lines_from [] (file_of c)) old ≡ ok c
    read_file =
        let ip = length-string_of_ip in
        entry_read (codes "cpu_interface_name") c.cpu_interface_name _ old
          (record old { cpu_interface_name = c.cpu_interface_name }) refl (omega arith)
          (omega arith) v.name v.short refl
        ∙ entry_read (codes "base_mac_addr") (string_of_mac c.base_mac_addr) _ _
            (record old {
              cpu_interface_name = c.cpu_interface_name;
              base_mac_addr = c.base_mac_addr;
            })
            refl (omega arith) (omega arith) (string_of_mac-IsWord c.base_mac_addr v.mac)
            (unfold string_of_mac in omega arith)
            (rw (mac_of_string-string_of_mac c.base_mac_addr v.mac) refl)
        ∙ entry_read (codes "collectives_module_ip_addr")
            (string_of_ip c.collectives_module_ip_addr) _ _
            (record c {
              collectives_module_broadcast_addr = old.collectives_module_broadcast_addr;
              control_ip_addr = old.control_ip_addr;
            })
            refl (omega arith) (omega arith)
            (string_of_ip-IsWord c.collectives_module_ip_addr v.module_ip)
            (omega (arith, ip c.collectives_module_ip_addr))
            (rw (ip_of_string-string_of_ip c.collectives_module_ip_addr v.module_ip) refl)
        ∙ entry_read (codes "collectives_module_broadcast_addr")
            (string_of_ip c.collectives_module_broadcast_addr) _ _
            (record c { control_ip_addr = old.control_ip_addr }) refl (omega arith) (omega arith)
            (string_of_ip-IsWord c.collectives_module_broadcast_addr v.broadcast)
            (omega (arith, ip c.collectives_module_broadcast_addr))
            (rw (ip_of_string-string_of_ip c.collectives_module_broadcast_addr v.broadcast) refl)
        ∙ entry_read (codes "control_ip_addr") (string_of_ip c.control_ip_addr) [] _ c refl
            (omega arith) (omega arith) (string_of_ip-IsWord c.control_ip_addr v.control)
            (omega (arith, ip c.control_ip_addr))
            (rw (ip_of_string-string_of_ip c.control_ip_addr v.control) refl)
        ∙ unfold lines_from in unfold read_lines in refl
