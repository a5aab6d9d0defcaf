-- ===== src/SimpleTypes/Tests.antt =====
-- Addresses in concrete.
use mpitofino.Prelude.{ℕ, ◌≡◌, refl, List, [], ◌∷◌, ok, err, runtime_error, arith}
use mpitofino.SimpleTypes.{MacAddr, IsMac, mac_add}
use mpitofino.SimpleTypes.MacText.{
  is_hex, hex_digit, octet_at, colon_at, end_at, mac_of_string, string_of_mac,
  mac_of_string-string_of_mac,
}

abbrev base : MacAddr
base = record { b0 = 2; b1 = 128; b2 = 0; b3 = 0; b4 = 255; b5 = 0 }

-- The address of the collectives module: the carry goes over three bytes.
derived : mac_add base 1024 ≡ record { b0 = 2; b1 = 128; b2 = 0; b3 = 1; b4 = 3; b5 = 0 }
unfolding mac_add
derived = refl

-- "02:80:00:00:FF:0g", whose last character is no digit, and the same with a lower-case end.
abbrev text_before : List ℕ → List ℕ
text_before end =
    48 ∷ 50 ∷ 58 ∷ 56 ∷ 48 ∷ 58 ∷ 48 ∷ 48 ∷ 58 ∷ 48 ∷ 48 ∷ 58 ∷ 70 ∷ 70 ∷ 58 ∷ 48 ∷ end

refused : mac_of_string (text_before (103 ∷ [])) ≡ err runtime_error
unfolding mac_of_string octet_at colon_at is_hex hex_digit
refused = refl

accepted : mac_of_string (text_before (48 ∷ [])) ≡ ok base
unfolding mac_of_string octet_at colon_at end_at is_hex hex_digit
accepted = refl

base-IsMac : IsMac base
base-IsMac = record {
  r0 = omega arith;
  r1 = omega arith;
  r2 = omega arith;
  r3 = omega arith;
  r4 = omega arith;
  r5 = omega arith;
}

mac_of_string-string_of_mac_example : mac_of_string (string_of_mac base) ≡ ok base
mac_of_string-string_of_mac_example = mac_of_string-string_of_mac base base-IsMac
