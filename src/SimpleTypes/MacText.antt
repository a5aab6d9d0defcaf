-- ===== src/SimpleTypes/MacText.antt =====
-- The textual form of MAC addresses, in common/simple_types.h. A string is the list of its characters'
-- ASCII codes; the regular expression is written out.
use mpitofino.Prelude.{
  ℕ, ◌+◌, ◌-◌, ◌*◌, ◌/◌, ◌%◌, ◌<◌, ◌≡◌, refl, Bool, true, false, ◌&&◌, ◌||◌, List, [], ◌∷◌, leb,
  ltb, ◌==◌, ==→eq, if◌then◌else◌, bit_or, Result, ok, err, ◌>>=◌, ◌>>◌, require, runtime_error,
  tested_below, tested_below-true,
}
use mpitofino.SimpleTypes.{MacAddr, IsMac}

abbrev between : ℕ → ℕ → ℕ → Bool
between lo hi c = leb lo c && leb c hi

-- `[0-9a-fA-F]`
unfoldable pub is_hex : ℕ → Bool
is_hex c = between 48 57 c || (between 97 102 c || between 65 70 c)

unfoldable pub hex_digit : ℕ → ℕ
hex_digit c = if between 97 102 c then c - 87 else if between 65 70 c then c - 55 else c - 48

-- A group of two digits, and the text behind it.
unfoldable pub octet_at : List ℕ → Result (ℕ × List ℕ)
octet_at [] = err runtime_error
octet_at (c1 ∷ []) = err runtime_error
octet_at (c1 ∷ c2 ∷ rest) =
    require (is_hex c1 && is_hex c2) runtime_error
    >> ok (bit_or (hex_digit c1 * 16) (hex_digit c2), rest)

unfoldable pub colon_at : List ℕ → Result (List ℕ)
colon_at [] = err runtime_error
colon_at (c ∷ rest) = require (c == 58) runtime_error >> ok rest

unfoldable pub end_at : List ℕ → Result (Unit {0})
end_at [] = ok tt
end_at (c ∷ rest) = err runtime_error

abbrev pub next_octet : List ℕ → Result (ℕ × List ℕ)
next_octet s = colon_at s >>= octet_at

-- The constructor of `MacAddr` from a string.
unfoldable pub mac_of_string : List ℕ → Result MacAddr
mac_of_string s = do
  p0 ← octet_at s
  p1 ← next_octet p0.1
  p2 ← next_octet p1.1
  p3 ← next_octet p2.1
  p4 ← next_octet p3.1
  p5 ← next_octet p4.1
  e ← end_at p5.1
  ok (record { b0 = p0.0; b1 = p1.0; b2 = p2.0; b3 = p3.0; b4 = p4.0; b5 = p5.0 })

-- A digit of `%02x`.
unfoldable pub hex_char : ℕ → ℕ
hex_char n = if ltb n 10 then 48 + n else 87 + n

abbrev pub octet_text : ℕ → List ℕ → List ℕ
octet_text b rest = hex_char (b / 16) ∷ hex_char (b % 16) ∷ rest

abbrev pub next_text : ℕ → List ℕ → List ℕ
next_text b rest = 58 ∷ octet_text b rest

-- `to_string`
unfoldable pub string_of_mac : MacAddr → List ℕ
string_of_mac m =
    octet_text m.b0
      (next_text m.b1 (next_text m.b2 (next_text m.b3 (next_text m.b4 (next_text m.b5 [])))))

octet_test : ℕ → Bool
octet_test b =
    (is_hex (hex_char (b / 16)) && is_hex (hex_char (b % 16)))
    && (bit_or (hex_digit (hex_char (b / 16)) * 16) (hex_digit (hex_char (b % 16))) == b)

octet_table : tested_below octet_test 256 ≡ true
unfolding tested_below octet_test is_hex hex_char hex_digit
octet_table = refl

and_left : (a b : Bool) → (a && b) ≡ true → a ≡ true
and_left true b h = refl
and_left false b h = h

and_right : (a b : Bool) → (a && b) ≡ true → b ≡ true
and_right true b h = h
and_right false b h = cc

octet_at-octet_text :
    (b : ℕ) (rest : List ℕ) → b < 256 → octet_at (octet_text b rest) ≡ ok (b, rest)
unfolding octet_at octet_test
octet_at-octet_text b rest h =
    let t = tested_below-true octet_test 256 b h octet_table in
    let value : bit_or (hex_digit (hex_char (b / 16)) * 16) (hex_digit (hex_char (b % 16))) ≡ b =
      ==→eq _ b (and_right _ _ t) in
    let digits : (is_hex (hex_char (b / 16)) && is_hex (hex_char (b % 16))) ≡ true =
      and_left _ _ t in
    rw (digits, value) refl

next_octet-next_text :
    (b : ℕ) (rest : List ℕ) → b < 256 → next_octet (next_text b rest) ≡ ok (b, rest)
unfolding colon_at
next_octet-next_text b rest h = octet_at-octet_text b rest h

-- A MAC address of six octets that is printed and parsed again is the same address.
pub mac_of_string-string_of_mac : (m : MacAddr) → IsMac m → mac_of_string (string_of_mac m) ≡ ok m
unfolding mac_of_string string_of_mac end_at
mac_of_string-string_of_mac m h =
    let t5 = next_text m.b5 [] in
    let t4 = next_text m.b4 t5 in
    let t3 = next_text m.b3 t4 in
    let t2 = next_text m.b2 t3 in
    let t1 = next_text m.b1 t2 in
    rw
      (
        octet_at-octet_text m.b0 t1 h.r0,
        next_octet-next_text m.b1 t2 h.r1,
        next_octet-next_text m.b2 t3 h.r2,
        next_octet-next_text m.b3 t4 h.r3,
        next_octet-next_text m.b4 t5 h.r4,
        next_octet-next_text m.b5 [] h.r5,
      )
      refl
