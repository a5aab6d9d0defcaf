-- ===== src/SimpleTypes/IpText.antt =====
-- The textual form of IPv4 addresses, in common/simple_types.h. A string is the list of its characters'
-- ASCII codes. The regular expression is written out: a group takes three digits if the rest can match
-- then, or else two, or else one, and a dot is any character that does not end a line.
use mpitofino.Prelude.{
  ℕ, ◌+◌, ◌-◌, ◌*◌, ◌/◌, ◌%◌, ◌<◌, ◌≡◌, refl, sym, ap, ◌∙◌, Bool, true, false, ◌&&◌, ◌||◌, Option,
  none, some, List, [], ◌∷◌, ◌++◌, zero, suc, leb, ltb, ◌==◌, if◌then◌else◌, Result, ok, err, ◌>>=◌,
  ◌>>◌, require, runtime_error, Bool-cases, inl, inr, arith, tested_below, tested_below-true, ==→eq,
}
use mathlib.Core.List.{append-nil}
use mpitofino.SimpleTypes.{IPv4Addr, IsIp}

abbrev pub is_digit : ℕ → Bool
is_digit c = leb 48 c && leb c 57

abbrev with_digit : ℕ → Option (List ℕ × List ℕ) → Option (List ℕ × List ℕ)
with_digit c none = none
with_digit c (some (ds, s)) = some (c ∷ ds, s)

-- So many digits, and the text behind them.
unfoldable pub digits_at : ℕ → List ℕ → Option (List ℕ × List ℕ)
digits_at zero s = some ([], s)
digits_at (suc n) [] = none
digits_at (suc n) (c ∷ s) = if is_digit c then with_digit c (digits_at n s) else none

abbrev pub Groups : Type 0
Groups = Option (List (List ℕ))

abbrev with_group : List ℕ → Groups → Groups
with_group ds none = none
with_group ds (some gs) = some (ds ∷ gs)

abbrev then_match : (List ℕ → Groups) → Option (List ℕ × List ℕ) → Groups
then_match next none = none
then_match next (some (ds, s)) = with_group ds (next s)

abbrev or_else : Groups → Groups → Groups
or_else none g = g
or_else (some gs) g = some gs

-- `([0-9]{1,3})` and what follows it.
unfoldable pub group_then : (List ℕ → Groups) → List ℕ → Groups
group_then next s =
    or_else (then_match next (digits_at 3 s))
      (or_else (then_match next (digits_at 2 s)) (then_match next (digits_at 1 s)))

-- `.`, which is no escaped dot.
unfoldable pub any_then : (List ℕ → Groups) → List ℕ → Groups
any_then next [] = none
any_then next (c ∷ s) = if c == 10 || c == 13 then none else next s

abbrev pub text_end : List ℕ → Groups
text_end [] = some []
text_end (c ∷ s) = none

unfoldable pub match_ip : List ℕ → Groups
match_ip s =
    group_then (any_then (group_then (any_then (group_then (any_then (group_then text_end)))))) s

-- `atoi` of digits.
unfoldable pub atoi : ℕ → List ℕ → ℕ
atoi value [] = value
atoi value (c ∷ ds) = atoi (value * 10 + (c - 48)) ds

abbrev pub octet_of : List ℕ → Result ℕ
octet_of ds = require (leb (atoi 0 ds) 255) runtime_error >> ok (atoi 0 ds)

unfoldable pub ip_of_groups : Groups → Result IPv4Addr
ip_of_groups (some (a ∷ b ∷ c ∷ d ∷ [])) = do
  v0 ← octet_of a
  v1 ← octet_of b
  v2 ← octet_of c
  v3 ← octet_of d
  ok (record { b0 = v0; b1 = v1; b2 = v2; b3 = v3 })
ip_of_groups other = err runtime_error

-- The constructor of `IPv4Addr` from a string.
unfoldable pub ip_of_string : List ℕ → Result IPv4Addr
ip_of_string s = ip_of_groups (match_ip s)

-- `%u` of a byte.
unfoldable pub dec_text : ℕ → List ℕ
dec_text n =
    if ltb n 10
    then (48 + n) ∷ []
    else if ltb n 100
    then (48 + n / 10) ∷ (48 + n % 10) ∷ []
    else (48 + n / 100) ∷ (48 + n / 10 % 10) ∷ (48 + n % 10) ∷ []

-- `to_string`
unfoldable pub string_of_ip : IPv4Addr → List ℕ
string_of_ip a = dec_text a.b0 ++ 46 ∷ (dec_text a.b1 ++ 46 ∷ (dec_text a.b2 ++ 46 ∷ dec_text a.b3))

-- The text does not begin with a digit.
abbrev NoDigit : List ℕ → Type 0
NoDigit [] = Unit
NoDigit (c ∷ s) = is_digit c ≡ false

digits_at-NoDigit : (n : ℕ) (s : List ℕ) → NoDigit s → digits_at (suc n) s ≡ none
unfolding digits_at
digits_at-NoDigit n [] h = refl
digits_at-NoDigit n (c ∷ s) h = rw h refl

-- A group takes all digits of a number.
group_then-dec_text :
    (n : ℕ) (next : List ℕ → Groups) (s : List ℕ) (gs : List (List ℕ))
    → n < 256
    → NoDigit s
    → next s ≡ some gs
    → group_then next (dec_text n ++ s) ≡ some (dec_text n ∷ gs)
unfolding group_then dec_text
group_then-dec_text n next s gs lt h e =
    let stop1 = digits_at-NoDigit 1 s h in
    let stop0 = digits_at-NoDigit 0 s h in
    elim (Bool-cases (ltb n 10)) [
      | inl t ↦
          let d : is_digit (48 + n) ≡ true = ground arith in
          unfold digits_at in rw (t, d, stop1, stop0, e) refl
      | inr f ↦ elim (Bool-cases (ltb n 100)) [
        | inl t ↦
            let d1 : is_digit (48 + n / 10) ≡ true = ground arith in
            let d0 : is_digit (48 + n % 10) ≡ true = ground arith in
            unfold digits_at in rw (f, t, d1, d0, stop0, e) refl
        | inr g ↦
            let d2 : is_digit (48 + n / 100) ≡ true = ground arith in
            let d1 : is_digit (48 + n / 10 % 10) ≡ true = ground arith in
            let d0 : is_digit (48 + n % 10) ≡ true = ground arith in
            unfold digits_at in rw (f, g, d2, d1, d0, e) refl
      ]
    ]

-- The dot between two numbers.
dotted :
    (n : ℕ) (next : List ℕ → Groups) (s : List ℕ) (gs : List (List ℕ))
    → n < 256
    → next s ≡ some gs
    → group_then (any_then next) (dec_text n ++ 46 ∷ s) ≡ some (dec_text n ∷ gs)
unfolding any_then
dotted n next s gs lt e = group_then-dec_text n (any_then next) (46 ∷ s) gs lt refl e

match_ip-string_of_ip :
    (a : IPv4Addr)
    → IsIp a
    → match_ip (string_of_ip a)
      ≡ some (dec_text a.b0 ∷ dec_text a.b1 ∷ dec_text a.b2 ∷ dec_text a.b3 ∷ [])
unfolding match_ip string_of_ip
match_ip-string_of_ip a v =
    let last : group_then text_end (dec_text a.b3) ≡ some (dec_text a.b3 ∷ []) =
      ap (group_then text_end) (sym (append-nil (dec_text a.b3)))
      ∙ group_then-dec_text a.b3 text_end [] [] v.r3 tt refl in
    dotted a.b0 _ _ _ v.r0 (dotted a.b1 _ _ _ v.r1 (dotted a.b2 _ _ _ v.r2 last))

octet_test : ℕ → Bool
octet_test n = atoi 0 (dec_text n) == n

octet_tests : tested_below octet_test 256 ≡ true
unfolding tested_below octet_test atoi dec_text
octet_tests = refl

octet_of-dec_text : (n : ℕ) → n < 256 → octet_of (dec_text n) ≡ ok n
octet_of-dec_text n lt =
    let same : atoi 0 (dec_text n) ≡ n =
      unfold octet_test in ==→eq _ n (tested_below-true octet_test 256 n lt octet_tests) in
    let fits : leb n 255 ≡ true = ground arith in rw (same, fits) refl

-- An IPv4 address of four octets that is printed and parsed again is the same address.
pub ip_of_string-string_of_ip : (a : IPv4Addr) → IsIp a → ip_of_string (string_of_ip a) ≡ ok a
unfolding ip_of_string ip_of_groups
ip_of_string-string_of_ip a v =
    rw
      (
        match_ip-string_of_ip a v,
        octet_of-dec_text a.b0 v.r0,
        octet_of-dec_text a.b1 v.r1,
        octet_of-dec_text a.b2 v.r2,
        octet_of-dec_text a.b3 v.r3,
      )
      refl
