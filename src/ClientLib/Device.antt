-- ===== src/ClientLib/Device.antt =====
-- projects/mpitofino/client_lib/mpitofino.cc, `Client::open_ib_device` and `Client::choose_gid`: the
-- device, and the address in its table by which it takes part in RoCE v2 over IPv4.
pub mod Laws
use native.Mathlib.Decide.{ℕ_discrete}
use mpitofino.Prelude.{
  ℕ, zero, suc, ◌+◌, ◌<◌, ◌≤◌, ◌≡◌, refl, ◌⊎◌, inl, inr, Bool, true, false, ◌&&◌, ◌||◌, Option,
  none, some, List, [], ◌∷◌, ◌++◌, ◌==◌, leb, if◌then◌else◌, Result, ok, err, ◌>>=◌, runtime_error,
  arith, Bool-cases,
}

unfoldable pub is_xdigit : ℕ → Bool
is_xdigit c = leb 48 c && leb c 57 || (leb 65 c && leb c 70 || leb 97 c && leb c 102)

-- The text after the colon that ends a prefix, four hexadecimal digits to a group.
unfoldable pub four_hex : List ℕ → Option (List ℕ)
four_hex (a ∷ b ∷ c ∷ d ∷ rest) =
    if is_xdigit a && is_xdigit b && is_xdigit c && is_xdigit d then some rest else none
four_hex other = none

-- The text after a constant beginning.
unfoldable pub after_prefix : List ℕ → List ℕ → Option (List ℕ)
after_prefix [] s = some s
after_prefix (p ∷ ps) [] = none
after_prefix (p ∷ ps) (c ∷ s) = if p == c then after_prefix ps s else none

abbrev pub zero_group : List ℕ
zero_group = 48 ∷ 48 ∷ 48 ∷ 48 ∷ 58 ∷ []

-- "0000:0000:0000:0000:0000:ffff:"
abbrev pub gid_prefix : List ℕ
gid_prefix =
    zero_group
    ++ zero_group
    ++ zero_group
    ++ zero_group
    ++ zero_group
    ++ 102 ∷ 102 ∷ 102 ∷ 102 ∷ 58 ∷ []

abbrev pub then_hex : Option (List ℕ) → Option (List ℕ)
then_hex none = none
then_hex (some s) = four_hex s

abbrev pub then_colon : Option (List ℕ) → Option (List ℕ)
then_colon none = none
then_colon (some s) = after_prefix (58 ∷ []) s

abbrev pub at_end : Option (List ℕ) → Bool
at_end none = false
at_end (some []) = true
at_end (some (c ∷ s)) = false

-- The regular expression, with two groups of hexadecimal digits behind the prefix.
unfoldable pub is_ipv4_gid : List ℕ → Bool
is_ipv4_gid s = at_end (then_hex (then_colon (then_hex (after_prefix gid_prefix s))))

abbrev pub text_eq : List ℕ → List ℕ → Bool
text_eq s t = at_end (after_prefix s t)

-- What the files of port 1 hold: the first word of `gids/<i>`, if the file exists, and the first two of
-- `gid_attrs/types/<i>`.
pub record GidTable : Type 0 where
  pub gid : ℕ → Option (List ℕ)
  pub type : ℕ → List ℕ × List ℕ

-- "RoCE" and "v2".
abbrev pub roce : List ℕ
roce = 82 ∷ 111 ∷ 67 ∷ 69 ∷ []

abbrev pub v2 : List ℕ
v2 = 118 ∷ 50 ∷ []

abbrev pub is_suitable : Option (List ℕ) → List ℕ × List ℕ → Bool
is_suitable none type = false
is_suitable (some s) type = is_ipv4_gid s && text_eq roce type.0 && text_eq v2 type.1

-- The loop from the index `i` on, `left` rounds long.
unfoldable pub choose_gid_from : GidTable → ℕ → ℕ → Result ℕ
choose_gid_from table zero i = err runtime_error
choose_gid_from table (suc left) i =
    let rest = choose_gid_from table left (i + 1) in
    if is_suitable (table.gid i) (table.type i) then ok i else rest

unfoldable pub choose_gid : GidTable → Result ℕ
choose_gid table = choose_gid_from table 256 0

-- The first device of the list, if there is a list and a device.
unfoldable pub first_device : Option (List ℕ) → Result ℕ
first_device none = err runtime_error
first_device (some []) = err runtime_error
first_device (some (dev ∷ devs)) = ok dev

-- `tables` are the files of each device. The device's context, which may be null, is not tested.
unfoldable pub open_ib_device : Option (List ℕ) → (ℕ → GidTable) → Result (ℕ × ℕ)
open_ib_device devices tables =
    first_device devices >>= λ dev. choose_gid (tables dev) >>= λ gid. ok (dev, gid)
