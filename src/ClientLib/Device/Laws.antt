-- ===== src/ClientLib/Device/Laws.antt =====
-- Which of the addresses in the device's table `Client::choose_gid` takes.
use native.Mathlib.Decide.{ℕ_discrete}
use mpitofino.Prelude.{
  ℕ, zero, suc, ◌+◌, ◌<◌, ◌≤◌, ◌≡◌, refl, sym, ap, ◌∙◌, ◌⊎◌, inl, inr, Bool, true, false, ◌&&◌,
  Option, none, some, List, [], ◌∷◌, ◌++◌, ◌==◌, ==→eq, ==-refl, leb, Result, ok, err,
  runtime_error, arith, Bool-cases,
}
use mpitofino.ClientLib.Device.{
  is_xdigit, four_hex, after_prefix, gid_prefix, then_hex, then_colon, at_end, is_ipv4_gid, text_eq,
  GidTable, roce, v2, is_suitable, choose_gid_from, choose_gid,
}

-- `0-9`, `A-F` or `a-f`.
abbrev pub IsXdigit : ℕ → Type 0
IsXdigit c = ((48 ≤ c) × (c ≤ 57)) ⊎ (((65 ≤ c) × (c ≤ 70)) ⊎ ((97 ≤ c) × (c ≤ 102)))

-- Four hexadecimal digits, and the text behind them.
pub record IsGroup (s rest : List ℕ) : Type 0 where
  pub a : ℕ
  pub b : ℕ
  pub c : ℕ
  pub d : ℕ
  pub text : s ≡ a ∷ b ∷ c ∷ d ∷ rest
  pub xdigits : IsXdigit a × IsXdigit b × IsXdigit c × IsXdigit d

-- "0000:0000:0000:0000:0000:ffff:", four digits, a colon and four digits.
pub record IsIpv4Text (s : List ℕ) : Type 0 where
  pub high : List ℕ
  pub low : List ℕ
  pub prefixed :
      s
      ≡ 48 ∷ 48 ∷ 48 ∷ 48 ∷ 58 ∷ 48 ∷ 48 ∷ 48 ∷ 48 ∷ 58 ∷ 48 ∷ 48 ∷ 48 ∷ 48 ∷ 58 ∷ 48 ∷ 48 ∷ 48 ∷ 48
        ∷ 58 ∷ 48 ∷ 48 ∷ 48 ∷ 48 ∷ 58 ∷ 102 ∷ 102 ∷ 102 ∷ 102 ∷ 58 ∷ high
  pub first : IsGroup high (58 ∷ low)
  pub second : IsGroup low []

-- An IPv4 address with the type "RoCE v2".
pub record IsSuitable (gid : Option (List ℕ)) (type : List ℕ × List ℕ) : Type 0 where
  pub s : List ℕ
  pub here : gid ≡ some s
  pub address : IsIpv4Text s
  pub roce_type : type.0 ≡ 82 ∷ 111 ∷ 67 ∷ 69 ∷ []
  pub version : type.1 ≡ 118 ∷ 50 ∷ []

is_xdigit-IsXdigit : (c : ℕ) → is_xdigit c ≡ true → IsXdigit c
unfolding is_xdigit
is_xdigit-IsXdigit c h = elim (Bool-cases (leb 48 c && leb c 57)) [
  | inl t ↦ inl (ground arith, ground arith)
  | inr f ↦ elim (Bool-cases (leb 65 c && leb c 70)) [
    | inl t ↦ inr (inl (ground arith, ground arith))
    | inr g ↦ inr (inr (ground arith, ground arith))
  ]
]

IsXdigit-is_xdigit : (c : ℕ) → IsXdigit c → is_xdigit c ≡ true
unfolding is_xdigit
IsXdigit-is_xdigit c (inl h) = ground (arith, h.0, h.1)
IsXdigit-is_xdigit c (inr (inl h)) = ground (arith, h.0, h.1)
IsXdigit-is_xdigit c (inr (inr h)) = ground (arith, h.0, h.1)

and4 :
    (a b c d : Bool) → (a && b && c && d) ≡ true → (a ≡ true) × (b ≡ true) × (c ≡ true) × (d ≡ true)
and4 true true true true h = (refl, refl, refl, refl)
and4 true true true false h = cc
and4 true true false d h = cc
and4 true false c d h = cc
and4 false b c d h = cc

four_hex-IsGroup : (s rest : List ℕ) → four_hex s ≡ some rest → IsGroup s rest
unfolding four_hex
four_hex-IsGroup [] rest h = cc
four_hex-IsGroup (a ∷ []) rest h = cc
four_hex-IsGroup (a ∷ b ∷ []) rest h = cc
four_hex-IsGroup (a ∷ b ∷ c ∷ []) rest h = cc
four_hex-IsGroup (a ∷ b ∷ c ∷ d ∷ s) rest h =
    elim (Bool-cases (is_xdigit a && is_xdigit b && is_xdigit c && is_xdigit d)) [
      | inr f ↦ cc (rw f at h)
      | inl t ↦
          let all = and4 (is_xdigit a) (is_xdigit b) (is_xdigit c) (is_xdigit d) t in
          let same : s ≡ rest = cc (rw t at h) in
          record {
            a = a;
            b = b;
            c = c;
            d = d;
            text = ap (λ l. a ∷ b ∷ c ∷ d ∷ l) same;
            xdigits = (
              is_xdigit-IsXdigit a all.0,
              is_xdigit-IsXdigit b all.1,
              is_xdigit-IsXdigit c all.2,
              is_xdigit-IsXdigit d all.3,
            );
          }
    ]

IsGroup-four_hex : (s rest : List ℕ) → IsGroup s rest → four_hex s ≡ some rest
unfolding four_hex
IsGroup-four_hex s rest g =
    rw
      (
        g.text,
        IsXdigit-is_xdigit g.a g.xdigits.0,
        IsXdigit-is_xdigit g.b g.xdigits.1,
        IsXdigit-is_xdigit g.c g.xdigits.2,
        IsXdigit-is_xdigit g.d g.xdigits.3,
      )
      refl

after_prefix-append : (p s r : List ℕ) → after_prefix p s ≡ some r → s ≡ p ++ r
unfolding after_prefix
after_prefix-append [] s r h = cc
after_prefix-append (p ∷ ps) [] r h = cc
after_prefix-append (p ∷ ps) (c ∷ s) r h = elim (Bool-cases (p == c)) [
  | inr f ↦ cc (rw f at h)
  | inl t ↦
      let e : p ≡ c = ==→eq p c t in
      let later : s ≡ ps ++ r = after_prefix-append ps s r (rw t at h) in
      ap (λ x. x ∷ s) (sym e) ∙ ap (λ l. p ∷ l) later
]

append-after_prefix : (p r : List ℕ) → after_prefix p (p ++ r) ≡ some r
unfolding after_prefix
append-after_prefix [] r = refl
append-after_prefix (p ∷ ps) r = rw (==-refl p) (append-after_prefix ps r)

at_end-some : (o : Option (List ℕ)) → at_end o ≡ true → o ≡ some []
at_end-some none h = cc
at_end-some (some []) h = refl
at_end-some (some (c ∷ s)) h = cc

then_hex-some :
    (o : Option (List ℕ)) (r : List ℕ)
    → then_hex o ≡ some r
    → (s : List ℕ) × (o ≡ some s) × IsGroup s r
then_hex-some none r h = cc
then_hex-some (some s) r h = (s, refl, four_hex-IsGroup s r h)

then_colon-some : (o : Option (List ℕ)) (r : List ℕ) → then_colon o ≡ some r → o ≡ some (58 ∷ r)
then_colon-some none r h = cc
then_colon-some (some s) r h = ap some (after_prefix-append (58 ∷ []) s r h)

is_ipv4_gid-IsIpv4Text : (s : List ℕ) → is_ipv4_gid s ≡ true → IsIpv4Text s
unfolding is_ipv4_gid
is_ipv4_gid-IsIpv4Text s h =
    let whole = at_end-some (then_hex (then_colon (then_hex (after_prefix gid_prefix s)))) h in
    let (low, e2, second) =
      then_hex-some (then_colon (then_hex (after_prefix gid_prefix s))) [] whole in
    let colon = then_colon-some (then_hex (after_prefix gid_prefix s)) low e2 in
    let (high, e1, first) = then_hex-some (after_prefix gid_prefix s) (58 ∷ low) colon in
    record {
      high = high;
      low = low;
      prefixed = after_prefix-append gid_prefix s high e1;
      first = first;
      second = second;
    }

IsIpv4Text-is_ipv4_gid : (s : List ℕ) → IsIpv4Text s → is_ipv4_gid s ≡ true
unfolding is_ipv4_gid
IsIpv4Text-is_ipv4_gid s t =
    let e0 : after_prefix gid_prefix s ≡ some t.high =
      ap (after_prefix gid_prefix) t.prefixed ∙ append-after_prefix gid_prefix t.high in
    let e1 : then_hex (after_prefix gid_prefix s) ≡ some (58 ∷ t.low) =
      ap then_hex e0 ∙ IsGroup-four_hex t.high (58 ∷ t.low) t.first in
    let e2 : then_colon (then_hex (after_prefix gid_prefix s)) ≡ some t.low =
      ap then_colon e1 ∙ append-after_prefix (58 ∷ []) t.low in
    ap at_end (ap then_hex e2 ∙ IsGroup-four_hex t.low [] t.second)

text_eq-eq : (s t : List ℕ) → text_eq s t ≡ true → t ≡ s
text_eq-eq s t h = after_prefix-append s t [] (at_end-some (after_prefix s t) h) ∙ append_empty s
  where
    append_empty : (l : List ℕ) → l ++ [] ≡ l
    append_empty [] = refl
    append_empty (x ∷ l) = ap (λ m. x ∷ m) (append_empty l)

and3 : (a b c : Bool) → (a && b && c) ≡ true → (a ≡ true) × (b ≡ true) × (c ≡ true)
and3 true true true h = (refl, refl, refl)
and3 true true false h = cc
and3 true false c h = cc
and3 false b c h = cc

is_suitable-IsSuitable :
    (gid : Option (List ℕ)) (type : List ℕ × List ℕ)
    → is_suitable gid type ≡ true
    → IsSuitable gid type
is_suitable-IsSuitable none type h = cc
is_suitable-IsSuitable (some s) type h =
    let all = and3 (is_ipv4_gid s) (text_eq roce type.0) (text_eq v2 type.1) h in
    record {
      s = s;
      here = refl;
      address = is_ipv4_gid-IsIpv4Text s all.0;
      roce_type = text_eq-eq roce type.0 all.1;
      version = text_eq-eq v2 type.1 all.2;
    }

IsSuitable-is_suitable :
    (gid : Option (List ℕ)) (type : List ℕ × List ℕ)
    → IsSuitable gid type
    → is_suitable gid type ≡ true
unfolding after_prefix
IsSuitable-is_suitable gid type h =
    rw (h.here, IsIpv4Text-is_ipv4_gid h.s h.address, h.roce_type, h.version) refl

-- The index `i` is suitable, and no index from `lo` to before it is.
pub record IsFirstGid (table : GidTable) (lo i : ℕ) : Type 0 where
  pub from : lo ≤ i
  pub suitable : is_suitable (table.gid i) (table.type i) ≡ true
  pub first : (j : ℕ) → lo ≤ j → j < i → is_suitable (table.gid j) (table.type j) ≡ false

abbrev pub GidOutcome : GidTable → ℕ → ℕ → Result ℕ → Type 0
GidOutcome table lo hi m =
    ((i : ℕ) × (m ≡ ok i) × (i < hi) × IsFirstGid table lo i)
    ⊎ ((m ≡ err runtime_error)
        × ((j : ℕ) → lo ≤ j → j < hi → is_suitable (table.gid j) (table.type j) ≡ false))

choose_gid_from-Outcome :
    (table : GidTable) (left lo hi : ℕ)
    → lo + left ≡ hi
    → GidOutcome table lo hi (choose_gid_from table left lo)
unfolding choose_gid_from
choose_gid_from-Outcome table zero lo hi e = inr (refl, λ j a b. absurd (omega arith))
choose_gid_from-Outcome table (suc left) lo hi e =
    elim (Bool-cases (is_suitable (table.gid lo) (table.type lo))) [
      | inl t ↦ inl (
        lo,
        rw t refl,
        omega arith,
        record { from = omega arith; suitable = t; first = λ j a b. absurd (omega arith) },
      )
      | inr f ↦ elim (choose_gid_from-Outcome table left (lo + 1) hi (omega arith)) [
        | inl (i, m, lt, first) ↦ inl (
          i,
          rw (f, m) refl,
          lt,
          record {
            from = omega (arith, first.from);
            suitable = first.suitable;
            first = λ j a b. skipped lo j f a (first.first j) b;
          },
        )
        | inr (m, none_suits) ↦
            inr (rw (f, m) refl, λ j a b. skipped lo j f a (λ x y. none_suits j x b) b)
      ]
    ]
  where
    skipped :
        {hi' : ℕ} (lo j : ℕ)
        → is_suitable (table.gid lo) (table.type lo) ≡ false
        → lo ≤ j
        → (lo + 1 ≤ j → j < hi' → is_suitable (table.gid j) (table.type j) ≡ false)
        → j < hi'
        → is_suitable (table.gid j) (table.type j) ≡ false
    skipped lo j f a h b = elim (ℕ_discrete lo j) [
      | yes same ↦ rw (← same) f
      | no other ↦ h (omega arith) b
    ]

-- What `choose_gid` comes to, for the table of a device.
abbrev pub Chosen : GidTable → Result ℕ → Type 0
Chosen table (ok i) =
    (i < 256)
    × IsSuitable (table.gid i) (table.type i)
    × ((j : ℕ) → j < i → IsSuitable (table.gid j) (table.type j) → ⊥)
Chosen table (err e) =
    (e ≡ runtime_error) × ((j : ℕ) → j < 256 → IsSuitable (table.gid j) (table.type j) → ⊥)

not_suitable :
    (gid : Option (List ℕ)) (type : List ℕ × List ℕ)
    → is_suitable gid type ≡ false
    → IsSuitable gid type
    → ⊥
not_suitable gid type f h = cc (f, IsSuitable-is_suitable gid type h)

-- Choose_gid takes the least of the 256 indices at which there is an IPv4 address with the type RoCE
-- v2, and throws a runtime error exactly if there is none.
pub choose_gid-Chosen : (table : GidTable) → Chosen table (choose_gid table)
unfolding choose_gid
choose_gid-Chosen table = elim (choose_gid_from-Outcome table 256 0 256 refl) [
  | inl (i, m, lt, f) ↦ rw m (
    lt,
    is_suitable-IsSuitable (table.gid i) (table.type i) f.suitable,
    λ j b. not_suitable (table.gid j) (table.type j) (f.first j (omega arith) b),
  )
  | inr (m, n) ↦ rw m (refl, λ j b. not_suitable (table.gid j) (table.type j) (n j (omega arith) b))
]
