-- ===== src/ComUtils/Stream.antt =====
-- What is sent over a stream socket is what is received.
use mpitofino.Prelude.{
  ℕ, suc, ◌+◌, ◌%◌, ◌^◌, ◌≡◌, ◌<◌, ◌≤◌, refl, sym, ap, subst, min, Option, none, some, List, [],
  ◌∷◌, ◌++◌, length, length-append, take, drop, take-append-drop, length-drop, take-append_left,
  drop-append_left, ne→==, All, Result, ok, err, arith,
}
use mpitofino.ComUtils.{
  be32_bytes, be32_at, write_all, Got, waiting, closed, got, prepend, read_all, Message, pending,
  null, message, send_message, parsed, receive_body, receive_message,
}

-- Every call transfers something.
abbrev pub Positive : List ℕ → Type 0
Positive sizes = All (λ k. 1 ≤ k) sizes

write_all-all :
    (sizes bytes : List ℕ)
    → Positive sizes
    → length bytes ≤ length sizes
    → write_all sizes bytes ≡ some bytes
unfolding write_all
write_all-all [] [] p h = refl
write_all-all [] (b ∷ bytes) p h = absurd (omega arith)
write_all-all (k ∷ sizes) [] p h = refl
write_all-all (k ∷ sizes) (b ∷ bytes) p h =
    rw
      (write_all-all sizes (drop k (b ∷ bytes)) p.1 (omega (arith, p.0, length-drop k (b ∷ bytes))))
      (ap some (take-append-drop k (b ∷ bytes)))

-- The bytes asked for, what is left of the stream, and enough sizes for as many bytes as before.
abbrev GotExactly : List ℕ → List ℕ → ℕ → Got → Type 0
GotExactly bytes rest spare waiting = ⊥
GotExactly bytes rest spare closed = ⊥
GotExactly bytes rest spare (got more sizes left) =
    (more ≡ bytes) × (left ≡ rest) × Positive sizes × (spare ≤ length sizes)

GotExactly-prepend :
    (first bytes rest : List ℕ) (spare : ℕ) (g : Got)
    → GotExactly bytes rest spare g
    → GotExactly (first ++ bytes) rest spare (prepend first g)
GotExactly-prepend first bytes rest spare waiting h = h
GotExactly-prepend first bytes rest spare closed h = h
GotExactly-prepend first bytes rest spare (got more sizes left) h =
    (ap (◌++◌ first) h.0, h.1, h.2, h.3)

read_all-GotExactly :
    (sizes bytes rest : List ℕ) (spare : ℕ)
    → Positive sizes
    → length bytes + spare ≤ length sizes
    → GotExactly bytes rest spare (read_all sizes (length bytes) (bytes ++ rest))
unfolding read_all
read_all-GotExactly sizes [] rest spare p h = (refl, refl, p, omega arith)
read_all-GotExactly [] (b ∷ bytes) rest spare p h = absurd (omega arith)
read_all-GotExactly (k ∷ sizes) (b ∷ bytes) rest spare p h =
    let n : ℕ = min k (length (b ∷ bytes)) in
    let positive : 1 ≤ n = omega (arith, p.0) in
    let within : n ≤ length (b ∷ bytes) = omega arith in
    let asked : min (min k (suc (length bytes))) (suc (length (bytes ++ rest))) ≡ n =
      omega (arith, length-append bytes rest) in
    rw
      (
        asked,
        ne→== n 0 (λ e. absurd (omega (arith, positive))),
        take-append_left n (b ∷ bytes) rest within,
        drop-append_left n (b ∷ bytes) rest within,
        sym (length-drop n (b ∷ bytes)),
      )
      (subst
        (λ all. GotExactly all rest spare (
          prepend (take n (b ∷ bytes))
            (read_all sizes (length (drop n (b ∷ bytes))) (drop n (b ∷ bytes) ++ rest))))
        (take-append-drop n (b ∷ bytes))
        (GotExactly-prepend (take n (b ∷ bytes)) (drop n (b ∷ bytes)) rest spare _ (
          read_all-GotExactly sizes (drop n (b ∷ bytes)) rest spare p.1
            (omega (arith, positive, length-drop n (b ∷ bytes))))))

module _ {M : Type 0} (serialize : M → Option (List ℕ)) (parse : List ℕ → Option M) where
  -- The receiver has the message, and the stream stands behind it.
  abbrev pub Receives : M → List ℕ → Result (Message M) → Type 0
  Receives msg rest (err e) = ⊥
  Receives msg rest (ok pending) = ⊥
  Receives msg rest (ok null) = ⊥
  Receives msg rest (ok (message m sizes left)) = (m ≡ msg) × (left ≡ rest)

  parsed-Receives :
      (msg : M) (bytes rest : List ℕ) (g : Got)
      → parse bytes ≡ some msg
      → GotExactly bytes rest 0 g
      → Receives msg rest (parsed serialize parse g)
  parsed-Receives msg bytes rest waiting e h = h
  parsed-Receives msg bytes rest closed e h = h
  parsed-Receives msg bytes rest (got more sizes left) e h = rw (h.0, e, parsed) (refl, h.1)

  body-Receives :
      (msg : M) (bytes rest : List ℕ) (g : Got)
      → parse bytes ≡ some msg
      → length bytes < 2 ^ 32
      → GotExactly (be32_bytes (length bytes % 2 ^ 32)) (bytes ++ rest) (length bytes) g
      → Receives msg rest (receive_body serialize parse g)
  body-Receives msg bytes rest waiting e l h = h
  body-Receives msg bytes rest closed e l h = h
  body-Receives msg bytes rest (got more sizes left) e l h =
      let w : be32_at (be32_bytes (length bytes % 2 ^ 32)) ≡ length bytes = omega arith in
      rw (h.0, h.1, w)
        (parsed-Receives msg bytes rest (read_all sizes (length bytes) (bytes ++ rest)) e
          (read_all-GotExactly sizes bytes rest 0 h.2 (omega (arith, h.3))))

  -- What `send_message` leaves on the stream: the bytes by which `Receives` holds whatever follows.
  abbrev pub Travels : M → List ℕ → List ℕ → Result (Option (List ℕ)) → Type 0
  Travels msg sizes rest (err e) = ⊥
  Travels msg sizes rest (ok none) = ⊥
  Travels msg sizes rest (ok (some sent)) =
      Receives msg rest (receive_message serialize parse sizes (sent ++ rest))

  -- A message of less than 2^32 bytes whose encoding can be read back, the write of its length being
  -- complete: both ends always finish, however the calls split the bytes, if each call transfers some
  -- byte and there are as many calls as bytes. The receiver gets the message that was sent, and the
  -- stream is left behind it.
  pub send_message-Travels :
      (msg : M) (bytes : List ℕ) (writes reads rest : List ℕ)
      → serialize msg ≡ some bytes
      → parse bytes ≡ some msg
      → length bytes < 2 ^ 32
      → Positive writes
      → Positive reads
      → length bytes ≤ length writes
      → 4 + length bytes ≤ length reads
      → Travels msg reads rest (send_message serialize parse 4 writes msg)
  unfolding send_message receive_message
  send_message-Travels msg bytes writes reads rest s e l pw pr lw lr =
      rw (s, send_message, write_all-all writes bytes pw lw)
        (body-Receives msg bytes rest
          (read_all reads 4 (be32_bytes (length bytes % 2 ^ 32) ++ bytes ++ rest)) e l
          (read_all-GotExactly reads (be32_bytes (length bytes % 2 ^ 32)) (bytes ++ rest)
            (length bytes) pr lr))
