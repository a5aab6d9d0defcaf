-- ===== src/StateRepository/Config/Laws.antt =====
-- What the switch daemon reads from a configuration file that sets every key.
use mathlib.Core.List.{append_assoc, append-nil}
use mpitofino.Prelude.{
  ℕ, ◌+◌, ◌≡◌, ◌≢◌, ◌≤◌, ◌<◌, refl, sym, ap, ◌∙◌, false, List, [], ◌∷◌, ◌++◌, length, length-append,
  ltb, ◌==◌, ◌>>=◌, All, All-append, arith,
}
use mpitofino.StateRepository.Config.{
  Config, lines_from, is_space, closed_word, words_from, before_nul, set_key, read_parts,
  read_lines,
}

-- A character of a word.
abbrev pub InWord : ℕ → Type 0
InWord c = (is_space c ≡ false) × (c ≢ 0)

-- A word, as it stands in a line.
pub record IsWord (w : List ℕ) : Type 0 where
  pub chars : All InWord w
  pub some_char : 0 < length w

lines_from-line :
    (line s rest : List ℕ)
    → All (λ c. c ≢ 10) s
    → length line + length s ≤ 1023
    → lines_from line (s ++ 10 ∷ rest) ≡ (line ++ s) ∷ lines_from [] rest
unfolding lines_from
lines_from-line line [] rest h n =
    let short : ltb 1023 (length line) ≡ false = ground arith in rw (short, append-nil line) refl
lines_from-line line (c ∷ s) rest h n =
    let other : (c == 10) ≡ false = ground (arith, h.0) in
    rw other (
      lines_from-line (line ++ c ∷ []) s rest h.1 (omega (arith, length-append line (c ∷ [])))
      ∙ ap (λ l. l ∷ lines_from [] rest) (append_assoc line (c ∷ []) s))

words_from-word :
    (word w s : List ℕ) → All InWord w → words_from word (w ++ s) ≡ words_from (word ++ w) s
unfolding words_from
words_from-word word [] s h = ap (λ v. words_from v s) (sym (append-nil word))
words_from-word word (c ∷ w) s h = rw h.0.0 (
    words_from-word (word ++ c ∷ []) w s h.1
    ∙ ap (λ v. words_from v s) (append_assoc word (c ∷ []) w))

closed_word-IsWord : (w : List ℕ) (ws : List (List ℕ)) → IsWord w → closed_word w ws ≡ w ∷ ws
closed_word-IsWord [] ws h = absurd (omega (arith, h.some_char))
closed_word-IsWord (c ∷ w) ws h = refl

words_from-two : (k v : List ℕ) → IsWord k → IsWord v → words_from [] (k ++ 32 ∷ v) ≡ k ∷ v ∷ []
words_from-two k v hk hv =
    let last : words_from [] v ≡ v ∷ [] =
      ap (words_from []) (sym (append-nil v))
      ∙ words_from-word [] v [] hv.chars
      ∙ unfold words_from in closed_word-IsWord v [] hv in
    words_from-word [] k (32 ∷ v) hk.chars
    ∙ unfold words_from in (closed_word-IsWord k (words_from [] v) hk ∙ ap (λ ws. k ∷ ws) last)

before_nul-All : (s : List ℕ) → All (λ c. c ≢ 0) s → before_nul s ≡ s
unfolding before_nul
before_nul-All [] h = refl
before_nul-All (c ∷ s) h =
    let other : (c == 0) ≡ false = ground (arith, h.0) in
    rw other (ap (λ t. c ∷ t) (before_nul-All s h.1))

All-InWord : (P : ℕ → Type 0) (w : List ℕ) → ((c : ℕ) → InWord c → P c) → All InWord w → All P w
All-InWord P [] f h = tt
All-InWord P (c ∷ w) f h = (f c h.0, All-InWord P w f h.1)

space-ne : (c : ℕ) → InWord c → c ≢ 10
space-ne c h e = cc (sym h.0 ∙ ap is_space e)

abbrev pub entry_text : List ℕ → List ℕ → List ℕ
entry_text k v = k ++ 32 ∷ (v ++ 10 ∷ [])

-- A line with a key and a value.
pub read_lines-entry :
    (k v rest : List ℕ) (c : Config)
    → IsWord k
    → IsWord v
    → length k + length v ≤ 1000
    → read_lines (lines_from [] (entry_text k v ++ rest)) c
      ≡ (set_key k v c >>= read_lines (lines_from [] rest))
read_lines-entry k v rest c hk hv n =
    let P : ℕ → Type 0 = λ x. x ≢ 10 in
    let Q : ℕ → Type 0 = λ x. x ≢ 0 in
    let line = k ++ 32 ∷ v in
    let shape : entry_text k v ++ rest ≡ line ++ 10 ∷ rest = simp append_assoc in
    let split : lines_from [] (entry_text k v ++ rest) ≡ line ∷ lines_from [] rest =
      ap (lines_from []) shape
      ∙ lines_from-line [] line rest
          (All-append P k (32 ∷ v) (All-InWord P k space-ne hk.chars)
            (omega arith, All-InWord P v space-ne hv.chars))
          (omega (arith, length-append k (32 ∷ v))) in
    let whole : before_nul line ≡ line = before_nul-All line (
      All-append Q k (32 ∷ v) (All-InWord Q k (λ x h. h.1) hk.chars)
        (omega arith, All-InWord Q v (λ x h. h.1) hv.chars)) in
    rw split (unfold read_lines in rw (whole, words_from-two k v hk hv) (unfold read_parts in refl))
