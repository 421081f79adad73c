-- ===== src/Logging/Masked.antt =====
-- What may be left after masking: internal/logging/logging.go.
use rfid_middleware_idro900e.Prelude.{
  ℕ, zero, suc, ◌+◌, ◌≤◌, ◌<◌, String, Bool, true, false, not, ◌&&◌, [], ◌∷◌, ◌++◌, str_eq,
  str_eq_iff, if◌then◌else◌, Bytes, take, length, ◌≡◌, ◌≢◌, refl, ap, arith, inl, inr, All,
  Bool-cases,
}
use rfid_middleware_idro900e.Gui.Mask.{is_hex, hex_run, ellipsis}
use rfid_middleware_idro900e.Logging.{
  Value, text, other, Fields, is_forbidden, is_word, word_run, is_token_word, redact_from,
  redact_string, redact,
}

-- No word of the text is sixty-four hexadecimal digits; the Boolean says whether the text goes on with a word.
abbrev pub HasNoTokenWord : Bool → Bytes → Type 0
HasNoTokenWord w [] = Unit {0}
HasNoTokenWord w (c ∷ s) = ((not w && is_token_word (c ∷ s)) ≡ false) × HasNoTokenWord (is_word c) s

hex_is_word : (c : ℕ) → is_hex c ≡ true → is_word c ≡ true
hex_is_word c h = ground (arith, h)

word_run_other : (c : ℕ) (s : Bytes) → is_word c ≡ false → word_run (c ∷ s) ≡ 0
unfolding word_run
word_run_other c s h = rw h refl

no_token_word : (s : Bytes) → word_run s < 64 → is_token_word s ≡ false
no_token_word s h = ground (arith, h)

-- Behind a word character the rest of the word is copied.
copies :
    (s : Bytes)
    → (word_run (redact_from 0 true s) ≡ word_run s) × (hex_run (redact_from 0 true s) ≡ hex_run s)
unfolding redact_from word_run hex_run
copies [] = (refl, refl)
copies (c ∷ s) = elim (Bool-cases (is_word c)) [
  | inl t ↦
      let (a, b) = copies s in
      rw t (ap (λ (n : ℕ). 1 + n) a, ap (λ (n : ℕ). if is_hex c then 1 + n else 0) b)
  | inr t ↦
      let no_hex : is_hex c ≡ false = ground (arith, t, hex_is_word c) in
      rw (t, no_hex) (refl, refl)
]

plain_head :
    (c : ℕ) (w : Bool) (s : Bytes)
    → (not w && is_token_word (c ∷ s)) ≡ false
    → (not w && is_token_word (c ∷ redact_from 0 (is_word c) s)) ≡ false
unfolding word_run hex_run
plain_head c w s h = elim (Bool-cases (is_word c)) [
  | inl t ↦ let (a, b) = copies s in rw (t, a, b) (rw t at h)
  | inr t ↦ ground (arith, t, word_run_other c (redact_from 0 false s) t)
]

run_before : (xs rest : Bytes) → word_run (xs ++ (ellipsis ++ rest)) ≤ length xs
unfolding word_run
run_before [] rest = omega arith
run_before (x ∷ xs) rest = ground (arith, run_before xs rest)

behind_ellipsis :
    (w : Bool) (rest : Bytes) → HasNoTokenWord false rest → HasNoTokenWord w (ellipsis ++ rest)
unfolding word_run
behind_ellipsis w rest h = (ground arith, (ground arith, (ground arith, h)))

before_ellipsis :
    (w : Bool) (xs rest : Bytes)
    → length xs < 64
    → HasNoTokenWord false rest
    → HasNoTokenWord w (xs ++ (ellipsis ++ rest))
before_ellipsis w [] rest h n = behind_ellipsis w rest n
before_ellipsis w (x ∷ xs) rest h n = (
  ground (
    arith,
    no_token_word (x ∷ (xs ++ (ellipsis ++ rest))) (omega (arith, run_before (x ∷ xs) rest, h)),
  ),
  before_ellipsis (is_word x) xs rest (omega (arith, h)) n,
)

length-take : (n : ℕ) (xs : Bytes) → length (take n xs) ≤ n
length-take zero xs = omega arith
length-take (suc n) [] = omega arith
length-take (suc n) (x ∷ xs) = omega (arith, length-take n xs)

Clean : Bytes → Type 0
Clean s = (w : Bool) → HasNoTokenWord w (redact_from 0 w s)

CleanBehind : Bytes → Type 0
CleanBehind s = (n : ℕ) → word_run s ≡ n → HasNoTokenWord false (redact_from n true s)

Clean-next : (c : ℕ) (s : Bytes) → Clean s → CleanBehind s → Clean (c ∷ s)
unfolding redact_from word_run Clean CleanBehind
Clean-next c s here behind w = elim (Bool-cases (not w && is_token_word (c ∷ s))) [
  | inl t ↦ rw t (
      before_ellipsis w (take 8 (c ∷ s)) (redact_from 63 true s)
        (omega (arith, length-take 8 (c ∷ s))) (behind 63 (ground (arith, t))))
  | inr t ↦ rw t (plain_head c w s t, here (is_word c))
]

CleanBehind-next : (c : ℕ) (s : Bytes) → Clean s → CleanBehind s → CleanBehind (c ∷ s)
unfolding redact_from word_run Clean CleanBehind
CleanBehind-next c s here behind zero h =
    (no_token_word (c ∷ redact_from 0 (is_word c) s) (short h), here (is_word c))
  where
    short : word_run (c ∷ s) ≡ 0 → word_run (c ∷ redact_from 0 (is_word c) s) < 64
    short k = ground (arith, k)
CleanBehind-next c s here behind (suc n) h = behind n (ground (arith, h))

-- From any place; and behind a match, whose word ends where the search goes on.
redact_both : (s : Bytes) → Clean s × CleanBehind s
unfolding redact_from Clean CleanBehind
redact_both [] = (λ w. tt, of_nothing)
  where
    of_nothing : (n : ℕ) → word_run [] ≡ n → HasNoTokenWord false (redact_from n true [])
    of_nothing zero h = tt
    of_nothing (suc n) h = tt
redact_both (c ∷ s) =
    let (here, behind) = redact_both s in
    (Clean-next c s here behind, CleanBehind-next c s here behind)

-- What may leave: no forbidden field, and in no text but that of an EPC a word of sixty-four hexadecimal digits.
abbrev pub IsSafe : String × Value → Type 0
IsSafe (k, other) = is_forbidden k ≡ false
IsSafe (k, text s) = (is_forbidden k ≡ false) × ((k ≢ "epc") → HasNoTokenWord false s)

redact_string_clean :
    (k : String) (s : Bytes) → k ≢ "epc" → HasNoTokenWord false (redact_string k s)
unfolding redact_string Clean
redact_string_clean k s n =
    let plain : str_eq k "epc" ≡ false = ground (arith, n, str_eq_iff k "epc") in
    rw plain ((redact_both s).0 false)

-- Whatever the fields are: after `Redact` none is forbidden, and in no text but that of the field epc a word of sixty-four hexadecimal digits
-- is left.
pub redact-IsSafe : (fields : Fields) → All IsSafe (redact fields)
unfolding redact
redact-IsSafe [] = tt
redact-IsSafe ((k, text s) ∷ rest) = elim (Bool-cases (is_forbidden k)) [
  | inl t ↦ rw t (redact-IsSafe rest)
  | inr t ↦ rw t ((t, redact_string_clean k s), redact-IsSafe rest)
]
redact-IsSafe ((k, other) ∷ rest) = elim (Bool-cases (is_forbidden k)) [
  | inl t ↦ rw t (redact-IsSafe rest)
  | inr t ↦ rw t (t, redact-IsSafe rest)
]
