-- ===== src/KvTypes/Filename.antt =====
-- The name of a key on disk names that key, and no other text is a name.
use dingo_cache.Common.{
  ℕ, zero, suc, ◌+◌, ◌*◌, ◌/◌, ◌%◌, ◌^◌, ◌<◌, ◌≤◌, ◌≡◌, refl, sym, ◌∙◌, ap, arith, List, [], ◌∷◌,
  ◌++◌, some, length, length-drop, drop, Option-cases, inl, inr,
}
use dingo_cache.KvTypes.{
  BlockKey, IsKey, hex_digit, hex_onto, hex64, digest_hex, filename, nibble, parse_nibbles,
  parse_filename,
}

nibble-hex_digit : (d : ℕ) → d < 16 → nibble (hex_digit d) ≡ some d
unfolding nibble hex_digit
nibble-hex_digit d h = ground arith

hex_digit-nibble : (c d : ℕ) → nibble c ≡ some d → (hex_digit d ≡ c) × (d < 16)
unfolding nibble hex_digit
hex_digit-nibble c d h = ground arith

-- A number with `n` hexadecimal zeros after it.
abbrev shift : ℕ → ℕ → ℕ
shift zero d = d
shift (suc n) d = 16 * shift n d

pow_pos : (n : ℕ) → 0 < 16 ^ n
pow_pos zero = omega arith
pow_pos (suc n) = omega (arith, pow_pos n)

shift-split : (n d r : ℕ) → shift n (d * 16 + r) ≡ shift (suc n) d + shift n r
shift-split zero d r = omega arith
shift-split (suc n) d r = omega (arith, shift-split n d r)

shift_le : (n d : ℕ) → d ≤ shift n d
shift_le zero d = omega arith
shift_le (suc n) d = omega (arith, shift_le n d)

shift_bound : (n d : ℕ) → d < 16 → shift n d + 16 ^ n ≤ 16 ^ suc n
shift_bound zero d h = omega arith
shift_bound (suc n) d h = omega (arith, shift_bound n d h)

-- Digits are read back, on top of what has been read.
parse_nibbles-hex_onto :
    (n m v parsed : ℕ) (rest : List ℕ)
    → v < 16 ^ n
    → shift n parsed + v < 2 ^ 64
    → parse_nibbles (n + m) parsed (hex_onto n v rest) ≡ parse_nibbles m (shift n parsed + v) rest
unfolding hex_onto parse_nibbles
parse_nibbles-hex_onto zero m v parsed rest h word =
    let sum : 0 + m ≡ m = omega arith in
    let value : parsed + v ≡ parsed = omega arith in rw (sum, value) refl
parse_nibbles-hex_onto (suc n) m v parsed rest h word =
    let sum : suc n + m ≡ n + suc m = omega arith in
    let ih =
      parse_nibbles-hex_onto n (suc m) (v / 16) parsed (hex_digit (v % 16) ∷ rest) (omega arith)
        (omega arith) in
    let digit = nibble-hex_digit (v % 16) (omega arith) in
    let value : (shift n parsed + v / 16) * 16 % 2 ^ 64 + v % 16 ≡ shift (suc n) parsed + v =
      omega arith in
    rw (sum, ih, parse_nibbles, digit, value) refl

-- The first digit of a number.
hex_onto_high :
    (n d v : ℕ) (rest : List ℕ)
    → d < 16
    → v < 16 ^ n
    → hex_onto (suc n) (shift n d + v) rest ≡ hex_digit d ∷ hex_onto n v rest
unfolding hex_onto
hex_onto_high zero d v rest hd hv = let value : (d + v) % 16 ≡ d = omega arith in rw value refl
hex_onto_high (suc n) d v rest hd hv =
    let quotient : (16 * shift n d + v) / 16 ≡ shift n d + v / 16 = omega arith in
    let digit : (16 * shift n d + v) % 16 ≡ v % 16 = omega arith in
    rw (quotient, digit) (hex_onto_high n d (v / 16) (hex_digit (v % 16) ∷ rest) hd (omega arith))

-- What a text of digits was read as has those digits.
hex_onto-parse_nibbles :
    (n parsed w : ℕ) (s : List ℕ)
    → parse_nibbles n parsed s ≡ some w
    → shift n parsed + 16 ^ n ≤ 2 ^ 64
    → (v : ℕ) × (v < 16 ^ n) × (w ≡ shift n parsed + v) × (hex_onto n v (drop n s) ≡ s)
unfolding hex_onto parse_nibbles
hex_onto-parse_nibbles zero parsed w s e bound =
    let same : parsed ≡ w = cc e in (0, omega arith, omega (arith, same), refl)
hex_onto-parse_nibbles (suc n) parsed w [] e bound = absurd (cc e)
hex_onto-parse_nibbles (suc n) parsed w (c ∷ s) e bound = elim (Option-cases (nibble c)) [
  | inl bad ↦ absurd (ground (arith, e, bad))
  | inr (d, good) ↦
      let (digit, small) = hex_digit-nibble c d good in
      let below = shift_bound n d small in
      let fits : parsed * 16 % 2 ^ 64 ≡ parsed * 16 =
        omega (arith, bound, shift_le n parsed, pow_pos n) in
      let split = shift-split n parsed d in
      let read : parse_nibbles n (parsed * 16 + d) s ≡ some w = ground (arith, e, good, fits) in
      let (v, lt, value, text) =
        hex_onto-parse_nibbles n (parsed * 16 + d) w s read (omega (arith, below, split, bound)) in
      (
        shift n d + v,
        omega (arith, below, lt),
        omega (arith, value, split),
        rw (hex_onto_high n d v (drop n s) small lt, text, digit) refl,
      )
]

length-hex_onto : (n v : ℕ) (rest : List ℕ) → length (hex_onto n v rest) ≡ n + length rest
unfolding hex_onto
length-hex_onto zero v rest = omega arith
length-hex_onto (suc n) v rest =
    omega (arith, length-hex_onto n (v / 16) (hex_digit (v % 16) ∷ rest))

-- A name in one piece.
name_onto : (k : BlockKey) → List ℕ
name_onto k = hex_onto 16 k.tenant_hash (hex_onto 16 k.digest_hi (hex_onto 16 k.digest_lo []))

hex_onto-append :
    (n v : ℕ) (rest more : List ℕ) → hex_onto n v rest ++ more ≡ hex_onto n v (rest ++ more)
unfolding hex_onto
hex_onto-append zero v rest more = refl
hex_onto-append (suc n) v rest more = hex_onto-append n (v / 16) (hex_digit (v % 16) ∷ rest) more

filename-name_onto : (k : BlockKey) → filename k ≡ name_onto k
unfolding filename digest_hex hex64 name_onto
filename-name_onto k = cc (
  hex_onto-append 16 k.tenant_hash [] (hex_onto 16 k.digest_hi [] ++ hex_onto 16 k.digest_lo []),
  hex_onto-append 16 k.digest_hi [] (hex_onto 16 k.digest_lo []),
)

drop-hex_onto : (v : ℕ) (rest : List ℕ) → drop 16 (hex_onto 16 v rest) ≡ rest
unfolding hex_onto
drop-hex_onto v rest = refl

drop-name_onto : (k : BlockKey) → drop 32 (name_onto k) ≡ hex_onto 16 k.digest_lo []
unfolding hex_onto name_onto
drop-name_onto k = refl

length-filename : (k : BlockKey) → length (name_onto k) ≡ 48
unfolding hex_onto name_onto
length-filename k = refl

-- One word of a name, whatever follows it.
word_back : (v : ℕ) (rest : List ℕ) → v < 2 ^ 64 → parse_nibbles 16 0 (hex_onto 16 v rest) ≡ some v
unfolding parse_nibbles
word_back v rest h =
    let value : 0 + v ≡ v = omega arith in
    parse_nibbles-hex_onto 16 0 v 0 rest (omega arith) (omega arith) ∙ ap some value

abbrev key_of_words : ℕ → ℕ → ℕ → BlockKey
key_of_words tenant_hash digest_hi digest_lo = record {
  tenant_hash = tenant_hash;
  digest_hi = digest_hi;
  digest_lo = digest_lo;
}

three_words :
    (s : List ℕ) (a b c : ℕ)
    → length s ≡ 48
    → parse_nibbles 16 0 s ≡ some a
    → parse_nibbles 16 0 (drop 16 s) ≡ some b
    → parse_nibbles 16 0 (drop 32 s) ≡ some c
    → parse_filename s ≡ some (key_of_words a b c)
unfolding parse_filename
three_words s a b c long ha hb hc = rw (long, ha, hb, hc) refl

-- ParseFilename accepts the name of every key of 64-bit words, and gives that key back.
pub parse_filename-filename : (k : BlockKey) → IsKey k → parse_filename (filename k) ≡ some k
unfolding name_onto
parse_filename-filename k w =
    let low = hex_onto 16 k.digest_lo [] in
    let a = word_back k.tenant_hash (hex_onto 16 k.digest_hi low) w.tenant_hash in
    let first = drop-hex_onto k.tenant_hash (hex_onto 16 k.digest_hi low) in
    let b : parse_nibbles 16 0 (drop 16 (name_onto k)) ≡ some k.digest_hi =
      rw first (word_back k.digest_hi low w.digest_hi) in
    let c : parse_nibbles 16 0 (drop 32 (name_onto k)) ≡ some k.digest_lo =
      rw (drop-name_onto k) (word_back k.digest_lo [] w.digest_lo) in
    rw (filename-name_onto k)
      (three_words (name_onto k) k.tenant_hash k.digest_hi k.digest_lo (length-filename k) a b c)

drop_nil : (n : ℕ) → drop {A = ℕ} n [] ≡ []
drop_nil zero = refl
drop_nil (suc n) = refl

drop-drop : (n m : ℕ) (s : List ℕ) → drop n (drop m s) ≡ drop (m + n) s
drop-drop n zero s = let sum : 0 + n ≡ n = omega arith in rw sum refl
drop-drop n (suc m) [] =
    let sum : suc m + n ≡ suc (m + n) = omega arith in rw (sum, drop_nil n) refl
drop-drop n (suc m) (x ∷ s) =
    let sum : suc m + n ≡ suc (m + n) = omega arith in rw sum (drop-drop n m s)

drop_all : (n : ℕ) (s : List ℕ) → length s ≤ n → drop n s ≡ []
drop_all zero [] h = refl
drop_all zero (x ∷ s) h = absurd (omega arith)
drop_all (suc n) [] h = refl
drop_all (suc n) (x ∷ s) h = drop_all n s (omega arith)

-- A word that was read, and what follows it.
word_text :
    (s : List ℕ) (w : ℕ)
    → parse_nibbles 16 0 s ≡ some w
    → (w < 2 ^ 64) × (hex_onto 16 w (drop 16 s) ≡ s)
word_text s w h =
    let (v, lt, value, text) = hex_onto-parse_nibbles 16 0 w s h (omega arith) in
    let same : v ≡ w = omega (arith, value) in (omega (arith, lt, same), rw (sym same) text)

-- The three words of an accepted text.
parts :
    (s : List ℕ) (k : BlockKey)
    → parse_filename s ≡ some k
    → (length s ≡ 48)
      × (parse_nibbles 16 0 s ≡ some k.tenant_hash)
      × (parse_nibbles 16 0 (drop 16 s) ≡ some k.digest_hi)
      × (parse_nibbles 16 0 (drop 32 s) ≡ some k.digest_lo)
unfolding parse_filename
parts s k h = ground (arith, h)

-- What ParseFilename accepts is the name of the key it gives, letter for letter, and the fields of that key
-- are 64-bit words: there is one text to a key, in lower case and without anything before or after it.
pub filename-parse_filename :
    (s : List ℕ) (k : BlockKey) → parse_filename s ≡ some k → (filename k ≡ s) × IsKey k
unfolding name_onto
filename-parse_filename s k h =
    let (long, a, b, c) = parts s k h in
    let (word_a, text_a) = word_text s k.tenant_hash a in
    let (word_b, text_b) = word_text (drop 16 s) k.digest_hi b in
    let (word_c, text_c) = word_text (drop 32 s) k.digest_lo c in
    let middle = drop-drop 16 16 s in
    let end : drop 16 (drop 32 s) ≡ [] =
      drop_all 16 (drop 32 s) (omega (arith, length-drop 32 s, long)) in
    let low : hex_onto 16 k.digest_lo [] ≡ drop 32 s = rw (sym end) text_c in
    let high : hex_onto 16 k.digest_hi (drop 32 s) ≡ drop 16 s = rw (sym middle) text_b in
    (
      rw (filename-name_onto k, low, high) text_a,
      record { tenant_hash = word_a; digest_hi = word_b; digest_lo = word_c },
    )
