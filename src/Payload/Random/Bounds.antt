-- ===== src/Payload/Random/Bounds.antt =====
-- The lengths and the characters of the random texts.
use Prim.Native.Nat.{◌/◌, ◌%◌}
use cluster_authentication_o.Base.{
  ℕ, zero, suc, ◌+◌, ◌*◌, ◌≤◌, ◌≡◌, refl, arith, List, [], ◌∷◌, some, length, All, Bool, true, ◌&&◌,
  ◌||◌, leb, eqb,
}
use cluster_authentication_o.Payload.Random.{
  url_char, encode_to_string, decoded_len, slice, random_string,
}

-- the length of the unpadded encoding
abbrev encoded_len : ℕ → ℕ
encoded_len n = n / 3 * 4 + (n % 3 * 8 + 5) / 6

length-encode_to_string :
    (bytes : List ℕ) → length (encode_to_string bytes) ≡ encoded_len (length bytes)
unfolding encode_to_string
length-encode_to_string [] = omega arith
length-encode_to_string (a ∷ []) = omega arith
length-encode_to_string (a ∷ b ∷ []) = omega arith
length-encode_to_string (a ∷ b ∷ c ∷ rest) = omega (arith, length-encode_to_string rest)

encoded_len_enough : (size : ℕ) → size ≤ encoded_len (size * 6 / 8 + 1)
encoded_len_enough size = omega arith

-- A character of the URL-safe alphabet: a letter, a digit, a dash or an underscore.
abbrev pub is_url_safe : ℕ → Bool
is_url_safe c =
    leb 65 c && leb c 90
    || (leb 97 c && leb c 122 || (leb 48 c && leb c 57 || (eqb c 45 || eqb c 95)))

url_char_safe : (n : ℕ) → is_url_safe (url_char n) ≡ true
unfolding url_char
url_char_safe n = ground arith

abbrev Safe : List ℕ → Type 0
Safe = All (λ c. is_url_safe c ≡ true)

encode-Safe : (bytes : List ℕ) → Safe (encode_to_string bytes)
unfolding encode_to_string
encode-Safe [] = tt
encode-Safe (a ∷ []) = (url_char_safe _, (url_char_safe _, tt))
encode-Safe (a ∷ b ∷ []) = (url_char_safe _, (url_char_safe _, (url_char_safe _, tt)))
encode-Safe (a ∷ b ∷ c ∷ rest) =
    (url_char_safe _, (url_char_safe _, (url_char_safe _, (url_char_safe _, encode-Safe rest))))

slice_within :
    (size : ℕ) (s : List ℕ)
    → size ≤ length s
    → Safe s
    → (t : List ℕ) × (slice size s ≡ some t) × (length t ≡ size) × Safe t
unfolding slice
slice_within zero s le safe = ([], refl, refl, tt)
slice_within (suc n) [] le safe = absurd (omega (arith, le))
slice_within (suc n) (c ∷ s) le (first, safe) =
    let (t, p, q, rest) = slice_within n s (omega (arith, le)) safe in
    (c ∷ t, ground (arith, p), omega (arith, q), (first, rest))

-- Where the reader fills its slice, the random text of any size is made without a slice out of
-- range, has exactly that many characters, and each is a letter, a digit, a dash or an underscore.
pub random_string_bounds :
    (random_bytes : ℕ → List ℕ)
    → ((n : ℕ) → length (random_bytes n) ≡ n)
    → (size : ℕ)
    → (t : List ℕ) × (random_string random_bytes size ≡ some t)
      × (length t ≡ size)
      × All (λ c. is_url_safe c ≡ true) t
unfolding random_string decoded_len
random_string_bounds random_bytes full size =
    let bytes = random_bytes (size * 6 / 8 + 1) in
    slice_within size (encode_to_string bytes)
      (omega (arith, length-encode_to_string bytes, full (size * 6 / 8 + 1))) (encode-Safe bytes)
