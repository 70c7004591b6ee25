-- ===== src/Payload/Random.antt =====
-- randomString of payload_config_controller.go: random bytes as unpadded URL-safe base64. A text is
-- its bytes.
pub mod Bounds
use Prim.Native.Nat.{◌/◌, ◌%◌}
use cluster_authentication_o.Base.{
  ℕ, zero, suc, ◌+◌, ◌-◌, ◌*◌, List, [], ◌∷◌, Option, none, some, ltb, if◌then◌else◌,
}

-- the code of the character for six bits: A-Z, a-z, 0-9, `-` and `_`
unfoldable pub url_char : ℕ → ℕ
url_char n =
    if ltb n 26
    then 65 + n
    else if ltb n 52
    then 97 + (n - 26)
    else if ltb n 62
    then 48 + (n - 52)
    else if ltb n 63
    then 45
    else 95

-- base64.RawURLEncoding: EncodeToString and DecodedLen
unfoldable pub encode_to_string : List ℕ → List ℕ
encode_to_string [] = []
encode_to_string (a ∷ []) = url_char (a / 4) ∷ url_char (a % 4 * 16) ∷ []
encode_to_string (a ∷ b ∷ []) =
    url_char (a / 4) ∷ url_char (a % 4 * 16 + b / 16) ∷ url_char (b % 16 * 4) ∷ []
encode_to_string (a ∷ b ∷ c ∷ rest) =
    url_char (a / 4)
    ∷ url_char (a % 4 * 16 + b / 16)
    ∷ url_char (b % 16 * 4 + c / 64)
    ∷ url_char (c % 64)
    ∷ encode_to_string rest

unfoldable pub decoded_len : ℕ → ℕ
decoded_len n = n * 6 / 8

-- s[:size], none where it panics
unfoldable pub slice : ℕ → List ℕ → Option (List ℕ)
slice zero s = some []
slice (suc n) [] = none
slice (suc n) (c ∷ s) = elim (slice n s) [ none ↦ none | some t ↦ some (c ∷ t) ]

-- `random_bytes` fills a slice of the size; its failure panics
unfoldable pub random_string : (ℕ → List ℕ) → ℕ → Option (List ℕ)
random_string random_bytes size =
    slice size (encode_to_string (random_bytes (decoded_len size + 1)))
