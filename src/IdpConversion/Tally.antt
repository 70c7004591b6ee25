-- ===== src/IdpConversion/Tally.antt =====
-- A text for each index, for the examples: as many strokes as the index says.
use Prim.Native.String.{[], ◌∷◌}
use text.Mathlib.TextLemmas.{tail-eq_of_cons-eq, nil≢cons, cons≢nil}
use cluster_authentication_o.Base.{ℕ, zero, suc, String, ◌≡◌, refl, ap, false}
use cluster_authentication_o.IdpConversion.Mounts.Names.{IsDecimal, has_dash}

abbrev pub tally : ℕ → String
tally zero = []
tally (suc n) = "1" ∷ tally n

tally-no_dash : (n : ℕ) → has_dash (tally n) ≡ false
tally-no_dash zero = refl
tally-no_dash (suc n) = tally-no_dash n

tally-injective : (m n : ℕ) → tally m ≡ tally n → m ≡ n
tally-injective zero zero p = refl
tally-injective zero (suc n) p = absurd (nil≢cons p)
tally-injective (suc m) zero p = absurd (cons≢nil p)
tally-injective (suc m) (suc n) p = ap suc (tally-injective m n (tail-eq_of_cons-eq p))

pub tally-IsDecimal : IsDecimal tally
tally-IsDecimal = record { no_dash = tally-no_dash; injective = tally-injective }
