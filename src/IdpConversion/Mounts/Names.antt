-- ===== src/IdpConversion/Mounts/Names.antt =====
-- The names that getIDPName of pkg/operator/datasync/syncdata.go gives to the secrets and config
-- maps: a dash ends the index, whose text has none.
use Prim.Native.Char.{code}
use Prim.Native.String.{[], ◌∷◌}
use text.Mathlib.TextLemmas.{append_cancel_left, nil-append, cons-append}
use cluster_authentication_o.Base.{
  ℕ, String, ◌<>◌, ◌≡◌, sym, ap, ◌∙◌, Bool, true, false, ◌||◌, eqb, arith, Bool-cases, inl, inr,
}
use cluster_authentication_o.DataSync.Sources.{get_idp_name}

abbrev pub has_dash : String → Bool
has_dash [] = false
has_dash (c ∷ s) = eqb (code c) 45 || has_dash s

abbrev before_dash : String → String
before_dash [] = []
before_dash (c ∷ s) = elim (eqb (code c) 45) [ true ↦ [] | false ↦ c ∷ before_dash s ]

before_dash-append : (s t : String) → has_dash s ≡ false → before_dash (s <> ("-" <> t)) ≡ s
before_dash-append [] t h = ap before_dash (nil-append ("-" <> t) ∙ cons-append "-" [] t)
before_dash-append (c ∷ s) t h = elim (Bool-cases (eqb (code c) 45)) [
  | inl p ↦ absurd (ground (arith, p, h))
  | inr p ↦
      ap before_dash (cons-append c s ("-" <> t))
      ∙ rw (p, before_dash) (ap (λ x. c ∷ x) (before_dash-append s t (ground (arith, p, h))))
]

-- What strconv promises of the decimal text of an index.
pub record IsDecimal (show : ℕ → String) : Type 0 where
  pub no_dash : (i : ℕ) → has_dash (show i) ≡ false
  pub injective : (i j : ℕ) → show i ≡ show j → i ≡ j

module _ (show : ℕ → String) (decimal : IsDecimal show) (i j : ℕ) (f g : String) where
  pub get_idp_name_index : get_idp_name show i f ≡ get_idp_name show j g → i ≡ j
  unfolding get_idp_name
  get_idp_name_index p =
      let tails = append_cancel_left "v4-0-config-user-idp-" _ _ p in
      decimal.injective i j (
        sym (before_dash-append (show i) f (decimal.no_dash i))
        ∙ ap before_dash tails
        ∙ before_dash-append (show j) g (decimal.no_dash j))

pub get_idp_name_field :
    (show : ℕ → String) (i : ℕ) (f g : String)
    → get_idp_name show i f ≡ get_idp_name show i g
    → f ≡ g
unfolding get_idp_name
get_idp_name_field show i f g p =
    append_cancel_left "-" f g
      (append_cancel_left (show i) _ _ (append_cancel_left "v4-0-config-user-idp-" _ _ p))
