-- ===== src/IdpConversion/Mounts/Served.antt =====
-- convertIdentityProviders serves each provider that it converts from the sync data that it
-- returns, whatever the providers after it.
use cluster_authentication_o.Base.{
  ℕ, zero, suc, ◌+◌, ◌<◌, String, ◌≡◌, ◌≢◌, refl, sym, ap, ◌∙◌, arith, Option, none, some, Result,
  ok, err, wrapf, Error, List, [], ◌∷◌, ◌++◌, map, lookup, All, length, length-append,
}
use cluster_authentication_o.DataSync.SyncData.{SyncData}
use cluster_authentication_o.DataSync.Sources.{get_idp_name}
use cluster_authentication_o.IdpConversion.Types.{IdentityProvider, Environment, State}
use cluster_authentication_o.IdpConversion.Providers.{IdpData, Converted}
use cluster_authentication_o.IdpConversion.Convert.{
  default_mapping_method, default_idp_mapping_methods, convert_provider_config_to_idp_data,
  converted_of, loop_of, outcome_of, Loop, convert_step, convert_from, convert_identity_providers,
}
use cluster_authentication_o.IdpConversion.Mounts.{references, paths, ArePlaced, Serves}
use cluster_authentication_o.IdpConversion.Mounts.Names.{IsDecimal, get_idp_name_index}
use cluster_authentication_o.IdpConversion.Mounts.Keeps.{convert_lookup}
use cluster_authentication_o.IdpConversion.Mounts.Each.{keep-ArePlaced, convert-Serves}

abbrev pub get_elem? {ℓ} : {A : Type ℓ} → List A → ℕ → Option A
get_elem? [] n = none
get_elem? (x ∷ xs) zero = some x
get_elem? (x ∷ xs) (suc n) = get_elem? xs n

-- The converted provider comes from one of the providers, and its files are those of the sync data.
pub record IsServed (show : ℕ → String) (idps : List IdentityProvider) (data_ : SyncData)
    (c : Converted) : Type 0 where
  pub index : ℕ
  pub idp : IdentityProvider
  pub at : get_elem? idps index ≡ some idp
  pub named : c.name ≡ idp.name
  pub method : c.mapping_method ≡ (default_mapping_method idp).mapping_method
  pub placed : ArePlaced show data_ index (references idp.config) (paths c.provider)

All-map :
    {A : Type 0} (P Q : A → Type 0) (xs : List A) → ((x : A) → P x → Q x) → All P xs → All Q xs
All-map P Q [] f all = tt
All-map P Q (x ∷ xs) f (p, all) = (f x p, All-map P Q xs f all)

All-snoc :
    {A : Type 0} (P : A → Type 0) (xs : List A) (y : A) → All P xs → P y → All P (xs ++ y ∷ [])
All-snoc P [] y all p = (p, tt)
All-snoc P (x ∷ xs) y (q, all) p = (q, All-snoc P xs y all p)

every : {A : Type 0} (P : A → Type 0) (xs : List A) → ((x : A) → P x) → All P xs
every P [] f = tt
every P (x ∷ xs) f = (f x, every P xs f)

module _ (env : Environment) (decimal : IsDecimal env.show) (all : List IdentityProvider) where
  -- converted from a provider before the index
  abbrev IsOld : SyncData → ℕ → Converted → Type 0
  IsOld data_ i c = (served : IsServed env.show all data_ c) × (served.index < i)

  later-IsOld :
      (data_ later : SyncData) (i : ℕ)
      → ((j : ℕ) (f : String)
          → i ≢ j
          → lookup (get_idp_name env.show j f) later ≡ lookup (get_idp_name env.show j f) data_)
      → (c : Converted) → IsOld data_ i c
      → IsOld later (suc i) c
  later-IsOld data_ later i same c (served, old) = (
    record {
      index = served.index;
      idp = served.idp;
      at = served.at;
      named = served.named;
      method = served.method;
      placed =
          keep-ArePlaced env.show served.index data_ later (references served.idp.config)
            (every _ _ (λ r. same served.index r.field (λ p. ground (arith, p, old))))
            served.placed;
    },
    omega (arith, old),
  )

  loop_of-IsOld :
      (i : ℕ) (idp : IdentityProvider) (l : Loop) (s : State) (r : Result IdpData)
      → get_elem? all i ≡ some idp
      → Serves env.show i (references idp.config) (s, r)
      → All (IsOld s.sync_data (suc i)) l.converted
      → let m = loop_of (default_mapping_method idp) l s r in
        All (IsOld m.state.sync_data (suc i)) m.converted
  unfolding loop_of converted_of default_mapping_method
  loop_of-IsOld i idp l s (err e) at serves kept = kept
  loop_of-IsOld i idp l s (ok d) at serves kept =
      All-snoc (IsOld s.sync_data (suc i)) l.converted _ kept (
        record { index = i; idp = idp; at = at; named = refl; method = refl; placed = serves },
        omega arith,
      )

  step-IsOld :
      (i : ℕ) (idp : IdentityProvider) (l : Loop)
      → get_elem? all i ≡ some idp
      → All (IsOld l.state.sync_data i) l.converted
      → let m = convert_step env i (default_mapping_method idp) l in
        All (IsOld m.state.sync_data (suc i)) m.converted
  unfolding convert_step default_mapping_method
  step-IsOld i idp l at old =
      let (s, r) = convert_provider_config_to_idp_data env i idp.config l.state in
      loop_of-IsOld i idp l s r at (convert-Serves env i idp.config l.state) (
        All-map (IsOld l.state.sync_data i) (IsOld s.sync_data (suc i)) l.converted
          (later-IsOld l.state.sync_data s.sync_data i (λ j f apart.
            convert_lookup env i (get_idp_name env.show j f)
              (λ g p. apart (get_idp_name_index env.show decimal i j g f p)) l.state idp.config))
          old)

  from-IsOld :
      (rest : List IdentityProvider) (i : ℕ) (l : Loop)
      → ((n : ℕ) → get_elem? rest n ≡ get_elem? all (i + n))
      → All (IsOld l.state.sync_data i) l.converted
      → let m = convert_from env i (map default_mapping_method rest) l in
        All (IsServed env.show all m.state.sync_data) m.converted
  unfolding convert_from
  from-IsOld [] i l at old = All-map (IsOld l.state.sync_data i) _ l.converted (λ c o. o.0) old
  from-IsOld (idp ∷ rest) i l at old =
      from-IsOld rest (suc i) (convert_step env i (default_mapping_method idp) l)
        (λ n. at (suc n) ∙ ap (get_elem? all) {x = i + suc n} (omega arith))
        (step-IsOld i idp l (sym (at 0 ∙ ap (get_elem? all) {x = i + 0} (omega arith))) old)

loop_of_counts :
    (idp : IdentityProvider) (l : Loop) (s : State) (r : Result IdpData)
    → let m = loop_of idp l s r in
      length m.converted + length m.errs ≡ suc (length l.converted + length l.errs)
unfolding loop_of
loop_of_counts idp l s (ok d) = omega (arith, length-append l.converted (converted_of idp d ∷ []))
loop_of_counts idp l s (err e) =
    omega (
      arith,
      length-append l.errs (wrapf "failed to apply IDP %s config: %v" (idp.name ∷ []) e ∷ []),
    )

counted :
    (env : Environment) (rest : List IdentityProvider) (i : ℕ) (l : Loop)
    → let m = convert_from env i (map default_mapping_method rest) l in
      length m.converted + length m.errs ≡ length l.converted + length l.errs + length rest
unfolding convert_from convert_step
counted env [] i l = omega arith
counted env (idp ∷ rest) i l =
    let d = default_mapping_method idp in
    let (s, r) = convert_provider_config_to_idp_data env i d.config l.state in
    omega (arith, counted env rest (suc i) (loop_of d l s r), loop_of_counts d l s r)

-- There is one converted provider or one error for each provider. Each converted provider has the
-- name of one of the providers, its mapping method, `claim` where it has none, and one path for each
-- of its references to a secret or a config map: empty for an empty name, and otherwise the path at
-- which the volume that the returned sync data has for the reference, of its kind and source, shows
-- the key.
pub converted-IsServed {ℓ} :
    {A : Type ℓ} (to_unstructured : List Converted → Result (List A)) (env : Environment)
    (decimal : IsDecimal env.show) (idps : List IdentityProvider) (s : State)
    → (converted : List Converted) × (errs : List Error) × (later : State)
      × (convert_identity_providers to_unstructured env idps s
          ≡ outcome_of later errs (to_unstructured converted))
      × (length converted + length errs ≡ length idps)
      × All (IsServed env.show idps later.sync_data) converted
unfolding convert_identity_providers default_idp_mapping_methods
converted-IsServed to_unstructured env decimal idps s =
    let start : Loop = record {
      state = record { sync_data = []; checks = s.checks; requests = s.requests };
      converted = [];
      errs = [];
    } in
    let l = convert_from env 0 (map default_mapping_method idps) start in
    (
      l.converted,
      l.errs,
      l.state,
      refl,
      omega (arith, counted env idps 0 start),
      from-IsOld env decimal idps idps 0 start (λ n. ap (get_elem? idps) {y = 0 + n} (omega arith))
          tt,
    )
