-- ===== src/Generation/Expr/Mentions.antt =====
-- The search against a description of what it looks for: a node of the expression, at any depth,
-- that selects the field of the operand.
use mathlib.Core.Path.{subst}
use cluster_authentication_o.Base.{
  String, ◌≡◌, refl, ap, ◌↔◌, ◌⊎◌, inl, inr, Bool, true, false, ◌||◌, ◌&&◌, ◌==◌, arith, eq_iff,
  eq_refl, is_empty,
}
use cluster_authentication_o.Generation.Expr.{
  string_value, other_value, Expr, Exprs, Entries, nil_expr, empty_node, const_expr, ident_expr,
  select_expr, call_expr, list_expr, struct_expr, comprehension_expr, nil, cons, end, entry,
  opt_select, is_ident_operand, is_const_field, is_opt_select, has_select_exp, has_select_any,
  has_select_entries,
}

-- A node that selects `field` of the variable `operand`, plainly or by the optional select.
pub data Selects (operand field : String) : Expr → Type 0 where
  plain : Selects operand field (select_expr (ident_expr operand) field)
  optional : Selects operand field (
      call_expr nil_expr opt_select
        (cons (ident_expr operand) (cons (const_expr (string_value field)) nil)))

pub data InExprs (e : Expr) : Exprs → Type 0 where
  first : {x : Expr} {xs : Exprs} → x ≡ e → InExprs e (cons x xs)
  later : {x : Expr} {xs : Exprs} → InExprs e xs → InExprs e (cons x xs)

pub data InEntries (e : Expr) : Entries → Type 0 where
  key : {k v : Expr} {es : Entries} → k ≡ e → InEntries e (entry k v es)
  value : {k v : Expr} {es : Entries} → v ≡ e → InEntries e (entry k v es)
  later : {k v : Expr} {es : Entries} → InEntries e es → InEntries e (entry k v es)

-- The expressions directly below a node.
pub data Child (c : Expr) : Expr → Type 0 where
  operand : {e : Expr} {f : String} → e ≡ c → Child c (select_expr e f)
  target : {t : Expr} {f : String} {args : Exprs} → t ≡ c → Child c (call_expr t f args)
  argument : {t : Expr} {f : String} {args : Exprs} → InExprs c args → Child c (call_expr t f args)
  element : {es : Exprs} → InExprs c es → Child c (list_expr es)
  in_entry : {es : Entries} → InEntries c es → Child c (struct_expr es)
  iter_range : {a b d e f : Expr} → a ≡ c → Child c (comprehension_expr a b d e f)
  accu_init : {a b d e f : Expr} → b ≡ c → Child c (comprehension_expr a b d e f)
  loop_condition : {a b d e f : Expr} → d ≡ c → Child c (comprehension_expr a b d e f)
  loop_step : {a b d e f : Expr} → e ≡ c → Child c (comprehension_expr a b d e f)
  result : {a b d e f : Expr} → f ≡ c → Child c (comprehension_expr a b d e f)

-- The expression mentions the field: the node itself selects it, or a node below does.
pub data Mentions (op field : String) : Expr → Type 0 where
  here : {e : Expr} → Selects op field e → Mentions op field e
  below : {c e : Expr} → Mentions op field c → Child c e → Mentions op field e

module _ (op field : String) (op_named : is_empty op ≡ false)
    (field_named : is_empty field ≡ false) where
  found : {e : Expr} → Selects op field e → has_select_exp op field e ≡ true
  unfolding has_select_exp
  found plain = ground (arith, eq_refl op, eq_refl field)
  found optional = ground (arith, eq_refl op, eq_refl field, eq_refl opt_select)

  found-InExprs :
      {c : Expr} {es : Exprs}
      → InExprs c es
      → has_select_exp op field c ≡ true
      → has_select_any op field es ≡ true
  unfolding has_select_any
  found-InExprs (first e) h = ground arith
  found-InExprs (later i) h = ground (arith, found-InExprs i h)

  found-InEntries :
      {c : Expr} {es : Entries}
      → InEntries c es
      → has_select_exp op field c ≡ true
      → has_select_entries op field es ≡ true
  unfolding has_select_entries
  found-InEntries (key e) h = ground arith
  found-InEntries (value e) h = ground arith
  found-InEntries (later i) h = ground (arith, found-InEntries i h)

  found_above :
      {c e : Expr} → Child c e → has_select_exp op field c ≡ true → has_select_exp op field e ≡ true
  unfolding has_select_exp
  found_above (operand p) h = ground arith
  found_above (target p) h = ground arith
  found_above (argument i) h = ground (arith, found-InExprs i h)
  found_above (element i) h = ground (arith, found-InExprs i h)
  found_above (in_entry i) h = ground (arith, found-InEntries i h)
  found_above (iter_range p) h = ground arith
  found_above (accu_init p) h = ground arith
  found_above (loop_condition p) h = ground arith
  found_above (loop_step p) h = ground arith
  found_above (result p) h = ground arith

  -- The search finds every mention.
  Mentions-has_select : {e : Expr} → Mentions op field e → has_select_exp op field e ≡ true
  Mentions-has_select (here s) = found s
  Mentions-has_select (below m c) = found_above c (Mentions-has_select m)

or_cases : (a b : Bool) → (a || b) ≡ true → (a ≡ true) ⊎ (b ≡ true)
or_cases a b h = ground arith

-- What the two tests accept, as equations.
ident_operand_lem : (e : Expr) (op : String) → is_ident_operand e op ≡ true → e ≡ ident_expr op
unfolding is_ident_operand
ident_operand_lem (ident_expr name) op h = ground (arith, eq_iff name op)
ident_operand_lem nil_expr op h = ground arith
ident_operand_lem _ op h = ground arith

const_field_lem :
    (e : Expr) (field : String)
    → is_const_field e field ≡ true
    → e ≡ const_expr (string_value field)
unfolding is_const_field
const_field_lem (const_expr (string_value s)) field h = ground (arith, eq_iff s field)
const_field_lem (const_expr other_value) String.[] h = ground arith
const_field_lem (const_expr other_value) (String.◌∷◌ c s) h =
    ground
      (arith, λ (e : ("" == String.◌∷◌ c s) ≡ true). ap is_empty ((eq_iff "" (String.◌∷◌ c s)).0 e))
const_field_lem nil_expr field h = ground arith
const_field_lem _ field h = ground arith

opt_select_lem :
    (t : Expr) (function : String) (args : Exprs) (op field : String)
    → is_opt_select t function args op field ≡ true
    → Selects op field (call_expr t function args)
unfolding is_opt_select
opt_select_lem nil_expr function (cons a (cons b nil)) op field h =
    subst (Selects op field)
      (ground (arith, eq_iff function opt_select, ident_operand_lem a op, const_field_lem b field))
      optional
opt_select_lem nil_expr _ _ op field h = ground arith
opt_select_lem _ _ _ op field h = ground arith

plain_select_lem :
    (e : Expr) (f op field : String)
    → (is_ident_operand e op && f == field) ≡ true
    → Selects op field (select_expr e f)
plain_select_lem e f op field h =
    subst (Selects op field) (ground (arith, eq_iff f field, ident_operand_lem e op)) plain

-- Where the search ends: a mention in one of the arguments, elements or entries.
abbrev InSome : (op field : String) → Exprs → Type 0
InSome op field es = (c : Expr) × InExprs c es × Mentions op field c

abbrev InEntry : (op field : String) → Entries → Type 0
InEntry op field es = (c : Expr) × InEntries c es × Mentions op field c

mutual
  unfolding has_select_exp

  has_select_sound :
      (op field : String) (e : Expr) → has_select_exp op field e ≡ true → Mentions op field e
  has_select_sound op field nil_expr h = ground arith
  has_select_sound op field empty_node h = ground arith
  has_select_sound op field (const_expr c) h = ground arith
  has_select_sound op field (ident_expr n) h = ground arith
  has_select_sound op field (select_expr e f) h = elim (or_cases _ _ h) [
    | inl p ↦ here (plain_select_lem e f op field p)
    | inr q ↦ below (has_select_sound op field e q) (operand refl)
  ]
  has_select_sound op field (call_expr t f args) h = elim (or_cases _ _ h) [
    | inl p ↦ here (opt_select_lem t f args op field p)
    | inr q ↦ elim (or_cases _ _ q) [
      | inl r ↦ let (c, i, m) = has_any_sound op field args r in below m (argument i)
      | inr r ↦ below (has_select_sound op field t r) (target refl)
    ]
  ]
  has_select_sound op field (list_expr es) h =
      let (c, i, m) = has_any_sound op field es h in below m (element i)
  has_select_sound op field (struct_expr es) h =
      let (c, i, m) = has_entries_sound op field es h in below m (in_entry i)
  has_select_sound op field (comprehension_expr a b c d e) h = elim (or_cases _ _ h) [
    | inl p ↦ below (has_select_sound op field a p) (iter_range refl)
    | inr q ↦ elim (or_cases _ _ q) [
      | inl p ↦ below (has_select_sound op field b p) (accu_init refl)
      | inr r ↦ elim (or_cases _ _ r) [
        | inl p ↦ below (has_select_sound op field c p) (loop_condition refl)
        | inr s ↦ elim (or_cases _ _ s) [
          | inl p ↦ below (has_select_sound op field d p) (loop_step refl)
          | inr p ↦ below (has_select_sound op field e p) (result refl)
        ]
      ]
    ]
  ]

  has_any_sound :
      (op field : String) (es : Exprs) → has_select_any op field es ≡ true → InSome op field es
  has_any_sound op field nil h = ground arith
  has_any_sound op field (cons e es) h = elim (or_cases _ _ h) [
    | inl p ↦ (e, first refl, has_select_sound op field e p)
    | inr q ↦ let (c, i, m) = has_any_sound op field es q in (c, later i, m)
  ]

  has_entries_sound :
      (op field : String) (es : Entries)
      → has_select_entries op field es ≡ true
      → InEntry op field es
  has_entries_sound op field end h = ground arith
  has_entries_sound op field (entry k v es) h = elim (or_cases _ _ h) [
    | inl p ↦ (k, key refl, has_select_sound op field k p)
    | inr q ↦ elim (or_cases _ _ q) [
      | inl p ↦ (v, value refl, has_select_sound op field v p)
      | inr r ↦ let (c, i, m) = has_entries_sound op field es r in (c, later i, m)
    ]
  ]

-- For a named operand and field, the search answers true exactly when the expression mentions the
-- field: some node of it, at any depth, selects the field of that variable, plainly or by the
-- optional select.
pub has_select-Mentions :
    (op field : String)
    → is_empty op ≡ false
    → is_empty field ≡ false
    → (e : Expr) → (has_select_exp op field e ≡ true) ↔ Mentions op field e
has_select-Mentions op field p q e = (has_select_sound op field e, Mentions-has_select op field p q)
