-- ===== src/Generation/Expr.antt =====
-- generate.go: the search of a compiled CEL expression for a claim that it reads.
-- `Expr` is the tree of the CEL library, as the search takes it apart. A nil pointer is `nil_expr`;
-- a node with no kind, or with a nil payload, is `empty_node`.
pub mod Mentions
use cluster_authentication_o.Base.{
  String, Bool, true, false, ◌&&◌, ◌||◌, not, ◌==◌, is_empty, List, [], ◌∷◌, Option, none, some,
}

pub data Constant : Type 0 where
  string_value : String → Constant
  other_value : Constant

mutual
  pub data Expr : Type 0 where
    nil_expr empty_node : Expr
    const_expr : Constant → Expr
    ident_expr : String → Expr
    select_expr : Expr → String → Expr
    call_expr : Expr → String → Exprs → Expr
    list_expr : Exprs → Expr
    struct_expr : Entries → Expr
    comprehension_expr : Expr → Expr → Expr → Expr → Expr → Expr

  pub data Exprs : Type 0 where
    nil : Exprs
    cons : Expr → Exprs → Exprs

  -- the entries of a message or map: the key (nil for a field name) and the value
  pub data Entries : Type 0 where
    end : Entries
    entry : Expr → Expr → Entries → Entries

-- exp.GetConstExpr().GetStringValue(): empty for a constant of another kind
get_string_value : Constant → String
get_string_value (string_value s) = s
get_string_value other_value = ""

-- operators.OptSelect of the CEL library
abbrev pub opt_select : String
opt_select = "_?._"

unfoldable pub is_ident_operand : Expr → String → Bool
is_ident_operand (ident_expr name) operand = not (is_empty operand) && name == operand
is_ident_operand nil_expr operand = false
is_ident_operand _ operand = false

unfoldable pub is_const_field : Expr → String → Bool
unfolding get_string_value
is_const_field (const_expr c) field = not (is_empty field) && get_string_value c == field
is_const_field nil_expr field = false
is_const_field _ field = false

-- the test of a call: an optional select of `field`
unfoldable pub is_opt_select : Expr → String → Exprs → String → String → Bool
unfolding is_ident_operand is_const_field
is_opt_select nil_expr function (cons a (cons b nil)) operand field =
    function == opt_select && (is_ident_operand a operand && is_const_field b field)
is_opt_select _ function args operand field = false

unfoldable mutual
  unfolding is_ident_operand is_const_field is_opt_select

  pub has_select_exp : String → String → Expr → Bool
  has_select_exp operand field nil_expr = false
  has_select_exp operand field empty_node = false
  has_select_exp operand field (const_expr c) = false
  has_select_exp operand field (ident_expr name) = false
  has_select_exp operand field (select_expr e f) =
      (is_ident_operand e operand && f == field) || has_select_exp operand field e
  has_select_exp operand field (call_expr target function args) =
      is_opt_select target function args operand field
      || (has_select_any operand field args || has_select_exp operand field target)
  has_select_exp operand field (list_expr elements) = has_select_any operand field elements
  has_select_exp operand field (struct_expr entries) = has_select_entries operand field entries
  has_select_exp operand field (comprehension_expr iter_range accu_init condition step result) =
      has_select_exp operand field iter_range
      || (has_select_exp operand field accu_init
          || (has_select_exp operand field condition
              || (has_select_exp operand field step || has_select_exp operand field result)))

  pub has_select_any : String → String → Exprs → Bool
  has_select_any operand field nil = false
  has_select_any operand field (cons e es) =
      has_select_exp operand field e || has_select_any operand field es

  pub has_select_entries : String → String → Entries → Bool
  has_select_entries operand field end = false
  has_select_entries operand field (entry key value es) =
      has_select_exp operand field key
      || (has_select_exp operand field value || has_select_entries operand field es)

-- What a compilation keeps: its expression, nil where there is none.
pub record CompilationResult : Type 0 where
  pub ast : Option Expr

unfoldable pub uses_email_claim : Option Expr → Bool
unfolding has_select_exp
uses_email_claim none = false
uses_email_claim (some e) = has_select_exp "claims" "email" e

unfoldable pub uses_email_verified_claim : Option Expr → Bool
unfolding has_select_exp
uses_email_verified_claim none = false
uses_email_verified_claim (some e) = has_select_exp "claims" "email_verified" e

unfoldable pub any_uses_email_verified_claim : List CompilationResult → Bool
any_uses_email_verified_claim [] = false
any_uses_email_verified_claim (r ∷ rs) =
    uses_email_verified_claim r.ast || any_uses_email_verified_claim rs
