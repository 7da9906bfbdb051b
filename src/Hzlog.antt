-- ===== src/Hzlog.antt =====
-- pkg/common/hzlog: the handler that filters the records of the infrastructure, and `Build`
-- (build.go); the attributes of a context (ctx.go). The handler behind it, zap and the identifiers of
-- a trace are parameters.
pub mod Config
pub mod Filter
pub mod Build
use Prim.Native.Char.{code}
use Prim.Native.String
use govnilo.Prelude.{
  ℕ, ℤ, pos, negsuc, ltb, ◌==◌, nat_eq, string_eq, Bool, true, false, not, ◌&&◌, ◌||◌,
  if◌then◌else◌, List, [], ◌∷◌, ◌++◌, Option, none, some, String,
}
use Config.{LoggingConfig, InfraFilter}

-- The value of a `slog.Attr` is a string or of another kind.
pub data Kind : Type 0 where
  text : String → Kind
  other : Kind

pub record Attr : Type 0 where
  pub key : String
  pub value : Kind

pub record Record : Type 0 where
  pub level : ℤ
  pub attrs : List Attr

-- `strings.HasPrefix(s, prefix)`
unfoldable pub has_prefix : String → String → Bool
has_prefix String.[] s = true
has_prefix (String.◌∷◌ c p) String.[] = false
has_prefix (String.◌∷◌ c p) (String.◌∷◌ d s) = let rest = has_prefix p s in code c == code d && rest

abbrev pub infra_prefix : String → Bool
infra_prefix s = has_prefix "infra:" s

abbrev pub string_or_empty : Kind → String
string_or_empty (text s) = s
string_or_empty other = ""

-- The first attribute "component"; one that is no string reads as empty.
unfoldable pub get_component : List Attr → Option String
get_component [] = none
get_component (a ∷ attrs) =
    if a.key == "component" then some (string_or_empty a.value) else get_component attrs

abbrev pub infra_kind : Kind → Bool
infra_kind (text s) = infra_prefix s
infra_kind other = false

unfoldable pub is_infra_component_attr : Attr → Bool
is_infra_component_attr a = a.key == "component" && infra_kind a.value

-- The loop over attributes, which stops at the first of the infrastructure.
unfoldable pub any_infra : List Attr → Bool
unfolding is_infra_component_attr
any_infra [] = false
any_infra (a ∷ attrs) = is_infra_component_attr a || any_infra attrs

-- `<` on levels.
unfoldable pub below : ℤ → ℤ → Bool
below (pos a) (pos b) = ltb a b
below (pos a) (negsuc b) = false
below (negsuc a) (pos b) = true
below (negsuc a) (negsuc b) = ltb b a

-- The handler behind, `slog.Handler`.
pub record Inner (H : Type 0) : Type 0 where
  pub with_attrs : List Attr → H → H
  pub with_group : String → H → H

pub record Handler (H : Type 0) : Type 0 where
  pub filter : InfraFilter
  pub has_infra_component : Bool
  pub handler : H

module _ {H : Type 0} where
  abbrev pub new_handler : LoggingConfig → H → Handler H
  new_handler c h = record { filter = c.infra; has_infra_component = false; handler = h }

  -- `Handle`: the record that the handler behind gets, if it gets one. `attrs` are the context's.
  unfoldable pub handle : Handler H → List Attr → Record → Option Record
  unfolding any_infra below
  handle h attrs r =
      let infra = (h.has_infra_component || any_infra r.attrs) || any_infra attrs in
      if infra && not h.filter.enabled
      then none
      else if infra && below r.level h.filter.level
      then none
      else some (record r { attrs = r.attrs ++ attrs })

  module _ (inner : Inner H) where
    unfoldable pub with_attrs : List Attr → Handler H → Handler H
    unfolding get_component
    with_attrs attrs h = record {
      filter = h.filter;
      has_infra_component = elim (get_component attrs) [
        | none ↦ h.has_infra_component
        | some c ↦ infra_prefix c
      ];
      handler = inner.with_attrs attrs h.handler;
    }

    unfoldable pub with_group : String → Handler H → Handler H
    with_group name h = record h { handler = inner.with_group name h.handler }

    -- `GetLogger`: the attributes of the context, and the identifiers of its trace if it has them.
    unfoldable pub id_attr : String → Option String → List Attr
    id_attr key none = []
    id_attr key (some id) = record { key = key; value = text id } ∷ []

    unfoldable pub with_any : List Attr → Handler H → Handler H
    unfolding with_attrs
    with_any [] h = h
    with_any (a ∷ attrs) h = with_attrs (a ∷ attrs) h

    unfoldable pub get_logger : List Attr → Option String → Option String → Handler H → Handler H
    unfolding id_attr with_any
    get_logger attrs span trace h =
        with_any ((attrs ++ id_attr "span_id" span) ++ id_attr "trace_id" trace) h

-- `ContextWith`
unfoldable pub context_with : List Attr → List Attr → List Attr
context_with old attrs = old ++ attrs

-- `InjectRequestIDToLogContext`: the handler runs with the id of the request among the attributes.
unfoldable pub inject_request_id : {A : Type 0} → (List Attr → A) → String → List Attr → A
unfolding context_with
inject_request_id h request_id attrs =
    h (context_with attrs (record { key = "request_id"; value = text request_id } ∷ []))
