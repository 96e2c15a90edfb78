-- ===== src/Ir.antt =====
-- src/ir/mod.rs: protocols, errors, validated identifiers and tool identities.
pub mod Event
pub mod Grammar
pub mod Continuity
use Prim.Native.String.{String}
use agent_response_gateway.Base.{
  ℕ, Bool, false, ◌||◌, ◌&&◌, Option, none, some, [], ◌∷◌, ltb, leb, ◌==◌, Eq, nat_eq, Text,
  Text-discrete, length, is_empty, Result, ok, err, ◌>>=◌, ◌>>◌, reject_if,
}

pub data ApiProtocol : Type 0 where
  responses messages chat_completions gemini_interactions plugin : ApiProtocol

pub data IrError : Type 0 where
  invalid_field : String → IrError
  invalid_identifier unsupported_version unsupported_feature unsupported_extension : IrError
  extension_conflict wrong_protocol unbound_opaque_state continuity_mismatch : IrError
  duplicate_id invalid_tool_mapping invalid_json_arguments invalid_event_order : IrError
  unknown_item size_limit : IrError

-- `char::is_control` on the UTF-8 bytes of a text: U+0000 to U+001F, U+007F, and U+0080 to U+009F,
-- which are written 0xC2 and a byte up to 0x9F.
c1_follows : Text → Bool
c1_follows [] = false
c1_follows (b ∷ _) = leb b 0x9f

unfoldable pub any_control : Text → Bool
unfolding c1_follows
any_control [] = false
any_control (b ∷ rest) =
    (ltb b 0x20 || b == 0x7f || (b == 0xc2 && c1_follows rest)) || any_control rest

-- `ItemId::new`, and the other constructors that the `identity!` macro writes.
unfoldable pub check_identity : Text → Result IrError (Unit {0})
unfolding any_control
check_identity value =
    reject_if (is_empty value || ltb 512 (length value) || any_control value) invalid_identifier

pub record ItemId : Type 0 where
  pub value : Text

pub record CallId : Type 0 where
  pub value : Text

pub record ResponseId : Type 0 where
  pub value : Text

unfoldable pub ItemId-discrete : Discrete ItemId
ItemId-discrete = hlevel Text-discrete

instance abbrev pub item_id_eq : Eq ItemId
item_id_eq = record { dec = ItemId-discrete }

unfoldable pub CallId-discrete : Discrete CallId
CallId-discrete = hlevel Text-discrete

instance abbrev pub call_id_eq : Eq CallId
call_id_eq = record { dec = CallId-discrete }

pub record ToolIdentity : Type 0 where
  pub namespace : Option Text
  pub name : Text

-- `ToolIdentity::validate`: the name first, then the namespace if there is one.
validate_namespace : Option Text → Result IrError (Unit {0})
validate_namespace none = ok tt
validate_namespace (some value) = check_identity value

unfoldable pub validate_tool : ToolIdentity → Result IrError (Unit {0})
unfolding check_identity validate_namespace
validate_tool tool = do check_identity tool.name; validate_namespace tool.namespace

-- `ItemId::new` and `ToolIdentity::new`.
unfoldable pub new_item_id : Text → Result IrError ItemId
unfolding check_identity
new_item_id text = do check_identity text; ok (record { value = text })

unfoldable pub new_tool : Option Text → Text → Result IrError ToolIdentity
unfolding validate_tool
new_tool namespace name =
    let tool : ToolIdentity = record { namespace = namespace; name = name } in
    do validate_tool tool; ok tool

pub data ToolKind : Type 0 where
  function custom : ToolKind
