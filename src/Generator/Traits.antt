-- ===== src/Generator/Traits.antt =====
-- EmitTraits of urpc/generator/codegen_emit.cc.
use u_rpc.Prelude.{List, [], ◌∷◌}
use u_rpc.Prelude.Str.{Str}
use u_rpc.Generator.Model.{
  MethodModel, Piece, lit, slot, fill, MethodField, name, service_full_name, request_type,
  response_type, request_init, response_init, path, form_name, method_field,
}

unfoldable pub traits : List (Piece MethodField)
traits =
    lit "struct "
    ∷ slot name
    ∷ lit "Method {\n"
    ∷ lit "  using ReqType = "
    ∷ slot request_type
    ∷ lit ";\n"
    ∷ lit "  using ResType = "
    ∷ slot response_type
    ∷ lit ";\n"
    ∷ lit "  static constexpr ::urpc::MethodForm kForm = "
    ∷ slot form_name
    ∷ lit ";\n"
    ∷ lit "\n"
    ∷ lit "  static const char* service_name() { return \""
    ∷ slot service_full_name
    ∷ lit "\"; }\n"
    ∷ lit "  static const char* method_name() { return \""
    ∷ slot name
    ∷ lit "\"; }\n"
    ∷ lit "  static const char* path() { return \""
    ∷ slot path
    ∷ lit "\"; }\n"
    ∷ lit "\n"
    ∷ lit "  static ReqType* ParseRequest(const char* data, size_t size,\n"
    ∷ lit "                               upb_Arena* arena) {\n"
    ∷ lit "    return "
    ∷ slot request_type
    ∷ lit "_parse(data, size, arena);\n"
    ∷ lit "  }\n"
    ∷ lit "  static ResType* ParseResponse(const char* data, size_t size,\n"
    ∷ lit "                                upb_Arena* arena) {\n"
    ∷ lit "    return "
    ∷ slot response_type
    ∷ lit "_parse(data, size, arena);\n"
    ∷ lit "  }\n"
    ∷ lit "  static const upb_MiniTable* ReqTable() { return &"
    ∷ slot request_init
    ∷ lit "; }\n"
    ∷ lit "  static const upb_MiniTable* ResTable() { return &"
    ∷ slot response_init
    ∷ lit "; }\n"
    ∷ lit "};\n\n"
    ∷ []

-- EmitTraits
unfoldable pub emit_traits : MethodModel → Str
emit_traits m = fill (method_field m) traits
