-- ===== src/Generator/Services.antt =====
-- The texts of a service around those of its methods: EmitInterface, EmitProxy and EmitRegister of
-- urpc/generator/codegen_emit.cc.
use u_rpc.Prelude.{List, [], ◌∷◌, ◌++◌}
use u_rpc.Prelude.Str.{Str}
use u_rpc.Generator.Model.{
  MethodModel, ServiceModel, MethodForm, Piece, lit, slot, fill, MethodField, method_field,
  ServiceField, service_field, short_name, full_name, newline, name, path, form_name,
}
use u_rpc.Generator.Methods.{interface_method, proxy_method}
use u_rpc.Generator.Calls.{register_method}
use u_rpc.Generator.Traits.{emit_traits}

-- One text for each method.
unfoldable pub each_method : (MethodForm → List (Piece MethodField)) → List MethodModel → Str
each_method t [] = []
each_method t (m ∷ ms) = fill (method_field m) (t m.form) ++ each_method t ms

-- The same with an empty line between two of them.
unfoldable pub spaced_methods : (MethodForm → List (Piece MethodField)) → List MethodModel → Str
spaced_methods t [] = []
spaced_methods t (m ∷ []) = fill (method_field m) (t m.form)
spaced_methods t (m ∷ n ∷ ms) =
    fill (method_field m) (t m.form) ++ (newline ++ spaced_methods t (n ∷ ms))

unfoldable pub interface_head : List (Piece ServiceField)
interface_head =
    lit "// Server-side pure virtual interface for "
    ∷ slot full_name
    ∷ lit ".\n"
    ∷ lit "// Inherit and override to implement the service; methods left\n"
    ∷ lit "// unoverridden answer UNIMPLEMENTED (FR-004).\n"
    ∷ lit "class "
    ∷ lit "I"
    ∷ slot short_name
    ∷ lit " {\n"
    ∷ lit " public:\n"
    ∷ lit "  "
    ∷ lit "I"
    ∷ slot short_name
    ∷ lit "() = default;\n"
    ∷ lit "  virtual ~"
    ∷ lit "I"
    ∷ slot short_name
    ∷ lit "() = default;\n"
    ∷ lit "  "
    ∷ lit "I"
    ∷ slot short_name
    ∷ lit "(const "
    ∷ lit "I"
    ∷ slot short_name
    ∷ lit "&) = delete;\n"
    ∷ lit "  "
    ∷ lit "I"
    ∷ slot short_name
    ∷ lit "& operator=(const "
    ∷ lit "I"
    ∷ slot short_name
    ∷ lit "&) = delete;\n"
    ∷ lit "\n"
    ∷ []

unfoldable pub interface_table : List (Piece ServiceField)
interface_table =
    lit "\n"
    ∷ lit "  // Method table: mirrors the .proto service definition\n"
    ∷ lit "  // (registration + contract tests; declaration order preserved).\n"
    ∷ lit "  static constexpr ::urpc::MethodDescriptor kMethods[] = {\n"
    ∷ []

-- A row of kMethods.
unfoldable pub table_row : MethodForm → List (Piece MethodField)
table_row form =
    lit "      {\""
    ∷ slot name
    ∷ lit "\", \""
    ∷ slot path
    ∷ lit "\", "
    ∷ slot form_name
    ∷ lit "},\n"
    ∷ []

unfoldable pub interface_end : List (Piece ServiceField)
interface_end = lit "  };\n" ∷ lit "};\n\n" ∷ []

-- EmitInterface
unfoldable pub emit_interface : ServiceModel → Str
emit_interface s =
    fill (service_field s) interface_head
    ++ (spaced_methods interface_method s.methods
        ++ (fill (service_field s) interface_table
            ++ (each_method table_row s.methods ++ fill (service_field s) interface_end)))

unfoldable pub proxy_head : List (Piece ServiceField)
proxy_head =
    lit "// Client-side proxy for "
    ∷ slot full_name
    ∷ lit " (inherits the\n"
    ∷ lit "// same interface; the typed members below are the client calling\n"
    ∷ lit "// surface - no connection-management members).\n"
    ∷ lit "class "
    ∷ slot short_name
    ∷ lit "Proxy"
    ∷ lit " : public I"
    ∷ slot short_name
    ∷ lit " {\n"
    ∷ lit " public:\n"
    ∷ lit "  explicit "
    ∷ slot short_name
    ∷ lit "Proxy"
    ∷ lit "(const std::shared_ptr<::urpc::Channel>& channel)\n"
    ∷ lit "      : channel_(channel) {}\n"
    ∷ lit "  explicit "
    ∷ slot short_name
    ∷ lit "Proxy"
    ∷ lit "(const std::weak_ptr<::urpc::Channel>& channel)\n"
    ∷ lit "      : channel_(channel) {}\n"
    ∷ lit "  explicit "
    ∷ slot short_name
    ∷ lit "Proxy"
    ∷ lit "(const ::urpc::Client& client)\n"
    ∷ lit "      : channel_(client.channel_ref()) {}\n"
    ∷ lit "\n"
    ∷ []

unfoldable pub proxy_end : List (Piece ServiceField)
proxy_end =
    lit "\n"
    ∷ lit " private:\n"
    ∷ lit "  std::weak_ptr<::urpc::Channel> channel_;\n"
    ∷ lit "};\n\n"
    ∷ []

-- EmitProxy
unfoldable pub emit_proxy : ServiceModel → Str
emit_proxy s =
    fill (service_field s) proxy_head
    ++ (spaced_methods proxy_method s.methods ++ fill (service_field s) proxy_end)

unfoldable pub register_head : List (Piece ServiceField)
register_head =
    lit "// Registers every method of `impl` on `server`: one call publishes\n"
    ∷ lit "// the whole service. Fails when the service name is already\n"
    ∷ lit "// registered. Handler exceptions are contained per call\n"
    ∷ lit "// (INTERNAL to that call; the server stays alive).\n"
    ∷ lit "inline ::urpc::Status RegisterService(::urpc::Server& server, I"
    ∷ slot short_name
    ∷ lit "& impl) {\n"
    ∷ lit "  ::urpc::Status st;\n"
    ∷ []

unfoldable pub register_end : List (Piece ServiceField)
register_end = lit "  return ::urpc::Status::Ok();\n" ∷ lit "}\n\n" ∷ []

-- EmitRegister
unfoldable pub emit_register : ServiceModel → Str
emit_register s =
    fill (service_field s) register_head
    ++ (each_method register_method s.methods ++ fill (service_field s) register_end)

-- EmitTraitsInto
unfoldable pub emit_traits_into : List MethodModel → Str
emit_traits_into [] = []
emit_traits_into (m ∷ ms) = emit_traits m ++ emit_traits_into ms
