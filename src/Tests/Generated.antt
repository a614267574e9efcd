-- ===== src/Tests/Generated.antt =====
-- The generator at concrete descriptors.
use u_rpc.Prelude.{
  ℕ, ◌+◌, ◌≤◌, ◌≡◌, refl, true, some, List, [], ◌∷◌, map, length, take, ltb, ltb→lt, arith,
}
use u_rpc.Prelude.Str.{Str, codes}
use u_rpc.Generator.Model.{cpp_type_of, msg_init_of, fill, file_field, method_field, service_field}
use u_rpc.Generator.Traits.{traits, emit_traits}
use u_rpc.Generator.Methods.{interface_method, proxy_method}
use u_rpc.Generator.Calls.{register_method}
use u_rpc.Generator.Services.{
  each_method, spaced_methods, interface_head, interface_table, table_row, interface_end,
  emit_interface, proxy_head, proxy_end, emit_proxy, register_head, register_end, emit_register,
  emit_traits_into,
}
use u_rpc.Generator.Files.{
  emit_header, header_head, open_namespaces, close_namespaces, emit_services, emit_service,
}
use u_rpc.Generator.Plugin.{
  FileDescriptor, file_model_of, service_model_of, method_model_of, write_output, header_name,
  source_name, generate,
}
use u_rpc.Generator.Braces.{walk, is_plain}
use u_rpc.Generator.Namespaces.{dots}
use u_rpc.Generator.Names.{dots_of_names}
use u_rpc.Generator.Output.{room_of, write_output_whole}
use u_rpc.Generator.Plain.{IsPlainDescriptor, first_text, generate_balanced}

dots_of_names_example :
    (dots (cpp_type_of (codes "a.b.Note")) ≡ 0)
    × (dots (msg_init_of (codes "a.b") (codes "a.b.Note")) ≡ dots (codes "a.b"))
dots_of_names_example = dots_of_names (codes "a.b") (codes "a.b.Note")

dotted_symbol : msg_init_of (codes "a.b") (codes "a.b.Note.Part") ≡ codes "a.b__Note_Part_msg_init"
unfolding msg_init_of
dotted_symbol = refl

write_output_whole_example :
    ((write_output (3 ∷ 4 ∷ 9 ∷ []) (codes "hello")).0 ≡ codes "hello")
    × ((k : ℕ) × (room_of (take k (3 ∷ 4 ∷ 9 ∷ []))
          ≡ length (codes "hello") + (write_output (3 ∷ 4 ∷ 9 ∷ []) (codes "hello")).1))
unfolding room_of
write_output_whole_example =
    write_output_whole (3 ∷ 4 ∷ 9 ∷ []) (codes "hello") (omega arith) (omega arith)

abbrev echo_proto : FileDescriptor
echo_proto = record {
  name = codes "echo.proto";
  pkg = codes "demo.v1";
  services =
      (record {
        name = codes "Chat";
        full_name = codes "demo.v1.Chat";
        methods =
            (record {
              name = codes "Talk";
              input_type = codes "demo.v1.Line";
              output_type = codes "demo.v1.Line";
              client_streaming = true;
              server_streaming = true;
            })
            ∷ [];
      })
      ∷ [];
}

abbrev wide : Str → List ℕ
wide file = 65536 ∷ []

echo_fits : ltb (length (emit_header (file_model_of echo_proto))) 65536 ≡ true
unfolding emit_header fill header_head file_field file_model_of service_model_of method_model_of
    open_namespaces close_namespaces emit_services emit_service emit_traits_into emit_traits traits
    method_field service_field emit_interface emit_proxy emit_register each_method spaced_methods
    interface_head interface_table interface_end table_row interface_method proxy_head proxy_end
    proxy_method register_head register_end register_method
echo_fits = refl

echo_room : length (emit_header (file_model_of echo_proto)) ≤ 65536 + 0
echo_room =
    let h = ltb→lt (length (emit_header (file_model_of echo_proto))) 65536 echo_fits in omega arith

echo_plain : IsPlainDescriptor echo_proto
unfolding is_plain
echo_plain = record {
  name = refl;
  pkg = refl;
  services = (
    record {
      name = refl;
      full_name = refl;
      methods = (record { name = refl; input = refl; output = refl }, tt);
    },
    tt,
  );
}

generate_balanced_example :
    ((generate wide echo_proto).success ≡ true)
    × (map (λ (file : Str × Str). file.0) (generate wide echo_proto).files
        ≡ header_name echo_proto ∷ source_name echo_proto ∷ [])
    × (walk (first_text (generate wide echo_proto).files) 0 ≡ some 0)
unfolding room_of
generate_balanced_example =
    generate_balanced wide echo_proto echo_plain refl refl (omega arith, tt) echo_room
