-- ===== src/Generator/Files.antt =====
-- The two files that are generated: OpenNamespaces, CloseNamespaces, EmitHeader and EmitSource of
-- urpc/generator/codegen_emit.cc.
use u_rpc.Prelude.{ℕ, zero, suc, List, [], ◌∷◌, ◌++◌, ◌==◌, if◌then◌else◌}
use u_rpc.Prelude.Str.{Str, codes}
use u_rpc.Generator.Model.{
  ServiceModel, FileModel, Piece, lit, slot, fill, FileField, source_file, base, file_field,
  newline,
}
use u_rpc.Generator.Services.{emit_traits_into, emit_interface, emit_proxy, emit_register}

abbrev pub opened : Str → Str
opened part = codes "namespace " ++ (part ++ codes " {\n")

-- The loop of OpenNamespaces, with the part that it has read so far.
unfoldable pub open_parts : Str → Str → Str
open_parts part [] = opened part
open_parts part (c ∷ s) =
    let at_dot = opened part ++ open_parts [] s in
    let inside = open_parts (part ++ c ∷ []) s in if c == b'.' then at_dot else inside

unfoldable pub open_namespaces : Str → Str
unfolding open_parts
open_namespaces pkg = codes "namespace urpc {\nnamespace gen {\n" ++ open_parts [] pkg

unfoldable pub close_lines : ℕ → Str
close_lines zero = []
close_lines (suc n) = codes "}  // namespace\n" ++ close_lines n

-- The depth that CloseNamespaces counts.
unfoldable pub depth_from : ℕ → Str → ℕ
depth_from depth [] = depth
depth_from depth (c ∷ s) = depth_from (if c == b'.' then suc depth else depth) s

unfoldable pub close_namespaces : Str → Str
unfolding close_lines depth_from
close_namespaces pkg = close_lines (depth_from 3 pkg)

-- What EmitHeader writes for one service.
unfoldable pub emit_service : ServiceModel → Str
emit_service s =
    emit_traits_into s.methods ++ (emit_interface s ++ (emit_proxy s ++ emit_register s))

unfoldable pub emit_services : List ServiceModel → Str
emit_services [] = []
emit_services (s ∷ ss) = emit_service s ++ emit_services ss

unfoldable pub header_head : List (Piece FileField)
header_head =
    lit
      "// Generated by protoc-gen-urpc (urpc spec 003-typed-service-interface / 004-streaming-rpc).\n"
    ∷ lit "// source: "
    ∷ slot source_file
    ∷ lit "\n"
    ∷ lit "// DO NOT EDIT! Deterministic output; regenerate via the standard build.\n"
    ∷ lit "#pragma once\n\n"
    ∷ lit "#include <cstddef>\n"
    ∷ lit "#include <cstdint>\n"
    ∷ lit "#include <functional>\n"
    ∷ lit "#include <memory>\n"
    ∷ lit "#include <string>\n\n"
    ∷ lit "#include \""
    ∷ slot base
    ∷ lit ".upb.h\"\n\n"
    ∷ lit "#include <urpc/client.h>\n"
    ∷ lit "#include <urpc/proxy.h>\n"
    ∷ lit "#include <urpc/server.h>\n"
    ∷ lit "#include <urpc/service.h>\n"
    ∷ lit "#include <urpc/stream.h>\n"
    ∷ lit "\n"
    ∷ []

-- EmitHeader
unfoldable pub emit_header : FileModel → Str
emit_header f =
    fill (file_field f) header_head
    ++ (open_namespaces f.pkg ++ (newline ++ (emit_services f.services ++ close_namespaces f.pkg)))

unfoldable pub source_text : List (Piece FileField)
source_text =
    lit
      "// Generated by protoc-gen-urpc (urpc spec 003-typed-service-interface / 004-streaming-rpc).\n"
    ∷ lit "// source: "
    ∷ slot source_file
    ∷ lit "\n"
    ∷ lit "// DO NOT EDIT! Deterministic output; regenerate via the standard build.\n"
    ∷ lit "#include \""
    ∷ slot base
    ∷ lit ".service.h\"\n\n"
    ∷ lit "// Interface, proxy and registration symbols are header-inline\n"
    ∷ lit "// (constexpr method table + inline templates); this translation\n"
    ∷ lit "// unit anchors the generated pair in the build graph.\n"
    ∷ []

-- EmitSource
unfoldable pub emit_source : FileModel → Str
emit_source f = fill (file_field f) source_text
