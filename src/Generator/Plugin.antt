-- ===== src/Generator/Plugin.antt =====
-- urpc/generator/urpc_codegen.cc: what the plugin makes of protobuf's descriptors. A descriptor is a
-- record of what the plugin reads; the buffers that an output stream gives are an argument.
use u_rpc.Prelude.{
  ℕ, ◌-◌, Bool, true, false, List, [], ◌∷◌, ◌++◌, ◌==◌, if◌then◌else◌, ltb, length, take, drop,
  is_empty, map,
}
use u_rpc.Prelude.Str.{Str, codes}
use u_rpc.Generator.Model.{
  MethodForm, unary, server_streaming, client_streaming, bidi, MethodModel, ServiceModel, FileModel,
  cpp_type_of, msg_init_of, method_path, base_of,
}
use u_rpc.Generator.Files.{emit_header, emit_source}

pub record MethodDescriptor : Type 0 where
  pub name : Str
  pub input_type : Str
  pub output_type : Str
  pub client_streaming : Bool
  pub server_streaming : Bool

pub record ServiceDescriptor : Type 0 where
  pub name : Str
  pub full_name : Str
  pub methods : List MethodDescriptor

pub record FileDescriptor : Type 0 where
  pub name : Str
  pub pkg : Str
  pub services : List ServiceDescriptor

-- FormOf
unfoldable pub form_of : Bool → Bool → MethodForm
form_of true true = bidi
form_of true false = client_streaming
form_of false true = server_streaming
form_of false false = unary

-- ModelOf of a method.
unfoldable pub method_model_of : Str → Str → MethodDescriptor → MethodModel
unfolding form_of cpp_type_of msg_init_of method_path
method_model_of pkg service m = record {
  name = m.name;
  service_full_name = service;
  request_type = cpp_type_of m.input_type;
  response_type = cpp_type_of m.output_type;
  request_init = msg_init_of pkg m.input_type;
  response_init = msg_init_of pkg m.output_type;
  path = method_path service m.name;
  form = form_of m.client_streaming m.server_streaming;
}

unfoldable pub service_model_of : Str → ServiceDescriptor → ServiceModel
service_model_of pkg s = record {
  name = s.name;
  full_name = s.full_name;
  methods = map (method_model_of pkg s.full_name) s.methods;
}

-- ModelOf of a file.
unfoldable pub file_model_of : FileDescriptor → FileModel
file_model_of f = record {
  pkg = f.pkg;
  source_file = f.name;
  services = map (service_model_of f.pkg) f.services;
}

-- WriteOutput over the sizes of the buffers that `Next` gives, until it fails: the bytes written, and
-- what `BackUp` hands back.
unfoldable pub write_output : List ℕ → Str → Str × ℕ
write_output [] content = ([], 0)
write_output (size ∷ sizes) content =
    let n = if ltb (length content) size then length content else size in
    let (written, back) = write_output sizes (drop n content) in
    if is_empty content
    then ([], 0)
    else (if size == 0
        then ([], 0)
        else (take n content ++ written, if is_empty (drop n content) then size - n else back))

-- What Generate answers: whether it went well, the error, and the files that it wrote.
pub record Generated : Type 0 where
  pub success : Bool
  pub error : Str
  pub files : List (Str × Str)

abbrev pub header_name : FileDescriptor → Str
header_name f = base_of f.name ++ codes ".service.h"

abbrev pub source_name : FileDescriptor → Str
source_name f = base_of f.name ++ codes ".service.cc"

-- Generate, with the buffers of each file by its name.
unfoldable pub generate : (Str → List ℕ) → FileDescriptor → Generated
unfolding file_model_of write_output
generate room f =
    if is_empty f.services
    then record { success = true; error = []; files = [] }
    else (if is_empty f.pkg
        then record {
          success = false;
          error =
              codes "urpc: a package is required for --urpc_out (file: " ++ (f.name ++ codes ")");
          files = [];
        }
        else record {
          success = true;
          error = [];
          files =
              (
                header_name f,
                (write_output (room (header_name f)) (emit_header (file_model_of f))).0,
              )
              ∷ (
                source_name f,
                (write_output (room (source_name f)) (emit_source (file_model_of f))).0,
              )
              ∷ [];
        })
