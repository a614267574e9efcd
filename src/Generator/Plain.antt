-- ===== src/Generator/Plain.antt =====
-- Names without braces stay so on their way from the descriptors into the generated files.
use u_rpc.Prelude.{
  ℕ, zero, suc, ◌+◌, ◌≤◌, ◌<◌, ◌≡◌, refl, true, false, some, List, [], ◌∷◌, ◌++◌, arith, All, map,
  drop, length, is_empty, not, ◌&&◌, if-keeps,
}
use u_rpc.Prelude.Str.{Str, codes, starts_with}
use u_rpc.Generator.Model.{replace_all, cpp_type_of, in_package, msg_init_of, method_path}
use u_rpc.Generator.Files.{emit_header}
use u_rpc.Generator.Plugin.{
  MethodDescriptor, ServiceDescriptor, FileDescriptor, method_model_of, service_model_of,
  file_model_of, header_name, source_name, generate,
}
use u_rpc.Generator.Braces.{walk, is_plain}
use u_rpc.Generator.Namespaces.{plain-append}
use u_rpc.Generator.Balance.{IsPlainMethod, IsPlainService, IsPlainFile, emit_header_balanced}
use u_rpc.Generator.Output.{room_of, write_output_whole}

abbrev IsPlain : Str → Type 0
IsPlain s = is_plain s ≡ true

-- No name that a descriptor gives has braces; protobuf allows none in an identifier.
pub record HasPlainNames (m : MethodDescriptor) : Type 0 where
  pub name : is_plain m.name ≡ true
  pub input : is_plain m.input_type ≡ true
  pub output : is_plain m.output_type ≡ true

pub record IsPlainServiceDescriptor (s : ServiceDescriptor) : Type 0 where
  pub name : is_plain s.name ≡ true
  pub full_name : is_plain s.full_name ≡ true
  pub methods : All HasPlainNames s.methods

pub record IsPlainDescriptor (f : FileDescriptor) : Type 0 where
  pub name : is_plain f.name ≡ true
  pub pkg : is_plain f.pkg ≡ true
  pub services : All IsPlainServiceDescriptor f.services

replace_all-IsPlain : (s : Str) → IsPlain s → IsPlain (replace_all b'.' b'_' s)
unfolding replace_all is_plain
replace_all-IsPlain [] h = refl
replace_all-IsPlain (c ∷ s) h = ground (arith, replace_all-IsPlain s)

drop-IsPlain : (n : ℕ) (s : Str) → IsPlain s → IsPlain (drop n s)
unfolding is_plain
drop-IsPlain zero s h = h
drop-IsPlain (suc n) [] h = refl
drop-IsPlain (suc n) (c ∷ s) h = drop-IsPlain n s (ground arith)

in_package-IsPlain : (pkg s : Str) → IsPlain s → IsPlain (in_package pkg s)
unfolding in_package
in_package-IsPlain pkg s h =
    if-keeps IsPlain (not (is_empty pkg) && starts_with (pkg ++ codes ".") s)
      (drop (length pkg + 1) s) s (λ _. drop-IsPlain (length pkg + 1) s h) (λ _. h)

msg_init_of-IsPlain : (pkg s : Str) → IsPlain pkg → IsPlain s → IsPlain (msg_init_of pkg s)
unfolding msg_init_of is_plain
msg_init_of-IsPlain pkg s h k =
    let rest = replace_all b'.' b'_' (in_package pkg s) in
    plain-append pkg (codes "__" ++ (rest ++ codes "_msg_init")) h (
      plain-append (codes "__") (rest ++ codes "_msg_init") refl (
        plain-append rest (codes "_msg_init")
          (replace_all-IsPlain (in_package pkg s) (in_package-IsPlain pkg s k)) refl))

method_path-IsPlain : (s m : Str) → IsPlain s → IsPlain m → IsPlain (method_path s m)
unfolding method_path is_plain
method_path-IsPlain s m h k =
    plain-append (codes "/") (s ++ (codes "/" ++ m)) refl
      (plain-append s (codes "/" ++ m) h (plain-append (codes "/") m refl k))

method_model_of-plain :
    (pkg service : Str) (m : MethodDescriptor)
    → IsPlain pkg
    → IsPlain service
    → HasPlainNames m
    → IsPlainMethod (method_model_of pkg service m)
unfolding method_model_of cpp_type_of
method_model_of-plain pkg service m h k p = record {
  name = p.name;
  service = k;
  request = replace_all-IsPlain m.input_type p.input;
  response = replace_all-IsPlain m.output_type p.output;
  request_symbol = msg_init_of-IsPlain pkg m.input_type h p.input;
  response_symbol = msg_init_of-IsPlain pkg m.output_type h p.output;
  path = method_path-IsPlain service m.name k p.name;
}

method_models-plain :
    (pkg service : Str) (ms : List MethodDescriptor)
    → IsPlain pkg
    → IsPlain service
    → All HasPlainNames ms
    → All IsPlainMethod (map (method_model_of pkg service) ms)
method_models-plain pkg service [] h k p = tt
method_models-plain pkg service (m ∷ ms) h k p =
    (method_model_of-plain pkg service m h k p.0, method_models-plain pkg service ms h k p.1)

service_models-plain :
    (pkg : Str) (ss : List ServiceDescriptor)
    → IsPlain pkg
    → All IsPlainServiceDescriptor ss
    → All IsPlainService (map (service_model_of pkg) ss)
unfolding service_model_of
service_models-plain pkg [] h p = tt
service_models-plain pkg (s ∷ ss) h p = (
  record {
    name = p.0.name;
    full_name = p.0.full_name;
    methods = method_models-plain pkg s.full_name s.methods h p.0.full_name p.0.methods;
  },
  service_models-plain pkg ss h p.1,
)

file_model_of-plain : (f : FileDescriptor) → IsPlainDescriptor f → IsPlainFile (file_model_of f)
unfolding file_model_of
file_model_of-plain f p = record {
  pkg = p.pkg;
  source_file = p.name;
  services = service_models-plain f.pkg f.services p.pkg p.services;
}

-- The first file that Generate wrote.
abbrev pub first_text : List (Str × Str) → Str
first_text [] = []
first_text ((n, t) ∷ fs) = t

-- For a .proto with a package and a service, whose names have no braces, Generate succeeds, and the
-- first of the two files that it writes is a header in which every brace is closed, and none that is
-- not open: where the buffers of its stream are not empty and hold it.
pub generate_balanced :
    (room : Str → List ℕ) (f : FileDescriptor)
    → IsPlainDescriptor f
    → is_empty f.services ≡ false
    → is_empty f.pkg ≡ false
    → All (λ size. 0 < size) (room (header_name f))
    → length (emit_header (file_model_of f)) ≤ room_of (room (header_name f))
    → ((generate room f).success ≡ true)
      × (map (λ (file : Str × Str). file.0) (generate room f).files
          ≡ header_name f ∷ source_name f ∷ [])
      × (walk (first_text (generate room f).files) 0 ≡ some 0)
unfolding generate
generate_balanced room f p services pkg pos fits =
    let whole =
      (write_output_whole (room (header_name f)) (emit_header (file_model_of f)) pos fits).0 in
    rw (services, pkg, whole)
      (refl, refl, emit_header_balanced (file_model_of f) (file_model_of-plain f p))
