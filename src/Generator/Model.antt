-- ===== src/Generator/Model.antt =====
-- urpc/generator/codegen_model.h and codegen_model.cc: what a generated file is made from, and the
-- names in it; with the templates that the emitters fill in.
use Prim.Native.String.{String}
use u_rpc.Prelude.{
  ℕ, ◌+◌, ◌-◌, not, ◌&&◌, List, [], ◌∷◌, ◌++◌, ◌==◌, if◌then◌else◌, ltb, length, take, drop,
  is_empty,
}
use u_rpc.Prelude.Str.{Str, codes, starts_with}

pub data MethodForm : Type 0 where
  unary server_streaming client_streaming bidi : MethodForm

pub record MethodModel : Type 0 where
  pub name : Str
  pub service_full_name : Str
  pub request_type : Str
  pub response_type : Str
  pub request_init : Str
  pub response_init : Str
  pub path : Str
  pub form : MethodForm

pub record ServiceModel : Type 0 where
  pub name : Str
  pub full_name : Str
  pub methods : List MethodModel

pub record FileModel : Type 0 where
  pub pkg : Str
  pub source_file : Str
  pub services : List ServiceModel

unfoldable pub replace_all : ℕ → ℕ → Str → Str
replace_all from to [] = []
replace_all from to (c ∷ s) = (if c == from then to else c) ∷ replace_all from to s

unfoldable pub cpp_type_of : Str → Str
unfolding replace_all
cpp_type_of full_name = replace_all b'.' b'_' full_name

-- The name without its package.
unfoldable pub in_package : Str → Str → Str
unfolding starts_with
in_package pkg full_name =
    if not (is_empty pkg) && starts_with (pkg ++ codes ".") full_name
    then drop (length pkg + 1) full_name
    else full_name

unfoldable pub msg_init_of : Str → Str → Str
unfolding in_package replace_all
msg_init_of pkg full_name =
    pkg ++ (codes "__" ++ (replace_all b'.' b'_' (in_package pkg full_name) ++ codes "_msg_init"))

unfoldable pub method_path : Str → Str → Str
method_path service_full_name method_name =
    codes "/" ++ (service_full_name ++ (codes "/" ++ method_name))

unfoldable pub form_text : MethodForm → Str
form_text server_streaming = codes "::urpc::MethodForm::kServerStreaming"
form_text client_streaming = codes "::urpc::MethodForm::kClientStreaming"
form_text bidi = codes "::urpc::MethodForm::kBidi"
form_text unary = codes "::urpc::MethodForm::kUnary"

-- An emitter appends literals and names in turn: a template with slots for the names.
pub data Piece (F : Type 0) : Type 0 where
  lit : String → Piece F
  slot : F → Piece F

unfoldable pub fill : {F : Type 0} → (F → Str) → List (Piece F) → Str
fill names [] = []
fill names (lit s ∷ ps) = codes s ++ fill names ps
fill names (slot f ∷ ps) = names f ++ fill names ps

abbrev pub newline : Str
newline = codes "\n"

-- The names that are put into the texts of a method, of a service and of a file.
pub data MethodField : Type 0 where
  name service_full_name request_type response_type request_init response_init path : MethodField
  form_name : MethodField

unfoldable pub method_field : MethodModel → MethodField → Str
unfolding form_text
method_field m name = m.name
method_field m service_full_name = m.service_full_name
method_field m request_type = m.request_type
method_field m response_type = m.response_type
method_field m request_init = m.request_init
method_field m response_init = m.response_init
method_field m path = m.path
method_field m form_name = form_text m.form

pub data ServiceField : Type 0 where
  short_name full_name : ServiceField

unfoldable pub service_field : ServiceModel → ServiceField → Str
service_field s short_name = s.name
service_field s full_name = s.full_name

-- `source_file.substr(0, source_file.size() - 6)`: the size is unsigned, so that a shorter name stays
-- whole.
unfoldable pub base_of : Str → Str
base_of s = if ltb (length s) 6 then s else take (length s - 6) s

pub data FileField : Type 0 where
  source_file base : FileField

unfoldable pub file_field : FileModel → FileField → Str
unfolding base_of
file_field f source_file = f.source_file
file_field f base = base_of f.source_file
