-- ===== src/Generator/Balance.antt =====
-- Every brace of a generated header is closed, and none is closed twice.
use u_rpc.Prelude.{
  ℕ, zero, suc, ◌+◌, ◌-◌, ◌≡◌, refl, ◌∙◌, true, Option, some, List, [], ◌∷◌, ◌++◌, arith, All,
  length, take,
}
use u_rpc.Prelude.Str.{Str}
use u_rpc.Generator.Model.{
  MethodForm, unary, server_streaming, client_streaming, bidi, MethodModel, ServiceModel, FileModel,
  form_text, Piece, fill, MethodField, name, service_full_name, request_type, response_type,
  request_init, response_init, path, form_name, method_field, ServiceField, short_name, full_name,
  service_field, FileField, source_file, base, base_of, file_field, newline,
}
use u_rpc.Generator.Traits.{traits, emit_traits}
use u_rpc.Generator.Methods.{interface_method, proxy_method}
use u_rpc.Generator.Calls.{register_method}
use u_rpc.Generator.Services.{
  each_method, spaced_methods, interface_head, interface_table, table_row, interface_end,
  emit_interface, proxy_head, proxy_end, emit_proxy, register_head, register_end, emit_register,
  emit_traits_into,
}
use u_rpc.Generator.Files.{emit_service, emit_services, header_head, emit_header}
use u_rpc.Generator.Namespaces.{dots, open_namespaces-walk, close_namespaces-walk}
use u_rpc.Generator.Braces.{
  walk, is_plain, IsBalanced, walk_lits, append-IsBalanced, fill-IsBalanced, walk-fill, walk_on,
  nil-IsBalanced,
}

-- The names of a method, a service and a file that the descriptors give have no braces.
pub record IsPlainMethod (m : MethodModel) : Type 0 where
  pub name : is_plain m.name ≡ true
  pub service : is_plain m.service_full_name ≡ true
  pub request : is_plain m.request_type ≡ true
  pub response : is_plain m.response_type ≡ true
  pub request_symbol : is_plain m.request_init ≡ true
  pub response_symbol : is_plain m.response_init ≡ true
  pub path : is_plain m.path ≡ true

pub record IsPlainService (s : ServiceModel) : Type 0 where
  pub name : is_plain s.name ≡ true
  pub full_name : is_plain s.full_name ≡ true
  pub methods : All IsPlainMethod s.methods

pub record IsPlainFile (f : FileModel) : Type 0 where
  pub pkg : is_plain f.pkg ≡ true
  pub source_file : is_plain f.source_file ≡ true
  pub services : All IsPlainService f.services

form_text-plain : (form : MethodForm) → is_plain (form_text form) ≡ true
unfolding form_text is_plain
form_text-plain unary = refl
form_text-plain server_streaming = refl
form_text-plain client_streaming = refl
form_text-plain bidi = refl

method_field-plain :
    (m : MethodModel) → IsPlainMethod m → (f : MethodField) → is_plain (method_field m f) ≡ true
unfolding method_field
method_field-plain m h name = h.name
method_field-plain m h service_full_name = h.service
method_field-plain m h request_type = h.request
method_field-plain m h response_type = h.response
method_field-plain m h request_init = h.request_symbol
method_field-plain m h response_init = h.response_symbol
method_field-plain m h path = h.path
method_field-plain m h form_name = form_text-plain m.form

service_field-plain :
    (s : ServiceModel) → IsPlainService s → (f : ServiceField) → is_plain (service_field s f) ≡ true
unfolding service_field
service_field-plain s h short_name = h.name
service_field-plain s h full_name = h.full_name

traits-walk : (d : ℕ) → walk_lits traits d ≡ some d
unfolding traits walk_lits
traits-walk d = refl

interface_method-walk : (form : MethodForm) (d : ℕ) → walk_lits (interface_method form) d ≡ some d
unfolding interface_method walk_lits
interface_method-walk unary d = refl
interface_method-walk server_streaming d = refl
interface_method-walk client_streaming d = refl
interface_method-walk bidi d = refl

proxy_method-walk : (form : MethodForm) (d : ℕ) → walk_lits (proxy_method form) d ≡ some d
unfolding proxy_method walk_lits
proxy_method-walk unary d = refl
proxy_method-walk server_streaming d = refl
proxy_method-walk client_streaming d = refl
proxy_method-walk bidi d = refl

register_method-walk : (form : MethodForm) (d : ℕ) → walk_lits (register_method form) d ≡ some d
unfolding register_method walk_lits
register_method-walk unary d = refl
register_method-walk server_streaming d = refl
register_method-walk client_streaming d = refl
register_method-walk bidi d = refl

table_row-walk : (form : MethodForm) (d : ℕ) → walk_lits (table_row form) d ≡ some d
unfolding table_row walk_lits
table_row-walk form d = refl

interface_head-walk : (d : ℕ) → walk_lits interface_head d ≡ some (suc d)
unfolding interface_head walk_lits
interface_head-walk d = refl

interface_table-walk : (d : ℕ) → walk_lits interface_table d ≡ some (suc d)
unfolding interface_table walk_lits
interface_table-walk d = refl

interface_end-walk : (d : ℕ) → walk_lits interface_end (suc (suc d)) ≡ some d
unfolding interface_end walk_lits
interface_end-walk d = refl

proxy_head-walk : (d : ℕ) → walk_lits proxy_head d ≡ some (suc d)
unfolding proxy_head walk_lits
proxy_head-walk d = refl

proxy_end-walk : (d : ℕ) → walk_lits proxy_end (suc d) ≡ some d
unfolding proxy_end walk_lits
proxy_end-walk d = refl

register_head-walk : (d : ℕ) → walk_lits register_head d ≡ some (suc d)
unfolding register_head walk_lits
register_head-walk d = refl

register_end-walk : (d : ℕ) → walk_lits register_end (suc d) ≡ some d
unfolding register_end walk_lits
register_end-walk d = refl

newline-IsBalanced : IsBalanced newline
unfolding walk
newline-IsBalanced d = refl

-- A template of a method's form, filled in for each method.
module _ (t : MethodForm → List (Piece MethodField))
    (balanced : (form : MethodForm) (d : ℕ) → walk_lits (t form) d ≡ some d) where
  method-IsBalanced :
      (m : MethodModel) → IsPlainMethod m → IsBalanced (fill (method_field m) (t m.form))
  method-IsBalanced m h =
      fill-IsBalanced (method_field m) (t m.form) (method_field-plain m h) (balanced m.form)

  each_method-IsBalanced :
      (ms : List MethodModel) → All IsPlainMethod ms → IsBalanced (each_method t ms)
  unfolding each_method walk
  each_method-IsBalanced [] h = nil-IsBalanced
  each_method-IsBalanced (m ∷ ms) h =
      append-IsBalanced (fill (method_field m) (t m.form)) (each_method t ms)
        (method-IsBalanced m h.0) (each_method-IsBalanced ms h.1)

  spaced_methods-IsBalanced :
      (ms : List MethodModel) → All IsPlainMethod ms → IsBalanced (spaced_methods t ms)
  unfolding spaced_methods walk
  spaced_methods-IsBalanced [] h = nil-IsBalanced
  spaced_methods-IsBalanced (m ∷ []) h = method-IsBalanced m h.0
  spaced_methods-IsBalanced (m ∷ n ∷ ms) h =
      append-IsBalanced (fill (method_field m) (t m.form)) (newline ++ spaced_methods t (n ∷ ms))
        (method-IsBalanced m h.0)
        (append-IsBalanced newline (spaced_methods t (n ∷ ms)) newline-IsBalanced
          (spaced_methods-IsBalanced (n ∷ ms) h.1))

emit_traits_into-IsBalanced :
    (ms : List MethodModel) → All IsPlainMethod ms → IsBalanced (emit_traits_into ms)
unfolding emit_traits_into emit_traits walk
emit_traits_into-IsBalanced [] h = nil-IsBalanced
emit_traits_into-IsBalanced (m ∷ ms) h =
    append-IsBalanced (emit_traits m) (emit_traits_into ms)
      (fill-IsBalanced (method_field m) traits (method_field-plain m h.0) traits-walk)
      (emit_traits_into-IsBalanced ms h.1)

module _ (s : ServiceModel) (h : IsPlainService s) where
  -- What a template of the service does to the depth.
  service_fill :
      (ps : List (Piece ServiceField)) (d : ℕ) {o : Option ℕ}
      → walk_lits ps d ≡ o
      → walk (fill (service_field s) ps) d ≡ o
  service_fill ps d e = walk-fill (service_field s) ps d (service_field-plain s h) ∙ e

  emit_interface-IsBalanced : IsBalanced (emit_interface s)
  unfolding emit_interface
  emit_interface-IsBalanced d =
      walk_on _ _ _ _ (service_fill interface_head d (interface_head-walk d)) (
        walk_on _ _ _ _
          (spaced_methods-IsBalanced interface_method interface_method-walk s.methods h.methods
            (suc d))
          (walk_on _ _ _ _ (service_fill interface_table (suc d) (interface_table-walk (suc d))) (
            walk_on _ _ _ _
              (each_method-IsBalanced table_row table_row-walk s.methods h.methods (suc (suc d)))
              (service_fill interface_end (suc (suc d)) (interface_end-walk d)))))

  emit_proxy-IsBalanced : IsBalanced (emit_proxy s)
  unfolding emit_proxy
  emit_proxy-IsBalanced d = walk_on _ _ _ _ (service_fill proxy_head d (proxy_head-walk d)) (
      walk_on _ _ _ _
        (spaced_methods-IsBalanced proxy_method proxy_method-walk s.methods h.methods (suc d))
        (service_fill proxy_end (suc d) (proxy_end-walk d)))

  emit_register-IsBalanced : IsBalanced (emit_register s)
  unfolding emit_register
  emit_register-IsBalanced d =
      walk_on _ _ _ _ (service_fill register_head d (register_head-walk d)) (
        walk_on _ _ _ _
          (each_method-IsBalanced register_method register_method-walk s.methods h.methods (suc d))
          (service_fill register_end (suc d) (register_end-walk d)))

  emit_service-IsBalanced : IsBalanced (emit_service s)
  unfolding emit_service
  emit_service-IsBalanced =
      append-IsBalanced _ _ (emit_traits_into-IsBalanced s.methods h.methods) (
        append-IsBalanced _ _ emit_interface-IsBalanced
          (append-IsBalanced _ _ emit_proxy-IsBalanced emit_register-IsBalanced))

emit_services-IsBalanced :
    (ss : List ServiceModel) → All IsPlainService ss → IsBalanced (emit_services ss)
unfolding emit_services walk
emit_services-IsBalanced [] h = nil-IsBalanced
emit_services-IsBalanced (s ∷ ss) h =
    append-IsBalanced (emit_service s) (emit_services ss) (emit_service-IsBalanced s h.0)
      (emit_services-IsBalanced ss h.1)

header_head-walk : (d : ℕ) → walk_lits header_head d ≡ some d
unfolding header_head walk_lits
header_head-walk d = refl

take-plain : (n : ℕ) (s : Str) → is_plain s ≡ true → is_plain (take n s) ≡ true
unfolding is_plain
take-plain zero s h = refl
take-plain (suc n) [] h = refl
take-plain (suc n) (c ∷ s) h = ground (arith, take-plain n s)

file_field-plain :
    (f : FileModel) → IsPlainFile f → (g : FileField) → is_plain (file_field f g) ≡ true
unfolding file_field base_of
file_field-plain f h source_file = h.source_file
file_field-plain f h base =
    ground (arith, take-plain (length f.source_file - 6) f.source_file h.source_file)

-- In the header that is generated for any file, where the names that the descriptors give have no
-- braces, every brace is closed and none is closed that is not open: the classes, the methods of all
-- four forms, the tables, and the namespaces, of which the package opens as many as are closed.
pub emit_header_balanced : (f : FileModel) → IsPlainFile f → walk (emit_header f) 0 ≡ some 0
unfolding emit_header
emit_header_balanced f h =
    let n = 3 + dots f.pkg + 0 in
    walk_on _ _ 0 0
      (walk-fill (file_field f) header_head 0 (file_field-plain f h) ∙ header_head-walk 0)
      (walk_on _ _ 0 n (open_namespaces-walk f.pkg 0 h.pkg) (
        walk_on _ _ n n (newline-IsBalanced n) (
          walk_on _ _ n n (emit_services-IsBalanced f.services h.services n)
            (close_namespaces-walk f.pkg 0))))
