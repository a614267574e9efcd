-- ===== src/Generator/Names.antt =====
-- The dots in the names that codegen_model.cc makes: an identifier of C++ has none.
use u_rpc.Prelude.{◌+◌, ◌≡◌, refl, [], ◌∷◌, ◌++◌, arith}
use u_rpc.Prelude.Str.{Str, codes}
use u_rpc.Generator.Model.{replace_all, cpp_type_of, in_package, msg_init_of}
use u_rpc.Generator.Namespaces.{dots}

dots-append : (s t : Str) → dots (s ++ t) ≡ dots s + dots t
unfolding dots
dots-append [] t = omega arith
dots-append (c ∷ s) t = omega (arith, dots-append s t)

dots-replace_all : (s : Str) → dots (replace_all b'.' b'_' s) ≡ 0
unfolding dots replace_all
dots-replace_all [] = refl
dots-replace_all (c ∷ s) = ground (arith, dots-replace_all s)

-- The name of a type has no dots, whatever the type is called in the .proto; the symbol of its table
-- has exactly the dots of the package, so that it is an identifier only for a package with none.
pub dots_of_names :
    (pkg full_name : Str)
    → (dots (cpp_type_of full_name) ≡ 0) × (dots (msg_init_of pkg full_name) ≡ dots pkg)
unfolding cpp_type_of msg_init_of dots
dots_of_names pkg full_name =
    let rest = replace_all b'.' b'_' (in_package pkg full_name) in
    let none_left = dots-replace_all (in_package pkg full_name) in
    (
      dots-replace_all full_name,
      omega (
        arith,
        dots-append pkg (codes "__" ++ (rest ++ codes "_msg_init")),
        dots-append (codes "__") (rest ++ codes "_msg_init"),
        dots-append rest (codes "_msg_init"),
      ),
    )
