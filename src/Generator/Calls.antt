-- ===== src/Generator/Calls.antt =====
-- The registration of one method, for each form: EmitRegisterCall of
-- urpc/generator/codegen_emit.cc, which nothing calls, and the loop of EmitRegister, which writes
-- its own.
use u_rpc.Prelude.{◌≡◌, refl, List, [], ◌∷◌}
use u_rpc.Generator.Model.{
  MethodForm, unary, server_streaming, client_streaming, bidi, Piece, lit, slot, MethodField, name,
  request_type, response_type,
}

-- `if (!st.ok()) return st;`, behind every form.
unfoldable pub checked : List (Piece MethodField)
checked = lit "  if (!st.ok()) return st;\n" ∷ []

-- EmitRegisterCall
unfoldable pub register_call : MethodForm → List (Piece MethodField)
unfolding checked
register_call unary =
    lit "  st = server."
    ∷ lit "RegisterUnaryFor<"
    ∷ slot name
    ∷ lit "Method>(\n"
    ∷ lit "      "
    ∷ slot name
    ∷ lit "Method::service_name(), "
    ∷ slot name
    ∷ lit "Method::method_name(),\n"
    ∷ lit "      [&impl](::urpc::ServerContext& ctx, const "
    ∷ slot request_type
    ∷ lit "* request,\n"
    ∷ lit "              ::urpc::UnaryDone<"
    ∷ slot response_type
    ∷ lit "> done) {\n"
    ∷ lit "        try {\n"
    ∷ lit "          impl."
    ∷ slot name
    ∷ lit "(ctx, request, done);\n"
    ∷ lit "        } catch (...) {\n"
    ∷ lit "          done(::urpc::Status(::urpc::StatusCode::kInternal,\n"
    ∷ lit "                              \"service handler raised an exception\"),\n"
    ∷ lit "               nullptr);\n"
    ∷ lit "        }\n"
    ∷ lit "      });\n"
    ∷ checked
register_call server_streaming =
    lit "  st = server."
    ∷ lit "RegisterServerStreamingFor<"
    ∷ slot name
    ∷ lit "Method>(\n"
    ∷ lit "      "
    ∷ slot name
    ∷ lit "Method::service_name(), "
    ∷ slot name
    ∷ lit "Method::method_name(),\n"
    ∷ lit "      [&impl](::urpc::ServerContext& ctx, const "
    ∷ slot request_type
    ∷ lit "* request,\n"
    ∷ lit "              ::urpc::ServerWriter<"
    ∷ slot response_type
    ∷ lit ">& writer) {\n"
    ∷ lit "        try {\n"
    ∷ lit "          impl."
    ∷ slot name
    ∷ lit "(ctx, request, writer);\n"
    ∷ lit "        } catch (...) {\n"
    ∷ lit "          writer.Finish(::urpc::Status(\n"
    ∷ lit "              ::urpc::StatusCode::kInternal,\n"
    ∷ lit "              \"service handler raised an exception\"));\n"
    ∷ lit "        }\n"
    ∷ lit "      });\n"
    ∷ checked
register_call client_streaming =
    lit "  st = server."
    ∷ lit "RegisterClientStreamingFor<"
    ∷ slot name
    ∷ lit "Method>(\n"
    ∷ lit "      "
    ∷ slot name
    ∷ lit "Method::service_name(), "
    ∷ slot name
    ∷ lit "Method::method_name(),\n"
    ∷ lit "      [&impl](::urpc::ServerContext& ctx,\n"
    ∷ lit "              ::urpc::ServerReader<"
    ∷ slot request_type
    ∷ lit ">& reader,\n"
    ∷ lit "              ::urpc::UnaryDone<"
    ∷ slot response_type
    ∷ lit "> done) {\n"
    ∷ lit "        try {\n"
    ∷ lit "          impl."
    ∷ slot name
    ∷ lit "(ctx, reader, std::move(done));\n"
    ∷ lit "        } catch (...) {\n"
    ∷ lit "          done(::urpc::Status(::urpc::StatusCode::kInternal,\n"
    ∷ lit "                              \"service handler raised an exception\"),\n"
    ∷ lit "               nullptr);\n"
    ∷ lit "        }\n"
    ∷ lit "      });\n"
    ∷ checked
register_call bidi =
    lit "  st = server."
    ∷ lit "RegisterBidiFor<"
    ∷ slot name
    ∷ lit "Method>(\n"
    ∷ lit "      "
    ∷ slot name
    ∷ lit "Method::service_name(), "
    ∷ slot name
    ∷ lit "Method::method_name(),\n"
    ∷ lit "      [&impl](::urpc::ServerContext& ctx,\n"
    ∷ lit "              ::urpc::ServerReaderWriter<"
    ∷ slot request_type
    ∷ lit ", "
    ∷ slot response_type
    ∷ lit ">& stream) {\n"
    ∷ lit "        try {\n"
    ∷ lit "          impl."
    ∷ slot name
    ∷ lit "(ctx, stream);\n"
    ∷ lit "        } catch (...) {\n"
    ∷ lit "          stream.Finish(::urpc::Status(\n"
    ∷ lit "              ::urpc::StatusCode::kInternal,\n"
    ∷ lit "              \"service handler raised an exception\"));\n"
    ∷ lit "        }\n"
    ∷ lit "      });\n"
    ∷ checked

-- The body of the loop of EmitRegister.
unfoldable pub register_method : MethodForm → List (Piece MethodField)
unfolding checked
register_method unary =
    lit "  st = server."
    ∷ lit "RegisterUnaryFor<"
    ∷ slot name
    ∷ lit "Method>(\n"
    ∷ lit "      "
    ∷ slot name
    ∷ lit "Method::service_name(), "
    ∷ slot name
    ∷ lit "Method::method_name(),\n"
    ∷ lit "      [&impl](::urpc::ServerContext& ctx, const "
    ∷ slot request_type
    ∷ lit "* request,\n"
    ∷ lit "              ::urpc::UnaryDone<"
    ∷ slot response_type
    ∷ lit "> done) {\n"
    ∷ lit "        try {\n"
    ∷ lit "          impl."
    ∷ slot name
    ∷ lit "(ctx, request, done);\n"
    ∷ lit "        } catch (...) {\n"
    ∷ lit "          done(::urpc::Status(::urpc::StatusCode::kInternal,\n"
    ∷ lit "                              \"service handler raised an exception\"),\n"
    ∷ lit "               nullptr);\n"
    ∷ lit "        }\n"
    ∷ lit "      });\n"
    ∷ checked
register_method server_streaming =
    lit "  st = server."
    ∷ lit "RegisterServerStreamingFor<"
    ∷ slot name
    ∷ lit "Method>(\n"
    ∷ lit "      "
    ∷ slot name
    ∷ lit "Method::service_name(), "
    ∷ slot name
    ∷ lit "Method::method_name(),\n"
    ∷ lit "      [&impl](::urpc::ServerContext& ctx, const "
    ∷ slot request_type
    ∷ lit "* request,\n"
    ∷ lit "              ::urpc::ServerWriter<"
    ∷ slot response_type
    ∷ lit ">& writer) {\n"
    ∷ lit "        try {\n"
    ∷ lit "          impl."
    ∷ slot name
    ∷ lit "(ctx, request, writer);\n"
    ∷ lit "        } catch (...) {\n"
    ∷ lit "          writer.Finish(::urpc::Status(\n"
    ∷ lit "              ::urpc::StatusCode::kInternal,\n"
    ∷ lit "              \"service handler raised an exception\"));\n"
    ∷ lit "        }\n"
    ∷ lit "      });\n"
    ∷ checked
register_method client_streaming =
    lit "  st = server."
    ∷ lit "RegisterClientStreamingFor<"
    ∷ slot name
    ∷ lit "Method>(\n"
    ∷ lit "      "
    ∷ slot name
    ∷ lit "Method::service_name(), "
    ∷ slot name
    ∷ lit "Method::method_name(),\n"
    ∷ lit "      [&impl](::urpc::ServerContext& ctx,\n"
    ∷ lit "              ::urpc::ServerReader<"
    ∷ slot request_type
    ∷ lit ">& reader,\n"
    ∷ lit "              ::urpc::UnaryDone<"
    ∷ slot response_type
    ∷ lit "> done) {\n"
    ∷ lit "        try {\n"
    ∷ lit "          impl."
    ∷ slot name
    ∷ lit "(ctx, reader, std::move(done));\n"
    ∷ lit "        } catch (...) {\n"
    ∷ lit "          done(::urpc::Status(::urpc::StatusCode::kInternal,\n"
    ∷ lit "                              \"service handler raised an exception\"),\n"
    ∷ lit "               nullptr);\n"
    ∷ lit "        }\n"
    ∷ lit "      });\n"
    ∷ checked
register_method bidi =
    lit "  st = server."
    ∷ lit "RegisterBidiFor<"
    ∷ slot name
    ∷ lit "Method>(\n"
    ∷ lit "      "
    ∷ slot name
    ∷ lit "Method::service_name(), "
    ∷ slot name
    ∷ lit "Method::method_name(),\n"
    ∷ lit "      [&impl](::urpc::ServerContext& ctx,\n"
    ∷ lit "              ::urpc::ServerReaderWriter<"
    ∷ slot request_type
    ∷ lit ", "
    ∷ slot response_type
    ∷ lit ">& stream) {\n"
    ∷ lit "        try {\n"
    ∷ lit "          impl."
    ∷ slot name
    ∷ lit "(ctx, stream);\n"
    ∷ lit "        } catch (...) {\n"
    ∷ lit "          stream.Finish(::urpc::Status(\n"
    ∷ lit "              ::urpc::StatusCode::kInternal,\n"
    ∷ lit "              \"service handler raised an exception\"));\n"
    ∷ lit "        }\n"
    ∷ lit "      });\n"
    ∷ checked

-- The two are the same text.
register_call_same : (form : MethodForm) → register_call form ≡ register_method form
unfolding register_call register_method
register_call_same unary = refl
register_call_same server_streaming = refl
register_call_same client_streaming = refl
register_call_same bidi = refl
