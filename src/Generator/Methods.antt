-- ===== src/Generator/Methods.antt =====
-- The texts of one method, for each form: EmitInterfaceMethod and EmitProxyMethod of
-- urpc/generator/codegen_emit.cc.
use u_rpc.Prelude.{List, [], ◌∷◌}
use u_rpc.Generator.Model.{
  MethodForm, unary, server_streaming, client_streaming, bidi, Piece, lit, slot, MethodField, name,
  request_type, response_type,
}

-- EmitInterfaceMethod: the declaration with its default body.
unfoldable pub interface_method : MethodForm → List (Piece MethodField)
interface_method unary =
    lit "  virtual void "
    ∷ slot name
    ∷ lit "(::urpc::ServerContext& ctx,\n"
    ∷ lit "                    const "
    ∷ slot request_type
    ∷ lit "* request,\n"
    ∷ lit "                    ::urpc::UnaryDone<"
    ∷ slot response_type
    ∷ lit "> done) {\n"
    ∷ lit "    (void)ctx;\n"
    ∷ lit "    (void)request;\n"
    ∷ lit "    done(::urpc::Status(::urpc::StatusCode::kUnimplemented,\n"
    ∷ lit "                        \"method not implemented: "
    ∷ slot name
    ∷ lit "\"),\n"
    ∷ lit "         nullptr);\n"
    ∷ lit "  }\n"
    ∷ []
interface_method server_streaming =
    lit "  virtual void "
    ∷ slot name
    ∷ lit "(::urpc::ServerContext& ctx,\n"
    ∷ lit "                    const "
    ∷ slot request_type
    ∷ lit "* request,\n"
    ∷ lit "                    ::urpc::ServerWriter<"
    ∷ slot response_type
    ∷ lit ">& writer) {\n"
    ∷ lit "    (void)ctx;\n"
    ∷ lit "    (void)request;\n"
    ∷ lit "    writer.Finish(::urpc::Status(\n"
    ∷ lit "        ::urpc::StatusCode::kUnimplemented,\n"
    ∷ lit "        \"method not implemented: "
    ∷ slot name
    ∷ lit "\"));\n"
    ∷ lit "  }\n"
    ∷ []
interface_method client_streaming =
    lit "  virtual void "
    ∷ slot name
    ∷ lit "(::urpc::ServerContext& ctx,\n"
    ∷ lit "                    ::urpc::ServerReader<"
    ∷ slot request_type
    ∷ lit ">& reader,\n"
    ∷ lit "                    ::urpc::UnaryDone<"
    ∷ slot response_type
    ∷ lit "> done) {\n"
    ∷ lit "    (void)ctx;\n"
    ∷ lit "    (void)reader;\n"
    ∷ lit "    done(::urpc::Status(::urpc::StatusCode::kUnimplemented,\n"
    ∷ lit "                        \"method not implemented: "
    ∷ slot name
    ∷ lit "\"),\n"
    ∷ lit "         nullptr);\n"
    ∷ lit "  }\n"
    ∷ []
interface_method bidi =
    lit "  virtual void "
    ∷ slot name
    ∷ lit "(::urpc::ServerContext& ctx,\n"
    ∷ lit "                    ::urpc::ServerReaderWriter<"
    ∷ slot request_type
    ∷ lit ", "
    ∷ slot response_type
    ∷ lit ">& stream) {\n"
    ∷ lit "    (void)ctx;\n"
    ∷ lit "    (void)stream;\n"
    ∷ lit "    stream.Finish(::urpc::Status(\n"
    ∷ lit "        ::urpc::StatusCode::kUnimplemented,\n"
    ∷ lit "        \"method not implemented: "
    ∷ slot name
    ∷ lit "\"));\n"
    ∷ lit "  }\n"
    ∷ []

-- EmitProxyMethod: what a client calls.
unfoldable pub proxy_method : MethodForm → List (Piece MethodField)
proxy_method unary =
    lit "  // "
    ∷ slot name
    ∷ lit ": async form (callback fires exactly once;\n"
    ∷ lit "  // returns the call id, see Channel).\n"
    ∷ lit "  uint64_t "
    ∷ slot name
    ∷ lit "Async(const "
    ∷ slot request_type
    ∷ lit "* request,\n"
    ∷ lit "                         uint64_t timeout_ms,\n"
    ∷ lit "                         std::function<void(::urpc::Result<"
    ∷ slot response_type
    ∷ lit ">)> done) {\n"
    ∷ lit "    return ::urpc::detail::ProxyCallAsync<"
    ∷ slot name
    ∷ lit "Method>(channel_, request, timeout_ms, std::move(done));\n"
    ∷ lit "  }\n"
    ∷ lit "  // "
    ∷ slot name
    ∷ lit ": sync convenience form (fast-fails on the urpc\n"
    ∷ lit "  // event-loop thread).\n"
    ∷ lit "  ::urpc::Result<"
    ∷ slot response_type
    ∷ lit "> "
    ∷ slot name
    ∷ lit "(const "
    ∷ slot request_type
    ∷ lit "* request, uint64_t timeout_ms) {\n"
    ∷ lit "    return ::urpc::detail::ProxyCall<"
    ∷ slot name
    ∷ lit "Method>(channel_, request, timeout_ms);\n"
    ∷ lit "  }\n"
    ∷ []
proxy_method server_streaming =
    lit "  // "
    ∷ slot name
    ∷ lit ": server streaming (single request; read the\n"
    ∷ lit "  // response sequence from the returned reader).\n"
    ∷ lit "  std::unique_ptr<::urpc::ClientReader<"
    ∷ slot response_type
    ∷ lit ">> "
    ∷ slot name
    ∷ lit "(const "
    ∷ slot request_type
    ∷ lit "* request, uint64_t timeout_ms) {\n"
    ∷ lit "    return ::urpc::OpenClientReader<"
    ∷ slot name
    ∷ lit "Method>(channel_.lock(),\n"
    ∷ lit "        "
    ∷ slot name
    ∷ lit "Method::service_name(), "
    ∷ slot name
    ∷ lit "Method::method_name(), request, timeout_ms);\n"
    ∷ lit "  }\n"
    ∷ []
proxy_method client_streaming =
    lit "  // "
    ∷ slot name
    ∷ lit ": client streaming (write requests, then Finish\n"
    ∷ lit "  // for the single response).\n"
    ∷ lit "  std::unique_ptr<::urpc::ClientWriter<"
    ∷ slot request_type
    ∷ lit ", "
    ∷ slot response_type
    ∷ lit ">> "
    ∷ slot name
    ∷ lit "(uint64_t timeout_ms) {\n"
    ∷ lit "    return ::urpc::OpenClientWriter<"
    ∷ slot name
    ∷ lit "Method>(channel_.lock(),\n"
    ∷ lit "        "
    ∷ slot name
    ∷ lit "Method::service_name(), "
    ∷ slot name
    ∷ lit "Method::method_name(), timeout_ms);\n"
    ∷ lit "  }\n"
    ∷ []
proxy_method bidi =
    lit "  // "
    ∷ slot name
    ∷ lit ": bidirectional streaming.\n"
    ∷ lit "  std::unique_ptr<::urpc::ClientReaderWriter<"
    ∷ slot request_type
    ∷ lit ", "
    ∷ slot response_type
    ∷ lit ">> "
    ∷ slot name
    ∷ lit "(uint64_t timeout_ms) {\n"
    ∷ lit "    return ::urpc::OpenClientReaderWriter<"
    ∷ slot name
    ∷ lit "Method>(channel_.lock(),\n"
    ∷ lit "        "
    ∷ slot name
    ∷ lit "Method::service_name(), "
    ∷ slot name
    ∷ lit "Method::method_name(), timeout_ms);\n"
    ∷ lit "  }\n"
    ∷ []
