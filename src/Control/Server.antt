-- ===== src/Control/Server.antt =====
-- internal/mcp/jsonrpc.go, protocol.go and server.go: one HTTP request to the control server, from its
-- body to its reply. The decoders of JSON are parameters; a body is a list of bytes. The accept loop,
-- and the recovery from a panic, which no function of the model can raise, are left out.
pub mod Requests
use hounds_ciai.Prelude.{
  ℕ, ◌^◌, String, Bool, true, false, Option, none, some, List, [], ◌∷◌, ◌==◌, ◌||◌, string_eq,
  if◌then◌else◌, take,
}
use hounds_ciai.Scheduler.{Sched}
use hounds_ciai.Control.{Handler, CallParams, ToolReply, invalid_params, call_tool}

-- The error codes that the server sends: -32700, -32601 and -32602.
pub data Code : Type 0 where
  code_parse code_method_not_found code_invalid_params : Code

-- `request`: the raw id, "" when it is absent, and the raw parameters.
pub record Request : Type 0 where
  pub id : String
  pub method : String
  pub params : String

pub data Payload : Type 0 where
  protocol_shown acknowledged : Payload
  tools_listed : List String → Payload
  tool_result : ToolReply → Payload
  rpc_error : Code → Payload

-- `response`: an id "" is written as null.
pub record Response : Type 0 where
  pub id : String
  pub payload : Payload

-- The names of `toolDefs`.
abbrev pub tool_defs : List String
tool_defs = "list_tasks" ∷ "get_task" ∷ "get_audit" ∷ "cancel_task" ∷ "enqueue_task" ∷ []

-- `okResp` and `errResp`, as callTool uses them.
unfoldable pub tool_payload : ToolReply → Payload
tool_payload invalid_params = rpc_error code_invalid_params
tool_payload r = tool_result r

-- A reply over HTTP: 405, 202 with no body, or a JSON body.
pub data HttpReply : Type 0 where
  not_allowed accepted : HttpReply
  replied : Response → HttpReply

abbrev pub max_body : ℕ
max_body = 2 ^ 20

unfoldable pub http_reply : Option Response × Sched → HttpReply × Sched
http_reply (none, s) = (accepted, s)
http_reply (some r, s) = (replied r, s)

module _ (h : Handler) (params_of : String → Option CallParams) where
  -- The `switch` of `handle`.
  unfoldable pub dispatch : Request → Sched → Payload × Sched
  unfolding tool_payload
  dispatch r s =
      if r.method == "initialize"
      then (protocol_shown, s)
      else if r.method == "notifications/initialized" || r.method == "ping"
      then (acknowledged, s)
      else if r.method == "tools/list"
      then (tools_listed tool_defs, s)
      else if r.method == "tools/call"
      then (let (reply, s') = call_tool h (params_of r.params) s in (tool_payload reply, s'))
      else (rpc_error code_method_not_found, s)

  -- The message is carried out also when it is a notification, which gets no response.
  unfoldable pub respond : Request → Sched → Option Response × Sched
  unfolding dispatch
  respond r s =
      let (p, s') = dispatch r s in
      ((if r.id == "" then none else some (record { id = r.id; payload = p })), s')

  unfoldable pub handle_decoded : Option Request → Sched → Option Response × Sched
  unfolding respond
  handle_decoded none s = (some (record { id = ""; payload = rpc_error code_parse }), s)
  handle_decoded (some r) s = respond r s

  -- `handle`, by the decoder of messages.
  unfoldable pub handle : (List ℕ → Option Request) → List ℕ → Sched → Option Response × Sched
  unfolding handle_decoded
  handle decode raw s = handle_decoded (decode raw) s

  -- `handleHTTP`: a body that cannot be read is `none`; of a long one the first 2^20 bytes count.
  unfoldable pub handle_http :
      (List ℕ → Option Request) → String → Option (List ℕ) → Sched → HttpReply × Sched
  unfolding handle http_reply
  handle_http decode verb none s =
      if verb == "POST"
      then (replied (record { id = ""; payload = rpc_error code_parse }), s)
      else (not_allowed, s)
  handle_http decode verb (some body) s =
      if verb == "POST" then http_reply (handle decode (take max_body body) s) else (not_allowed, s)
