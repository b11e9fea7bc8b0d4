-- ===== src/Control/Server/Requests.antt =====
-- internal/mcp/server.go and protocol.go: what a request does to the scheduler, and what it gets back.
use hounds_ciai.Prelude.{
  ℕ, String, true, false, ◌≡◌, ◌≢◌, refl, Option, none, some, List, ◌==◌, ◌||◌, string_eq,
  Bool-cases, ==_true, ==_false, inl, inr, take,
}
use hounds_ciai.Scheduler.{Sched}
use hounds_ciai.Control.{Handler, CallParams, call_tool}
use hounds_ciai.Control.Effects.{Effect, call_tool-Effect}
use hounds_ciai.Control.Server.{
  Request, rpc_error, code_parse, Response, HttpReply, not_allowed, accepted, replied, max_body,
  dispatch, respond, handle_decoded, http_reply, handle_http,
}

module _ (h : Handler) (decode : List ℕ → Option Request) (params_of : String → Option CallParams)
    (verb : String) (body : Option (List ℕ)) where
  -- The request is a POST, and its body reads as the message.
  pub record Carries (r : Request) : Type 0 where
    pub bytes : List ℕ
    pub posted : verb ≡ "POST"
    pub read : body ≡ some bytes
    pub decoded : decode (take max_body bytes) ≡ some r

  -- How a request leaves the scheduler.
  pub data Leaves (s : Sched) : Sched → Type 0 where
    quiet : Leaves s s
    called :
        (r : Request) (p : CallParams)
        → Carries r
        → r.method ≡ "tools/call"
        → params_of r.params ≡ some p
        → {t : Sched} → Effect h p s t
        → Leaves s t

  -- What a request gets back.
  pub data Answered : HttpReply → Type 0 where
    not_posted : verb ≢ "POST" → Answered not_allowed
    not_read : body ≡ none → Answered (replied (record { id = ""; payload = rpc_error code_parse }))
    not_decoded :
        (bytes : List ℕ)
        → body ≡ some bytes
        → decode (take max_body bytes) ≡ none
        → Answered (replied (record { id = ""; payload = rpc_error code_parse }))
    noted : (r : Request) → Carries r → r.id ≡ "" → Answered accepted
    responded :
        (r : Request) (x : Response) → Carries r → r.id ≢ "" → x.id ≡ r.id → Answered (replied x)

  module _ (s : Sched) where
    tools_call-Leaves :
        (r : Request)
        → Carries r
        → r.method ≡ "tools/call"
        → (o : Option CallParams) → params_of r.params ≡ o
        → Leaves s (call_tool h o s).1
    unfolding call_tool
    tools_call-Leaves r c m none e = quiet
    tools_call-Leaves r c m (some p) e = called r p c m e (call_tool-Effect h p s)

    dispatch-Leaves : (r : Request) → Carries r → Leaves s (dispatch h params_of r s).1
    unfolding dispatch
    dispatch-Leaves r c = elim (Bool-cases (r.method == "initialize")) [
      | inl e ↦ rw e quiet
      | inr a ↦
          rw a (elim (Bool-cases (r.method == "notifications/initialized" || r.method == "ping")) [
            | inl e ↦ rw e quiet
            | inr b ↦ rw b (elim (Bool-cases (r.method == "tools/list")) [
              | inl e ↦ rw e quiet
              | inr d ↦ rw d (elim (Bool-cases (r.method == "tools/call")) [
                | inl e ↦ rw e (tools_call-Leaves r c (==_true r.method "tools/call" e) _ refl)
                | inr e ↦ rw e quiet
              ])
            ])
          ])
    ]

    respond-Leaves :
        (r : Request)
        → Carries r
        → Leaves s (http_reply (respond h params_of r s)).1
          × Answered (http_reply (respond h params_of r s)).0
    unfolding respond http_reply
    respond-Leaves r c = elim (Bool-cases (r.id == "")) [
      | inl z ↦ rw (z, http_reply) (dispatch-Leaves r c, noted r c (==_true r.id "" z))
      | inr z ↦ rw (z, http_reply) (dispatch-Leaves r c, responded r _ c (==_false r.id "" z) refl)
    ]

    handle-Leaves :
        (bytes : List ℕ)
        → verb ≡ "POST"
        → body ≡ some bytes
        → (o : Option Request) → decode (take max_body bytes) ≡ o
        → Leaves s (http_reply (handle_decoded h params_of o s)).1
          × Answered (http_reply (handle_decoded h params_of o s)).0
    unfolding handle_decoded http_reply
    handle-Leaves bytes v b none e = (quiet, not_decoded bytes b e)
    handle-Leaves bytes v b (some r) e =
        respond-Leaves r (record { bytes = bytes; posted = v; read = b; decoded = e })

    http-Leaves :
        (o : Option (List ℕ))
        → body ≡ o
        → Leaves s (handle_http h params_of decode verb o s).1
          × Answered (handle_http h params_of decode verb o s).0
    unfolding handle_http
    http-Leaves o b = elim (Bool-cases (verb == "POST")) [
      | inl e ↦ posted o b e
      | inr e ↦ otherwise o e
    ]
      where
        posted :
            (o : Option (List ℕ))
            → body ≡ o
            → (verb == "POST") ≡ true
            → Leaves s (handle_http h params_of decode verb o s).1
              × Answered (handle_http h params_of decode verb o s).0
        posted none b e = rw e (quiet, not_read b)
        posted (some bytes) b e =
            rw e (handle-Leaves bytes (==_true verb "POST" e) b (decode (take max_body bytes)) refl)

        otherwise :
            (o : Option (List ℕ))
            → (verb == "POST") ≡ false
            → Leaves s (handle_http h params_of decode verb o s).1
              × Answered (handle_http h params_of decode verb o s).0
        otherwise none e = rw e (quiet, not_posted (==_false verb "POST" e))
        otherwise (some bytes) e = rw e (quiet, not_posted (==_false verb "POST" e))

    -- A request over HTTP leaves the scheduler as it is, or it is a POST whose body reads as a call of a
    -- tool, and then it is the scheduler's own cancel, or its own enqueue, of the issue that the call
    -- names by a positive number under that tool's name. What is no POST gets a 405; a body that cannot
    -- be read or decoded, an error with no id; a message with no id, nothing; and any other message, a
    -- response with its id.
    pub handle_http-Answered :
        Leaves s (handle_http h params_of decode verb body s).1
        × Answered (handle_http h params_of decode verb body s).0
    handle_http-Answered = http-Leaves body refl
