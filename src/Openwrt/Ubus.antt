-- ===== src/Openwrt/Ubus.antt =====
-- The calls of libubus and blobmsg that send_info.c makes, over the environment's answers.
use tuya_daemon.Base.{ℕ, Bool, Option, none, some, List, [], ◌∷◌, String, ℤ, if◌then◌else◌}
use tuya_daemon.World.{
  CharPtr, null, block, unset, Field, Event, Blob, Env, Cmd, pure, ◌>>=◌, ◌>>◌, read, call, tell,
  malloc, free_block, touch,
}

-- `struct ubus_response`; the flag is `none` while it is uninitialised.
pub record UbusResponse : Type 0 where
  pub request_successful : Option Bool
  pub data_json : CharPtr

abbrev pub uninitialised_response : UbusResponse
uninitialised_response = record { request_successful = none; data_json = unset }

-- `req->priv` is the response, and each reply of the service is one call of the callback.
abbrev pub DataCallback : Type 0
DataCallback = Blob → UbusResponse → Cmd UbusResponse

unfoldable pub handle_replies : DataCallback → List Blob → UbusResponse → Cmd UbusResponse
handle_replies cb [] resp = pure resp
handle_replies cb (msg ∷ msgs) resp = do resp' ← cb msg resp; handle_replies cb msgs resp'

module _ (env : Env) where
  -- The replies and the status are those that the environment decides on when the request starts.
  unfoldable pub ubus_invoke :
      ℕ → ℕ → String → List Field → DataCallback → UbusResponse → Cmd (ℤ × UbusResponse)
  ubus_invoke ubus_ctx id method fields cb resp = do
    touch env ubus_ctx
    replies ← read (λ s. env.ubus_replies s.history)
    ret ← read (λ s. env.ubus_invoke s.history)
    resp' ← handle_replies cb replies resp
    tell env (Event.ubus_invoke id method fields ret)
    pure (ret, resp')

  -- The formatted text is a new heap block, NULL if the library cannot build it.
  unfoldable pub blobmsg_format_json : Blob → Cmd CharPtr
  blobmsg_format_json attr = elim (env.blobmsg_format_json attr) [
    | none ↦ pure null
    | some t ↦ do a ← malloc env; pure (block a t)
  ]

  -- True unless the call returned -1.
  unfoldable pub blobmsg_add : Field → Cmd Bool
  blobmsg_add field = call env env.blobmsg_add (Event.blobmsg_add field)

  -- The address of the new connection, 0 for NULL.
  unfoldable pub ubus_connect : Cmd ℕ
  ubus_connect = do
    up ← read (λ s. env.ubus_connect s.history)
    if up
        then (do a ← malloc env; tell env (Event.ubus_connect a); pure a)
        else (do tell env (Event.ubus_connect 0); pure 0)

  unfoldable pub ubus_free : ℕ → Cmd (Unit {0})
  ubus_free ubus_ctx = do
    touch env ubus_ctx
    free_block env ubus_ctx
    tell env (Event.ubus_free ubus_ctx)
