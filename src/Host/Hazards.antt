-- ===== src/Host/Hazards.antt =====
-- tuya_daemon/connection.c: what a message can do to the PC daemon.
use tuya_daemon.Base.{◌≡◌, refl, Option, none, some, Option-cases, inl, inr}
use tuya_daemon.Thing.{property_set}
use tuya_daemon.World.{CharPtr, Json, Message, Env, Sys, null_deref}
use tuya_daemon.World.Logic
use tuya_daemon.World.Logic.{Returns, ends, View, At, At-view, tell-Keeps, malloc-Keeps, Keeps}
use tuya_daemon.World.Faults.{Faults, faults, after, through}
use tuya_daemon.Host.Connection.{
  parse_valuestring, set_property, property_set_message, handle_type, on_messages,
}

valuestring-Returns :
    (env : Env) (o : Option Json) {v : View} (t : Sys)
    → At v t
    → Returns (λ _ _. Unit) (parse_valuestring env o t)
unfolding parse_valuestring
valuestring-Returns env none t at = ends tt
valuestring-Returns env (some j) t at = elim (Option-cases (env.valuestring j)) [
  | inl nothing ↦ rw (parse_valuestring, nothing) (ends tt)
  | inr (text, there) ↦
      rw (parse_valuestring, there) (Logic.bind (malloc-Keeps env at) λ a u k. ends tt)
]

module _ (env : Env) (msg : Message) (json member : Json) where
  set_property_nameless :
      (p : CharPtr) (t : Sys)
      → env.json_name member ≡ none
      → Faults null_deref (set_property env (some member) p t)
  unfolding set_property
  set_property_nameless p t nameless = rw (set_property, nameless) faults

  -- If a message is a PROPERTY_SET whose text parses to a value with a first child that has no
  -- name, as the elements of an array have none, then `on_messages` of the PC daemon passes NULL to
  -- `strcmp`, in every state.
  pub on_messages_element :
      (t : Sys)
      → msg.type ≡ property_set
      → env.cjson_parse msg.data_string ≡ some json
      → env.child json ≡ some member
      → env.json_name member ≡ none
      → Faults null_deref (on_messages env msg t)
  unfolding on_messages handle_type property_set_message
  on_messages_element t set parsed element nameless =
      after (tell-Keeps env (At-view t) _ refl) λ _ u k. rw set (
        after (tell-Keeps env k _ refl) λ _ u1 k1. after (tell-Keeps env k1 _ refl) λ _ u2 k2.
          rw parsed (
            after (malloc-Keeps env k2) λ a u3 k3. rw element (
              after (valuestring-Returns env (some member) u3 k3)
                λ p u4 _. through _ (set_property_nameless p u4 nameless))))
