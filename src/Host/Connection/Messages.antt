-- ===== src/Host/Connection/Messages.antt =====
-- tuya_daemon/connection.c: the messages from the cloud, and the clean-up of the format.
use tuya_daemon.Base.{
  ℕ, ◌≡◌, refl, Bool-cases, inl, inr, Bool, true, Option, none, some, List, ◌∷◌, String,
  Option-cases, strcmp_eq, if◌then◌else◌,
}
use tuya_daemon.Thing.{ThingType, property_set, property_report_rsp}
use tuya_daemon.World.{CharPtr, null, block, Sys, Json, Message, Env, free, skip}
use tuya_daemon.World.Logic
use tuya_daemon.World.Logic.{
  Returns, ends, View, with_blocks, At, Keeps, At-note, tell-Keeps, malloc-Keeps, free_block-Keeps,
  free_second-Keeps,
}
use tuya_daemon.Host.Connection.{
  free_date_time_format, parse_valuestring, cjson_delete, set_property, property_set_message,
  handle_type, on_messages,
}
use tuya_daemon.Host.Connection.Format.{
  ValidJson, Leaves, Owns, OwnedFormat, At-with, remove-Keeps, delete-Keeps, delete_text-Keeps,
  with_format, renewed, Settled, settled, set_date_time_format-Leaves, static, dynamic,
}

-- The format of the time that a member of an object asks for, given its name and its text.
abbrev wanted_value : String → Option String → Option String
wanted_value name value = if strcmp_eq name "date_time_format" then value else none

-- The one that the first member of a JSON value asks for.
abbrev wanted_member : Env → Option Json → Option String
wanted_member env none = none
wanted_member env (some d) = elim (env.json_name d) [
  | none ↦ none
  | some name ↦ wanted_value name (env.valuestring d)
]

member-wanted :
    (env : Env) (d : Json) {name : String}
    → env.json_name d ≡ some name
    → wanted_member env (some d) ≡ wanted_value name (env.valuestring d)
member-wanted env d e = rw (e, wanted_member) refl

-- The format of the time that a message asks for: it is a PROPERTY_SET with a JSON text whose first
-- member is called date_time_format and is a text.
abbrev pub wanted_format : Env → ThingType → String → Option String
wanted_format env property_set text = elim (env.cjson_parse text) [
  | none ↦ none
  | some json ↦ wanted_member env (env.child json)
]
wanted_format env _ text = none

module _ (env : Env) {v : View} {bs : List ℕ} (own : Owns bs v) where
  -- The clean-up of a message that has set nothing, and of one that has set the format.
  finish-Settled :
      (f : ℕ) {t : Sys}
      → At (with_blocks (f ∷ v.blocks) v) t
      → Returns (λ _ u. Settled bs v none u) (cjson_delete env f null t)
  finish-Settled f at = Logic.mono (delete-Keeps env at f v.blocks refl) λ _ u k. settled own k

  left-Settled :
      (f a : ℕ) (text : String) {now : List ℕ} {t : Sys}
      → Leaves f a bs now
      → At (with_format true (block a text) now v) t
      → Returns (λ _ u. Settled bs v (some text) u) (cjson_delete env f null t)
  unfolding cjson_delete free
  left-Settled f a text l at = Logic.bind (remove-Keeps env at f l.live) λ _ u k.
      Logic.mono (tell-Keeps env k _ refl) λ _ u1 k1. record {
        flag = true;
        format = block a text;
        now = a ∷ bs;
        owned = dynamic a text;
        follows = renewed a text;
        at = At-with _ k1 l.left;
      }

-- `data->valuestring` as it is handed on: NULL, or a heap block of its own.
data Given (v : View) : Option String → CharPtr → Sys → Type 0 where
  no_text : {u : Sys} → At v u → Given v none null u
  with_text :
      (a : ℕ) (x : String) {u : Sys}
      → At (with_blocks (a ∷ v.blocks) v) u
      → Given v (some x) (block a x) u

-- What `cJSON_Delete` has to free after the property has been set, or has not.
data Rest (bs : List ℕ) (v : View) (f : ℕ) : Option String → CharPtr → Sys → Type 0 where
  nothing : {u : Sys} → At (with_blocks (f ∷ v.blocks) v) u → Rest bs v f none null u
  unused :
      (a : ℕ) (x : String) {u : Sys}
      → At (with_blocks (a ∷ f ∷ v.blocks) v) u
      → Rest bs v f none (block a x) u
  taken :
      (a : ℕ) (x : String) {now : List ℕ} {u : Sys}
      → Leaves f a bs now
      → At (with_format true (block a x) now v) u
      → Rest bs v f (some x) null u

module _ (env : Env) {v : View} {bs : List ℕ} (own : Owns bs v) where
  set_property-Rest :
      (f : ℕ) (data_json : Json) (name : String) {value : Option String} {p : CharPtr} {t : Sys}
      → env.json_name data_json ≡ some name
      → Given (with_blocks (f ∷ v.blocks) v) value p t
      → Returns (Rest bs v f (wanted_value name value)) (set_property env (some data_json) p t)
  unfolding set_property
  set_property-Rest f data_json name e (no_text at) =
      rw (e, set_property)
        (elim (Bool-cases (strcmp_eq name "date_time_format")) [
          | inr other ↦ rw other (Logic.bind (tell-Keeps env at _ refl) λ _ u k. ends (nothing k))
          | inl this ↦ rw this (Logic.bind (tell-Keeps env at _ refl) λ _ u k. ends (nothing k))
        ])
  set_property-Rest f data_json name e (with_text a x at) =
      rw (e, set_property)
        (elim (Bool-cases (strcmp_eq name "date_time_format")) [
          | inr other ↦
              rw other (Logic.bind (tell-Keeps env at _ refl) λ _ u k. ends (unused a x k))
          | inl this ↦ rw this (
              Logic.bind (set_date_time_format-Leaves env at f a x own refl) λ _ u (now, l, k).
                Logic.bind (tell-Keeps env k _ refl) λ _ u1 k1. ends (taken a x l k1))
        ])

  set_property_missing-Rest :
      (f : ℕ) {t : Sys}
      → At (with_blocks (f ∷ v.blocks) v) t
      → Returns (Rest bs v f none) (set_property env none null t)
  unfolding set_property
  set_property_missing-Rest f at = Logic.bind (tell-Keeps env at _ refl) λ _ u k. ends (nothing k)

  delete-Settled :
      (f : ℕ) {wanted : Option String} {p : CharPtr} {t : Sys}
      → Rest bs v f wanted p t
      → Returns (λ _ u. Settled bs v wanted u) (cjson_delete env f p t)
  delete-Settled f (nothing at) = finish-Settled env {v = v} own f at
  delete-Settled f (taken a x l at) = left-Settled env {v = v} own f a x l at
  delete-Settled f (unused a x at) =
      Logic.mono (delete_text-Keeps env at f a x v.blocks refl) λ _ u k. settled own k

parse_valuestring-Given :
    (env : Env) {v : View} (data_json : Json) {t : Sys}
    → At v t
    → Returns (Given v (env.valuestring data_json)) (parse_valuestring env (some data_json) t)
unfolding parse_valuestring
parse_valuestring-Given env data_json at = elim (Option-cases (env.valuestring data_json)) [
  | inl e ↦ rw (e, parse_valuestring) (ends (no_text at))
  | inr (x, e) ↦
      rw (e, parse_valuestring) (Logic.bind (malloc-Keeps env at) λ a u k. ends (with_text a x k))
]

module _ (env : Env) (valid : ValidJson env) {v : View} {bs : List ℕ} (own : Owns bs v) where
  property_set_message-Settled :
      (text : String) {t : Sys}
      → At v t
      → Returns
          (λ _ u. Settled bs v (wanted_format env property_set text) u)
          (property_set_message env text t)
  unfolding property_set_message parse_valuestring set_property
  property_set_message-Settled text at =
      let (json, e) = valid.parses text in
      Logic.bind (tell-Keeps env at _ refl) λ _ u k.
        rw (e, wanted_format)
          (Logic.bind (malloc-Keeps env k) λ f u1 k1. elim (Option-cases (env.child json)) [
            | inl e1 ↦
                rw (e1, wanted_format)
                  (Logic.bind (set_property_missing-Rest env {v = v} own f k1)
                    λ p u2 r. delete-Settled env {v = v} own f r)
            | inr (d, e1) ↦
                rw (e1, member-wanted env d (valid.named d).1)
                  (Logic.bind (parse_valuestring-Given env d k1) λ p u2 given.
                    Logic.bind
                      (set_property-Rest env {v = v} own f d (valid.named d).0 (valid.named d).1
                        given)
                      λ p' u3 r. delete-Settled env {v = v} own f r)
          ])

  handle_type-Settled :
      (type : ThingType) (text : String) {t : Sys}
      → At v t
      → Returns (λ _ u. Settled bs v (wanted_format env type text) u) (handle_type env type text t)
  unfolding handle_type
  handle_type-Settled property_set text at =
      Logic.bind (tell-Keeps env at _ refl) λ _ u k. property_set_message-Settled text k
  handle_type-Settled property_report_rsp text at =
      Logic.mono (tell-Keeps env at _ refl) λ _ u k. settled own k
  handle_type-Settled _ text at = Logic.mono (tell-Keeps env at _ refl) λ _ u k. settled own k

  -- If JSON texts parse and members have names, and the format of the time is either a constant or
  -- a heap block with the flag set, then `on_messages` returns without undefined behaviour for
  -- every message, and afterwards the format is the text that the message asks for, if it is a
  -- PROPERTY_SET whose first member is called date_time_format and is a text, and the one from
  -- before otherwise; it is again a constant or a heap block with the flag set, and every other
  -- block that it has allocated, and a format that is replaced, has been freed.
  pub on_messages-Settled :
      (msg : Message) {t : Sys}
      → At v t
      → Returns
          (λ _ u. Settled bs v (wanted_format env msg.type msg.data_string) u)
          (on_messages env msg t)
  unfolding on_messages
  on_messages-Settled msg at =
      Logic.bind (tell-Keeps env at _ refl) λ _ u k. handle_type-Settled msg.type msg.data_string k

module _ (env : Env) {v : View} {bs : List ℕ} (own : Owns bs v) where
  -- If the format of the time is either a constant or a heap block with the flag set,
  -- `free_date_time_format` returns without undefined behaviour, and the live blocks are those of
  -- the other owners.
  pub free_date_time_format-Frees :
      {t : Sys} → At v t → Returns (Keeps (with_blocks bs v)) (free_date_time_format env t)
  unfolding free_date_time_format free
  free_date_time_format-Frees {t} at =
      released t.date_time_format_should_free t.date_time_format
        (rw (at.date_time_format_should_free, at.date_time_format) own) refl
    where
      released :
          (flag : Bool) (format : CharPtr) {now : List ℕ}
          → OwnedFormat bs flag format now
          → v.blocks ≡ now
          → Returns (Keeps (with_blocks bs v)) ((if flag then free env format else skip) t)
      released flag format (static text) e = ends (At-with v at e)
      released flag format (dynamic a text) e = free_block-Keeps env at a bs e
