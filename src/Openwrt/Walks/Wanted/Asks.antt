-- ===== src/Openwrt/Walks/Wanted/Asks.antt =====
-- What a message from the cloud asks for, read off the message with the functions of cJSON alone, and
-- that on_messages of openwrt/tuya_daemon/src/connection.c makes no other request.
use tuya_daemon.Base.{subst, sym, ap, some-injective}
use tuya_daemon.Base.{
  ℕ, ◌^◌, ◌<◌, ◌≡◌, refl, arith, inl, inr, true, not, ◌||◌, Option, none, some, List, [], ◌∷◌,
  String, ℤ, pos, negsuc, strcmp_eq, if◌then◌else◌, Bool-cases, Option-cases,
}
use tuya_daemon.Thing.{ThingType, action_execute}
use tuya_daemon.World.{Field, text, number, Event, Json, Message, Env, Sys}
use tuya_daemon.World.Steps.{final}
use tuya_daemon.World.Steps.Invariants.{Adds, Reach-Adds}
use tuya_daemon.Openwrt.Connection.{
  is_absent, both_args, is_action_execute, action_arguments, requested_action, on_messages,
}
use tuya_daemon.Openwrt.Walks.Wanted.{
  pin_number, pin_method, pin_fields, pin_request, Request, wanted_by, wanted_in, wanted, Only,
  on_messages-Walk,
}

-- The member `key` of an object is the text `t`.
pub record HasText (env : Env) (object : Option Json) (key t : String) : Type 0 where
  pub item : Json
  pub found : env.cjson_get_object_item object key ≡ some item
  pub string : env.cjson_get_string_value (some item) ≡ some t

-- The member inputParams of a tree has a text `device`, and a number `pin` of 32 bits.
pub record HasPin (env : Env) (tree : Option Json) (device : String) (pin : ℕ) : Type 0 where
  pub params : Json
  pub given : env.cjson_get_object_item tree "inputParams" ≡ some params
  pub named : HasText env (some params) "device" device
  pub item : Json
  pub found : env.cjson_get_object_item (some params) "pin" ≡ some item
  pub numeric : env.cjson_is_number item ≡ true
  pub value : env.valuedouble item ≡ some (pos pin)
  pub small : pin < 2 ^ 32

-- The requests that a message asks for: it is an ACTION_EXECUTE, its actionCode is the name of the
-- request, and a request that drives a pin has the device and the pin of the message.
pub data Asks (env : Env) (msg : Message) : String → List Field → Type 0 where
  lists :
      (name : String)
      → msg.type ≡ action_execute
      → HasText env (env.cjson_parse msg.data_string) "actionCode" name
      → strcmp_eq name "list_devices" ≡ true
      → Asks env msg "list_devices" []
  turns_on :
      (name device : String) (pin : ℕ)
      → msg.type ≡ action_execute
      → HasText env (env.cjson_parse msg.data_string) "actionCode" name
      → strcmp_eq name "turn_on_pin" ≡ true
      → HasPin env (env.cjson_parse msg.data_string) device pin
      → Asks env msg "turn_on_pin" (text "device" device ∷ number "pin" pin ∷ [])
  turns_off :
      (name device : String) (pin : ℕ)
      → msg.type ≡ action_execute
      → HasText env (env.cjson_parse msg.data_string) "actionCode" name
      → strcmp_eq name "turn_off_pin" ≡ true
      → HasPin env (env.cjson_parse msg.data_string) device pin
      → Asks env msg "turn_off_pin" (text "device" device ∷ number "pin" pin ∷ [])

is_action_execute-eq : (type : ThingType) → is_action_execute type ≡ true → type ≡ action_execute
is_action_execute-eq action_execute h = refl
is_action_execute-eq _ h = absurd (cc)

pin_number-eq :
    (o : Option ℤ) (pin : ℕ) → pin_number o ≡ some pin → (o ≡ some (pos pin)) × (pin < 2 ^ 32)
pin_number-eq none pin h = absurd (cc)
pin_number-eq (some (negsuc n)) pin h = absurd (cc)
pin_number-eq (some (pos n)) pin h = (ground arith, ground arith)

module _ (env : Env) where
  read_text :
      (o : Option Json) (t : String)
      → (if is_absent o then none else env.cjson_get_string_value o) ≡ some t
      → (j : Json) × (o ≡ some j) × (env.cjson_get_string_value (some j) ≡ some t)
  read_text none t h = absurd (cc)
  read_text (some j) t h = (j, refl, h)

  requested-HasText :
      (tree : Option Json) (name : String)
      → requested_action env tree ≡ some name
      → HasText env tree "actionCode" name
  unfolding requested_action
  requested-HasText tree name h =
      let (j, found, string) = read_text (env.cjson_get_object_item tree "actionCode") name h in
      record { item = j; found = found; string = string }

  -- The test of `action_arguments`, at what it has looked up.
  read_arguments :
      (params device : Option Json) (name : Option String) (pin : Option Json) (t : String)
      (p : Json)
      → (elim (both_args name pin) as (λ _. Option (String × Json)) [
        | none ↦ none
        | some (d, q) ↦
            if is_absent params || is_absent device || not (env.cjson_is_number q)
            then none
            else some (d, q)
      ])
        ≡ some (t, p)
      → (a : Json) × (params ≡ some a)
        × ((b : Json) × (device ≡ some b))
        × (name ≡ some t)
        × (pin ≡ some p)
        × (env.cjson_is_number p ≡ true)
  read_arguments params device none pin t p h = absurd (cc)
  read_arguments params device (some n) none t p h = absurd (cc)
  read_arguments none device (some n) (some q) t p h = absurd (cc)
  read_arguments (some a) none (some n) (some q) t p h = absurd (cc)
  read_arguments (some a) (some b) (some n) (some q) t p h =
      (a, refl, (b, refl), ground arith, ground arith, ground arith)

  arguments-HasPin :
      (tree : Option Json) (device : String) (p : Json) (pin : ℕ)
      → action_arguments env tree ≡ some (device, p)
      → pin_number (env.valuedouble p) ≡ some pin
      → HasPin env tree device pin
  unfolding action_arguments
  arguments-HasPin tree device p pin h e =
      let params : Option Json = env.cjson_get_object_item tree "inputParams" in
      let found : Option Json = env.cjson_get_object_item params "device" in
      let (a, e1, (b, e2), e3, e4, e5) =
        read_arguments params found (env.cjson_get_string_value found)
          (env.cjson_get_object_item params "pin") device p h in
      let (e6, small) = pin_number-eq (env.valuedouble p) pin e in
      record {
        params = a;
        given = e1;
        named = record {
          item = b;
          found = subst (λ (x : Option Json). env.cjson_get_object_item x "device" ≡ some b) e1 e2;
          string = subst (λ (x : Option Json). env.cjson_get_string_value x ≡ some device) e2 e3;
        };
        item = p;
        found = subst (λ (x : Option Json). env.cjson_get_object_item x "pin" ≡ some p) e1 e4;
        numeric = e5;
        value = e6;
        small = small;
      }

  -- A request that drives a pin has a method, a device and a pin.
  pin_request-eq :
      (m : Option String) (o : Option (String × Json)) (method : String) (fields : List Field)
      → pin_request m o (λ json. pin_number (env.valuedouble json)) ≡ some (method, fields)
      → (m ≡ some method)
        × ((device : String) × ((p : Json) × ((pin : ℕ) × ((o ≡ some (device, p))
                  × (pin_number (env.valuedouble p) ≡ some pin)
                  × (fields ≡ pin_fields device pin)))))
  pin_request-eq none o method fields h = absurd (cc)
  pin_request-eq (some m) none method fields h = absurd (cc)
  pin_request-eq (some m) (some (d, p)) method fields h =
      read (pin_number (env.valuedouble p)) refl h
    where
      read :
          (n : Option ℕ)
          → pin_number (env.valuedouble p) ≡ n
          → (elim n as (λ _. Option Request) [
            | none ↦ none
            | some pin ↦ some (m, pin_fields d pin)
          ])
            ≡ some (method, fields)
          → (some m ≡ some method)
            × ((device : String) × ((q : Json) × ((pin : ℕ) × ((◌≡◌ {A = Option (String × Json)}
                        (some (d, p))
                        (some (device, q)))
                      × (pin_number (env.valuedouble q) ≡ some pin)
                      × (fields ≡ pin_fields device pin)))))
      read none e g = absurd (cc)
      read (some pin) e g =
          let both = some-injective _ _ g in
          (
            ap (λ (r : Request). some (r.0)) both,
            (d, (p, (pin, (refl, e, sym (ap (λ (r : Request). r.1) both))))),
          )

  drives-Asks :
      (msg : Message) (name method device : String) (p : Json) (pin : ℕ)
      → msg.type ≡ action_execute
      → HasText env (env.cjson_parse msg.data_string) "actionCode" name
      → pin_method name ≡ some method
      → HasPin env (env.cjson_parse msg.data_string) device pin
      → Asks env msg method (pin_fields device pin)
  drives-Asks msg name method device p pin act has m pinned =
      elim (Bool-cases (strcmp_eq name "turn_on_pin")) [
        | inl on ↦
            let e : "turn_on_pin" ≡ method = some-injective _ _ (rw on at m) in
            subst (λ (x : String). Asks env msg x (pin_fields device pin)) e
              (turns_on name device pin act has on pinned)
        | inr not_on ↦ elim (Bool-cases (strcmp_eq name "turn_off_pin")) [
          | inl off ↦
              let e : "turn_off_pin" ≡ method = some-injective _ _ (rw (not_on, off) at m) in
              subst (λ (x : String). Asks env msg x (pin_fields device pin)) e
                (turns_off name device pin act has off pinned)
          | inr neither ↦ let e : none ≡ some method = rw (not_on, neither) at m in absurd (cc)
        ]
      ]

  by_name-Asks :
      (msg : Message) (name method : String) (fields : List Field)
      → msg.type ≡ action_execute
      → HasText env (env.cjson_parse msg.data_string) "actionCode" name
      → wanted_by env (env.cjson_parse msg.data_string) name ≡ some (method, fields)
      → Asks env msg method fields
  by_name-Asks msg name method fields act has h =
      elim (Bool-cases (strcmp_eq name "list_devices")) [
        | inl list ↦
            let both = some-injective _ _ (rw (wanted_by, list) at h) in
            subst (λ (r : Request). Asks env msg r.0 r.1) both (lists name act has list)
        | inr other ↦
            let (m, (device, (p, (pin, (o, n, e))))) =
              pin_request-eq (pin_method name)
                (action_arguments env (env.cjson_parse msg.data_string)) method fields
                (rw (wanted_by, other) at h) in
            subst (λ (fs : List Field). Asks env msg method fs) (sym e)
              (drives-Asks msg name method device p pin act has m
                (arguments-HasPin (env.cjson_parse msg.data_string) device p pin o n))
      ]

  -- What the code makes of a message is what the message asks for.
  pub wanted-Asks :
      (msg : Message) (method : String) (fields : List Field)
      → wanted env msg ≡ some (method, fields)
      → Asks env msg method fields
  unfolding wanted
  wanted-Asks msg method fields h = elim (Bool-cases (is_action_execute msg.type)) [
    | inr other ↦
        let e : ◌≡◌ {A = Option Request} none (some (method, fields)) = rw other at h in absurd (cc)
    | inl act ↦
        let h1 : wanted_in env (env.cjson_parse msg.data_string) ≡ some (method, fields) =
          rw act at h in
        elim (Option-cases (requested_action env (env.cjson_parse msg.data_string))) [
          | inl nothing ↦
              let e : ◌≡◌ {A = Option Request} none (some (method, fields)) =
                rw (wanted_in, nothing) at h1 in
              absurd (cc)
          | inr (name, named) ↦
              by_name-Asks msg name method fields (is_action_execute-eq msg.type act)
                (requested-HasText (env.cjson_parse msg.data_string) name named)
                (rw (wanted_in, named) at h1)
        ]
  ]

-- A request to a ubus service is the one that `msg` asks for.
abbrev pub IsWanted : Env → Message → Event → Type 0
IsWanted env msg (Event.ubus_invoke id method fields ret) = Asks env msg method fields
IsWanted env msg _ = Unit

Only-IsWanted :
    (env : Env) (msg : Message) (e : Event) → Only (wanted env msg) e → IsWanted env msg e
Only-IsWanted env msg (Event.ubus_invoke id m fs ret) (Only.requests _ _ _ _ asks) =
    wanted-Asks env msg m fs asks
Only-IsWanted env msg (Event.ubus_invoke id m fs ret) (Only.ordinary _ h) = absurd h
Only-IsWanted env msg _ _ = tt

-- In every environment and from every state, whatever the outcome: every request to a ubus service
-- that `on_messages` makes is one that the message asks for (`Asks`), which is said with the
-- lookups of cJSON alone: the message is an ACTION_EXECUTE, the string of its item actionCode is
-- the name of the action, and the request is list_devices with no field, or turn_on_pin or
-- turn_off_pin with the string of the item device and the number of the item pin of the item
-- inputParams, which is a number that is not negative and fits 32 bits. For a message of another
-- type or with another name there is no request.
pub on_messages-IsWanted :
    (env : Env) (ubus_ctx : ℕ) (msg : Message) (s : Sys)
    → Adds (IsWanted env msg) s.history (final (on_messages env ubus_ctx msg s)).history
on_messages-IsWanted env ubus_ctx msg s =
    Reach-Adds (Only-IsWanted env msg) (λ _. tt) (λ _. tt)
      (on_messages-Walk {env = env} {Loops = ⊥} ubus_ctx msg).reach
