-- ===== src/Openwrt/Walks/Wanted.antt =====
-- openwrt/tuya_daemon/src/connection.c: which request to a ubus service a message asks for, read
-- off the message alone, and that no other is made.
pub mod Asks
use tuya_daemon.Base.{
  ℕ, ◌^◌, ◌≡◌, refl, true, false, Option, none, some, List, [], ◌∷◌, String, ℤ, pos, negsuc, ltb,
  strcmp_eq, if◌then◌else◌, Bool-cases, inl, inr, Option-cases,
}
use tuya_daemon.World.{
  CharPtr, Field, text, number, Event, Json, Message, Env, Sys, Cmd, tell, malloc, free_block, ◌>>◌,
  ◌>>=◌, skip, syslog, log_warning, and_then,
}
use tuya_daemon.World.Steps.{Walk, pure-Walk, fault-Walk, bind, malloc-Walk, free_block-Walk, final}
use tuya_daemon.Openwrt.SendInfo.{control_device_pin}
use tuya_daemon.Openwrt.Connection.{
  to_uint32, is_action_execute, action_arguments, device_action, requested_action, run_action,
  execute_action, on_messages,
}
use tuya_daemon.Openwrt.Walks.{Ordinary, told}
use tuya_daemon.Openwrt.Walks.Senders.{send_connected_devices_list-Walk, control_device_pin-Walk}
use tuya_daemon.World.Steps.Invariants.{Adds, Reach-Adds}

-- The number of a pin: the integral part of a number, if it fits 32 bits.
abbrev pub pin_number : Option ℤ → Option ℕ
pin_number none = none
pin_number (some (negsuc n)) = none
pin_number (some (pos n)) = if ltb n (2 ^ 32) then some n else none

-- The method that drives a pin, for the name of an action.
abbrev pub pin_method : String → Option String
pin_method name =
    if strcmp_eq name "turn_on_pin"
    then some "turn_on_pin"
    else if strcmp_eq name "turn_off_pin"
    then some "turn_off_pin"
    else none

-- A request: a method and its fields.
abbrev pub Request : Type 0
Request = String × List Field

abbrev pub pin_fields : String → ℕ → List Field
pin_fields device pin = text "device" device ∷ number "pin" pin ∷ []

abbrev pub pin_request : Option String → Option (String × Json) → (Json → Option ℕ) → Option Request
pin_request (some method) (some (device, json)) pin_of = elim (pin_of json) [
  | none ↦ none
  | some pin ↦ some (method, pin_fields device pin)
]
pin_request _ _ _ = none

module _ (env : Env) where
  abbrev pub wanted_by : Option Json → String → Option Request
  wanted_by tree name =
      if strcmp_eq name "list_devices"
      then some ("list_devices", [])
      else pin_request (pin_method name) (action_arguments env tree)
          (λ json. pin_number (env.valuedouble json))

  abbrev pub wanted_in : Option Json → Option Request
  wanted_in tree = elim (requested_action env tree) [
    | none ↦ none
    | some name ↦ wanted_by tree name
  ]

  -- The request that the code makes of a message.
  unfoldable pub wanted : Message → Option Request
  wanted msg =
      if is_action_execute msg.type then wanted_in (env.cjson_parse msg.data_string) else none

-- Of the requests to ubus services, only `request` may be made, if there is one.
pub data Only (request : Option Request) : Event → Type 0 where
  ordinary : (e : Event) → Ordinary e → Only request e
  reports : (p : CharPtr) (ret : ℤ) → Only request (Event.property_report p ret)
  requests :
      (id : ℕ) (method : String) (fields : List Field) (ret : ℤ)
      → request ≡ some (method, fields)
      → Only request (Event.ubus_invoke id method fields ret)

module _ {env : Env} {Loops : Type 0} where
  -- The branches of `device_action` on the name, at the number of a pin.
  named-Walk :
      {s : Sys} (c : ℕ) (name device : String) (pin : ℕ) (request : Option Request)
      → ((method : String)
          → pin_method name ≡ some method
          → request ≡ some (method, pin_fields device pin))
      → Walk env (Only request) Loops s (
          (if strcmp_eq name "turn_on_pin"
              then (do _ ← control_device_pin env c true device pin; skip)
              else if strcmp_eq name "turn_off_pin"
              then (do _ ← control_device_pin env c false device pin; skip)
              else syslog env log_warning "Unrecognized action requested: %s")
            s)
  named-Walk c name device pin request asks = elim (Bool-cases (strcmp_eq name "turn_on_pin")) [
    | inl on ↦ rw on (
        bind
          (control_device_pin-Walk ordinary reports c true device pin
            (λ id ret. requests id _ _ ret (asks _ (rw on refl))))
          λ _ _. pure-Walk)
    | inr not_on ↦ elim (Bool-cases (strcmp_eq name "turn_off_pin")) [
      | inl off ↦
          rw (not_on, off)
            (bind
              (control_device_pin-Walk ordinary reports c false device pin
                (λ id ret. requests id _ _ ret (asks _ (rw (not_on, off) refl))))
              λ _ _. pure-Walk)
      | inr neither ↦ rw (not_on, neither) (told ordinary _ tt)
    ]
  ]

  pin-Walk :
      {s : Sys} (c : ℕ) (name device : String) (json : Json) (d : Option ℤ)
      (request : Option Request)
      → ((method : String) (pin : ℕ)
          → pin_method name ≡ some method
          → pin_number d ≡ some pin
          → request ≡ some (method, pin_fields device pin))
      → Walk env (Only request) Loops s (
          and_then (to_uint32 d s) λ pin.
            if strcmp_eq name "turn_on_pin"
            then (do _ ← control_device_pin env c true device pin; skip)
            else if strcmp_eq name "turn_off_pin"
            then (do _ ← control_device_pin env c false device pin; skip)
            else syslog env log_warning "Unrecognized action requested: %s")
  unfolding to_uint32
  pin-Walk c name device json none request asks = fault-Walk
  pin-Walk c name device json (some (negsuc n)) request asks = fault-Walk
  pin-Walk c name device json (some (pos n)) request asks = elim (Bool-cases (ltb n (2 ^ 32))) [
    | inl small ↦
        rw small (named-Walk c name device n request λ method m. asks method n m (rw small refl))
    | inr large ↦ rw large fault-Walk
  ]

  run_action-Walk :
      {s : Sys} (c : ℕ) (tree : Option Json)
      → Walk env (Only (wanted_in env tree)) Loops s (run_action env c tree s)
  unfolding run_action device_action
  run_action-Walk {s} c tree = elim (Option-cases (requested_action env tree)) [
    | inl nothing ↦ rw (run_action, nothing) (told ordinary _ tt)
    | inr (name, named) ↦
        rw (run_action, named)
          (elim (Bool-cases (strcmp_eq name "list_devices")) [
            | inl list ↦ rw list (
                bind
                  (send_connected_devices_list-Walk ordinary reports c
                    λ id ret. requests id _ _ ret (rw (wanted_in, named, list) refl))
                  λ _ _. pure-Walk)
            | inr other ↦ rw other (elim (Option-cases (action_arguments env tree)) [
              | inl bad ↦ rw bad (told ordinary _ tt)
              | inr (args, present) ↦ rw present (
                  pin-Walk c name args.0 args.1 (env.valuedouble args.1) _
                    λ method pin m p. rw (wanted_in, named, other, present, m, pin_request, p) refl)
            ])
          ])
  ]

  execute_action-Walk :
      {s : Sys} (data_string : String) (c : ℕ)
      → Walk env
          (Only (wanted_in env (env.cjson_parse data_string)))
          Loops
          s
          (execute_action env data_string c s)
  unfolding execute_action
  execute_action-Walk data_string c =
      bind (told ordinary Event.json_parse tt) λ _ u. go u (env.cjson_parse data_string)
    where
      go :
          (u : Sys) (tree : Option Json)
          → Walk env (Only (wanted_in env tree)) Loops u (
              (elim tree as (λ _. Cmd (Unit {0})) [
                | none ↦ do run_action env c none; tell env Event.json_delete
                | some json ↦ do
                  full_data ← malloc env
                  run_action env c (some json)
                  free_block env full_data
                  tell env Event.json_delete
              ])
                u)
      go u none = bind (run_action-Walk c none) λ _ v. told ordinary _ tt
      go u (some json) = bind malloc-Walk λ a v.
          bind (run_action-Walk c (some json))
            λ _ w. bind (free_block-Walk a) λ _ x. told ordinary _ tt

  pub on_messages-Walk :
      {s : Sys} (c : ℕ) (msg : Message)
      → Walk env (Only (wanted env msg)) Loops s (on_messages env c msg s)
  unfolding on_messages wanted
  on_messages-Walk c msg = bind (told ordinary _ tt) λ _ u.
      elim (Bool-cases (is_action_execute msg.type)) [
        | inl act ↦ rw act (execute_action-Walk msg.data_string c)
        | inr other ↦ rw other (told ordinary _ tt)
      ]
