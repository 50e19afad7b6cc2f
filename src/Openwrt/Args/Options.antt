-- ===== src/Openwrt/Args/Options.antt =====
-- What openwrt/tuya_daemon/src/args.c accepts: the digits, the flags, and the options of UCI.
use tuya_daemon.Base.{
  ℕ, ◌+◌, ◌≤◌, ◌≡◌, refl, ◌↔◌, inl, inr, Bool, true, false, not, Option, none, some, [], ◌∷◌,
  String, arith, Bool-cases, if◌then◌else◌, ◌∙◌, member, ap, sym,
}
use tuya_daemon.World.{
  Bytes, block, UciStatus, uci_ok, uci_err_notfound, uci_err_other, UciPtr, Sys, Env, deref, pure,
  syslog, log_err, ◌>>◌,
}
use tuya_daemon.World.Logic
use tuya_daemon.World.Logic.{
  Returns, ends, View, with_blocks, At, tell-Keeps, call-Keeps, malloc-Keeps, free_block-Keeps,
  deref-Keeps,
}
use tuya_daemon.Openwrt.Args.{uci_check_success, uci_get_option, str_eq, str_to_bool, str_to_digit}

str_to_digit_complete : (d : ℕ) → d ≤ 9 → str_to_digit ((48 + d) ∷ []) ≡ some d
unfolding str_to_digit
str_to_digit_complete d h = ground arith

str_to_digit_sound : (s : Bytes) {d : ℕ} → str_to_digit s ≡ some d → (d ≤ 9) × (s ≡ (48 + d) ∷ [])
unfolding str_to_digit
str_to_digit_sound [] h = absurd (cc)
str_to_digit_sound (c ∷ []) h = ground arith
str_to_digit_sound (c ∷ e ∷ s) h = ground arith

-- For every text and number: `str_to_digit` accepts the text with the number if and only if the
-- number is at most 9 and the text is the one byte of its digit.
pub str_to_digit_iff :
    (s : Bytes) (d : ℕ) → (str_to_digit s ≡ some d) ↔ ((d ≤ 9) × (s ≡ (48 + d) ∷ []))
str_to_digit_iff s d = (str_to_digit_sound s, λ h. rw (h.1) (str_to_digit_complete d h.0))

-- The text of a flag.
abbrev pub flag : Bool → Bytes
flag true = b'1' ∷ []
flag false = b'0' ∷ []

str_to_bool_sound : (s : Bytes) {b : Bool} → str_to_bool s ≡ some b → s ≡ flag b
unfolding str_to_bool str_eq
str_to_bool_sound [] h = cc
str_to_bool_sound (c ∷ []) {b} h = ground arith
str_to_bool_sound (c ∷ e ∷ s) h = ground arith

str_to_bool_complete : (b : Bool) → str_to_bool (flag b) ≡ some b
unfolding str_to_bool str_eq
str_to_bool_complete true = refl
str_to_bool_complete false = refl

-- For every text and flag: `str_to_bool` accepts the text with the flag if and only if the text is
-- "1" for true or "0" for false.
pub str_to_bool_iff : (s : Bytes) (b : Bool) → (str_to_bool s ≡ some b) ↔ (s ≡ flag b)
str_to_bool_iff s b = (str_to_bool_sound s, λ e. rw e (str_to_bool_complete b))

-- The value of an option: a complete lookup of a string.
abbrev pub option_value : UciStatus → UciPtr → Option Bytes
option_value uci_err_notfound p = none
option_value _ p = if p.complete then (if p.is_string then some p.value else none) else none

module _ (env : Env) {v : View} where
  check-Keeps :
      (status : UciStatus) (p : UciPtr) (name : String) {t : Sys}
      → At v t
      → Returns
          (λ b u.
            At v u
            × (option_value status p
                ≡ (if b then (if p.is_string then some p.value else none) else none)))
          (uci_check_success env status p name t)
  unfolding uci_check_success
  check-Keeps uci_err_notfound p name at = Logic.bind (malloc-Keeps env at) λ a u k.
      Logic.bind (tell-Keeps env k _ refl)
        λ _ u1 k1. Logic.bind (free_block-Keeps env k1 a v.blocks refl) λ _ u2 k2. ends (k2, refl)
  check-Keeps uci_ok p name at = elim (Bool-cases p.complete) [
    | inl c ↦ rw c (ends (at, refl))
    | inr c ↦ rw c (Logic.bind (tell-Keeps env at _ refl) λ _ u k. ends (k, refl))
  ]
  check-Keeps uci_err_other p name at = elim (Bool-cases p.complete) [
    | inl c ↦ rw c (ends (at, refl))
    | inr c ↦ rw c (Logic.bind (tell-Keeps env at _ refl) λ _ u k. ends (k, refl))
  ]

  -- The end of `uci_get_option`, after the check.
  pick-Value :
      (found : Bool) (p : UciPtr) (o : Option Bytes) {t : Sys}
      → At v t
      → o ≡ (if found then (if p.is_string then some p.value else none) else none)
      → Returns
          (λ r u. At v u × (r ≡ o))
          ((if not found
              then pure none
              else if not p.is_string
              then (do
                syslog env log_err
                    "Option '%s' value is of unexpected type: expected UCI_TYPE_STRING, got %u"
                pure none)
              else pure (some p.value))
            t)
  pick-Value false p o at e = ends (at, sym e)
  pick-Value true p o at e = elim (Bool-cases p.is_string) [
    | inl text ↦ rw text (ends (at, sym (e ∙ rw text)))
    | inr other ↦
        rw other (Logic.bind (tell-Keeps env at _ refl) λ _ u k. ends (k, sym (e ∙ rw other)))
  ]

  -- If the option's name is a live heap block, `uci_get_option` returns, with no block allocated or
  -- lost, and its result is the text of the option exactly when the lookup did not answer "not
  -- found", was complete, and found a string; in all other cases it is NULL.
  pub uci_get_option-Value :
      (a : ℕ) (name const_option : String) {t : Sys}
      → At v t
      → member a v.blocks ≡ true
      → Returns
          (λ r u.
            At v u
            × (r ≡ option_value (env.uci_lookup_ptr t.history name) (env.uci_ptr t.history name)))
          (uci_get_option env (block a name) const_option t)
  unfolding uci_get_option deref
  uci_get_option-Value a name const_option {t} at live =
      let l : member a t.blocks ≡ true = rw at.blocks live in
      let ptr = env.uci_ptr t.history name in
      rw l (
        Logic.bind (call-Keeps env at (λ h. env.uci_lookup_ptr h name) _ (λ _. refl))
          λ status u (k, e).
            Logic.bind (check-Keeps status ptr const_option k) λ found w (k', value).
              Logic.mono (pick-Value found ptr (option_value status ptr) k' value)
                λ r x (k'', e'). (k'', e' ∙ ap (λ (y : UciStatus). option_value y ptr) e))
