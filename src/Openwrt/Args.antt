-- ===== src/Openwrt/Args.antt =====
-- openwrt/tuya_daemon/src/args.c: options from UCI, and the conversions of their values.
pub mod Options
use tuya_daemon.Base.{
  ℕ, ◌-◌, Bool, true, false, not, ◌||◌, Option, none, some, [], ◌∷◌, String, length, ltb, ◌==◌,
  if◌then◌else◌,
}
use tuya_daemon.World.{
  Bytes, CharPtr, UciStatus, uci_err_notfound, UciPtr, Event, Env, Cmd, pure, ◌>>=◌, ◌>>◌, read,
  call, syslog, malloc, free_block, deref, log_err,
}

module _ (env : Env) where
  unfoldable pub uci_check_success : UciStatus → UciPtr → String → Cmd Bool
  uci_check_success uci_err_notfound ptr option_name = do
    error ← malloc env
    syslog env log_err "Option '%s' not found%s"
    free_block env error
    pure false
  uci_check_success _ ptr option_name =
      if not ptr.complete
      then (do syslog env log_err "Option '%s' not found"; pure false)
      else pure true

  -- `none` is NULL. The lookup reads the name from the caller's copy, which libuci may modify.
  unfoldable pub uci_get_option : CharPtr → String → Cmd (Option Bytes)
  uci_get_option option const_option = do
    name ← deref env option
    ptr ← read (λ s. env.uci_ptr s.history name)
    ret ← call env (λ h. env.uci_lookup_ptr h name) (Event.uci_lookup_ptr name)
    found ← uci_check_success ret ptr const_option
    if not found
        then pure none
        else if not ptr.is_string
        then (do
          syslog env log_err
              "Option '%s' value is of unexpected type: expected UCI_TYPE_STRING, got %u"
          pure none)
        else pure (some ptr.value)

-- `strcmp(str, t) == 0`, on the bytes before the NUL.
unfoldable pub str_eq : Bytes → Bytes → Bool
str_eq [] [] = true
str_eq [] (y ∷ ys) = false
str_eq (x ∷ xs) [] = false
str_eq (x ∷ xs) (y ∷ ys) = if x == y then str_eq xs ys else false

-- The returned flag and `*result` together: `none` is false, with `*result` not written.
unfoldable pub str_to_bool : Bytes → Option Bool
str_to_bool str =
    if str_eq str (b'1' ∷ [])
    then some true
    else if str_eq str (b'0' ∷ [])
    then some false
    else none

abbrev pub first_byte : Bytes → ℕ
first_byte [] = 0
first_byte (c ∷ _) = c

unfoldable pub str_to_digit : Bytes → Option ℕ
str_to_digit str =
    if not (length str == 1)
    then none
    else if ltb (first_byte str) 48 || ltb 57 (first_byte str)
    then none
    else some (first_byte str - 48)
