-- ===== src/Host/Args/Complete.antt =====
-- tuya_daemon/args.c: which keys the parser accepts, and what it asks for at the end.
use tuya_daemon.Base.{
  ℕ, ◌≡◌, refl, ◌↔◌, Option, none, some, List, [], ◌∷◌, ◌==◌, if◌then◌else◌, Bool-cases, inl, inr,
  member,
}
use tuya_daemon.World.{Bytes}
use tuya_daemon.Host.Args.{
  Args, argp_ok, argp_err_unknown, ArgpOption, options, letter, key_end, parse_letter, check_end,
  parse_opt,
}

-- The letters of a table of options.
abbrev pub keys : List ArgpOption → List ℕ
keys [] = []
keys (o ∷ os) = o.key ∷ keys os

-- For every letter, argument and arguments so far: `parse_opt` accepts the letter if it is the key
-- of an option in the table `options`, and refuses it otherwise.
pub parse_opt-letter :
    (c : ℕ) (arg : Option Bytes) (a : Args)
    → (parse_opt (letter c) arg a).status
      ≡ (if member c (keys options) then argp_ok else argp_err_unknown)
unfolding parse_opt parse_letter
parse_opt-letter c arg a = elim (Bool-cases (c == b'i')) [
  | inl e ↦ rw e refl
  | inr e ↦ rw e (elim (Bool-cases (c == b's')) [
    | inl e1 ↦ rw e1 refl
    | inr e1 ↦ rw e1 (elim (Bool-cases (c == b'p')) [
      | inl e2 ↦ rw e2 refl
      | inr e2 ↦ rw e2 (elim (Bool-cases (c == b'd')) [ inl e3 ↦ rw e3 refl | inr e3 ↦ rw e3 refl ])
    ])
  ])
]

check_end_sound :
    (x y z : Option Bytes) (a : Args)
    → (check_end x y z a).status ≡ argp_ok
    → ((i s p : Bytes) × (x ≡ some i) × (y ≡ some s) × (z ≡ some p))
unfolding check_end
check_end_sound none y z a h = cc
check_end_sound (some i) none z a h = cc
check_end_sound (some i) (some s) none a h = cc
check_end_sound (some i) (some s) (some p) a h = (i, s, p, refl, refl, refl)

check_end_complete :
    (x y z : Option Bytes) (a : Args) (i s p : Bytes)
    → x ≡ some i
    → y ≡ some s
    → z ≡ some p
    → (check_end x y z a).status ≡ argp_ok
unfolding check_end
check_end_complete x y z a i s p e1 e2 e3 = rw (e1, e2, e3) refl

-- For all arguments: `parse_opt` accepts the end of the command line if and only if the device id,
-- the device secret and the product id have all been given.
pub parse_opt-end_iff :
    (arg : Option Bytes) (a : Args)
    → ((parse_opt key_end arg a).status ≡ argp_ok) ↔ (
        (i s p : Bytes) × (a.device_id ≡ some i)
        × (a.device_secret ≡ some s)
        × (a.product_id ≡ some p))
unfolding parse_opt
parse_opt-end_iff arg a = (
  check_end_sound a.device_id a.device_secret a.product_id a,
  λ (i, s, p, e1, e2, e3).
      check_end_complete a.device_id a.device_secret a.product_id a i s p e1 e2 e3,
)
