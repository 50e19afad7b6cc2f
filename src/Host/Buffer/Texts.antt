-- ===== src/Host/Buffer/Texts.antt =====
-- What the stores into a char array of tuya_daemon/connection.c leave in it.
use tuya_daemon.Base.{
  ℕ, zero, suc, ◌+◌, ◌≡◌, refl, false, [], ◌∷◌, ◌++◌, length, ◌==◌, arith, ap, ◌∙◌, ltb, leb, true,
  length-append,
}
use tuya_daemon.World.{Bytes, Sys, done}
use tuya_daemon.Host.Buffer.{zeros, c_string, set, store, set_all, store_all}

-- A text with no NUL in it.
abbrev pub NoNul : Bytes → Type 0
NoNul [] = Unit
NoNul (c ∷ s) = ((c == 0) ≡ false) × NoNul s

pub NoNul-append : (s s' : Bytes) → NoNul s → NoNul s' → NoNul (s ++ s')
NoNul-append [] s' h h' = h'
NoNul-append (c ∷ s) s' (nz, h) h' = (nz, NoNul-append s s' h h')

pub c_string-append : (s r : Bytes) → NoNul s → c_string (s ++ r) ≡ s ++ c_string r
unfolding c_string
c_string-append [] r h = refl
c_string-append (c ∷ s) r (nz, h) = rw nz (ap (λ (x : Bytes). c ∷ x) (c_string-append s r h))

pub length-zeros : (n : ℕ) → length (zeros n) ≡ n
length-zeros zero = refl
length-zeros (suc n) = ap suc (length-zeros n)

zeros_add : (m n : ℕ) → zeros (m + n) ≡ zeros m ++ zeros n
zeros_add zero n = ap zeros (omega arith)
zeros_add (suc m) n =
    let e : suc m + n ≡ suc (m + n) = omega arith in
    ap zeros e ∙ ap (λ (x : Bytes). 0 ∷ x) (zeros_add m n)

set-append : (s r : Bytes) (i v : ℕ) → set (s ++ r) (length s + i) v ≡ s ++ set r i v
set-append [] r i v = ap (λ (k : ℕ). set r k v) (omega arith)
set-append (c ∷ s) r i v =
    let e : suc (length s) + i ≡ suc (length s + i) = omega arith in
    ap (λ (k : ℕ). set (c ∷ s ++ r) k v) e ∙ ap (λ (x : Bytes). c ∷ x) (set-append s r i v)

set_all-suc :
    (vs : Bytes) (c : ℕ) (b : Bytes) (i : ℕ) → set_all (c ∷ b) (suc i) vs ≡ c ∷ set_all b i vs
set_all-suc [] c b i = refl
set_all-suc (v ∷ vs) c b i = set_all-suc vs c (set b i v) (suc i)

set_all-zeros : (vs rest : Bytes) → set_all (zeros (length vs) ++ rest) 0 vs ≡ vs ++ rest
set_all-zeros [] rest = refl
set_all-zeros (v ∷ vs) rest =
    set_all-suc vs v (zeros (length vs) ++ rest) 0
    ∙ ap (λ (x : Bytes). v ∷ x) (set_all-zeros vs rest)

set_all-append : (s r vs : Bytes) → set_all (s ++ r) (length s) vs ≡ s ++ set_all r 0 vs
set_all-append [] r vs = refl
set_all-append (c ∷ s) r vs =
    set_all-suc vs c (s ++ r) (length s) ∙ ap (λ (x : Bytes). c ∷ x) (set_all-append s r vs)

-- A text stored into the zeros behind another.
pub store_all-zeros :
    (s vs : Bytes) (k : ℕ) (t : Sys)
    → store_all (s ++ zeros (length vs + k)) (length s) vs t ≡ done (s ++ (vs ++ zeros k)) t
unfolding store_all
store_all-zeros s vs k t =
    let room : leb (length s + length vs) (length (s ++ zeros (length vs + k))) ≡ true =
      rw (length-append, length-zeros) (ground arith) in
    rw room (
      ap (λ (b : Bytes). done b t)
        (set_all-append s (zeros (length vs + k)) vs
          ∙ ap (λ (x : Bytes). s ++ x)
              (ap (λ (x : Bytes). set_all x 0 vs) (zeros_add (length vs) k)
                ∙ set_all-zeros vs (zeros k))))

pub store-append :
    (s r : Bytes) (i v : ℕ) (t : Sys)
    → ltb i (length r) ≡ true
    → store (s ++ r) (length s + i) v t ≡ done (s ++ set r i v) t
unfolding store
store-append s r i v t h =
    let room : ltb (length s + i) (length (s ++ r)) ≡ true = rw length-append (ground arith) in
    rw room (ap (λ (b : Bytes). done b t) (set-append s r i v))
