-- ===== src/Openwrt/Main/Names.antt =====
-- openwrt/tuya_daemon/src/main.c: the four names of the options, copied to the heap and freed.
use tuya_daemon.Base.{
  ℕ, ◌+◌, ◌≡◌, refl, true, List, ◌∷◌, String, arith, ◌∙◌, ap, member, remove, length, sym, subst,
  remove-length, member-remove,
}
use tuya_daemon.World.{Sys, Env, block, malloc, strdup, free_block, free}
use tuya_daemon.World.Logic.{Returns, ends, View, At, At-note, with_blocks, Keeps}
use tuya_daemon.World.Steps.Fresh.{note-fresh}

-- The blocks without the four that start at `f`.
abbrev pub without : ℕ → List ℕ → List ℕ
without f bs = remove (f + 3) (remove (f + 2) (remove (f + 1) (remove f bs)))

-- The four blocks that start at `f` are live.
pub record Holds (f : ℕ) (bs : List ℕ) : Type 0 where
  pub at0 : member f bs ≡ true
  pub at1 : member (f + 1) bs ≡ true
  pub at2 : member (f + 2) bs ≡ true
  pub at3 : member (f + 3) bs ≡ true

abbrev pub with_four : ℕ → List ℕ → List ℕ
with_four f bs = (f + 3) ∷ (f + 2) ∷ (f + 1) ∷ f ∷ bs

pub Holds-with_four : (f : ℕ) (bs : List ℕ) → Holds f (with_four f bs)
Holds-with_four f bs = record {
  at0 = ground arith;
  at1 = ground arith;
  at2 = ground arith;
  at3 = ground arith;
}

pub without-with_four : (f : ℕ) (bs : List ℕ) → without f (with_four f bs) ≡ bs
without-with_four f bs = ground arith

pub Holds-cons : (f c : ℕ) (bs : List ℕ) → Holds f bs → Holds f (c ∷ bs)
Holds-cons f c bs held = record {
  at0 = ground arith;
  at1 = ground arith;
  at2 = ground arith;
  at3 = ground arith;
}

-- The names that are still to be freed are live.
pub held1 : (f : ℕ) (l : List ℕ) → Holds f l → member (f + 1) (remove f l) ≡ true
held1 f l held = member-remove f (f + 1) l (ground arith) ∙ held.at1

pub held2 : (f : ℕ) (l : List ℕ) → Holds f l → member (f + 2) (remove (f + 1) (remove f l)) ≡ true
held2 f l held =
    member-remove (f + 1) (f + 2) _ (ground arith)
    ∙ (member-remove f (f + 2) l (ground arith) ∙ held.at2)

pub held3 :
    (f : ℕ) (l : List ℕ)
    → Holds f l
    → member (f + 3) (remove (f + 2) (remove (f + 1) (remove f l))) ≡ true
held3 f l held =
    member-remove (f + 2) (f + 3) _ (ground arith)
    ∙ (member-remove (f + 1) (f + 3) _ (ground arith)
        ∙ (member-remove f (f + 3) l (ground arith) ∙ held.at3))

without-length : (f : ℕ) (l : List ℕ) → Holds f l → length (without f l) + 4 ≡ length l
without-length f l held = omega (
  arith,
  remove-length f l held.at0,
  remove-length (f + 1) (remove f l) (held1 f l held),
  remove-length (f + 2) (remove (f + 1) (remove f l)) (held2 f l held),
  remove-length (f + 3) (remove (f + 2) (remove (f + 1) (remove f l))) (held3 f l held),
)

pub counted :
    (f c : ℕ) (bs l m : List ℕ)
    → m ≡ without f l
    → l ≡ c ∷ with_four f bs
    → length m ≡ length bs + 1
counted f c bs l m e e' =
    let n : length (without f l) + 4 ≡ length l =
      without-length f l (subst (Holds f) (sym e') (Holds-cons f c _ (Holds-with_four f bs))) in
    let n1 : length m ≡ length (without f l) = ap length e in
    let n2 : length l ≡ length (c ∷ with_four f bs) = ap length e' in omega arith

module _ (env : Env) {v : View} {t : Sys} (at : At v t) where
  pub free-Removes :
      (a : ℕ) (n : String)
      → member a v.blocks ≡ true
      → Returns (Keeps (with_blocks (remove a v.blocks) v)) (free env (block a n) t)
  unfolding free free_block
  free-Removes a n held = rw (at.blocks, held) (ends (At-note env _ refl (ground arith)))

  pub strdup-Named :
      (n : String)
      → Returns
          (λ p u.
            At (with_blocks (t.fresh ∷ v.blocks) v) u
            × ((p ≡ block t.fresh n) × (u.fresh ≡ t.fresh + 1)))
          (strdup env n t)
  unfolding strdup malloc
  strdup-Named n = ends (At-note env _ refl (ground arith), (refl, note-fresh env _ _))
